-- ===== src/Guest.antt =====
-- What a VM exit handler of NovaHypervisor/ works on: the VMCS, the guest's registers, and the
-- instructions with an effect outside of both, in the order in which they run.
use nova_hypervisor.Base.{ℕ, List, [], ◌∷◌, ◌++◌, ◌==◌, if◌then◌else◌}
use nova_hypervisor.Vmcs.{VmcsStore, VmcsField, encoding}

-- `GUEST_REGS` as the words from `&rax` on, which is how `HandleCRAccess` reads them.
abbrev pub GuestRegs : Type 0
GuestRegs = ℕ → ℕ

abbrev pub rax : ℕ
rax = 0

abbrev pub rcx : ℕ
rcx = 1

abbrev pub rdx : ℕ
rdx = 2

abbrev pub rbx : ℕ
rbx = 3

abbrev pub r8 : ℕ
r8 = 8

abbrev pub r9 : ℕ
r9 = 9

abbrev pub r10 : ℕ
r10 = 10

abbrev pub r11 : ℕ
r11 = 11

abbrev pub r12 : ℕ
r12 = 12

abbrev pub set_reg : ℕ → ℕ → GuestRegs → GuestRegs
set_reg i v regs j = if j == i then v else regs j

pub data Effect : Type 0 where
  writecr2 : ℕ → Effect
  writemsr : ℕ → ℕ → Effect
  xsetbv : ℕ → ℕ → Effect
  -- The type, and the descriptor's VPID and address, or EPT pointer.
  invvpid : ℕ → ℕ → ℕ → Effect
  invept : ℕ → ℕ → Effect
  wbinvd : Effect
  -- `DbgBreakPoint`.
  dbg_break_point : Effect
  writecr3 : ℕ → Effect
  writecr4 : ℕ → Effect
  -- The base and the limit.
  lgdt : ℕ → ℕ → Effect
  lidt : ℕ → ℕ → Effect
  vmclear : ℕ → Effect
  vmxoff : Effect

pub record Cpu (V : Type 0) : Type 0 where
  pub vmcs : V
  pub regs : GuestRegs
  pub effects : List Effect

module _ {V : Type 0} where
  abbrev pub emit : Effect → Cpu V → Cpu V
  emit e c = record c { effects = c.effects ++ e ∷ [] }

  abbrev pub set_regs : ℕ → ℕ → Cpu V → Cpu V
  set_regs i v c = record c { regs = set_reg i v c.regs }

  module _ (hw : VmcsStore V) where
    -- `__vmx_vmread` and `__vmx_vmwrite` of a named field.
    abbrev pub read : VmcsField → Cpu V → ℕ
    read f c = hw.vmread (encoding f) c.vmcs

    abbrev pub write : VmcsField → ℕ → Cpu V → Cpu V
    write f v c = record c { vmcs = hw.vmwrite (encoding f) v c.vmcs }
