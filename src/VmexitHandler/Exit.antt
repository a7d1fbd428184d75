-- ===== src/VmexitHandler/Exit.antt =====
-- Whole exits of NovaHypervisor/VmexitHandler.cpp: where the guest goes on, and with which event.
use nova_hypervisor.Base.{
  ℕ, ◌+◌, ◌%◌, ◌^◌, ◌≡◌, refl, ◌∙◌, Bool, true, false, if◌then◌else◌, Option, none, some,
  Bool-cases, inl, inr, List, [], ◌∷◌, ◌++◌,
}
use nova_hypervisor.Vmcs.{VmcsStore, guest_rip, vm_exit_instruction_len}
use nova_hypervisor.Guest.{read, Effect, wbinvd, dbg_break_point}
use nova_hypervisor.VmxHelper.{resume_to_next_instruction}
use nova_hypervisor.Vmx.{VmState}
use nova_hypervisor.VmexitHandler.Dispatch.{
  Platform, ExitReason, VmExitAction, exception_nmi, triple_fault, hlt, vmx_instruction, cr_access,
  msr_read, msr_write, cpuid, monitor_trap_flag, ept_violation, ept_misconfig, vmcall, xsetbv, invd,
  user_wait, unhandled, dispatch, finish_exit, is_advance,
}
use nova_hypervisor.VmexitHandler.Frame.{rip-Apart, reinject_keeps, resume_to_next_instruction_lem}

-- The exits that need nothing but the processor: whether the instruction is done.
abbrev pub is_done : ExitReason → Option Bool
is_done exception_nmi = none
is_done triple_fault = some false
is_done hlt = some true
is_done vmx_instruction = some true
is_done cr_access = none
is_done msr_read = none
is_done msr_write = none
is_done cpuid = some true
is_done monitor_trap_flag = none
is_done ept_violation = none
is_done ept_misconfig = some false
is_done vmcall = none
is_done xsetbv = none
is_done invd = some true
is_done user_wait = some true
is_done unhandled = some false

-- What these exits make the processor do: the caches are written back on INVD, and the host stops
-- in its debugger on what should not happen.
abbrev pub effects_of : ExitReason → List Effect
effects_of triple_fault = dbg_break_point ∷ []
effects_of ept_misconfig = dbg_break_point ∷ []
effects_of unhandled = dbg_break_point ∷ []
effects_of invd = wbinvd ∷ []
effects_of _ = []

module _ {V P : Type 0} (hw : VmcsStore V) (m : Platform V P) where
  abbrev pub rip : VmState V P → ℕ
  rip s = read hw guest_rip s.ept.cpu

  abbrev pub length : VmState V P → ℕ
  length s = read hw vm_exit_instruction_len s.ept.cpu

  -- The end of an exit, with VMX on.
  pub finish_exit-rip :
      (s : VmState V P) (action : VmExitAction)
      → s.vmxoff_state.is_vmxoff_executed ≡ false
      → let (s', off) = finish_exit hw m (s, action) in
        (off ≡ false)
        × (rip s' ≡ (if is_advance hw m action then (rip s + length s) % 2 ^ 64 else rip s))
  unfolding finish_exit
  finish_exit-rip s action on = elim (Bool-cases (is_advance hw m action)) [
    | inl advance ↦
        rw (on, advance)
          (
            refl,
            reinject_keeps hw 26654 rip-Apart (resume_to_next_instruction hw s.ept.cpu)
                ∙ resume_to_next_instruction_lem hw s.ept.cpu,
          )
    | inr stay ↦ rw (on, stay) (refl, reinject_keeps hw 26654 rip-Apart s.ept.cpu)
  ]

  -- What the switch keeps on the exits that need nothing but the processor.
  abbrev Kept : ExitReason → ℕ → VmState V P → Bool → Type 0
  Kept r q s done =
      let (s', action) = dispatch hw m r q s in
      (is_advance hw m action ≡ done)
      × (rip s' ≡ rip s)
      × (length s' ≡ length s)
      × (s'.vmxoff_state ≡ s.vmxoff_state)
      × (s'.ept.cpu.effects ≡ s.ept.cpu.effects ++ effects_of r)
