-- ===== src/RegistersHandler.antt =====
-- NovaHypervisor/RegistersHandler.cpp: the exits of the guest on control registers, MSRs and CPUID.
-- What RDMSR and CPUID return is an argument.
pub mod Laws
pub mod Control
mod Tests
use nova_hypervisor.Base.{
  ℕ, ◌+◌, ◌*◌, ◌-◌, ◌/◌, ◌%◌, ◌^◌, Bool, true, false, not, ◌&&◌, ◌||◌, ◌==◌, ltb, leb, truthy,
  if◌then◌else◌, bit_and, bit_or,
}
use nova_hypervisor.Vmcs.{
  VmcsStore, exit_qualification, guest_rsp, guest_cr0, guest_cr3, guest_cr4, cr0_read_shadow,
  cr4_read_shadow,
}
use nova_hypervisor.Guest.{Cpu, emit, read, write, set_regs, writemsr, rax, rbx, rcx, rdx}
use nova_hypervisor.VmxHelper.{low, high, sign_extend, invalidate_vpid, get_vpid_tag_for_processor}

abbrev between : ℕ → ℕ → ℕ → Bool
between lower upper msr = leb lower msr && leb msr upper

-- The ranges of the default case of `IsHyperVSyntheticMsr`.
abbrev pub in_synthetic_range : ℕ → Bool
in_synthetic_range msr =
    between 1073741936 1073741938 msr
    || (between 1073741952 1073741956 msr
        || (between 1073741968 1073741983 msr
            || (between 1073742000 1073742007 msr
                || (between 1073742080 1073742085 msr
                    || (between 1073746048 1073746052 msr || between 1073746064 1073746079 msr)))))

-- The single registers of its cases: 0x40000000 to 3, 0x10, 0x20 to 23, 0x40, 0xF0, 0x106 to 108,
-- 0x114, 0x115 and 0x1002.
unfoldable pub is_hyper_v_synthetic_msr : ℕ → Bool
is_hyper_v_synthetic_msr msr =
    msr == 1073741824
    || (msr == 1073741825
        || (msr == 1073741826
            || (msr == 1073741827
                || (msr == 1073741840
                    || (msr == 1073741856
                        || (msr == 1073741857
                            || (msr == 1073741858
                                || (msr == 1073741859
                                    || (msr == 1073741888
                                        || (msr == 1073742064
                                            || (msr == 1073742086
                                                || (msr == 1073742087
                                                    || (msr == 1073742088
                                                        || (msr == 1073742100
                                                            || (msr == 1073742101
                                                            || (msr == 1073745922
                                                            || in_synthetic_range
                                                            msr))))))))))))))))

unfoldable pub is_valid_msr : ℕ → Bool
is_valid_msr rcx =
    leb rcx 8191 || (between 3221225472 3221233663 rcx || is_hyper_v_synthetic_msr rcx)

-- `MOV_CR_QUALIFICATION`.
abbrev pub control_register : ℕ → ℕ
control_register all = all % 2 ^ 4

abbrev pub access_type : ℕ → ℕ
access_type all = all / 2 ^ 4 % 2 ^ 2

abbrev pub register : ℕ → ℕ
register all = all / 2 ^ 8 % 2 ^ 4

-- `'0#vH'` as the compiler packs it.
abbrev pub interface_signature : ℕ
interface_signature = 807630408

-- The four words of CPUID after the changes that `HandleCpuid` makes for some leaves.
unfoldable pub masked_leaf : ℕ → ℕ × ℕ × ℕ × ℕ → ℕ × ℕ × ℕ × ℕ
masked_leaf leaf (a, b, c, d) =
    if leaf == 1
    then (a, b, bit_or c 2147483648, d)
    else if leaf == 1073741825
    then (interface_signature, b, c, d)
    else if leaf == 1073741827
    then (a, b, c, bit_and d 4294934511)
    else (a, b, c, d)

module _ {V : Type 0} where
  unfoldable pub handle_msr_read : (ℕ → ℕ) → Cpu V → Cpu V × Bool
  handle_msr_read readmsr cpu =
      let msr = cpu.regs rcx in
      let content = readmsr (msr % 2 ^ 32) in
      let answered = set_regs rdx (high content) (set_regs rax (low content) cpu) in
      if is_hyper_v_synthetic_msr msr
      then (answered, true)
      else if not (is_valid_msr msr)
      then (cpu, false)
      else (answered, true)

  unfoldable pub handle_msr_write : Cpu V → Cpu V × Bool
  handle_msr_write cpu =
      let msr = cpu.regs rcx in
      let content = low (cpu.regs rax) + low (cpu.regs rdx) * 2 ^ 32 in
      let done = emit (writemsr (msr % 2 ^ 32) content) cpu in
      if is_hyper_v_synthetic_msr msr
      then (done, true)
      else if not (is_valid_msr msr)
      then (cpu, false)
      else (done, true)

  unfoldable pub handle_cpuid : (ℕ → ℕ → ℕ × ℕ × ℕ × ℕ) → Cpu V → Cpu V × Bool
  handle_cpuid cpuidex cpu =
      let (a, b, c, d) =
        masked_leaf (cpu.regs rax) (cpuidex (low (cpu.regs rax)) (low (cpu.regs rcx))) in
      (
        set_regs rdx (sign_extend d) (
            set_regs rcx (sign_extend c)
              (set_regs rbx (sign_extend b) (set_regs rax (sign_extend a) cpu))),
        true,
      )

  module _ (hw : VmcsStore V) where
    -- The register of the exit; number 4 is the stack pointer, which the VMCS keeps.
    abbrev pub operand : ℕ → Cpu V → ℕ
    operand r cpu = if r == 4 then read hw guest_rsp cpu else cpu.regs r

    abbrev pub set_operand : ℕ → ℕ → Cpu V → Cpu V
    set_operand r v cpu = if r == 4 then write hw guest_rsp v cpu else set_regs r v cpu

    unfoldable pub mov_from_cr : ℕ → ℕ → Cpu V → Cpu V × Bool
    mov_from_cr cr r cpu =
        if cr == 0
        then (set_operand r (read hw guest_cr0 cpu) cpu, true)
        else if cr == 3
        then (set_operand r (read hw guest_cr3 cpu) cpu, true)
        else if cr == 4
        then (set_operand r (read hw guest_cr4 cpu) cpu, true)
        else (cpu, false)

    -- The settings of the processor: `VpidSupported`, and the processor's number.
    module _ (vpid_supported : Bool) (processor : ℕ) where
      unfoldable pub mov_to_cr : ℕ → ℕ → Cpu V → Cpu V × Bool
      mov_to_cr cr value cpu =
          if cr == 0
          then (write hw cr0_read_shadow value (write hw guest_cr0 value cpu), true)
          else if cr == 3
          then (
            invalidate_vpid vpid_supported (get_vpid_tag_for_processor processor) 0
                (write hw guest_cr3 (bit_and value 9223372036854775807) cpu),
            true,
          )
          else if cr == 4
          then (write hw cr4_read_shadow value (write hw guest_cr4 value cpu), true)
          else (cpu, false)

      unfoldable pub handle_cr_access : Cpu V → Cpu V × Bool
      handle_cr_access cpu =
          let qual = read hw exit_qualification cpu in
          let value = operand (register qual) cpu in
          if ltb 1 (access_type qual)
          then (cpu, false)
          else if access_type qual == 0
          then mov_to_cr (control_register qual) value cpu
          else mov_from_cr (control_register qual) (register qual) cpu
