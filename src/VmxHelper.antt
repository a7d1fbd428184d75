-- ===== src/VmxHelper.antt =====
-- NovaHypervisor/VmxHelper.cpp: the parts that handlers of VM exits call. What CPUID and RDMSR
-- return is an argument.
pub mod Laws
pub mod Capabilities
pub mod Support
mod Tests
pub mod Segments
use nova_hypervisor.Base.{
  ℕ, ◌+◌, ◌*◌, ◌-◌, ◌/◌, ◌%◌, ◌^◌, Bool, true, false, not, ◌&&◌, ◌||◌, ◌==◌, ltb, truthy,
  if◌then◌else◌, bit_and, bit_or, Option, none, some,
}
use nova_hypervisor.Vmcs.{
  VmcsStore, guest_rip, vm_exit_instruction_len, cpu_based_vm_exec_control, guest_es_selector,
  guest_es_limit, guest_es_ar_bytes, guest_es_base, encoding,
}
use nova_hypervisor.Guest.{Cpu, emit, read, write, invvpid, invept}

-- `MSR`: the two halves of the word.
abbrev pub low : ℕ → ℕ
low content = content % 2 ^ 32

abbrev pub high : ℕ → ℕ
high content = content / 2 ^ 32 % 2 ^ 32

-- `content` is what `__readmsr` returns for the capability register.
unfoldable pub adjust_controls : ℕ → ℕ → ℕ
adjust_controls ctl content = bit_or (bit_and ctl (high content)) (low content)

unfoldable pub get_vpid_tag_for_processor : ℕ → ℕ
get_vpid_tag_for_processor processor_index = (1 + processor_index) % 2 ^ 32 % 2 ^ 16

abbrev pub cpu_based_monitor_trap_flag : ℕ
cpu_based_monitor_trap_flag = 134217728

-- `SEGMENT_DESCRIPTOR`, and the word behind it in the table.
pub record SegmentDescriptor : Type 0 where
  pub limit0 : ℕ
  pub base0 : ℕ
  pub base1 : ℕ
  pub attr0 : ℕ
  pub limit1attr1 : ℕ
  pub base2 : ℕ
  pub next : ℕ

pub record SegmentSelector : Type 0 where
  pub sel : ℕ
  pub attributes : ℕ
  pub limit : ℕ
  pub base : ℕ

-- An `int` where it becomes a word of 64 bits.
abbrev pub sign_extend : ℕ → ℕ
sign_extend v = if ltb v (2 ^ 31) then v else v + (2 ^ 64 - 2 ^ 32)

-- `gdt` is the table: the descriptor at each offset. `none` is the answer false.
unfoldable pub get_segment_descriptor : (ℕ → SegmentDescriptor) → ℕ → Option SegmentSelector
get_segment_descriptor gdt selector =
    if truthy (bit_and selector 4)
    then none
    else let desc = gdt (selector / 8 * 8) in
      let base =
        sign_extend (bit_or (bit_or desc.base0 (desc.base1 * 2 ^ 16)) (desc.base2 * 2 ^ 24)) in
      let limit = bit_or desc.limit0 (bit_and desc.limit1attr1 15 * 2 ^ 16) in
      let attributes = bit_or desc.attr0 (bit_and desc.limit1attr1 240 * 2 ^ 4) in
      some (record {
        sel = selector;
        attributes = attributes;
        limit =
            if truthy (attributes / 2 ^ 11 % 2)
            then (limit * 2 ^ 12 % 2 ^ 32 + 4095) % 2 ^ 32
            else limit;
        base =
            if truthy (bit_and desc.attr0 16)
            then base
            else bit_or (bit_and base (2 ^ 32 - 1)) (desc.next * 2 ^ 32 % 2 ^ 64);
      })

abbrev pub access_rights : ℕ → ℕ → ℕ
access_rights selector attributes =
    let rights = attributes % 2 ^ 8 + attributes / 2 ^ 8 % 2 ^ 8 * 2 ^ 12 in
    if selector == 0 then bit_or rights 65536 else rights

module _ {V : Type 0} where
  -- The types of INVVPID and of INVEPT are those of `InvvpidType` and `INVEPT_TYPE`; a VPID is a
  -- field of 16 bits.
  unfoldable pub invalidate_vpid : Bool → ℕ → ℕ → Cpu V → Cpu V
  invalidate_vpid vpid_supported vpid address c =
      if not vpid_supported
      then c
      else if truthy vpid
      then (if truthy address
          then emit (invvpid 0 (vpid % 2 ^ 16) address) c
          else emit (invvpid 1 (vpid % 2 ^ 16) 0) c)
      else emit (invvpid 2 0 0) c

  unfoldable pub invalidate_ept : ℕ → Cpu V → Cpu V
  invalidate_ept context c =
      if truthy context then emit (invept 1 context) c else emit (invept 2 0) c

  module _ (hw : VmcsStore V) where
    unfoldable pub resume_to_next_instruction : Cpu V → Cpu V
    resume_to_next_instruction c =
        write hw guest_rip ((read hw guest_rip c + read hw vm_exit_instruction_len c) % 2 ^ 64) c

    -- `~CPU_BASED_MONITOR_TRAP_FLAG`.
    unfoldable pub set_monitor_trap_flag : Bool → Cpu V → Cpu V
    set_monitor_trap_flag on c =
        let controls = read hw cpu_based_vm_exec_control c in
        write hw cpu_based_vm_exec_control
          (if on then bit_or controls cpu_based_monitor_trap_flag else bit_and controls 4160749567)
          c

    unfoldable pub fill_guest_selector_data : (ℕ → SegmentDescriptor) → ℕ → ℕ → Cpu V → Cpu V × Bool
    fill_guest_selector_data gdt segment_register selector c =
        elim (get_segment_descriptor gdt selector) [
          | none ↦ (c, false)
          | some s ↦
              let at = segment_register * 2 in
              let v1 = hw.vmwrite (encoding guest_es_selector + at) selector c.vmcs in
              let v2 = hw.vmwrite (encoding guest_es_limit + at) s.limit v1 in
              let v3 =
                hw.vmwrite (encoding guest_es_ar_bytes + at) (access_rights selector s.attributes)
                  v2 in
              let v4 = hw.vmwrite (encoding guest_es_base + at) s.base v3 in
              (record c { vmcs = v4 }, true)
        ]
