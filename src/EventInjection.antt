-- ===== src/EventInjection.antt =====
-- NovaHypervisor/EventInjection.cpp and EventInjection.h: what is delivered to the guest at the
-- next VM entry.
pub mod Laws
pub mod Delivery
mod Tests
use nova_hypervisor.Base.{
  ℕ, ◌+◌, ◌*◌, ◌/◌, ◌%◌, ◌^◌, Bool, true, false, not, ◌||◌, ◌==◌, truthy, if◌then◌else◌, bit_and,
}
use nova_hypervisor.Vmcs.{
  VmcsStore, vm_entry_intr_info_field, vm_entry_exception_error_code, vm_entry_instruction_len,
  vm_exit_instruction_len, idt_vectoring_info_field, idt_vectoring_error_code,
  vm_exit_intr_error_code,
}
use nova_hypervisor.Guest.{Cpu, emit, read, write, writecr2}

abbrev pub event_valid_mask : ℕ
event_valid_mask = 2147483648

abbrev pub event_error_code_valid_mask : ℕ
event_error_code_valid_mask = 2048

-- The two masks and `0x7ff`.
abbrev pub vm_entry_event_mask : ℕ
vm_entry_event_mask = 2147487743

-- `INTERRUPT_TYPE`, by number.
abbrev pub hardware_exception : ℕ
hardware_exception = 3

abbrev pub software_exception : ℕ
software_exception = 6

-- The vectors of `EXCEPTION_VECTORS` that the handlers inject.
abbrev pub breakpoint : ℕ
breakpoint = 3

abbrev pub undefined_opcode : ℕ
undefined_opcode = 6

abbrev pub general_protection_fault : ℕ
general_protection_fault = 13

abbrev pub page_fault : ℕ
page_fault = 14

-- The word of `INTERRUPT_INFO` with `Valid` set and `Reserved` clear.
abbrev pub interrupt_info : ℕ → ℕ → Bool → ℕ
interrupt_info type vector deliver =
    vector % 2 ^ 8 + type % 2 ^ 3 * 2 ^ 8 + (if deliver then 2 ^ 11 else 0) + 2 ^ 31

-- The members of `VMEXIT_INTERRUPT_INFO` that are read.
abbrev pub exit_valid : ℕ → Bool
exit_valid flags = truthy (flags / 2 ^ 31 % 2)

abbrev pub exit_error_code_valid : ℕ → Bool
exit_error_code_valid flags = truthy (flags / 2 ^ 11 % 2)

abbrev pub interruption_type : ℕ → ℕ
interruption_type flags = flags / 2 ^ 8 % 2 ^ 3

abbrev pub is_software_event : ℕ → Bool
is_software_event type = type == 4 || (type == 5 || type == 6)

module _ {V : Type 0} (hw : VmcsStore V) where
  unfoldable pub clear_pending_injection : Cpu V → Cpu V
  clear_pending_injection c =
      write hw vm_entry_instruction_len 0
        (write hw vm_entry_exception_error_code 0 (write hw vm_entry_intr_info_field 0 c))

  unfoldable pub setup_instruction_length : Cpu V → Cpu V
  setup_instruction_length c =
      write hw vm_entry_instruction_len (read hw vm_exit_instruction_len c) c

  unfoldable pub reinject_event_from_idt_vectoring : Cpu V → Cpu V × Bool
  reinject_event_from_idt_vectoring c =
      let entry = read hw vm_entry_intr_info_field c in
      let vectoring = read hw idt_vectoring_info_field c in
      if truthy (bit_and entry event_valid_mask)
        || not (truthy (bit_and vectoring event_valid_mask))
      then (c, false)
      else let c1 = write hw vm_entry_intr_info_field (bit_and vectoring vm_entry_event_mask) c in
        let c2 =
          if truthy (bit_and vectoring event_error_code_valid_mask)
          then write hw vm_entry_exception_error_code (read hw idt_vectoring_error_code c1) c1
          else c1 in
        (
          if is_software_event (bit_and (vectoring / 2 ^ 8) 7)
              then setup_instruction_length c2
              else c2,
          true,
        )

  unfoldable pub inject_event_from_vm_exit_interruption : ℕ → Cpu V → Cpu V × Bool
  inject_event_from_vm_exit_interruption flags c =
      if not (exit_valid flags)
      then (c, false)
      else let c1 = write hw vm_entry_intr_info_field (bit_and flags vm_entry_event_mask) c in
        let c2 =
          if exit_error_code_valid flags
          then write hw vm_entry_exception_error_code (read hw vm_exit_intr_error_code c1) c1
          else write hw vm_entry_exception_error_code 0 c1 in
        (
          if is_software_event (interruption_type flags)
              then setup_instruction_length c2
              else write hw vm_entry_instruction_len 0 c2,
          true,
        )

  unfoldable pub inject_interruption : ℕ → ℕ → Bool → ℕ → Cpu V → Cpu V
  inject_interruption type vector deliver error_code c =
      let c1 = write hw vm_entry_intr_info_field (interrupt_info type vector deliver) c in
      let c2 = write hw vm_entry_exception_error_code (if deliver then error_code else 0) c1 in
      if not (is_software_event type) then write hw vm_entry_instruction_len 0 c2 else c2

  unfoldable pub inject_breakpoint : Cpu V → Cpu V
  inject_breakpoint c =
      setup_instruction_length (inject_interruption software_exception breakpoint false 0 c)

  unfoldable pub inject_general_protection : Cpu V → Cpu V
  inject_general_protection = inject_interruption hardware_exception general_protection_fault true 0

  unfoldable pub inject_undefined_opcode : Cpu V → Cpu V
  inject_undefined_opcode = inject_interruption hardware_exception undefined_opcode false 0

  unfoldable pub inject_page_fault : ℕ → ℕ → Cpu V → Cpu V
  inject_page_fault address error_code c =
      inject_interruption hardware_exception page_fault true error_code (emit (writecr2 address) c)
