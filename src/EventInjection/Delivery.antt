-- ===== src/EventInjection/Delivery.antt =====
-- The events that EventInjection.cpp takes over from a VM exit: interrupted deliveries and
-- exceptions of the guest.
use nova_hypervisor.Base.{
  ℕ, ◌/◌, ◌%◌, ◌^◌, ◌<◌, ◌≡◌, ◌⊎◌, refl, ◌∙◌, inl, inr, Bool, true, false, if◌then◌else◌, bit_and,
  Bool-cases, arith, ◌++◌, [], ◌∷◌,
}
use nova_hypervisor.Vmcs.{
  VmcsStore, vm_entry_intr_info_field, vm_entry_exception_error_code, vm_entry_instruction_len,
  vm_exit_instruction_len, idt_vectoring_info_field, idt_vectoring_error_code,
  vm_exit_intr_error_code,
}
use nova_hypervisor.Guest.{Cpu, read, write, emit, writecr2}
use nova_hypervisor.EventInjection.{
  vm_entry_event_mask, is_software_event, reinject_event_from_idt_vectoring,
  inject_event_from_vm_exit_interruption, exit_valid, exit_error_code_valid, interruption_type,
  setup_instruction_length, inject_breakpoint, inject_interruption, interrupt_info,
  inject_page_fault,
}
use nova_hypervisor.EventInjection.Laws.{
  Delivers, Entry, masked-IsEvent, valid_bit, code_bit, type_bits, fits, setup_length, masked-Entry,
  masked, coded_length, masked_length, masked_exit_code, masked_idt_code, set_code, set_length,
  Entry-as, old_length, IsEvent, inject_interruption_lem,
}

exit_valid→one : (w : ℕ) → exit_valid w ≡ true → w / 2 ^ 31 % 2 ≡ 1
exit_valid→one w h = ground arith

module _ {V : Type 0} (hw : VmcsStore V) (c : Cpu V) where
  -- The steps after the error code, where the event word is masked and the code is `code`.
  module _ (flags code : ℕ) (valid : exit_valid flags ≡ true) (c2 : Cpu V)
      (e : Entry hw (bit_and flags vm_entry_event_mask % 2 ^ 32) code (old_length hw c) c2)
      (same : read hw vm_exit_instruction_len c2 ≡ read hw vm_exit_instruction_len c) where
    abbrev soft : Bool
    soft = is_software_event (interruption_type flags)

    finish_exit : Delivers hw flags code (if soft then read hw vm_exit_instruction_len c else 0) (
      if soft then setup_instruction_length hw c2 else write hw vm_entry_instruction_len 0 c2,
      true,
    )
    finish_exit = record {
      accepted = refl;
      info = bit_and flags vm_entry_event_mask % 2 ^ 32;
      event = masked-IsEvent flags (exit_valid→one flags valid);
      entry = elim (Bool-cases soft) [
        | inl is_soft ↦ rw is_soft (Entry-as hw refl same (setup_length hw c2 e))
        | inr is_hard ↦ rw is_hard (set_length hw c2 e 0)
      ];
    }

    finish_idt :
        Delivers hw flags code
          (if soft then read hw vm_exit_instruction_len c else old_length hw c)
          (if soft then setup_instruction_length hw c2 else c2, true)
    finish_idt = record {
      accepted = refl;
      info = bit_and flags vm_entry_event_mask % 2 ^ 32;
      event = masked-IsEvent flags (exit_valid→one flags valid);
      entry = elim (Bool-cases soft) [
        | inl is_soft ↦ rw is_soft (Entry-as hw refl same (setup_length hw c2 e))
        | inr is_hard ↦ rw is_hard e
      ];
    }

  -- A valid exception of the guest is delivered to the guest as it came, with its error code where
  -- it has one and 0 where not, and with the length of the instruction where it is a software
  -- event and 0 where not.
  pub inject_event_lem :
      (flags : ℕ)
      → exit_valid flags ≡ true
      → Delivers hw flags
          (if exit_error_code_valid flags then read hw vm_exit_intr_error_code c else 0)
          (if is_software_event (interruption_type flags)
            then read hw vm_exit_instruction_len c
            else 0)
          (inject_event_from_vm_exit_interruption hw flags c)
  unfolding inject_event_from_vm_exit_interruption
  inject_event_lem flags valid = elim (Bool-cases (exit_error_code_valid flags)) [
    | inl code ↦
        let err = read hw vm_exit_intr_error_code (masked hw c flags) in
        let e = set_code hw _ (masked-Entry hw c flags) err in
        let e' =
          Entry-as hw (fits hw 17414 (masked hw c flags) refl ∙ masked_exit_code hw c flags) refl
            e in
        rw (valid, code, inject_event_from_vm_exit_interruption)
          (finish_exit flags _ valid _ e' (coded_length hw c flags err))
    | inr no_code ↦
        let e = set_code hw _ (masked-Entry hw c flags) 0 in
        rw (valid, no_code, inject_event_from_vm_exit_interruption)
          (finish_exit flags _ valid _ e (coded_length hw c flags 0))
  ]

  -- A delivery that an exit interrupted is made again with its vector, type and error code, and
  -- with the length of its instruction where it is a software event, unless another event is pending.
  pub reinject_lem :
      exit_valid (read hw vm_entry_intr_info_field c) ≡ false
      → exit_valid (read hw idt_vectoring_info_field c) ≡ true
      → (let flags = read hw idt_vectoring_info_field c in
          Delivers hw flags
            (if exit_error_code_valid flags
              then read hw idt_vectoring_error_code c
              else read hw vm_entry_exception_error_code c)
            (if is_software_event (interruption_type flags)
              then read hw vm_exit_instruction_len c
              else old_length hw c)
            (reinject_event_from_idt_vectoring hw c))
  unfolding reinject_event_from_idt_vectoring
  reinject_lem idle valid =
      let flags = read hw idt_vectoring_info_field c in
      let entry = read hw vm_entry_intr_info_field c in
      elim (Bool-cases (exit_error_code_valid flags)) [
        | inl code ↦
            let err = read hw idt_vectoring_error_code (masked hw c flags) in
            let e = set_code hw _ (masked-Entry hw c flags) err in
            let e' =
              Entry-as hw (fits hw 17418 (masked hw c flags) refl ∙ masked_idt_code hw c flags) refl
                e in
            rw
              (
                valid_bit hw entry,
                valid_bit hw flags,
                code_bit hw flags,
                type_bits hw flags,
                idle,
                valid,
                code,
                reinject_event_from_idt_vectoring,
              )
              (finish_idt flags _ valid _ e' (coded_length hw c flags err))
        | inr no_code ↦
            rw
              (
                valid_bit hw entry,
                valid_bit hw flags,
                code_bit hw flags,
                type_bits hw flags,
                idle,
                valid,
                no_code,
                reinject_event_from_idt_vectoring,
              )
              (finish_idt flags _ valid _ (masked-Entry hw c flags) (masked_length hw c flags))
      ]

  -- With an event pending, or with no delivery interrupted, nothing changes and the answer is false.
  pub reinject_idle :
      (exit_valid (read hw vm_entry_intr_info_field c) ≡ true)
        ⊎ (exit_valid (read hw idt_vectoring_info_field c) ≡ false)
      → reinject_event_from_idt_vectoring hw c ≡ (c, false)
  unfolding reinject_event_from_idt_vectoring
  reinject_idle h =
      rw
        (
          valid_bit hw (read hw vm_entry_intr_info_field c),
          valid_bit hw (read hw idt_vectoring_info_field c),
        )
        (ground (arith, h))

  -- `InjectBreakpoint` leaves a software exception of vector 3 pending, without an error code and
  -- with the length of the instruction that caused the exit.
  pub inject_breakpoint_lem :
      (info : ℕ) × IsEvent 6 3 false info
      × Entry hw info 0 (read hw vm_exit_instruction_len c) (inject_breakpoint hw c)
  unfolding inject_breakpoint inject_interruption
  inject_breakpoint_lem =
      let (info, event, entry) =
        inject_interruption_lem hw c 6 3 0 false (omega arith) (omega arith) (omega arith) in
      (
        info,
        event,
        Entry-as hw refl
            (hw.read_other 16408 17420 0 _ (omega arith) refl refl
              ∙ hw.read_other 16406 17420 (interrupt_info 6 3 false) c.vmcs (omega arith) refl refl)
            (setup_length hw _ entry),
      )

  -- `InjectPageFault` puts the address into CR2 and leaves a page fault pending with its error code.
  pub inject_page_fault_lem :
      (address error_code : ℕ)
      → error_code < 2 ^ 32
      → ((inject_page_fault hw address error_code c).effects ≡ c.effects ++ writecr2 address ∷ [])
        × (info : ℕ) × IsEvent 3 14 true info
        × Entry hw info error_code 0 (inject_page_fault hw address error_code c)
  unfolding inject_page_fault inject_interruption
  inject_page_fault_lem address error_code h =
      let (info, event, entry) =
        inject_interruption_lem hw (emit (writecr2 address) c) 3 14 error_code true (omega arith)
          (omega arith) h in
      (refl, info, event, entry)
