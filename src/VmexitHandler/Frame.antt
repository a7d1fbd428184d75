-- ===== src/VmexitHandler/Frame.antt =====
-- The fields of the VMCS that the preparation and the end of an exit by VmexitHandler.cpp leave.
use nova_hypervisor.Base.{
  ℕ, ◌+◌, ◌/◌, ◌%◌, ◌^◌, if◌then◌else◌, ◌≡◌, ◌≢◌, refl, ◌∙◌, Bool, true, false, ◌||◌, not, truthy,
  bit_and, arith, Bool-cases, inl, inr,
}
use nova_hypervisor.Vmcs.{
  VmcsStore, vm_entry_intr_info_field, idt_vectoring_info_field, idt_vectoring_error_code,
  vm_exit_instruction_len, guest_rip, vm_entry_exception_error_code, vm_entry_instruction_len,
}
use nova_hypervisor.Guest.{Cpu, read, write}
use nova_hypervisor.EventInjection.{
  clear_pending_injection, reinject_event_from_idt_vectoring, setup_instruction_length,
  event_valid_mask, interrupt_info, vm_entry_event_mask, event_error_code_valid_mask,
  is_software_event, inject_interruption,
}
use nova_hypervisor.VmxHelper.{resume_to_next_instruction}

-- A field that is none of the three that say what the next entry delivers.
abbrev pub Apart : ℕ → Type 0
Apart g = (g ≢ 16406) × (g ≢ 16408) × (g ≢ 16410) × (g % 2 ≡ 0)

pub rip-Apart : Apart 26654
rip-Apart = (omega arith, omega arith, omega arith, refl)

pub length-Apart : Apart 17420
length-Apart = (omega arith, omega arith, omega arith, refl)

module _ {V : Type 0} (hw : VmcsStore V) (g : ℕ) (apart : Apart g) where
  abbrev held : Cpu V → ℕ
  held c = hw.vmread g c.vmcs

  held_if :
      (b : Bool) (x y : Cpu V) (v : ℕ) → held x ≡ v → held y ≡ v → held (if b then x else y) ≡ v
  held_if true x y v hx hy = hx
  held_if false x y v hx hy = hy

  keep_info : (v : ℕ) (s : V) → hw.vmread g (hw.vmwrite 16406 v s) ≡ hw.vmread g s
  keep_info v s = hw.read_other 16406 g v s (λ e. apart.0 (omega (arith, e))) refl apart.3

  keep_code : (v : ℕ) (s : V) → hw.vmread g (hw.vmwrite 16408 v s) ≡ hw.vmread g s
  keep_code v s = hw.read_other 16408 g v s (λ e. apart.1 (omega (arith, e))) refl apart.3

  keep_length : (v : ℕ) (s : V) → hw.vmread g (hw.vmwrite 16410 v s) ≡ hw.vmread g s
  keep_length v s = hw.read_other 16410 g v s (λ e. apart.2 (omega (arith, e))) refl apart.3

  pub clear_keeps :
      (c : Cpu V) → hw.vmread g (clear_pending_injection hw c).vmcs ≡ hw.vmread g c.vmcs
  unfolding clear_pending_injection
  clear_keeps c =
      keep_length 0 (hw.vmwrite 16408 0 (hw.vmwrite 16406 0 c.vmcs))
      ∙ keep_code 0 (hw.vmwrite 16406 0 c.vmcs)
      ∙ keep_info 0 c.vmcs

  setup_keeps : (c : Cpu V) → hw.vmread g (setup_instruction_length hw c).vmcs ≡ hw.vmread g c.vmcs
  unfolding setup_instruction_length
  setup_keeps c = keep_length (read hw vm_exit_instruction_len c) c.vmcs

  pub reinject_keeps :
      (c : Cpu V) → hw.vmread g (reinject_event_from_idt_vectoring hw c).0.vmcs ≡ hw.vmread g c.vmcs
  unfolding reinject_event_from_idt_vectoring
  reinject_keeps c =
      let entry = read hw vm_entry_intr_info_field c in
      let vectoring = read hw idt_vectoring_info_field c in
      let c1 = write hw vm_entry_intr_info_field (bit_and vectoring vm_entry_event_mask) c in
      let coded = truthy (bit_and vectoring event_error_code_valid_mask) in
      let code = read hw idt_vectoring_error_code c1 in
      let kept1 : held c1 ≡ held c = keep_info (bit_and vectoring vm_entry_event_mask) c.vmcs in
      let c2 = if coded then write hw vm_entry_exception_error_code code c1 else c1 in
      let kept2 : held c2 ≡ held c =
        held_if coded (write hw vm_entry_exception_error_code code c1) c1 (held c)
          (keep_code code c1.vmcs ∙ kept1) kept1 in
      let soft = is_software_event (bit_and (vectoring / 2 ^ 8) 7) in
      let kept3 : held (if soft then setup_instruction_length hw c2 else c2) ≡ held c =
        held_if soft (setup_instruction_length hw c2) c2 (held c) (setup_keeps c2 ∙ kept2) kept2 in
      elim (Bool-cases (
        truthy (bit_and entry event_valid_mask)
        || not (truthy (bit_and vectoring event_valid_mask)))) [
          | inl idle ↦ rw idle refl
          | inr busy ↦ rw busy kept3
        ]

  pub inject_keeps :
      (type vector error_code : ℕ) (deliver : Bool) (c : Cpu V)
      → hw.vmread g (inject_interruption hw type vector deliver error_code c).vmcs
        ≡ hw.vmread g c.vmcs
  unfolding inject_interruption
  inject_keeps type vector error_code deliver c =
      let info = interrupt_info type vector deliver in
      let code = if deliver then error_code else 0 in
      let c2 =
        write hw vm_entry_exception_error_code code (write hw vm_entry_intr_info_field info c) in
      let kept : held c2 ≡ held c =
        keep_code code (hw.vmwrite 16406 info c.vmcs) ∙ keep_info info c.vmcs in
      held_if (not (is_software_event type)) (write hw vm_entry_instruction_len 0 c2) c2 (held c)
        (keep_length 0 c2.vmcs ∙ kept) kept

-- An instruction that is done: RIP is behind it, and no other field is changed.
module _ {V : Type 0} (hw : VmcsStore V) (c : Cpu V) where
  pub resume_to_next_instruction_lem :
      read hw guest_rip (resume_to_next_instruction hw c)
      ≡ (read hw guest_rip c + read hw vm_exit_instruction_len c) % 2 ^ 64
  unfolding resume_to_next_instruction
  resume_to_next_instruction_lem =
      let next = (read hw guest_rip c + read hw vm_exit_instruction_len c) % 2 ^ 64 in
      hw.read_same 26654 next c.vmcs refl ∙ omega arith

-- The delivery again writes only fields of the VMCS.
pub reinject-rest :
    {V : Type 0} (hw : VmcsStore V) (c : Cpu V)
    → let c' = (reinject_event_from_idt_vectoring hw c).0 in
      (c'.regs ≡ c.regs) × (c'.effects ≡ c.effects)
unfolding reinject_event_from_idt_vectoring setup_instruction_length
reinject-rest hw c =
    let entry = read hw vm_entry_intr_info_field c in
    let vectoring = read hw idt_vectoring_info_field c in
    elim (Bool-cases (
      truthy (bit_and entry event_valid_mask)
      || not (truthy (bit_and vectoring event_valid_mask)))) [
        | inl idle ↦ rw idle (refl, refl)
        | inr busy ↦ elim (Bool-cases (truthy (bit_and vectoring event_error_code_valid_mask))) [
          | inl coded ↦ elim (Bool-cases (is_software_event (bit_and (vectoring / 2 ^ 8) 7))) [
            | inl soft ↦ rw (busy, coded, soft) (refl, refl)
            | inr hard ↦ rw (busy, coded, hard) (refl, refl)
          ]
          | inr plain ↦ elim (Bool-cases (is_software_event (bit_and (vectoring / 2 ^ 8) 7))) [
            | inl soft ↦ rw (busy, plain, soft) (refl, refl)
            | inr hard ↦ rw (busy, plain, hard) (refl, refl)
          ]
        ]
      ]
