-- ===== src/EventInjection/Laws.antt =====
-- What the guest receives from each routine of EventInjection.cpp.
use mathlib.Core.Path.{subst}
use nova_hypervisor.Base.{
  ℕ, ◌+◌, ◌*◌, ◌/◌, ◌%◌, ◌^◌, ◌<◌, ◌≡◌, ◌≢◌, refl, ◌∙◌, ap, inl, inr, Bool, true, false, truthy,
  if◌then◌else◌, bit_and, bit_and_low_part, bit_and_bit, bit_and_low, Bool-cases, arith,
}
use nova_hypervisor.Vmcs.{
  VmcsStore, width, vm_entry_intr_info_field, vm_entry_exception_error_code,
  vm_entry_instruction_len, vm_exit_instruction_len, idt_vectoring_error_code,
  vm_exit_intr_error_code,
}
use nova_hypervisor.Guest.{Cpu, read, write}
use nova_hypervisor.EventInjection.{
  event_valid_mask, event_error_code_valid_mask, vm_entry_event_mask, interrupt_info,
  is_software_event, inject_interruption, setup_instruction_length, exit_valid,
  exit_error_code_valid, interruption_type,
}

-- The event mask keeps the vector, the type, and both valid bits, and clears the rest.
pub event_mask_lem : (x : ℕ) → bit_and x vm_entry_event_mask ≡ x / 2 ^ 31 % 2 * 2 ^ 31 + x % 2 ^ 12
event_mask_lem x = bit_and_low_part 12 x (2 ^ 19) ∙ ground (arith, bit_and_bit 19 (x / 2 ^ 12))

-- The word of an event that is valid: its vector, its type, whether it delivers an error code, and
-- 0 in the bits that are reserved.
pub record IsEvent (type vector : ℕ) (has_code : Bool) (word : ℕ) : Type 0 where
  pub valid : word / 2 ^ 31 ≡ 1
  pub of_vector : word % 2 ^ 8 ≡ vector
  pub of_type : word / 2 ^ 8 % 2 ^ 3 ≡ type
  pub with_code : truthy (word / 2 ^ 11 % 2) ≡ has_code
  pub reserved : word / 2 ^ 12 % 2 ^ 19 ≡ 0

interrupt_info-IsEvent :
    (type vector : ℕ) (deliver : Bool)
    → type < 8
    → vector < 256
    → IsEvent type vector deliver (interrupt_info type vector deliver % 2 ^ 32)
interrupt_info-IsEvent type vector true ht hv = record {
  valid = omega arith;
  of_vector = omega arith;
  of_type = omega arith;
  with_code = ground arith;
  reserved = omega arith;
}
interrupt_info-IsEvent type vector false ht hv = record {
  valid = omega arith;
  of_vector = omega arith;
  of_type = omega arith;
  with_code = ground arith;
  reserved = omega arith;
}

pub masked-IsEvent :
    (x : ℕ)
    → x / 2 ^ 31 % 2 ≡ 1
    → IsEvent
        (x / 2 ^ 8 % 2 ^ 3)
        (x % 2 ^ 8)
        (truthy (x / 2 ^ 11 % 2))
        (bit_and x vm_entry_event_mask % 2 ^ 32)
masked-IsEvent x h = record {
  valid = omega (arith, event_mask_lem x);
  of_vector = omega (arith, event_mask_lem x);
  of_type = omega (arith, event_mask_lem x);
  with_code = ap truthy (omega (arith, event_mask_lem x));
  reserved = omega (arith, event_mask_lem x);
}

module _ {V : Type 0} (hw : VmcsStore V) where
  -- The three fields that say what the next VM entry delivers.
  pub record Entry (info code length : ℕ) (c : Cpu V) : Type 0 where
    pub of_info : read hw vm_entry_intr_info_field c ≡ info
    pub of_code : read hw vm_entry_exception_error_code c ≡ code
    pub of_length : read hw vm_entry_instruction_len c ≡ length

  other :
      (f g v : ℕ) (c : Cpu V)
      → f ≢ g
      → f % 2 ≡ 0
      → g % 2 ≡ 0
      → hw.vmread g (hw.vmwrite f v c.vmcs) ≡ hw.vmread g c.vmcs
  other f g v c = hw.read_other f g v c.vmcs

  pub Entry-as :
      {info code code' length length' : ℕ} {c : Cpu V}
      → code ≡ code'
      → length ≡ length'
      → Entry info code length c
      → Entry info code' length' c
  Entry-as p q e = record {
    of_info = e.of_info;
    of_code = e.of_code ∙ p;
    of_length = e.of_length ∙ q;
  }

  module _ {info code length : ℕ} (c : Cpu V) (e : Entry info code length c) (v : ℕ) where
    set_info : Entry (v % 2 ^ 32) code length (write hw vm_entry_intr_info_field v c)
    set_info = record {
      of_info = hw.read_same 16406 v c.vmcs refl;
      of_code = other 16406 16408 v c (omega arith) refl refl ∙ e.of_code;
      of_length = other 16406 16410 v c (omega arith) refl refl ∙ e.of_length;
    }

    pub set_code : Entry info (v % 2 ^ 32) length (write hw vm_entry_exception_error_code v c)
    set_code = record {
      of_info = other 16408 16406 v c (omega arith) refl refl ∙ e.of_info;
      of_code = hw.read_same 16408 v c.vmcs refl;
      of_length = other 16408 16410 v c (omega arith) refl refl ∙ e.of_length;
    }

    pub set_length : Entry info code (v % 2 ^ 32) (write hw vm_entry_instruction_len v c)
    set_length = record {
      of_info = other 16410 16406 v c (omega arith) refl refl ∙ e.of_info;
      of_code = other 16410 16408 v c (omega arith) refl refl ∙ e.of_code;
      of_length = hw.read_same 16410 v c.vmcs refl;
    }

  module _ (c : Cpu V) where
    abbrev pub old_length : ℕ
    old_length = read hw vm_entry_instruction_len c

    pub begin :
        Entry
          (read hw vm_entry_intr_info_field c)
          (read hw vm_entry_exception_error_code c)
          old_length
          c
    begin = record { of_info = refl; of_code = refl; of_length = refl }

    -- `InjectInterruption` leaves the event of the given type and vector pending, with the error code
    -- where one is delivered and 0 where not, and with no instruction length unless the event is a
    -- software event, whose length it leaves.
    pub inject_interruption_lem :
        (type vector error_code : ℕ) (deliver : Bool)
        → type < 8
        → vector < 256
        → error_code < 2 ^ 32
        → (info : ℕ) × IsEvent type vector deliver info
          × Entry info
              (if deliver then error_code else 0)
              (if is_software_event type then old_length else 0)
              (inject_interruption hw type vector deliver error_code c)
    unfolding inject_interruption
    inject_interruption_lem type vector error_code deliver ht hv he =
        let e1 = set_info c begin (interrupt_info type vector deliver) in
        let e2 = set_code _ e1 (if deliver then error_code else 0) in
        let fits : (if deliver then error_code else 0) % 2 ^ 32
            ≡ (if deliver then error_code else 0) =
          ground arith in
        let e3 = Entry-as fits refl e2 in
        (
          interrupt_info type vector deliver % 2 ^ 32,
          interrupt_info-IsEvent type vector deliver ht hv,
          elim (Bool-cases (is_software_event type)) [
            | inl soft ↦ rw (soft, inject_interruption) e3
            | inr hard ↦ rw (hard, inject_interruption) (set_length _ e3 0)
          ],
        )

  -- A routine that answered true left the event of the word `flags` pending.
  pub record Delivers (flags code length : ℕ) (r : Cpu V × Bool) : Type 0 where
    pub accepted : r.1 ≡ true
    pub info : ℕ
    pub event : IsEvent (interruption_type flags) (flags % 2 ^ 8) (exit_error_code_valid flags) info
    pub entry : Entry info code length r.0

  pub valid_bit : (w : ℕ) → truthy (bit_and w event_valid_mask) ≡ exit_valid w
  valid_bit w = ground (arith, bit_and_bit 31 w)

  pub code_bit : (w : ℕ) → truthy (bit_and w event_error_code_valid_mask) ≡ exit_error_code_valid w
  code_bit w = ground (arith, bit_and_bit 11 w)

  pub type_bits : (w : ℕ) → bit_and (w / 2 ^ 8) 7 ≡ interruption_type w
  type_bits w = bit_and_low 3 (w / 2 ^ 8)

  pub fits : (f : ℕ) (c : Cpu V) → width f ≡ 32 → hw.vmread f c.vmcs % 2 ^ 32 ≡ hw.vmread f c.vmcs
  fits f c h = omega (arith, subst (λ (w : ℕ). hw.vmread f c.vmcs < 2 ^ w) h (hw.bounded f c.vmcs))

  -- `SetupInstructionLength` takes the length of the instruction that caused the exit.
  pub setup_length :
      {info code length : ℕ} (c : Cpu V)
      → Entry info code length c
      → Entry info code (read hw vm_exit_instruction_len c) (setup_instruction_length hw c)
  unfolding setup_instruction_length
  setup_length c e =
      Entry-as refl (fits 17420 c refl) (set_length c e (read hw vm_exit_instruction_len c))

  module _ (c : Cpu V) (flags : ℕ) where
    abbrev pub masked : Cpu V
    masked = write hw vm_entry_intr_info_field (bit_and flags vm_entry_event_mask) c

    pub masked-Entry :
        Entry
          (bit_and flags vm_entry_event_mask % 2 ^ 32)
          (read hw vm_entry_exception_error_code c)
          (old_length c)
          masked
    masked-Entry = set_info c (begin c) (bit_and flags vm_entry_event_mask)

    -- After the error code `v` was written.
    abbrev pub coded : ℕ → Cpu V
    coded v = write hw vm_entry_exception_error_code v masked

    pub coded_length :
        (v : ℕ) → read hw vm_exit_instruction_len (coded v) ≡ read hw vm_exit_instruction_len c
    coded_length v =
        other 16408 17420 v masked (omega arith) refl refl
        ∙ other 16406 17420 (bit_and flags vm_entry_event_mask) c (omega arith) refl refl

    pub masked_length : read hw vm_exit_instruction_len masked ≡ read hw vm_exit_instruction_len c
    masked_length = other 16406 17420 (bit_and flags vm_entry_event_mask) c (omega arith) refl refl

    pub masked_exit_code :
        read hw vm_exit_intr_error_code masked ≡ read hw vm_exit_intr_error_code c
    masked_exit_code =
        other 16406 17414 (bit_and flags vm_entry_event_mask) c (omega arith) refl refl

    pub masked_idt_code :
        read hw idt_vectoring_error_code masked ≡ read hw idt_vectoring_error_code c
    masked_idt_code =
        other 16406 17418 (bit_and flags vm_entry_event_mask) c (omega arith) refl refl
