-- ===== src/RegistersHandler/Control.antt =====
-- The exits on control registers and on CPUID, by RegistersHandler.cpp.
use nova_hypervisor.Base.{
  ℕ, ◌+◌, ◌*◌, ◌-◌, ◌/◌, ◌%◌, ◌^◌, ◌<◌, ◌≡◌, ◌≢◌, refl, ◌∙◌, ap, ◌⊎◌, inl, inr, Bool, true, false,
  ◌==◌, truthy, if◌then◌else◌, bit_and, bit_and_low, bit_or_bit, bit_and_low_part, bit_and_shift,
  ◌++◌, [], ◌∷◌, Bool-cases, arith, ==_refl,
}
use nova_hypervisor.Vmcs.{
  VmcsStore, is_writable, width, exit_qualification, guest_cr0, guest_cr3, guest_cr4,
  cr0_read_shadow, cr4_read_shadow,
}
use nova_hypervisor.Guest.{Cpu, read, write, invvpid, rax, rbx, rcx, rdx}
use nova_hypervisor.VmxHelper.{low, invalidate_vpid, get_vpid_tag_for_processor}
use nova_hypervisor.RegistersHandler.{
  handle_cpuid, masked_leaf, interface_signature, mov_to_cr, mov_from_cr, handle_cr_access, operand,
  set_operand, register, access_type, control_register,
}

module _ {V : Type 0} where
  invalidate_vpid-vmcs :
      (on : Bool) (vpid address : ℕ) (c : Cpu V) → (invalidate_vpid on vpid address c).vmcs ≡ c.vmcs
  unfolding invalidate_vpid
  invalidate_vpid-vmcs on vpid address c = ground arith

  flush_own :
      (on : Bool) (processor : ℕ)
      → processor < 65535
      → (c : Cpu V) → on ≡ true
      → (invalidate_vpid on (get_vpid_tag_for_processor processor) 0 c).effects
        ≡ c.effects ++ invvpid 1 (1 + processor) 0 ∷ []
  unfolding invalidate_vpid get_vpid_tag_for_processor
  flush_own on processor h c enabled =
      let tag : (1 + processor) % 2 ^ 32 % 2 ^ 16 ≡ 1 + processor = omega arith in
      let fits : (1 + processor) % 2 ^ 16 ≡ 1 + processor = omega arith in
      let set : truthy (1 + processor) ≡ true = ground arith in rw (enabled, tag, set, fits)

module _ {V : Type 0} (hw : VmcsStore V) where
  -- The field `g` after `v` was written to it, and then to the field `f`.
  under :
      (f g v : ℕ) (c : Cpu V)
      → f ≢ g
      → f % 2 ≡ 0
      → is_writable g ≡ true
      → width g ≡ 64
      → v < 2 ^ 64
      → hw.vmread g (hw.vmwrite f v (hw.vmwrite g v c.vmcs)) ≡ v
  under f g v c ne hf hg w small =
      hw.read_other f g v _ ne hf (ground (arith, hg))
      ∙ hw.read_same g v c.vmcs hg
      ∙ ap (λ (n : ℕ). v % 2 ^ n) w
      ∙ omega (arith, small)

  set_operand_lem : (r v : ℕ) (c : Cpu V) → v < 2 ^ 64 → operand hw r (set_operand hw r v c) ≡ v
  set_operand_lem r v c small = elim (Bool-cases (r == 4)) [
    | inl stack ↦ rw stack (hw.read_same 26652 v c.vmcs refl ∙ omega (arith, small))
    | inr plain ↦ rw (plain, ==_refl r)
  ]

module _ {V : Type 0} (hw : VmcsStore V) (vpid_supported : Bool) (processor : ℕ) (cpu : Cpu V) where
  abbrev qual : ℕ
  qual = read hw exit_qualification cpu

  abbrev result : Cpu V × Bool
  result = handle_cr_access hw vpid_supported processor cpu

  -- An access that is neither a move to nor from a control register, or that names a control register
  -- other than CR0, CR3 and CR4, is refused and changes nothing.
  pub handle_cr_access_refused :
      ((1 < access_type (read hw exit_qualification cpu))
        ⊎ ((control_register (read hw exit_qualification cpu) ≢ 0)
            × (control_register (read hw exit_qualification cpu) ≢ 3)
            × (control_register (read hw exit_qualification cpu) ≢ 4)))
      → handle_cr_access hw vpid_supported processor cpu ≡ (cpu, false)
  unfolding handle_cr_access mov_to_cr mov_from_cr
  handle_cr_access_refused (inl h) = ground (arith, h)
  handle_cr_access_refused (inr (h0, h3, h4)) = ground (arith, h0, h3, h4)

  -- What the guest moves to CR0 or CR4 is what the register holds and what the guest reads back; what
  -- it moves to CR3 is there without bit 63, and the processor's VPID is flushed where it has one.
  pub mov_to_cr_lem :
      access_type (read hw exit_qualification cpu) ≡ 0
      → operand hw (register (read hw exit_qualification cpu)) cpu < 2 ^ 64
      → processor < 65535
      → (let c = handle_cr_access hw vpid_supported processor cpu in
          let value = operand hw (register (read hw exit_qualification cpu)) cpu in
          (control_register (read hw exit_qualification cpu) ≡ 0
            → (c.1 ≡ true)
              × (read hw guest_cr0 c.0 ≡ value)
              × (read hw cr0_read_shadow c.0 ≡ value))
          × (control_register (read hw exit_qualification cpu) ≡ 4
              → (c.1 ≡ true)
                × (read hw guest_cr4 c.0 ≡ value)
                × (read hw cr4_read_shadow c.0 ≡ value))
          × (control_register (read hw exit_qualification cpu) ≡ 3
              → (c.1 ≡ true)
                × (read hw guest_cr3 c.0 ≡ value % 2 ^ 63)
                × (vpid_supported ≡ true
                    → c.0.effects ≡ cpu.effects ++ invvpid 1 (1 + processor) 0 ∷ [])))
  unfolding handle_cr_access mov_to_cr invalidate_vpid get_vpid_tag_for_processor
  mov_to_cr_lem to small valid = (
    λ k.
        rw (to, k)
          (
            refl,
            under hw 24580 26624 value cpu (omega arith) refl refl refl small,
            hw.read_same 24580 value _ refl ∙ omega (arith, small),
          ),
    λ k.
        rw (to, k)
          (
            refl,
            under hw 24582 26628 value cpu (omega arith) refl refl refl small,
            hw.read_same 24582 value _ refl ∙ omega (arith, small),
          ),
    λ k.
        rw (to, k)
          (
            refl,
            ap (hw.vmread 26626)
                  (invalidate_vpid-vmcs vpid_supported (get_vpid_tag_for_processor processor) 0 _)
                ∙ hw.read_same 26626 _ cpu.vmcs refl
                ∙ omega (arith, bit_and_low 63 value),
            flush_own vpid_supported processor valid
                (write hw guest_cr3 (bit_and value 9223372036854775807) cpu),
          ),
  )
    where
      value : ℕ
      value = operand hw (register (read hw exit_qualification cpu)) cpu

  -- What the guest moves from CR0, CR3 or CR4 is in the register that it named, or in its stack
  -- pointer.
  pub mov_from_cr_lem :
      access_type (read hw exit_qualification cpu) ≡ 1
      → (let c = handle_cr_access hw vpid_supported processor cpu in
          let r = register (read hw exit_qualification cpu) in
          (control_register (read hw exit_qualification cpu) ≡ 0
            → (c.1 ≡ true) × (operand hw r c.0 ≡ read hw guest_cr0 cpu))
          × (control_register (read hw exit_qualification cpu) ≡ 3
              → (c.1 ≡ true) × (operand hw r c.0 ≡ read hw guest_cr3 cpu))
          × (control_register (read hw exit_qualification cpu) ≡ 4
              → (c.1 ≡ true) × (operand hw r c.0 ≡ read hw guest_cr4 cpu)))
  unfolding handle_cr_access mov_from_cr
  mov_from_cr_lem from = (
    λ k.
        rw (from, k)
          (
            refl,
            set_operand_lem hw (register (read hw exit_qualification cpu)) _ cpu
                (hw.bounded 26624 cpu.vmcs),
          ),
    λ k.
        rw (from, k)
          (
            refl,
            set_operand_lem hw (register (read hw exit_qualification cpu)) _ cpu
                (hw.bounded 26626 cpu.vmcs),
          ),
    λ k.
        rw (from, k)
          (
            refl,
            set_operand_lem hw (register (read hw exit_qualification cpu)) _ cpu
                (hw.bounded 26628 cpu.vmcs),
          ),
  )

drop_xmm_bits :
    (d : ℕ)
    → d < 2 ^ 32
    → bit_and d 4294934511 ≡ d - d / 2 ^ 4 % 2 * 2 ^ 4 - d / 2 ^ 15 % 2 * 2 ^ 15
drop_xmm_bits d h = omega (
  arith,
  bit_and_low_part 4 d 268433406,
  bit_and_shift 1 (d / 2 ^ 4) 134216703,
  bit_and_low_part 10 (d / 2 ^ 4 / 2 ^ 1) 131070,
  bit_and_shift 1 (d / 2 ^ 4 / 2 ^ 1 / 2 ^ 10) 65535,
  bit_and_low 16 (d / 2 ^ 4 / 2 ^ 1 / 2 ^ 10 / 2 ^ 1),
)

-- The words that the guest sees in the lower halves of its registers after CPUID, where the processor
-- answers `(a, b, c, d)`.
pub record CpuidAnswer {V : Type 0} (leaf a b c d : ℕ) (after : Cpu V) : Type 0 where
  pub in_eax : after.regs rax % 2 ^ 32 ≡ (if leaf == 1073741825 then interface_signature else a)
  pub in_ebx : after.regs rbx % 2 ^ 32 ≡ b
  pub in_ecx :
      after.regs rcx % 2 ^ 32 ≡ (if leaf == 1 then c + (1 - c / 2 ^ 31 % 2) * 2 ^ 31 else c)
  pub in_edx :
      after.regs rdx % 2 ^ 32
      ≡ (if leaf == 1073741827 then d - d / 2 ^ 4 % 2 * 2 ^ 4 - d / 2 ^ 15 % 2 * 2 ^ 15 else d)

module _ {V : Type 0} (cpuidex : ℕ → ℕ → ℕ × ℕ × ℕ × ℕ) (cpu : Cpu V) where
  -- CPUID gives the guest the processor's words, with the hypervisor bit set for leaf 1, with another
  -- signature for leaf 0x40000001, and without the two bits of fast hypercalls for leaf 0x40000003.
  pub handle_cpuid_lem :
      (a b c d : ℕ)
      → a < 2 ^ 32
      → b < 2 ^ 32
      → c < 2 ^ 32
      → d < 2 ^ 32
      → cpuidex (low (cpu.regs rax)) (low (cpu.regs rcx)) ≡ (a, b, c, d)
      → CpuidAnswer (cpu.regs rax) a b c d (handle_cpuid cpuidex cpu).0
  unfolding handle_cpuid masked_leaf
  handle_cpuid_lem a b c d ha hb hc hd e = rw e (record {
    in_eax = ground arith;
    in_ebx = ground arith;
    in_ecx = ground (arith, bit_or_bit 31 c);
    in_edx = ground (arith, drop_xmm_bits d hd);
  })

  -- The upper half of RCX after leaf 1 is all ones.
  pub handle_cpuid_upper :
      (a b c d : ℕ)
      → c < 2 ^ 32
      → cpuidex (low (cpu.regs rax)) (low (cpu.regs rcx)) ≡ (a, b, c, d)
      → cpu.regs rax ≡ 1
      → (handle_cpuid cpuidex cpu).0.regs rcx / 2 ^ 32 ≡ 2 ^ 32 - 1
  unfolding handle_cpuid masked_leaf
  handle_cpuid_upper a b c d hc e one = ground (arith, e, bit_or_bit 31 c)
