-- ===== src/Vmx/Setup/Reads.antt =====
-- What a field of the VMCS holds after `SetupVmcs` of NovaHypervisor/Vmx.cpp has run.
use nova_hypervisor.Base.{
  ℕ, ◌+◌, ◌*◌, ◌%◌, ◌^◌, ◌<◌, ◌≤◌, ◌≡◌, ◌≢◌, ◌⊎◌, ◌∙◌, refl, ap, true, ◌==◌, if◌then◌else◌, [], ◌∷◌,
  Option, none, some, arith, Option-cases, inl, inr, All,
}
use nova_hypervisor.Vmcs.{VmcsStore, VmcsField, encoding, width, is_writable}
use nova_hypervisor.Guest.{Cpu}
use nova_hypervisor.VmxHelper.{get_segment_descriptor, fill_guest_selector_data}
use nova_hypervisor.Vmx.Setup.{Launch, Writes, writes, fill_segments}

-- The value that the run leaves in the field `g`, if it writes it.
abbrev pub last : ℕ → Writes → Option ℕ
last g [] = none
last g ((f, v) ∷ rest) = elim (last g rest) [
  | none ↦ if encoding f == g then some v else none
  | some w ↦ some w
]

-- No write is to a high half.
abbrev pub AllWhole : Writes → Type 0
AllWhole = All (λ (w : VmcsField × ℕ). encoding w.0 % 2 ≡ 0)

module _ {V : Type 0} (hw : VmcsStore V) (g : ℕ) (whole : g % 2 ≡ 0) where
  pub read_unwritten :
      (ws : Writes) (s : V)
      → AllWhole ws
      → last g ws ≡ none
      → hw.vmread g (writes hw ws s) ≡ hw.vmread g s
  read_unwritten [] s all h = refl
  read_unwritten ((f, v) ∷ rest) s (even, all) h = elim (Option-cases (last g rest)) [
    | inr (w, later) ↦ absurd (ground (arith, later, h))
    | inl clear ↦
        let other : encoding f ≢ g = λ e. ground (arith, clear, h, e) in
        read_unwritten rest (hw.vmwrite (encoding f) v s) all clear
        ∙ hw.read_other (encoding f) g v s other even whole
  ]

  pub read_written :
      (ws : Writes) (s : V) (v : ℕ)
      → AllWhole ws
      → is_writable g ≡ true
      → last g ws ≡ some v
      → hw.vmread g (writes hw ws s) ≡ v % 2 ^ width g
  read_written [] s v all w h = absurd (cc)
  read_written ((f, u) ∷ rest) s v (even, all) w h = elim (Option-cases (last g rest)) [
    | inr (x, later) ↦
        read_written rest (hw.vmwrite (encoding f) u s) v all w (ground (arith, later, h))
    | inl clear ↦
        let here : encoding f ≡ g = ground (arith, clear, h) in
        let value : u ≡ v = ground (arith, clear, h) in
        read_unwritten rest (hw.vmwrite (encoding f) u s) all clear
        ∙ ap (λ (e : ℕ). hw.vmread g (hw.vmwrite e u s)) here
        ∙ hw.read_same g u s w
        ∙ ap (λ (x : ℕ). x % 2 ^ width g) value
  ]

-- A field that is none of a segment register of the guest.
abbrev pub NoSegment : ℕ → Type 0
NoSegment g =
    ((g < 2048) ⊎ (2064 ≤ g))
    × ((g < 18432) ⊎ (18448 ≤ g))
    × ((g < 18452) ⊎ (18468 ≤ g))
    × ((g < 26630) ⊎ (26646 ≤ g))

module _ {V : Type 0} (hw : VmcsStore V) (l : Launch) (g : ℕ) (whole : g % 2 ≡ 0)
    (apart : NoSegment g) where
  fill_keeps :
      (i sel : ℕ) (c : Cpu V)
      → i < 8
      → hw.vmread g (fill_guest_selector_data hw l.gdt i sel c).0.vmcs ≡ hw.vmread g c.vmcs
  unfolding fill_guest_selector_data
  fill_keeps i sel c h =
      let (a, b, d, e) = apart in
      elim (get_segment_descriptor l.gdt sel)
          as (λ found.
            get_segment_descriptor l.gdt sel ≡ found
            → hw.vmread g (fill_guest_selector_data hw l.gdt i sel c).0.vmcs ≡ hw.vmread g c.vmcs) [
              | none ↦ λ eq. rw (eq, fill_guest_selector_data) refl
              | some s ↦ λ eq.
                  rw (eq, fill_guest_selector_data)
                    (hw.read_other (26630 + i * 2) g _ _ (λ p. ground (arith, e, h, p))
                        (omega arith) whole
                      ∙ hw.read_other (18452 + i * 2) g _ _ (λ p. ground (arith, d, h, p))
                          (omega arith) whole
                      ∙ hw.read_other (18432 + i * 2) g _ _ (λ p. ground (arith, b, h, p))
                          (omega arith) whole
                      ∙ hw.read_other (2048 + i * 2) g _ _ (λ p. ground (arith, a, h, p))
                          (omega arith) whole)
            ]
        refl

  pub fill_segments-keeps :
      (c : Cpu V) → hw.vmread g (fill_segments l hw c).vmcs ≡ hw.vmread g c.vmcs
  unfolding fill_segments
  fill_segments-keeps c =
      fill_keeps 7 l.tr _ (omega arith)
      ∙ fill_keeps 6 l.ldtr _ (omega arith)
      ∙ fill_keeps 5 l.gs _ (omega arith)
      ∙ fill_keeps 4 l.fs _ (omega arith)
      ∙ fill_keeps 3 l.ds _ (omega arith)
      ∙ fill_keeps 2 l.ss _ (omega arith)
      ∙ fill_keeps 1 l.cs _ (omega arith)
      ∙ fill_keeps 0 l.es c (omega arith)
