-- ===== src/Ept/Table/Initialize.antt =====
-- `LogicalProcessorInitialize` of NovaHypervisor/Ept.cpp: the tables it makes against the processor's
-- walk.
use nova_hypervisor.Base.{
  ℕ, ◌+◌, ◌*◌, ◌/◌, ◌%◌, ◌<◌, ◌≤◌, ◌≡◌, ◌∙◌, refl, ap, none, some, arith, inl, inr,
}
use nova_hypervisor.Ept.Entry.{
  memory_type_of, set_frame, frame, large_frame, field, set_read_access, set_write_access,
  set_execute_access,
}
use nova_hypervisor.Ept.Mtrr.{MtrrMap}
use nova_hypervisor.Ept.Hooks.{put, put_same}
use nova_hypervisor.Ept.Table.{count_up, stosq, identity_template}
use nova_hypervisor.Ept.Table.Fill.{Outside, Filled, put_other, count_up-Filled, stosq-Filled}
use nova_hypervisor.Ept.Table.Walk.{
  Translation, walk, walk_pml2, walk_pml3, walk_pml2_leaf, walk_pml3_pointer, walk_pml4_pointer,
}
use nova_hypervisor.Ept.Table.Identity.{large_type, large_entry}

-- The system maps the words of the new table, physically one after the other from `base` on.
abbrev pub Contiguous : (ℕ → ℕ) → (ℕ → ℕ) → ℕ → ℕ → Type 0
Contiguous pa va page_table base =
    (k : ℕ)
    → k < 2105344
    → (pa (page_table + k) ≡ base * 4096 + k) × (va (base * 4096 + k) ≡ page_table + k)

module _ (pa va : ℕ → ℕ) (page_table base : ℕ) (memory : ℕ → ℕ) (fits : base + 514 ≤ 68719476736)
    (placed : Contiguous pa va page_table base) where
  abbrev cleared : ℕ → ℕ
  cleared = stosq page_table 0 263168 memory

  abbrev root : ℕ
  root = (base + 1) * 4096 + 7

  abbrev root_written : ℕ
  root_written = set_execute_access 1 (
      set_write_access 1
        (set_read_access 1 (set_frame (pa (page_table + 4096) / 4096) (cleared page_table))))

  abbrev rooted : ℕ → ℕ
  rooted = put page_table root_written cleared

  abbrev pml3_cleared : ℕ → ℕ
  pml3_cleared = stosq (page_table + 4096) 7 512 rooted

  abbrev link : ℕ → ℕ
  link i = (base + 2 + i) * 4096 + 7

  abbrev link_round : ℕ → (ℕ → ℕ) → ℕ → ℕ
  link_round i m =
      put (page_table + 4096 + i * 8)
        (set_frame (pa (page_table + 8192 + i * 4096) / 4096) (m (page_table + 4096 + i * 8))) m

  cleared_inside : (i : ℕ) → i < 263168 → cleared (page_table + i * 8) ≡ 0
  cleared_inside = (stosq-Filled page_table 0 263168 memory).0

  root_written_lem : root_written ≡ root
  root_written_lem =
      let empty : cleared page_table ≡ 0 =
        ap cleared (omega arith) ∙ cleared_inside 0 (omega arith) in
      let next : pa (page_table + 4096) / 4096 ≡ base + 1 =
        omega (arith, (placed 4096 (omega arith)).0) in
      rw (empty, next) (omega (arith, fits))

  linked-Filled :
      Filled (page_table + 4096) 512 link pml3_cleared (count_up 512 link_round pml3_cleared)
  linked-Filled = count_up-Filled (page_table + 4096) 512 link pml3_cleared link_round (λ i m h f b.
      let at = page_table + 4096 + i * 8 in
      let here : m at ≡ 7 =
        f.1 at (inr (omega arith)) ∙ (stosq-Filled (page_table + 4096) 7 512 rooted).0 i h in
      let address : page_table + 8192 + i * 4096 ≡ page_table + (8192 + i * 4096) = omega arith in
      let next : pa (page_table + 8192 + i * 4096) / 4096 ≡ base + 2 + i =
        rw address (omega (arith, (placed (8192 + i * 4096) (omega (arith, h))).0)) in
      let word : set_frame (base + 2 + i) 7 ≡ link i = omega (arith, fits, h) in
      rw (here, next, word) refl)

  abbrev template : ℕ → ℕ
  template = identity_template pa page_table memory

  template-Filled :
      Filled (page_table + 8192) 262144 (λ k. 135) (count_up 512 link_round pml3_cleared) template
  unfolding identity_template
  template-Filled =
      stosq-Filled (page_table + 8192) 135 262144 (count_up 512 link_round pml3_cleared)

  template_pml4 : (i : ℕ) → i < 512 → template (page_table + i * 8) ≡ rooted (page_table + i * 8)
  template_pml4 i h =
      template-Filled.1 (page_table + i * 8) (inl (omega (arith, h)))
      ∙ linked-Filled.1 (page_table + i * 8) (inl (omega (arith, h)))
      ∙ (stosq-Filled (page_table + 4096) 7 512 rooted).1 (page_table + i * 8)
          (inl (omega (arith, h)))

  template-root : template page_table ≡ root
  template-root =
      ap template (omega arith)
      ∙ template_pml4 0 (omega arith)
      ∙ ap rooted (omega arith)
      ∙ put_same page_table root_written cleared
      ∙ root_written_lem

  template_absent : (i : ℕ) → 0 < i → i < 512 → template (page_table + i * 8) ≡ 0
  template_absent i p h =
      template_pml4 i h
      ∙ put_other page_table root_written (page_table + i * 8) cleared (ground (arith, p))
      ∙ cleared_inside i (omega (arith, h))

  template-link : (i : ℕ) → i < 512 → template (page_table + 4096 + i * 8) ≡ link i
  template-link i h =
      template-Filled.1 (page_table + 4096 + i * 8) (inl (omega (arith, h))) ∙ linked-Filled.0 i h

  pub template_pml2 : (k : ℕ) → k < 262144 → template (page_table + 8192 + k * 8) ≡ 135
  template_pml2 = template-Filled.0

  template-Outside : (b : ℕ) → Outside page_table 263168 b → template b ≡ memory b
  template-Outside b h =
      template-Filled.1 b (ground (arith, h))
      ∙ linked-Filled.1 b (ground (arith, h))
      ∙ (stosq-Filled (page_table + 4096) 7 512 rooted).1 b (ground (arith, h))
      ∙ put_other page_table root_written b cleared (ground (arith, h))
      ∙ (stosq-Filled page_table 0 263168 memory).1 b h

  -- The walk through tables whose PML2 is set up.
  module _ (mtrr : MtrrMap) (m : ℕ → ℕ)
      (done : Filled (page_table + 8192) 262144 (large_entry mtrr) template m) (guest : ℕ) where
    abbrev translated : Translation
    translated = record {
      address = guest;
      memory_type = large_type mtrr (guest / 2097152) % 8;
      rights = 7;
    }

    walk_to_pml2 :
        guest < 549755813888
        → walk_pml2 va m (page_table + 8192 + guest / 2097152 * 8) guest ≡ some translated
    walk_to_pml2 low =
        let k = guest / 2097152 in
        let leaf =
          walk_pml2_leaf va m (page_table + 8192 + k * 8) (large_entry mtrr k) 0 guest
            (done.0 k (omega (arith, low))) (omega arith) (omega arith) in
        let address : large_frame (large_entry mtrr k) * 2097152 + guest % 2097152 ≡ guest =
          omega (arith, low) in
        let type : memory_type_of (large_entry mtrr k) ≡ large_type mtrr k % 8 = omega arith in
        leaf ∙ rw (address, type) refl

    walk_to_pml3 :
        guest < 549755813888
        → walk_pml3 va m (page_table + 4096 + field 30 9 guest * 8) guest ≡ some translated
    walk_to_pml3 low =
        let i = field 30 9 guest in
        let here : m (page_table + 4096 + i * 8) ≡ link i =
          done.1 (page_table + 4096 + i * 8) (inl (omega arith)) ∙ template-link i (omega arith) in
        let next : va (frame (link i) * 4096 + field 21 9 guest * 8)
            ≡ page_table + 8192 + guest / 2097152 * 8 =
          ap va (omega (arith, fits, low))
          ∙ (placed (8192 + guest / 2097152 * 8) (omega (arith, low))).1
          ∙ omega arith in
        walk_pml3_pointer va m (page_table + 4096 + i * 8) (link i)
          (page_table + 8192 + guest / 2097152 * 8) guest here (omega arith) (omega arith)
          translated refl next (walk_to_pml2 low)

    pub walk_to_pml4 : guest < 549755813888 → walk va m (base * 4096 + 30) guest ≡ some translated
    walk_to_pml4 low =
        let i = field 30 9 guest in
        let at : va (frame (base * 4096 + 30) * 4096 + field 39 9 guest * 8) ≡ page_table =
          ap va (omega (arith, fits, low)) ∙ (placed 0 (omega arith)).1 ∙ omega arith in
        let here : m page_table ≡ root = done.1 page_table (inl (omega arith)) ∙ template-root in
        let next : va (frame root * 4096 + i * 8) ≡ page_table + 4096 + i * 8 =
          ap va (omega (arith, fits)) ∙ (placed (4096 + i * 8) (omega arith)).1 ∙ omega arith in
        rw at (
          walk_pml4_pointer va m page_table root (page_table + 4096 + i * 8) guest here
            (omega arith) (omega arith) translated refl next (walk_to_pml3 low))

    pub walk_absent :
        549755813888 ≤ guest → guest < 281474976710656 → walk va m (base * 4096 + 30) guest ≡ none
    walk_absent high bound =
        let i = field 39 9 guest in
        let at : va (frame (base * 4096 + 30) * 4096 + i * 8) ≡ page_table + i * 8 =
          ap va (omega (arith, fits)) ∙ (placed (i * 8) (omega arith)).1 in
        let here : m (page_table + i * 8) ≡ 0 =
          done.1 (page_table + i * 8) (inl (omega arith))
          ∙ template_absent i (omega (arith, high, bound)) (omega arith) in
        rw (at, here)
