-- ===== src/Ept/Table/Identity.antt =====
-- `AllocateAndCreateIdentityPageTable` and `LogicalProcessorInitialize` of NovaHypervisor/Ept.cpp
-- against the processor's walk.
use nova_hypervisor.Base.{
  ℕ, suc, ◌+◌, ◌*◌, ◌<◌, ◌≤◌, true, ◌==◌, ◌≡◌, ◌∙◌, refl, arith, ==_refl, if◌then◌else◌, Bool-cases,
  inl, inr,
}
use nova_hypervisor.PoolManager.{AllocationType}
use nova_hypervisor.Ept.Entry.{set_memory_type, set_large_frame}
use nova_hypervisor.Ept.Mtrr.{MtrrMap, get_memory_type, is_valid_for_large_page, uncacheable}
use nova_hypervisor.Ept.Hooks.{put}
use nova_hypervisor.Ept.Table.{
  SetupOutcome, succeeds, for_each, setup_pml2_entry, setup_pml2_entries, pml2_of,
}
use nova_hypervisor.Ept.Table.Fill.{Filled, Same, put_twice, Filled-put, Filled-none, for_each_rule}

-- The memory type that a page of 2 MB gets, and its entry.
abbrev pub large_type : MtrrMap → ℕ → ℕ
large_type mtrr k =
    if is_valid_for_large_page mtrr k then get_memory_type mtrr k true else uncacheable

abbrev pub large_entry : MtrrMap → ℕ → ℕ
large_entry mtrr k = set_memory_type (large_type mtrr k) (set_large_frame k 135)

-- No page but the first needs a split.
abbrev pub AllLarge : MtrrMap → Type 0
AllLarge mtrr = (k : ℕ) → 0 < k → is_valid_for_large_page mtrr k ≡ true

module _ {P : Type 0} (pa : ℕ → ℕ) (mtrr : MtrrMap) (free : ℕ → AllocationType → P → P)
    (allocate : AllocationType → P → P × ℕ) (table limit : ℕ)
    (large : (k : ℕ) → 0 < k → k < limit → is_valid_for_large_page mtrr k ≡ true) where
  setup_pml2_entry_lem :
      (at k : ℕ) (memory : ℕ → ℕ) (pool : P)
      → k < limit
      → memory at ≡ 135
      → let r = setup_pml2_entry pa mtrr free allocate table at k (memory, pool) in
        (r.1 ≡ succeeds) × (r.0.1 ≡ pool) × Same r.0.0 (put at (large_entry mtrr k) memory)
  unfolding setup_pml2_entry
  setup_pml2_entry_lem at k memory pool below here =
      elim (Bool-cases (is_valid_for_large_page mtrr k)) [
        | inl e ↦
            rw (e, here, ==_refl at)
              (
                refl,
                refl,
                put_twice at (set_memory_type (get_memory_type mtrr k true) (set_large_frame k 135))
                    (set_large_frame k 135) memory,
              )
        | inr e ↦
            let first : (k == 0) ≡ true = elim (Bool-cases (k == 0)) [
              | inl z ↦ z
              | inr p ↦ absurd (ground (arith, large k (ground (arith, p)) below, e))
            ] in
            rw (e, here, ==_refl at, first)
              (
                refl,
                refl,
                put_twice at (set_memory_type uncacheable (set_large_frame k 135))
                    (set_large_frame k 135) memory,
              )
      ]

  module _ (page_table : ℕ) (before : ℕ → ℕ) (pool : P) (bound : limit ≤ 262144)
      (template : (k : ℕ) → k < 262144 → before (pml2_of page_table + k * 8) ≡ 135) where
    abbrev pub Reached : ℕ → (ℕ → ℕ) × P → Type 0
    Reached n (memory, pool') =
        (pool' ≡ pool) × Filled (pml2_of page_table) n (large_entry mtrr) before memory

    abbrev pub setup_at : ℕ → (ℕ → ℕ) × P → ((ℕ → ℕ) × P) × SetupOutcome
    setup_at k = setup_pml2_entry pa mtrr free allocate table (pml2_of page_table + k * 8) k

    abbrev pub setup_group : ℕ → (ℕ → ℕ) × P → ((ℕ → ℕ) × P) × SetupOutcome
    setup_group g = for_each 512 (λ i. setup_at (g * 512 + i))

    pub Reached-at : (m n : ℕ) (s : (ℕ → ℕ) × P) → n ≡ m → Reached m s → Reached n s
    Reached-at m n s e r = rw e r

    pub still_template :
        (k : ℕ) (s : (ℕ → ℕ) × P)
        → k < 262144
        → Reached k s
        → s.0 (pml2_of page_table + k * 8) ≡ 135
    still_template k s h reached =
        reached.1.1 (pml2_of page_table + k * 8) (inr (omega arith)) ∙ template k h

    setup_at-Reached :
        (k : ℕ) (s : (ℕ → ℕ) × P)
        → k < limit
        → Reached k s
        → ((setup_at k s).1 ≡ succeeds) × Reached (suc k) (setup_at k s).0
    setup_at-Reached k (memory, pool') h (same, filled) =
        let at = pml2_of page_table + k * 8 in
        let here : memory at ≡ 135 =
          still_template k (memory, pool') (omega (arith, h, bound)) (same, filled) in
        let (ok, kept, stored) = setup_pml2_entry_lem at k memory pool' h here in
        (
          ok,
          (
            kept ∙ same,
            Filled-put (pml2_of page_table) k (large_entry mtrr) before memory
                (setup_at k (memory, pool')).0.0 filled stored,
          ),
        )

    -- A round of the inner loop, as it stands in that loop.
    pub round-Reached :
        (g i : ℕ) (t : (ℕ → ℕ) × P)
        → g * 512 + i < limit
        → Reached (g * 512 + i) t
        → ((setup_at (g * 512 + i) t).1 ≡ succeeds)
          × Reached (g * 512 + suc i) (setup_at (g * 512 + i) t).0
    round-Reached g i t less r =
        let (ok, next) = setup_at-Reached (g * 512 + i) t less r in
        (
          ok,
          Reached-at (suc (g * 512 + i)) (g * 512 + suc i) (setup_at (g * 512 + i) t).0
              (omega arith) next,
        )

    pub group-Reached :
        (g : ℕ) (s : (ℕ → ℕ) × P)
        → g * 512 + 512 ≤ limit
        → Reached (g * 512) s
        → ((setup_group g s).1 ≡ succeeds) × Reached (suc g * 512) (setup_group g s).0
    group-Reached g s h reached =
        let (ok, filled) =
          for_each_rule (λ i. setup_at (g * 512 + i)) (λ i. Reached (g * 512 + i)) 512 s
            (Reached-at (g * 512) (g * 512 + 0) s (omega arith) reached)
            (λ i t less r. round-Reached g i t (omega (arith, h, less)) r) in
        (ok, Reached-at (g * 512 + 512) (suc g * 512) (setup_group g s).0 (omega arith) filled)

    pub start-Reached : Reached (0 * 512) (before, pool)
    start-Reached = (refl, Filled-none (pml2_of page_table) (large_entry mtrr) before)

    -- Each entry of PML2 is set up, and nothing else is touched.
    pub setup_pml2_entries-Reached :
        262144 ≤ limit
        → let r = setup_pml2_entries pa mtrr free allocate table page_table (before, pool) in
          (r.1 ≡ succeeds) × Reached 262144 r.0
    unfolding setup_pml2_entries
    setup_pml2_entries-Reached all =
        for_each_rule setup_group (λ g. Reached (g * 512)) 512 (before, pool) start-Reached
          (λ g s less r. group-Reached g s (omega (arith, less, all)) r)
