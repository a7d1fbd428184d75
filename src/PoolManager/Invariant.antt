-- ===== src/PoolManager/Invariant.antt =====
-- The well-formed pool, and what `FindFreeSlot`, `FreeInternal` and `AllocateInternal` do to it.
use nova_hypervisor.Base.{
  ℕ, ◌≡◌, ◌≢◌, refl, inl, inr, Bool, true, false, ◌&&◌, ◌||◌, List, [], ◌∷◌, ◌++◌, arith,
  Option-cases, Bool-cases, ◌==◌,
}
use nova_hypervisor.RequestList.Laws.{IsValid}
use nova_hypervisor.PoolManager.{
  Pool, PoolAllocation, AllocationType, split_2mb_paging_to_4kb_page, ept_hook_page, other,
  claim_slot, release_slot, find_free_slot, free_internal, allocate_internal,
}
use nova_hypervisor.PoolManager.Slots.{
  owns, in_use, all_used, Distinct, Switched, claim_slot-Switched, claim_slot-none,
  release_slot-Switched, release_slot-none, owns-append, in_use-append, Distinct-append,
  in_use-owns,
}

-- The entries of one type.
abbrev pub slots_of : AllocationType → Pool → List PoolAllocation
slots_of split_2mb_paging_to_4kb_page p = p.paging_allocations
slots_of ept_hook_page p = p.ept_hook_allocations
slots_of (other _) p = []

-- A buffer of either list, and one that is handed out.
abbrev pub has_buffer : ℕ → Pool → Bool
has_buffer a p = owns a p.paging_allocations || owns a p.ept_hook_allocations

abbrev pub handed_out : ℕ → Pool → Bool
handed_out a p = in_use a p.paging_allocations || in_use a p.ept_hook_allocations

pub record WellFormed (p : Pool) : Type 0 where
  pub paging : Distinct p.paging_allocations
  pub hooks : Distinct p.ept_hook_allocations
  pub apart : (a : ℕ) → (owns a p.paging_allocations && owns a p.ept_hook_allocations) ≡ false
  pub allocation_valid : IsValid p.allocation_requests
  pub free_valid : IsValid p.free_requests

-- `q` is `p` with the buffer `a` handed out (`u` is true) or taken back (`u` is false).
pub record Turned (a : ℕ) (u : Bool) (p q : Pool) : Type 0 where
  pub now : handed_out a q ≡ u
  pub elsewhere : (b : ℕ) → b ≢ a → handed_out b q ≡ handed_out b p
  pub buffers : (b : ℕ) → has_buffer b q ≡ has_buffer b p
  pub well_formed : WellFormed q
  pub allocation_requests : q.allocation_requests ≡ p.allocation_requests
  pub free_requests : q.free_requests ≡ p.free_requests

module _ {p : Pool} (wf : WellFormed p) (a : ℕ) (u : Bool) (l : List PoolAllocation) where
  Turned-paging :
      Switched a u p.paging_allocations l → Turned a u p (record p { paging_allocations = l })
  Turned-paging sw = record {
    now = ground (arith, sw.now, sw.owned, wf.apart a, in_use-owns a p.ept_hook_allocations);
    elsewhere = λ b ne. ground (arith, sw.elsewhere b);
    buffers = λ b. ground (arith, sw.owners b);
    well_formed = record {
      paging = sw.distinct;
      hooks = wf.hooks;
      apart = λ b. ground (arith, sw.owners b, wf.apart b);
      allocation_valid = wf.allocation_valid;
      free_valid = wf.free_valid;
    };
    allocation_requests = refl;
    free_requests = refl;
  }

  Turned-hooks :
      Switched a u p.ept_hook_allocations l → Turned a u p (record p { ept_hook_allocations = l })
  Turned-hooks sw = record {
    now = ground (arith, sw.now, sw.owned, wf.apart a, in_use-owns a p.paging_allocations);
    elsewhere = λ b ne. ground (arith, sw.elsewhere b);
    buffers = λ b. ground (arith, sw.owners b);
    well_formed = record {
      paging = wf.paging;
      hooks = sw.distinct;
      apart = λ b. ground (arith, sw.owners b, wf.apart b);
      allocation_valid = wf.allocation_valid;
      free_valid = wf.free_valid;
    };
    allocation_requests = refl;
    free_requests = refl;
  }

-- `FindFreeSlot` hands one buffer out that was not handed out, or finds none.
pub data FindCase (type : AllocationType) (p : Pool) : Pool × ℕ → Type 0 where
  found :
      (q : Pool) (a : ℕ)
      → a ≢ 0
      → handed_out a p ≡ false
      → owns a (slots_of type p) ≡ true
      → Turned a true p q
      → FindCase type p (q, a)
  missing : all_used (slots_of type p) ≡ true → FindCase type p (p, 0)

owns-ne-zero : (a : ℕ) (l : List PoolAllocation) → Distinct l → owns a l ≡ true → a ≢ 0
unfolding owns
owns-ne-zero a [] d h e = cc
owns-ne-zero a (slot ∷ rest) d h e = ground (arith, owns-ne-zero a rest d.2)

pub find_case :
    (type : AllocationType) (p : Pool) → WellFormed p → FindCase type p (find_free_slot type p)
unfolding find_free_slot all_used
find_case (other n) p wf = missing refl
find_case split_2mb_paging_to_4kb_page p wf =
    elim (Option-cases (claim_slot p.paging_allocations)) [
      | inl e ↦ rw (e, find_free_slot) (missing (claim_slot-none _ e))
      | inr ((a, l), e) ↦
          let (unused, sw) = claim_slot-Switched _ a l wf.paging e in
          rw (e, find_free_slot)
            (found _ a (owns-ne-zero a _ wf.paging sw.owned)
              (ground (arith, sw.owned, wf.apart a, in_use-owns a p.ept_hook_allocations)) sw.owned
              (Turned-paging wf a true l sw))
    ]
find_case ept_hook_page p wf = elim (Option-cases (claim_slot p.ept_hook_allocations)) [
  | inl e ↦ rw (e, find_free_slot) (missing (claim_slot-none _ e))
  | inr ((a, l), e) ↦
      let (unused, sw) = claim_slot-Switched _ a l wf.hooks e in
      rw (e, find_free_slot)
        (found _ a (owns-ne-zero a _ wf.hooks sw.owned)
          (ground (arith, sw.owned, wf.apart a, in_use-owns a p.paging_allocations)) sw.owned
          (Turned-hooks wf a true l sw))
]

-- `FreeInternal` takes a buffer of the list back, or changes nothing.
pub data FreeCase (a : ℕ) (type : AllocationType) (p : Pool) : Pool → Type 0 where
  taken_back : (q : Pool) → Turned a false p q → FreeCase a type p q
  unknown : owns a (slots_of type p) ≡ false → FreeCase a type p p

pub free_case :
    (a : ℕ) (type : AllocationType) (p : Pool)
    → WellFormed p
    → FreeCase a type p (free_internal a type p).0
unfolding free_internal owns
free_case a (other n) p wf = unknown refl
free_case a split_2mb_paging_to_4kb_page p wf =
    elim (Option-cases (release_slot a p.paging_allocations)) [
      | inl e ↦ rw (e, free_internal) (unknown (release_slot-none a _ e))
      | inr (l, e) ↦
          rw (e, free_internal)
            (taken_back _ (Turned-paging wf a false l (release_slot-Switched a _ l wf.paging e)))
    ]
free_case a ept_hook_page p wf = elim (Option-cases (release_slot a p.ept_hook_allocations)) [
  | inl e ↦ rw (e, free_internal) (unknown (release_slot-none a _ e))
  | inr (l, e) ↦
      rw (e, free_internal)
        (taken_back _ (Turned-hooks wf a false l (release_slot-Switched a _ l wf.hooks e)))
]

-- `AllocateInternal` with a buffer that the pool does not hold yet: one more free buffer, or no
-- change. No buffer is handed out or taken back.
pub record Grown (p q : Pool) : Type 0 where
  pub same : (b : ℕ) → handed_out b q ≡ handed_out b p
  pub kept : (b : ℕ) → has_buffer b p ≡ true → has_buffer b q ≡ true
  pub well_formed : WellFormed q
  pub allocation_requests : q.allocation_requests ≡ p.allocation_requests
  pub free_requests : q.free_requests ≡ p.free_requests

Grown-refl : {p : Pool} → WellFormed p → Grown p p
Grown-refl wf = record {
  same = λ b. refl;
  kept = λ b h. h;
  well_formed = wf;
  allocation_requests = refl;
  free_requests = refl;
}

module _ {p : Pool} (wf : WellFormed p) (slot : PoolAllocation)
    (fresh : has_buffer slot.address p ≡ false) (present : slot.address ≢ 0)
    (free : slot.is_used ≡ false) where
  Grown-paging : Grown p (record p { paging_allocations = p.paging_allocations ++ slot ∷ [] })
  unfolding owns in_use
  Grown-paging = record {
    same = λ b. ground (arith, in_use-append b p.paging_allocations (slot ∷ []));
    kept = λ b h. ground (arith, owns-append b p.paging_allocations (slot ∷ []));
    well_formed = record {
      paging = Distinct-append p.paging_allocations slot wf.paging present (ground arith);
      hooks = wf.hooks;
      apart = λ b. ground (arith, owns-append b p.paging_allocations (slot ∷ []), wf.apart b);
      allocation_valid = wf.allocation_valid;
      free_valid = wf.free_valid;
    };
    allocation_requests = refl;
    free_requests = refl;
  }

  Grown-hooks : Grown p (record p { ept_hook_allocations = p.ept_hook_allocations ++ slot ∷ [] })
  unfolding owns in_use
  Grown-hooks = record {
    same = λ b. ground (arith, in_use-append b p.ept_hook_allocations (slot ∷ []));
    kept = λ b h. ground (arith, owns-append b p.ept_hook_allocations (slot ∷ []));
    well_formed = record {
      paging = wf.paging;
      hooks = Distinct-append p.ept_hook_allocations slot wf.hooks present (ground arith);
      apart = λ b. ground (arith, owns-append b p.ept_hook_allocations (slot ∷ []), wf.apart b);
      allocation_valid = wf.allocation_valid;
      free_valid = wf.free_valid;
    };
    allocation_requests = refl;
    free_requests = refl;
  }

pub allocate_internal-Grown :
    (type : AllocationType) (header address : ℕ) (p : Pool)
    → WellFormed p
    → has_buffer address p ≡ false
    → Grown p (allocate_internal type header address p).0
unfolding allocate_internal
allocate_internal-Grown (other n) header address p wf fresh = Grown-refl wf
allocate_internal-Grown split_2mb_paging_to_4kb_page header address p wf fresh =
    elim (Bool-cases (header == 0 || address == 0)) [
      | inl refused ↦ elim (Bool-cases (header == 0)) [
        | inl h ↦ rw (h, allocate_internal) (Grown-refl wf)
        | inr h ↦
            let z : (address == 0) ≡ true = ground arith in
            rw (h, z, allocate_internal) (Grown-refl wf)
      ]
      | inr ok ↦
          let h : (header == 0) ≡ false = ground arith in
          let z : (address == 0) ≡ false = ground arith in
          rw (h, z, allocate_internal) (Grown-paging wf _ fresh (ground arith) refl)
    ]
allocate_internal-Grown ept_hook_page header address p wf fresh =
    elim (Bool-cases (header == 0 || address == 0)) [
      | inl refused ↦ elim (Bool-cases (header == 0)) [
        | inl h ↦ rw (h, allocate_internal) (Grown-refl wf)
        | inr h ↦
            let z : (address == 0) ≡ true = ground arith in
            rw (h, z, allocate_internal) (Grown-refl wf)
      ]
      | inr ok ↦
          let h : (header == 0) ≡ false = ground arith in
          let z : (address == 0) ≡ false = ground arith in
          rw (h, z, allocate_internal) (Grown-hooks wf _ fresh (ground arith) refl)
    ]
