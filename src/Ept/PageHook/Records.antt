-- ===== src/Ept/PageHook/Records.antt =====
-- The records of the hooked pages that `RootModePageHook` of NovaHypervisor/Ept.cpp extends.
use nova_hypervisor.Base.{
  ℕ, ◌≡◌, refl, ◌∙◌, ap, Bool, true, false, not, ◌&&◌, ◌==◌, truthy, bit_and, List, [], ◌∷◌, none,
  some, arith, Bool-cases, inl, inr,
}
use nova_hypervisor.PoolManager.{AllocationType, split_2mb_paging_to_4kb_page, ept_hook_page}
use nova_hypervisor.Ept.Mtrr.{MtrrMap}
use nova_hypervisor.Ept.Table.{split_large_page, get_pml1_entry}
use nova_hypervisor.Ept.Hooks.{
  EptState, HookedPageDetail, page_align, at_virtual, find_hook, get_hooked_page,
  set_pml1_and_invalidate_tlb,
}
use nova_hypervisor.Ept.Hooks.Removal.{Unhooked, OnePerPage}
use nova_hypervisor.Ept.PageHook.{
  is_hook_exists, insert_hook, split_and_hook, root_mode_page_hook, ept_page_write, ept_page_read,
}

none-Unhooked :
    (page : ℕ) (hooks : List HookedPageDetail)
    → find_hook (at_virtual page) hooks ≡ none
    → Unhooked page hooks
unfolding find_hook
none-Unhooked page [] e = tt
none-Unhooked page (hook ∷ rest) e = elim (Bool-cases (hook.virtual_address == page)) [
  | inl here ↦ absurd (ground (arith, e, here))
  | inr there ↦ (
    (λ eq. absurd (ground (arith, there, eq))),
    none-Unhooked page rest (ground (arith, e, there)),
  )
]

is_hook_exists-some :
    {V P : Type 0} (page : ℕ) (e : EptState V P) (hook : HookedPageDetail)
    → find_hook (at_virtual (page_align (page_align page))) e.hooked_pages ≡ some hook
    → is_hook_exists page e ≡ true
unfolding is_hook_exists get_hooked_page
is_hook_exists-some page e hook eq = rw (is_hook_exists, eq) refl

-- What `IsHookExists` looks for.
is_hook_exists-Unhooked :
    {V P : Type 0} (target : ℕ) (e : EptState V P)
    → is_hook_exists (page_align target) e ≡ false
    → Unhooked (page_align target) e.hooked_pages
is_hook_exists-Unhooked target e h =
    let page = page_align target in
    none-Unhooked page e.hooked_pages (
      elim (find_hook (at_virtual page) e.hooked_pages)
          as (λ found.
            find_hook (at_virtual page) e.hooked_pages ≡ found
            → find_hook (at_virtual page) e.hooked_pages ≡ none) [
              | none ↦ λ eq. eq
              | some hook ↦ λ eq.
                  let aligned : page_align (page_align page) ≡ page = omega arith in
                  let exists =
                    is_hook_exists-some page e hook
                      (ap (λ (a : ℕ). find_hook (at_virtual a) e.hooked_pages) aligned ∙ eq) in
                  absurd (ground (arith, h, exists))
            ]
        refl)

module _ {V P : Type 0} (pa va : ℕ → ℕ) (mtrr : MtrrMap) (free : ℕ → AllocationType → P → P)
    (allocate : AllocationType → P → P × ℕ) (table : ℕ) (is_launched : Bool) where
  insert_hook-OnePerPage :
      (page physical buffer pml1 permissions : ℕ) (e : EptState V P)
      → Unhooked page e.hooked_pages
      → OnePerPage e.hooked_pages
      → OnePerPage
          (insert_hook pa va mtrr free allocate table is_launched page physical buffer pml1
            permissions e).0.hooked_pages
  unfolding insert_hook set_pml1_and_invalidate_tlb
  insert_hook-OnePerPage page physical buffer pml1 permissions e alone one =
      elim (Bool-cases (truthy (allocate ept_hook_page e.pool).1)) [
        | inr failed ↦ rw failed one
        | inl given ↦ elim (Bool-cases is_launched) [
          | inl launched ↦ rw (given, launched) (alone, one)
          | inr before ↦ rw (given, before) (alone, one)
        ]
      ]

  split_and_hook-OnePerPage :
      (page physical permissions : ℕ) (e : EptState V P)
      → Unhooked page e.hooked_pages
      → OnePerPage e.hooked_pages
      → OnePerPage
          (split_and_hook pa va mtrr free allocate table is_launched page physical permissions
            e).0.hooked_pages
  unfolding split_and_hook
  split_and_hook-OnePerPage page physical permissions e alone one =
      let (pool', buffer) = allocate split_2mb_paging_to_4kb_page e.pool in
      let (s, split) = split_large_page pa mtrr free table buffer physical (e.memory, pool') in
      let e' : EptState V P = record e { memory = s.0; pool = s.1 } in
      elim (Bool-cases (truthy buffer)) [
        | inr failed ↦ rw failed one
        | inl given ↦ elim (Bool-cases split) [
          | inr failed ↦ rw (given, failed) one
          | inl done ↦
              elim (get_pml1_entry va table physical s.0)
                  as (λ found.
                    get_pml1_entry va table physical s.0 ≡ found
                    → OnePerPage
                        (split_and_hook pa va mtrr free allocate table is_launched page physical
                          permissions e).0.hooked_pages) [
                            | none ↦ λ eq. rw (given, done, eq) one
                            | some pml1 ↦ λ eq.
                                rw (given, done, eq)
                                  (insert_hook-OnePerPage page physical buffer pml1 permissions e'
                                    alone one)
                          ]
                refl
        ]
      ]

  -- `RootModePageHook` leaves at most one record at each page, if that was so before, whether it lays
  -- the hook, refuses or fails.
  pub root_mode_page_hook-OnePerPage :
      (target permissions : ℕ) (e : EptState V P)
      → OnePerPage e.hooked_pages
      → OnePerPage
          (root_mode_page_hook pa va mtrr free allocate table is_launched target permissions
            e).0.hooked_pages
  unfolding root_mode_page_hook
  root_mode_page_hook-OnePerPage target permissions e one =
      let page = page_align target in
      elim (Bool-cases (e.is_on_vmx_root && not is_launched)) [
        | inl early ↦ rw early one
        | inr late ↦
            elim (Bool-cases (
              truthy (bit_and permissions ept_page_write)
              && not (truthy (bit_and permissions ept_page_read)))) [
                | inl bad ↦ rw (late, bad) one
                | inr fine ↦ elim (Bool-cases (is_hook_exists page e)) [
                  | inl hooked ↦ rw (late, fine, hooked) one
                  | inr free_page ↦ elim (Bool-cases (truthy (pa page))) [
                    | inr unmapped ↦ rw (late, fine, free_page, unmapped) one
                    | inl mapped ↦
                        rw (late, fine, free_page, mapped)
                          (split_and_hook-OnePerPage page (pa page) permissions e
                            (is_hook_exists-Unhooked target e free_page) one)
                  ]
                ]
              ]
      ]
