-- ===== src/Ept/PageHook/Frame.antt =====
-- What `RootModePageHook` of NovaHypervisor/Ept.cpp leaves of the processor: it only invalidates.
use nova_hypervisor.Base.{
  ℕ, ◌≡◌, refl, Bool, not, ◌&&◌, truthy, bit_and, none, some, Bool-cases, inl, inr,
}
use nova_hypervisor.PoolManager.{AllocationType, split_2mb_paging_to_4kb_page, ept_hook_page}
use nova_hypervisor.Guest.{Cpu}
use nova_hypervisor.VmxHelper.{invalidate_ept}
use nova_hypervisor.Ept.Mtrr.{MtrrMap}
use nova_hypervisor.Ept.Table.{split_large_page, get_pml1_entry}
use nova_hypervisor.Ept.Hooks.{EptState, page_align, set_pml1_and_invalidate_tlb}
use nova_hypervisor.Ept.PageHook.{
  is_hook_exists, insert_hook, split_and_hook, root_mode_page_hook, ept_page_write, ept_page_read,
}

-- The fields of the VMCS and the guest's registers are the same.
abbrev pub SameGuest : {V : Type 0} → Cpu V → Cpu V → Type 0
SameGuest a b = (a.vmcs ≡ b.vmcs) × (a.regs ≡ b.regs)

module _ {V P : Type 0} (pa va : ℕ → ℕ) (mtrr : MtrrMap) (free : ℕ → AllocationType → P → P)
    (allocate : AllocationType → P → P × ℕ) (table : ℕ) (is_launched : Bool) where
  insert_hook-SameGuest :
      (page physical buffer pml1 permissions : ℕ) (e : EptState V P)
      → SameGuest
          (insert_hook pa va mtrr free allocate table is_launched page physical buffer pml1
            permissions e).0.cpu
          e.cpu
  unfolding insert_hook set_pml1_and_invalidate_tlb invalidate_ept
  insert_hook-SameGuest page physical buffer pml1 permissions e =
      elim (Bool-cases (truthy (allocate ept_hook_page e.pool).1)) [
        | inr failed ↦ rw failed (refl, refl)
        | inl given ↦ elim (Bool-cases is_launched) [
          | inl launched ↦
              rw (given, launched)
                (elim (Bool-cases (truthy e.ept_pointer)) [
                  | inl one ↦ rw one (refl, refl)
                  | inr all ↦ rw all (refl, refl)
                ])
          | inr before ↦ rw (given, before) (refl, refl)
        ]
      ]

  split_and_hook-SameGuest :
      (page physical permissions : ℕ) (e : EptState V P)
      → SameGuest
          (split_and_hook pa va mtrr free allocate table is_launched page physical permissions
            e).0.cpu
          e.cpu
  unfolding split_and_hook
  split_and_hook-SameGuest page physical permissions e =
      let (pool', buffer) = allocate split_2mb_paging_to_4kb_page e.pool in
      let (s, split) = split_large_page pa mtrr free table buffer physical (e.memory, pool') in
      let e' : EptState V P = record e { memory = s.0; pool = s.1 } in
      elim (Bool-cases (truthy buffer)) [
        | inr failed ↦ rw failed (refl, refl)
        | inl given ↦ elim (Bool-cases split) [
          | inr failed ↦ rw (given, failed) (refl, refl)
          | inl done ↦
              elim (get_pml1_entry va table physical s.0)
                  as (λ found.
                    get_pml1_entry va table physical s.0 ≡ found
                    → SameGuest
                        (split_and_hook pa va mtrr free allocate table is_launched page physical
                          permissions e).0.cpu
                        e.cpu) [
                          | none ↦ λ eq. rw (given, done, eq) (refl, refl)
                          | some pml1 ↦ λ eq.
                              rw (given, done, eq)
                                (insert_hook-SameGuest page physical buffer pml1 permissions e')
                        ]
                refl
        ]
      ]

  -- `RootModePageHook` leaves the VMCS and the guest's registers as they were, on every branch.
  pub root_mode_page_hook-SameGuest :
      (target permissions : ℕ) (e : EptState V P)
      → SameGuest
          (root_mode_page_hook pa va mtrr free allocate table is_launched target permissions
            e).0.cpu
          e.cpu
  unfolding root_mode_page_hook
  root_mode_page_hook-SameGuest target permissions e =
      let page = page_align target in
      elim (Bool-cases (e.is_on_vmx_root && not is_launched)) [
        | inl early ↦ rw early (refl, refl)
        | inr late ↦
            elim (Bool-cases (
              truthy (bit_and permissions ept_page_write)
              && not (truthy (bit_and permissions ept_page_read)))) [
                | inl bad ↦ rw (late, bad) (refl, refl)
                | inr fine ↦ elim (Bool-cases (is_hook_exists page e)) [
                  | inl hooked ↦ rw (late, fine, hooked) (refl, refl)
                  | inr free_page ↦ elim (Bool-cases (truthy (pa page))) [
                    | inr unmapped ↦ rw (late, fine, free_page, unmapped) (refl, refl)
                    | inl mapped ↦
                        rw (late, fine, free_page, mapped)
                          (split_and_hook-SameGuest page (pa page) permissions e)
                  ]
                ]
              ]
      ]
