-- ===== src/Ept/PageHook/RoundTrip.antt =====
-- The list of hooks that `RootModePageHook` of NovaHypervisor/Ept.cpp extends, and the hook that
-- `PageUnhookVmcall` takes off again.
use nova_hypervisor.Base.{
  ℕ, ◌≡◌, refl, ◌∙◌, ap, Bool, true, not, ◌==◌, ==_refl, truthy, ◌∷◌, some, arith, Bool-cases, inl,
  inr,
}
use nova_hypervisor.PoolManager.{AllocationType, ept_hook_page}
use nova_hypervisor.Ept.Mtrr.{MtrrMap}
use nova_hypervisor.Ept.Table.Fill.{Same}
use nova_hypervisor.Ept.Hooks.{
  EptState, HookedPageDetail, put, page_align, at_virtual, find_hook, page_unhook_vmcall, drop_hook,
  remove_hook, set_pml1_and_invalidate_tlb,
}
use nova_hypervisor.Ept.PageHook.{insert_hook, root_mode_page_hook, changed_entry_for}
use nova_hypervisor.Ept.PageHook.Steps.{ReachesEntry, root_mode_page_hook-insert}

put_restore : (a v : ℕ) (memory : ℕ → ℕ) → Same (put a (memory a) (put a v memory)) memory
put_restore a v memory b = elim (Bool-cases (b == a)) [
  | inl e ↦ let here : b ≡ a = ground (arith, e) in rw (here, ==_refl a) refl
  | inr e ↦ rw e refl
]

module _ {V P : Type 0} (pa va : ℕ → ℕ) (mtrr : MtrrMap) (free : ℕ → AllocationType → P → P)
    (allocate : AllocationType → P → P × ℕ) (table : ℕ) (is_launched : Bool) where
  module _ (target permissions pml1 at : ℕ) (pool2 : P) (e : EptState V P) (s : (ℕ → ℕ) × P) where
    abbrev changed : ℕ
    changed = changed_entry_for (s.0 pml1) permissions

    -- The record of the hook, and the state in which it is laid.
    abbrev laid_hook : HookedPageDetail
    laid_hook = record {
      at = at;
      virtual_address = page_align target;
      physical_address = pa (page_align target);
      physical_base_address = page_align (pa (page_align target));
      entry_address = pml1;
      original_entry = s.0 pml1;
      changed_entry = changed;
    }

    abbrev laid : EptState V P
    laid =
        set_pml1_and_invalidate_tlb pml1 changed
          (record e { memory = s.0; pool = pool2; hooked_pages = laid_hook ∷ e.hooked_pages })

    unhook_laid :
        (address : ℕ)
        → e.is_on_vmx_root ≡ true
        → page_align address ≡ page_align target
        → page_unhook_vmcall free address laid
          ≡ (remove_hook free laid_hook e.hooked_pages laid, true)
    unfolding page_unhook_vmcall set_pml1_and_invalidate_tlb find_hook drop_hook
    unhook_laid address root same =
        let test = at_virtual (page_align address) in
        let found : find_hook test laid.hooked_pages ≡ some laid_hook =
          rw (same, ==_refl (page_align target)) refl in
        let rest : drop_hook test laid.hooked_pages ≡ e.hooked_pages =
          rw (same, ==_refl (page_align target)) refl in
        rw (ap not root, found, rest) refl

    root_mode_page_hook-laid :
        (buffer : ℕ) (pool1 : P)
        → is_launched ≡ true
        → ReachesEntry pa va mtrr free allocate table is_launched target permissions buffer pml1
            pool1 e s
        → allocate ept_hook_page s.1 ≡ (pool2, at)
        → truthy at ≡ true
        → root_mode_page_hook pa va mtrr free allocate table is_launched target permissions e
          ≡ (laid, true)
    unfolding insert_hook
    root_mode_page_hook-laid buffer pool1 launched reaches given real =
        root_mode_page_hook-insert pa va mtrr free allocate table is_launched target permissions
          buffer pml1 pool1 e s reaches
        ∙ rw (launched, given, real) refl

    -- In VMX root mode, a hook that `RootModePageHook` lays anew after the launch is taken off by
    -- `PageUnhookVmcall` on any address of its page: the list of hooks is the one before, each word of
    -- memory is the one after the split `s`, and the pool got the record back.
    pub root_mode_page_hook_unhook :
        (address buffer : ℕ) (pool1 : P)
        → e.is_on_vmx_root ≡ true
        → page_align address ≡ page_align target
        → is_launched ≡ true
        → ReachesEntry pa va mtrr free allocate table is_launched target permissions buffer pml1
            pool1 e s
        → allocate ept_hook_page s.1 ≡ (pool2, at)
        → truthy at ≡ true
        → let (hooked, answer) =
            root_mode_page_hook pa va mtrr free allocate table is_launched target permissions e in
          let (unhooked, found) = page_unhook_vmcall free address hooked in
          (answer ≡ true)
          × (found ≡ true)
          × (unhooked.hooked_pages ≡ e.hooked_pages)
          × Same unhooked.memory s.0
          × (unhooked.pool ≡ free at ept_hook_page pool2)
    unfolding set_pml1_and_invalidate_tlb
    root_mode_page_hook_unhook address buffer pool1 root same launched reaches given real =
        rw
          (
            root_mode_page_hook-laid buffer pool1 launched reaches given real,
            unhook_laid address root same,
          )
          (refl, refl, refl, put_restore pml1 changed s.0, refl)
