-- ===== src/Ept/Hooks/Removal.antt =====
-- What the removal of hooks by Ept.cpp leaves in the paging entries.
use mathlib.Core.Path.{subst}
use mathlib.Core.Option.{some-injective}
use nova_hypervisor.Base.{
  ℕ, ◌≡◌, ◌≢◌, refl, sym, ◌∙◌, ap, true, false, ◌==◌, ne→==, ==_iff, if◌then◌else◌, List, [], ◌∷◌,
  All, none, some, arith, Bool-cases, inl, inr,
}
use nova_hypervisor.PoolManager.{AllocationType}
use nova_hypervisor.Ept.Hooks.{
  EptState, HookedPageDetail, put_same, page_align, at_virtual, find_hook, drop_hook,
  get_hooked_page, page_unhook_vmcall, unhook_each, unhook_all_pages_vmcall,
  set_pml1_and_invalidate_tlb, remove_hook,
}

-- No record is at the page of the address.
abbrev pub Unhooked : ℕ → List HookedPageDetail → Type 0
Unhooked page hooks = All (λ (hook : HookedPageDetail). hook.virtual_address ≢ page) hooks

-- No two records are at one page, as `RootModePageHook` keeps it.
abbrev pub OnePerPage : List HookedPageDetail → Type 0
OnePerPage [] = Unit {0}
OnePerPage (hook ∷ rest) = Unhooked hook.virtual_address rest × OnePerPage rest

find-none :
    (page : ℕ) (hooks : List HookedPageDetail)
    → Unhooked page hooks
    → find_hook (at_virtual page) hooks ≡ none
unfolding find_hook
find-none page [] h = refl
find-none page (hook ∷ rest) (ne, h) =
    rw (ne→== hook.virtual_address page ne, find-none page rest h)

-- The record that was found is the only one at its page, and none is left there.
find-drop :
    (page : ℕ) (hooks : List HookedPageDetail) (hook : HookedPageDetail)
    → OnePerPage hooks
    → find_hook (at_virtual page) hooks ≡ some hook
    → (hook.virtual_address ≡ page) × Unhooked page (drop_hook (at_virtual page) hooks)
unfolding find_hook drop_hook
find-drop page [] hook o e = absurd (cc)
find-drop page (first ∷ rest) hook (alone, o) e =
    elim (Bool-cases (first.virtual_address == page)) [
      | inl here ↦
          let same : first ≡ hook = some-injective first hook (
            subst (λ b. (if b then some first else find_hook (at_virtual page) rest) ≡ some hook)
              here e) in
          let at : first.virtual_address ≡ page = (==_iff first.virtual_address page).0 here in
          rw here (
            ap (λ (h : HookedPageDetail). h.virtual_address) (sym same) ∙ at,
            subst (λ p. Unhooked p rest) at alone,
          )
      | inr there ↦
          let later : find_hook (at_virtual page) rest ≡ some hook =
            subst (λ b. (if b then some first else find_hook (at_virtual page) rest) ≡ some hook)
              there e in
          let (at, gone) = find-drop page rest hook o later in
          rw there (at, ((λ eq. absurd (ground (arith, there, eq))), gone))
    ]

module _ {V P : Type 0} (free : ℕ → AllocationType → P → P) (e : EptState V P) (address : ℕ)
    (root : e.is_on_vmx_root ≡ true) (one : OnePerPage e.hooked_pages) where
  -- In VMX root mode, if no two records are at one page, `PageUnhookVmcall` finds the hook at the page
  -- of the address just when there is one; then the entry is the original one, every other word is as
  -- before, and no hook is left at the page. If there is none it changes nothing.
  pub page_unhook_vmcall_lem :
      ((hook : HookedPageDetail)
        → get_hooked_page address e.hooked_pages ≡ some hook
        → (let result = page_unhook_vmcall free address e in
            (result.1 ≡ true)
            × (result.0.memory hook.entry_address ≡ hook.original_entry)
            × ((a : ℕ) → a ≢ hook.entry_address → result.0.memory a ≡ e.memory a)
            × (get_hooked_page address result.0.hooked_pages ≡ none)))
      × (get_hooked_page address e.hooked_pages ≡ none
          → page_unhook_vmcall free address e ≡ (e, false))
  unfolding page_unhook_vmcall get_hooked_page set_pml1_and_invalidate_tlb
  page_unhook_vmcall_lem = (
    λ hook found.
        rw (root, found)
          (
            refl,
            put_same hook.entry_address hook.original_entry e.memory,
            (λ a ne. ground (arith, ne)),
            find-none (page_align address) _
                (find-drop (page_align address) e.hooked_pages hook one found).1,
          ),
    λ missing. simp (root, missing),
  )

-- No record has the entry at `a`.
abbrev pub Untouched : ℕ → List HookedPageDetail → Type 0
Untouched a hooks = All (λ (hook : HookedPageDetail). hook.entry_address ≢ a) hooks

-- No two records have one entry.
abbrev pub OnePerEntry : List HookedPageDetail → Type 0
OnePerEntry [] = Unit {0}
OnePerEntry (hook ∷ rest) = Untouched hook.entry_address rest × OnePerEntry rest

module _ {V P : Type 0} (free : ℕ → AllocationType → P → P) where
  unhook_each-Untouched :
      (a : ℕ) (hooks : List HookedPageDetail) (e : EptState V P)
      → Untouched a hooks
      → (unhook_each free hooks e).memory a ≡ e.memory a
  unfolding unhook_each set_pml1_and_invalidate_tlb
  unhook_each-Untouched a [] e h = refl
  unhook_each-Untouched a (hook ∷ rest) e (ne, h) =
      unhook_each-Untouched a rest (remove_hook free hook rest e) h ∙ ground (arith, ne)

  unhook_each-restores :
      (hooks : List HookedPageDetail) (e : EptState V P)
      → OnePerEntry hooks
      → All
          (λ (hook : HookedPageDetail).
            (unhook_each free hooks e).memory hook.entry_address ≡ hook.original_entry)
          hooks
  unfolding unhook_each set_pml1_and_invalidate_tlb
  unhook_each-restores [] e one = tt
  unhook_each-restores (hook ∷ rest) e (alone, one) =
      let e' = remove_hook free hook rest e in
      (
        unhook_each-Untouched hook.entry_address rest e' alone
            ∙ put_same hook.entry_address hook.original_entry e.memory,
        unhook_each-restores rest e' one,
      )

  unhook_each_empty :
      (hooks : List HookedPageDetail) (e : EptState V P)
      → (unhook_each free hooks e).hooked_pages ≡ []
  unfolding unhook_each
  unhook_each_empty [] e = refl
  unhook_each_empty (hook ∷ rest) e = unhook_each_empty rest (remove_hook free hook rest e)

  -- In VMX root mode, if no two records have one entry, `UnhookAllPagesVmcall` puts the original entry
  -- of every hook back, leaves every other word as it was, and leaves no hook.
  pub unhook_all_pages_vmcall_lem :
      (e : EptState V P)
      → e.is_on_vmx_root ≡ true
      → OnePerEntry e.hooked_pages
      → (let result = unhook_all_pages_vmcall free e in
          (result.1 ≡ true)
          × (result.0.hooked_pages ≡ [])
          × All
              (λ (hook : HookedPageDetail).
                result.0.memory hook.entry_address ≡ hook.original_entry)
              e.hooked_pages
          × ((a : ℕ) → Untouched a e.hooked_pages → result.0.memory a ≡ e.memory a))
  unfolding unhook_all_pages_vmcall
  unhook_all_pages_vmcall_lem e root one =
      let all : unhook_all_pages_vmcall free e ≡ (unhook_each free e.hooked_pages e, true) =
        simp root in
      rw all (
        refl,
        unhook_each_empty e.hooked_pages e,
        unhook_each-restores e.hooked_pages e one,
        λ a h. unhook_each-Untouched a e.hooked_pages e h,
      )
