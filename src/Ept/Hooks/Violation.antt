-- ===== src/Ept/Hooks/Violation.antt =====
-- An access to a hooked page, by Ept.cpp: stopped with a page fault, or allowed for one instruction.
use nova_hypervisor.Base.{
  ℕ, ◌+◌, ◌/◌, ◌%◌, ◌^◌, ◌<◌, ◌≤◌, ◌≡◌, ◌≢◌, ◌↔◌, refl, Bool, true, false, truthy, if◌then◌else◌,
  bit_or, [], ◌∷◌, ◌++◌, none, some, arith,
}
use nova_hypervisor.Vmcs.{VmcsStore, cpu_based_vm_exec_control}
use nova_hypervisor.Guest.{read, writecr2}
use nova_hypervisor.EventInjection.{inject_page_fault}
use nova_hypervisor.EventInjection.Laws.{IsEvent, Entry}
use nova_hypervisor.EventInjection.Delivery.{inject_page_fault_lem}
use nova_hypervisor.VmxHelper.{set_monitor_trap_flag}
use nova_hypervisor.VmxHelper.Laws.{set_monitor_trap_flag_lem}
use nova_hypervisor.Ept.Hooks.{
  EptState, HookedPageDetail, put, put_same, set_bit, page_align, is_access_from_kernel_image,
  page_fault_error_code, find_hook, at_physical, set_pml1_and_invalidate_tlb, missing_bit,
  handle_hooked_page, handle_page_hook_exit, handle_monitor_trap_flag, monitor_trap_exit,
  write_access, execute_access, user_mode_linear_address,
}

-- The kernel image: known, of at most 256 MB, not reaching past the end of the address space, and with
-- the address in it.
pub is_access_from_kernel_image_iff :
    (base size rip : ℕ)
    → base < 2 ^ 64
    → (is_access_from_kernel_image base size rip ≡ true) ↔ (
        (base ≢ 0)
        × (size ≢ 0)
        × (size ≤ 2 ^ 28)
        × (base + size < 2 ^ 64)
        × (base ≤ rip)
        × (rip < base + size))
unfolding is_access_from_kernel_image
is_access_from_kernel_image_iff base size rip h = ground (arith, h)

-- The error code: a violation of a page that is present, the access, and the mode.
pub page_fault_error_code_lem :
    (qualification : ℕ)
    → (page_fault_error_code qualification
        ≡ 1
          + (if write_access qualification then 2 else 0)
          + (if user_mode_linear_address qualification then 4 else 0)
          + (if execute_access qualification then 16 else 0))
unfolding page_fault_error_code
page_fault_error_code_lem qualification =
    go (write_access qualification) (user_mode_linear_address qualification)
      (execute_access qualification)
  where
    go :
        (w u x : Bool)
        → (let with_write = if w then bit_or 1 2 else 1 in
            let with_user = if u then bit_or with_write 4 else with_write in
            if x then bit_or with_user 16 else with_user)
          ≡ 1 + (if w then 2 else 0) + (if u then 4 else 0) + (if x then 16 else 0)
    go true true true = refl
    go true true false = refl
    go true false true = refl
    go true false false = refl
    go false true true = refl
    go false true false = refl
    go false false true = refl
    go false false false = refl

code_small : (qualification : ℕ) → page_fault_error_code qualification < 2 ^ 32
code_small qualification = ground (arith, page_fault_error_code_lem qualification)

module _ {V P : Type 0} (hw : VmcsStore V) (e : EptState V P) (hook : HookedPageDetail)
    (qualification physical linear rip : ℕ) (real : page_align physical ≢ 0)
    (found : find_hook (at_physical (page_align physical)) e.hooked_pages ≡ some hook) where
  -- The state in which the entry is the original one.
  abbrev allowed : ℕ → EptState V P
  allowed k = set_pml1_and_invalidate_tlb hook.entry_address hook.original_entry (record e {
    memory = put hook.entry_address (set_bit k (e.memory hook.entry_address)) e.memory;
  })

  exit_allowed :
      (k : ℕ)
      → missing_bit qualification ≡ some k
      → is_access_from_kernel_image e.kernel_base_address e.kernel_size rip ≡ true
      → handle_page_hook_exit hw qualification physical linear rip e ≡ (
        record (allowed k) {
          hooked_page = some hook;
          cpu = set_monitor_trap_flag hw true (allowed k).cpu;
        },
        true,
      )
  unfolding handle_page_hook_exit handle_hooked_page
  exit_allowed k missing kernel =
      let nonzero : truthy (page_align physical) ≡ true = ground (arith, real) in
      rw (nonzero, found, handle_hooked_page, missing, kernel)

  exit_blocked :
      (k : ℕ)
      → missing_bit qualification ≡ some k
      → is_access_from_kernel_image e.kernel_base_address e.kernel_size rip ≡ false
      → handle_page_hook_exit hw qualification physical linear rip e ≡ (
        record e { cpu = inject_page_fault hw linear (page_fault_error_code qualification) e.cpu },
        true,
      )
  unfolding handle_page_hook_exit handle_hooked_page
  exit_blocked k missing other =
      let nonzero : truthy (page_align physical) ≡ true = ground (arith, real) in
      rw (nonzero, found, handle_hooked_page, missing, other)

  -- An access of the kernel image that the entry of a hooked page forbids is allowed for one
  -- instruction: the entry is the original one until the trap of the next instruction, after which the
  -- entry is the changed one, no step is pending, and the rest of the memory is as before.
  pub step_over :
      (k : ℕ)
      → missing_bit qualification ≡ some k
      → is_access_from_kernel_image e.kernel_base_address e.kernel_size rip ≡ true
      → (let first = handle_page_hook_exit hw qualification physical linear rip e in
          let second = monitor_trap_exit hw first.0 in
          (first.1 ≡ true)
          × (first.0.memory hook.entry_address ≡ hook.original_entry)
          × (truthy (read hw cpu_based_vm_exec_control first.0.cpu / 2 ^ 27 % 2) ≡ true)
          × (second.memory hook.entry_address ≡ hook.changed_entry)
          × ((a : ℕ) → a ≢ hook.entry_address → second.memory a ≡ e.memory a)
          × (second.hooked_page ≡ none)
          × (truthy (read hw cpu_based_vm_exec_control second.cpu / 2 ^ 27 % 2) ≡ false))
  unfolding monitor_trap_exit handle_monitor_trap_flag set_pml1_and_invalidate_tlb
  step_over k missing kernel = rw (exit_allowed k missing kernel) (
    refl,
    put_same hook.entry_address hook.original_entry
        (put hook.entry_address (set_bit k (e.memory hook.entry_address)) e.memory),
    (set_monitor_trap_flag_lem hw _ true).0,
    put_same hook.entry_address hook.changed_entry (allowed k).memory,
    (λ a ne. ground (arith, ne)),
    refl,
    (set_monitor_trap_flag_lem hw _ false).0,
  )

  -- Any other access that the entry forbids changes no entry and is answered by a page fault at the
  -- linear address of the access.
  pub access_blocked :
      (k : ℕ)
      → missing_bit qualification ≡ some k
      → is_access_from_kernel_image e.kernel_base_address e.kernel_size rip ≡ false
      → (let result = handle_page_hook_exit hw qualification physical linear rip e in
          (result.1 ≡ true)
          × (result.0.memory ≡ e.memory)
          × (result.0.hooked_page ≡ e.hooked_page)
          × (result.0.cpu.effects ≡ e.cpu.effects ++ writecr2 linear ∷ [])
          × (info : ℕ) × IsEvent 3 14 true info
          × Entry hw info (page_fault_error_code qualification) 0 result.0.cpu)
  access_blocked k missing other =
      let (effects, info, event, entry) =
        inject_page_fault_lem hw e.cpu linear (page_fault_error_code qualification)
          (code_small qualification) in
      rw (exit_blocked k missing other) (refl, refl, refl, effects, info, event, entry)
