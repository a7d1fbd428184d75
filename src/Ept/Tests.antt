-- ===== src/Ept/Tests.antt =====
-- The memory types and the hooks at concrete inputs.
use nova_hypervisor.Base.{
  ℕ, ◌+◌, ◌*◌, ◌/◌, ◌%◌, ◌^◌, ◌<◌, ◌≤◌, ◌≡◌, ◌≢◌, refl, true, false, truthy, none, some, [], ◌∷◌,
  ◌++◌, All, length, arith, ◌==◌, if◌then◌else◌,
}
use nova_hypervisor.Vmcs.{cpu_based_vm_exec_control}
use nova_hypervisor.Vmcs.Store.{fields}
use nova_hypervisor.Guest.{read, writecr2}
use nova_hypervisor.EventInjection.Laws.{IsEvent, Entry}
use nova_hypervisor.Ept.Mtrr.{
  MtrrMap, build_mtrr_map, variable_ranges, fixed_ranges, mtrr_entries_size, get_memory_type,
  is_valid_for_large_page, none_straddles,
}
use nova_hypervisor.Ept.Mtrr.Build.{build_mtrr_map_bounds, large_page_type}
use nova_hypervisor.Ept.Hooks.{
  EptState, HookedPageDetail, is_access_from_kernel_image, page_fault_error_code,
  handle_page_hook_exit, monitor_trap_exit, find_hook, page_unhook_vmcall, get_hooked_page,
  unhook_all_pages_vmcall,
}
use nova_hypervisor.Ept.Hooks.Violation.{step_over, access_blocked}
use nova_hypervisor.Ept.Hooks.Removal.{
  page_unhook_vmcall_lem, unhook_all_pages_vmcall_lem, Untouched,
}

build_mtrr_map_bounds_example :
    ((register : ℕ)
      → register < 10
      → length (variable_ranges (λ n. 2570) (fixed_ranges (λ n. 2570)) register).0
        < mtrr_entries_size)
    × (length (build_mtrr_map (λ n. 2570)).ranges ≤ mtrr_entries_size)
build_mtrr_map_bounds_example = build_mtrr_map_bounds (λ n. 2570)

-- One range, from 4 MB to below 8 MB.
abbrev one_range : MtrrMap
one_range = record {
  ranges =
      record {
        physical_base_address = 4194304;
        physical_end_address = 8388607;
        memory_type = 0;
        fixed_range = false;
      }
      ∷ [];
  default_memory_type = 6;
}

-- The map is off, so that it has no range.
accepted : is_valid_for_large_page (build_mtrr_map (λ n. 0)) 2 ≡ true
unfolding is_valid_for_large_page build_mtrr_map none_straddles
accepted = refl

large_page_type_example :
    get_memory_type (build_mtrr_map (λ n. 0)) (2 * 512 + 3) false
    ≡ get_memory_type (build_mtrr_map (λ n. 0)) 2 true
large_page_type_example = large_page_type (λ n. 0) 2 3 (omega arith) accepted

abbrev hook : HookedPageDetail
hook = record {
  at = 512;
  virtual_address = 16384;
  physical_address = 8192;
  physical_base_address = 8192;
  entry_address = 64;
  original_entry = 8199;
  changed_entry = 8193;
}

abbrev hooked : EptState (ℕ → ℕ) ℕ
hooked = record {
  cpu = record { vmcs = λ f. 0; regs = λ i. 0; effects = [] };
  pool = 0;
  memory = λ a. if a == 64 then 8193 else 0;
  hooked_pages = hook ∷ [];
  ept_pointer = 4126;
  hooked_page = none;
  is_on_vmx_root = true;
  kernel_base_address = 4096;
  kernel_size = 8192;
}

found : find_hook (λ h. h.physical_base_address == 8192) hooked.hooked_pages ≡ some hook
unfolding find_hook
found = refl

from_kernel : is_access_from_kernel_image 4096 8192 5000 ≡ true
unfolding is_access_from_kernel_image
from_kernel = refl

from_elsewhere : is_access_from_kernel_image 4096 8192 100 ≡ false
unfolding is_access_from_kernel_image
from_elsewhere = refl

-- A write to the page, whose entry only allows reads.
step_over_example :
    (let first = handle_page_hook_exit fields 10 8200 16392 5000 hooked in
      let second = monitor_trap_exit fields first.0 in
      (first.1 ≡ true)
      × (first.0.memory 64 ≡ 8199)
      × (truthy (read fields cpu_based_vm_exec_control first.0.cpu / 2 ^ 27 % 2) ≡ true)
      × (second.memory 64 ≡ 8193)
      × ((a : ℕ) → a ≢ 64 → second.memory a ≡ hooked.memory a)
      × (second.hooked_page ≡ none)
      × (truthy (read fields cpu_based_vm_exec_control second.cpu / 2 ^ 27 % 2) ≡ false))
step_over_example =
    step_over fields hooked hook 10 8200 16392 5000 (omega arith) found 1 refl from_kernel

access_blocked_example :
    (let result = handle_page_hook_exit fields 10 8200 16392 100 hooked in
      (result.1 ≡ true)
      × (result.0.memory ≡ hooked.memory)
      × (result.0.hooked_page ≡ none)
      × (result.0.cpu.effects ≡ [] ++ writecr2 16392 ∷ [])
      × (info : ℕ) × IsEvent 3 14 true info
      × Entry fields info (page_fault_error_code 10) 0 result.0.cpu)
access_blocked_example =
    access_blocked fields hooked hook 10 8200 16392 100 (omega arith) found 1 refl from_elsewhere

page_unhook_vmcall_lem_example :
    ((h : HookedPageDetail)
      → get_hooked_page 16390 hooked.hooked_pages ≡ some h
      → (let result = page_unhook_vmcall (λ a t p. 1) 16390 hooked in
          (result.1 ≡ true)
          × (result.0.memory h.entry_address ≡ h.original_entry)
          × ((a : ℕ) → a ≢ h.entry_address → result.0.memory a ≡ hooked.memory a)
          × (get_hooked_page 16390 result.0.hooked_pages ≡ none)))
    × (get_hooked_page 16390 hooked.hooked_pages ≡ none
        → page_unhook_vmcall (λ a t p. 1) 16390 hooked ≡ (hooked, false))
page_unhook_vmcall_lem_example = page_unhook_vmcall_lem (λ a t p. 1) hooked 16390 refl (tt, tt)

unhook_all_pages_vmcall_lem_example :
    (let result = unhook_all_pages_vmcall (λ a t p. 1) hooked in
      (result.1 ≡ true)
      × (result.0.hooked_pages ≡ [])
      × All
          (λ (h : HookedPageDetail). result.0.memory h.entry_address ≡ h.original_entry)
          hooked.hooked_pages
      × ((a : ℕ) → Untouched a hooked.hooked_pages → result.0.memory a ≡ hooked.memory a))
unhook_all_pages_vmcall_lem_example = unhook_all_pages_vmcall_lem (λ a t p. 1) hooked refl (tt, tt)
