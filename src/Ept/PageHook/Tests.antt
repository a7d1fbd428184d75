-- ===== src/Ept/PageHook/Tests.antt =====
-- A hook on a page at concrete inputs. Memory is mapped at its own physical address, and each of its
-- words is the entry of the page of 2 MB with the frame 3.
use nova_hypervisor.Base.{
  ℕ, ◌+◌, ◌*◌, ◌/◌, ◌%◌, ◌≡◌, refl, true, false, ◌==◌, if◌then◌else◌, none, some, [], arith, inl,
}
use nova_hypervisor.PoolManager.{AllocationType, split_2mb_paging_to_4kb_page}
use nova_hypervisor.Ept.Mtrr.{MtrrMap, get_memory_type}
use nova_hypervisor.Ept.Entry.{pml2_index, pml3_index, frame, large_frame, large_page}
use nova_hypervisor.Ept.Table.{pml2_address, split_entry}
use nova_hypervisor.Ept.Table.Fill.{Outside, Same}
use nova_hypervisor.Ept.Table.Walk.{Translation, walk_pml2}
use nova_hypervisor.Ept.Hooks.{EptState, page_align, find_hook, get_hooked_page, page_unhook_vmcall}
use nova_hypervisor.Ept.Hooks.Removal.{OnePerPage}
use nova_hypervisor.Ept.PageHook.{is_hook_exists, root_mode_page_hook}
use nova_hypervisor.Ept.PageHook.Records.{root_mode_page_hook-OnePerPage}
use nova_hypervisor.Ept.PageHook.Laws.{Splits, reaches, hooked_entry}
use nova_hypervisor.Ept.PageHook.RoundTrip.{root_mode_page_hook_unhook}
use nova_hypervisor.Ept.PageHook.Outcome.{root_mode_page_hook_walk, root_mode_page_hook_dangling}

abbrev same_address : ℕ → ℕ
same_address a = a

abbrev keep : ℕ → AllocationType → ℕ → ℕ
keep address type pool = pool

-- The pool counts what it gave, 64 KB apart; the other one gives a single buffer.
abbrev count : AllocationType → ℕ → ℕ × ℕ
count type pool = (pool + 1, 16777216 + pool * 65536)

abbrev single : AllocationType → ℕ → ℕ × ℕ
single type pool = (pool + 1, if pool == 0 then 16777216 else 0)

abbrev write_back_map : MtrrMap
write_back_map = record { ranges = []; default_memory_type = 6 }

abbrev unhooked : EptState (ℕ → ℕ) ℕ
unhooked = record {
  cpu = record { vmcs = λ f. 0; regs = λ i. 0; effects = [] };
  pool = 0;
  memory = λ a. 6291591;
  hooked_pages = [];
  ept_pointer = 4126;
  hooked_page = none;
  is_on_vmx_root = true;
  kernel_base_address = 0;
  kernel_size = 0;
}

entry_of_page : pml2_address 1048576 6299648 ≡ 1056792
unfolding pml2_index pml3_index
entry_of_page = refl

apart : Outside 16777216 1024 (pml2_address 1048576 6299648)
apart = inl (omega (arith, entry_of_page))

not_hooked : is_hook_exists 6299648 unhooked ≡ false
unfolding is_hook_exists get_hooked_page find_hook
not_hooked = refl

splits :
    Splits same_address same_address write_back_map keep count 1048576 true 6299650 1 16777216 1
      unhooked 4096
splits = (
  refl,
  refl,
  not_hooked,
  refl,
  omega arith,
  refl,
  refl,
  refl,
  apart,
  omega arith,
  refl,
  λ k h. omega arith,
)

single-Splits :
    Splits same_address same_address write_back_map keep single 1048576 true 6299650 1 16777216 1
      unhooked 4096
single-Splits = (
  refl,
  refl,
  not_hooked,
  refl,
  omega arith,
  refl,
  refl,
  refl,
  apart,
  omega arith,
  refl,
  λ k h. omega arith,
)

root_mode_page_hook-OnePerPage_example :
    OnePerPage
      (root_mode_page_hook same_address same_address write_back_map keep count 1048576 true 6299650
        1 unhooked).0.hooked_pages
root_mode_page_hook-OnePerPage_example =
    root_mode_page_hook-OnePerPage same_address same_address write_back_map keep count 1048576 true
      6299650 1 unhooked tt

root_mode_page_hook_walk_example :
    (let r =
        root_mode_page_hook same_address same_address write_back_map keep count 1048576 true 6299650
          1 unhooked in
      let entry = pml2_address 1048576 (same_address (page_align 6299650)) in
      let big = large_frame 6291591 in
      let translated : ℕ → ℕ → Translation = λ guest rights. record {
        address = big * 2097152 + guest % 2097152;
        memory_type = get_memory_type write_back_map (big * 512 + guest / 4096 % 512) false % 8;
        rights = rights;
      } in
      (r.1 ≡ true)
      × ((guest : ℕ)
          → walk_pml2 same_address r.0.memory entry guest ≡ (
              if guest / 4096 % 512 == same_address (page_align 6299650) / 4096 % 512
              then if 1 % 2 == 0 then none else some (translated guest 1)
              else some (translated guest 7))))
root_mode_page_hook_walk_example =
    root_mode_page_hook_walk same_address same_address write_back_map keep count 1048576 true
      6299650 1 16777216 1 2 unhooked 4096 splits 16842752 refl refl

root_mode_page_hook_dangling_example :
    (let r =
        root_mode_page_hook same_address same_address write_back_map keep single 1048576 true
          6299650 1 unhooked in
      let entry = pml2_address 1048576 (same_address (page_align 6299650)) in
      (r.1 ≡ false)
      × (r.0.pool ≡ keep 16777216 split_2mb_paging_to_4kb_page 2)
      × (large_page (r.0.memory entry) ≡ 0)
      × (same_address (frame (r.0.memory entry) * 4096) ≡ 16777216))
root_mode_page_hook_dangling_example =
    root_mode_page_hook_dangling same_address same_address write_back_map keep single 1048576 true
      6299650 1 16777216 1 2 unhooked 4096 single-Splits refl

abbrev split_memory : ℕ → ℕ
split_memory =
    split_entry same_address write_back_map (pml2_address 1048576 6299648) 16777216 unhooked.memory

root_mode_page_hook_unhook_example :
    (let (hooked, answer) =
        root_mode_page_hook same_address same_address write_back_map keep count 1048576 true 6299650
          1 unhooked in
      let (unhooked', found) = page_unhook_vmcall keep 6300000 hooked in
      (answer ≡ true)
      × (found ≡ true)
      × (unhooked'.hooked_pages ≡ unhooked.hooked_pages)
      × Same unhooked'.memory split_memory
      × (unhooked'.pool ≡ 2))
root_mode_page_hook_unhook_example =
    root_mode_page_hook_unhook same_address same_address write_back_map keep count 1048576 true
      6299650 1
      (hooked_entry same_address same_address write_back_map keep count 1048576 true 6299650 1
        16777216 1 unhooked 4096 splits)
      16842752 2 unhooked (split_memory, 1) 6300000 16777216 1 refl refl refl
      (reaches same_address same_address write_back_map keep count 1048576 true 6299650 1 16777216 1
        unhooked 4096 splits)
      refl refl
