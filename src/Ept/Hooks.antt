-- ===== src/Ept/Hooks.antt =====
-- The hooked pages of NovaHypervisor/Ept.cpp on one processor: EPT violations, the single step that
-- follows an allowed access, and the removal of hooks. The list of hooks is the list of its records
-- from `hookedPages->Flink` on; memory maps an address to the word there.
pub mod Violation
pub mod Removal
use nova_hypervisor.Base.{
  ℕ, zero, suc, ◌+◌, ◌-◌, ◌*◌, ◌/◌, ◌%◌, ◌^◌, Bool, true, false, not, ◌&&◌, ◌||◌, ◌==◌, ltb, leb,
  truthy, if◌then◌else◌, bit_or, List, [], ◌∷◌, Option, none, some, ◌≡◌, ==_refl,
}
use nova_hypervisor.Vmcs.{VmcsStore, guest_linear_address, guest_rip}
use nova_hypervisor.Guest.{Cpu, read, emit, dbg_break_point}
use nova_hypervisor.EventInjection.{inject_page_fault}
use nova_hypervisor.VmxHelper.{invalidate_ept, set_monitor_trap_flag}
use nova_hypervisor.PoolManager.{AllocationType, ept_hook_page}

-- `EPT_HOOKED_PAGE_DETAIL` with its address, without `InlineHook` and `IsExecutionHook`, which no code
-- reads.
pub record HookedPageDetail : Type 0 where
  pub at : ℕ
  pub virtual_address : ℕ
  pub physical_address : ℕ
  pub physical_base_address : ℕ
  pub entry_address : ℕ
  pub original_entry : ℕ
  pub changed_entry : ℕ

-- `eptPointer`, `hookedPages`, and the members of `GuestState` and `KernelBaseInfo` that are used; `P`
-- is the pool's state.
pub record EptState (V P : Type 0) : Type 0 where
  pub cpu : Cpu V
  pub pool : P
  pub memory : ℕ → ℕ
  pub hooked_pages : List HookedPageDetail
  pub ept_pointer : ℕ
  pub hooked_page : Option HookedPageDetail
  pub is_on_vmx_root : Bool
  pub kernel_base_address : ℕ
  pub kernel_size : ℕ

abbrev pub put : ℕ → ℕ → (ℕ → ℕ) → ℕ → ℕ
put a v memory b = if b == a then v else memory b

pub put_same : (a v : ℕ) (memory : ℕ → ℕ) → put a v memory a ≡ v
put_same a v memory = rw (==_refl a)

-- The word with the bit at position `k` set.
abbrev pub set_bit : ℕ → ℕ → ℕ
set_bit k word = word + (1 - word / 2 ^ k % 2) * 2 ^ k

-- The bit at position `k`, as a condition.
abbrev pub flag : ℕ → ℕ → Bool
flag k word = truthy (word / 2 ^ k % 2)

abbrev pub page_align : ℕ → ℕ
page_align address = address / 4096 * 4096

-- `VMX_EXIT_QUALIFICATION_EPT_VIOLATION`.
abbrev pub read_access : ℕ → Bool
read_access = flag 0

abbrev pub write_access : ℕ → Bool
write_access = flag 1

abbrev pub execute_access : ℕ → Bool
execute_access = flag 2

abbrev pub ept_readable : ℕ → Bool
ept_readable = flag 3

abbrev pub ept_writeable : ℕ → Bool
ept_writeable = flag 4

abbrev pub ept_executable : ℕ → Bool
ept_executable = flag 5

abbrev pub user_mode_linear_address : ℕ → Bool
user_mode_linear_address = flag 9

unfoldable pub is_access_from_kernel_image : ℕ → ℕ → ℕ → Bool
is_access_from_kernel_image base size rip =
    if not (truthy base) || not (truthy size)
    then false
    else if ltb 268435456 size || ltb ((base + size) % 2 ^ 64) base
    then false
    else leb base rip && ltb rip ((base + size) % 2 ^ 64)

unfoldable pub page_fault_error_code : ℕ → ℕ
page_fault_error_code qualification =
    let with_write = if write_access qualification then bit_or 1 2 else 1 in
    let with_user =
      if user_mode_linear_address qualification then bit_or with_write 4 else with_write in
    if execute_access qualification then bit_or with_user 16 else with_user

-- The loop on the hooked pages: the first record that passes the test.
unfoldable pub find_hook :
    (HookedPageDetail → Bool) → List HookedPageDetail → Option HookedPageDetail
find_hook test [] = none
find_hook test (hook ∷ rest) =
    let later = find_hook test rest in if test hook then some hook else later

abbrev pub at_virtual : ℕ → HookedPageDetail → Bool
at_virtual address hook = hook.virtual_address == address

abbrev pub at_physical : ℕ → HookedPageDetail → Bool
at_physical address hook = hook.physical_base_address == address

-- `RemoveEntryList` on the first record that passes the test.
unfoldable pub drop_hook : (HookedPageDetail → Bool) → List HookedPageDetail → List HookedPageDetail
drop_hook test [] = []
drop_hook test (hook ∷ rest) =
    let later = drop_hook test rest in if test hook then rest else hook ∷ later

unfoldable pub get_hooked_page : ℕ → List HookedPageDetail → Option HookedPageDetail
get_hooked_page address hooks = find_hook (at_virtual (page_align address)) hooks

-- The bit of the entry that the violation missed, and whether it is one that is handled.
abbrev pub missing_bit : ℕ → Option ℕ
missing_bit qualification =
    if not (ept_executable qualification) && execute_access qualification
    then some 2
    else if not (ept_writeable qualification) && write_access qualification
    then some 1
    else if not (ept_readable qualification) && read_access qualification
    then some 0
    else none

-- `HandleMisconfiguration`, which only logs and stops in the debugger.
abbrev pub handle_misconfiguration : {V : Type 0} → Cpu V → Cpu V
handle_misconfiguration = emit dbg_break_point

module _ {V P : Type 0} where
  -- With `SINGLE_CONTEXT`, which is how every caller here calls it.
  unfoldable pub set_pml1_and_invalidate_tlb : ℕ → ℕ → EptState V P → EptState V P
  set_pml1_and_invalidate_tlb entry value e = record e {
    memory = put entry value e.memory;
    cpu = invalidate_ept e.ept_pointer e.cpu;
  }

  unfoldable pub handle_monitor_trap_flag : HookedPageDetail → EptState V P → EptState V P
  handle_monitor_trap_flag hook e =
      set_pml1_and_invalidate_tlb hook.entry_address hook.changed_entry e

  -- `free` is `poolManager->Free`.
  module _ (free : ℕ → AllocationType → P → P) where
    abbrev pub remove_hook : HookedPageDetail → List HookedPageDetail → EptState V P → EptState V P
    remove_hook hook rest e =
        let e' = set_pml1_and_invalidate_tlb hook.entry_address hook.original_entry e in
        record e' { hooked_pages = rest; pool = free hook.at ept_hook_page e'.pool }

    unfoldable pub page_unhook_vmcall : ℕ → EptState V P → EptState V P × Bool
    page_unhook_vmcall address e =
        let test = at_virtual (page_align address) in
        if not e.is_on_vmx_root then (e, false) else elim (find_hook test e.hooked_pages) [
          | none ↦ (e, false)
          | some hook ↦ (remove_hook hook (drop_hook test e.hooked_pages) e, true)
        ]

    -- The loop of `UnhookAllPagesVmcall`, on the records that are left.
    unfoldable pub unhook_each : List HookedPageDetail → EptState V P → EptState V P
    unhook_each [] e = record e { hooked_pages = [] }
    unhook_each (hook ∷ rest) e = unhook_each rest (remove_hook hook rest e)

    unfoldable pub unhook_all_pages_vmcall : EptState V P → EptState V P × Bool
    unhook_all_pages_vmcall e =
        if not e.is_on_vmx_root then (e, false) else (unhook_each e.hooked_pages e, true)

    -- `ReleaseAllHookedPageRecords`: the records go, the entries stay as they are.
    unfoldable pub release_each : List HookedPageDetail → EptState V P → EptState V P
    release_each [] e = record e { hooked_pages = [] }
    release_each (hook ∷ rest) e =
        release_each rest
          (record e { hooked_pages = rest; pool = free hook.at ept_hook_page e.pool })

  module _ (hw : VmcsStore V) where
    -- The new state, `handled`, and `restoreHookAfterInstruction`.
    unfoldable pub handle_hooked_page :
        HookedPageDetail → ℕ → ℕ → ℕ → EptState V P → EptState V P × Bool × Bool
    handle_hooked_page hook qualification linear rip e = elim (missing_bit qualification) [
      | none ↦ (e, false, false)
      | some k ↦
          let allowed : EptState V P = record e {
            memory = put hook.entry_address (set_bit k (e.memory hook.entry_address)) e.memory;
          } in
          let fault : EptState V P = record e {
            cpu = inject_page_fault hw linear (page_fault_error_code qualification) e.cpu;
          } in
          if is_access_from_kernel_image e.kernel_base_address e.kernel_size rip
          then (
            set_pml1_and_invalidate_tlb hook.entry_address hook.original_entry allowed,
            true,
            true,
          )
          else (fault, true, false)
    ]

    unfoldable pub handle_page_hook_exit : ℕ → ℕ → ℕ → ℕ → EptState V P → EptState V P × Bool
    handle_page_hook_exit qualification physical linear rip e =
        if not (truthy (page_align physical))
        then (e, false)
        else elim (find_hook (at_physical (page_align physical)) e.hooked_pages) [
          | none ↦ (e, false)
          | some hook ↦
              let (e', handled, restore) = handle_hooked_page hook qualification linear rip e in
              (
                if restore
                    then record e' {
                      hooked_page = some hook;
                      cpu = set_monitor_trap_flag hw true e'.cpu;
                    }
                    else e',
                handled,
              )
        ]

    -- The answer false is the error that the code logs before it stops in the debugger.
    unfoldable pub handle_ept_violation : ℕ → ℕ → EptState V P → EptState V P × Bool
    handle_ept_violation qualification physical e =
        let (e', handled) =
          handle_page_hook_exit qualification physical (read hw guest_linear_address e.cpu)
            (read hw guest_rip e.cpu) e in
        (if handled then e' else record e' { cpu = emit dbg_break_point e'.cpu }, handled)

    -- The case of the monitor trap flag in `VmexitHandler`.
    unfoldable pub monitor_trap_exit : EptState V P → EptState V P
    monitor_trap_exit e =
        let e' : EptState V P = elim e.hooked_page [
          | none ↦ e
          | some hook ↦ record (handle_monitor_trap_flag hook e) { hooked_page = none }
        ] in
        record e' { cpu = set_monitor_trap_flag hw false e'.cpu }
