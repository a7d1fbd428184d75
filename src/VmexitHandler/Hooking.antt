-- ===== src/VmexitHandler/Hooking.antt =====
-- The exit of NovaHypervisor/VmexitHandler.cpp in which the guest asks for a hook: VmcallHandler and
-- `RootModePageHook` of NovaHypervisor/Ept.cpp, up to the next entry.
mod Tests
use nova_hypervisor.Base.{
  ℕ, ◌+◌, ◌/◌, ◌%◌, ◌^◌, ◌≡◌, ◌∙◌, refl, ap, Bool, true, false, not, truthy, ◌||◌, if◌then◌else◌,
  bit_and, ◌==◌, arith, Bool-cases, inl, inr,
}
use nova_hypervisor.Vmcs.{
  VmcsStore, vm_exit_reason, exit_qualification, idt_vectoring_info_field, vm_entry_intr_info_field,
}
use nova_hypervisor.Guest.{Cpu, read, set_regs, rax, rcx, rdx, r8, r10, r11, r12}
use nova_hypervisor.EventInjection.{
  clear_pending_injection, reinject_event_from_idt_vectoring, setup_instruction_length,
  event_valid_mask, event_error_code_valid_mask, is_software_event,
}
use nova_hypervisor.VmxHelper.{resume_to_next_instruction}
use nova_hypervisor.Ept.Hooks.{EptState}
use nova_hypervisor.Ept.PageHook.{root_mode_page_hook}
use nova_hypervisor.PoolManager.{ept_hook_page}
use nova_hypervisor.Base.{none, some, ◌*◌}
use nova_hypervisor.Ept.Mtrr.{get_memory_type}
use nova_hypervisor.Ept.Entry.{large_frame}
use nova_hypervisor.Ept.Table.{pml2_address}
use nova_hypervisor.Ept.Table.Walk.{Translation, walk_pml2}
use nova_hypervisor.Ept.Hooks.{page_align}
use nova_hypervisor.Ept.PageHook.Laws.{Splits}
use nova_hypervisor.Ept.PageHook.Outcome.{root_mode_page_hook_walk}
use nova_hypervisor.Ept.PageHook.Frame.{root_mode_page_hook-SameGuest}
use nova_hypervisor.VmcallHandler.{vmcall_handler}
use nova_hypervisor.Vmx.{VmState, on_cpu}
use nova_hypervisor.VmexitHandler.Dispatch.{
  Platform, vmcall, exit_reason_of, is_self_vmcall, handle_vmcall, dispatch, finish_exit,
  begin_exit, on_root, advance_rip, vmexit_handler,
}
use nova_hypervisor.VmexitHandler.Frame.{rip-Apart, length-Apart, clear_keeps, reinject-rest}
use nova_hypervisor.VmexitHandler.Exit.{rip, length, finish_exit-rip}

module _ {V P : Type 0} (hw : VmcsStore V) (m : Platform V P) where
  -- The guest's own call to hook the page of RDX with the permissions of R8.
  abbrev pub AsksToHook : Cpu V → Type 0
  AsksToHook c =
      (c.regs rcx ≡ 3)
      × ((c.regs rdx == 0) ≡ false)
      × (is_self_vmcall (c.regs r10) (c.regs r11) (c.regs r12) ≡ true)

  -- The end of an exit, on what it leaves alone.
  finish_exit-kept :
      (s : VmState V P)
      → s.vmxoff_state.is_vmxoff_executed ≡ false
      → let s' = (finish_exit hw m (s, advance_rip)).0 in
        (s'.ept.memory ≡ s.ept.memory)
        × (s'.ept.hooked_pages ≡ s.ept.hooked_pages)
        × (s'.ept.pool ≡ s.ept.pool)
        × (s'.ept.is_on_vmx_root ≡ false)
        × (s'.ept.cpu.regs ≡ s.ept.cpu.regs)
  unfolding finish_exit resume_to_next_instruction
  finish_exit-kept s on =
      rw on (refl, refl, refl, refl, (reinject-rest hw (resume_to_next_instruction hw s.ept.cpu)).0)

  module _ (s : VmState V P) where
    -- The tables, the hooks and the pool at the call.
    abbrev pub called : EptState V P
    called = (on_cpu (set_regs rax 0) (begin_exit hw m s)).ept

    -- What `RootModePageHook` makes of them.
    abbrev pub hooking : EptState V P × Bool
    hooking =
        root_mode_page_hook m.physical_of m.virtual_of m.mtrr m.free m.allocate m.ept_page_table
          s.is_launched (s.ept.cpu.regs rdx) (s.ept.cpu.regs r8 % 2 ^ 8) called

    abbrev answer : ℕ
    answer = if hooking.1 then 0 else 18446744072635809793

    abbrev answered : VmState V P
    answered = on_cpu (set_regs rax answer) (record s { ept = hooking.0 })

    handle_vmcall-hook : AsksToHook s.ept.cpu → handle_vmcall hw m (begin_exit hw m s) ≡ answered
    unfolding handle_vmcall vmcall_handler begin_exit clear_pending_injection
    handle_vmcall-hook (number, address, own) = elim (Bool-cases hooking.1) [
      | inl done ↦ rw (own, number, address, done) refl
      | inr refused ↦ rw (own, number, address, refused) refl
    ]

    -- When the guest calls the hypervisor to hook a page, the exit does what `RootModePageHook` does on the
    -- guest's address and the low byte of the permissions, in VMX root mode: memory, the list of hooks and
    -- the pool are those that it leaves. RAX tells whether it succeeded, the other registers are as before,
    -- and the guest goes on behind the call with VMX on, if it was on.
    pub vmexit_handler-hook :
        exit_reason_of (bit_and (read hw vm_exit_reason s.ept.cpu) 65535) ≡ vmcall
        → AsksToHook s.ept.cpu
        → s.vmxoff_state.is_vmxoff_executed ≡ false
        → let (s', off) = vmexit_handler hw m s in
          (off ≡ false)
          × (s'.ept.memory ≡ hooking.0.memory)
          × (s'.ept.hooked_pages ≡ hooking.0.hooked_pages)
          × (s'.ept.pool ≡ hooking.0.pool)
          × (s'.ept.is_on_vmx_root ≡ false)
          × (s'.ept.cpu.regs rax ≡ (if hooking.1 then 0 else 18446744072635809793))
          × ((i : ℕ) → (i == rax) ≡ false → s'.ept.cpu.regs i ≡ s.ept.cpu.regs i)
          × (rip hw m s' ≡ (rip hw m s + length hw m s) % 2 ^ 64)
    unfolding vmexit_handler dispatch begin_exit clear_pending_injection
    vmexit_handler-hook h asks on =
        let (vmcs, regs) =
          root_mode_page_hook-SameGuest m.physical_of m.virtual_of m.mtrr m.free m.allocate
            m.ept_page_table s.is_launched (s.ept.cpu.regs rdx) (s.ept.cpu.regs r8 % 2 ^ 8)
            called in
        let (memory, hooks, pool, root, same) = finish_exit-kept answered on in
        let (off, at) = finish_exit-rip hw m answered advance_rip on in
        let from : rip hw m answered ≡ rip hw m s =
          ap (hw.vmread 26654) vmcs ∙ clear_keeps hw 26654 rip-Apart s.ept.cpu in
        let by : length hw m answered ≡ length hw m s =
          ap (hw.vmread 17420) vmcs ∙ clear_keeps hw 17420 length-Apart s.ept.cpu in
        rw (h, handle_vmcall-hook asks)
          (
            off,
            memory,
            hooks,
            pool,
            root,
            ap (λ (f : ℕ → ℕ). f rax) same,
            λ i other. rw (same, other, regs, other) refl,
            at ∙ rw (from, by) refl,
          )

    -- The guest calls the hypervisor to hook a page that is not hooked yet, with permissions that do not
    -- have a write without a read, and the page lies in a page of 2 MB below 512 GB that is not split; the
    -- pool has a buffer, which is one physical frame apart from the entry, and a record. Then at the next
    -- entry RAX is STATUS_SUCCESS, the guest goes on behind the call, and the hook works: the processor
    -- translates each guest address of the page of 2 MB to the same address; outside the hooked page of
    -- 4 KB every access is allowed, in it nothing but a read, and that if R8 has it.
    pub vmexit_handler-protects :
        (buffer f at : ℕ) (pool1 pool2 : P)
        → exit_reason_of (bit_and (read hw vm_exit_reason s.ept.cpu) 65535) ≡ vmcall
        → AsksToHook s.ept.cpu
        → s.vmxoff_state.is_vmxoff_executed ≡ false
        → Splits m.physical_of m.virtual_of m.mtrr m.free m.allocate m.ept_page_table s.is_launched
            (s.ept.cpu.regs rdx)
            (s.ept.cpu.regs r8 % 2 ^ 8)
            buffer
            pool1
            called
            f
        → m.allocate ept_hook_page pool1 ≡ (pool2, at)
        → truthy at ≡ true
        → let s' = (vmexit_handler hw m s).0 in
          let page = m.physical_of (page_align (s.ept.cpu.regs rdx)) in
          let entry = pml2_address m.ept_page_table page in
          let big = large_frame (s.ept.memory entry) in
          let translated : ℕ → ℕ → Translation = λ guest rights. record {
            address = big * 2097152 + guest % 2097152;
            memory_type = get_memory_type m.mtrr (big * 512 + guest / 4096 % 512) false % 8;
            rights = rights;
          } in
          (s'.ept.cpu.regs rax ≡ 0)
          × (rip hw m s' ≡ (rip hw m s + length hw m s) % 2 ^ 64)
          × ((guest : ℕ)
              → walk_pml2 m.virtual_of s'.ept.memory entry guest ≡ (
                  if guest / 4096 % 512 == page / 4096 % 512
                  then if s.ept.cpu.regs r8 % 2 ^ 8 % 2 == 0
                    then none
                    else some (translated guest 1)
                  else some (translated guest 7)))
    unfolding begin_exit
    vmexit_handler-protects buffer f at pool1 pool2 h asks on splits given real =
        let (off, memory, hooks, pool, root, status, others, next) =
          vmexit_handler-hook h asks on in
        let (done, walk) =
          root_mode_page_hook_walk m.physical_of m.virtual_of m.mtrr m.free m.allocate
            m.ept_page_table s.is_launched (s.ept.cpu.regs rdx) (s.ept.cpu.regs r8 % 2 ^ 8) buffer
            pool1 pool2 called f splits at given real in
        (status ∙ rw done refl, next, λ guest. rw memory (walk guest))
