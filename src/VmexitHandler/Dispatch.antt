-- ===== src/VmexitHandler/Dispatch.antt =====
-- `VmexitHandler` of NovaHypervisor/VmexitHandler.cpp: from an exit to the next entry.
use nova_hypervisor.Base.{
  ℕ, ◌%◌, ◌^◌, Bool, true, false, ◌&&◌, ◌||◌, ◌==◌, if◌then◌else◌, bit_and, bit_or,
}
use nova_hypervisor.Vmcs.{
  VmcsStore, vm_exit_reason, exit_qualification, vm_exit_intr_info, guest_rflags,
  guest_physical_address,
}
use nova_hypervisor.Guest.{
  Cpu, emit, read, write, set_regs, wbinvd, dbg_break_point, rax, rcx, rdx, r8, r10, r11, r12,
}
use nova_hypervisor.EventInjection.{
  clear_pending_injection, inject_event_from_vm_exit_interruption, inject_general_protection,
  reinject_event_from_idt_vectoring,
}
use nova_hypervisor.VmxHelper.{resume_to_next_instruction, invalidate_ept}
use nova_hypervisor.RegistersHandler.{
  handle_cr_access, handle_msr_read, handle_msr_write, handle_cpuid,
}
use nova_hypervisor.PoolManager.{AllocationType}
use nova_hypervisor.Ept.Mtrr.{MtrrMap}
use nova_hypervisor.Ept.Hooks.{
  monitor_trap_exit, handle_ept_violation, handle_misconfiguration, page_unhook_vmcall,
  unhook_all_pages_vmcall,
}
use nova_hypervisor.Ept.PageHook.{root_mode_page_hook}
use nova_hypervisor.VmcallHandler.{
  VmcallOps, Status, success, unsuccessful, invalid_parameter, vmcall_handler, hypercall_handler,
}
use nova_hypervisor.VmexitHandler.{emulate_xsetbv}
use nova_hypervisor.Vmx.{VmState, on_cpu, vmx_vmxoff}

-- What the handlers ask the processor, the system and the pool, and the globals that they read.
pub record Platform (V P : Type 0) : Type 0 where
  pub readmsr : ℕ → ℕ
  pub cpuidex : ℕ → ℕ → ℕ × ℕ × ℕ × ℕ
  pub readcr4 : ℕ
  pub vmclear_status : ℕ
  -- `AsmHypervVmcall`.
  pub hyperv_vmcall : Cpu V → Cpu V
  pub vpid_supported : Bool
  pub processor : ℕ
  pub physical_of : ℕ → ℕ
  pub virtual_of : ℕ → ℕ
  pub mtrr : MtrrMap
  pub ept_page_table : ℕ
  pub free : ℕ → AllocationType → P → P
  pub allocate : AllocationType → P → P × ℕ

-- The cases of the switch.
pub data ExitReason : Type 0 where
  exception_nmi triple_fault hlt vmx_instruction cr_access msr_read : ExitReason
  msr_write cpuid monitor_trap_flag ept_violation ept_misconfig vmcall : ExitReason
  xsetbv invd user_wait unhandled : ExitReason

pub data VmExitAction : Type 0 where
  resume_current_rip advance_rip inject_event shutdown_vmx : VmExitAction

-- VMCLEAR to VMXON, by number.
abbrev pub is_vmx_instruction : ℕ → Bool
is_vmx_instruction n =
    n == 19
    || (n == 21
        || (n == 22 || (n == 23 || (n == 24 || (n == 25 || (n == 26 || (n == 27 || n == 20)))))))

unfoldable pub exit_reason_of : ℕ → ExitReason
exit_reason_of n =
    if n == 0
    then exception_nmi
    else if n == 2
    then triple_fault
    else if n == 12
    then hlt
    else if is_vmx_instruction n
    then vmx_instruction
    else if n == 28
    then cr_access
    else if n == 31
    then msr_read
    else if n == 32
    then msr_write
    else if n == 10
    then cpuid
    else if n == 37
    then monitor_trap_flag
    else if n == 48
    then ept_violation
    else if n == 49
    then ept_misconfig
    else if n == 18
    then vmcall
    else if n == 55
    then xsetbv
    else if n == 13
    then invd
    else if n == 67 || n == 68
    then user_wait
    else unhandled

-- `IsSelfVmcall`.
unfoldable pub is_self_vmcall : ℕ → ℕ → ℕ → Bool
is_self_vmcall a b c = a == 310686010704 && (b == 94889840823372 && c == 5642808406554530390)

-- An `NTSTATUS` where it becomes a word of 64 bits.
abbrev pub status_word : Status → ℕ
status_word success = 0
status_word unsuccessful = 18446744072635809793
status_word invalid_parameter = 18446744072635809805

module _ {V P : Type 0} (hw : VmcsStore V) (m : Platform V P) where
  -- What `VmcallHandler` calls, as the other files implement it.
  abbrev pub vmcall_ops : VmcallOps (VmState V P)
  vmcall_ops = record {
    vmxoff = vmx_vmxoff hw m.readcr4 m.vmclear_status;
    root_mode_page_hook = λ address permissions s.
        let (e, hooked) =
          root_mode_page_hook m.physical_of m.virtual_of m.mtrr m.free m.allocate m.ept_page_table
            s.is_launched address permissions s.ept in
        (record s { ept = e }, hooked);
    invalidate_ept = λ context s. on_cpu (invalidate_ept context) s;
    page_unhook_vmcall = λ address s.
        let (e, unhooked) = page_unhook_vmcall m.free address s.ept in
        (record s { ept = e }, unhooked);
    unhook_all_pages_vmcall = λ s.
        let (e, unhooked) = unhook_all_pages_vmcall m.free s.ept in
        (record s { ept = e }, unhooked);
  }

  -- A handler that refuses makes the guest fault.
  unfoldable pub or_fault : (Cpu V → Cpu V × Bool) → VmState V P → VmState V P × VmExitAction
  or_fault handler s =
      let (c, handled) = handler s.ept.cpu in
      if handled
      then (on_cpu (λ old. c) s, advance_rip)
      else (on_cpu (λ old. inject_general_protection hw c) s, inject_event)

  -- The case of VMCALL, without the action.
  unfoldable pub handle_vmcall : VmState V P → VmState V P
  handle_vmcall s =
      let s0 = on_cpu (set_regs rax 0) s in
      let regs = s0.ept.cpu.regs in
      let (s1, status) = vmcall_handler vmcall_ops (regs rcx) (regs rdx) (regs r8) s0 in
      let (c, forwarded) =
        hypercall_handler m.hyperv_vmcall m.vpid_supported s0.ept.ept_pointer s0.ept.cpu in
      if is_self_vmcall (regs r10) (regs r11) (regs r12)
      then on_cpu (set_regs rax (status_word status)) s1
      else if forwarded
      then on_cpu (λ old. c) s0
      else on_cpu (λ old. set_regs rax (status_word invalid_parameter) c) s0

  -- The switch. `qualification` was read before the pending injection was cleared.
  unfoldable pub dispatch : ExitReason → ℕ → VmState V P → VmState V P × VmExitAction
  dispatch exception_nmi qualification s =
      let info = read hw vm_exit_intr_info s.ept.cpu % 2 ^ 32 in
      let (c, injected) = inject_event_from_vm_exit_interruption hw info s.ept.cpu in
      (on_cpu (λ old. c) s, if injected then inject_event else resume_current_rip)
  dispatch triple_fault qualification s = (on_cpu (emit dbg_break_point) s, resume_current_rip)
  dispatch hlt qualification s = (s, advance_rip)
  dispatch vmx_instruction qualification s =
      (on_cpu (λ c. write hw guest_rflags (bit_or (read hw guest_rflags c) 1) c) s, advance_rip)
  dispatch cr_access qualification s = or_fault (handle_cr_access hw m.vpid_supported m.processor) s
  dispatch msr_read qualification s = or_fault (handle_msr_read m.readmsr) s
  dispatch msr_write qualification s = or_fault handle_msr_write s
  dispatch cpuid qualification s =
      let (c, handled) = handle_cpuid m.cpuidex s.ept.cpu in
      (on_cpu (λ old. c) s, if handled then advance_rip else resume_current_rip)
  dispatch monitor_trap_flag qualification s =
      (record s { ept = monitor_trap_exit hw s.ept }, resume_current_rip)
  dispatch ept_violation qualification s =
      let physical = read hw guest_physical_address s.ept.cpu in
      (
        record s { ept = (handle_ept_violation hw qualification physical s.ept).0 },
        resume_current_rip,
      )
  dispatch ept_misconfig qualification s = (on_cpu handle_misconfiguration s, resume_current_rip)
  dispatch vmcall qualification s = (handle_vmcall s, advance_rip)
  dispatch xsetbv qualification s = or_fault (emulate_xsetbv m.cpuidex) s
  dispatch invd qualification s = (on_cpu (emit wbinvd) s, advance_rip)
  dispatch user_wait qualification s = (s, advance_rip)
  dispatch unhandled qualification s = (on_cpu (emit dbg_break_point) s, resume_current_rip)

  abbrev pub on_root : Bool → VmState V P → VmState V P
  on_root on s = let e = s.ept in record s { ept = record e { is_on_vmx_root = on } }

  abbrev pub is_advance : VmExitAction → Bool
  is_advance resume_current_rip = false
  is_advance advance_rip = true
  is_advance inject_event = false
  is_advance shutdown_vmx = false

  -- What follows the switch, up to the return.
  unfoldable pub finish_exit : VmState V P × VmExitAction → VmState V P × Bool
  finish_exit (s, action) =
      let off = s.vmxoff_state.is_vmxoff_executed in
      let s1 =
        if off
        then s
        else if is_advance action
        then on_cpu (resume_to_next_instruction hw) s
        else s in
      let s2 = if off then s1 else on_cpu (λ c. (reinject_event_from_idt_vectoring hw c).0) s1 in
      (on_root false s2, off)

  -- The state before the switch.
  unfoldable pub begin_exit : VmState V P → VmState V P
  begin_exit s = on_cpu (clear_pending_injection hw) (on_root true s)

  -- The new state, and whether VMX is off.
  unfoldable pub vmexit_handler : VmState V P → VmState V P × Bool
  vmexit_handler s =
      let reason = read hw vm_exit_reason s.ept.cpu in
      let qualification = read hw exit_qualification s.ept.cpu in
      finish_exit (dispatch (exit_reason_of (bit_and reason 65535)) qualification (begin_exit s))
