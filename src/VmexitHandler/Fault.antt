-- ===== src/VmexitHandler/Fault.antt =====
-- An exit that a handler of NovaHypervisor/VmexitHandler.cpp refuses.
use mathlib.Core.Option.{some-injective}
use nova_hypervisor.Base.{
  ℕ, ◌≡◌, ◌∙◌, refl, ap, Bool, true, false, bit_and, ◌==◌, ltb, Option, none, some, arith,
  Bool-cases, inl, inr,
}
use nova_hypervisor.Vmcs.{
  VmcsStore, vm_exit_reason, exit_qualification, guest_rip, vm_entry_intr_info_field,
}
use nova_hypervisor.Guest.{Cpu, read}
use nova_hypervisor.EventInjection.{
  clear_pending_injection, inject_general_protection, inject_interruption,
  reinject_event_from_idt_vectoring, exit_valid,
}
use nova_hypervisor.EventInjection.Laws.{IsEvent, Entry, inject_interruption_lem}
use nova_hypervisor.EventInjection.Delivery.{reinject_idle}
use nova_hypervisor.RegistersHandler.{
  handle_cr_access, handle_msr_read, handle_msr_write, mov_to_cr, mov_from_cr, access_type,
}
use nova_hypervisor.VmexitHandler.{emulate_xsetbv}
use nova_hypervisor.Vmx.{VmState, on_cpu}
use nova_hypervisor.VmexitHandler.Dispatch.{
  Platform, ExitReason, exception_nmi, triple_fault, hlt, vmx_instruction, cr_access, msr_read,
  msr_write, cpuid, monitor_trap_flag, ept_violation, ept_misconfig, vmcall, xsetbv, invd,
  user_wait, unhandled, exit_reason_of, dispatch, or_fault, inject_event, finish_exit, begin_exit,
  vmexit_handler,
}
use nova_hypervisor.VmexitHandler.Frame.{rip-Apart, clear_keeps, inject_keeps}

module _ {V P : Type 0} (hw : VmcsStore V) (m : Platform V P) where
  -- The handlers that may refuse.
  abbrev pub may_refuse : ExitReason → Option (Cpu V → Cpu V × Bool)
  may_refuse exception_nmi = none
  may_refuse triple_fault = none
  may_refuse hlt = none
  may_refuse vmx_instruction = none
  may_refuse cr_access = some (handle_cr_access hw m.vpid_supported m.processor)
  may_refuse msr_read = some (handle_msr_read m.readmsr)
  may_refuse msr_write = some handle_msr_write
  may_refuse cpuid = none
  may_refuse monitor_trap_flag = none
  may_refuse ept_violation = none
  may_refuse ept_misconfig = none
  may_refuse vmcall = none
  may_refuse xsetbv = some (emulate_xsetbv m.cpuidex)
  may_refuse invd = none
  may_refuse user_wait = none
  may_refuse unhandled = none

  -- A handler that refuses leaves everything as it is.
  abbrev Unchanged : (Cpu V → Cpu V × Bool) → Type 0
  Unchanged handler = (c : Cpu V) → (handler c).1 ≡ false → (handler c).0 ≡ c

  msr_read-Unchanged : Unchanged (handle_msr_read m.readmsr)
  unfolding handle_msr_read
  msr_read-Unchanged c h = ground (arith, h)

  msr_write-Unchanged : Unchanged handle_msr_write
  unfolding handle_msr_write
  msr_write-Unchanged c h = ground (arith, h)

  xsetbv-Unchanged : Unchanged (emulate_xsetbv m.cpuidex)
  unfolding emulate_xsetbv
  xsetbv-Unchanged c h = ground (arith, h)

  mov_to_cr-Unchanged :
      (cr value : ℕ) → Unchanged (mov_to_cr hw m.vpid_supported m.processor cr value)
  unfolding mov_to_cr
  mov_to_cr-Unchanged cr value c h = ground (arith, h)

  mov_from_cr-Unchanged : (cr r : ℕ) → Unchanged (mov_from_cr hw cr r)
  unfolding mov_from_cr
  mov_from_cr-Unchanged cr r c h = ground (arith, h)

  handle_cr_access-Unchanged : Unchanged (handle_cr_access hw m.vpid_supported m.processor)
  unfolding handle_cr_access
  handle_cr_access-Unchanged c h =
      let qual = read hw exit_qualification c in
      elim (Bool-cases (ltb 1 (access_type qual))) [
        | inl other ↦ rw other refl
        | inr move ↦ elim (Bool-cases (access_type qual == 0)) [
          | inl to ↦ rw (move, to) (mov_to_cr-Unchanged _ _ c (rw (move, to) at h))
          | inr from ↦ rw (move, from) (mov_from_cr-Unchanged _ _ c (rw (move, from) at h))
        ]
      ]

  -- What a refusing handler leads to.
  abbrev faulted : VmState V P → VmState V P
  faulted s = on_cpu (inject_general_protection hw) s

  or_fault-refused :
      (handler : Cpu V → Cpu V × Bool) (s : VmState V P)
      → Unchanged handler
      → (handler s.ept.cpu).1 ≡ false
      → or_fault hw m handler s ≡ (faulted s, inject_event)
  unfolding or_fault
  or_fault-refused handler s same refused = rw (refused, same s.ept.cpu refused) refl

  -- The handler of the exit, and the exit that it refuses.
  module _ (s : VmState V P) (q : ℕ) (handler : Cpu V → Cpu V × Bool)
      (refused : (handler s.ept.cpu).1 ≡ false) where
    by_handler :
        (own : Cpu V → Cpu V × Bool)
        → Unchanged own
        → some own ≡ some handler
        → or_fault hw m own s ≡ (faulted s, inject_event)
    by_handler own same e =
        let same_handler = some-injective own handler e in
        or_fault-refused own s same
          (ap (λ (f : Cpu V → Cpu V × Bool). (f s.ept.cpu).1) same_handler ∙ refused)

    dispatch-refused :
        (r : ExitReason)
        → may_refuse r ≡ some handler
        → dispatch hw m r q s ≡ (faulted s, inject_event)
    unfolding dispatch
    dispatch-refused exception_nmi h = absurd (cc)
    dispatch-refused triple_fault h = absurd (cc)
    dispatch-refused hlt h = absurd (cc)
    dispatch-refused vmx_instruction h = absurd (cc)
    dispatch-refused cr_access h =
        by_handler (handle_cr_access hw m.vpid_supported m.processor) handle_cr_access-Unchanged h
    dispatch-refused msr_read h = by_handler (handle_msr_read m.readmsr) msr_read-Unchanged h
    dispatch-refused msr_write h = by_handler handle_msr_write msr_write-Unchanged h
    dispatch-refused cpuid h = absurd (cc)
    dispatch-refused monitor_trap_flag h = absurd (cc)
    dispatch-refused ept_violation h = absurd (cc)
    dispatch-refused ept_misconfig h = absurd (cc)
    dispatch-refused vmcall h = absurd (cc)
    dispatch-refused xsetbv h = by_handler (emulate_xsetbv m.cpuidex) xsetbv-Unchanged h
    dispatch-refused invd h = absurd (cc)
    dispatch-refused user_wait h = absurd (cc)
    dispatch-refused unhandled h = absurd (cc)

  -- The general protection fault of the next entry.
  abbrev pub FaultPending : Cpu V → Type 0
  FaultPending c = (info : ℕ) × IsEvent 3 13 true info × Entry hw info 0 0 c

  faulted-Pending : (c : Cpu V) → FaultPending (inject_general_protection hw c)
  unfolding inject_general_protection
  faulted-Pending c =
      inject_interruption_lem hw c 3 13 0 true (omega arith) (omega arith) (omega arith)

  -- With it pending nothing is delivered again.
  faulted-kept :
      (c : Cpu V)
      → reinject_event_from_idt_vectoring hw (inject_general_protection hw c)
        ≡ (inject_general_protection hw c, false)
  faulted-kept c =
      let (info, event, entry) = faulted-Pending c in
      let pending : exit_valid (read hw vm_entry_intr_info_field (inject_general_protection hw c))
          ≡ true =
        rw (entry.of_info) (ground (arith, event.valid)) in
      reinject_idle hw (inject_general_protection hw c) (inl pending)

  faulted-rip :
      (c : Cpu V) → read hw guest_rip (inject_general_protection hw c) ≡ read hw guest_rip c
  unfolding inject_general_protection
  faulted-rip c = inject_keeps hw 26654 rip-Apart 3 13 0 true c

  -- Only the VMCS is changed on the way to the fault.
  begun-faulted :
      (c : Cpu V)
      → let c' = inject_general_protection hw (clear_pending_injection hw c) in
        (c'.regs ≡ c.regs) × (c'.effects ≡ c.effects)
  unfolding inject_general_protection inject_interruption clear_pending_injection
  begun-faulted c = (refl, refl)

  -- An access to a control register, an RDMSR, a WRMSR or an XSETBV that its handler refuses makes the
  -- guest fault: a general protection fault with the error code 0 is delivered at the next entry, RIP is
  -- still at the instruction, and the guest's registers are as before. VMX stays on, if it was on.
  pub vmexit_handler-refused :
      (s : VmState V P) (handler : Cpu V → Cpu V × Bool)
      → may_refuse (exit_reason_of (bit_and (read hw vm_exit_reason s.ept.cpu) 65535))
        ≡ some handler
      → (handler (begin_exit hw m s).ept.cpu).1 ≡ false
      → s.vmxoff_state.is_vmxoff_executed ≡ false
      → let (s', off) = vmexit_handler hw m s in
        (off ≡ false)
        × FaultPending s'.ept.cpu
        × (read hw guest_rip s'.ept.cpu ≡ read hw guest_rip s.ept.cpu)
        × (s'.ept.cpu.regs ≡ s.ept.cpu.regs)
        × (s'.ept.cpu.effects ≡ s.ept.cpu.effects)
  unfolding vmexit_handler begin_exit finish_exit
  vmexit_handler-refused s handler h refused on =
      let r = exit_reason_of (bit_and (read hw vm_exit_reason s.ept.cpu) 65535) in
      let q = read hw exit_qualification s.ept.cpu in
      let begun = begin_exit hw m s in
      let c = begun.ept.cpu in
      rw (dispatch-refused begun q handler refused r h, on, faulted-kept c)
        (
          refl,
          faulted-Pending c,
          faulted-rip c ∙ clear_keeps hw 26654 rip-Apart s.ept.cpu,
          (begun-faulted s.ept.cpu).0,
          (begun-faulted s.ept.cpu).1,
        )
