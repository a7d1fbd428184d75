-- ===== src/VmexitHandler/Leave.antt =====
-- The exit of NovaHypervisor/VmexitHandler.cpp in which a processor leaves VMX.
use nova_hypervisor.Base.{
  ℕ, ◌+◌, ◌%◌, ◌^◌, ◌<◌, ◌≡◌, ◌∙◌, refl, ap, true, false, bit_and, ◌++◌, ◌==◌, arith,
}
use nova_hypervisor.Vmcs.{VmcsStore, vm_exit_reason, guest_rip, guest_rsp, vm_exit_instruction_len}
use nova_hypervisor.Guest.{Cpu, read, set_regs, rax, rcx, r10, r11, r12}
use nova_hypervisor.EventInjection.{clear_pending_injection}
use nova_hypervisor.VmcallHandler.{vmcall_handler}
use nova_hypervisor.Vmx.{VmState, VmxoffState, on_cpu, vmx_vmxoff}
use nova_hypervisor.Vmx.Off.{leaving, vmx_vmxoff_lem}
use nova_hypervisor.VmexitHandler.Dispatch.{
  Platform, vmcall, exit_reason_of, is_self_vmcall, handle_vmcall, dispatch, finish_exit,
  begin_exit, on_root, advance_rip, vmexit_handler,
}
use nova_hypervisor.VmexitHandler.Frame.{Apart, clear_keeps}

module _ {V P : Type 0} (hw : VmcsStore V) (m : Platform V P) where
  -- The guest's own call to leave VMX.
  abbrev pub AsksToLeave : Cpu V → Type 0
  AsksToLeave c = (c.regs rcx ≡ 2) × (is_self_vmcall (c.regs r10) (c.regs r11) (c.regs r12) ≡ true)

  abbrev off_from : VmState V P → VmState V P
  off_from s = vmx_vmxoff hw m.readcr4 m.vmclear_status (on_cpu (set_regs rax 0) s)

  handle_vmcall-leave :
      (s : VmState V P)
      → AsksToLeave s.ept.cpu
      → handle_vmcall hw m s ≡ on_cpu (set_regs rax 0) (off_from s)
  unfolding handle_vmcall vmcall_handler
  handle_vmcall-leave s (number, own) = rw (own, number) refl

  finish_exit-off :
      (s : VmState V P)
      → s.vmxoff_state.is_vmxoff_executed ≡ true
      → finish_exit hw m (s, advance_rip) ≡ (on_root hw m false s, true)
  unfolding finish_exit
  finish_exit-off s off = rw off refl

  module _ (s : VmState V P) where
    abbrev begun : VmState V P
    begun = begin_exit hw m s

    begun-asks : AsksToLeave s.ept.cpu → AsksToLeave begun.ept.cpu
    unfolding begin_exit clear_pending_injection
    begun-asks asks = asks

    -- The preparation of the exit keeps the fields that `VmxVmxoff` reads.
    begun_field : (g : ℕ) → Apart g → hw.vmread g begun.ept.cpu.vmcs ≡ hw.vmread g s.ept.cpu.vmcs
    unfolding begin_exit
    begun_field g apart = clear_keeps hw g apart s.ept.cpu

    begun-leaving :
        leaving hw m.readcr4 m.vmclear_status (on_cpu (set_regs rax 0) begun)
        ≡ leaving hw m.readcr4 m.vmclear_status s
    unfolding begin_exit
    begun-leaving =
        rw
          (
            clear_keeps hw 26626 (omega arith, omega arith, omega arith, refl) s.ept.cpu,
            clear_keeps hw 26638 (omega arith, omega arith, omega arith, refl) s.ept.cpu,
            clear_keeps hw 26640 (omega arith, omega arith, omega arith, refl) s.ept.cpu,
            clear_keeps hw 26646 (omega arith, omega arith, omega arith, refl) s.ept.cpu,
            clear_keeps hw 18448 (omega arith, omega arith, omega arith, refl) s.ept.cpu,
            clear_keeps hw 26648 (omega arith, omega arith, omega arith, refl) s.ept.cpu,
            clear_keeps hw 18450 (omega arith, omega arith, omega arith, refl) s.ept.cpu,
          )
          refl

    begun-effects : begun.ept.cpu.effects ≡ s.ept.cpu.effects
    unfolding begin_exit clear_pending_injection
    begun-effects = refl

    begun-regs : begun.ept.cpu.regs ≡ s.ept.cpu.regs
    unfolding begin_exit clear_pending_injection
    begun-regs = refl

    vmexit_handler-off_from :
        exit_reason_of (bit_and (read hw vm_exit_reason s.ept.cpu) 65535) ≡ vmcall
        → AsksToLeave s.ept.cpu
        → (off_from begun).vmxoff_state.is_vmxoff_executed ≡ true
        → vmexit_handler hw m s
          ≡ (on_root hw m false (on_cpu (set_regs rax 0) (off_from begun)), true)
    unfolding vmexit_handler dispatch
    vmexit_handler-off_from h asks off =
        rw (h, handle_vmcall-leave begun (begun-asks asks))
          (finish_exit-off (on_cpu (set_regs rax 0) (off_from begun)) off)

    -- When the guest calls the hypervisor to leave VMX, the handler answers that VMX is off. The address
    -- behind the call and the guest's stack pointer are remembered, the processor is not launched and not
    -- in VMX root mode any more, RAX is STATUS_SUCCESS, and the other registers are as before. It has run
    -- the instructions of `VmxVmxoff` with the fields as they were at the exit, and no other.
    pub vmexit_handler-leave :
        exit_reason_of (bit_and (read hw vm_exit_reason s.ept.cpu) 65535) ≡ vmcall
        → AsksToLeave s.ept.cpu
        → m.readcr4 < 2 ^ 64
        → let (s', off) = vmexit_handler hw m s in
          (off ≡ true)
          × (s'.vmxoff_state ≡ record {
            is_vmxoff_executed = true;
            guest_rip_after =
                (read hw guest_rip s.ept.cpu + read hw vm_exit_instruction_len s.ept.cpu) % 2 ^ 64;
            guest_rsp_after = read hw guest_rsp s.ept.cpu;
          })
          × (s'.is_launched ≡ false)
          × (s'.ept.is_on_vmx_root ≡ false)
          × (s'.ept.cpu.regs rax ≡ 0)
          × ((i : ℕ) → (i == rax) ≡ false → s'.ept.cpu.regs i ≡ s.ept.cpu.regs i)
          × (s'.ept.cpu.effects ≡ s.ept.cpu.effects ++ leaving hw m.readcr4 m.vmclear_status s)
    vmexit_handler-leave h asks bound =
        let (state, launched, vmcs, regs, effects) =
          vmx_vmxoff_lem hw m.readcr4 m.vmclear_status (on_cpu (set_regs rax 0) begun) bound in
        let off = ap (λ (o : VmxoffState). o.is_vmxoff_executed) state in
        let rip = begun_field 26654 (omega arith, omega arith, omega arith, refl) in
        let rsp = begun_field 26652 (omega arith, omega arith, omega arith, refl) in
        let length = begun_field 17420 (omega arith, omega arith, omega arith, refl) in
        rw (vmexit_handler-off_from h asks off) (
          refl,
          state ∙ rw (rip, rsp, length) refl,
          launched,
          refl,
          refl,
          λ i other. rw (other, regs, other, begun-regs) refl,
          effects ∙ rw (begun-effects, begun-leaving) refl,
        )
