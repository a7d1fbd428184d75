-- ===== src/Vmx/Setup/Vpid.antt =====
-- VPIDs, from InitializeVpidSupport of NovaHypervisor/VmxHelper.cpp to the VMCS of SetupVmcs.
use nova_hypervisor.Base.{
  ℕ, ◌+◌, ◌/◌, ◌%◌, ◌^◌, ◌<◌, ◌≡◌, refl, true, false, truthy, bit_and, bit_or, bit_and_test,
  bit_or_test, bit_or_bit, bit_and_bit, arith,
}
use nova_hypervisor.Vmcs
use nova_hypervisor.Vmcs.{VmcsStore}
use nova_hypervisor.Guest.{Cpu, read}
use nova_hypervisor.Layout.{member, ept_vpid_cap}
use nova_hypervisor.VmxHelper.{high, low, adjust_controls, get_vpid_tag_for_processor}
use nova_hypervisor.VmxHelper.Capabilities.{
  Cpuid, initialize_vpid_support, is_current_hypervisor_hyper_v,
}
use nova_hypervisor.Vmx.Setup.{Launch, requested_secondary_controls, setup_vmcs}
use nova_hypervisor.Vmx.Setup.Stages.{setup-control, setup-vpid}

-- The capabilities behind a yes.
supported_lem :
    (cpuid : Cpuid) (readmsr : ℕ → ℕ)
    → initialize_vpid_support cpuid readmsr ≡ true
    → (truthy (bit_and (high (readmsr 0x48B)) 0x20) ≡ true)
      × (truthy (member ept_vpid_cap 18 (readmsr 0x48C)) ≡ true)
      × (truthy (member ept_vpid_cap 21 (readmsr 0x48C)) ≡ true)
      × (truthy (member ept_vpid_cap 22 (readmsr 0x48C)) ≡ true)
      × (is_current_hypervisor_hyper_v cpuid ≡ false)
unfolding initialize_vpid_support
supported_lem cpuid readmsr h = ground (arith, h)

-- A bit that is asked for and allowed is in the adjusted control.
adjusted_bit :
    (ctl content i : ℕ)
    → ctl / 2 ^ i % 2 ≡ 1
    → high content / 2 ^ i % 2 ≡ 1
    → adjust_controls ctl content / 2 ^ i % 2 ≡ 1
unfolding adjust_controls
adjusted_bit ctl content i asked allowed =
    let either = bit_or_test i (bit_and ctl (high content)) (low content) in
    let both = bit_and_test i ctl (high content) in ground (arith, either, both, asked, allowed)

asks_for_vpid :
    (l : Launch) → l.vpid_supported ≡ true → requested_secondary_controls l / 2 ^ 5 % 2 ≡ 1
asks_for_vpid l on =
    let controls = bit_or (bit_or (bit_or (bit_or 0x8 0x2) 0x1000) 0x100000) 0x4000000 in
    rw on (omega (arith, bit_or_bit 5 controls))

module _ {V : Type 0} (hw : VmcsStore V) where
  -- If `InitializeVpidSupport` answers that VPIDs are in use, `SetupVmcs` leaves the control for VPIDs on,
  -- whatever else it adjusts, and the VMCS has a VPID that is not 0; the processor then has INVVPID for
  -- one context and for all, and Hyper-V is not the hypervisor below.
  pub initialize_vpid_support-setup_vmcs :
      (l : Launch) (c : Cpu V) (cpuid : Cpuid)
      → initialize_vpid_support cpuid l.readmsr ≡ true
      → l.vpid_supported ≡ true
      → l.processor < 65535
      → (read hw Vmcs.secondary_vm_exec_control (setup_vmcs l hw c) / 2 ^ 5 % 2 ≡ 1)
        × (read hw Vmcs.virtual_processor_id (setup_vmcs l hw c) ≡ 1 + l.processor)
        × (truthy (member ept_vpid_cap 18 (l.readmsr 0x48C)) ≡ true)
        × (truthy (member ept_vpid_cap 21 (l.readmsr 0x48C)) ≡ true)
        × (truthy (member ept_vpid_cap 22 (l.readmsr 0x48C)) ≡ true)
        × (is_current_hypervisor_hyper_v cpuid ≡ false)
  unfolding get_vpid_tag_for_processor
  initialize_vpid_support-setup_vmcs l c cpuid support on small =
      let (control, invvpid, single, all, bare) = supported_lem cpuid l.readmsr support in
      let allowed : high (l.readmsr 0x48B) / 2 ^ 5 % 2 ≡ 1 =
        ground (arith, control, bit_and_bit 5 (high (l.readmsr 0x48B))) in
      let adjusted = adjust_controls (requested_secondary_controls l) (l.readmsr 0x48B) in
      let bit : adjusted / 2 ^ 5 % 2 ≡ 1 =
        adjusted_bit (requested_secondary_controls l) (l.readmsr 0x48B) 5 (asks_for_vpid l on)
          allowed in
      let field = setup-control hw l c 16414 refl (omega arith) refl refl adjusted refl refl in
      let vpid = setup-vpid hw l c on in
      (omega (arith, field, bit), omega (arith, vpid, small), invvpid, single, all, bare)
