-- ===== src/Vmx/Setup/Laws.antt =====
-- The VMCS that `SetupVmcs` of NovaHypervisor/Vmx.cpp leaves, against what the processor checks when it
-- enters the guest and against the state of the processor.
use nova_hypervisor.Base.{
  Bool-cases, inl, inr, ◌⊎◌, false, ℕ, ◌+◌, ◌-◌, ◌*◌, ◌/◌, ◌%◌, ◌^◌, ◌<◌, ◌≤◌, ◌≡◌, ◌≢◌, ◌∙◌, refl,
  true, bit_and, bit_and_field, bit_and_shift, bit_and_low, some, none, arith,
}
use nova_hypervisor.Vmcs
use nova_hypervisor.Vmcs.{VmcsStore, VmcsField, encoding, width, is_writable}
use nova_hypervisor.Guest.{Cpu, read}
use nova_hypervisor.VmxHelper.{get_vpid_tag_for_processor, adjust_controls}
use nova_hypervisor.Vmx.Setup.{
  Launch, capability, host_selectors, host_rsp_of, requested_secondary_controls,
  requested_entry_controls, setup_vmcs, machine_state, segment_bases_and_controls, cleared_fields,
  entry_points,
}
use nova_hypervisor.Vmx.Setup.Reads.{last, NoSegment}
use nova_hypervisor.Vmx.Setup.Stages.{
  setup-entry, setup-machine, setup-control, setup-cleared, setup-host, setup-debugctl, setup-vpid,
}

-- A selector without its TI and RPL bits.
selector_lem : (sel : ℕ) → bit_and sel 0xF8 % 2 ^ 16 % 8 ≡ 0
selector_lem sel = omega (arith, bit_and_field 3 5 sel)

-- The top of the stack.
host_rsp_lem :
    (l : Launch)
    → l.vmm_stack + 0x8000 ≤ 2 ^ 64
    → (host_rsp_of l % 2 ^ 64 % 16 ≡ 0)
      × (l.vmm_stack < host_rsp_of l % 2 ^ 64)
      × (host_rsp_of l % 2 ^ 64 < l.vmm_stack + 0x8000)
host_rsp_lem l fits =
    let top = (l.vmm_stack + 0x8000 - 1) % 2 ^ 64 in
    let aligned : host_rsp_of l ≡ top / 16 * 16 =
      omega (arith, bit_and_shift 4 top 1152921504606846975, bit_and_low 60 (top / 16)) in
    (omega (arith, aligned), omega (arith, aligned, fits), omega (arith, aligned, fits))

module _ {V : Type 0} (hw : VmcsStore V) (l : Launch) where
  -- Some of what the processor wants at an entry: of the host's part, the VPID and the link pointer.
  pub record IsReady (c : Cpu V) : Type 0 where
    pub es : read hw Vmcs.host_es_selector c % 8 ≡ 0
    pub cs : read hw Vmcs.host_cs_selector c % 8 ≡ 0
    pub ss : read hw Vmcs.host_ss_selector c % 8 ≡ 0
    pub ds : read hw Vmcs.host_ds_selector c % 8 ≡ 0
    pub fs : read hw Vmcs.host_fs_selector c % 8 ≡ 0
    pub gs : read hw Vmcs.host_gs_selector c % 8 ≡ 0
    pub tr : read hw Vmcs.host_tr_selector c % 8 ≡ 0
    pub link : read hw Vmcs.vmcs_link_pointer c ≡ 2 ^ 64 - 1
    pub no_event : read hw Vmcs.vm_entry_intr_info_field c ≡ 0
    pub vpid : (l.vpid_supported ≡ false) ⊎ (read hw Vmcs.virtual_processor_id c ≢ 0)
    pub stack_aligned : read hw Vmcs.host_rsp c % 16 ≡ 0
    pub stack_low : l.vmm_stack < read hw Vmcs.host_rsp c
    pub stack_high : read hw Vmcs.host_rsp c < l.vmm_stack + 0x8000
    pub entry : read hw Vmcs.host_rip c ≡ l.asm_vmexit_handler

  -- A field that only the first run writes.
  abbrev Early : ℕ → Type 0
  Early g =
      (g % 2 ≡ 0)
      × (g ≢ 0)
      × (last g (entry_points l) ≡ none)
      × (last g (machine_state l) ≡ none)
      × (last g (segment_bases_and_controls l) ≡ none)
      × NoSegment g
      × (last g (cleared_fields l) ≡ none)
      × (is_writable g ≡ true)
      × (g ≢ 10242)

  host_field :
      (g v : ℕ) (c : Cpu V)
      → Early g
      → last g (host_selectors l) ≡ some v
      → hw.vmread g (setup_vmcs l hw c).vmcs ≡ v % 2 ^ width g
  host_field g v c (even, other, entry, machine, control, apart, clear, w, d) h =
      setup-host hw l c g even other entry machine control apart clear v w d h

  host_selector :
      (g sel : ℕ) (c : Cpu V)
      → Early g
      → width g ≡ 16
      → last g (host_selectors l) ≡ some (bit_and sel 0xF8)
      → hw.vmread g (setup_vmcs l hw c).vmcs % 8 ≡ 0
  host_selector g sel c early narrow h =
      rw (host_field g (bit_and sel 0xF8) c early h, narrow) (selector_lem sel)

  vpid_lem :
      (c : Cpu V)
      → l.vpid_supported ≡ true
      → l.processor < 65535
      → read hw Vmcs.virtual_processor_id (setup_vmcs l hw c) ≢ 0
  unfolding get_vpid_tag_for_processor
  vpid_lem c on small e = omega (arith, setup-vpid hw l c on, small, e)

  -- After `SetupVmcs` the selectors of the host have no RPL and TI bits, its stack pointer is a multiple
  -- of 16 within the stack of the hypervisor, and it goes on at the handler of exits. The link pointer is
  -- all ones, no event is pending, and where VPIDs are in use that of the processor is not 0. The stack
  -- ends below 2^64, and there are fewer than 65535 processors.
  pub setup_vmcs-IsReady :
      (c : Cpu V)
      → l.vmm_stack + 0x8000 ≤ 2 ^ 64
      → l.asm_vmexit_handler < 2 ^ 64
      → l.processor < 65535
      → IsReady (setup_vmcs l hw c)
  setup_vmcs-IsReady c fits handler small =
      let (aligned, low, high) = host_rsp_lem l fits in
      let rsp = setup-entry hw l c 27668 refl (host_rsp_of l) refl refl in
      record {
        es =
            host_selector 3072 l.es c
              (refl, omega arith, refl, refl, refl, omega arith, refl, refl, omega arith) refl refl;
        cs =
            host_selector 3074 l.cs c
              (refl, omega arith, refl, refl, refl, omega arith, refl, refl, omega arith) refl refl;
        ss =
            host_selector 3076 l.ss c
              (refl, omega arith, refl, refl, refl, omega arith, refl, refl, omega arith) refl refl;
        ds =
            host_selector 3078 l.ds c
              (refl, omega arith, refl, refl, refl, omega arith, refl, refl, omega arith) refl refl;
        fs =
            host_selector 3080 l.fs c
              (refl, omega arith, refl, refl, refl, omega arith, refl, refl, omega arith) refl refl;
        gs =
            host_selector 3082 l.gs c
              (refl, omega arith, refl, refl, refl, omega arith, refl, refl, omega arith) refl refl;
        tr =
            host_selector 3084 l.tr c
              (refl, omega arith, refl, refl, refl, omega arith, refl, refl, omega arith) refl refl;
        link =
            host_field 10240 (2 ^ 64 - 1) c
              (refl, omega arith, refl, refl, refl, omega arith, refl, refl, omega arith) refl
            ∙ omega arith;
        no_event =
            setup-cleared hw l c 16406 refl (omega arith) refl refl refl (omega arith) 0 refl refl
            ∙ omega arith;
        vpid = elim (Bool-cases l.vpid_supported) [
          | inl on ↦ inr (vpid_lem c on small)
          | inr off ↦ inl off
        ];
        stack_aligned = rw rsp aligned;
        stack_low = rw rsp low;
        stack_high = rw rsp high;
        entry =
            setup-entry hw l c 27670 refl l.asm_vmexit_handler refl refl ∙ omega (arith, handler);
      }

  -- The guest's part, and the controls.
  pub record IsMirror (c : Cpu V) : Type 0 where
    pub cr0 :
        (read hw Vmcs.guest_cr0 c ≡ l.cr0 % 2 ^ 64) × (read hw Vmcs.host_cr0 c ≡ l.cr0 % 2 ^ 64)
    pub cr4 :
        (read hw Vmcs.guest_cr4 c ≡ l.cr4 % 2 ^ 64) × (read hw Vmcs.host_cr4 c ≡ l.cr4 % 2 ^ 64)
    pub cr3 :
        (read hw Vmcs.guest_cr3 c ≡ l.cr3 % 2 ^ 64)
        × (read hw Vmcs.host_cr3 c ≡ l.host_directory_table_base % 2 ^ 64)
    pub gdtr :
        (read hw Vmcs.guest_gdtr_base c ≡ l.gdt_base % 2 ^ 64)
        × (read hw Vmcs.guest_gdtr_limit c ≡ l.gdt_limit % 2 ^ 32)
    pub idtr :
        (read hw Vmcs.guest_idtr_base c ≡ l.idt_base % 2 ^ 64)
        × (read hw Vmcs.guest_idtr_limit c ≡ l.idt_limit % 2 ^ 32)
    pub segments :
        (read hw Vmcs.guest_fs_base c ≡ l.readmsr 0xC0000100 % 2 ^ 64)
        × (read hw Vmcs.guest_gs_base c ≡ l.readmsr 0xC0000101 % 2 ^ 64)
    pub host_segments :
        (read hw Vmcs.host_fs_base c ≡ l.readmsr 0xC0000100 % 2 ^ 64)
        × (read hw Vmcs.host_gs_base c ≡ l.readmsr 0xC0000101 % 2 ^ 64)
    pub efer :
        (read hw Vmcs.guest_ia32_efer c ≡ l.readmsr 0xC0000080 % 2 ^ 64)
        × (read hw Vmcs.host_ia32_efer c ≡ l.readmsr 0xC0000080 % 2 ^ 64)
    pub debugctl : read hw Vmcs.guest_ia32_debugctl c ≡ l.readmsr 0x1D9
    pub start :
        (read hw Vmcs.guest_rip c ≡ l.asm_vmx_restore_state % 2 ^ 64)
        × (read hw Vmcs.guest_rsp c ≡ l.guest_stack % 2 ^ 64)
    pub secondary :
        read hw Vmcs.secondary_vm_exec_control c
        ≡ adjust_controls (requested_secondary_controls l) (l.readmsr 0x48B) % 2 ^ 32
    pub entry_controls :
        read hw Vmcs.vm_entry_controls c
        ≡ adjust_controls (requested_entry_controls l) (capability l 0x490 0x484) % 2 ^ 32
    pub ept : read hw Vmcs.ept_pointer c ≡ l.ept_pointer_flags % 2 ^ 64

  -- After `SetupVmcs` the guest has the control registers, descriptor tables, the bases of FS and GS,
  -- EFER and DEBUGCTL of the processor, and goes on at the given address with the given stack; the host has CR0, CR4, the bases of FS and GS
  -- and EFER of the processor and the CR3 of the system process. The secondary and the entry controls are
  -- those asked for, adjusted to the processor's capabilities, and the EPT pointer is that of the tables.
  pub setup_vmcs-IsMirror : (c : Cpu V) → l.readmsr 0x1D9 < 2 ^ 64 → IsMirror (setup_vmcs l hw c)
  setup_vmcs-IsMirror c bound = record {
    cr0 = (
      setup-machine hw l c 26624 refl (omega arith) refl l.cr0 refl refl,
      setup-machine hw l c 27648 refl (omega arith) refl l.cr0 refl refl,
    );
    cr4 = (
      setup-machine hw l c 26628 refl (omega arith) refl l.cr4 refl refl,
      setup-machine hw l c 27652 refl (omega arith) refl l.cr4 refl refl,
    );
    cr3 = (
      setup-machine hw l c 26626 refl (omega arith) refl l.cr3 refl refl,
      setup-machine hw l c 27650 refl (omega arith) refl l.host_directory_table_base refl refl,
    );
    gdtr = (
      setup-machine hw l c 26646 refl (omega arith) refl l.gdt_base refl refl,
      setup-machine hw l c 18448 refl (omega arith) refl l.gdt_limit refl refl,
    );
    idtr = (
      setup-machine hw l c 26648 refl (omega arith) refl l.idt_base refl refl,
      setup-machine hw l c 18450 refl (omega arith) refl l.idt_limit refl refl,
    );
    segments = (
      setup-control hw l c 26638 refl (omega arith) refl refl (l.readmsr 0xC0000100) refl refl,
      setup-control hw l c 26640 refl (omega arith) refl refl (l.readmsr 0xC0000101) refl refl,
    );
    host_segments = (
      setup-machine hw l c 27654 refl (omega arith) refl (l.readmsr 0xC0000100) refl refl,
      setup-machine hw l c 27656 refl (omega arith) refl (l.readmsr 0xC0000101) refl refl,
    );
    efer = (
      setup-control hw l c 10246 refl (omega arith) refl refl (l.readmsr 0xC0000080) refl refl,
      setup-control hw l c 11266 refl (omega arith) refl refl (l.readmsr 0xC0000080) refl refl,
    );
    debugctl = setup-debugctl hw l c bound;
    start = (
      setup-entry hw l c 26654 refl l.asm_vmx_restore_state refl refl,
      setup-entry hw l c 26652 refl l.guest_stack refl refl,
    );
    secondary =
        setup-control hw l c 16414 refl (omega arith) refl refl
          (adjust_controls (requested_secondary_controls l) (l.readmsr 0x48B)) refl refl;
    entry_controls =
        setup-control hw l c 16402 refl (omega arith) refl refl
          (adjust_controls (requested_entry_controls l) (capability l 0x490 0x484)) refl refl;
    ept = setup-machine hw l c 8218 refl (omega arith) refl l.ept_pointer_flags refl refl;
  }
