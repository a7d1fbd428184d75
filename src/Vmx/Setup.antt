-- ===== src/Vmx/Setup.antt =====
-- `SetupVmcs` of NovaHypervisor/Vmx.cpp: the VMCS of a processor that is about to enter the guest. What
-- the processor answers, and the addresses of the assembly, are arguments.
pub mod Reads
pub mod Stages
pub mod Laws
pub mod Vpid
mod Tests
use nova_hypervisor.Base.{
  ℕ, ◌+◌, ◌-◌, ◌/◌, ◌%◌, ◌^◌, Bool, true, false, truthy, if◌then◌else◌, bit_and, bit_or, List, [],
  ◌∷◌, none, some,
}
use nova_hypervisor.Vmcs
use nova_hypervisor.Vmcs.{VmcsStore, VmcsField, encoding}
use nova_hypervisor.Guest.{Cpu}
use nova_hypervisor.Layout.{member, vmx_basic}
use nova_hypervisor.VmxHelper.{
  SegmentDescriptor, get_segment_descriptor, fill_guest_selector_data, adjust_controls,
  get_vpid_tag_for_processor,
}

-- What `SetupVmcs` asks of the processor, of the state of the virtual machine and of the driver.
pub record Launch : Type 0 where
  pub es : ℕ
  pub cs : ℕ
  pub ss : ℕ
  pub ds : ℕ
  pub fs : ℕ
  pub gs : ℕ
  pub ldtr : ℕ
  pub tr : ℕ
  pub gdt : ℕ → SegmentDescriptor
  pub gdt_base : ℕ
  pub gdt_limit : ℕ
  pub idt_base : ℕ
  pub idt_limit : ℕ
  pub rflags : ℕ
  pub readmsr : ℕ → ℕ
  pub cr0 : ℕ
  pub cr3 : ℕ
  pub cr4 : ℕ
  pub processor : ℕ
  pub vpid_supported : Bool
  pub host_directory_table_base : ℕ
  pub msr_bitmap_physical : ℕ
  pub ept_pointer_flags : ℕ
  pub vmm_stack : ℕ
  pub guest_stack : ℕ
  pub asm_vmx_restore_state : ℕ
  pub asm_vmexit_handler : ℕ

-- A run of `__vmx_vmwrite`.
abbrev pub Writes : Type 0
Writes = List (VmcsField × ℕ)

abbrev pub writes : {V : Type 0} → VmcsStore V → Writes → V → V
writes hw [] s = s
writes hw ((f, v) ∷ rest) s = writes hw rest (hw.vmwrite (encoding f) v s)

module _ (l : Launch) where
  -- `VmxCapabilityHint` chooses the capability register.
  abbrev pub capability : ℕ → ℕ → ℕ
  capability true_msr msr =
      l.readmsr (if truthy (member vmx_basic 9 (l.readmsr 0x480)) then true_msr else msr)

  -- The host's selectors, the link pointer, and the low half of DEBUGCTL.
  abbrev pub host_selectors : Writes
  host_selectors =
      (Vmcs.host_es_selector, bit_and l.es 0xF8)
      ∷ (Vmcs.host_cs_selector, bit_and l.cs 0xF8)
      ∷ (Vmcs.host_ss_selector, bit_and l.ss 0xF8)
      ∷ (Vmcs.host_ds_selector, bit_and l.ds 0xF8)
      ∷ (Vmcs.host_fs_selector, bit_and l.fs 0xF8)
      ∷ (Vmcs.host_gs_selector, bit_and l.gs 0xF8)
      ∷ (Vmcs.host_tr_selector, bit_and l.tr 0xF8)
      ∷ (Vmcs.vmcs_link_pointer, 2 ^ 64 - 1)
      ∷ (Vmcs.guest_ia32_debugctl, bit_and (l.readmsr 0x1D9) 0xFFFFFFFF)
      ∷ []

  abbrev pub cleared_fields : Writes
  cleared_fields =
      (Vmcs.tsc_offset, 0)
      ∷ (Vmcs.page_fault_error_code_mask, 0)
      ∷ (Vmcs.page_fault_error_code_match, 0)
      ∷ (Vmcs.exception_bitmap, 0)
      ∷ (Vmcs.cr3_target_count, 0)
      ∷ (Vmcs.vm_exit_msr_store_count, 0)
      ∷ (Vmcs.vm_exit_msr_load_count, 0)
      ∷ (Vmcs.vm_entry_msr_load_count, 0)
      ∷ (Vmcs.vm_entry_intr_info_field, 0)
      ∷ []

  -- The controls that are asked for.
  abbrev pub requested_secondary_controls : ℕ
  requested_secondary_controls =
      let controls = bit_or (bit_or (bit_or (bit_or 0x8 0x2) 0x1000) 0x100000) 0x4000000 in
      if l.vpid_supported then bit_or controls 0x20 else controls

  abbrev pub requested_exit_controls : ℕ
  requested_exit_controls =
      bit_or (bit_or (bit_or (bit_or 0x200 0x40000) 0x80000) 0x100000) 0x200000

  abbrev pub requested_entry_controls : ℕ
  requested_entry_controls = bit_or (bit_or 0x200 0x4000) 0x8000

  abbrev pub segment_bases_and_controls : Writes
  segment_bases_and_controls =
      (Vmcs.guest_fs_base, l.readmsr 0xC0000100)
      ∷ (Vmcs.guest_gs_base, l.readmsr 0xC0000101)
      ∷ (
        Vmcs.cpu_based_vm_exec_control,
        adjust_controls (bit_or 0x10000000 0x80000000) (capability 0x48E 0x482),
      )
      ∷ (
        Vmcs.secondary_vm_exec_control,
        adjust_controls requested_secondary_controls (l.readmsr 0x48B),
      )
      ∷ (Vmcs.pin_based_vm_exec_control, adjust_controls 0 (capability 0x48D 0x481))
      ∷ (Vmcs.guest_ia32_pat, l.readmsr 0x277)
      ∷ (Vmcs.guest_ia32_efer, l.readmsr 0xC0000080)
      ∷ (Vmcs.host_ia32_pat, l.readmsr 0x277)
      ∷ (Vmcs.host_ia32_efer, l.readmsr 0xC0000080)
      ∷ (Vmcs.vm_exit_controls, adjust_controls requested_exit_controls (capability 0x48F 0x483))
      ∷ (Vmcs.vm_entry_controls, adjust_controls requested_entry_controls (capability 0x490 0x484))
      ∷ []

  -- `segmentSelector` is zero where there is no descriptor.
  abbrev pub host_tr_base_of : ℕ
  host_tr_base_of = elim (get_segment_descriptor l.gdt l.tr) [ none ↦ 0 | some s ↦ s.base ]

  abbrev pub machine_state : Writes
  machine_state =
      (Vmcs.cr0_guest_host_mask, 0)
      ∷ (Vmcs.cr4_guest_host_mask, 0)
      ∷ (Vmcs.cr0_read_shadow, 0)
      ∷ (Vmcs.cr4_read_shadow, 0)
      ∷ (Vmcs.guest_cr0, l.cr0)
      ∷ (Vmcs.guest_cr3, l.cr3)
      ∷ (Vmcs.guest_cr4, l.cr4)
      ∷ (Vmcs.guest_dr7, 0x400)
      ∷ (Vmcs.host_cr0, l.cr0)
      ∷ (Vmcs.host_cr4, l.cr4)
      ∷ (Vmcs.host_cr3, l.host_directory_table_base)
      ∷ (Vmcs.guest_gdtr_base, l.gdt_base)
      ∷ (Vmcs.guest_idtr_base, l.idt_base)
      ∷ (Vmcs.guest_gdtr_limit, l.gdt_limit)
      ∷ (Vmcs.guest_idtr_limit, l.idt_limit)
      ∷ (Vmcs.guest_rflags, l.rflags)
      ∷ (Vmcs.guest_interruptibility_info, 0)
      ∷ (Vmcs.guest_activity_state, 0)
      ∷ (Vmcs.guest_pending_dbg_exceptions, 0)
      ∷ (Vmcs.guest_sm_base, 0)
      ∷ (Vmcs.guest_sysenter_cs, l.readmsr 0x174)
      ∷ (Vmcs.guest_sysenter_eip, l.readmsr 0x176)
      ∷ (Vmcs.guest_sysenter_esp, l.readmsr 0x175)
      ∷ (Vmcs.host_tr_base, host_tr_base_of)
      ∷ (Vmcs.host_fs_base, l.readmsr 0xC0000100)
      ∷ (Vmcs.host_gs_base, l.readmsr 0xC0000101)
      ∷ (Vmcs.host_gdtr_base, l.gdt_base)
      ∷ (Vmcs.host_idtr_base, l.idt_base)
      ∷ (Vmcs.host_ia32_sysenter_cs, l.readmsr 0x174)
      ∷ (Vmcs.host_ia32_sysenter_eip, l.readmsr 0x176)
      ∷ (Vmcs.host_ia32_sysenter_esp, l.readmsr 0x175)
      ∷ (Vmcs.msr_bitmap, l.msr_bitmap_physical)
      ∷ (Vmcs.ept_pointer, l.ept_pointer_flags)
      ∷ []

  -- `VMM_STACK_SIZE` is 0x8000; the mask is `~0xF`.
  abbrev pub host_rsp_of : ℕ
  host_rsp_of = bit_and ((l.vmm_stack + 0x8000 - 1) % 2 ^ 64) (2 ^ 64 - 1 - 0xF)

  abbrev pub entry_points : Writes
  entry_points =
      (Vmcs.guest_rsp, l.guest_stack)
      ∷ (Vmcs.guest_rip, l.asm_vmx_restore_state)
      ∷ (Vmcs.host_rsp, host_rsp_of)
      ∷ (Vmcs.host_rip, l.asm_vmexit_handler)
      ∷ []

  module _ {V : Type 0} (hw : VmcsStore V) where
    abbrev pub run : Writes → Cpu V → Cpu V
    run ws c = record c { vmcs = writes hw ws c.vmcs }

    -- `ES` to `TR`, in the order of `SEGREGS`.
    unfoldable pub fill_segments : Cpu V → Cpu V
    fill_segments c =
        let fill : ℕ → ℕ → Cpu V → Cpu V =
          λ i sel c. (fill_guest_selector_data hw l.gdt i sel c).0 in
        fill 7 l.tr (
          fill 6 l.ldtr
            (fill 5 l.gs (fill 4 l.fs (fill 3 l.ds (fill 2 l.ss (fill 1 l.cs (fill 0 l.es c)))))))

    unfoldable pub setup_vmcs : Cpu V → Cpu V
    setup_vmcs c =
        let c1 = run host_selectors c in
        let c2 = record c1 {
          vmcs =
              hw.vmwrite (encoding Vmcs.guest_ia32_debugctl_high) (l.readmsr 0x1D9 / 2 ^ 32)
                c1.vmcs;
        } in
        let c3 = fill_segments (run cleared_fields c2) in
        let c4 = run machine_state (run segment_bases_and_controls c3) in
        let c5 =
          if l.vpid_supported
          then run ((Vmcs.virtual_processor_id, get_vpid_tag_for_processor l.processor) ∷ []) c4
          else c4 in
        run entry_points c5
