-- ===== src/Vmcs/Fields.antt =====
-- HypervisorDefinitions.h of NovaHypervisor/: the fields of a VMCS and their encodings.
use nova_hypervisor.Base.{ℕ}

-- `VMCS_FIELDS`.
pub data VmcsField : Type 0 where
  virtual_processor_id guest_es_selector guest_cs_selector guest_ss_selector : VmcsField
  guest_ds_selector guest_fs_selector guest_gs_selector guest_ldtr_selector : VmcsField
  guest_tr_selector host_es_selector host_cs_selector host_ss_selector : VmcsField
  host_ds_selector host_fs_selector host_gs_selector host_tr_selector : VmcsField
  io_bitmap_a io_bitmap_a_high io_bitmap_b io_bitmap_b_high : VmcsField
  msr_bitmap msr_bitmap_high vm_exit_msr_store_addr vm_exit_msr_store_addr_high : VmcsField
  vm_exit_msr_load_addr vm_exit_msr_load_addr_high vm_entry_msr_load_addr
        vm_entry_msr_load_addr_high :
      VmcsField
  tsc_offset tsc_offset_high virtual_apic_page_addr virtual_apic_page_addr_high : VmcsField
  vmfunc_controls vmfunc_controls_high ept_pointer ept_pointer_high : VmcsField
  eptp_list eptp_list_high guest_physical_address guest_physical_address_high : VmcsField
  vmcs_link_pointer vmcs_link_pointer_high guest_ia32_debugctl guest_ia32_debugctl_high : VmcsField
  guest_ia32_pat guest_ia32_pat_high guest_ia32_efer guest_ia32_efer_high : VmcsField
  host_ia32_pat host_ia32_pat_high host_ia32_efer host_ia32_efer_high : VmcsField
  pin_based_vm_exec_control cpu_based_vm_exec_control exception_bitmap page_fault_error_code_mask :
      VmcsField
  page_fault_error_code_match cr3_target_count vm_exit_controls vm_exit_msr_store_count : VmcsField
  vm_exit_msr_load_count vm_entry_controls vm_entry_msr_load_count vm_entry_intr_info_field :
      VmcsField
  vm_entry_exception_error_code vm_entry_instruction_len tpr_threshold secondary_vm_exec_control :
      VmcsField
  vm_instruction_error vm_exit_reason vm_exit_intr_info vm_exit_intr_error_code : VmcsField
  idt_vectoring_info_field idt_vectoring_error_code vm_exit_instruction_len vmx_instruction_info :
      VmcsField
  guest_es_limit guest_cs_limit guest_ss_limit guest_ds_limit : VmcsField
  guest_fs_limit guest_gs_limit guest_ldtr_limit guest_tr_limit : VmcsField
  guest_gdtr_limit guest_idtr_limit guest_es_ar_bytes guest_cs_ar_bytes : VmcsField
  guest_ss_ar_bytes guest_ds_ar_bytes guest_fs_ar_bytes guest_gs_ar_bytes : VmcsField
  guest_ldtr_ar_bytes guest_tr_ar_bytes guest_interruptibility_info guest_activity_state : VmcsField
  guest_sm_base guest_sysenter_cs host_ia32_sysenter_cs cr0_guest_host_mask : VmcsField
  cr4_guest_host_mask cr0_read_shadow cr4_read_shadow cr3_target_value0 : VmcsField
  cr3_target_value1 cr3_target_value2 cr3_target_value3 exit_qualification : VmcsField
  guest_linear_address guest_cr0 guest_cr3 guest_cr4 : VmcsField
  guest_es_base guest_cs_base guest_ss_base guest_ds_base : VmcsField
  guest_fs_base guest_gs_base guest_ldtr_base guest_tr_base : VmcsField
  guest_gdtr_base guest_idtr_base guest_dr7 guest_rsp : VmcsField
  guest_rip guest_rflags guest_pending_dbg_exceptions guest_sysenter_esp : VmcsField
  guest_sysenter_eip host_cr0 host_cr3 host_cr4 : VmcsField
  host_fs_base host_gs_base host_tr_base host_gdtr_base : VmcsField
  host_idtr_base host_ia32_sysenter_esp host_ia32_sysenter_eip host_rsp : VmcsField
  host_rip : VmcsField

-- The value of each enumerator.
abbrev pub encoding : VmcsField → ℕ
encoding virtual_processor_id = 0
encoding guest_es_selector = 2048
encoding guest_cs_selector = 2050
encoding guest_ss_selector = 2052
encoding guest_ds_selector = 2054
encoding guest_fs_selector = 2056
encoding guest_gs_selector = 2058
encoding guest_ldtr_selector = 2060
encoding guest_tr_selector = 2062
encoding host_es_selector = 3072
encoding host_cs_selector = 3074
encoding host_ss_selector = 3076
encoding host_ds_selector = 3078
encoding host_fs_selector = 3080
encoding host_gs_selector = 3082
encoding host_tr_selector = 3084
encoding io_bitmap_a = 8192
encoding io_bitmap_a_high = 8193
encoding io_bitmap_b = 8194
encoding io_bitmap_b_high = 8195
encoding msr_bitmap = 8196
encoding msr_bitmap_high = 8197
encoding vm_exit_msr_store_addr = 8198
encoding vm_exit_msr_store_addr_high = 8199
encoding vm_exit_msr_load_addr = 8200
encoding vm_exit_msr_load_addr_high = 8201
encoding vm_entry_msr_load_addr = 8202
encoding vm_entry_msr_load_addr_high = 8203
encoding tsc_offset = 8208
encoding tsc_offset_high = 8209
encoding virtual_apic_page_addr = 8210
encoding virtual_apic_page_addr_high = 8211
encoding vmfunc_controls = 8216
encoding vmfunc_controls_high = 8217
encoding ept_pointer = 8218
encoding ept_pointer_high = 8219
encoding eptp_list = 8228
encoding eptp_list_high = 8229
encoding guest_physical_address = 9216
encoding guest_physical_address_high = 9217
encoding vmcs_link_pointer = 10240
encoding vmcs_link_pointer_high = 10241
encoding guest_ia32_debugctl = 10242
encoding guest_ia32_debugctl_high = 10243
encoding guest_ia32_pat = 10244
encoding guest_ia32_pat_high = 10245
encoding guest_ia32_efer = 10246
encoding guest_ia32_efer_high = 10247
encoding host_ia32_pat = 11264
encoding host_ia32_pat_high = 11265
encoding host_ia32_efer = 11266
encoding host_ia32_efer_high = 11267
encoding pin_based_vm_exec_control = 16384
encoding cpu_based_vm_exec_control = 16386
encoding exception_bitmap = 16388
encoding page_fault_error_code_mask = 16390
encoding page_fault_error_code_match = 16392
encoding cr3_target_count = 16394
encoding vm_exit_controls = 16396
encoding vm_exit_msr_store_count = 16398
encoding vm_exit_msr_load_count = 16400
encoding vm_entry_controls = 16402
encoding vm_entry_msr_load_count = 16404
encoding vm_entry_intr_info_field = 16406
encoding vm_entry_exception_error_code = 16408
encoding vm_entry_instruction_len = 16410
encoding tpr_threshold = 16412
encoding secondary_vm_exec_control = 16414
encoding vm_instruction_error = 17408
encoding vm_exit_reason = 17410
encoding vm_exit_intr_info = 17412
encoding vm_exit_intr_error_code = 17414
encoding idt_vectoring_info_field = 17416
encoding idt_vectoring_error_code = 17418
encoding vm_exit_instruction_len = 17420
encoding vmx_instruction_info = 17422
encoding guest_es_limit = 18432
encoding guest_cs_limit = 18434
encoding guest_ss_limit = 18436
encoding guest_ds_limit = 18438
encoding guest_fs_limit = 18440
encoding guest_gs_limit = 18442
encoding guest_ldtr_limit = 18444
encoding guest_tr_limit = 18446
encoding guest_gdtr_limit = 18448
encoding guest_idtr_limit = 18450
encoding guest_es_ar_bytes = 18452
encoding guest_cs_ar_bytes = 18454
encoding guest_ss_ar_bytes = 18456
encoding guest_ds_ar_bytes = 18458
encoding guest_fs_ar_bytes = 18460
encoding guest_gs_ar_bytes = 18462
encoding guest_ldtr_ar_bytes = 18464
encoding guest_tr_ar_bytes = 18466
encoding guest_interruptibility_info = 18468
encoding guest_activity_state = 18470
encoding guest_sm_base = 18472
encoding guest_sysenter_cs = 18474
encoding host_ia32_sysenter_cs = 19456
encoding cr0_guest_host_mask = 24576
encoding cr4_guest_host_mask = 24578
encoding cr0_read_shadow = 24580
encoding cr4_read_shadow = 24582
encoding cr3_target_value0 = 24584
encoding cr3_target_value1 = 24586
encoding cr3_target_value2 = 24588
encoding cr3_target_value3 = 24590
encoding exit_qualification = 25600
encoding guest_linear_address = 25610
encoding guest_cr0 = 26624
encoding guest_cr3 = 26626
encoding guest_cr4 = 26628
encoding guest_es_base = 26630
encoding guest_cs_base = 26632
encoding guest_ss_base = 26634
encoding guest_ds_base = 26636
encoding guest_fs_base = 26638
encoding guest_gs_base = 26640
encoding guest_ldtr_base = 26642
encoding guest_tr_base = 26644
encoding guest_gdtr_base = 26646
encoding guest_idtr_base = 26648
encoding guest_dr7 = 26650
encoding guest_rsp = 26652
encoding guest_rip = 26654
encoding guest_rflags = 26656
encoding guest_pending_dbg_exceptions = 26658
encoding guest_sysenter_esp = 26660
encoding guest_sysenter_eip = 26662
encoding host_cr0 = 27648
encoding host_cr3 = 27650
encoding host_cr4 = 27652
encoding host_fs_base = 27654
encoding host_gs_base = 27656
encoding host_tr_base = 27658
encoding host_gdtr_base = 27660
encoding host_idtr_base = 27662
encoding host_ia32_sysenter_esp = 27664
encoding host_ia32_sysenter_eip = 27666
encoding host_rsp = 27668
encoding host_rip = 27670
