-- ===== src/Vmcs/Encoding.antt =====
-- No two fields of the VMCS share an encoding.
use mathlib.Core.Option.{some-injective}
use nova_hypervisor.Base.{
  ℕ, ◌≡◌, refl, sym, ap, ◌∙◌, Option, none, some, List, [], ◌∷◌, ◌==◌, if◌then◌else◌,
}
use nova_hypervisor.Vmcs.Fields.{
  VmcsField, encoding, virtual_processor_id, guest_es_selector, guest_cs_selector,
  guest_ss_selector, guest_ds_selector, guest_fs_selector, guest_gs_selector, guest_ldtr_selector,
  guest_tr_selector, host_es_selector, host_cs_selector, host_ss_selector, host_ds_selector,
  host_fs_selector, host_gs_selector, host_tr_selector, io_bitmap_a, io_bitmap_a_high, io_bitmap_b,
  io_bitmap_b_high, msr_bitmap, msr_bitmap_high, vm_exit_msr_store_addr,
  vm_exit_msr_store_addr_high, vm_exit_msr_load_addr, vm_exit_msr_load_addr_high,
  vm_entry_msr_load_addr, vm_entry_msr_load_addr_high, tsc_offset, tsc_offset_high,
  virtual_apic_page_addr, virtual_apic_page_addr_high, vmfunc_controls, vmfunc_controls_high,
  ept_pointer, ept_pointer_high, eptp_list, eptp_list_high, guest_physical_address,
  guest_physical_address_high, vmcs_link_pointer, vmcs_link_pointer_high, guest_ia32_debugctl,
  guest_ia32_debugctl_high, guest_ia32_pat, guest_ia32_pat_high, guest_ia32_efer,
  guest_ia32_efer_high, host_ia32_pat, host_ia32_pat_high, host_ia32_efer, host_ia32_efer_high,
  pin_based_vm_exec_control, cpu_based_vm_exec_control, exception_bitmap,
  page_fault_error_code_mask, page_fault_error_code_match, cr3_target_count, vm_exit_controls,
  vm_exit_msr_store_count, vm_exit_msr_load_count, vm_entry_controls, vm_entry_msr_load_count,
  vm_entry_intr_info_field, vm_entry_exception_error_code, vm_entry_instruction_len, tpr_threshold,
  secondary_vm_exec_control, vm_instruction_error, vm_exit_reason, vm_exit_intr_info,
  vm_exit_intr_error_code, idt_vectoring_info_field, idt_vectoring_error_code,
  vm_exit_instruction_len, vmx_instruction_info, guest_es_limit, guest_cs_limit, guest_ss_limit,
  guest_ds_limit, guest_fs_limit, guest_gs_limit, guest_ldtr_limit, guest_tr_limit,
  guest_gdtr_limit, guest_idtr_limit, guest_es_ar_bytes, guest_cs_ar_bytes, guest_ss_ar_bytes,
  guest_ds_ar_bytes, guest_fs_ar_bytes, guest_gs_ar_bytes, guest_ldtr_ar_bytes, guest_tr_ar_bytes,
  guest_interruptibility_info, guest_activity_state, guest_sm_base, guest_sysenter_cs,
  host_ia32_sysenter_cs, cr0_guest_host_mask, cr4_guest_host_mask, cr0_read_shadow, cr4_read_shadow,
  cr3_target_value0, cr3_target_value1, cr3_target_value2, cr3_target_value3, exit_qualification,
  guest_linear_address, guest_cr0, guest_cr3, guest_cr4, guest_es_base, guest_cs_base,
  guest_ss_base, guest_ds_base, guest_fs_base, guest_gs_base, guest_ldtr_base, guest_tr_base,
  guest_gdtr_base, guest_idtr_base, guest_dr7, guest_rsp, guest_rip, guest_rflags,
  guest_pending_dbg_exceptions, guest_sysenter_esp, guest_sysenter_eip, host_cr0, host_cr3,
  host_cr4, host_fs_base, host_gs_base, host_tr_base, host_gdtr_base, host_idtr_base,
  host_ia32_sysenter_esp, host_ia32_sysenter_eip, host_rsp, host_rip,
}

abbrev all_fields : List VmcsField
all_fields =
    virtual_processor_id ∷ guest_es_selector ∷ guest_cs_selector ∷ guest_ss_selector
    ∷ guest_ds_selector ∷ guest_fs_selector ∷ guest_gs_selector ∷ guest_ldtr_selector
    ∷ guest_tr_selector ∷ host_es_selector ∷ host_cs_selector ∷ host_ss_selector ∷ host_ds_selector
    ∷ host_fs_selector ∷ host_gs_selector ∷ host_tr_selector ∷ io_bitmap_a ∷ io_bitmap_a_high
    ∷ io_bitmap_b ∷ io_bitmap_b_high ∷ msr_bitmap ∷ msr_bitmap_high ∷ vm_exit_msr_store_addr
    ∷ vm_exit_msr_store_addr_high ∷ vm_exit_msr_load_addr ∷ vm_exit_msr_load_addr_high
    ∷ vm_entry_msr_load_addr ∷ vm_entry_msr_load_addr_high ∷ tsc_offset ∷ tsc_offset_high
    ∷ virtual_apic_page_addr ∷ virtual_apic_page_addr_high ∷ vmfunc_controls ∷ vmfunc_controls_high
    ∷ ept_pointer ∷ ept_pointer_high ∷ eptp_list ∷ eptp_list_high ∷ guest_physical_address
    ∷ guest_physical_address_high ∷ vmcs_link_pointer ∷ vmcs_link_pointer_high ∷ guest_ia32_debugctl
    ∷ guest_ia32_debugctl_high ∷ guest_ia32_pat ∷ guest_ia32_pat_high ∷ guest_ia32_efer
    ∷ guest_ia32_efer_high ∷ host_ia32_pat ∷ host_ia32_pat_high ∷ host_ia32_efer
    ∷ host_ia32_efer_high ∷ pin_based_vm_exec_control ∷ cpu_based_vm_exec_control ∷ exception_bitmap
    ∷ page_fault_error_code_mask ∷ page_fault_error_code_match ∷ cr3_target_count ∷ vm_exit_controls
    ∷ vm_exit_msr_store_count ∷ vm_exit_msr_load_count ∷ vm_entry_controls ∷ vm_entry_msr_load_count
    ∷ vm_entry_intr_info_field ∷ vm_entry_exception_error_code ∷ vm_entry_instruction_len
    ∷ tpr_threshold ∷ secondary_vm_exec_control ∷ vm_instruction_error ∷ vm_exit_reason
    ∷ vm_exit_intr_info ∷ vm_exit_intr_error_code ∷ idt_vectoring_info_field
    ∷ idt_vectoring_error_code ∷ vm_exit_instruction_len ∷ vmx_instruction_info ∷ guest_es_limit
    ∷ guest_cs_limit ∷ guest_ss_limit ∷ guest_ds_limit ∷ guest_fs_limit ∷ guest_gs_limit
    ∷ guest_ldtr_limit ∷ guest_tr_limit ∷ guest_gdtr_limit ∷ guest_idtr_limit ∷ guest_es_ar_bytes
    ∷ guest_cs_ar_bytes ∷ guest_ss_ar_bytes ∷ guest_ds_ar_bytes ∷ guest_fs_ar_bytes
    ∷ guest_gs_ar_bytes ∷ guest_ldtr_ar_bytes ∷ guest_tr_ar_bytes ∷ guest_interruptibility_info
    ∷ guest_activity_state ∷ guest_sm_base ∷ guest_sysenter_cs ∷ host_ia32_sysenter_cs
    ∷ cr0_guest_host_mask ∷ cr4_guest_host_mask ∷ cr0_read_shadow ∷ cr4_read_shadow
    ∷ cr3_target_value0 ∷ cr3_target_value1 ∷ cr3_target_value2 ∷ cr3_target_value3
    ∷ exit_qualification ∷ guest_linear_address ∷ guest_cr0 ∷ guest_cr3 ∷ guest_cr4 ∷ guest_es_base
    ∷ guest_cs_base ∷ guest_ss_base ∷ guest_ds_base ∷ guest_fs_base ∷ guest_gs_base
    ∷ guest_ldtr_base ∷ guest_tr_base ∷ guest_gdtr_base ∷ guest_idtr_base ∷ guest_dr7 ∷ guest_rsp
    ∷ guest_rip ∷ guest_rflags ∷ guest_pending_dbg_exceptions ∷ guest_sysenter_esp
    ∷ guest_sysenter_eip ∷ host_cr0 ∷ host_cr3 ∷ host_cr4 ∷ host_fs_base ∷ host_gs_base
    ∷ host_tr_base ∷ host_gdtr_base ∷ host_idtr_base ∷ host_ia32_sysenter_esp
    ∷ host_ia32_sysenter_eip ∷ host_rsp ∷ host_rip ∷ []

-- The first field of a list that has the encoding.
abbrev find_field : ℕ → List VmcsField → Option VmcsField
find_field n [] = none
find_field n (f ∷ rest) = if encoding f == n then some f else find_field n rest

abbrev field_at : ℕ → Option VmcsField
field_at n = find_field n all_fields

field_at-encoding : (f : VmcsField) → field_at (encoding f) ≡ some f
field_at-encoding virtual_processor_id = refl
field_at-encoding guest_es_selector = refl
field_at-encoding guest_cs_selector = refl
field_at-encoding guest_ss_selector = refl
field_at-encoding guest_ds_selector = refl
field_at-encoding guest_fs_selector = refl
field_at-encoding guest_gs_selector = refl
field_at-encoding guest_ldtr_selector = refl
field_at-encoding guest_tr_selector = refl
field_at-encoding host_es_selector = refl
field_at-encoding host_cs_selector = refl
field_at-encoding host_ss_selector = refl
field_at-encoding host_ds_selector = refl
field_at-encoding host_fs_selector = refl
field_at-encoding host_gs_selector = refl
field_at-encoding host_tr_selector = refl
field_at-encoding io_bitmap_a = refl
field_at-encoding io_bitmap_a_high = refl
field_at-encoding io_bitmap_b = refl
field_at-encoding io_bitmap_b_high = refl
field_at-encoding msr_bitmap = refl
field_at-encoding msr_bitmap_high = refl
field_at-encoding vm_exit_msr_store_addr = refl
field_at-encoding vm_exit_msr_store_addr_high = refl
field_at-encoding vm_exit_msr_load_addr = refl
field_at-encoding vm_exit_msr_load_addr_high = refl
field_at-encoding vm_entry_msr_load_addr = refl
field_at-encoding vm_entry_msr_load_addr_high = refl
field_at-encoding tsc_offset = refl
field_at-encoding tsc_offset_high = refl
field_at-encoding virtual_apic_page_addr = refl
field_at-encoding virtual_apic_page_addr_high = refl
field_at-encoding vmfunc_controls = refl
field_at-encoding vmfunc_controls_high = refl
field_at-encoding ept_pointer = refl
field_at-encoding ept_pointer_high = refl
field_at-encoding eptp_list = refl
field_at-encoding eptp_list_high = refl
field_at-encoding guest_physical_address = refl
field_at-encoding guest_physical_address_high = refl
field_at-encoding vmcs_link_pointer = refl
field_at-encoding vmcs_link_pointer_high = refl
field_at-encoding guest_ia32_debugctl = refl
field_at-encoding guest_ia32_debugctl_high = refl
field_at-encoding guest_ia32_pat = refl
field_at-encoding guest_ia32_pat_high = refl
field_at-encoding guest_ia32_efer = refl
field_at-encoding guest_ia32_efer_high = refl
field_at-encoding host_ia32_pat = refl
field_at-encoding host_ia32_pat_high = refl
field_at-encoding host_ia32_efer = refl
field_at-encoding host_ia32_efer_high = refl
field_at-encoding pin_based_vm_exec_control = refl
field_at-encoding cpu_based_vm_exec_control = refl
field_at-encoding exception_bitmap = refl
field_at-encoding page_fault_error_code_mask = refl
field_at-encoding page_fault_error_code_match = refl
field_at-encoding cr3_target_count = refl
field_at-encoding vm_exit_controls = refl
field_at-encoding vm_exit_msr_store_count = refl
field_at-encoding vm_exit_msr_load_count = refl
field_at-encoding vm_entry_controls = refl
field_at-encoding vm_entry_msr_load_count = refl
field_at-encoding vm_entry_intr_info_field = refl
field_at-encoding vm_entry_exception_error_code = refl
field_at-encoding vm_entry_instruction_len = refl
field_at-encoding tpr_threshold = refl
field_at-encoding secondary_vm_exec_control = refl
field_at-encoding vm_instruction_error = refl
field_at-encoding vm_exit_reason = refl
field_at-encoding vm_exit_intr_info = refl
field_at-encoding vm_exit_intr_error_code = refl
field_at-encoding idt_vectoring_info_field = refl
field_at-encoding idt_vectoring_error_code = refl
field_at-encoding vm_exit_instruction_len = refl
field_at-encoding vmx_instruction_info = refl
field_at-encoding guest_es_limit = refl
field_at-encoding guest_cs_limit = refl
field_at-encoding guest_ss_limit = refl
field_at-encoding guest_ds_limit = refl
field_at-encoding guest_fs_limit = refl
field_at-encoding guest_gs_limit = refl
field_at-encoding guest_ldtr_limit = refl
field_at-encoding guest_tr_limit = refl
field_at-encoding guest_gdtr_limit = refl
field_at-encoding guest_idtr_limit = refl
field_at-encoding guest_es_ar_bytes = refl
field_at-encoding guest_cs_ar_bytes = refl
field_at-encoding guest_ss_ar_bytes = refl
field_at-encoding guest_ds_ar_bytes = refl
field_at-encoding guest_fs_ar_bytes = refl
field_at-encoding guest_gs_ar_bytes = refl
field_at-encoding guest_ldtr_ar_bytes = refl
field_at-encoding guest_tr_ar_bytes = refl
field_at-encoding guest_interruptibility_info = refl
field_at-encoding guest_activity_state = refl
field_at-encoding guest_sm_base = refl
field_at-encoding guest_sysenter_cs = refl
field_at-encoding host_ia32_sysenter_cs = refl
field_at-encoding cr0_guest_host_mask = refl
field_at-encoding cr4_guest_host_mask = refl
field_at-encoding cr0_read_shadow = refl
field_at-encoding cr4_read_shadow = refl
field_at-encoding cr3_target_value0 = refl
field_at-encoding cr3_target_value1 = refl
field_at-encoding cr3_target_value2 = refl
field_at-encoding cr3_target_value3 = refl
field_at-encoding exit_qualification = refl
field_at-encoding guest_linear_address = refl
field_at-encoding guest_cr0 = refl
field_at-encoding guest_cr3 = refl
field_at-encoding guest_cr4 = refl
field_at-encoding guest_es_base = refl
field_at-encoding guest_cs_base = refl
field_at-encoding guest_ss_base = refl
field_at-encoding guest_ds_base = refl
field_at-encoding guest_fs_base = refl
field_at-encoding guest_gs_base = refl
field_at-encoding guest_ldtr_base = refl
field_at-encoding guest_tr_base = refl
field_at-encoding guest_gdtr_base = refl
field_at-encoding guest_idtr_base = refl
field_at-encoding guest_dr7 = refl
field_at-encoding guest_rsp = refl
field_at-encoding guest_rip = refl
field_at-encoding guest_rflags = refl
field_at-encoding guest_pending_dbg_exceptions = refl
field_at-encoding guest_sysenter_esp = refl
field_at-encoding guest_sysenter_eip = refl
field_at-encoding host_cr0 = refl
field_at-encoding host_cr3 = refl
field_at-encoding host_cr4 = refl
field_at-encoding host_fs_base = refl
field_at-encoding host_gs_base = refl
field_at-encoding host_tr_base = refl
field_at-encoding host_gdtr_base = refl
field_at-encoding host_idtr_base = refl
field_at-encoding host_ia32_sysenter_esp = refl
field_at-encoding host_ia32_sysenter_eip = refl
field_at-encoding host_rsp = refl
field_at-encoding host_rip = refl

-- Two fields of the enumeration that have one encoding are the same field.
pub encoding_injective : (f g : VmcsField) → encoding f ≡ encoding g → f ≡ g
encoding_injective f g e =
    some-injective f g (sym (field_at-encoding f) ∙ ap field_at e ∙ field_at-encoding g)
