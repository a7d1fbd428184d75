-- ===== src/VmcallHandler/Codes.antt =====
-- HypervisorDefinitions.h of NovaHypervisor/: the codes of Hyper-V's hypercalls.
use nova_hypervisor.Base.{ℕ}

-- `HYPERCALL_CODE`.
pub data HypercallCode : Type 0 where
  hv_switch_virtual_address_space hv_flush_virtual_address_space hv_flush_virtual_address_list :
      HypercallCode
  hv_get_logical_processor_run_time hv_call_notify_long_spin_wait
        hv_call_parked_virtual_processors :
      HypercallCode
  hv_call_synthetic_cluster_ipi hv_call_modify_vtl_protection_mask hv_call_enable_partition_vtl :
      HypercallCode
  hv_call_disable_partition_vtl hv_call_enable_vp_vtl hv_call_disable_vp_vtl : HypercallCode
  hv_call_vtl_call hv_call_vtl_return hv_call_flush_virtual_address_space_ex : HypercallCode
  hv_call_flush_virtual_address_list_ex hv_call_send_synthetic_cluster_ipi_ex hv_create_partition :
      HypercallCode
  hv_initialize_partition hv_finalize_partition hv_delete_partition : HypercallCode
  hv_get_partition_property hv_set_partition_property hv_get_partition_id : HypercallCode
  hv_get_next_child_partition hv_deposit_memory hv_withdraw_memory : HypercallCode
  hv_get_memory_balance hv_map_gpa_pages hv_unmap_gpa_pages : HypercallCode
  hv_install_intercept hv_create_vp hv_delete_vp : HypercallCode
  hv_get_vp_registers hv_set_vp_registers hv_translate_virtual_address : HypercallCode
  hv_read_gpa hv_write_gpa hv_clear_virtual_interrupt : HypercallCode
  hv_delete_port hv_connect_port hv_get_port_property : HypercallCode
  hv_disconnect_port hv_post_message hv_signal_event : HypercallCode
  hv_save_partition_state hv_restore_partition_state hv_initialize_event_log_buffer_group :
      HypercallCode
  hv_finalize_event_log_buffer_group hv_create_event_log_buffer hv_delete_event_log_buffer :
      HypercallCode
  hv_map_event_log_buffer hv_unmap_event_log_buffer hv_set_event_log_group_sources : HypercallCode
  hv_release_event_log_buffer hv_flush_event_log_buffer hv_post_debug_data : HypercallCode
  hv_retrieve_debug_data hv_reset_debug_session hv_map_stats_page : HypercallCode
  hv_unmap_stats_page hv_call_map_sparse_gpa_pages hv_call_set_system_property : HypercallCode
  hv_call_set_port_property hv_call_add_logical_processor hv_call_remove_logical_processor :
      HypercallCode
  hv_call_query_numa_distance hv_call_set_logical_processor_property
        hv_call_get_logical_processor_property :
      HypercallCode
  hv_call_get_system_property hv_call_map_device_interrupt hv_call_unmap_device_interrupt :
      HypercallCode
  hv_call_retarget_device_interrupt hv_call_map_device_pages hv_call_unmap_device_pages :
      HypercallCode
  hv_call_attach_device hv_call_detach_device hv_call_notify_standby_transition : HypercallCode
  hv_call_prepare_for_sleep hv_call_prepare_for_hibernate hv_call_notify_partition_event :
      HypercallCode
  hv_call_get_logical_processor_registers hv_call_set_logical_processor_registers
        hv_call_query_assotiated_lpsfor_mca :
      HypercallCode
  hv_call_notify_ring_empty hv_call_inject_synthetic_machine_check hv_call_scrub_partition :
      HypercallCode
  hv_call_collect_livedump hv_call_disable_hypervisor hv_call_modify_sparse_gpa_pages :
      HypercallCode
  hv_call_register_intercept_result hv_call_unregister_intercept_result
        hv_call_assert_virtual_interrupt :
      HypercallCode
  hv_call_create_port hv_call_connect_port hv_call_get_spa_page_list : HypercallCode
  hv_call_start_virtual_processor hv_call_get_vp_index_from_apic_id
        hv_call_flush_guest_physical_address_space :
      HypercallCode
  hv_call_flush_guest_physical_address_list : HypercallCode

-- The value of each enumerator.
abbrev pub code : HypercallCode → ℕ
code hv_switch_virtual_address_space = 1
code hv_flush_virtual_address_space = 2
code hv_flush_virtual_address_list = 3
code hv_get_logical_processor_run_time = 4
code hv_call_notify_long_spin_wait = 8
code hv_call_parked_virtual_processors = 9
code hv_call_synthetic_cluster_ipi = 11
code hv_call_modify_vtl_protection_mask = 12
code hv_call_enable_partition_vtl = 13
code hv_call_disable_partition_vtl = 14
code hv_call_enable_vp_vtl = 15
code hv_call_disable_vp_vtl = 16
code hv_call_vtl_call = 17
code hv_call_vtl_return = 18
code hv_call_flush_virtual_address_space_ex = 19
code hv_call_flush_virtual_address_list_ex = 20
code hv_call_send_synthetic_cluster_ipi_ex = 21
code hv_create_partition = 64
code hv_initialize_partition = 65
code hv_finalize_partition = 66
code hv_delete_partition = 67
code hv_get_partition_property = 68
code hv_set_partition_property = 69
code hv_get_partition_id = 70
code hv_get_next_child_partition = 71
code hv_deposit_memory = 72
code hv_withdraw_memory = 73
code hv_get_memory_balance = 74
code hv_map_gpa_pages = 75
code hv_unmap_gpa_pages = 76
code hv_install_intercept = 77
code hv_create_vp = 78
code hv_delete_vp = 79
code hv_get_vp_registers = 80
code hv_set_vp_registers = 81
code hv_translate_virtual_address = 82
code hv_read_gpa = 83
code hv_write_gpa = 84
code hv_clear_virtual_interrupt = 86
code hv_delete_port = 88
code hv_connect_port = 89
code hv_get_port_property = 90
code hv_disconnect_port = 91
code hv_post_message = 92
code hv_signal_event = 93
code hv_save_partition_state = 94
code hv_restore_partition_state = 95
code hv_initialize_event_log_buffer_group = 96
code hv_finalize_event_log_buffer_group = 97
code hv_create_event_log_buffer = 98
code hv_delete_event_log_buffer = 99
code hv_map_event_log_buffer = 100
code hv_unmap_event_log_buffer = 101
code hv_set_event_log_group_sources = 102
code hv_release_event_log_buffer = 103
code hv_flush_event_log_buffer = 104
code hv_post_debug_data = 105
code hv_retrieve_debug_data = 106
code hv_reset_debug_session = 107
code hv_map_stats_page = 108
code hv_unmap_stats_page = 109
code hv_call_map_sparse_gpa_pages = 110
code hv_call_set_system_property = 111
code hv_call_set_port_property = 112
code hv_call_add_logical_processor = 118
code hv_call_remove_logical_processor = 119
code hv_call_query_numa_distance = 120
code hv_call_set_logical_processor_property = 121
code hv_call_get_logical_processor_property = 122
code hv_call_get_system_property = 123
code hv_call_map_device_interrupt = 124
code hv_call_unmap_device_interrupt = 125
code hv_call_retarget_device_interrupt = 126
code hv_call_map_device_pages = 128
code hv_call_unmap_device_pages = 129
code hv_call_attach_device = 130
code hv_call_detach_device = 131
code hv_call_notify_standby_transition = 132
code hv_call_prepare_for_sleep = 133
code hv_call_prepare_for_hibernate = 134
code hv_call_notify_partition_event = 135
code hv_call_get_logical_processor_registers = 136
code hv_call_set_logical_processor_registers = 137
code hv_call_query_assotiated_lpsfor_mca = 138
code hv_call_notify_ring_empty = 139
code hv_call_inject_synthetic_machine_check = 140
code hv_call_scrub_partition = 141
code hv_call_collect_livedump = 142
code hv_call_disable_hypervisor = 143
code hv_call_modify_sparse_gpa_pages = 144
code hv_call_register_intercept_result = 145
code hv_call_unregister_intercept_result = 146
code hv_call_assert_virtual_interrupt = 148
code hv_call_create_port = 149
code hv_call_connect_port = 150
code hv_call_get_spa_page_list = 151
code hv_call_start_virtual_processor = 154
code hv_call_get_vp_index_from_apic_id = 154
code hv_call_flush_guest_physical_address_space = 175
code hv_call_flush_guest_physical_address_list = 176
