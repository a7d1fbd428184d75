-- ===== src/Vmx/Setup/Tests.antt =====
-- The setup of a VMCS at concrete inputs.
use nova_hypervisor.Base.{
  ℕ, ◌+◌, ◌/◌, ◌%◌, ◌^◌, ◌≡◌, refl, true, false, truthy, [], ◌==◌, if◌then◌else◌, arith,
}
use nova_hypervisor.Vmcs
use nova_hypervisor.Layout.{member, ept_vpid_cap}
use nova_hypervisor.VmxHelper.Capabilities.{initialize_vpid_support, is_current_hypervisor_hyper_v}
use nova_hypervisor.Vmx.Setup.Vpid.{initialize_vpid_support-setup_vmcs}
use nova_hypervisor.Vmcs.Store.{fields}
use nova_hypervisor.Guest.{Cpu, read}
use nova_hypervisor.Vmx.Setup.{Launch, setup_vmcs}
use nova_hypervisor.Vmx.Setup.Laws.{IsReady, IsMirror, setup_vmcs-IsReady, setup_vmcs-IsMirror}

-- A processor that allows all controls.
abbrev launch : Launch
launch = record {
  es = 43;
  cs = 16;
  ss = 24;
  ds = 43;
  fs = 83;
  gs = 43;
  ldtr = 0;
  tr = 64;
  gdt = λ at. record {
    limit0 = 65535;
    base0 = 0;
    base1 = 0;
    attr0 = 155;
    limit1attr1 = 32;
    base2 = 0;
    next = 0;
  };
  gdt_base = 4096;
  gdt_limit = 127;
  idt_base = 8192;
  idt_limit = 4095;
  rflags = 514;
  readmsr = λ i. if i == 473 then 4294967297 else 18446744069414584320;
  cr0 = 2147811379;
  cr3 = 1757184;
  cr4 = 2625784;
  processor = 3;
  vpid_supported = true;
  host_directory_table_base = 1757184;
  msr_bitmap_physical = 12288;
  ept_pointer_flags = 1048606;
  vmm_stack = 16777219;
  guest_stack = 65536;
  asm_vmx_restore_state = 20480;
  asm_vmexit_handler = 24576;
}

abbrev fresh : Cpu (ℕ → ℕ)
fresh = record { vmcs = λ f. 0; regs = λ i. 0; effects = [] }

setup_vmcs-IsReady_example : IsReady fields launch (setup_vmcs launch fields fresh)
setup_vmcs-IsReady_example =
    setup_vmcs-IsReady fields launch fresh (omega arith) (omega arith) (omega arith)

setup_vmcs-IsMirror_example : IsMirror fields launch (setup_vmcs launch fields fresh)
setup_vmcs-IsMirror_example = setup_vmcs-IsMirror fields launch fresh (omega arith)

-- The processor has all capabilities, and no other hypervisor is below.
supports_vpid : initialize_vpid_support (λ leaf subleaf. (0, 0, 0, 0)) launch.readmsr ≡ true
unfolding initialize_vpid_support is_current_hypervisor_hyper_v
supports_vpid = refl

initialize_vpid_support-setup_vmcs_example :
    (read fields Vmcs.secondary_vm_exec_control (setup_vmcs launch fields fresh) / 2 ^ 5 % 2 ≡ 1)
    × (read fields Vmcs.virtual_processor_id (setup_vmcs launch fields fresh) ≡ 1 + 3)
    × (truthy (member ept_vpid_cap 18 (launch.readmsr 0x48C)) ≡ true)
    × (truthy (member ept_vpid_cap 21 (launch.readmsr 0x48C)) ≡ true)
    × (truthy (member ept_vpid_cap 22 (launch.readmsr 0x48C)) ≡ true)
    × (is_current_hypervisor_hyper_v (λ leaf subleaf. (0, 0, 0, 0)) ≡ false)
initialize_vpid_support-setup_vmcs_example =
    initialize_vpid_support-setup_vmcs fields launch fresh (λ leaf subleaf. (0, 0, 0, 0))
      supports_vpid refl (omega arith)
