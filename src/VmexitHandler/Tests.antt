-- ===== src/VmexitHandler/Tests.antt =====
-- Exits, and XSETBV, at concrete inputs.
use nova_hypervisor.Base.{
  ℕ, ◌+◌, ◌%◌, ◌^◌, ◌≡◌, refl, arith, ◌++◌, true, false, [], ◌==◌, if◌then◌else◌, bit_and, none,
  some,
}
use nova_hypervisor.Vmcs.{vm_exit_reason, guest_rip}
use nova_hypervisor.Vmcs.Store.{fields}
use nova_hypervisor.Guest.{Cpu, read, rax}
use nova_hypervisor.EventInjection.{clear_pending_injection}
use nova_hypervisor.RegistersHandler.{handle_msr_read, is_valid_msr, is_hyper_v_synthetic_msr}
use nova_hypervisor.VmexitHandler.{emulate_xsetbv, requested_size}
use nova_hypervisor.VmexitHandler.Laws.{Accepted, emulate_xsetbv_lem}
use nova_hypervisor.Vmx.{VmState}
use nova_hypervisor.VmexitHandler.Dispatch.{
  Platform, vmcall, is_self_vmcall, exit_reason_of, begin_exit, vmexit_handler,
}
use nova_hypervisor.Vmx.Off.{leaving}
use nova_hypervisor.VmexitHandler.Leave.{AsksToLeave, vmexit_handler-leave}
use nova_hypervisor.VmexitHandler.Fault.{may_refuse, FaultPending, vmexit_handler-refused}

-- A processor with x87, SSE and AVX state, of which AVX ends at 832.
abbrev avx : ℕ → ℕ → ℕ × ℕ × ℕ × ℕ
avx leaf subleaf =
    if subleaf == 0
    then (7, 832, 832, 0)
    else if subleaf == 2
    then (256, 576, 0, 0)
    else (0, 0, 0, 0)

abbrev asking : ℕ → Cpu (ℕ → ℕ)
asking mask = record { vmcs = λ f. 0; regs = λ i. if i == 0 then mask else 0; effects = [] }

accepts_avx : (emulate_xsetbv avx (asking 7)).1 ≡ true
unfolding emulate_xsetbv requested_size
accepts_avx = refl

refuses_avx_alone : (emulate_xsetbv avx (asking 5)).1 ≡ false
unfolding emulate_xsetbv requested_size
refuses_avx_alone = refl

emulate_xsetbv_lem_example :
    ((emulate_xsetbv avx (asking 7)).1 ≡ true
      → Accepted avx (asking 7) (emulate_xsetbv avx (asking 7)))
    × ((emulate_xsetbv avx (asking 7)).1 ≡ false
        → emulate_xsetbv avx (asking 7) ≡ (asking 7, false))
emulate_xsetbv_lem_example = emulate_xsetbv_lem avx (asking 7)

-- A processor whose registers ask for an MSR that does not exist, in an exit for RDMSR.
abbrev machine : Platform (ℕ → ℕ) ℕ
machine = record {
  readmsr = λ i. 0;
  cpuidex = avx;
  readcr4 = 8192;
  vmclear_status = 0;
  hyperv_vmcall = λ c. c;
  vpid_supported = true;
  processor = 0;
  physical_of = λ a. a;
  virtual_of = λ a. a;
  mtrr = record { ranges = []; default_memory_type = 6 };
  ept_page_table = 1048576;
  free = λ a type pool. pool;
  allocate = λ type pool. (pool, 0);
}

abbrev exiting : ℕ → (ℕ → ℕ) → VmState (ℕ → ℕ) ℕ
exiting reason regs = record {
  ept = record {
    cpu = record { vmcs = λ f. if f == 17410 then reason else f; regs = regs; effects = [] };
    pool = 0;
    memory = λ a. 0;
    hooked_pages = [];
    ept_pointer = 1048606;
    hooked_page = none;
    is_on_vmx_root = false;
    kernel_base_address = 0;
    kernel_size = 0;
  };
  is_launched = true;
  vmxoff_state = record { is_vmxoff_executed = false; guest_rip_after = 0; guest_rsp_after = 0 };
  vmcs_region_physical = 8192;
}

-- The exit 31 is RDMSR, of the MSR 12288.
exits_by_rdmsr :
    may_refuse fields machine (
      exit_reason_of (bit_and (read fields vm_exit_reason (exiting 31 (λ i. 12288)).ept.cpu) 65535))
    ≡ some (handle_msr_read (λ i. 0))
unfolding exit_reason_of
exits_by_rdmsr = refl

refuses_msr :
    (handle_msr_read (λ i. 0) (begin_exit fields machine (exiting 31 (λ i. 12288))).ept.cpu).1
    ≡ false
unfolding handle_msr_read begin_exit clear_pending_injection is_valid_msr is_hyper_v_synthetic_msr
refuses_msr = refl

vmexit_handler-refused_example :
    (let (s', off) = vmexit_handler fields machine (exiting 31 (λ i. 12288)) in
      (off ≡ false)
      × FaultPending fields machine s'.ept.cpu
      × (read fields guest_rip s'.ept.cpu ≡ 26654)
      × (s'.ept.cpu.regs ≡ (λ i. 12288))
      × (s'.ept.cpu.effects ≡ []))
vmexit_handler-refused_example =
    vmexit_handler-refused fields machine (exiting 31 (λ i. 12288)) (handle_msr_read (λ i. 0))
      exits_by_rdmsr refuses_msr refl

-- The registers of a guest that calls to leave VMX.
abbrev leave_regs : ℕ → ℕ
leave_regs i =
    if i == 1
    then 2
    else if i == 10
    then 310686010704
    else if i == 11
    then 94889840823372
    else if i == 12
    then 5642808406554530390
    else 7

exits_by_vmcall :
    exit_reason_of (bit_and (read fields vm_exit_reason (exiting 18 leave_regs).ept.cpu) 65535)
    ≡ vmcall
unfolding exit_reason_of
exits_by_vmcall = refl

asks_to_leave : AsksToLeave fields machine (exiting 18 leave_regs).ept.cpu
unfolding is_self_vmcall
asks_to_leave = (refl, refl)

vmexit_handler-leave_example :
    (let (s', off) = vmexit_handler fields machine (exiting 18 leave_regs) in
      (off ≡ true)
      × (s'.vmxoff_state ≡ record {
        is_vmxoff_executed = true;
        guest_rip_after = (26654 + 17420) % 2 ^ 64;
        guest_rsp_after = 26652;
      })
      × (s'.is_launched ≡ false)
      × (s'.ept.is_on_vmx_root ≡ false)
      × (s'.ept.cpu.regs rax ≡ 0)
      × ((i : ℕ) → (i == rax) ≡ false → s'.ept.cpu.regs i ≡ leave_regs i)
      × (s'.ept.cpu.effects ≡ [] ++ leaving fields 8192 0 (exiting 18 leave_regs)))
vmexit_handler-leave_example =
    vmexit_handler-leave fields machine (exiting 18 leave_regs) exits_by_vmcall asks_to_leave
      (omega arith)
