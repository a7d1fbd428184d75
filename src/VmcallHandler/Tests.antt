-- ===== src/VmcallHandler/Tests.antt =====
-- Calls at concrete inputs.
use nova_hypervisor.Base.{ℕ, ◌≡◌, true, [], ◌++◌, arith, ◌==◌, if◌then◌else◌}
use nova_hypervisor.Guest.{Cpu}
use nova_hypervisor.VmcallHandler.{hypercall_handler}
use nova_hypervisor.VmcallHandler.Laws.{hypercall_handler_lem, flushes}

-- RCX holds the code of a flush of the guest's own address space.
abbrev flushing : Cpu (ℕ → ℕ)
flushing = record { vmcs = λ f. 0; regs = λ i. if i == 1 then 2 else 0; effects = [] }

hypercall_handler_lem_example :
    (let result = hypercall_handler (λ c. c) true 4096 flushing in
      (result.1 ≡ true)
      × (result.0.regs ≡ flushing.regs)
      × (result.0.vmcs ≡ flushing.vmcs)
      × (result.0.effects ≡ [] ++ flushes true 4096))
hypercall_handler_lem_example = hypercall_handler_lem (λ c. c) true 4096 flushing (omega arith)
