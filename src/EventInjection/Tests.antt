-- ===== src/EventInjection/Tests.antt =====
-- Events at concrete inputs.
use nova_hypervisor.Base.{◌==◌, ℕ, refl, [], if◌then◌else◌}
use nova_hypervisor.Vmcs.Store.{fields}
use nova_hypervisor.Guest.{Cpu}
use nova_hypervisor.EventInjection.{
  inject_event_from_vm_exit_interruption, reinject_event_from_idt_vectoring,
}
use nova_hypervisor.EventInjection.Laws.{Delivers}
use nova_hypervisor.EventInjection.Delivery.{inject_event_lem, reinject_lem}

-- A page fault (vector 14, type 3, with an error code) interrupted a delivery.
abbrev faulted : Cpu (ℕ → ℕ)
faulted = record {
  vmcs = λ f. if f == 17416 then 2147486478 else if f == 17418 then 2 else 0;
  regs = λ i. 0;
  effects = [];
}

inject_event_lem_example :
    Delivers fields 2147486478 0 0
      (inject_event_from_vm_exit_interruption fields 2147486478 faulted)
inject_event_lem_example = inject_event_lem fields faulted 2147486478 refl

reinject_lem_example :
    Delivers fields 2147486478 2 0 (reinject_event_from_idt_vectoring fields faulted)
reinject_lem_example = reinject_lem fields faulted refl refl
