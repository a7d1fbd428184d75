-- ===== src/DeviceControl/Tests.antt =====
-- A request to protect a page. The broadcast runs the call on one processor, whose state counts the calls.
use nova_hypervisor.Base.{ℕ, ◌+◌, true, ◌⊎◌}
use nova_hypervisor.DeviceControl.{Irp, nova_device_control}
use nova_hypervisor.DeviceControl.Requests.{Refused, Hooks, Unhooks, nova_device_control_lem}

abbrev count_call : ℕ → ℕ → ℕ → ℕ → ℕ → ℕ × ℕ
count_call number a b c s = (s + 1, 0)

abbrev run_here : (ℕ → ℕ × ℕ) → ℕ → ℕ × ℕ
run_here f s = f s

abbrev protect : Irp
protect = record {
  code = 2147491840;
  size = 16;
  buffer = record { permissions = 1; address = 18446735277616529408 };
  protected_memory = 1;
}

nova_device_control_lem_example :
    (let result = nova_device_control count_call run_here (λ a. true) protect 0 in
      Refused count_call run_here (λ a. true) protect 0 result
      ⊎ (Hooks count_call run_here (λ a. true) protect 0 result
          ⊎ Unhooks count_call run_here (λ a. true) protect 0 result))
nova_device_control_lem_example = nova_device_control_lem count_call run_here (λ a. true) protect 0
