-- ===== src/VmxHelper/Laws.antt =====
-- The control words, the trap flag and the segments of VmxHelper.cpp.
use Prim.Native.Nat.{min}
use nova_hypervisor.Base.{
  ℕ, ◌+◌, ◌*◌, ◌-◌, ◌/◌, ◌%◌, ◌^◌, ◌<◌, ◌≡◌, ◌≢◌, refl, Bool, true, false, truthy, bit_and, bit_or,
  bit_and_test, bit_or_test, bit_and_low_part, bit_and_low, bit_and_shift, bit_or_bit, arith,
}
use nova_hypervisor.Vmcs.{VmcsStore, cpu_based_vm_exec_control}
use nova_hypervisor.Guest.{Cpu, read}
use nova_hypervisor.VmxHelper.{
  adjust_controls, low, high, set_monitor_trap_flag, get_vpid_tag_for_processor,
}

-- Of the adjusted control, each bit is 1 where the capability register's low half demands it, and
-- otherwise as asked where the high half allows 1 and 0 where it does not.
pub adjust_controls_lem :
    (ctl content i : ℕ)
    → (low content / 2 ^ i % 2 ≡ 1 → adjust_controls ctl content / 2 ^ i % 2 ≡ 1)
      × (low content / 2 ^ i % 2 ≡ 0
          → adjust_controls ctl content / 2 ^ i % 2
            ≡ min (ctl / 2 ^ i % 2) (high content / 2 ^ i % 2))
unfolding adjust_controls
adjust_controls_lem ctl content i =
    let either = bit_or_test i (bit_and ctl (high content)) (low content) in
    let both = bit_and_test i ctl (high content) in
    (λ h. ground (arith, either), λ h. ground (arith, either, both))

-- Processors have different VPIDs, and none has VPID 0, if there are less than 65535.
pub get_vpid_tag_injective :
    (i j : ℕ)
    → i < 65535
    → j < 65535
    → (get_vpid_tag_for_processor i ≡ get_vpid_tag_for_processor j → i ≡ j)
      × (get_vpid_tag_for_processor i ≢ 0)
unfolding get_vpid_tag_for_processor
get_vpid_tag_injective i j hi hj = (λ e. omega arith, λ e. omega arith)

set_bit_27 : (a : ℕ) → bit_or a 134217728 ≡ a + (1 - a / 2 ^ 27 % 2) * 2 ^ 27
set_bit_27 a = bit_or_bit 27 a

clear_bit_27 : (a : ℕ) → bit_and a 4160749567 ≡ a / 2 ^ 28 % 16 * 2 ^ 28 + a % 2 ^ 27
clear_bit_27 a = ground (
  arith,
  bit_and_low_part 27 a 30,
  bit_and_shift 1 (a / 2 ^ 27) 15,
  bit_and_low 4 (a / 2 ^ 27 / 2),
)

module _ {V : Type 0} (hw : VmcsStore V) (c : Cpu V) where
  abbrev controls : Cpu V → ℕ
  controls c = read hw cpu_based_vm_exec_control c

  -- `SetMonitorTrapFlag` sets bit 27 of the processor controls as it is told and leaves the others.
  pub set_monitor_trap_flag_lem :
      (on : Bool)
      → (let after = read hw cpu_based_vm_exec_control (set_monitor_trap_flag hw on c) in
          let before = read hw cpu_based_vm_exec_control c in
          (truthy (after / 2 ^ 27 % 2) ≡ on)
          × (after % 2 ^ 27 ≡ before % 2 ^ 27)
          × (after / 2 ^ 28 ≡ before / 2 ^ 28))
  unfolding set_monitor_trap_flag
  set_monitor_trap_flag_lem true =
      let a = controls c in
      let small : a < 2 ^ 32 = hw.bounded 16386 c.vmcs in
      let e = hw.read_same 16386 (bit_or a 134217728) c.vmcs refl in
      let s = set_bit_27 a in
      (ground (arith, e, s, small), omega (arith, e, s, small), omega (arith, e, s, small))
  set_monitor_trap_flag_lem false =
      let a = controls c in
      let small : a < 2 ^ 32 = hw.bounded 16386 c.vmcs in
      let e = hw.read_same 16386 (bit_and a 4160749567) c.vmcs refl in
      let s = clear_bit_27 a in
      (ground (arith, e, s, small), omega (arith, e, s, small), omega (arith, e, s, small))
