-- ===== src/VmexitHandler.antt =====
-- NovaHypervisor/VmexitHandler.cpp: the emulation of XSETBV. What CPUID returns is an argument.
pub mod Laws
pub mod Dispatch
pub mod Frame
pub mod Exit
pub mod Fault
pub mod Leave
pub mod Hooking
mod Tests
use nova_hypervisor.Base.{
  ℕ, zero, suc, ◌+◌, ◌*◌, ◌-◌, ◌/◌, ◌%◌, ◌^◌, Bool, true, false, not, ◌&&◌, ◌||◌, ◌==◌, ◌!=◌, ltb,
  truthy, if◌then◌else◌, bit_and,
}
use nova_hypervisor.Guest.{Cpu, emit, xsetbv, rax, rcx, rdx}

abbrev pub max_xsave_area_size : ℕ
max_xsave_area_size = 12288

-- `CPUID_EXTENDED_STATE_ENUMERATION`.
abbrev pub extended_state : ℕ
extended_state = 13

abbrev pub supported_mask : (ℕ → ℕ → ℕ × ℕ × ℕ × ℕ) → ℕ
supported_mask cpuidex =
    let (a, b, c, d) = cpuidex extended_state 0 in d % 2 ^ 32 * 2 ^ 32 + a % 2 ^ 32

abbrev pub requested_mask : {V : Type 0} → Cpu V → ℕ
requested_mask c = c.regs rdx * 2 ^ 32 % 2 ^ 64 + c.regs rax % 2 ^ 32

-- The end of the state component in the XSAVE area; 0 where the processor does not say.
abbrev pub component_end : (ℕ → ℕ → ℕ × ℕ × ℕ × ℕ) → ℕ → ℕ
component_end cpuidex component =
    let (size, offset, c, d) = cpuidex extended_state component in
    if size % 2 ^ 32 == 0 || offset % 2 ^ 32 == 0
    then 0
    else (offset % 2 ^ 32 + size % 2 ^ 32) % 2 ^ 32

-- `requestedSize` after `n` rounds of the loop, which begins at component 2.
unfoldable pub requested_size : (ℕ → ℕ → ℕ × ℕ × ℕ × ℕ) → ℕ → ℕ → ℕ
requested_size cpuidex mask zero = 576
requested_size cpuidex mask (suc n) =
    let size = requested_size cpuidex mask n in
    let end = component_end cpuidex (n + 2) in
    if not (truthy (bit_and mask (2 ^ (n + 2)))) then size else if ltb size end then end else size

abbrev pub is_bad_mask : ℕ → ℕ → Bool
is_bad_mask requested supported =
    truthy (bit_and requested (2 ^ 64 - 1 - supported))
    || (not (truthy (bit_and requested 1))
        || truthy (bit_and requested 4) && bit_and requested 6 != 6)

unfoldable pub emulate_xsetbv : {V : Type 0} → (ℕ → ℕ → ℕ × ℕ × ℕ × ℕ) → Cpu V → Cpu V × Bool
emulate_xsetbv cpuidex c =
    let mask = requested_mask c in
    if c.regs rcx != 0
    then (c, false)
    else if is_bad_mask mask (supported_mask cpuidex)
    then (c, false)
    else if ltb max_xsave_area_size (requested_size cpuidex mask 62)
    then (c, false)
    else (emit (xsetbv (c.regs rcx % 2 ^ 32) mask) c, true)
