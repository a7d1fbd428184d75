-- ===== src/VmxHelper/Capabilities.antt =====
-- What NovaHypervisor/VmxHelper.cpp and Ept::CheckFeatures of NovaHypervisor/Ept.cpp ask of the processor
-- before it enters VMX. What CPUID, RDMSR and the reads of CR4 give are arguments.
use nova_hypervisor.Base.{
  ℕ, Bool, true, false, not, ◌&&◌, ◌||◌, ◌==◌, ltb, truthy, if◌then◌else◌, bit_and,
}
use nova_hypervisor.Guest.{Cpu, emit, writemsr}
use nova_hypervisor.Layout.{member, set_member, feature_control, ept_vpid_cap, mtrr_def_type}
use nova_hypervisor.VmxHelper.{high}
use nova_hypervisor.VmexitHandler.{max_xsave_area_size}

-- EAX, EBX, ECX and EDX of a leaf and a subleaf.
abbrev pub Cpuid : Type 0
Cpuid = ℕ → ℕ → ℕ × ℕ × ℕ × ℕ

unfoldable pub is_vmx_supported : {V : Type 0} → Cpuid → (ℕ → ℕ) → Cpu V → Cpu V × Bool
is_vmx_supported cpuid readmsr cpu =
    let (a, b, c, d) = cpuid 1 0 in
    let control = readmsr 0x3A in
    let enabled = set_member feature_control 2 1 (set_member feature_control 0 1 control) in
    if bit_and c 32 == 0
    then (cpu, false)
    else if member feature_control 0 control == 0
    then (emit (writemsr 0x3A enabled) cpu, true)
    else (cpu, truthy (member feature_control 2 control))

unfoldable pub is_xstate_save_area_supported : Cpuid → ℕ → Bool
is_xstate_save_area_supported cpuid cr4 =
    let (a, current, maximum, d) = cpuid 0xD 0 in
    if not (truthy (bit_and cr4 262144))
    then true
    else not (current == 0 || (ltb max_xsave_area_size current || ltb max_xsave_area_size maximum))

unfoldable pub is_current_hypervisor_hyper_v : Cpuid → Bool
is_current_hypervisor_hyper_v cpuid =
    let (a, b, c, d) = cpuid 1 0 in
    let (a', b', c', d') = cpuid 0x40000000 0 in
    if not (truthy (bit_and c 0x80000000))
    then false
    else b' == 0x7263694d && (c' == 0x666f736f && d' == 0x76482074)

-- The new `VpidSupported`.
unfoldable pub initialize_vpid_support : Cpuid → (ℕ → ℕ) → Bool
initialize_vpid_support cpuid readmsr =
    let capabilities = readmsr 0x48C in
    let supported =
      truthy (bit_and (high (readmsr 0x48B)) 0x20)
      && (truthy (member ept_vpid_cap 18 capabilities)
          && (truthy (member ept_vpid_cap 20 capabilities)
              && (truthy (member ept_vpid_cap 21 capabilities)
                  && truthy (member ept_vpid_cap 22 capabilities)))) in
    if supported then not (is_current_hypervisor_hyper_v cpuid) else false

-- The answer, and the new `executeOnlySupport`.
unfoldable pub check_features : (ℕ → ℕ) → Bool → Bool × Bool
check_features readmsr execute_only_support =
    let vpid_register = readmsr 0x48C in
    if not (truthy (member ept_vpid_cap 2 vpid_register))
      || (not (truthy (member ept_vpid_cap 6 vpid_register))
          || (not (truthy (member ept_vpid_cap 8 vpid_register))
              || not (truthy (member mtrr_def_type 3 (readmsr 0x2FF)))))
    then (false, execute_only_support)
    else (
      true,
      if not (truthy (member ept_vpid_cap 0 vpid_register)) then false else execute_only_support,
    )
