-- ===== src/VmxHelper/Tests.antt =====
-- The support of VMX at a concrete input.
use nova_hypervisor.Base.{
  ℕ, ◌≡◌, ◌≢◌, ◌⊎◌, refl, true, ◌==◌, if◌then◌else◌, truthy, bit_and, [], ◌∷◌, ◌++◌,
}
use nova_hypervisor.Guest.{Cpu, writemsr}
use nova_hypervisor.Layout.{member, feature_control}
use nova_hypervisor.VmxHelper.Capabilities.{Cpuid, is_vmx_supported}
use nova_hypervisor.VmxHelper.Support.{is_vmx_supported_lem}

-- Leaf 1 has the bit of VMX in ECX.
abbrev vmx_leaves : Cpuid
vmx_leaves leaf subleaf = if leaf == 1 then (0, 0, 32, 0) else (0, 0, 0, 0)

abbrev fresh : Cpu (ℕ → ℕ)
fresh = record { vmcs = λ f. 0; regs = λ i. 0; effects = [] }

answers_yes : (is_vmx_supported vmx_leaves (λ i. 0) fresh).1 ≡ true
unfolding is_vmx_supported
answers_yes = refl

is_vmx_supported_lem_example :
    (truthy (bit_and 32 32) ≡ true)
    × ((w : ℕ) × (((w ≡ 0) × ((is_vmx_supported vmx_leaves (λ i. 0) fresh).0.effects ≡ []))
          ⊎ ((is_vmx_supported vmx_leaves (λ i. 0) fresh).0.effects ≡ [] ++ writemsr 0x3A w ∷ []))
        × (member feature_control 0 w ≡ 1)
        × (member feature_control 2 w ≡ 1)
        × ((j : ℕ) → 0 ≢ j → 2 ≢ j → member feature_control j w ≡ member feature_control j 0))
is_vmx_supported_lem_example = is_vmx_supported_lem vmx_leaves (λ i. 0) fresh answers_yes
