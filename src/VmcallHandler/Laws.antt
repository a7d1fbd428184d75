-- ===== src/VmcallHandler/Laws.antt =====
-- What a call of the guest does, by VmcallHandler.cpp.
use nova_hypervisor.Base.{
  ℕ, ◌≡◌, ◌≢◌, ◌≤◌, ◌⊎◌, refl, Bool, true, false, ◌||◌, truthy, ◌==◌, ◌%◌, ◌^◌, if◌then◌else◌, List,
  [], ◌∷◌, ◌++◌, arith, Bool-cases, inl, inr,
}
use mathlib.Core.List.{append_assoc}
use nova_hypervisor.Guest.{Cpu, rcx, invept, invvpid, Effect}
use nova_hypervisor.VmxHelper.{invalidate_vpid, invalidate_ept}
use nova_hypervisor.VmcallHandler.{
  VmcallOps, invalid_parameter, vmcall_handler, flush_virtual_address_space,
  flush_guest_physical_address_space, hypercall_handler,
}

module _ {S : Type 0} (ops : VmcallOps S) (param1 param2 : ℕ) (s : S) where
  -- A call with an unknown number, or to hook or unhook the page of the address 0, is refused and
  -- changes nothing.
  pub vmcall_handler_refused :
      (number : ℕ)
      → (((number ≡ 3) ⊎ (number ≡ 6)) × (param1 ≡ 0)) ⊎ ((number ≡ 0) ⊎ (8 ≤ number))
      → vmcall_handler ops number param1 param2 s ≡ (s, invalid_parameter)
  unfolding vmcall_handler
  vmcall_handler_refused number (inl (inl e, z)) = rw (e, z)
  vmcall_handler_refused number (inl (inr e, z)) = rw (e, z)
  vmcall_handler_refused number (inr h) = ground (arith, h)

-- The flushes after a hypercall that invalidates translations: of the guest's own context, and of
-- all VPIDs where the processor has them.
abbrev pub flushes : Bool → ℕ → List Effect
flushes true ept_pointer = invept 1 ept_pointer ∷ invvpid 2 0 0 ∷ []
flushes false ept_pointer = invept 1 ept_pointer ∷ []

module _ {V : Type 0} (ept_pointer : ℕ) (real : ept_pointer ≢ 0) where
  -- Both invalidations, one after the other.
  record Flushed (vpid_supported : Bool) (before after : Cpu V) : Type 0 where
    pub regs : after.regs ≡ before.regs
    pub vmcs : after.vmcs ≡ before.vmcs
    pub effects : after.effects ≡ before.effects ++ flushes vpid_supported ept_pointer

  invalidate-Flushed :
      (vpid_supported : Bool) (c : Cpu V)
      → Flushed vpid_supported c (invalidate_vpid vpid_supported 0 0 (invalidate_ept ept_pointer c))
  unfolding invalidate_vpid invalidate_ept
  invalidate-Flushed true c =
      let set : truthy ept_pointer ≡ true = ground (arith, real) in
      rw set (record {
        regs = refl;
        vmcs = refl;
        effects = append_assoc c.effects (invept 1 ept_pointer ∷ []) (invvpid 2 0 0 ∷ []);
      })
  invalidate-Flushed false c =
      let set : truthy ept_pointer ≡ true = ground (arith, real) in
      rw set (record { regs = refl; vmcs = refl; effects = refl })

-- The codes by number: the switch of the address space, the flushes of virtual addresses and of a list
-- of them, both also in the extended form, and the flushes of physical addresses and of a list of them.
abbrev pub flushing_codes : List ℕ
flushing_codes = 1 ∷ 2 ∷ 3 ∷ 19 ∷ 20 ∷ 175 ∷ 176 ∷ []

abbrev pub is_one_of : ℕ → List ℕ → Bool
is_one_of n [] = false
is_one_of n (m ∷ rest) = n == m || is_one_of n rest

code_tests :
    (n : ℕ)
    → (flush_virtual_address_space n || flush_guest_physical_address_space n)
      ≡ is_one_of n flushing_codes
code_tests n = ground arith

module _ {V : Type 0} (forward : Cpu V → Cpu V) (vpid_supported : Bool) (ept_pointer : ℕ)
    (c : Cpu V) where
  -- With an EPT pointer that is not 0, a hypercall is forwarded, and keeps the registers and the VMCS that
  -- this leaves. After it, the translations of the EPT pointer are flushed, and those of all VPIDs where
  -- VPIDs are in use, if the low 16 bits of RCX are one of the codes 1, 2, 3, 19, 20, 175 and 176, and
  -- nothing else is done if they are not.
  pub hypercall_handler_lem :
      ept_pointer ≢ 0
      → (let result = hypercall_handler forward vpid_supported ept_pointer c in
          (result.1 ≡ true)
          × (result.0.regs ≡ (forward c).regs)
          × (result.0.vmcs ≡ (forward c).vmcs)
          × (result.0.effects ≡ (
              if is_one_of (c.regs rcx % 2 ^ 16) flushing_codes
              then (forward c).effects ++ flushes vpid_supported ept_pointer
              else (forward c).effects)))
  unfolding hypercall_handler
  hypercall_handler_lem real =
      let n = c.regs rcx % 2 ^ 16 in
      let f = invalidate-Flushed ept_pointer real vpid_supported (forward c) in
      elim (Bool-cases (is_one_of n flushing_codes)) [
        | inl flush ↦ rw (code_tests n, flush) (refl, f.regs, f.vmcs, f.effects)
        | inr keep ↦ rw (code_tests n, keep) (refl, refl, refl, refl)
      ]
