-- ===== src/DeviceControl/Requests.antt =====
-- The requests that NovaHypervisor/DeviceControl.cpp lets through to all processors.
use mathlib.Core.Path.{fun_ext}
use nova_hypervisor.Base.{
  ℕ, ap, ◌<◌, ◌≤◌, ◌≡◌, ◌≢◌, ◌⊎◌, refl, inl, inr, Bool, true, false, not, ◌&&◌, ◌||◌, ◌==◌, ◌!=◌,
  truthy, bit_and, arith, Bool-cases,
}
use nova_hypervisor.Ept.Hooks.{page_align}
use nova_hypervisor.Ept.PageHook.{ept_page_read, ept_page_write}
use nova_hypervisor.DeviceControl.{
  Irp, hook_page_by_vmcall, unhook_page_by_vmcall, refuses, nova_device_control,
  valid_kernelmode_memory,
}

module _ {S : Type 0} (asm_vmx_vmcall : ℕ → ℕ → ℕ → ℕ → S → S × ℕ)
    (broadcast : (S → S × ℕ) → S → S × ℕ) (is_valid_address : ℕ → Bool) (irp : Irp) (s : S) where
  -- Nothing was done, and the status is an error.
  abbrev pub Refused : S × ℕ → Type 0
  Refused (s', status) = (s' ≡ s) × (status ≢ 0)

  -- Every processor has called for the hook of a page that `VmcallHandler` and `RootModePageHook` do not
  -- refuse for its address or its permissions.
  abbrev pub Hooks : S × ℕ → Type 0
  Hooks result =
      let page = irp.buffer in
      (result ≡ broadcast (λ s'. asm_vmx_vmcall 3 page.address page.permissions 0 s') s)
      × (0x8000000000000000 < page.address)
      × (1 ≤ page.permissions)
      × (page.permissions ≤ 7)
      × (truthy (bit_and page.permissions ept_page_write)
            && not (truthy (bit_and page.permissions ept_page_read))
          ≡ false)
      × (is_valid_address (page_align page.address) ≡ true)

  -- Every processor has called for the end of the hook at an address of the kernel.
  abbrev pub Unhooks : S × ℕ → Type 0
  Unhooks result =
      let address = irp.protected_memory in
      (result ≡ broadcast (λ s'. asm_vmx_vmcall 6 address 0 0 s') s)
      × (0x8000000000000000 < address)

  accepted :
      refuses asm_vmx_vmcall broadcast is_valid_address irp.buffer ≡ false
      → (0x8000000000000000 < irp.buffer.address)
        × (1 ≤ irp.buffer.permissions)
        × (irp.buffer.permissions ≤ 7)
        × (truthy (bit_and irp.buffer.permissions ept_page_write)
              && not (truthy (bit_and irp.buffer.permissions ept_page_read))
            ≡ false)
        × (is_valid_address (page_align irp.buffer.address) ≡ true)
  accepted h = (
    ground (arith, h),
    ground (arith, h),
    ground (arith, h),
    ground (arith, h),
    ground (arith, h),
  )

  unhooks :
      truthy irp.protected_memory ≡ true
      → unhook_page_by_vmcall asm_vmx_vmcall irp.protected_memory
        ≡ (λ s'. asm_vmx_vmcall 6 irp.protected_memory 0 0 s')
  unfolding unhook_page_by_vmcall
  unhooks real = fun_ext (λ s'. rw real refl)

  -- `NovaDeviceControl` either completes the request with an error and does nothing, or broadcasts the
  -- call for a hook or for the end of one. The page of a hook then has an address of the kernel that the
  -- system finds valid, and permissions from 1 to 7 that do not have a write without a read.
  pub nova_device_control_lem :
      let result = nova_device_control asm_vmx_vmcall broadcast is_valid_address irp s in
      Refused result ⊎ (Hooks result ⊎ Unhooks result)
  unfolding nova_device_control hook_page_by_vmcall unhook_page_by_vmcall
  nova_device_control_lem = elim (Bool-cases (irp.code == 2147491840)) [
    | inl protect ↦ elim (Bool-cases (irp.size != 16)) [
      | inl size ↦ rw (protect, size) (inl (refl, omega arith))
      | inr sized ↦
          elim (Bool-cases (refuses asm_vmx_vmcall broadcast is_valid_address irp.buffer)) [
            | inl bad ↦ rw (protect, sized, bad) (inl (refl, omega arith))
            | inr fine ↦
                let (high, some_right, few, readable, valid) = accepted fine in
                rw (protect, sized, fine) (inr (inl (refl, high, some_right, few, readable, valid)))
          ]
    ]
    | inr other ↦ elim (Bool-cases (irp.code == 2147491844)) [
      | inr unknown ↦ rw (other, unknown) (inl (refl, omega arith))
      | inl unprotect ↦
          elim (Bool-cases (irp.size != 8 || not (valid_kernelmode_memory irp.protected_memory))) [
            | inl bad ↦ rw (other, unprotect, bad) (inl (refl, omega arith))
            | inr fine ↦
                let high : 0x8000000000000000 < irp.protected_memory = ground (arith, fine) in
                let some_address : truthy irp.protected_memory ≡ true = ground (arith, high) in
                rw (other, unprotect, fine)
                  (inr (inr (ap (λ (f : S → S × ℕ). broadcast f s) (unhooks some_address), high)))
          ]
    ]
  ]
