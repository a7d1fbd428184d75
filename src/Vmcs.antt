-- ===== src/Vmcs.antt =====
-- The VMCS as the processor keeps it: what `__vmx_vmread` and `__vmx_vmwrite`, which are
-- instructions, promise of the fields that NovaHypervisor/HypervisorDefinitions.h names.
pub mod Fields
pub mod Encoding
pub mod Store
mod Tests
use nova_hypervisor.Base.{
  ℕ, ◌+◌, ◌*◌, ◌/◌, ◌%◌, ◌^◌, ◌<◌, ◌≡◌, ◌≢◌, Bool, true, false, ◌==◌, if◌then◌else◌,
}
pub use Fields.*

-- Bits 14:13 of an encoding give the width of the field: 16, 64 or 32 bits, or that of a word.
abbrev pub width : ℕ → ℕ
width f = let kind = f / 8192 % 4 in if kind == 0 then 16 else if kind == 2 then 32 else 64

-- Bits 11:10 are 1 where the field is read-only; bit 0 is set where the encoding names the high half
-- of a field of 64 bits.
abbrev pub is_writable : ℕ → Bool
is_writable f = if f / 1024 % 4 == 1 then false else f % 2 == 0

pub record VmcsStore (V : Type 0) : Type 0 where
  pub vmread : ℕ → V → ℕ
  pub vmwrite : ℕ → ℕ → V → V
  pub read_same :
      (f v : ℕ) (s : V) → is_writable f ≡ true → vmread f (vmwrite f v s) ≡ v % 2 ^ width f
  pub read_other :
      (f g v : ℕ) (s : V) → f ≢ g → f % 2 ≡ 0 → g % 2 ≡ 0 → vmread g (vmwrite f v s) ≡ vmread g s
  -- A write to the high half of a field of 64 bits.
  pub write_high :
      (f v : ℕ) (s : V)
      → f % 2 ≡ 0
      → is_writable f ≡ true
      → f / 8192 % 4 ≡ 1
      → vmread f (vmwrite (f + 1) v s) ≡ vmread f s % 2 ^ 32 + v % 2 ^ 32 * 2 ^ 32
  pub high_other :
      (f g v : ℕ) (s : V)
      → f ≢ g
      → f % 2 ≡ 0
      → g % 2 ≡ 0
      → vmread g (vmwrite (f + 1) v s) ≡ vmread g s
  pub bounded : (f : ℕ) (s : V) → vmread f s < 2 ^ width f
