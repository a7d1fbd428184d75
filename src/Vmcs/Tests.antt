-- ===== src/Vmcs/Tests.antt =====
-- The store keeps what the instructions promise, at concrete fields.
use nova_hypervisor.Base.{ℕ, ◌≡◌, refl}
use nova_hypervisor.Vmcs.{encoding, guest_rip, guest_rsp}
use nova_hypervisor.Vmcs.Store.{fields}

abbrev empty : ℕ → ℕ
empty f = 0

written : fields.vmread (encoding guest_rip) (fields.vmwrite (encoding guest_rip) 7 empty) ≡ 7
written = refl

kept : fields.vmread (encoding guest_rsp) (fields.vmwrite (encoding guest_rip) 7 empty) ≡ 0
kept = refl
