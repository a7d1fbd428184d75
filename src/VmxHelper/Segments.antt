-- ===== src/VmxHelper/Segments.antt =====
-- The access rights of a segment that VmxHelper.cpp writes to the VMCS.
use nova_hypervisor.Base.{ℕ, ◌+◌, ◌*◌, ◌^◌, ◌<◌, ◌≡◌, ◌==◌, if◌then◌else◌, bit_or_bit, arith}
use nova_hypervisor.VmxHelper.{access_rights}

-- The access rights of the VMCS: the attribute byte in bits 7:0, the flags in bits 15:12, 0 in bits
-- 11:8, and bit 16 set where the selector is null.
pub access_rights_lem :
    (selector attr flags : ℕ)
    → attr < 2 ^ 8
    → flags < 2 ^ 4
    → access_rights selector (attr + flags * 2 ^ 8)
      ≡ attr + flags * 2 ^ 12 + (if selector == 0 then 2 ^ 16 else 0)
access_rights_lem selector attr flags ha hf = ground (arith, bit_or_bit 16 (attr + flags * 2 ^ 12))
