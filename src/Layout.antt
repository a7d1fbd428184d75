-- ===== src/Layout.antt =====
-- Words that are declared as bit fields, as those of NovaHypervisor/HypervisorDefinitions.h: a layout
-- lists the widths of the members, from bit 0 on, those that are reserved too.
pub mod Laws
use nova_hypervisor.Base.{ℕ, zero, suc, ◌+◌, ◌*◌, ◌/◌, ◌%◌, ◌^◌, List, [], ◌∷◌}

abbrev pub Layout : Type 0
Layout = List ℕ

-- The member with the given index.
abbrev pub member : Layout → ℕ → ℕ → ℕ
member [] i word = 0
member (w ∷ rest) zero word = word % 2 ^ w
member (w ∷ rest) (suc i) word = member rest i (word / 2 ^ w)

-- An assignment to it, which keeps the low bits of the value.
abbrev pub set_member : Layout → ℕ → ℕ → ℕ → ℕ
set_member [] i value word = word
set_member (w ∷ rest) zero value word = word / 2 ^ w * 2 ^ w + value % 2 ^ w
set_member (w ∷ rest) (suc i) value word =
    set_member rest i value (word / 2 ^ w) * 2 ^ w + word % 2 ^ w

abbrev pub total : Layout → ℕ
total [] = 0
total (w ∷ rest) = w + total rest

-- `EPT_PML4`.
abbrev pub ept_pml4 : Layout
ept_pml4 = 1 ∷ 1 ∷ 1 ∷ 5 ∷ 1 ∷ 1 ∷ 1 ∷ 1 ∷ 36 ∷ 16 ∷ []

abbrev pub epdpte_1gb : Layout
epdpte_1gb = 1 ∷ 1 ∷ 1 ∷ 3 ∷ 1 ∷ 1 ∷ 1 ∷ 1 ∷ 1 ∷ 19 ∷ 18 ∷ 15 ∷ 1 ∷ []

abbrev pub epdpte : Layout
epdpte = 1 ∷ 1 ∷ 1 ∷ 5 ∷ 1 ∷ 1 ∷ 1 ∷ 1 ∷ 36 ∷ 16 ∷ []

abbrev pub epde_2mb : Layout
epde_2mb = 1 ∷ 1 ∷ 1 ∷ 3 ∷ 1 ∷ 1 ∷ 1 ∷ 1 ∷ 1 ∷ 10 ∷ 27 ∷ 15 ∷ 1 ∷ []

abbrev pub epde : Layout
epde = 1 ∷ 1 ∷ 1 ∷ 5 ∷ 1 ∷ 1 ∷ 1 ∷ 1 ∷ 36 ∷ 16 ∷ []

abbrev pub epte : Layout
epte = 1 ∷ 1 ∷ 1 ∷ 3 ∷ 1 ∷ 1 ∷ 1 ∷ 1 ∷ 1 ∷ 1 ∷ 36 ∷ 15 ∷ 1 ∷ []

abbrev pub eptp_layout : Layout
eptp_layout = 3 ∷ 3 ∷ 1 ∷ 5 ∷ 36 ∷ 16 ∷ []

-- `IA32_VMX_EPT_VPID_CAP_REGISTER`.
abbrev pub ept_vpid_cap : Layout
ept_vpid_cap =
    1 ∷ 5 ∷ 1 ∷ 1 ∷ 1 ∷ 5 ∷ 1 ∷ 1 ∷ 1 ∷ 1 ∷ 2 ∷ 1 ∷ 1 ∷ 1 ∷ 2 ∷ 1 ∷ 1 ∷ 5 ∷ 1 ∷ 7 ∷ 1 ∷ 1 ∷ 1 ∷ 1
    ∷ 20 ∷ []

-- `IA32_MTRR_DEF_TYPE_REGISTER`.
abbrev pub mtrr_def_type : Layout
mtrr_def_type = 3 ∷ 7 ∷ 1 ∷ 1 ∷ 52 ∷ []

-- `IA32_FEATURE_CONTROL_MSR`.
abbrev pub feature_control : Layout
feature_control = 1 ∷ 1 ∷ 1 ∷ 5 ∷ 7 ∷ 1 ∷ 16 ∷ 32 ∷ []

-- `IA32_VMX_BASIC_MSR`.
abbrev pub vmx_basic : Layout
vmx_basic = 31 ∷ 1 ∷ 12 ∷ 1 ∷ 3 ∷ 1 ∷ 1 ∷ 4 ∷ 1 ∷ 1 ∷ 8 ∷ []
