-- ===== src/Vmx/Setup/Stages.antt =====
-- What the stages of `SetupVmcs` of NovaHypervisor/Vmx.cpp leave in a field, from the last stage to the
-- first.
use nova_hypervisor.Base.{
  ℕ, ◌/◌, ◌%◌, ◌^◌, ◌<◌, ◌≡◌, ◌≢◌, ◌∙◌, refl, sym, true, if◌then◌else◌, [], ◌∷◌, none, some, arith,
  Bool-cases, inl, inr, bit_and, bit_and_low,
}
use nova_hypervisor.Vmcs.{VmcsStore, encoding, width, is_writable}
use nova_hypervisor.Guest.{Cpu}
use nova_hypervisor.Vmcs.{virtual_processor_id, guest_ia32_debugctl_high}
use nova_hypervisor.VmxHelper.{get_vpid_tag_for_processor}
use nova_hypervisor.Vmx.Setup.{
  Launch, Writes, fill_segments, run, host_selectors, cleared_fields, segment_bases_and_controls,
  machine_state, entry_points, setup_vmcs,
}
use nova_hypervisor.Vmx.Setup.Reads.{
  last, read_unwritten, read_written, AllWhole, NoSegment, fill_segments-keeps,
}

module _ {V : Type 0} (hw : VmcsStore V) (l : Launch) (c : Cpu V) (g : ℕ) (whole : g % 2 ≡ 0) where
  abbrev final : ℕ
  final = hw.vmread g (setup_vmcs l hw c).vmcs

  -- The run does not write the field.
  abbrev pub Passes : Writes → Type 0
  Passes ws = last g ws ≡ none

  abbrev set_vpid : Cpu V → Cpu V
  set_vpid c4 =
      if l.vpid_supported
      then run l hw ((virtual_processor_id, get_vpid_tag_for_processor l.processor) ∷ []) c4
      else c4

  abbrev selected : Cpu V
  selected =
      let c1 = run l hw (host_selectors l) c in
      record c1 {
        vmcs = hw.vmwrite (encoding guest_ia32_debugctl_high) (l.readmsr 0x1D9 / 2 ^ 32) c1.vmcs;
      }

  abbrev filled : Cpu V
  filled = fill_segments l hw (run l hw (cleared_fields l) selected)

  abbrev controlled : Cpu V
  controlled = run l hw (segment_bases_and_controls l) filled

  abbrev loaded : Cpu V
  loaded = run l hw (machine_state l) controlled

  all_entry : AllWhole (entry_points l)
  all_entry = omega arith

  all_machine : AllWhole (machine_state l)
  all_machine = omega arith

  pub setup-entry :
      (v : ℕ) → is_writable g ≡ true → last g (entry_points l) ≡ some v → final ≡ v % 2 ^ width g
  unfolding setup_vmcs
  setup-entry v w h =
      read_written hw g whole (entry_points l) (set_vpid loaded).vmcs v all_entry w h

  set_vpid-keeps : (c4 : Cpu V) → g ≢ 0 → hw.vmread g (set_vpid c4).vmcs ≡ hw.vmread g c4.vmcs
  set_vpid-keeps c4 other = elim (Bool-cases l.vpid_supported) [
    | inl on ↦ rw on (
        hw.read_other 0 g (get_vpid_tag_for_processor l.processor) c4.vmcs (λ e. other (sym e)) refl
          whole)
    | inr off ↦ rw off refl
  ]

  -- The last run leaves the field, and it is not the VPID.
  module _ (other : g ≢ 0) (entry : last g (entry_points l) ≡ none) where
    before_entry : final ≡ hw.vmread g loaded.vmcs
    unfolding setup_vmcs
    before_entry =
        read_unwritten hw g whole (entry_points l) (set_vpid loaded).vmcs all_entry entry
        ∙ set_vpid-keeps loaded other

    pub setup-machine :
        (v : ℕ) → is_writable g ≡ true → last g (machine_state l) ≡ some v → final ≡ v % 2 ^ width g
    setup-machine v w h =
        before_entry ∙ read_written hw g whole (machine_state l) controlled.vmcs v all_machine w h

    module _ (machine : last g (machine_state l) ≡ none) where
      before_machine : final ≡ hw.vmread g controlled.vmcs
      before_machine =
          before_entry
          ∙ read_unwritten hw g whole (machine_state l) controlled.vmcs all_machine machine

      pub setup-control :
          (v : ℕ)
          → is_writable g ≡ true
          → last g (segment_bases_and_controls l) ≡ some v
          → final ≡ v % 2 ^ width g
      setup-control v w h =
          before_machine
          ∙ read_written hw g whole (segment_bases_and_controls l) filled.vmcs v (omega arith) w h

      module _ (control : last g (segment_bases_and_controls l) ≡ none) (apart : NoSegment g) where
        before_fill : final ≡ hw.vmread g (run l hw (cleared_fields l) selected).vmcs
        before_fill =
            before_machine
            ∙ read_unwritten hw g whole (segment_bases_and_controls l) filled.vmcs (omega arith)
                control
            ∙ fill_segments-keeps hw l g whole apart (run l hw (cleared_fields l) selected)

        pub setup-cleared :
            (v : ℕ)
            → is_writable g ≡ true
            → last g (cleared_fields l) ≡ some v
            → final ≡ v % 2 ^ width g
        setup-cleared v w h =
            before_fill
            ∙ read_written hw g whole (cleared_fields l) selected.vmcs v (omega arith) w h

        module _ (clear : last g (cleared_fields l) ≡ none) where
          before_cleared : final ≡ hw.vmread g selected.vmcs
          before_cleared =
              before_fill
              ∙ read_unwritten hw g whole (cleared_fields l) selected.vmcs (omega arith) clear

          pub setup-host :
              (v : ℕ)
              → is_writable g ≡ true
              → g ≢ 10242
              → last g (host_selectors l) ≡ some v
              → final ≡ v % 2 ^ width g
          setup-host v w d h =
              before_cleared
              ∙ hw.high_other 10242 g (l.readmsr 0x1D9 / 2 ^ 32)
                  (run l hw (host_selectors l) c).vmcs (λ e. d (sym e)) refl whole
              ∙ read_written hw g whole (host_selectors l) c.vmcs v (omega arith) w h

-- DEBUGCTL is written in two halves.
pub setup-debugctl :
    {V : Type 0} (hw : VmcsStore V) (l : Launch) (c : Cpu V)
    → l.readmsr 0x1D9 < 2 ^ 64
    → hw.vmread 10242 (setup_vmcs l hw c).vmcs ≡ l.readmsr 0x1D9
setup-debugctl hw l c bound =
    let msr = l.readmsr 0x1D9 in
    let s = (run l hw (host_selectors l) c).vmcs in
    let low : hw.vmread 10242 s ≡ bit_and msr 0xFFFFFFFF % 2 ^ 64 =
      read_written hw 10242 refl (host_selectors l) c.vmcs (bit_and msr 0xFFFFFFFF) (omega arith)
        refl refl in
    before_cleared hw l c 10242 refl (omega arith) refl refl refl (omega arith) refl
    ∙ hw.write_high 10242 (msr / 2 ^ 32) s refl refl refl
    ∙ omega (arith, low, bit_and_low 32 msr)

set_vpid-writes :
    {V : Type 0} (hw : VmcsStore V) (l : Launch) (c c4 : Cpu V)
    → l.vpid_supported ≡ true
    → hw.vmread 0 (set_vpid hw l c 0 refl c4).vmcs ≡ get_vpid_tag_for_processor l.processor % 2 ^ 16
set_vpid-writes hw l c c4 on =
    rw on (hw.read_same 0 (get_vpid_tag_for_processor l.processor) c4.vmcs refl)

pub setup-vpid :
    {V : Type 0} (hw : VmcsStore V) (l : Launch) (c : Cpu V)
    → l.vpid_supported ≡ true
    → hw.vmread 0 (setup_vmcs l hw c).vmcs ≡ get_vpid_tag_for_processor l.processor % 2 ^ 16
unfolding setup_vmcs
setup-vpid hw l c on =
    read_unwritten hw 0 refl (entry_points l) (set_vpid hw l c 0 refl (loaded hw l c 0 refl)).vmcs
      (omega arith) refl
    ∙ set_vpid-writes hw l c (loaded hw l c 0 refl) on
