-- ===== src/Examples/Fields.antt =====
-- Setter calls on the words with bit fields.
use zpp_hypervisor.Common.{List, [], ◌∷◌, ◌<◌, ◌≡◌, ◌^◌, true, arith}
use zpp_hypervisor.Pte.Refine as PteRefine
use zpp_hypervisor.Epte.Refine as EpteRefine
use zpp_hypervisor.EptPointer.Refine as EptPointerRefine
use zpp_hypervisor.MtrrCapabilities.Refine as MtrrCapabilitiesRefine
use zpp_hypervisor.MtrrVariableBase.Refine as MtrrVariableBaseRefine
use zpp_hypervisor.MtrrVariableMask.Refine as MtrrVariableMaskRefine
use zpp_hypervisor.VirtualAddress.Refine as VirtualAddressRefine
use zpp_hypervisor.SegmentEntry.Refine as SegmentEntryRefine

abbrev pte_calls : List PteRefine.Update
pte_calls = PteRefine.set_present true ∷ PteRefine.set_page_number 5 ∷ []

pte_fields-run_example :
    (PteRefine.run pte_calls 0xfff < 2 ^ 64)
    × (PteRefine.fields (PteRefine.run pte_calls 0xfff)
        ≡ PteRefine.run_fields pte_calls (PteRefine.fields 0xfff))
pte_fields-run_example = PteRefine.pte_fields-run pte_calls 0xfff (omega arith)

abbrev epte_calls : List EpteRefine.Update
epte_calls = EpteRefine.set_read true ∷ EpteRefine.set_page_number 5 ∷ []

abbrev ept_pointer_calls : List EptPointerRefine.Update
ept_pointer_calls =
    EptPointerRefine.set_page_walk_length 4 ∷ EptPointerRefine.set_page_number 5 ∷ []

abbrev mtrr_capabilities_calls : List MtrrCapabilitiesRefine.Update
mtrr_capabilities_calls =
    MtrrCapabilitiesRefine.set_variable_range_register_count 8
    ∷ MtrrCapabilitiesRefine.set_write_combining true
    ∷ []

abbrev mtrr_variable_base_calls : List MtrrVariableBaseRefine.Update
mtrr_variable_base_calls =
    MtrrVariableBaseRefine.set_memory_type 6 ∷ MtrrVariableBaseRefine.set_page_number 5 ∷ []

abbrev mtrr_variable_mask_calls : List MtrrVariableMaskRefine.Update
mtrr_variable_mask_calls =
    MtrrVariableMaskRefine.set_valid true ∷ MtrrVariableMaskRefine.set_physical_mask 5 ∷ []

abbrev virtual_address_calls : List VirtualAddressRefine.Update
virtual_address_calls = VirtualAddressRefine.set_pte 5 ∷ VirtualAddressRefine.set_pde 6 ∷ []

abbrev segment_calls : List SegmentEntryRefine.Update
segment_calls = SegmentEntryRefine.set_present true ∷ SegmentEntryRefine.set_base_low 5 ∷ []

segment_fields-run_example :
    (SegmentEntryRefine.run segment_calls 0xfff < 2 ^ 64)
    × (SegmentEntryRefine.fields (SegmentEntryRefine.run segment_calls 0xfff)
        ≡ SegmentEntryRefine.run_fields segment_calls (SegmentEntryRefine.fields 0xfff))
segment_fields-run_example = SegmentEntryRefine.segment_fields-run segment_calls 0xfff (omega arith)
