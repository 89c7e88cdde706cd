-- ===== src/Elab/Reg/Check.antt =====
-- `validate_register_fields` in elaborator.cpp: no field leaves the register, and no two fields
-- hold the same bit. The errors are returned in the order in which they are reported.
pub mod Disjoint
use systemrdl_toolkit.Base.{
  ℕ, ◌+◌, ◌-◌, min, max, Bool, true, false, not, List, [], ◌∷◌, ◌++◌, Bytes, codes, ltb, leb,
  if◌then◌else◌, to_string, Option, is_empty,
}
use systemrdl_toolkit.Elab.Model.{
  Field, FieldInfo, NodeInfo, Nodes, RegInfo, Position, ElaborationError, elaboration_error,
  is_flagged, reserved_key, fields_of, sub64,
}
use systemrdl_toolkit.Elab.Ranges.{each_pair}

unfoldable pub report_field_boundary_error : Bytes → ℕ → ℕ → Option Position → ElaborationError
unfolding elaboration_error
report_field_boundary_error field_name field_msb reg_width ctx =
    elaboration_error
      (codes "Field '"
        ++ (field_name
            ++ (codes "' bit position "
                ++ (to_string field_msb
                    ++ (codes " exceeds register width of "
                        ++ (to_string reg_width
                            ++ (codes " bits (valid range: 0-"
                                ++ (to_string (sub64 reg_width 1) ++ codes ")"))))))))
      ctx

unfoldable pub report_field_overlap_error :
    Bytes → Bytes → ℕ → ℕ → Option Position → ElaborationError
unfolding elaboration_error
report_field_overlap_error field1_name field2_name overlap_start overlap_end ctx =
    elaboration_error
      (codes "Field overlap detected: '"
        ++ (field1_name
            ++ (codes "' and '"
                ++ (field2_name
                    ++ (codes "' both use bits ["
                        ++ (to_string overlap_end
                            ++ (codes ":" ++ (to_string overlap_start ++ codes "]"))))))))
      ctx

-- the fields that were not made up
unfoldable pub not_reserved : List Field → List Field
unfolding is_flagged
not_reserved [] = []
not_reserved (f ∷ fields) =
    let rest = not_reserved fields in
    if is_flagged reserved_key f.info.properties then rest else f ∷ rest

-- the two tests of one field
unfoldable pub check_field_boundary : ℕ → Field → List ElaborationError
unfolding report_field_boundary_error
check_field_boundary register_width f =
    (if leb register_width f.field.msb
      then report_field_boundary_error f.info.inst_name f.field.msb register_width f.info.source_ctx
        ∷ []
      else [])
    ++ (if leb register_width f.field.lsb
        then report_field_boundary_error f.info.inst_name f.field.lsb register_width
            f.info.source_ctx
          ∷ []
        else [])

unfoldable pub check_boundaries_from : ℕ → List Field → List ElaborationError
unfolding check_field_boundary
check_boundaries_from register_width [] = []
check_boundaries_from register_width (f ∷ fields) =
    check_field_boundary register_width f ++ check_boundaries_from register_width fields

unfoldable pub check_field_boundaries : ℕ → Nodes → List ElaborationError
unfolding check_boundaries_from not_reserved fields_of
check_field_boundaries register_width children =
    check_boundaries_from register_width (not_reserved (fields_of children))

unfoldable pub fields_overlap : Field → Field → Bool
fields_overlap field1 field2 =
    leb (max field1.field.lsb field2.field.lsb) (min field1.field.msb field2.field.msb)

unfoldable pub report_overlap : Field → Field → List ElaborationError
unfolding fields_overlap report_field_overlap_error
report_overlap field1 field2 =
    if fields_overlap field1 field2
    then report_field_overlap_error field1.info.inst_name field2.info.inst_name
        (max field1.field.lsb field2.field.lsb) (min field1.field.msb field2.field.msb)
        field1.info.source_ctx
      ∷ []
    else []

unfoldable pub check_field_overlaps : Nodes → List ElaborationError
unfolding each_pair report_overlap not_reserved fields_of
check_field_overlaps children = each_pair report_overlap (not_reserved (fields_of children))

unfoldable pub validate_register_fields : RegInfo → Nodes → List ElaborationError
unfolding check_field_boundaries check_field_overlaps
validate_register_fields r children =
    check_field_boundaries r.register_width children ++ check_field_overlaps children
