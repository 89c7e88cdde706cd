-- ===== src/Elab/Reg/Positions.antt =====
-- `assign_automatic_field_positions` and `calculate_next_available_bit` in elaborator.cpp. The
-- name and the `fieldwidth` property of a field, which nothing here changes, are read when the
-- fields are collected.
pub mod Writes
pub mod Collected
pub mod Rounds
pub mod Complete
pub mod Disjoint
use systemrdl_toolkit.Base.{
  ℕ, zero, suc, ◌+◌, ◌^◌, Bool, true, false, not, ◌&&◌, List, [], ◌∷◌, ◌++◌, Bytes, codes, Option,
  none, some, ltb, leb, ◌==◌, if◌then◌else◌, to_string,
}
use systemrdl_toolkit.Elab.Model.{
  Field, FieldInfo, NodeInfo, Nodes, nil, cons, node, field, RegInfo, ElaborationError,
  elaboration_error, is_flagged, auto_position_key, PropertyValue, text, integer, boolean,
  get_property, set_property, fields_of, add64, sub64, size_max,
}
use systemrdl_toolkit.Elab.Reg.ArrayOrder.{Ref, Groups, auto_position_fields, field_groups, sort}

-- the `fieldwidth` property, one bit where there is none
unfoldable pub auto_width : Field → ℕ
unfolding get_property
auto_width f = elim (get_property (codes "fieldwidth") f.info.properties) [
  | none ↦ 1
  | some value ↦ elim value [ integer n ↦ n | text s ↦ 1 | boolean b ↦ 1 ]
]

-- the members and the properties that say where a field lies
unfoldable pub assign_position : ℕ → ℕ → ℕ → Field → Field
unfolding set_property
assign_position field_lsb field_msb field_width f = record {
  info = record f.info {
    properties = set_property auto_position_key (boolean false) (
        set_property (codes "width") (integer field_width) (
          set_property (codes "msb") (integer field_msb)
            (set_property (codes "lsb") (integer field_lsb) f.info.properties)));
  };
  field = record f.field { msb = field_msb; lsb = field_lsb; width = field_width };
}

-- a write through the pointer to the field at a place
unfoldable pub update_field : ℕ → (Field → Field) → Nodes → Nodes
update_field i change nil = nil
update_field zero change (cons (node info (field f) inner) children) =
    let g = change (record { info = info; field = f }) in
    cons (node g.info (field g.field) inner) children
update_field (suc i) change (cons (node info (field f) inner) children) =
    cons (node info (field f) inner) (update_field i change children)
update_field i change (cons child children) = cons child (update_field i change children)

-- the step of the loop over the fields that are placed at explicit positions
unfoldable pub next_bit_step : Field → ℕ → ℕ
unfolding is_flagged
next_bit_step f next_bit =
    let field_end = add64 f.field.msb 1 in
    if is_flagged auto_position_key f.info.properties
    then next_bit
    else (if not (f.field.msb == size_max)
          && not (f.field.lsb == size_max)
          && ltb next_bit field_end
        then field_end
        else next_bit)

unfoldable pub next_bit_from : ℕ → List Field → ℕ
unfolding next_bit_step
next_bit_from next_bit [] = next_bit
next_bit_from next_bit (f ∷ fields) = next_bit_from (next_bit_step f next_bit) fields

unfoldable pub calculate_next_available_bit : Nodes → ℕ
unfolding next_bit_from fields_of
calculate_next_available_bit children = next_bit_from 0 (fields_of children)

pub record Placing : Type 0 where
  pub children : Nodes
  pub current_bit : ℕ
  pub errors : List ElaborationError

unfoldable pub report_no_room : ℕ → ℕ → ℕ → Field → ElaborationError
unfolding elaboration_error
report_no_room register_width current_bit field_width f =
    elaboration_error
      (codes "Auto-positioned field '"
        ++ (f.info.inst_name
            ++ (codes "' would exceed register width. Field needs "
                ++ (to_string field_width
                    ++ (codes " bits but only "
                        ++ (to_string (sub64 register_width current_bit)
                            ++ (codes " bits available from position "
                                ++ to_string current_bit)))))))
      f.info.source_ctx

-- the body of the loop over the fields of a group
unfoldable pub place_field : ℕ → Ref → Placing → Placing
unfolding auto_width assign_position update_field report_no_room
place_field register_width r st =
    let field_width = auto_width r.1 in
    let field_lsb = st.current_bit in
    let field_msb = sub64 (add64 st.current_bit field_width) 1 in
    if leb register_width field_msb
    then record st {
      errors = st.errors ++ report_no_room register_width st.current_bit field_width r.1 ∷ [];
    }
    else record st {
      children = update_field r.0 (assign_position field_lsb field_msb field_width) st.children;
      current_bit = add64 field_msb 1;
    }

unfoldable pub place_fields : ℕ → List Ref → Placing → Placing
unfolding place_field
place_fields register_width [] st = st
place_fields register_width (r ∷ refs) st =
    place_fields register_width refs (place_field register_width r st)

unfoldable pub place_groups : ℕ → Groups → Placing → Placing
unfolding place_fields sort
place_groups register_width [] st = st
place_groups register_width ((name, refs) ∷ groups) st =
    place_groups register_width groups (place_fields register_width (sort refs) st)

unfoldable pub assign_automatic_field_positions : RegInfo → Nodes → Placing
unfolding auto_position_fields field_groups place_groups calculate_next_available_bit fields_of
assign_automatic_field_positions r children =
    place_groups r.register_width (field_groups (auto_position_fields 0 (fields_of children)) [])
      (record {
        children = children;
        current_bit = calculate_next_available_bit children;
        errors = [];
      })
