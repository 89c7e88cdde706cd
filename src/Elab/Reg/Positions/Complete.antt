-- ===== src/Elab/Reg/Positions/Complete.antt =====
-- The automatic placement leaves no field without a position silently.
use systemrdl_toolkit.Base.{
  ℕ, zero, suc, ◌+◌, ◌≤◌, ◌≡◌, ◌≢◌, ◌⊎◌, refl, sym, ap, ◌∙◌, subst, Bool, true, false, not, List,
  [], ◌∷◌, ◌++◌, leb, ◌==◌, eq_bytes, arith, codes, Option, none, some, length, inl, inr,
  Bool-cases, All,
}
use systemrdl_toolkit.Elab.Model.{
  Field, Nodes, RegInfo, fields_of, is_flagged, auto_position_key, add64, sub64, PropertyValue,
  text, integer, boolean, set_property, get_property-set_property,
}
use systemrdl_toolkit.Elab.Ranges.{count_if}
use systemrdl_toolkit.Elab.Reg.ArrayOrder.{Ref, auto_position_fields, field_groups}
use systemrdl_toolkit.Elab.Reg.ArrayOrder.Permutes.{in_order, count_if-field_groups}
use systemrdl_toolkit.Elab.Reg.Positions.{
  Placing, assign_position, auto_width, calculate_next_available_bit, place_field, place_fields,
  assign_automatic_field_positions,
}
use systemrdl_toolkit.Elab.Reg.Positions.Writes.{
  update, fields_of-update_field, holds_at, count_holds_at, place_groups-in_order,
}
use systemrdl_toolkit.Elab.Reg.Positions.Collected.{auto_count, auto_holds}

-- the field still needs a position
abbrev pub is_waiting : Field → Bool
is_waiting f = is_flagged auto_position_key f.info.properties

abbrev flag_of : Option PropertyValue → Bool
flag_of o = elim o [
  | none ↦ false
  | some value ↦ elim value [ boolean b ↦ b | text s ↦ false | integer n ↦ false ]
]

-- a field with a position waits no longer
assign_position-done :
    (lsb msb width : ℕ) (f : Field) → is_waiting (assign_position lsb msb width f) ≡ false
unfolding assign_position is_flagged eq_bytes
assign_position-done lsb msb width f = ap flag_of (
    get_property-set_property auto_position_key auto_position_key (boolean false) (
      set_property (codes "width") (integer width) (
        set_property (codes "msb") (integer msb)
          (set_property (codes "lsb") (integer lsb) f.info.properties))))

count_waiting :
    (lsb msb width i : ℕ) (fields : List Field)
    → holds_at is_waiting fields i ≡ true
    → count_if is_waiting (update i (assign_position lsb msb width) fields) + 1
      ≡ count_if is_waiting fields
unfolding count_if
count_waiting lsb msb width i [] h = absurd (cc h)
count_waiting lsb msb width zero (f ∷ fields) h =
    ground (arith, assign_position-done lsb msb width f)
count_waiting lsb msb width (suc i) (f ∷ fields) h =
    omega (arith, count_waiting lsb msb width i fields h)

-- Between two rounds: the fields that are left are met once and wait, and they are all that
-- wait, unless an error was reported.
record Left (refs : List Ref) (st : Placing) : Type 0 where
  once : (i : ℕ) → count_if (λ r. r.0 == i) refs ≤ 1
  waits : count_if (λ r. not (holds_at is_waiting (fields_of st.children) r.0)) refs ≡ 0
  whole : (st.errors ≢ []) ⊎ (count_if is_waiting (fields_of st.children) ≡ length refs)

append_nonempty {ℓ} : {A : Type ℓ} (xs : List A) (x : A) → xs ++ x ∷ [] ≢ []
append_nonempty [] x = λ e. absurd (cc e)
append_nonempty (y ∷ xs) x = λ e. absurd (cc e)

place_field-Left :
    (width : ℕ) (r : Ref) (refs : List Ref) (st : Placing)
    → Left (r ∷ refs) st
    → Left refs (place_field width r st)
unfolding place_field count_if
place_field-Left width r refs st left =
    let n = auto_width r.1 in
    let msb = sub64 (add64 st.current_bit n) 1 in
    elim (Bool-cases (leb width msb)) [
      | inl full ↦
          rw (full, place_field)
            (record {
              once = λ i. omega (arith, left.once i);
              waits = omega (arith, left.waits);
              whole = inl (append_nonempty st.errors _);
            })
      | inr room ↦
          let change = assign_position st.current_bit msb n in
          let fields = fields_of st.children in
          let waiting : holds_at is_waiting fields r.0 ≡ true = ground (arith, left.waits) in
          let alone : count_if (λ q. q.0 == r.0) refs ≡ 0 = ground (arith, left.once r.0) in
          let written = fields_of-update_field r.0 change st.children in
          rw (room, place_field)
            (record {
              once = λ i. omega (arith, left.once i);
              waits = rw written (
                  count_holds_at is_waiting r.0 change fields refs alone
                  ∙ omega (arith, left.waits));
              whole = elim left.whole [
                | inl reported ↦ inl reported
                | inr all ↦ inr (
                    rw written
                      (omega (arith, count_waiting st.current_bit msb n r.0 fields waiting, all)))
              ];
            })
    ]

place_fields-Left :
    (width : ℕ) (refs : List Ref) (st : Placing)
    → Left refs st
    → Left [] (place_fields width refs st)
unfolding place_fields
place_fields-Left width [] st left = left
place_fields-Left width (r ∷ refs) st left =
    place_fields-Left width refs (place_field width r st) (place_field-Left width r refs st left)

count_all : (refs : List Ref) → count_if (λ r. true) refs ≡ length refs
unfolding count_if
count_all [] = refl
count_all (r ∷ refs) = omega (arith, count_all refs)

count_collected :
    (i : ℕ) (fields : List Field)
    → count_if (λ r. true) (auto_position_fields i fields) ≡ count_if is_waiting fields
unfolding count_if auto_position_fields
count_collected i [] = refl
count_collected i (f ∷ fields) = ground (arith, count_collected (suc i) fields)

none_left :
    (fields : List Field) → count_if is_waiting fields ≡ 0 → All (λ f. is_waiting f ≡ false) fields
unfolding count_if
none_left [] h = tt
none_left (f ∷ fields) h = (ground arith, none_left fields (omega arith))

waiting_passes : (fields : List Field) → All (λ f. is_waiting f ≡ true → is_waiting f ≡ true) fields
waiting_passes [] = tt
waiting_passes (f ∷ fields) = (λ h. h, waiting_passes fields)

start-Left :
    (children : Nodes) (current : ℕ)
    → Left
        (in_order (field_groups (auto_position_fields 0 (fields_of children)) []))
        (record { children = children; current_bit = current; errors = [] })
unfolding count_if
start-Left children current =
    let fields = fields_of children in
    let refs = auto_position_fields 0 fields in
    let order = in_order (field_groups refs []) in
    record {
      once =
          λ i. omega (arith, count_if-field_groups (λ r. r.0 == i) refs [], auto_count i 0 fields);
      waits = omega (
        arith,
        count_if-field_groups (λ r. not (holds_at is_waiting fields r.0)) refs [],
        auto_holds is_waiting [] fields (waiting_passes fields),
      );
      whole = inr (
          omega (
            arith,
            count_if-field_groups (λ r. true) refs [],
            count_all order,
            count_collected 0 fields,
          ));
    }

-- The automatic placement of the fields of a register reports an error, or leaves no field that
-- is marked for a position.
pub assign_automatic_field_positions_complete :
    (r : RegInfo) (children : Nodes)
    → let placed = assign_automatic_field_positions r children in
      (placed.errors ≢ []) ⊎ All (λ f. is_waiting f ≡ false) (fields_of placed.children)
unfolding assign_automatic_field_positions
assign_automatic_field_positions_complete r children =
    let groups = field_groups (auto_position_fields 0 (fields_of children)) [] in
    let begin : Placing = record {
      children = children;
      current_bit = calculate_next_available_bit children;
      errors = [];
    } in
    let same : assign_automatic_field_positions r children
        ≡ place_fields r.register_width (in_order groups) begin =
      place_groups-in_order r.register_width groups begin in
    let left =
      place_fields-Left r.register_width (in_order groups) begin
        (start-Left children (calculate_next_available_bit children)) in
    subst (λ st. (st.errors ≢ []) ⊎ All (λ f. is_waiting f ≡ false) (fields_of st.children))
      (sym same) (elim left.whole [ inl reported ↦ inl reported | inr all ↦ inr (none_left _ all) ])
