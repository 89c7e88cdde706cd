-- ===== src/Elab/Reg/Positions/Disjoint.antt =====
-- The fields that are placed automatically lie behind the others and share no bit.
use systemrdl_toolkit.Base.{
  ℕ, suc, ◌^◌, ◌<◌, ◌≤◌, ◌≡◌, refl, sym, ap, ◌∙◌, subst, true, false, not, List, [], ◌∷◌, ltb, ◌==◌,
  arith, inl, inr, Bool-cases, All,
}
use systemrdl_toolkit.Elab.Model.{
  Field, Nodes, RegInfo, fields_of, size_max, is_flagged, auto_position_key,
}
use systemrdl_toolkit.Elab.Ranges.{count_if}
use systemrdl_toolkit.Elab.Reg.Gaps.Coverage.{covers, covering}
use systemrdl_toolkit.Elab.Reg.ArrayOrder.{auto_position_fields, field_groups}
use systemrdl_toolkit.Elab.Reg.ArrayOrder.Permutes.{in_order, count_if-field_groups}
use systemrdl_toolkit.Elab.Reg.Positions.{
  Placing, auto_width, next_bit_step, next_bit_from, calculate_next_available_bit, place_fields,
  assign_automatic_field_positions,
}
use systemrdl_toolkit.Elab.Reg.Positions.Writes.{unplaced, points, Waiting, place_groups-in_order}
use systemrdl_toolkit.Elab.Reg.Positions.Rounds.{Clear, Between, place_fields-Between}
use systemrdl_toolkit.Elab.Reg.Positions.Collected.{auto_count, auto_holds}
use systemrdl_toolkit.Base.{All-map}

-- A field that is to be placed has no position yet and spans less than 2 ^ 63 bits; any other
-- ends below that position.
abbrev pub IsPlaceable : Field → Type 0
IsPlaceable f =
    (is_flagged auto_position_key f.info.properties ≡ true
      → (unplaced f ≡ true) × (auto_width f < 2 ^ 63))
    × (is_flagged auto_position_key f.info.properties ≡ false → f.field.msb < 2 ^ 63)

next_bit_step_lem :
    (f : Field) (n : ℕ)
    → IsPlaceable f
    → n ≤ 2 ^ 63
    → (n ≤ next_bit_step f n)
      × (next_bit_step f n ≤ 2 ^ 63)
      × ((b : ℕ) → b < size_max → next_bit_step f n ≤ b → covers b f ≡ false)
unfolding next_bit_step
next_bit_step_lem f n place small =
    elim (Bool-cases (is_flagged auto_position_key f.info.properties)) [
      | inl flagged ↦
          rw flagged (omega arith, small, λ b below h. ground (arith, (place.0 flagged).0))
      | inr plain ↦ rw plain (
        ground (arith, place.1 plain),
        ground (arith, place.1 plain),
        λ b below h. ground (arith, place.1 plain),
      )
    ]

next_bit_from_lem :
    (fields : List Field) (n : ℕ)
    → All IsPlaceable fields
    → n ≤ 2 ^ 63
    → (n ≤ next_bit_from n fields)
      × (next_bit_from n fields ≤ 2 ^ 63)
      × ((b : ℕ) → b < size_max → next_bit_from n fields ≤ b → covering b fields ≡ 0)
unfolding next_bit_from covering
next_bit_from_lem [] n places small = (omega arith, small, λ b below h. refl)
next_bit_from_lem (f ∷ fields) n places small =
    let (up, still, out) = next_bit_step_lem f n places.0 small in
    let (up2, still2, out2) = next_bit_from_lem fields (next_bit_step f n) places.1 still in
    (omega arith, still2, λ b below h. ground (arith, out b below, out2 b below h))

auto_narrow :
    (i : ℕ) (fields : List Field)
    → All IsPlaceable fields
    → count_if (λ r. not (ltb (auto_width r.1) (2 ^ 63))) (auto_position_fields i fields) ≡ 0
unfolding count_if auto_position_fields
auto_narrow i [] places = refl
auto_narrow i (f ∷ fields) places =
    elim (Bool-cases (is_flagged auto_position_key f.info.properties)) [
      | inl flagged ↦
          rw flagged (ground (arith, (places.0.0 flagged).1, auto_narrow (suc i) fields places.1))
      | inr plain ↦ rw plain (auto_narrow (suc i) fields places.1)
    ]

-- the fields wait in the order of the groups as they do in the order of the text
order-Waiting :
    (fields : List Field)
    → All IsPlaceable fields
    → Waiting fields (in_order (field_groups (auto_position_fields 0 fields) []))
unfolding count_if
order-Waiting fields places =
    let refs = auto_position_fields 0 fields in
    record {
      once =
          λ i. omega (arith, count_if-field_groups (λ r. r.0 == i) refs [], auto_count i 0 fields);
      open_place = omega (
        arith,
        count_if-field_groups (λ r. not (points fields r.0)) refs [],
        auto_holds unplaced [] fields
            (All-map IsPlaceable _ (λ f place flagged. (place.0 flagged).0) fields places),
      );
      narrow = omega (
        arith,
        count_if-field_groups (λ r. not (ltb (auto_width r.1) (2 ^ 63))) refs [],
        auto_narrow 0 fields places,
      );
    }

-- Let the fields of a register, of less than 2 ^ 32 bits, that are to be placed have no position yet
-- and span less than 2 ^ 63 bits each, and the others end below that position. After
-- the automatic placement the bits below the next available one are held by as many fields as
-- before, and every bit of the register from there on by at most one.
pub assign_automatic_field_positions-disjoint :
    (r : RegInfo) (children : Nodes)
    → r.register_width < 2 ^ 32
    → All IsPlaceable (fields_of children)
    → let after = fields_of (assign_automatic_field_positions r children).children in
      ((b : ℕ)
        → b < r.register_width
        → b < calculate_next_available_bit children
        → covering b after ≡ covering b (fields_of children))
      × ((b : ℕ)
          → b < r.register_width
          → calculate_next_available_bit children ≤ b
          → covering b after ≤ 1)
unfolding assign_automatic_field_positions Between calculate_next_available_bit
assign_automatic_field_positions-disjoint r children narrow places =
    let fields = fields_of children in
    let width = r.register_width in
    let (up, still, out) = next_bit_from_lem fields 0 places (omega arith) in
    let start : Clear width (next_bit_from 0 fields) fields fields (next_bit_from 0 fields) =
      record {
        from = omega arith;
        small = still;
        ahead = λ b below h. out b (omega arith) h;
        behind = λ b below h. omega (arith, out b (omega arith) h);
        kept = λ b below h. refl;
      } in
    let order = in_order (field_groups (auto_position_fields 0 fields) []) in
    let begin : Placing = record {
      children = children;
      current_bit = next_bit_from 0 fields;
      errors = [];
    } in
    let clear : Clear width (next_bit_from 0 fields) fields
        (fields_of (place_fields width order begin).children)
        (place_fields width order begin).current_bit =
      (place_fields-Between width (next_bit_from 0 fields) fields order begin narrow
        (order-Waiting fields places, start)).1 in
    let same : assign_automatic_field_positions r children ≡ place_fields width order begin =
      place_groups-in_order width (field_groups (auto_position_fields 0 fields) []) begin in
    (
      λ b below h. ap (λ st. covering b (fields_of st.children)) same ∙ clear.kept b below h,
      λ b below h.
          subst (λ st. covering b (fields_of st.children) ≤ 1) (sym same) (clear.behind b below h),
    )
