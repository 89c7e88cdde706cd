-- ===== src/Elab/Reg/Positions/Rounds.antt =====
-- The loop over the fields that are placed automatically.
use systemrdl_toolkit.Base.{
  ℕ, ◌+◌, ◌^◌, ◌<◌, ◌≤◌, ◌≡◌, true, List, [], ◌∷◌, leb, arith, inl, inr, Bool-cases,
}
use systemrdl_toolkit.Elab.Model.{Field, fields_of, add64, sub64}
use systemrdl_toolkit.Elab.Reg.Gaps.Coverage.{covering}
use systemrdl_toolkit.Elab.Reg.ArrayOrder.{Ref}
use systemrdl_toolkit.Elab.Reg.Positions.{
  Placing, assign_position, auto_width, place_field, place_fields,
}
use systemrdl_toolkit.Elab.Reg.Positions.Writes.{
  update, fields_of-update_field, points, covering-update, Waiting, Waiting-head, Waiting-tail,
  Waiting-placed,
}

-- the bits in front of `next` are as they were before, and those from there on held once at most
pub record Clear (width next : ℕ) (before fields : List Field) (current : ℕ) : Type 0 where
  pub from : next ≤ current
  pub small : current ≤ 2 ^ 63
  pub ahead : (b : ℕ) → b < width → current ≤ b → covering b fields ≡ 0
  pub behind : (b : ℕ) → b < width → next ≤ b → covering b fields ≤ 1
  pub kept : (b : ℕ) → b < width → b < next → covering b fields ≡ covering b before

Clear-placed :
    (width next current n i : ℕ) (before fields : List Field)
    → width < 2 ^ 32
    → n < 2 ^ 63
    → sub64 (add64 current n) 1 < width
    → points fields i ≡ true
    → Clear width next before fields current
    → Clear width next before
        (update i (assign_position current (sub64 (add64 current n) 1) n) fields)
        (add64 (sub64 (add64 current n) 1) 1)
Clear-placed width next current n i before fields narrow few room p clear =
    let msb = sub64 (add64 current n) 1 in
    let small : current ≤ 2 ^ 63 = clear.small in
    let last : msb + 1 ≡ current + n = omega arith in
    let then_bit : add64 msb 1 ≡ current + n = omega arith in
    record {
      from = omega (arith, clear.from);
      small = omega arith;
      ahead = λ b below h.
          ground (arith, covering-update b i current msb n fields p, clear.ahead b below);
      behind = λ b below h. ground (
        arith,
        covering-update b i current msb n fields p,
        clear.ahead b below,
        clear.behind b below h,
      );
      kept = λ b below h.
          ground
            (arith, covering-update b i current msb n fields p, clear.kept b below h, clear.from);
    }

-- The state between two rounds of the loop, with the fields that are left.
unfoldable pub Between : ℕ → ℕ → List Field → List Ref → Placing → Type 0
Between width next before refs st =
    Waiting (fields_of st.children) refs
    × Clear width next before (fields_of st.children) st.current_bit

place_field-Between :
    (width next : ℕ) (before : List Field) (r : Ref) (refs : List Ref) (st : Placing)
    → width < 2 ^ 32
    → Between width next before (r ∷ refs) st
    → Between width next before refs (place_field width r st)
unfolding Between place_field
place_field-Between width next before r refs st narrow (w, clear) =
    let fields = fields_of st.children in
    let n = auto_width r.1 in
    let msb = sub64 (add64 st.current_bit n) 1 in
    let (open_place, few) = Waiting-head r refs fields w in
    elim (Bool-cases (leb width msb)) [
      | inl full ↦ rw (full, place_field) (Waiting-tail r refs fields w, clear)
      | inr room ↦
          let change = assign_position st.current_bit msb n in
          let inside : msb < width = ground arith in
          rw (room, place_field)
            (rw (fields_of-update_field r.0 change st.children) (
              Waiting-placed r refs change fields w,
              Clear-placed width next st.current_bit n r.0 before fields narrow few inside
                  open_place clear,
            ))
    ]

pub place_fields-Between :
    (width next : ℕ) (before : List Field) (refs : List Ref) (st : Placing)
    → width < 2 ^ 32
    → Between width next before refs st
    → Between width next before [] (place_fields width refs st)
unfolding place_fields
place_fields-Between width next before [] st narrow between = between
place_fields-Between width next before (r ∷ refs) st narrow between =
    place_fields-Between width next before refs (place_field width r st) narrow
      (place_field-Between width next before r refs st narrow between)
