-- ===== src/Elab/Reg/Positions/Writes.antt =====
-- What a write of a position does to the fields of a register.
use systemrdl_toolkit.Base.{
  ℕ, zero, suc, ◌+◌, ◌^◌, ◌<◌, ◌≤◌, ◌≡◌, ◌≢◌, refl, sym, ap, ◌∙◌, Bool, true, false, not, ◌&&◌,
  List, [], ◌∷◌, ◌++◌, ltb, leb, ◌==◌, if◌then◌else◌, arith,
}
use systemrdl_toolkit.Elab.Model.{Field, Nodes, nil, cons, node, field, fields_of, size_max}
use systemrdl_toolkit.Elab.Ranges.{count_if}
use systemrdl_toolkit.Elab.Reg.Gaps.Coverage.{covering}
use systemrdl_toolkit.Elab.Reg.ArrayOrder.{Ref, Groups, sort}
use systemrdl_toolkit.Elab.Reg.ArrayOrder.Permutes.{in_order}
use systemrdl_toolkit.Elab.Reg.Positions.{
  Placing, update_field, assign_position, auto_width, place_fields, place_groups,
}

abbrev pub update : ℕ → (Field → Field) → List Field → List Field
update i change [] = []
update zero change (f ∷ fields) = change f ∷ fields
update (suc i) change (f ∷ fields) = f ∷ update i change fields

pub fields_of-update_field :
    (i : ℕ) (change : Field → Field) (children : Nodes)
    → fields_of (update_field i change children) ≡ update i change (fields_of children)
unfolding fields_of update_field
fields_of-update_field i change nil = refl
fields_of-update_field zero change (cons (node info (field f) inner) children) = refl
fields_of-update_field (suc i) change (cons (node info (field f) inner) children) =
    ap (◌∷◌ (record { info = info; field = f })) (fields_of-update_field i change children)
fields_of-update_field i change (cons (node info _ inner) children) =
    fields_of-update_field i change children

-- the field at a place has no position yet
abbrev pub unplaced : Field → Bool
unplaced f = (f.field.lsb == size_max) && (f.field.msb == size_max)

-- the field at a place passes the test
abbrev pub holds_at : (Field → Bool) → List Field → ℕ → Bool
holds_at p [] i = false
holds_at p (f ∷ fields) zero = p f
holds_at p (f ∷ fields) (suc i) = holds_at p fields i

abbrev pub points : List Field → ℕ → Bool
points fields i = holds_at unplaced fields i

pub covering-update :
    (b i lsb msb width : ℕ) (fields : List Field)
    → points fields i ≡ true
    → b < size_max
    → covering b (update i (assign_position lsb msb width) fields)
      ≡ covering b fields + (if leb lsb b && leb b msb then 1 else 0)
unfolding covering assign_position
covering-update b i lsb msb width [] p below = absurd (cc p)
covering-update b zero lsb msb width (f ∷ fields) p below = ground arith
covering-update b (suc i) lsb msb width (f ∷ fields) p below =
    omega (arith, covering-update b i lsb msb width fields p below)

holds_at-update :
    (p : Field → Bool) (i j : ℕ) (change : Field → Field) (fields : List Field)
    → i ≢ j
    → holds_at p (update i change fields) j ≡ holds_at p fields j
holds_at-update p i j change [] h = refl
holds_at-update p zero zero change (f ∷ fields) h = absurd (h refl)
holds_at-update p zero (suc j) change (f ∷ fields) h = refl
holds_at-update p (suc i) zero change (f ∷ fields) h = refl
holds_at-update p (suc i) (suc j) change (f ∷ fields) h =
    holds_at-update p i j change fields (λ e. h (ap suc e))

-- The fields that wait for a position: each is met once, has none yet, and spans no absurd number
-- of bits.
pub record Waiting (fields : List Field) (refs : List Ref) : Type 0 where
  pub once : (i : ℕ) → count_if (λ r. r.0 == i) refs ≤ 1
  pub open_place : count_if (λ r. not (points fields r.0)) refs ≡ 0
  pub narrow : count_if (λ r. not (ltb (auto_width r.1) (2 ^ 63))) refs ≡ 0

pub count_holds_at :
    (p : Field → Bool) (i : ℕ) (change : Field → Field) (fields : List Field) (refs : List Ref)
    → count_if (λ r. r.0 == i) refs ≡ 0
    → count_if (λ r. not (holds_at p (update i change fields) r.0)) refs
      ≡ count_if (λ r. not (holds_at p fields r.0)) refs
unfolding count_if
count_holds_at p i change fields [] h = refl
count_holds_at p i change fields (r ∷ refs) h =
    let other : i ≢ r.0 = ground arith in
    omega (
      arith,
      ap {B = ℕ} (λ t. if not t then 1 else 0) (holds_at-update p i r.0 change fields other),
      count_holds_at p i change fields refs (ground arith),
    )

pub Waiting-head :
    (r : Ref) (refs : List Ref) (fields : List Field)
    → Waiting fields (r ∷ refs)
    → (points fields r.0 ≡ true) × (auto_width r.1 < 2 ^ 63)
unfolding count_if
Waiting-head r refs fields w = (ground (arith, w.open_place), ground (arith, w.narrow))

-- those behind wait on, when the first is placed and when it is not
pub Waiting-tail :
    (r : Ref) (refs : List Ref) (fields : List Field)
    → Waiting fields (r ∷ refs)
    → Waiting fields refs
unfolding count_if
Waiting-tail r refs fields w = record {
  once = λ i. omega (arith, w.once i);
  open_place = omega (arith, w.open_place);
  narrow = omega (arith, w.narrow);
}

pub Waiting-placed :
    (r : Ref) (refs : List Ref) (change : Field → Field) (fields : List Field)
    → Waiting fields (r ∷ refs)
    → Waiting (update r.0 change fields) refs
unfolding count_if
Waiting-placed r refs change fields w =
    let rest = Waiting-tail r refs fields w in
    record {
      once = rest.once;
      open_place =
          count_holds_at unplaced r.0 change fields refs (ground (arith, w.once r.0))
          ∙ rest.open_place;
      narrow = rest.narrow;
    }

place_fields-append :
    (width : ℕ) (xs ys : List Ref) (st : Placing)
    → place_fields width (xs ++ ys) st ≡ place_fields width ys (place_fields width xs st)
unfolding place_fields
place_fields-append width [] ys st = refl
place_fields-append width (x ∷ xs) ys st = place_fields-append width xs ys _

-- the two loops go through the fields in order
pub place_groups-in_order :
    (width : ℕ) (groups : Groups) (st : Placing)
    → place_groups width groups st ≡ place_fields width (in_order groups) st
unfolding place_groups place_fields
place_groups-in_order width [] st = refl
place_groups-in_order width ((name, refs) ∷ groups) st =
    place_groups-in_order width groups (place_fields width (sort refs) st)
    ∙ sym (place_fields-append width (sort refs) (in_order groups) st)
