-- ===== src/Elab/Reg/ArrayOrder.antt =====
-- The order in which `assign_automatic_field_positions` in elaborator.cpp goes through the fields
-- that need a position: groups by base name, elements by index. A pointer to a field is the
-- field's place among the fields of the register, with the field as it is when it is collected.
-- The order that `std::sort` leaves between equal indices, which the language leaves open, is
-- that of the text.
pub mod Permutes
use systemrdl_toolkit.Base.{
  ℕ, zero, suc, ◌+◌, ◌-◌, ◌*◌, ◌^◌, Bool, true, false, not, ◌&&◌, ◌||◌, List, [], ◌∷◌, ◌++◌, Bytes,
  eq_bytes, Option, none, some, ltb, leb, ◌==◌, if◌then◌else◌, take, drop, substr,
  find_first_not_of,
}
use systemrdl_toolkit.Elab.Model.{Field, FieldInfo, NodeInfo, is_flagged, auto_position_key}

-- a field that is to be placed
abbrev pub Ref : Type 0
Ref = ℕ × Field

-- the fields that need a position, from the one at place `i` on
unfoldable pub auto_position_fields : ℕ → List Field → List Ref
unfolding is_flagged
auto_position_fields i [] = []
auto_position_fields i (f ∷ fields) =
    let rest = auto_position_fields (suc i) fields in
    if is_flagged auto_position_key f.info.properties then (i, f) ∷ rest else rest

-- `find(c)`
abbrev pub find : ℕ → Bytes → Option ℕ
find c s = find_first_not_of (λ d. not (d == c)) s

unfoldable pub base_name : Bytes → Bytes
unfolding find_first_not_of
base_name name = elim (find b'[' name) [ none ↦ name | some bracket_pos ↦ take bracket_pos name ]

-- `operator<` of strings
unfoldable pub less_bytes : Bytes → Bytes → Bool
less_bytes [] [] = false
less_bytes [] (b ∷ t) = true
less_bytes (a ∷ s) [] = false
less_bytes (a ∷ s) (b ∷ t) = ltb a b || (a == b && less_bytes s t)

-- `field_groups[name].push_back(field)` on a map whose names ascend
abbrev pub Groups : Type 0
Groups = List (Bytes × List Ref)

unfoldable pub push_group : Bytes → Ref → Groups → Groups
unfolding eq_bytes less_bytes
push_group name r [] = (name, r ∷ []) ∷ []
push_group name r ((key, refs) ∷ groups) =
    let later = push_group name r groups in
    if eq_bytes key name
    then (key, refs ++ r ∷ []) ∷ groups
    else (if less_bytes name key
        then (name, r ∷ []) ∷ ((key, refs) ∷ groups)
        else (key, refs) ∷ later)

unfoldable pub field_groups : List Ref → Groups → Groups
unfolding push_group base_name
field_groups [] groups = groups
field_groups (r ∷ refs) groups =
    field_groups refs (push_group (base_name r.1.info.inst_name) r groups)

abbrev pub is_space : ℕ → Bool
is_space c = c == b' ' || (leb 9 c && leb c 13)

abbrev pub so_far : Option ℕ → ℕ
so_far none = 0
so_far (some n) = n

-- the number that the digits in front stand for, if there is one
unfoldable pub leading_digits : Option ℕ → Bytes → Option ℕ
leading_digits seen [] = seen
leading_digits seen (c ∷ s) =
    let more = leading_digits (some (so_far seen * 10 + (c - b'0'))) s in
    if leb b'0' c && leb c b'9' then more else seen

-- `int` as the distance from the least one, and zero among them
abbrev pub int_zero : ℕ
int_zero = 2 ^ 31

unfoldable pub positive : Option ℕ → Option ℕ
positive none = none
positive (some n) = if ltb n (2 ^ 31) then some (int_zero + n) else none

unfoldable pub negative : Option ℕ → Option ℕ
negative none = none
negative (some n) = if leb n (2 ^ 31) then some (int_zero - n) else none

-- `std::stoi`; `none` where it throws
unfoldable pub stoi : Bytes → Option ℕ
unfolding leading_digits positive negative
stoi [] = none
stoi (c ∷ s) =
    let later = stoi s in
    if is_space c
    then later
    else (if c == b'-'
        then negative (leading_digits none s)
        else (if c == b'+'
            then positive (leading_digits none s)
            else positive (leading_digits none (c ∷ s))))

unfoldable pub extract_index : Bytes → ℕ
unfolding stoi find_first_not_of
extract_index name = elim (find b'[' name) [
  | none ↦ int_zero
  | some bracket_pos ↦ elim (find b']' (drop bracket_pos name)) [
    | none ↦ int_zero
    | some behind ↦ elim (stoi (substr name (bracket_pos + 1) (behind - 1))) [
      | none ↦ int_zero
      | some index ↦ index
    ]
  ]
]

unfoldable pub insert : Ref → List Ref → List Ref
unfolding extract_index
insert r [] = r ∷ []
insert r (q ∷ refs) =
    let later = insert r refs in
    if ltb (extract_index q.1.info.inst_name) (extract_index r.1.info.inst_name)
    then q ∷ later
    else r ∷ (q ∷ refs)

unfoldable pub sort : List Ref → List Ref
unfolding insert
sort [] = []
sort (r ∷ refs) = insert r (sort refs)
