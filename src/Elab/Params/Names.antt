-- ===== src/Elab/Params/Names.antt =====
-- The names that are resolved are different names of definitions, so that there are no more of
-- them than definitions.
use systemrdl_toolkit.Base.{
  ◌≤◌, ◌<◌, ◌≡◌, refl, sym, ap, ◌∙◌, Bool, true, false, not, ◌||◌, List, [], ◌∷◌, Bytes, eq_bytes,
  eq_bytes_iff, length, if◌then◌else◌, arith, inl, inr, Bool-cases, All, All-map,
}
use systemrdl_toolkit.Elab.Model.{PropertyValue, text, integer, boolean}
use systemrdl_toolkit.Elab.ExprText.{evaluate_expression_from_string}
use systemrdl_toolkit.Elab.Params.{
  ParameterDefinition, Resolving, contains, is_text, resolve_to, take_default, resolve_step,
  resolve_round, is_defined,
}

abbrev AreDistinct : List Bytes → Type 0
AreDistinct [] = Unit
AreDistinct (n ∷ names) = (contains n names ≡ false) × AreDistinct names

abbrev AreDefined : List ParameterDefinition → List Bytes → Type 0
AreDefined defs = All λ n. is_defined n defs ≡ true

-- the definitions of other names
without : Bytes → List ParameterDefinition → List ParameterDefinition
without name [] = []
without name (def ∷ defs) =
    let rest = without name defs in if eq_bytes def.name name then rest else def ∷ rest

length-without_le :
    (name : Bytes) (defs : List ParameterDefinition) → length (without name defs) ≤ length defs
unfolding without
length-without_le name [] = omega arith
length-without_le name (def ∷ defs) = ground (arith, length-without_le name defs)

length-without :
    (name : Bytes) (defs : List ParameterDefinition)
    → is_defined name defs ≡ true
    → length (without name defs) < length defs
unfolding without is_defined
length-without name [] h = absurd (ground arith)
length-without name (def ∷ defs) h = elim (Bool-cases (eq_bytes def.name name)) [
  | inl same ↦ rw (without, same) (omega (arith, length-without_le name defs))
  | inr other ↦
      let later = length-without name defs (rw (is_defined, other) at h) in
      rw (without, other) (omega (arith, later))
]

is_defined-without :
    (name m : Bytes) (defs : List ParameterDefinition)
    → eq_bytes name m ≡ false
    → is_defined m (without name defs) ≡ is_defined m defs
unfolding without is_defined
is_defined-without name m [] h = refl
is_defined-without name m (def ∷ defs) h = elim (Bool-cases (eq_bytes def.name name)) [
  | inl same ↦
      let no_m : eq_bytes def.name m ≡ false =
        ap (λ (n : Bytes). eq_bytes n m) ((eq_bytes_iff def.name name).0 same) ∙ h in
      rw (without, same, no_m) (is_defined-without name m defs h)
  | inr other ↦
      rw (without, other)
        (ap (λ (b : Bool). eq_bytes def.name m || b) (is_defined-without name m defs h))
]

eq_bytes-turned : (s t : Bytes) → eq_bytes s t ≡ false → eq_bytes t s ≡ false
eq_bytes-turned s t h = elim (Bool-cases (eq_bytes t s)) [
  | inl same ↦ absurd (cc (h, (eq_bytes_iff s t).1 (sym ((eq_bytes_iff t s).0 same))))
  | inr other ↦ other
]

AreDefined-without :
    (name : Bytes) (names : List Bytes) (defs : List ParameterDefinition)
    → contains name names ≡ false
    → AreDefined defs names
    → AreDefined (without name defs) names
unfolding contains
AreDefined-without name [] defs h d = tt
AreDefined-without name (n ∷ names) defs h (one, d) =
    let other : eq_bytes n name ≡ false = ground arith in
    (
      is_defined-without name n defs (eq_bytes-turned n name other) ∙ one,
      AreDefined-without name names defs (ground arith) d,
    )

-- no more names than definitions
names-le :
    (names : List Bytes) (defs : List ParameterDefinition)
    → AreDistinct names
    → AreDefined defs names
    → length names ≤ length defs
names-le [] defs different d = omega arith
names-le (n ∷ names) defs (new, different) (one, d) = omega (
  arith,
  length-without n defs one,
  names-le names (without n defs) different (AreDefined-without n names defs new d),
)

abbrev pub AreNames : List ParameterDefinition → Resolving → Type 0
AreNames defs st = AreDistinct st.resolved × AreDefined defs st.resolved

-- a name that is defined and not resolved leaves room
pub AreNames-room :
    (name : Bytes) (defs : List ParameterDefinition) (st : Resolving)
    → AreNames defs st
    → is_defined name defs ≡ true
    → contains name st.resolved ≡ false
    → length st.resolved < length defs
AreNames-room name defs st (different, d) one new =
    omega (arith, names-le (name ∷ st.resolved) defs (new, different) (one, d))

take_default-AreNames :
    (defs : List ParameterDefinition) (name : Bytes) (default : PropertyValue) (st : Resolving)
    → is_defined name defs ≡ true
    → contains name st.resolved ≡ false
    → AreNames defs st
    → AreNames defs (take_default name default st)
unfolding take_default resolve_to
take_default-AreNames defs name (integer n) st one new (different, d) = ((new, different), (one, d))
take_default-AreNames defs name (boolean b) st one new (different, d) = ((new, different), (one, d))
take_default-AreNames defs name (text s) st one new (different, d) =
    elim (Bool-cases (is_text s (evaluate_expression_from_string st.values s))) [
      | inl same ↦ rw (take_default, same) (different, d)
      | inr other ↦ rw (take_default, other, resolve_to) ((new, different), (one, d))
    ]

resolve_step-AreNames :
    (defs : List ParameterDefinition) (def : ParameterDefinition) (st : Resolving)
    → is_defined def.name defs ≡ true
    → AreNames defs st
    → AreNames defs (resolve_step def st)
unfolding resolve_step
resolve_step-AreNames defs def st one names =
    elim (Bool-cases (not def.has_default || contains def.name st.resolved)) [
      | inl skipped ↦ rw (resolve_step, skipped) names
      | inr open_def ↦
          rw (resolve_step, open_def)
            (take_default-AreNames defs def.name def.default_value st one (ground arith) names)
    ]

pub resolve_round-AreNames :
    (all defs : List ParameterDefinition) (st : Resolving)
    → All (λ def. is_defined def.name all ≡ true) defs
    → AreNames all st
    → AreNames all (resolve_round defs st)
unfolding resolve_round
resolve_round-AreNames all [] st ones names = names
resolve_round-AreNames all (def ∷ defs) st (one, ones) names =
    resolve_round-AreNames all defs (resolve_step def st) ones
      (resolve_step-AreNames all def st one names)

pub all_defined :
    (defs : List ParameterDefinition) → All (λ def. is_defined def.name defs ≡ true) defs
unfolding is_defined
all_defined [] = tt
all_defined (def ∷ defs) = (
  ap (λ (b : Bool). b || is_defined def.name defs) ((eq_bytes_iff def.name def.name).1 refl),
  All-map (λ d. is_defined d.name defs ≡ true) (λ d. is_defined d.name (def ∷ defs) ≡ true)
      (λ d one. ground arith) defs (all_defined defs),
)
