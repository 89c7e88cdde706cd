-- ===== src/Elab/Params/Defaults.antt =====
-- What the loop over the defaults gives each parameter.
use mathlib.Core.Option.{none-ne-some}
use systemrdl_toolkit.Base.{
  ◌≡◌, ◌≢◌, ◌⊎◌, refl, sym, ap, ◌∙◌, subst, Bool, true, false, not, ◌||◌, List, [], ◌∷◌, Bytes,
  eq_bytes, eq_bytes_iff, none, some, arith, inl, inr, Bool-cases, All, All-map,
}
use systemrdl_toolkit.Elab.Model.{
  PropertyValue, text, integer, boolean, Properties, get_property, set_property,
  get_property-set_property,
}
use systemrdl_toolkit.Elab.ExprText.{evaluate_expression_from_string}
use systemrdl_toolkit.Elab.Params.{
  ParameterDefinition, Resolving, contains, is_text, resolve_to, take_default, resolve_step,
  resolve_round,
}

-- the values that one table has are those of the other
abbrev pub AreAmong : Properties → Properties → Type 0
AreAmong some_values values =
    (name : Bytes) (v : PropertyValue)
    → get_property name some_values ≡ some v
    → get_property name values ≡ some v

-- what a default is resolved to: itself, unless it is a text, which some of the values evaluate to
-- another value
abbrev pub Gives : Properties → PropertyValue → PropertyValue → Type 0
Gives values (integer n) v = v ≡ integer n
Gives values (boolean b) v = v ≡ boolean b
Gives values (text s) v =
    (known : Properties) × AreAmong known values
    × (v ≡ evaluate_expression_from_string known s)
    × (v ≢ text s)

-- a default that is no more than itself: a text that the values do not evaluate
abbrev pub Stays : Properties → PropertyValue → Type 0
Stays values (integer n) = ⊥
Stays values (boolean b) = ⊥
Stays values (text s) = evaluate_expression_from_string values s ≡ text s

-- one of the definitions of the name has a default, and that is resolved to the value
unfoldable pub IsDefault : List ParameterDefinition → Properties → Bytes → PropertyValue → Type 0
IsDefault [] values name v = ⊥
IsDefault (def ∷ defs) values name v =
    ((def.name ≡ name) × (def.has_default ≡ true) × Gives values def.default_value v)
    ⊎ IsDefault defs values name v

Gives-more :
    (values more : Properties) (default v : PropertyValue)
    → AreAmong values more
    → Gives values default v
    → Gives more default v
Gives-more values more (integer n) v h g = g
Gives-more values more (boolean b) v h g = g
Gives-more values more (text s) v h (known, among, e, new) =
    (known, λ name w k. h name w (among name w k), e, new)

pub IsDefault-more :
    (defs : List ParameterDefinition) (values more : Properties) (name : Bytes) (v : PropertyValue)
    → AreAmong values more
    → IsDefault defs values name v
    → IsDefault defs more name v
unfolding IsDefault
IsDefault-more [] values more name v h g = g
IsDefault-more (def ∷ defs) values more name v h (inl (same, has, g)) =
    inl (same, has, Gives-more values more def.default_value v h g)
IsDefault-more (def ∷ defs) values more name v h (inr g) =
    inr (IsDefault-more defs values more name v h g)

-- a definition that is one of these
abbrev pub IsOne : List ParameterDefinition → ParameterDefinition → Type 0
IsOne defs def =
    (values : Properties) (v : PropertyValue)
    → def.has_default ≡ true
    → Gives values def.default_value v
    → IsDefault defs values def.name v

pub all_IsOne : (defs : List ParameterDefinition) → All (IsOne defs) defs
unfolding IsDefault
all_IsOne [] = tt
all_IsOne (def ∷ defs) = (
  λ values v has g. inl (refl, has, g),
  All-map (IsOne defs) (IsOne (def ∷ defs)) (λ d one values v has g. inr (one values v has g)) defs
      (all_IsOne defs),
)

-- one of the definitions of the name has this default, which stays as it is
unfoldable pub IsKept : List ParameterDefinition → Properties → Bytes → PropertyValue → Type 0
IsKept [] values name v = ⊥
IsKept (def ∷ defs) values name v =
    ((def.name ≡ name)
      × (def.has_default ≡ true)
      × (v ≡ def.default_value)
      × Stays values def.default_value)
    ⊎ IsKept defs values name v

abbrev pub IsOneKept : List ParameterDefinition → ParameterDefinition → Type 0
IsOneKept defs def =
    (values : Properties)
    → def.has_default ≡ true
    → Stays values def.default_value
    → IsKept defs values def.name def.default_value

pub all_IsOneKept : (defs : List ParameterDefinition) → All (IsOneKept defs) defs
unfolding IsKept
all_IsOneKept [] = tt
all_IsOneKept (def ∷ defs) = (
  λ values has stays. inl (refl, has, refl, stays),
  All-map (IsOneKept defs) (IsOneKept (def ∷ defs))
      (λ d one values has stays. inr (one values has stays)) defs (all_IsOneKept defs),
)

-- a name is resolved and has the value of one of its defaults, or it has none yet
abbrev pub At : List ParameterDefinition → Resolving → Bytes → Type 0
At defs st name =
    ((contains name st.resolved ≡ false) × (get_property name st.values ≡ none))
    ⊎ ((contains name st.resolved ≡ true)
        × ((v : PropertyValue) × (get_property name st.values ≡ some v)
            × IsDefault defs st.values name v))

abbrev pub IsSound : List ParameterDefinition → Resolving → Type 0
IsSound defs st = (name : Bytes) → At defs st name

AreAmong-set_property :
    (name : Bytes) (v : PropertyValue) (values : Properties)
    → get_property name values ≡ none
    → AreAmong values (set_property name v values)
AreAmong-set_property name v values new m w h = elim (Bool-cases (eq_bytes name m)) [
  | inl same ↦
      let e : name ≡ m = (eq_bytes_iff name m).0 same in
      absurd (none-ne-some w (sym new ∙ (ap (λ (n : Bytes). get_property n values) e ∙ h)))
  | inr other ↦ get_property-set_property name m v values ∙ rw other h
]

resolve_to-IsSound :
    (defs : List ParameterDefinition) (name : Bytes) (value : PropertyValue) (st : Resolving)
    → IsSound defs st
    → contains name st.resolved ≡ false
    → IsDefault defs st.values name value
    → IsSound defs (resolve_to name value st)
unfolding resolve_to contains
resolve_to-IsSound defs name value st sound new default m =
    let among : AreAmong st.values (set_property name value st.values) =
      AreAmong-set_property name value st.values (unset (sound name)) in
    elim (Bool-cases (eq_bytes name m)) [
      | inl same ↦
          let e : name ≡ m = (eq_bytes_iff name m).0 same in
          inr (
            ap (λ (b : Bool). b || contains m st.resolved) same,
            (
              value,
              get_property-set_property name m value st.values ∙ rw same refl,
              IsDefault-more defs st.values _ m value among
                  (subst (λ (n : Bytes). IsDefault defs st.values n value) e default),
            ),
          )
      | inr other ↦ elim (sound m) [
        | inl (out, nothing) ↦
            inl (rw other out, get_property-set_property name m value st.values ∙ rw other nothing)
        | inr (within, (v, e, d)) ↦ inr (
          rw other within,
          (
            v,
            get_property-set_property name m value st.values ∙ rw other e,
            IsDefault-more defs st.values _ m v among d,
          ),
        )
      ]
    ]
  where
    unset : At defs st name → get_property name st.values ≡ none
    unset (inl (out, nothing)) = nothing
    unset (inr (within, rest)) = absurd (ground arith)

is_text-other : (s : Bytes) (v : PropertyValue) → is_text s v ≡ false → v ≢ text s
unfolding is_text
is_text-other s v h e = absurd (cc (h, ap (is_text s) e, (eq_bytes_iff s s).1 refl))

take_default-IsSound :
    (defs : List ParameterDefinition) (name : Bytes) (default : PropertyValue) (st : Resolving)
    → IsSound defs st
    → contains name st.resolved ≡ false
    → ((values : Properties) (v : PropertyValue)
        → Gives values default v
        → IsDefault defs values name v)
    → IsSound defs (take_default name default st)
unfolding take_default
take_default-IsSound defs name (integer n) st sound new into =
    resolve_to-IsSound defs name (integer n) st sound new (into st.values (integer n) refl)
take_default-IsSound defs name (boolean b) st sound new into =
    resolve_to-IsSound defs name (boolean b) st sound new (into st.values (boolean b) refl)
take_default-IsSound defs name (text s) st sound new into =
    let value = evaluate_expression_from_string st.values s in
    elim (Bool-cases (is_text s value)) [
      | inl same ↦ rw (take_default, same) sound
      | inr other ↦
          rw (take_default, other)
            (resolve_to-IsSound defs name value st sound new
              (into st.values value (st.values, λ n w h. h, refl, is_text-other s value other)))
    ]

resolve_step-IsSound :
    (defs : List ParameterDefinition) (def : ParameterDefinition) (st : Resolving)
    → IsOne defs def
    → IsSound defs st
    → IsSound defs (resolve_step def st)
unfolding resolve_step
resolve_step-IsSound defs def st one sound =
    elim (Bool-cases (not def.has_default || contains def.name st.resolved)) [
      | inl skipped ↦ rw (resolve_step, skipped) sound
      | inr open_def ↦
          let has : def.has_default ≡ true = ground arith in
          let new : contains def.name st.resolved ≡ false = ground arith in
          rw (resolve_step, open_def)
            (take_default-IsSound defs def.name def.default_value st sound new
              λ values v g. one values v has g)
    ]

pub resolve_round-IsSound :
    (all defs : List ParameterDefinition) (st : Resolving)
    → All (IsOne all) defs
    → IsSound all st
    → IsSound all (resolve_round defs st)
unfolding resolve_round
resolve_round-IsSound all [] st ones sound = sound
resolve_round-IsSound all (def ∷ defs) st (one, ones) sound =
    resolve_round-IsSound all defs (resolve_step def st) ones
      (resolve_step-IsSound all def st one sound)
