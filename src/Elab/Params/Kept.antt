-- ===== src/Elab/Params/Kept.antt =====
-- The defaults that the loop leaves, once they are kept as they are.
use mathlib.Core.Option.{none-ne-some}
use systemrdl_toolkit.Base.{
  ◌≡◌, refl, sym, ap, ◌∙◌, subst, Bool, true, false, not, ◌&&◌, ◌||◌, List, [], ◌∷◌, Bytes,
  eq_bytes, eq_bytes_iff, Option, none, some, if◌then◌else◌, arith, inl, inr, Bool-cases, All,
}
use systemrdl_toolkit.Elab.Model.{
  PropertyValue, Properties, get_property, set_property, get_property-set_property,
}
use systemrdl_toolkit.Elab.Params.{ParameterDefinition, Resolving, contains, keep_defaults}
use systemrdl_toolkit.Elab.Params.Defaults.{AreAmong, IsKept, IsOneKept, IsSound, At}
use systemrdl_toolkit.Elab.Params.Exit.{IsLeft}

abbrev pub is_given : Option PropertyValue → Bool
is_given none = false
is_given (some v) = true

-- one of the definitions of the name has a default
unfoldable pub is_offered : Bytes → List ParameterDefinition → Bool
is_offered name [] = false
is_offered name (def ∷ defs) = (eq_bytes def.name name && def.has_default) || is_offered name defs

-- a value that is set
is_given-set :
    (k m : Bytes) (v : PropertyValue) (values : Properties)
    → is_given (get_property m values) ≡ true
    → is_given (get_property m (set_property k v values)) ≡ true
is_given-set k m v values h = elim (Bool-cases (eq_bytes k m)) [
  | inl same ↦ rw (get_property-set_property k m v values, same) refl
  | inr other ↦ rw (get_property-set_property k m v values, other) h
]

is_given-here :
    (k m : Bytes) (v : PropertyValue) (values : Properties)
    → eq_bytes k m ≡ true
    → is_given (get_property m (set_property k v values)) ≡ true
is_given-here k m v values same = rw (get_property-set_property k m v values, same) refl

-- what one definition adds
abbrev kept : List Bytes → ParameterDefinition → Properties → Properties
kept resolved def values =
    if def.has_default && not (contains def.name resolved)
    then set_property def.name def.default_value values
    else values

is_given-kept :
    (resolved : List Bytes) (def : ParameterDefinition) (values : Properties) (m : Bytes)
    → is_given (get_property m values) ≡ true
    → is_given (get_property m (kept resolved def values)) ≡ true
is_given-kept resolved def values m h =
    elim (Bool-cases (def.has_default && not (contains def.name resolved))) [
      | inl set ↦ rw set (is_given-set def.name m def.default_value values h)
      | inr stays ↦ rw stays h
    ]

is_given-keep_defaults :
    (resolved : List Bytes) (defs : List ParameterDefinition) (values : Properties) (m : Bytes)
    → is_given (get_property m values) ≡ true
    → is_given (get_property m (keep_defaults resolved defs values)) ≡ true
unfolding keep_defaults
is_given-keep_defaults resolved [] values m h = h
is_given-keep_defaults resolved (def ∷ defs) values m h =
    is_given-keep_defaults resolved defs (kept resolved def values) m
      (is_given-kept resolved def values m h)

-- a name with a default has a value afterwards
pub offered-keep_defaults :
    (resolved : List Bytes) (defs : List ParameterDefinition) (values : Properties) (m : Bytes)
    → (not (contains m resolved) || is_given (get_property m values)) ≡ true
    → is_offered m defs ≡ true
    → is_given (get_property m (keep_defaults resolved defs values)) ≡ true
unfolding keep_defaults is_offered
offered-keep_defaults resolved [] values m within h = absurd (ground arith)
offered-keep_defaults resolved (def ∷ defs) values m within h =
    elim (Bool-cases (is_given (get_property m values))) [
      | inl there ↦ is_given-keep_defaults resolved (def ∷ defs) values m there
      | inr missing ↦
          let new : contains m resolved ≡ false = ground arith in
          elim (Bool-cases (eq_bytes def.name m && def.has_default)) [
            | inl this ↦
                let same : eq_bytes def.name m ≡ true = ground arith in
                let open_name : contains def.name resolved ≡ false =
                  ap (λ (n : Bytes). contains n resolved) ((eq_bytes_iff def.name m).0 same)
                  ∙ new in
                let open_def : (def.has_default && not (contains def.name resolved)) ≡ true =
                  ground arith in
                is_given-keep_defaults resolved defs (kept resolved def values) m
                  (rw open_def (is_given-here def.name m def.default_value values same))
            | inr other ↦
                offered-keep_defaults resolved defs (kept resolved def values) m
                  (ap (λ (b : Bool). not b || is_given (get_property m (kept resolved def values)))
                    new)
                  (rw other at h)
          ]
    ]

-- every value that is new is a default that stays, and those that were there are still
abbrev AreKept : List ParameterDefinition → Properties → Properties → Type 0
AreKept defs before values =
    AreAmong before values
    × ((name : Bytes) (v : PropertyValue)
        → get_property name before ≡ none
        → get_property name values ≡ some v
        → IsKept defs before name v)

unset :
    (all : List ParameterDefinition) (st : Resolving) (name : Bytes)
    → At all st name
    → contains name st.resolved ≡ false
    → get_property name st.values ≡ none
unset all st name (inl (out, nothing)) new = nothing
unset all st name (inr (within, rest)) new = absurd (cc (within, new))

kept-AreKept :
    (all : List ParameterDefinition) (st : Resolving) (def : ParameterDefinition)
    (values : Properties)
    → IsSound all st
    → IsOneKept all def
    → IsLeft st def
    → AreKept all st.values values
    → AreKept all st.values (kept st.resolved def values)
kept-AreKept all st def values sound one left (among, defaults) =
    elim (Bool-cases (def.has_default && not (contains def.name st.resolved))) [
      | inr stays ↦ rw stays (among, defaults)
      | inl set ↦
          let has : def.has_default ≡ true = ground arith in
          let new : contains def.name st.resolved ≡ false = ground arith in
          let default : IsKept all st.values def.name def.default_value =
            one st.values has (left has new) in
          rw set (
            λ m w h. elim (Bool-cases (eq_bytes def.name m)) [
              | inl same ↦ absurd (
                  none-ne-some w (
                    sym (unset all st def.name (sound def.name) new)
                    ∙ (ap (λ (n : Bytes). get_property n st.values)
                          ((eq_bytes_iff def.name m).0 same)
                        ∙ h)))
              | inr other ↦
                  get_property-set_property def.name m def.default_value values
                  ∙ rw other (among m w h)
            ],
            λ m v before h. elim (Bool-cases (eq_bytes def.name m)) [
              | inl same ↦
                  let value : some def.default_value ≡ some v =
                    rw (get_property-set_property def.name m def.default_value values, same) at h in
                  subst (λ (n : Bytes). IsKept all st.values n v) ((eq_bytes_iff def.name m).0 same)
                    (subst (IsKept all st.values def.name) {x = def.default_value} {y = v}
                      (ground (arith)) default)
              | inr other ↦
                  defaults m v before
                    (rw (get_property-set_property def.name m def.default_value values, other) at h)
            ],
          )
    ]

pub keep_defaults-AreKept :
    (all defs : List ParameterDefinition) (st : Resolving) (values : Properties)
    → IsSound all st
    → All (IsOneKept all) defs
    → All (IsLeft st) defs
    → AreKept all st.values values
    → AreKept all st.values (keep_defaults st.resolved defs values)
unfolding keep_defaults
keep_defaults-AreKept all [] st values sound ones lefts h = h
keep_defaults-AreKept all (def ∷ defs) st values sound (one, ones) (left, lefts) h =
    keep_defaults-AreKept all defs st (kept st.resolved def values) sound ones lefts
      (kept-AreKept all st def values sound one left h)
