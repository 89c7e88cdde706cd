-- ===== src/Elab/Params/Table.antt =====
-- The table of the defaults, once those that are left are kept as they are.
use mathlib.Core.Option.{none-ne-some}
use systemrdl_toolkit.Base.{
  ◌≡◌, refl, sym, ap, ◌∙◌, subst, true, false, not, ◌||◌, List, [], ◌∷◌, Bytes, eq_bytes_iff,
  Option, none, some, arith, inl, inr, Bool-cases, Option-cases,
}
use systemrdl_toolkit.Elab.Model.{PropertyValue, Properties, get_property}
use systemrdl_toolkit.Elab.Params.{
  ParameterDefinition, Resolving, contains, resolve_defaults, keep_defaults,
}
use systemrdl_toolkit.Elab.Params.Defaults.{IsDefault, IsKept, all_IsOneKept, IsSound}
use systemrdl_toolkit.Elab.Params.Exit.{resolve_defaults-IsLeft, resolve_defaults-IsSound}
use systemrdl_toolkit.Elab.Params.Kept.{
  is_given, is_offered, offered-keep_defaults, keep_defaults-AreKept,
}

-- what a name has that is not resolved: a default that stays, if one of its definitions has one
abbrev pub KeptFor : List ParameterDefinition → Properties → Bytes → Option PropertyValue → Type 0
KeptFor defs resolved name none = is_offered name defs ≡ false
KeptFor defs resolved name (some v) = IsKept defs resolved name v

-- a table of defaults, of which these are resolved
pub record AreDefaults (defs : List ParameterDefinition) (resolved defaults : Properties)
    : Type 0 where
  is_resolved :
      (name : Bytes) (v : PropertyValue)
      → get_property name resolved ≡ some v
      → (get_property name defaults ≡ some v) × IsDefault defs resolved name v
  is_kept :
      (name : Bytes)
      → get_property name resolved ≡ none
      → KeptFor defs resolved name (get_property name defaults)

is_offered-IsDefault :
    (defs : List ParameterDefinition) (values : Properties) (name : Bytes) (v : PropertyValue)
    → IsDefault defs values name v
    → is_offered name defs ≡ true
unfolding IsDefault is_offered
is_offered-IsDefault [] values name v h = absurd h
is_offered-IsDefault (def ∷ defs) values name v (inl (same, has, g)) =
    rw ((eq_bytes_iff def.name name).1 same, has) refl
is_offered-IsDefault (def ∷ defs) values name v (inr h) =
    ground (arith, is_offered-IsDefault defs values name v h)

is_offered-IsKept :
    (defs : List ParameterDefinition) (values : Properties) (name : Bytes) (v : PropertyValue)
    → IsKept defs values name v
    → is_offered name defs ≡ true
unfolding IsKept is_offered
is_offered-IsKept [] values name v h = absurd h
is_offered-IsKept (def ∷ defs) values name v (inl (same, has, e, stays)) =
    rw ((eq_bytes_iff def.name name).1 same, has) refl
is_offered-IsKept (def ∷ defs) values name v (inr h) =
    ground (arith, is_offered-IsKept defs values name v h)

KeptFor-is_given :
    (defs : List ParameterDefinition) (values : Properties) (name : Bytes)
    (default : Option PropertyValue)
    → KeptFor defs values name default
    → is_given default ≡ is_offered name defs
KeptFor-is_given defs values name none h = sym h
KeptFor-is_given defs values name (some v) h = sym (is_offered-IsKept defs values name v h)

pub AreDefaults-is_given :
    (defs : List ParameterDefinition) (resolved defaults : Properties)
    → AreDefaults defs resolved defaults
    → (name : Bytes) → is_given (get_property name defaults) ≡ is_offered name defs
AreDefaults-is_given defs resolved defaults table name =
    elim (Option-cases (get_property name resolved)) [
      | inl nothing ↦
          KeptFor-is_given defs resolved name (get_property name defaults)
            (table.is_kept name nothing)
      | inr (v, e) ↦
          let (there, default) = table.is_resolved name v e in
          ap is_given there ∙ sym (is_offered-IsDefault defs resolved name v default)
    ]

-- the values before the assignments of an instance
abbrev pub default_values : List ParameterDefinition → Properties
default_values defs = let st = resolve_defaults defs in keep_defaults st.resolved defs st.values

sound-defaults :
    (defs : List ParameterDefinition) (st : Resolving)
    → IsSound defs st
    → (name : Bytes) (v : PropertyValue) → get_property name st.values ≡ some v
    → IsDefault defs st.values name v
sound-defaults defs st sound name v h = elim (sound name) [
  | inl (out, nothing) ↦ absurd (none-ne-some v (sym nothing ∙ h))
  | inr (within, (w, e, d)) ↦
      subst (IsDefault defs st.values name) {x = w} {y = v} (ground (arith)) d
]

sound-given :
    (defs : List ParameterDefinition) (st : Resolving)
    → IsSound defs st
    → (name : Bytes)
    → (not (contains name st.resolved) || is_given (get_property name st.values)) ≡ true
sound-given defs st sound name = elim (sound name) [
  | inl (out, nothing) ↦ rw out refl
  | inr (within, (w, e, d)) ↦ rw (within, e) refl
]

unoffered :
    (defs : List ParameterDefinition) (name : Bytes) (values : Properties)
    → get_property name values ≡ none
    → (is_offered name defs ≡ true → is_given (get_property name values) ≡ true)
    → is_offered name defs ≡ false
unoffered defs name values nothing given = elim (Bool-cases (is_offered name defs)) [
  | inl offered ↦ absurd (cc (ap is_given nothing, given offered))
  | inr none_offered ↦ none_offered
]

default_values-KeptFor :
    (defs : List ParameterDefinition) (name : Bytes)
    → ((v : PropertyValue)
        → get_property name (default_values defs) ≡ some v
        → IsKept defs (resolve_defaults defs).values name v)
    → KeptFor defs (resolve_defaults defs).values name (get_property name (default_values defs))
default_values-KeptFor defs name kept_one =
    let st = resolve_defaults defs in
    let given =
      offered-keep_defaults st.resolved defs st.values name
        (sound-given defs st (resolve_defaults-IsSound defs) name) in
    elim (Option-cases (get_property name (default_values defs))) [
      | inl nothing ↦ rw nothing (unoffered defs name (default_values defs) nothing given)
      | inr (v, e) ↦ subst (KeptFor defs st.values name) (sym e) (kept_one v e)
    ]

pub default_values-AreDefaults :
    (defs : List ParameterDefinition)
    → AreDefaults defs (resolve_defaults defs).values (default_values defs)
default_values-AreDefaults defs =
    let st = resolve_defaults defs in
    let sound = resolve_defaults-IsSound defs in
    let (among, defaults) =
      keep_defaults-AreKept defs defs st st.values sound (all_IsOneKept defs)
        (resolve_defaults-IsLeft defs)
        (λ n w h. h, λ n w before h. absurd (none-ne-some w (sym before ∙ h))) in
    record {
      is_resolved = λ name v h. (among name v h, sound-defaults defs st sound name v h);
      is_kept = λ name h. default_values-KeptFor defs name λ v e. defaults name v h e;
    }
