-- ===== src/Elab/Params/Values.antt =====
-- What a parameter stands for once an instance has its assignments.
use systemrdl_toolkit.Base.{
  ◌≡◌, refl, ap, not, ◌||◌, Bool, none, arith, All-map, All-zip, ◌∙◌, true, false, List, [], ◌∷◌,
  Bytes, eq_bytes, eq_bytes_iff, Option, some, if◌then◌else◌, inl, inr, Bool-cases, ◌↔◌, All,
}
use systemrdl_toolkit.Elab.Ranges.{append_empty_iff}
use systemrdl_toolkit.Elab.Model.{
  PropertyValue, Properties, get_property, set_property, get_property-set_property,
}
use systemrdl_toolkit.Elab.Params.Kept.{is_given, is_offered}
use systemrdl_toolkit.Elab.Params.Table.{
  AreDefaults, AreDefaults-is_given, default_values, default_values-AreDefaults,
}
use systemrdl_toolkit.Elab.Params.{
  ParameterDefinition, ParameterAssignment, is_defined, assign_values, apply_parameter_assignments,
  unknown_parameters, missing_parameters, is_missing, resolve_defaults,
}

-- the value of the last assignment to the name, and `old` if there is none
abbrev pub last_assigned :
    Bytes → List ParameterAssignment → Option PropertyValue → Option PropertyValue
last_assigned name [] old = old
last_assigned name (a ∷ assignments) old =
    last_assigned name assignments (if eq_bytes a.name name then some a.value else old)

assigned_step :
    (defs : List ParameterDefinition) (a : ParameterAssignment) (values : Properties) (name : Bytes)
    → is_defined name defs ≡ true
    → get_property name
        (if is_defined a.name defs then set_property a.name a.value values else values)
      ≡ (if eq_bytes a.name name then some a.value else get_property name values)
assigned_step defs a values name h = elim (Bool-cases (is_defined a.name defs)) [
  | inl known ↦ rw known (get_property-set_property a.name name a.value values)
  | inr unknown ↦ elim (Bool-cases (eq_bytes a.name name)) [
    | inl same ↦
        absurd (cc (ap (λ n. is_defined n defs) ((eq_bytes_iff a.name name).0 same), h, unknown))
    | inr other ↦ rw (unknown, other) refl
  ]
]

assign_values-defined :
    (defs : List ParameterDefinition) (assignments : List ParameterAssignment) (values : Properties)
    (name : Bytes)
    → is_defined name defs ≡ true
    → get_property name (assign_values defs assignments values)
      ≡ last_assigned name assignments (get_property name values)
unfolding assign_values
assign_values-defined defs [] values name h = refl
assign_values-defined defs (a ∷ assignments) values name h =
    assign_values-defined defs assignments _ name h
    ∙ ap (last_assigned name assignments) (assigned_step defs a values name h)

unknown_parameters_iff :
    (defs : List ParameterDefinition) (assignments : List ParameterAssignment)
    → (unknown_parameters defs assignments ≡ [])
      ↔ All (λ a. is_defined a.name defs ≡ true) assignments
unfolding unknown_parameters
unknown_parameters_iff defs [] = (λ h. tt, λ h. refl)
unknown_parameters_iff defs (a ∷ assignments) =
    let later = unknown_parameters_iff defs assignments in
    elim (Bool-cases (is_defined a.name defs)) [
      | inl known ↦ rw (known, unknown_parameters) (λ h. (refl, later.0 h), λ h. later.1 h.1)
      | inr unknown ↦ rw (unknown, unknown_parameters) (λ h. absurd (cc h), λ h. absurd (cc (h.0)))
    ]

missing_parameters_iff :
    (defs : List ParameterDefinition) (values : Properties)
    → (missing_parameters defs values ≡ [])
      ↔ All (λ def. is_missing def (get_property def.name values) ≡ false) defs
unfolding missing_parameters
missing_parameters_iff [] values = (λ h. tt, λ h. refl)
missing_parameters_iff (def ∷ defs) values =
    let later = missing_parameters_iff defs values in
    elim (Bool-cases (is_missing def (get_property def.name values))) [
      | inl missing ↦ rw (missing, missing_parameters) (λ h. absurd (cc h), λ h. absurd (cc (h.0)))
      | inr given ↦ rw (given, missing_parameters) (λ h. (refl, later.0 h), λ h. later.1 h.1)
    ]

-- one of the assignments is to the name
abbrev pub is_assigned : Bytes → List ParameterAssignment → Bool
is_assigned name [] = false
is_assigned name (a ∷ assignments) = eq_bytes a.name name || is_assigned name assignments

last_assigned-is_given :
    (name : Bytes) (assignments : List ParameterAssignment) (old : Option PropertyValue)
    → is_given (last_assigned name assignments old) ≡ (is_assigned name assignments || is_given old)
last_assigned-is_given name [] old = refl
last_assigned-is_given name (a ∷ assignments) old = elim (Bool-cases (eq_bytes a.name name)) [
  | inl same ↦ rw same (last_assigned-is_given name assignments (some a.value) ∙ ground arith)
  | inr other ↦ rw other (last_assigned-is_given name assignments old)
]

-- an assignment or a default
abbrev pub is_provided : List ParameterDefinition → List ParameterAssignment → Bytes → Bool
is_provided defs assignments name = is_assigned name assignments || is_offered name defs

-- a definition and the names that have a default
abbrev IsCounted : List ParameterDefinition → ParameterDefinition → Type 0
IsCounted defs def =
    (is_defined def.name defs ≡ true) × ((not def.has_default || is_offered def.name defs) ≡ true)

all-IsCounted : (defs : List ParameterDefinition) → All (IsCounted defs) defs
unfolding is_defined is_offered
all-IsCounted [] = tt
all-IsCounted (def ∷ defs) =
    let itself : eq_bytes def.name def.name ≡ true = (eq_bytes_iff def.name def.name).1 refl in
    (
      (ground arith, ground arith),
      All-map (IsCounted defs) (IsCounted (def ∷ defs)) (λ d counted. (ground arith, ground arith))
          defs (all-IsCounted defs),
    )

is_missing-is_given :
    (def : ParameterDefinition) (value : Option PropertyValue)
    → (not def.has_default || is_given value) ≡ true
    → is_missing def value ≡ not (is_given value)
is_missing-is_given def none h = ground arith
is_missing-is_given def (some v) h = refl

module _ (defs : List ParameterDefinition) (assignments : List ParameterAssignment) where
  abbrev assigned : Properties
  assigned = assign_values defs assignments (default_values defs)

  is_given-provided :
      (name : Bytes)
      → is_defined name defs ≡ true
      → is_given (get_property name assigned) ≡ is_provided defs assignments name
  is_given-provided name h =
      ap is_given (assign_values-defined defs assignments (default_values defs) name h)
      ∙ (last_assigned-is_given name assignments (get_property name (default_values defs))
          ∙ ap (λ (b : Bool). is_assigned name assignments || b)
              (AreDefaults-is_given defs _ (default_values defs) (default_values-AreDefaults defs)
                name))

  is_missing-provided :
      (def : ParameterDefinition)
      → IsCounted defs def
      → is_missing def (get_property def.name assigned)
        ≡ not (is_provided defs assignments def.name)
  is_missing-provided def (known, offered) =
      let given = is_given-provided def.name known in
      is_missing-is_given def (get_property def.name assigned) (rw given (ground arith))
      ∙ ap not given

  provided_iff :
      All (λ def. is_missing def (get_property def.name assigned) ≡ false) defs
      ↔ All (λ def. is_provided defs assignments def.name ≡ true) defs
  provided_iff = (
    λ h.
        All-zip (IsCounted defs) (λ def. is_missing def (get_property def.name assigned) ≡ false)
          (λ def. is_provided defs assignments def.name ≡ true)
          (λ def counted m. ground (arith, is_missing-provided def counted)) defs
          (all-IsCounted defs) h,
    λ h.
        All-zip (IsCounted defs) (λ def. is_provided defs assignments def.name ≡ true)
          (λ def. is_missing def (get_property def.name assigned) ≡ false)
          (λ def counted p. ground (arith, is_missing-provided def counted)) defs
          (all-IsCounted defs) h,
  )

-- Every parameter that is defined stands for the value of the last assignment to it, and for its
-- default where there is none. The defaults are a table, of which some are resolved. A resolved one
-- is the number or the truth value that a definition of the name has as its default, or what a text
-- that one has is evaluated to with some of the resolved ones, if that is not the text itself. A
-- name that is not resolved is in the table if and only if one of its definitions has a default,
-- and then with such a default as it is: a text that evaluates to itself with all that are resolved.
-- No error is reported if and only if every assignment is to a defined parameter and every
-- parameter has an assignment or a default.
pub apply_parameter_assignments_lem :
    (defs : List ParameterDefinition) (assignments : List ParameterAssignment)
    → let (values, errors) = apply_parameter_assignments defs assignments in
      ((resolved : Properties) × (defaults : Properties) × AreDefaults defs resolved defaults
        × ((name : Bytes)
            → is_defined name defs ≡ true
            → get_property name values
              ≡ last_assigned name assignments (get_property name defaults)))
      × ((errors ≡ []) ↔ (
          All (λ a. is_defined a.name defs ≡ true) assignments
          × All (λ def. is_provided defs assignments def.name ≡ true) defs))
unfolding apply_parameter_assignments
apply_parameter_assignments_lem defs assignments =
    let values = assign_values defs assignments (default_values defs) in
    let unknown = unknown_parameters defs assignments in
    let both = append_empty_iff unknown (missing_parameters defs values) in
    let first = unknown_parameters_iff defs assignments in
    let second = missing_parameters_iff defs values in
    let third = provided_iff defs assignments in
    (
      (
        (resolve_defaults defs).values,
        default_values defs,
        default_values-AreDefaults defs,
        λ name h. assign_values-defined defs assignments (default_values defs) name h,
      ),
      (
        λ h. (first.0 (both.0 h).0, third.0 (second.0 (both.0 h).1)),
        λ h. both.1 (first.1 h.0, second.1 (third.1 h.1)),
      ),
    )
