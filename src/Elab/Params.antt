-- ===== src/Elab/Params.antt =====
-- `apply_parameter_assignments` in elaborator.cpp: the values of the parameters of a component,
-- from their defaults and from what an instance assigns. `std::set` is a list without order that
-- matters; the errors are returned in the order in which they are reported.
pub mod Rounds
pub mod Defaults
pub mod Names
pub mod Exit
pub mod Kept
pub mod Table
pub mod Values
use systemrdl_toolkit.Base.{
  ℕ, zero, suc, Bool, true, false, not, ◌&&◌, ◌||◌, List, [], ◌∷◌, ◌++◌, Bytes, codes, eq_bytes,
  Option, none, some, ltb, if◌then◌else◌, length,
}
use systemrdl_toolkit.Elab.Model.{
  PropertyValue, text, integer, boolean, Properties, get_property, set_property, ElaborationError,
  elaboration_error,
}
use systemrdl_toolkit.Elab.ExprText.{evaluate_expression_from_string}

pub record ParameterDefinition : Type 0 where
  pub name : Bytes
  pub data_type : Bytes
  pub default_value : PropertyValue
  pub has_default : Bool
  pub is_array : Bool

pub record ParameterAssignment : Type 0 where
  pub name : Bytes
  pub value : PropertyValue

unfoldable pub contains : Bytes → List Bytes → Bool
unfolding eq_bytes
contains name [] = false
contains name (n ∷ names) = eq_bytes n name || contains name names

pub record Resolving : Type 0 where
  pub values : Properties
  pub resolved : List Bytes
  pub progress : Bool

unfoldable pub resolve_to : Bytes → PropertyValue → Resolving → Resolving
unfolding set_property
resolve_to name value st = record {
  values = set_property name value st.values;
  resolved = name ∷ st.resolved;
  progress = true;
}

-- the value is a text, and the same one
unfoldable pub is_text : Bytes → PropertyValue → Bool
unfolding eq_bytes
is_text s (text t) = eq_bytes t s
is_text s (integer n) = false
is_text s (boolean b) = false

-- a default that is no text is taken, and one that is a text once it has another value
unfoldable pub take_default : Bytes → PropertyValue → Resolving → Resolving
unfolding resolve_to is_text evaluate_expression_from_string
take_default name (text s) st =
    let value = evaluate_expression_from_string st.values s in
    if is_text s value then st else resolve_to name value st
take_default name (integer n) st = resolve_to name (integer n) st
take_default name (boolean b) st = resolve_to name (boolean b) st

-- the body of the loop over the definitions
unfoldable pub resolve_step : ParameterDefinition → Resolving → Resolving
unfolding contains take_default
resolve_step def st =
    if not def.has_default || contains def.name st.resolved
    then st
    else take_default def.name def.default_value st

unfoldable pub resolve_round : List ParameterDefinition → Resolving → Resolving
unfolding resolve_step
resolve_round [] st = st
resolve_round (def ∷ defs) st = resolve_round defs (resolve_step def st)

-- the `while` loop, with the rounds that are left: a round looks at the condition, and goes on to
-- the body where it holds; `none` is a loop that needs more of them
unfoldable pub resolve_rounds : ℕ → List ParameterDefinition → Resolving → Option Resolving
unfolding resolve_round
resolve_rounds zero defs st = none
resolve_rounds (suc rounds) defs st =
    let again = resolve_rounds rounds defs (resolve_round defs (record st { progress = false })) in
    if st.progress && ltb (length st.resolved) (length defs) then again else some st

abbrev pub unresolved : Resolving
unresolved = record { values = []; resolved = []; progress = true }

abbrev pub or_unresolved : Option Resolving → Resolving
or_unresolved none = unresolved
or_unresolved (some st) = st

-- Each time the body runs but the last, it resolves a parameter, and none is left when as many are
-- resolved as there are definitions.
unfoldable pub resolve_defaults : List ParameterDefinition → Resolving
unfolding resolve_rounds
resolve_defaults defs = or_unresolved (resolve_rounds (suc (length defs)) defs unresolved)

-- what could not be resolved keeps its default
unfoldable pub keep_defaults : List Bytes → List ParameterDefinition → Properties → Properties
unfolding contains set_property
keep_defaults resolved [] values = values
keep_defaults resolved (def ∷ defs) values = keep_defaults resolved defs (
    if def.has_default && not (contains def.name resolved)
    then set_property def.name def.default_value values
    else values)

unfoldable pub is_defined : Bytes → List ParameterDefinition → Bool
unfolding eq_bytes
is_defined name [] = false
is_defined name (def ∷ defs) = eq_bytes def.name name || is_defined name defs

unfoldable pub assign_values :
    List ParameterDefinition → List ParameterAssignment → Properties → Properties
unfolding is_defined set_property
assign_values defs [] values = values
assign_values defs (a ∷ assignments) values =
    assign_values defs assignments
      (if is_defined a.name defs then set_property a.name a.value values else values)

unfoldable pub unknown_parameters :
    List ParameterDefinition → List ParameterAssignment → List ElaborationError
unfolding is_defined elaboration_error
unknown_parameters defs [] = []
unknown_parameters defs (a ∷ assignments) =
    let rest = unknown_parameters defs assignments in
    if is_defined a.name defs
    then rest
    else elaboration_error (codes "Unknown parameter: " ++ a.name) none ∷ rest

abbrev pub is_missing : ParameterDefinition → Option PropertyValue → Bool
is_missing def none = not def.has_default
is_missing def (some value) = false

unfoldable pub missing_parameters : List ParameterDefinition → Properties → List ElaborationError
unfolding get_property elaboration_error
missing_parameters [] values = []
missing_parameters (def ∷ defs) values =
    let rest = missing_parameters defs values in
    if is_missing def (get_property def.name values)
    then elaboration_error (codes "Missing required parameter: " ++ def.name) none ∷ rest
    else rest

-- the values of the parameters, and the errors
unfoldable pub apply_parameter_assignments :
    List ParameterDefinition → List ParameterAssignment → Properties × List ElaborationError
unfolding resolve_defaults keep_defaults assign_values unknown_parameters missing_parameters
apply_parameter_assignments defs assignments =
    let st = resolve_defaults defs in
    let values = assign_values defs assignments (keep_defaults st.resolved defs st.values) in
    (values, unknown_parameters defs assignments ++ missing_parameters defs values)
