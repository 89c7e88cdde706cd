-- ===== src/Tests/Parameters.antt =====
-- Parameters whose defaults depend on one another.
use systemrdl_toolkit.Base.{
  ◌≡◌, refl, ◌↔◌, true, false, List, [], ◌∷◌, Bytes, codes, eq_bytes, some, All, arith,
}
use systemrdl_toolkit.Elab.Model.{PropertyValue, Properties, text, integer, get_property}
use systemrdl_toolkit.Elab.Params.{
  ParameterDefinition, ParameterAssignment, resolve_rounds, resolve_defaults, unresolved,
  is_defined, keep_defaults, apply_parameter_assignments,
}
use systemrdl_toolkit.Elab.Params.Rounds.{resolve_rounds-returns}
use systemrdl_toolkit.Elab.Params.Table.{AreDefaults, default_values}
use systemrdl_toolkit.Elab.Params.Values.{
  last_assigned, is_provided, apply_parameter_assignments_lem,
}

abbrev definition : Bytes → PropertyValue → ParameterDefinition
definition name value = record {
  name = name;
  data_type = codes "longint";
  default_value = value;
  has_default = true;
  is_array = false;
}

-- the total comes before the width that it is made of
abbrev definitions : List ParameterDefinition
definitions =
    definition (codes "TOTAL") (text (codes "WIDTH*2"))
    ∷ (definition (codes "WIDTH") (integer 8) ∷ [])

total_default : get_property (codes "TOTAL") (default_values definitions) ≡ some (integer 16)
unfolding resolve_defaults keep_defaults get_property eq_bytes
total_default = refl

resolve_rounds-returns_example :
    resolve_rounds 9 definitions unresolved ≡ some (resolve_defaults definitions)
resolve_rounds-returns_example = resolve_rounds-returns 9 definitions (omega arith)

abbrev wider : List ParameterAssignment
wider = record { name = codes "WIDTH"; value = integer 12 } ∷ []

apply_parameter_assignments_lem_example :
    let (values, errors) = apply_parameter_assignments definitions wider in
    ((resolved : Properties) × (defaults : Properties) × AreDefaults definitions resolved defaults
      × ((name : Bytes)
          → is_defined name definitions ≡ true
          → get_property name values ≡ last_assigned name wider (get_property name defaults)))
    × ((errors ≡ []) ↔ (
        All (λ a. is_defined a.name definitions ≡ true) wider
        × All (λ def. is_provided definitions wider def.name ≡ true) definitions))
apply_parameter_assignments_lem_example = apply_parameter_assignments_lem definitions wider
