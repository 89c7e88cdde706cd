-- ===== src/Tests/Elaboration.antt =====
-- Descriptions, elaborated.
use systemrdl_toolkit.Base.{
  ℕ, [], ◌∷◌, codes, none, some, Bytes, Option, false, ◌≡◌, refl, eq_bytes, if◌then◌else◌, ◌<◌, ◌≤◌,
  arith, Bool-cases, inl, inr, subst, eq_bytes_iff,
}
use systemrdl_toolkit.Elab.Model.{Position, Node, Nodes, NodeInfo, node, nil, addrmap, reg, add64}
use systemrdl_toolkit.Elab.ExprText.{mul64}
use systemrdl_toolkit.Elab.ExprTree.{Expr, nop, number}
use systemrdl_toolkit.Elab.Addr.Disjoint.{Everywhere, AllFit, IsDisjoint}
use systemrdl_toolkit.Elab.Table.{find_entry}
use systemrdl_toolkit.Elab.Tree.{Inst, Body, end, elem, anon_def, named_def, explicit_inst, primary}
use systemrdl_toolkit.Elab.Definitions.{
  ComponentDefinition, Definitions, TypeTables, collect_component_definitions,
}
use systemrdl_toolkit.Elab.Definitions.Last.{
  Stands, last_named, named_definitions, collect_component_definitions-last,
}
use systemrdl_toolkit.Elab.State.{
  ElaboratorState, Outcome, done, ◌>>=◌, return, evaluating, on_option, report, report_error,
  report_if, set_parameters, clear_parameter_context, give_up,
}
use systemrdl_toolkit.Elab.State.Returns.{Ensures}
use systemrdl_toolkit.Elab.State.InTime.{InTime}
use systemrdl_toolkit.Elab.Assign.{new_info, node_kind_of}
use systemrdl_toolkit.Elab.Walk.{
  elaborate, elaborate_component_body, dimension_of, base_address, stride_of, element_info,
  array_instance, top_addrmap,
}
use systemrdl_toolkit.Elab.Walk.Keeps.{Grows, elaborate_component_body-Grows}
use systemrdl_toolkit.Elab.Walk.Arrays.{
  append_children, count, AreElements, array_instance-elements,
}
use systemrdl_toolkit.Elab.Walk.Depth.{IsRanked, Below, nesting, elaborate-InTime}
use systemrdl_toolkit.Elab.Walk.Sound.{elaborate-IsDisjoint}

abbrev literal : Bytes → Expr
literal s = nop (number s)

abbrev here : Position
here = record { line = 1; column = 0 }

abbrev plain : Bytes → Inst
plain name = record {
  name = name;
  array_suffix = [];
  range_suffix = none;
  inst_reset = none;
  addr_fixed = none;
  addr_stride = none;
  position = here;
}

-- a register with the field `value[7:0]`
abbrev status_body : Body
status_body =
    elem
      (anon_def (primary (codes "field")) end (
        record (plain (codes "value")) {
          range_suffix = some (literal (codes "7"), literal (codes "0"));
        }
        ∷ []))
      end

-- `status bank[3] @ 0x10 += 8`
abbrev bank : Inst
bank = record (plain (codes "bank")) {
  array_suffix = literal (codes "3") ∷ [];
  addr_fixed = some (literal (codes "0x10"));
  addr_stride = some (literal (codes "8"));
}

abbrev top_body : Body
top_body = elem (explicit_inst (codes "status") [] (bank ∷ []) here) end

abbrev description : Body
description =
    elem (named_def (primary (codes "reg")) (codes "status") [] status_body [])
      (elem (named_def (primary (codes "addrmap")) (codes "top") [] top_body []) end)

abbrev root_info : NodeInfo
root_info = record new_info { inst_name = codes "top"; type_name = codes "addrmap" }

abbrev empty_top : Node
empty_top = node root_info addrmap nil

abbrev started : ElaboratorState
started = record { current_parameter_values = []; errors = [] }

abbrev no_types : TypeTables
no_types = record { enums = []; structs = [] }

abbrev status : ComponentDefinition
status = record {
  name = codes "status";
  type = codes "reg";
  def_ctx = status_body;
  parameters = [];
}

abbrev definitions : Definitions
definitions =
    (codes "status", status)
    ∷ ((
      codes "top",
      record { name = codes "top"; type = codes "addrmap"; def_ctx = top_body; parameters = [] },
    )
        ∷ [])

collected : collect_component_definitions [] description [] ≡ some definitions
unfolding collect_component_definitions eq_bytes
collected = refl

collect_component_definitions-last_example :
    Stands [] none
      (last_named (codes "status") (named_definitions description))
      (find_entry (codes "status") definitions)
collect_component_definitions-last_example =
    collect_component_definitions-last [] (codes "status") description definitions collected

elaborate_component_body-Grows_example :
    Ensures
      (Grows empty_top)
      (elaborate_component_body definitions no_types 3 top_body empty_top started)
elaborate_component_body-Grows_example =
    elaborate_component_body-Grows definitions no_types 3 top_body empty_top started

three : dimension_of (literal (codes "3")) started ≡ done 3 started
unfolding dimension_of ◌>>=◌ return evaluating
three = refl

sixteen : base_address bank 0 started ≡ done 16 started
unfolding base_address on_option evaluating
sixteen = refl

eight : stride_of bank started ≡ done 8 started
unfolding stride_of on_option evaluating
eight = refl

known_register :
    node_kind_of (codes "reg")
    ≡ some (reg (record { register_width = 32; register_reset_hex = [] }))
unfolding node_kind_of
known_register = refl

array_instance-elements_example :
    Ensures
      (λ r.
        (children : Nodes) × (r.0 ≡ append_children empty_top children)
        × (count children ≡ 3)
        × AreElements (element_info (codes "reg") bank 0 16 8 3) 0 children
        × (r.1 ≡ add64 16 (mul64 3 8)))
      (array_instance
        (elaborate_component_body definitions no_types 2)
        false
        (codes "reg")
        status_body
        bank
        (literal (codes "3"))
        empty_top
        0
        started)
array_instance-elements_example =
    array_instance-elements definitions no_types 2 false (codes "reg") _ status_body bank
      (literal (codes "3")) empty_top 0 3 16 8 started known_register three sixteen eight

-- the address map instantiates the register, and so has the higher rank
abbrev rank : Bytes → ℕ
rank name = if eq_bytes name (codes "top") then 1 else 0

found_top : top_addrmap description ≡ some (codes "top", top_body)
unfolding top_addrmap
found_top = refl

status_first : rank (codes "status") < 1
unfolding eq_bytes
status_first = omega arith

abbrev IsBelow : ℕ → ComponentDefinition → Type 0
IsBelow r def = Below rank definitions r def.def_ctx × (nesting def.def_ctx ≤ 1)

status-IsBelow : (r : ℕ) → IsBelow r status
unfolding Below nesting
status-IsBelow r = ((tt, tt), omega arith)

abbrev outermost : ComponentDefinition
outermost = record {
  name = codes "top";
  type = codes "addrmap";
  def_ctx = top_body;
  parameters = [];
}

outermost-IsBelow : IsBelow (rank (codes "top")) outermost
unfolding Below nesting eq_bytes
outermost-IsBelow = ((λ def found. status_first, tt), omega arith)

ranked : IsRanked rank definitions 1
unfolding find_entry
ranked name def found = elim (Bool-cases (eq_bytes (codes "status") name)) [
  | inl s ↦
      subst (IsBelow (rank name)) {x = status} {y = def} (ground (arith))
        (status-IsBelow (rank name))
  | inr s ↦ elim (Bool-cases (eq_bytes (codes "top") name)) [
    | inl t ↦
        let named : codes "top" ≡ name = (eq_bytes_iff (codes "top") name).0 t in
        let below =
          subst (λ (n : Bytes). IsBelow (rank n) outermost) {x = codes "top"} {y = name} named
            outermost-IsBelow in
        subst (IsBelow (rank name)) {x = outermost} {y = def} (ground (arith)) below
    | inr t ↦ absurd (ground arith)
  ]
]

top_body-Below : Below rank definitions 1 top_body
unfolding eq_bytes
top_body-Below = outermost-IsBelow.0

elaborate-InTime_example : InTime (elaborate 4 (some description) [])
unfolding nesting
elaborate-InTime_example =
    elaborate-InTime rank 1 1 4 description [] definitions (codes "top") top_body collected ranked
      found_top top_body-Below (omega arith)

abbrev top_of : Outcome (Option Node) → Node
top_of (done (some top) st) = top
top_of _ = empty_top

abbrev state_of : Outcome (Option Node) → ElaboratorState
state_of (done top st) = st
state_of _ = started

abbrev result : Outcome (Option Node)
result = elaborate 3 (some description) []

returned : result ≡ done (some (top_of result)) (state_of result)
unfolding elaborate ◌>>=◌ return evaluating on_option report report_error report_if set_parameters
    clear_parameter_context give_up
returned = refl

without_errors : (state_of result).errors ≡ []
unfolding elaborate ◌>>=◌ return evaluating on_option report report_error report_if set_parameters
    clear_parameter_context give_up
without_errors = refl

fitting : Everywhere AllFit (top_of result)
unfolding elaborate ◌>>=◌ return evaluating on_option report report_error report_if set_parameters
    clear_parameter_context give_up Everywhere
fitting = ground arith

elaborate-IsDisjoint_example : Everywhere IsDisjoint (top_of result)
elaborate-IsDisjoint_example =
    elaborate-IsDisjoint 3 description [] (top_of result) (state_of result) returned without_errors
      fitting
