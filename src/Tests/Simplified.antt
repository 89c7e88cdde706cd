-- ===== src/Tests/Simplified.antt =====
-- The JSON of the simplified model, with JSON values as data, and the calls on texts.
use systemrdl_toolkit.Base.{
  ℕ, Bool, true, false, [], ◌∷◌, Bytes, codes, none, some, ◌≡◌, refl, eq_bytes, ◌↔◌, if◌then◌else◌,
}
use systemrdl_toolkit.Elab.Model.{Node, node, nil, cons, NodeInfo, regfile, reg, text, get_property}
use systemrdl_toolkit.Elab.Tree.{end, elem, named_def, primary}
use systemrdl_toolkit.Elab.State.{on_option, ◌>>=◌, evaluating, return, report}
use systemrdl_toolkit.Elab.Walk.{elaborate, elaborate_root, elaborate_top}
use systemrdl_toolkit.Api.{success}
use systemrdl_toolkit.Api.Calls.Success.{Succeeds, elaborate_content_iff}
use systemrdl_toolkit.Api.Json.{
  JsonLibrary, terminal, hex_address, as_int, convert_property_to_json,
  convert_elaborated_node_to_json,
}
use systemrdl_toolkit.Api.Simplified.{
  Extraction, register_object, set_name_and_desc, set_property_member, push_strings, push_fields,
  extract_registers_simplified,
}
use systemrdl_toolkit.Api.Simplified.Listing.{
  push_all, registers_of, regfiles_of, extract_registers_simplified-listed,
}
use systemrdl_toolkit.Api.Calls.{
  ParserLibrary, ExceptionTexts, elaborate_content, report_model, dumped, joined, with_syntax,
  parse,
}
use systemrdl_toolkit.Api.Wrappers.{read, on_stream}

-- members in the order in which they are written
mutual
  data Value : Type 0 where
    nothing : Value
    an_object : Members → Value
    an_array : Values → Value
    a_string : Bytes → Value
    a_number : ℕ → Value
    a_truth : Bool → Value

  data Members : Type 0 where
    no_members : Members
    member : Bytes → Value → Members → Members

  data Values : Type 0 where
    no_values : Values
    element : Value → Values → Values

unfoldable set_member : Bytes → Value → Members → Members
unfolding eq_bytes
set_member key value no_members = member key value no_members
set_member key value (member k v more) =
    let rest = set_member key value more in
    if eq_bytes key k then member k value more else member k v rest

unfoldable set_value : Bytes → Value → Value → Value
unfolding set_member
set_value key value (an_object members) = an_object (set_member key value members)
set_value key value _ = an_object (member key value no_members)

unfoldable add_element : Value → Values → Values
add_element v no_values = element v no_values
add_element v (element w more) = element w (add_element v more)

unfoldable push_value : Value → Value → Value
unfolding add_element
push_value (an_array values) v = an_array (add_element v values)
push_value _ v = an_array (element v no_values)

abbrev no_elements : Value → Bool
no_elements (an_array no_values) = true
no_elements _ = false

-- a text for the values of these tests
abbrev shown : Value → Bytes
shown (an_object _) = codes "{}"
shown (an_array _) = codes "[]"
shown _ = codes "null"

abbrev values : JsonLibrary
values = record {
  Json = Value;
  null = nothing;
  object = an_object no_members;
  array = an_array no_values;
  string = a_string;
  integer_number = a_number;
  unsigned_number = a_number;
  truth = a_truth;
  set = set_value;
  push_back = push_value;
  is_empty_array = no_elements;
  dump = λ indent v. some (shown v);
}

abbrev info_of_block : Bytes → ℕ → NodeInfo
info_of_block name address = record {
  inst_name = name;
  type_name = name;
  absolute_address = address;
  size = 4;
  source_ctx = none;
  array_dimensions = [];
  array_indices = [];
  properties = (codes "desc", text (codes "a block")) ∷ [];
}

abbrev timer : Node
timer = node (info_of_block (codes "timer") 256) (regfile 0) (
    cons
      (node (info_of_block (codes "count") 260)
        (reg (record { register_width = 32; register_reset_hex = [] })) nil)
      nil)

abbrev nothing_yet : Extraction values
nothing_yet = record {
  registers_array = an_array no_values;
  regfiles_array = an_array no_values;
  path = codes "chip" ∷ [];
  path_abs = codes "0x0" ∷ [];
}

count_is_listed :
    registers_of values (codes "chip" ∷ []) (codes "0x0" ∷ []) timer
    ≡ an_object (
        member (codes "inst_name") (a_string (codes "count")) (
          member (codes "desc") (a_string (codes "a block")) (
            member (codes "absolute_address") (a_string (codes "0x104")) (
              member (codes "offset") (a_number 260) (
                member (codes "size") (a_number 4) (
                  member (codes "register_width") (a_number 32) (
                    member
                      (codes "path")
                      (an_array (
                        element
                          (a_string (codes "chip"))
                          (element (a_string (codes "timer")) no_values)))
                      (member
                        (codes "path_abs")
                        (an_array (
                          element
                            (a_string (codes "0x0"))
                            (element (a_string (codes "0x100")) no_values)))
                        (member (codes "fields") (an_array no_values) no_members)))))))))
      ∷ []
unfolding registers_of register_object set_name_and_desc set_property_member get_property
    push_strings push_fields as_int hex_address set_value push_value eq_bytes
    convert_property_to_json
count_is_listed = refl

extract_registers_simplified-listed_example :
    extract_registers_simplified values timer nothing_yet ≡ record nothing_yet {
      registers_array =
          push_all values
            (an_array no_values)
            (registers_of values (codes "chip" ∷ []) (codes "0x0" ∷ []) timer);
      regfiles_array =
          push_all values (an_array no_values) (regfiles_of values (codes "chip" ∷ []) timer);
    }
extract_registers_simplified-listed_example =
    extract_registers_simplified-listed values timer nothing_yet

-- a parser that reports two errors
abbrev complaints : ParserLibrary
complaints = record {
  refused = λ content. none;
  syntax_errors = λ content.
      record { line = 1; column = 8; msg = codes "no ;" }
      ∷ record { line = 12; column = 0; msg = codes "no }" }
      ∷ [];
  tree = λ content. terminal content 1 0;
  root = λ content. end;
}

complaints_are_said :
    on_stream
      (parse values complaints
        (record { elaboration_what = codes "stoll"; dump_what = codes "invalid" }))
      (read (codes "reg a"))
    ≡ some
        (codes "Error: Syntax errors found during parsing:\nline 1:8 no ;\nline 12:0 no }", false)
unfolding on_stream parse with_syntax joined
complaints_are_said = refl

-- `addrmap chip {};`, which is read without errors
abbrev chip : ParserLibrary
chip = record {
  refused = λ content. none;
  syntax_errors = λ content. [];
  tree = λ content. terminal content 1 0;
  root = λ content. elem (named_def (primary (codes "addrmap")) (codes "chip") [] end []) end;
}

abbrev what_is_said : ExceptionTexts
what_is_said = record { elaboration_what = codes "stoll"; dump_what = codes "invalid" }

elaborate_content_iff_example :
    (elaborate_content values chip what_is_said 1
        (convert_elaborated_node_to_json values)
        (codes "addrmap chip {};")
      ≡ some (success (codes "{}")))
    ↔ ((chip.refused (codes "addrmap chip {};") ≡ none)
        × (chip.syntax_errors (codes "addrmap chip {};") ≡ [])
        × Succeeds values chip what_is_said
            (convert_elaborated_node_to_json values)
            (codes "{}")
            (elaborate 1 (some (chip.root (codes "addrmap chip {};"))) []))
elaborate_content_iff_example =
    elaborate_content_iff values chip what_is_said 1 (convert_elaborated_node_to_json values)
      (codes "addrmap chip {};") (codes "{}")

chip_is_written :
    elaborate_content values chip what_is_said 1
      (convert_elaborated_node_to_json values)
      (codes "addrmap chip {};")
    ≡ some (success (codes "{}"))
unfolding elaborate_content with_syntax joined report_model dumped elaborate elaborate_root
    elaborate_top convert_elaborated_node_to_json set_value on_option ◌>>=◌ evaluating return report
chip_is_written = refl
