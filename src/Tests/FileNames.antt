-- ===== src/Tests/FileNames.antt =====
-- The names of files that the programs write to, and what they print.
use systemrdl_toolkit.Base.{[], codes, ◌∷◌, ◌≡◌, refl, none, to_string, eq_bytes, find_last_not_of}
use systemrdl_toolkit.Csv.Clean.{to_lower, lower_char}
use systemrdl_toolkit.Elab.Model.{node, nil, integer, addrmap, Node}
use systemrdl_toolkit.Elab.Int64.{signed_string}
use systemrdl_toolkit.Api.Json.{hex_address, rule, terminal, none_left, child, trees_text}
use systemrdl_toolkit.Programs.Printer.{
  print_model, print_node, node_line, property_lines, property_text, indentation, bit_range,
  dimensions, print_ast, rule_lines, print_aligned, lines_of, aligned_lines,
}
use systemrdl_toolkit.Programs.{
  find_last_of, get_default_ast_filename, get_file_extension, without_extension, rdl_output,
  find_in, template_purpose, rendered_output,
}

-- the extension goes where there is a folder, and stays where there is none
in_a_folder : get_default_ast_filename (codes "doc/chip.rdl") (codes "_ast") ≡ codes "chip_ast.json"
unfolding get_default_ast_filename find_last_of find_last_not_of
in_a_folder = refl

without_folder :
    get_default_ast_filename (codes "chip.rdl") (codes "_ast") ≡ codes "chip.rdl_ast.json"
unfolding get_default_ast_filename find_last_of find_last_not_of
without_folder = refl

-- the last dot is looked for in the folders too
dotted_folder : rdl_output (codes "v1.2/chip") [] ≡ codes "v1.rdl"
unfolding rdl_output without_extension find_last_of find_last_not_of
dotted_folder = refl

upper_extension : get_file_extension (codes "chip.CSV") ≡ codes "csv"
unfolding get_file_extension find_last_of find_last_not_of to_lower lower_char
upper_extension = refl

header_name :
    rendered_output (codes "a/chip.rdl") (codes "t/test_j2_header.h.j2") [] ≡ codes "chip_header.h"
unfolding rendered_output without_extension template_purpose find_in find_last_of find_last_not_of
header_name = refl

abbrev root_node : Node
root_node =
    node
      (record {
        inst_name = codes "chip";
        type_name = codes "addrmap";
        absolute_address = 16;
        size = 8;
        source_ctx = none;
        array_dimensions = 2 ∷ (3 ∷ []);
        array_indices = [];
        properties = (codes "width", integer 32) ∷ [];
      })
      addrmap nil

root_printed :
    print_model root_node
    ≡ codes
        "=== Elaborated SystemRDL Model ===\n[MAP] addrmap: chip @ 0x10 (size: 8 bytes) [array: 2x3]\n      width: 32\n"
unfolding print_model print_node node_line property_lines property_text indentation bit_range
    dimensions hex_address signed_string to_string
root_printed = refl

instance_printed :
    print_ast 1
      (rule (codes "component_inst") 1 0 1 4 (child (terminal (codes "a\nb") 1 0) none_left))
    ≡ codes "  [INST] a\n         b\n"
unfolding print_ast rule_lines print_aligned lines_of aligned_lines indentation trees_text eq_bytes
instance_printed = refl
