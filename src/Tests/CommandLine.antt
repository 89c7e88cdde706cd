-- ===== src/Tests/CommandLine.antt =====
-- Command lines of csv2rdl.
use systemrdl_toolkit.Base.{true, false, List, [], ◌∷◌, codes, inr, ◌≡◌, refl, eq_bytes}
use systemrdl_toolkit.CmdLine.{
  CmdLineParser, new_parser, add_option, add_option_with_optional_value, split_at_equals,
  find_option, parse, parse_arguments, parse_argument, parse_option, assign, is_named, use_first,
  use_option, get_value, is_option_set, Parsed, parsed, stopped, help_text, base_name, option_lines,
}
use systemrdl_toolkit.CmdLine.Items.{Item, input, separate, assigned, print_items, Reads}
use systemrdl_toolkit.CmdLine.RoundTrip.{parse-print_items}

abbrev converter : CmdLineParser
converter = add_option (codes "h") (codes "help") (codes "Show this help message") false [] (
    add_option_with_optional_value (codes "o") (codes "output") (codes "Output RDL file") []
      (new_parser (codes "CSV to SystemRDL Converter")))

-- `csv2rdl chip.csv --output a.rdl --output=b.rdl`
abbrev asked : List Item
asked =
    input (codes "chip.csv")
    ∷ (separate (codes "output") (codes "a.rdl") ∷ (assigned (codes "output") (codes "b.rdl") ∷ []))

parse-print_items_example :
    Reads converter asked (parse (codes "csv2rdl") (print_items asked) converter)
unfolding split_at_equals eq_bytes find_option
parse-print_items_example =
    parse-print_items (codes "csv2rdl") converter asked (refl, (refl, tt))
      ((refl, refl), (((refl, refl, refl), inr (refl, refl)), ((refl, ((true, true), refl)), tt)))

abbrev the_parser : Parsed → CmdLineParser
the_parser (parsed p) = p
the_parser (stopped p out errors) = p

-- `-o` without a name, in front of another option, and given again
last_output :
    get_value
      (codes "output")
      (the_parser (parse (codes "csv2rdl") (codes "-o" ∷ (codes "-o=b.rdl" ∷ [])) converter))
    ≡ codes "b.rdl"
unfolding get_value find_option parse parse_arguments parse_argument parse_option assign is_named
    use_first use_option eq_bytes split_at_equals
last_output = refl

help_shown :
    parse
      (codes "/bin/csv2rdl")
      (codes "a.csv" ∷ (codes "-h" ∷ []))
      (new_parser (codes "A converter"))
    ≡ stopped
        (record (new_parser (codes "A converter")) {
          program_name = codes "/bin/csv2rdl";
          positional_args = codes "a.csv" ∷ [];
        })
        (codes "A converter\n\nUsage: csv2rdl <input_file.rdl> [options]\n\nOptions:\n")
        []
unfolding parse parse_arguments parse_argument parse_option use_first eq_bytes split_at_equals
    help_text base_name option_lines
help_shown = refl

-- an option without a short name goes by a single dash
single_dash :
    is_option_set (codes "verbose") (
      the_parser (
        parse
          (codes "render")
          (codes "-" ∷ [])
          (add_option [] (codes "verbose") [] false [] (new_parser []))))
    ≡ true
unfolding is_option_set find_option parse parse_arguments parse_argument parse_option is_named
    use_first use_option eq_bytes split_at_equals
single_dash = refl
