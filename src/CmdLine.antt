-- ===== src/CmdLine.antt =====
-- `CmdLineParser` of cmdline_parser.h: the table of options, the arguments of a call, and the texts
-- that are printed. The loop over the arguments takes one or two of them in each round.
pub mod Table
pub mod Items
pub mod Arguments
pub mod RoundTrip
use systemrdl_toolkit.Base.{
  ℕ, ◌==◌, Bool, true, false, not, ◌&&◌, ◌||◌, List, [], ◌∷◌, ◌++◌, Bytes, codes, Option, none,
  some, eq_bytes, is_empty, if◌then◌else◌,
}

-- the private `Option` of the class
pub record CmdOption : Type 0 where
  pub short_opt : Bytes
  pub long_opt : Bytes
  pub help : Bytes
  pub has_value : Bool
  pub has_optional_value : Bool
  pub default_value : Bytes
  pub is_set : Bool
  pub value : Bytes

pub record CmdLineParser : Type 0 where
  pub description : Bytes
  pub program_name : Bytes
  pub version_string : Bytes
  pub options : List CmdOption
  pub positional_args : List Bytes

abbrev pub new_parser : Bytes → CmdLineParser
new_parser description = record {
  description = description;
  program_name = [];
  version_string = [];
  options = [];
  positional_args = [];
}

abbrev pub set_version : Bytes → CmdLineParser → CmdLineParser
set_version version p = record p { version_string = version }

abbrev pub push_option : CmdLineParser → CmdOption → CmdLineParser
push_option p opt = record p { options = p.options ++ opt ∷ [] }

abbrev pub add_option : Bytes → Bytes → Bytes → Bool → Bytes → CmdLineParser → CmdLineParser
add_option short_opt long_opt help has_value default_value p = push_option p (record {
  short_opt = short_opt;
  long_opt = long_opt;
  help = help;
  has_value = has_value;
  has_optional_value = false;
  default_value = default_value;
  is_set = false;
  value = [];
})

abbrev pub add_option_with_optional_value :
    Bytes → Bytes → Bytes → Bytes → CmdLineParser → CmdLineParser
add_option_with_optional_value short_opt long_opt help default_value p = push_option p (record {
  short_opt = short_opt;
  long_opt = long_opt;
  help = help;
  has_value = true;
  has_optional_value = true;
  default_value = default_value;
  is_set = false;
  value = [];
})

-- the text in front of the first `=` and the text behind it
unfoldable pub split_at_equals : Bytes → Option (Bytes × Bytes)
split_at_equals [] = none
split_at_equals (c ∷ s) =
    let rest = split_at_equals s in
    if c == b'='
    then some ([], s)
    else elim rest [ none ↦ none | some (before, behind) ↦ some (c ∷ before, behind) ]

unfoldable pub is_named : Bytes → CmdOption → Bool
unfolding eq_bytes
is_named arg opt =
    eq_bytes arg (codes "--" ++ opt.long_opt) || eq_bytes arg (codes "-" ++ opt.short_opt)

abbrev pub starts_with_dash : Bytes → Bool
starts_with_dash [] = false
starts_with_dash (c ∷ s) = c == b'-'

-- what becomes of an option, or of the table: a value is missing, or the option is set, without or
-- with the next argument
pub data Used (A : Type 0) : Type 0 where
  not_found : Used A
  missing kept taken : A → Used A

-- `--option=value`: the first option of that name
unfoldable pub assign : Bytes → Bytes → List CmdOption → Option (List CmdOption)
unfolding is_named
assign option_part option_value [] = none
assign option_part option_value (opt ∷ opts) =
    let rest = assign option_part option_value opts in
    if is_named option_part opt
    then some (record opt { is_set = true; value = option_value } ∷ opts)
    else elim rest [ none ↦ none | some changed ↦ some (opt ∷ changed) ]

unfoldable pub use_option : Option Bytes → CmdOption → Used CmdOption
use_option next opt =
    if opt.has_value && not opt.has_optional_value
    then elim next [
      | none ↦ missing (record opt { is_set = true })
      | some v ↦ taken (record opt { is_set = true; value = v })
    ]
    else if opt.has_optional_value
    then elim next [
      | none ↦ kept (record opt { is_set = true; value = opt.default_value })
      | some v ↦
          if not (starts_with_dash v)
          then taken (record opt { is_set = true; value = v })
          else kept (record opt { is_set = true; value = opt.default_value })
    ]
    else kept (record opt { is_set = true })

abbrev pub in_table : (CmdOption → List CmdOption) → Used CmdOption → Used (List CmdOption)
in_table place not_found = not_found
in_table place (missing opt) = missing (place opt)
in_table place (kept opt) = kept (place opt)
in_table place (taken opt) = taken (place opt)

abbrev pub behind : CmdOption → Used (List CmdOption) → Used (List CmdOption)
behind opt not_found = not_found
behind opt (missing opts) = missing (opt ∷ opts)
behind opt (kept opts) = kept (opt ∷ opts)
behind opt (taken opts) = taken (opt ∷ opts)

-- the first option of the name that the argument is
unfoldable pub use_first : Bytes → Option Bytes → List CmdOption → Used (List CmdOption)
unfolding is_named use_option
use_first arg next [] = not_found
use_first arg next (opt ∷ opts) =
    let rest = use_first arg next opts in
    if is_named arg opt then in_table (λ o. o ∷ opts) (use_option next opt) else behind opt rest

-- the name behind the last slash of either kind
unfoldable pub base_name : Bytes → Bytes → Bytes
base_name found [] = found
base_name found (c ∷ s) = if c == b'/' || c == b'\\' then base_name s s else base_name found s

abbrev pub option_line : CmdOption → Bytes
option_line opt =
    (if is_empty opt.short_opt
      then codes "      --" ++ opt.long_opt
      else codes "  -" ++ (opt.short_opt ++ (codes ", --" ++ opt.long_opt)))
    ++ ((if opt.has_value && not opt.has_optional_value
          then codes " <value>"
          else if opt.has_optional_value
          then codes "[=<value>]"
          else [])
        ++ (codes "\t"
            ++ (opt.help
                ++ ((if is_empty opt.default_value
                      then []
                      else codes " (default: " ++ (opt.default_value ++ codes ")"))
                    ++ codes "\n"))))

unfoldable pub option_lines : List CmdOption → Bytes
option_lines [] = []
option_lines (opt ∷ opts) = option_line opt ++ option_lines opts

unfoldable pub help_text : CmdLineParser → Bytes
unfolding base_name option_lines
help_text p =
    p.description
    ++ (codes "\n\nUsage: "
        ++ (base_name p.program_name p.program_name
            ++ (codes " <input_file.rdl> [options]\n\nOptions:\n" ++ option_lines p.options)))

unfoldable pub version_text : CmdLineParser → Bytes
unfolding base_name
version_text p =
    if is_empty p.version_string
    then base_name p.program_name p.program_name ++ codes " version information not available\n"
    else p.version_string ++ codes "\n"

-- `true`, or `false` with what is written to the output and to the errors
pub data Parsed : Type 0 where
  parsed : CmdLineParser → Parsed
  stopped : CmdLineParser → Bytes → Bytes → Parsed

-- one round: it ends the loop, or goes on behind the argument or behind the next one
pub data Round : Type 0 where
  stop : Parsed → Round
  go_on skip_next : CmdLineParser → Round

abbrev pub positional : Bytes → CmdLineParser → CmdLineParser
positional arg p = record p { positional_args = p.positional_args ++ arg ∷ [] }

unfoldable pub parse_option : CmdLineParser → Bytes → Option Bytes → Round
unfolding split_at_equals assign use_first
parse_option p arg next = elim (split_at_equals arg) [
  | some (option_part, option_value) ↦ elim (assign option_part option_value p.options) [
    | some options ↦ go_on (record p { options = options })
    | none ↦ go_on (positional arg p)
  ]
  | none ↦ elim (use_first arg next p.options) [
    | not_found ↦ go_on (positional arg p)
    | missing options ↦ stop (
        stopped (record p { options = options }) []
          (codes "Error: Option " ++ (arg ++ codes " requires a value\n")))
    | kept options ↦ go_on (record p { options = options })
    | taken options ↦ skip_next (record p { options = options })
  ]
]

unfoldable pub parse_argument : CmdLineParser → Bytes → Option Bytes → Round
unfolding parse_option eq_bytes help_text version_text
parse_argument p arg next =
    if eq_bytes arg (codes "--help") || eq_bytes arg (codes "-h")
    then stop (stopped p (help_text p) [])
    else if eq_bytes arg (codes "--version") || eq_bytes arg (codes "-v")
    then stop (stopped p (version_text p) [])
    else parse_option p arg next

unfoldable pub parse_arguments : CmdLineParser → List Bytes → Parsed
unfolding parse_argument
parse_arguments p [] = parsed p
parse_arguments p (arg ∷ []) = elim (parse_argument p arg none) [
  | stop result ↦ result
  | go_on q ↦ parsed q
  | skip_next q ↦ parsed q
]
parse_arguments p (arg ∷ (next ∷ rest)) = elim (parse_argument p arg (some next)) [
  | stop result ↦ result
  | go_on q ↦ parse_arguments q (next ∷ rest)
  | skip_next q ↦ parse_arguments q rest
]

-- the first argument is the name of the program
unfoldable pub parse : Bytes → List Bytes → CmdLineParser → Parsed
unfolding parse_arguments
parse program arguments p = parse_arguments (record p { program_name = program }) arguments

-- the option that `is_set` and `get_value` find
unfoldable pub find_option : Bytes → List CmdOption → Option CmdOption
unfolding eq_bytes
find_option long_opt [] = none
find_option long_opt (opt ∷ opts) =
    let rest = find_option long_opt opts in
    if eq_bytes opt.long_opt long_opt then some opt else rest

unfoldable pub is_option_set : Bytes → CmdLineParser → Bool
unfolding find_option
is_option_set long_opt p = elim (find_option long_opt p.options) [
  | none ↦ false
  | some opt ↦ opt.is_set
]

unfoldable pub get_value : Bytes → CmdLineParser → Bytes
unfolding find_option
get_value long_opt p = elim (find_option long_opt p.options) [
  | none ↦ []
  | some opt ↦ if opt.is_set then opt.value else opt.default_value
]
