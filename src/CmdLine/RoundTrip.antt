-- ===== src/CmdLine/RoundTrip.antt =====
-- A command line is read as what it says of the options.
use systemrdl_toolkit.Base.{
  Bool, false, List, [], ◌∷◌, ◌++◌, Bytes, codes, Option, none, some, eq_bytes, if◌then◌else◌, ◌≡◌,
  refl, sym, ap, subst, ◌∙◌, All, append_assoc, append-nil,
}
use systemrdl_toolkit.CmdLine.{
  CmdOption, CmdLineParser, Parsed, positional, parse_arguments, parse, find_option,
}
use systemrdl_toolkit.CmdLine.Table.{
  Option_map, Option_map-id, AllPlain, setting, update, AllPlain-update, find_option-update,
}
use systemrdl_toolkit.CmdLine.Items.{
  Item, assigned, separate, switch, input, print_items, settle, settled, inputs, kind, Fits, Reads,
}
use systemrdl_toolkit.CmdLine.Arguments.{
  kind-update, go_on-next, given, parse_argument-assigned, parse_argument-word,
  parse_argument-input, declared, use_option-switch, parse_arguments-separate,
}

settled-option :
    (b : Bool) (g : CmdOption → Bytes) (m : Bytes) (item : Item) (items : List Item)
    (o : Option CmdOption)
    → ((o : CmdOption) → settle m item o ≡ (if b then setting g o else o))
    → Option_map (settled m items) (Option_map (λ o. if b then setting g o else o) o)
      ≡ Option_map (settled m (item ∷ items)) o
settled-option b g m item items none settles = refl
settled-option b g m item items (some o) settles =
    ap (λ (x : CmdOption). some (settled m items x)) (sym (settles o))

Reads-option :
    (p : CmdLineParser) (name : Bytes) (g : CmdOption → Bytes) (item : Item) (items : List Item)
    {result : Parsed}
    → ((m : Bytes) (o : CmdOption) → settle m item o ≡ (if eq_bytes name m then setting g o else o))
    → inputs (item ∷ items) ≡ inputs items
    → Reads (given name g p) items result
    → Reads p (item ∷ items) result
Reads-option p name g item items settles no_input (q, is_parsed, args, opts) = (
  q,
  is_parsed,
  args ∙ ap (◌++◌ p.positional_args) (sym no_input),
  λ m.
      opts m
      ∙ (ap (Option_map (settled m items)) (find_option-update name m g p.options)
          ∙ settled-option (eq_bytes name m) g m item items (find_option m p.options) (settles m)),
)

Reads-input :
    (p : CmdLineParser) (s : Bytes) (items : List Item) {result : Parsed}
    → Reads (positional s p) items result
    → Reads p (input s ∷ items) result
Reads-input p s items (q, is_parsed, args, opts) =
    (q, is_parsed, args ∙ append_assoc p.positional_args (s ∷ []) (inputs items), opts)

Kinds-update :
    (kinds : Bytes → Option (Bool × Bool)) (p : CmdLineParser) (name : Bytes)
    (g : CmdOption → Bytes)
    → ((m : Bytes) → kind m p.options ≡ kinds m)
    → (m : Bytes) → kind m (update name g p.options) ≡ kinds m
Kinds-update kinds p name g same m = kind-update name m g p.options ∙ same m

parse_arguments-Reads :
    (kinds : Bytes → Option (Bool × Bool)) (items : List Item) (p : CmdLineParser)
    → AllPlain p.options
    → ((m : Bytes) → kind m p.options ≡ kinds m)
    → All (Fits kinds) items
    → Reads p items (parse_arguments p (print_items items))
unfolding print_items parse_arguments
parse_arguments-Reads kinds [] p plain same fits = (
  p,
  refl,
  sym (append-nil p.positional_args),
  λ name. Option_map-id (find_option name p.options),
)
parse_arguments-Reads kinds (assigned name v ∷ items) p plain same ((is_name, (k, h)), fits) =
    let (o, found, _) = declared (find_option name p.options) k (same name ∙ h) in
    Reads-option p name (λ o. v) (assigned name v) items (λ m o. refl) refl
      (subst (Reads (given name (λ o. v) p) items)
        (sym (
          go_on-next p (given name (λ o. v) p) (codes "--" ++ (name ++ b'=' ∷ v))
            (print_items items)
            λ next. parse_argument-assigned p name v next o plain is_name found))
        (parse_arguments-Reads kinds items (given name (λ o. v) p)
          (AllPlain-update name (λ o. v) p.options plain) (Kinds-update kinds p name (λ o. v) same)
          fits))
parse_arguments-Reads kinds (separate name v ∷ items) p plain same (fit, fits) =
    Reads-option p name (λ o. v) (separate name v) items (λ m o. refl) refl
      (subst (Reads (given name (λ o. v) p) items)
        (sym (parse_arguments-separate kinds p name v (print_items items) plain same fit))
        (parse_arguments-Reads kinds items (given name (λ o. v) p)
          (AllPlain-update name (λ o. v) p.options plain) (Kinds-update kinds p name (λ o. v) same)
          fits))
parse_arguments-Reads kinds (switch name ∷ items) p plain same ((is_word, h), fits) =
    let (o, found, is_switch) = declared (find_option name p.options) _ (same name ∙ h) in
    Reads-option p name (λ o. o.value) (switch name) items (λ m o. refl) refl
      (subst (Reads (given name (λ o. o.value) p) items)
        (sym (
          go_on-next p (given name (λ o. o.value) p) (codes "--" ++ name) (print_items items)
            λ next.
              parse_argument-word p name next false (λ o. o.value) o plain is_word found
                (use_option-switch next o is_switch)))
        (parse_arguments-Reads kinds items (given name (λ o. o.value) p)
          (AllPlain-update name (λ o. o.value) p.options plain)
          (Kinds-update kinds p name (λ o. o.value) same) fits))
parse_arguments-Reads kinds (input s ∷ items) p plain same ((is_name, no_option), fits) =
    Reads-input p s items (
      subst (Reads (positional s p) items)
        (sym (
          go_on-next p (positional s p) s (print_items items)
            λ next. parse_argument-input p s next is_name no_option))
        (parse_arguments-Reads kinds items (positional s p) plain same fits))

-- Let no short option begin with a dash, and let a command line be made of options by their long
-- names, with a value behind `=` or, where the option takes one, in an argument of its own, or
-- without one where it takes none, and of inputs that neither begin with a dash nor hold a `=`.
-- Then the command line is read without an error, the inputs are the positional arguments in their
-- order, and each option is as the command line says: declared as before, given if it is named, and
-- with the last of its values.
pub parse-print_items :
    (program : Bytes) (p : CmdLineParser) (items : List Item)
    → AllPlain p.options
    → All (Fits (λ name. kind name p.options)) items
    → Reads p items (parse program (print_items items) p)
unfolding parse
parse-print_items program p items plain fits =
    parse_arguments-Reads (λ name. kind name p.options) items (record p { program_name = program })
      plain (λ m. refl) fits
