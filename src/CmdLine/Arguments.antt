-- ===== src/CmdLine/Arguments.antt =====
-- What the loop over the arguments does on each kind of item.
use mathlib.Core.Option.{none-ne-some}
use systemrdl_toolkit.Base.{
  Bool, true, false, List, [], ◌∷◌, ◌++◌, Bytes, codes, Option, none, some, eq_bytes, eq_bytes_iff,
  if◌then◌else◌, ◌≡◌, refl, sym, ap, ◌∙◌, arith, Bool-cases, inl, inr,
}
use systemrdl_toolkit.CmdLine.{
  CmdOption, CmdLineParser, split_at_equals, starts_with_dash, kept, taken, use_option, Round,
  go_on, skip_next, positional, parse_option, parse_argument, parse_arguments, find_option,
}
use systemrdl_toolkit.CmdLine.Table.{
  Option_map, IsName, split_at_equals-append, AllPlain, setting, update, find_option-update,
  assign-update, as_used, use_first-update, use_first-input,
}
use systemrdl_toolkit.CmdLine.Items.{separate, takes_value, kind, IsWord, Fits}

same_kind :
    (b : Bool) (g : CmdOption → Bytes) (o : Option CmdOption)
    → Option_map takes_value (Option_map (λ o. if b then setting g o else o) o)
      ≡ Option_map takes_value o
same_kind b g none = refl
same_kind true g (some o) = refl
same_kind false g (some o) = refl

pub kind-update :
    (name m : Bytes) (g : CmdOption → Bytes) (opts : List CmdOption)
    → kind m (update name g opts) ≡ kind m opts
kind-update name m g opts =
    rw find_option-update (same_kind (eq_bytes name m) g (find_option m opts))

pub go_on-next :
    (p q : CmdLineParser) (arg : Bytes) (rest : List Bytes)
    → ((next : Option Bytes) → parse_argument p arg next ≡ go_on q)
    → parse_arguments p (arg ∷ rest) ≡ parse_arguments q rest
unfolding parse_arguments
go_on-next p q arg [] h = rw (parse_arguments, h none) refl
go_on-next p q arg (next ∷ rest) h = rw (parse_arguments, h (some next)) refl

skip_next-behind :
    (p q : CmdLineParser) (arg v : Bytes) (rest : List Bytes)
    → parse_argument p arg (some v) ≡ skip_next q
    → parse_arguments p (arg ∷ (v ∷ rest)) ≡ parse_arguments q rest
unfolding parse_arguments
skip_next-behind p q arg v rest h = rw (parse_arguments, h) refl

-- the table of a parser with an option given
abbrev pub given : Bytes → (CmdOption → Bytes) → CmdLineParser → CmdLineParser
given name g p = record p { options = update name g p.options }

differs :
    (s t : Bytes) {x : Bytes × Bytes}
    → split_at_equals s ≡ some x
    → split_at_equals t ≡ none
    → eq_bytes s t ≡ false
differs s t h none_there = elim (Bool-cases (eq_bytes s t)) [
  | inl e ↦
      absurd
        (none-ne-some _ (sym none_there ∙ (ap split_at_equals (sym ((eq_bytes_iff s t).0 e)) ∙ h)))
  | inr e ↦ e
]

pub parse_argument-assigned :
    (p : CmdLineParser) (name v : Bytes) (next : Option Bytes) (o : CmdOption)
    → AllPlain p.options
    → IsName name
    → find_option name p.options ≡ some o
    → parse_argument p (codes "--" ++ (name ++ b'=' ∷ v)) next ≡ go_on (given name (λ o. v) p)
unfolding parse_argument parse_option split_at_equals eq_bytes
parse_argument-assigned p name v next o plain is_name found =
    let cut = split_at_equals-append name v is_name in
    rw
      (
        differs (name ++ b'=' ∷ v) (codes "help") cut refl,
        differs (name ++ b'=' ∷ v) (codes "version") cut refl,
        parse_option,
        cut,
        assign-update name v p.options o plain found,
      )
      refl

-- behind an argument that may have taken the next one
abbrev pub after : Bool → CmdLineParser → Round
after true p = skip_next p
after false p = go_on p

pub parse_argument-word :
    (p : CmdLineParser) (name : Bytes) (next : Option Bytes) (b : Bool) (g : CmdOption → Bytes)
    (o : CmdOption)
    → AllPlain p.options
    → IsWord name
    → find_option name p.options ≡ some o
    → use_option next o ≡ as_used b (setting g o)
    → parse_argument p (codes "--" ++ name) next ≡ after b (given name g p)
unfolding parse_argument parse_option split_at_equals eq_bytes
parse_argument-word p name next true g o plain (is_name, no_help, no_version) found used =
    rw
      (
        no_help,
        no_version,
        parse_option,
        is_name,
        use_first-update name next true g p.options o plain found used,
      )
      refl
parse_argument-word p name next false g o plain (is_name, no_help, no_version) found used =
    rw
      (
        no_help,
        no_version,
        parse_option,
        is_name,
        use_first-update name next false g p.options o plain found used,
      )
      refl

no_dash : (s t : Bytes) → starts_with_dash s ≡ false → eq_bytes s (b'-' ∷ t) ≡ false
unfolding eq_bytes
no_dash [] t h = refl
no_dash (c ∷ s) t h = ground arith

pub parse_argument-input :
    (p : CmdLineParser) (s : Bytes) (next : Option Bytes)
    → IsName s
    → starts_with_dash s ≡ false
    → parse_argument p s next ≡ go_on (positional s p)
unfolding parse_argument parse_option
parse_argument-input p s next is_name h =
    rw
      (
        no_dash s (codes "-help") h,
        no_dash s (codes "h") h,
        no_dash s (codes "-version") h,
        no_dash s (codes "v") h,
        parse_option,
        is_name,
        use_first-input s next p.options h,
      )
      refl

pub declared :
    (x : Option CmdOption) (k : Bool × Bool)
    → Option_map takes_value x ≡ some k
    → (o : CmdOption) × (x ≡ some o) × (takes_value o ≡ k)
declared none k h = absurd (none-ne-some k h)
declared (some o) k h = (o, refl, ground arith)

use_option-separate :
    (v : Bytes) (o : CmdOption)
    → takes_value o ≡ (true, false)
    → use_option (some v) o ≡ taken (setting (λ o. v) o)
unfolding use_option
use_option-separate v o h =
    rw (use_option, ap (λ (k : Bool × Bool). k.0) h, ap (λ (k : Bool × Bool). k.1) h) refl

use_option-optional :
    (v : Bytes) (o : CmdOption)
    → takes_value o ≡ (true, true)
    → starts_with_dash v ≡ false
    → use_option (some v) o ≡ taken (setting (λ o. v) o)
unfolding use_option
use_option-optional v o h plain =
    rw (use_option, ap (λ (k : Bool × Bool). k.0) h, ap (λ (k : Bool × Bool). k.1) h, plain) refl

pub use_option-switch :
    (next : Option Bytes) (o : CmdOption)
    → takes_value o ≡ (false, false)
    → use_option next o ≡ kept (setting (λ o. o.value) o)
unfolding use_option
use_option-switch next o h =
    rw (use_option, ap (λ (k : Bool × Bool). k.0) h, ap (λ (k : Bool × Bool). k.1) h) refl

-- an option with a value in an argument of its own
pub parse_arguments-separate :
    (kinds : Bytes → Option (Bool × Bool)) (p : CmdLineParser) (name v : Bytes) (rest : List Bytes)
    → AllPlain p.options
    → ((m : Bytes) → kind m p.options ≡ kinds m)
    → Fits kinds (separate name v)
    → parse_arguments p ((codes "--" ++ name) ∷ (v ∷ rest))
      ≡ parse_arguments (given name (λ o. v) p) rest
parse_arguments-separate kinds p name v rest plain same (is_word, takes) =
    skip_next-behind p (given name (λ o. v) p) (codes "--" ++ name) v rest (elim takes [
      | inl k ↦
          let (o, found, h) = declared (find_option name p.options) _ (same name ∙ k) in
          parse_argument-word p name (some v) true (λ o. v) o plain is_word found
            (use_option-separate v o h)
      | inr (k, no_option) ↦
          let (o, found, h) = declared (find_option name p.options) _ (same name ∙ k) in
          parse_argument-word p name (some v) true (λ o. v) o plain is_word found
            (use_option-optional v o h no_option)
    ])
