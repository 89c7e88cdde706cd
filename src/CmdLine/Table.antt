-- ===== src/CmdLine/Table.antt =====
-- The table of options: how an argument finds an option by its long name, and the table that is
-- left behind.
use systemrdl_toolkit.Base.{
  ◌==◌, Bool, true, false, ◌||◌, List, [], ◌∷◌, ◌++◌, Bytes, codes, Option, none, some, eq_bytes,
  eq_bytes_iff, if◌then◌else◌, ◌≡◌, refl, sym, ap, subst, arith, Bool-cases, Option-cases, inl, inr,
  All,
}
use systemrdl_toolkit.CmdLine.{
  CmdOption, split_at_equals, is_named, starts_with_dash, Used, not_found, kept, taken, assign,
  use_option, in_table, behind, use_first, find_option,
}

abbrev pub Option_map {ℓ κ} : {A : Type ℓ} {B : Type κ} → (A → B) → Option A → Option B
Option_map f none = none
Option_map f (some a) = some (f a)

-- names without `=`
abbrev pub IsName : Bytes → Type 0
IsName name = split_at_equals name ≡ none

pub split_at_equals-append :
    (name v : Bytes) → IsName name → split_at_equals (name ++ b'=' ∷ v) ≡ some (name, v)
unfolding split_at_equals
split_at_equals-append [] v h = refl
split_at_equals-append (c ∷ name) v h = elim (Bool-cases (c == b'=')) [
  | inl e ↦ absurd (ground arith)
  | inr e ↦ elim (Option-cases (split_at_equals name)) [
    | inl n ↦ rw (e, split_at_equals-append name v n) refl
    | inr ((before, rest), n) ↦ absurd (ground arith)
  ]
]

-- a short option is no long one
abbrev pub IsPlain : CmdOption → Type 0
IsPlain opt = starts_with_dash opt.short_opt ≡ false

pub eq_bytes_comm : (s t : Bytes) → eq_bytes s t ≡ eq_bytes t s
unfolding eq_bytes
eq_bytes_comm [] [] = refl
eq_bytes_comm [] (b ∷ t) = refl
eq_bytes_comm (a ∷ s) [] = refl
eq_bytes_comm (a ∷ s) (b ∷ t) = rw (eq_bytes_comm s t) (ground arith)

dash-eq_bytes :
    (name short : Bytes) → starts_with_dash short ≡ false → eq_bytes (b'-' ∷ name) short ≡ false
unfolding eq_bytes
dash-eq_bytes name [] h = refl
dash-eq_bytes name (c ∷ short) h = ground arith

or-false : (b : Bool) → (b || false) ≡ b
or-false b = ground arith

is_named-long :
    (name : Bytes) (opt : CmdOption)
    → IsPlain opt
    → is_named (codes "--" ++ name) opt ≡ eq_bytes opt.long_opt name
unfolding is_named eq_bytes
is_named-long name opt plain =
    rw (is_named, dash-eq_bytes name opt.short_opt plain, or-false)
      (eq_bytes_comm name opt.long_opt)

-- no option goes by an input
is_named-input : (s : Bytes) (opt : CmdOption) → starts_with_dash s ≡ false → is_named s opt ≡ false
unfolding is_named eq_bytes
is_named-input [] opt h = refl
is_named-input (c ∷ s) opt h = ground arith

abbrev pub AllPlain : List CmdOption → Type 0
AllPlain opts = All IsPlain opts

-- an option that is given, its value from what it was
abbrev pub setting : (CmdOption → Bytes) → CmdOption → CmdOption
setting g o = record o { is_set = true; value = g o }

-- the table with its first option of a name given
unfoldable pub update : Bytes → (CmdOption → Bytes) → List CmdOption → List CmdOption
update name g [] = []
update name g (opt ∷ opts) =
    let rest = update name g opts in
    if eq_bytes opt.long_opt name then setting g opt ∷ opts else opt ∷ rest

pub AllPlain-update :
    (name : Bytes) (g : CmdOption → Bytes) (opts : List CmdOption)
    → AllPlain opts
    → AllPlain (update name g opts)
unfolding update
AllPlain-update name g [] plain = plain
AllPlain-update name g (opt ∷ opts) (p, plain) = elim (Bool-cases (eq_bytes opt.long_opt name)) [
  | inl e ↦ rw e (p, plain)
  | inr e ↦ rw e (p, AllPlain-update name g opts plain)
]

pub Option_map-id {ℓ} : {A : Type ℓ} (o : Option A) → o ≡ Option_map (λ a. a) o
Option_map-id none = refl
Option_map-id (some a) = refl

eq_bytes-same : (a b c : Bytes) → eq_bytes a b ≡ true → eq_bytes b c ≡ eq_bytes a c
eq_bytes-same a b c h = ap (λ x. eq_bytes x c) (sym ((eq_bytes_iff a b).0 h))

pub find_option-update :
    (name m : Bytes) (g : CmdOption → Bytes) (opts : List CmdOption)
    → find_option m (update name g opts)
      ≡ Option_map (λ o. if eq_bytes name m then setting g o else o) (find_option m opts)
unfolding update find_option
find_option-update name m g [] = refl
find_option-update name m g (opt ∷ opts) = elim (Bool-cases (eq_bytes opt.long_opt name)) [
  | inl e ↦
      let same = eq_bytes-same opt.long_opt name m e in
      elim (Bool-cases (eq_bytes opt.long_opt m)) [
        | inl h ↦ rw (e, same, h) refl
        | inr h ↦ rw (e, same, h) (Option_map-id (find_option m opts))
      ]
  | inr e ↦ elim (Bool-cases (eq_bytes opt.long_opt m)) [
    | inl h ↦ rw (e, h, eq_bytes_comm name m, eq_bytes-same opt.long_opt m name h, e) refl
    | inr h ↦ rw (e, h) (find_option-update name m g opts)
  ]
]

-- the first option of a name is another one
find_option-later :
    (name : Bytes) (opt : CmdOption) (opts : List CmdOption) {o : CmdOption}
    → eq_bytes opt.long_opt name ≡ false
    → find_option name (opt ∷ opts) ≡ some o
    → find_option name opts ≡ some o
unfolding find_option
find_option-later name opt opts {o} e found =
    subst (λ (b : Bool). (if b then some opt else find_option name opts) ≡ some o) e found

pub assign-update :
    (name v : Bytes) (opts : List CmdOption) (o : CmdOption)
    → AllPlain opts
    → find_option name opts ≡ some o
    → assign (codes "--" ++ name) v opts ≡ some (update name (λ o. v) opts)
unfolding assign find_option update
assign-update name v [] o plain found = absurd (ground arith)
assign-update name v (opt ∷ opts) o (p, plain) found =
    elim (Bool-cases (eq_bytes opt.long_opt name)) [
      | inl e ↦ rw (is_named-long name opt p, e) refl
      | inr e ↦
          rw
            (
              is_named-long name opt p,
              e,
              assign-update name v opts o plain (find_option-later name opt opts e found),
            )
            refl
    ]

abbrev pub as_used : {A : Type 0} → Bool → A → Used A
as_used true a = taken a
as_used false a = kept a

in_table-as_used :
    (place : CmdOption → List CmdOption) (b : Bool) (o : CmdOption)
    → in_table place (as_used b o) ≡ as_used b (place o)
in_table-as_used place true o = refl
in_table-as_used place false o = refl

behind-as_used :
    (opt : CmdOption) (b : Bool) (opts : List CmdOption)
    → behind opt (as_used b opts) ≡ as_used b (opt ∷ opts)
behind-as_used opt true opts = refl
behind-as_used opt false opts = refl

pub use_first-update :
    (name : Bytes) (next : Option Bytes) (b : Bool) (g : CmdOption → Bytes) (opts : List CmdOption)
    (o : CmdOption)
    → AllPlain opts
    → find_option name opts ≡ some o
    → use_option next o ≡ as_used b (setting g o)
    → use_first (codes "--" ++ name) next opts ≡ as_used b (update name g opts)
unfolding use_first find_option update
use_first-update name next b g [] o plain found used = absurd (ground arith)
use_first-update name next b g (opt ∷ opts) o (p, plain) found used =
    elim (Bool-cases (eq_bytes opt.long_opt name)) [
      | inl e ↦
          let same : opt ≡ o = ground arith in
          let this : use_option next opt ≡ as_used b (setting g opt) =
            subst (λ (x : CmdOption). use_option next x ≡ as_used b (setting g x)) (sym same)
              used in
          rw (is_named-long name opt p, e, this)
            (in_table-as_used (λ o. o ∷ opts) b (setting g opt))
      | inr e ↦
          rw
            (
              is_named-long name opt p,
              e,
              use_first-update name next b g opts o plain (find_option-later name opt opts e found)
                  used,
            )
            (behind-as_used opt b (update name g opts))
    ]

-- an input is no option
pub use_first-input :
    (s : Bytes) (next : Option Bytes) (opts : List CmdOption)
    → starts_with_dash s ≡ false
    → use_first s next opts ≡ not_found
unfolding use_first
use_first-input s next [] h = refl
use_first-input s next (opt ∷ opts) h =
    rw (is_named-input s opt h, use_first-input s next opts h) refl
