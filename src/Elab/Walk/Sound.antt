-- ===== src/Elab/Walk/Sound.antt =====
-- What it means that a description is elaborated without errors.
use systemrdl_toolkit.Base.{ℕ, List, [], ◌++◌, Option, none, some, ◌≡◌, refl, ◌∙◌, sym, subst}
use systemrdl_toolkit.Elab.Model.{Node, Properties, ElaborationError}
use systemrdl_toolkit.Elab.Addr.{validate_instance_addresses}
use systemrdl_toolkit.Elab.Addr.Disjoint.{
  Everywhere, AllFit, IsDisjoint, validate_instance_addresses_iff,
}
use systemrdl_toolkit.Elab.Ranges.{append_empty_iff}
use systemrdl_toolkit.Elab.Tree.{Body}
use systemrdl_toolkit.Elab.State.{
  ElaboratorState, Outcome, done, thrown, too_deep, Elaborator, and_then, ◌>>=◌, return, on_option,
  report,
}
use systemrdl_toolkit.Elab.Walk.{top_addrmap, no_addrmap, elaborate_top, elaborate_root, elaborate}

-- the errors of the addresses are the last ones
abbrev EndsWithChecks : Outcome (Option Node) → Type 0
EndsWithChecks (done (some top) st) =
    (before : List ElaborationError) × (st.errors ≡ before ++ validate_instance_addresses top)
EndsWithChecks (done none st) = Unit
EndsWithChecks thrown = Unit
EndsWithChecks too_deep = Unit

record Checks (m : Elaborator (Option Node)) : Type 0 where
  checks : (st : ElaboratorState) → EndsWithChecks (m st)

and_then-EndsWithChecks :
    {A : Type 0} (o : Outcome A) (f : A → Elaborator (Option Node))
    → ((a : A) → Checks (f a))
    → EndsWithChecks (and_then o f)
and_then-EndsWithChecks (done a st) f h = (h a).checks st
and_then-EndsWithChecks thrown f h = tt
and_then-EndsWithChecks too_deep f h = tt

Checks-bind :
    {A : Type 0} (m : Elaborator A) {f : A → Elaborator (Option Node)}
    → ((a : A) → Checks (f a))
    → Checks (m >>= f)
unfolding ◌>>=◌
Checks-bind m {f} h = record { checks = λ st. and_then-EndsWithChecks (m st) f h }

Checks-on_option :
    {A : Type 0} (o : Option A) {m : Elaborator (Option Node)} {f : A → Elaborator (Option Node)}
    → Checks m
    → ((a : A) → Checks (f a))
    → Checks (on_option o m f)
unfolding on_option
Checks-on_option none h k = h
Checks-on_option (some a) h k = k a

Checks-none : Checks (return none)
unfolding return
Checks-none = record { checks = λ st. tt }

Checks-report :
    (top : Node) → Checks (report (validate_instance_addresses top) >>= λ _. return (some top))
unfolding ◌>>=◌ report return
Checks-report top = record { checks = λ st. (st.errors, refl) }

root-Checks : (depth : ℕ) (root : Body) → Checks (elaborate_root depth root)
unfolding elaborate_root elaborate_top no_addrmap
root-Checks depth root = Checks-bind _ λ types. Checks-bind _ λ definitions.
    Checks-on_option (top_addrmap root) (Checks-bind _ λ _. Checks-none)
      λ top. Checks-bind _ Checks-report

-- When the elaboration of a description returns an address map and no error is reported, then in
-- each container that is walked, the address map itself or a register file or address map in it,
-- every address belongs to at most one register, register file or memory, where the instances end
-- within the address space.
pub elaborate-IsDisjoint :
    (depth : ℕ) (root : Body) (left_values : Properties) (top : Node) (st : ElaboratorState)
    → elaborate depth (some root) left_values ≡ done (some top) st
    → st.errors ≡ []
    → Everywhere AllFit top
    → Everywhere IsDisjoint top
unfolding elaborate on_option
elaborate-IsDisjoint depth root left_values top st result no_errors fits =
    let (before, e) = subst EndsWithChecks result ((root-Checks depth root).checks _) in
    (validate_instance_addresses_iff top fits).0
      ((append_empty_iff before (validate_instance_addresses top)).0 (sym e ∙ no_errors)).1
