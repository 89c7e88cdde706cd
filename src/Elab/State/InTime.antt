-- ===== src/Elab/State/InTime.antt =====
-- Methods that are given enough nesting.
use systemrdl_toolkit.Base.{
  Bool, true, false, List, [], Bytes, Option, none, some, ◌≡◌, refl, Option-cases, inl, inr,
}
use systemrdl_toolkit.Elab.Model.{Properties, ElaborationError, Position}
use systemrdl_toolkit.Elab.State.{
  ElaboratorState, Outcome, done, thrown, too_deep, Elaborator, and_then, ◌>>=◌, return, or_throw,
  evaluating, on_option, report, report_error, report_if, set_parameters, clear_parameter_context,
}

-- the nesting is enough
abbrev pub InTime : {A : Type 0} → Outcome A → Type 0
InTime (done a st) = Unit
InTime thrown = Unit
InTime too_deep = ⊥

pub record Timely {A : Type 0} (m : Elaborator A) : Type 0 where
  pub in_time : (st : ElaboratorState) → InTime (m st)

and_then-InTime :
    {A B : Type 0} (o : Outcome A) (f : A → Elaborator B)
    → InTime o
    → ((a : A) → Timely (f a))
    → InTime (and_then o f)
and_then-InTime (done a st) f h k = (k a).in_time st
and_then-InTime thrown f h k = tt
and_then-InTime too_deep f h k = h

or_throw-InTime : {A : Type 0} (o : Option A) (st : ElaboratorState) → InTime (or_throw o st)
or_throw-InTime none st = tt
or_throw-InTime (some a) st = tt

pub Timely-bind :
    {A B : Type 0} {m : Elaborator A} {f : A → Elaborator B}
    → Timely m
    → ((a : A) → Timely (f a))
    → Timely (m >>= f)
unfolding ◌>>=◌
Timely-bind {m = m} {f = f} h k = record {
  in_time = λ st. and_then-InTime (m st) f (h.in_time st) k;
}

pub Timely-return : {A : Type 0} (a : A) → Timely (return a)
unfolding return
Timely-return a = record { in_time = λ st. tt }

pub Timely-evaluating : {A : Type 0} (f : Properties → Option A) → Timely (evaluating f)
unfolding evaluating
Timely-evaluating f = record { in_time = λ st. or_throw-InTime (f st.current_parameter_values) st }

pub Timely-on_option :
    {A B : Type 0} (o : Option A) {m : Elaborator B} {f : A → Elaborator B}
    → Timely m
    → ((a : A) → Timely (f a))
    → Timely (on_option o m f)
unfolding on_option
Timely-on_option none h k = h
Timely-on_option (some a) h k = k a

pub Timely-found :
    {A B : Type 0} (o : Option A) {m : Elaborator B} {f : A → Elaborator B}
    → Timely m
    → ((a : A) → o ≡ some a → Timely (f a))
    → Timely (on_option o m f)
unfolding on_option
Timely-found none h k = h
Timely-found (some a) h k = k a refl

pub Timely-report : (es : List ElaborationError) → Timely (report es)
unfolding report
Timely-report es = record { in_time = λ st. tt }

pub Timely-report_error : (s : Bytes) (p : Option Position) → Timely (report_error s p)
unfolding report_error
Timely-report_error s p = Timely-report _

pub Timely-report_if : (b : Bool) (s : Bytes) (p : Option Position) → Timely (report_if b s p)
unfolding report_if
Timely-report_if true s p = Timely-report_error s p
Timely-report_if false s p = Timely-return tt

pub Timely-set_parameters : (ps : Properties) → Timely (set_parameters ps)
unfolding set_parameters
Timely-set_parameters ps = record { in_time = λ st. tt }

pub Timely-clear : Timely clear_parameter_context
unfolding clear_parameter_context
Timely-clear = Timely-set_parameters []

pub ruleset timely = (
  Timely-bind, Timely-return, Timely-evaluating, Timely-on_option, Timely-report,
  Timely-report_error, Timely-report_if, Timely-set_parameters, Timely-clear,
)

-- a chain that begins with an expression, in the state that it is evaluated in
pub evaluating-InTime :
    {A B : Type 0} (f : Properties → Option A) (g : A → Elaborator B) (st : ElaboratorState)
    → ((a : A) → f st.current_parameter_values ≡ some a → InTime (g a st))
    → InTime ((evaluating f >>= g) st)
unfolding ◌>>=◌ evaluating
evaluating-InTime f g st k = elim (Option-cases (f st.current_parameter_values)) [
  | inl e ↦ rw e tt
  | inr (a, e) ↦ rw e (k a e)
]
