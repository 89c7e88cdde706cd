-- ===== src/Elab/State.antt =====
-- What the methods of `SystemRDLElaborator` in elaborator.cpp read and write while they walk over
-- the parse tree: the values of the parameters and the errors, in the order of the reports. A
-- method returns, ends with an exception, or needs more nesting than it is given.
pub mod Returns
pub mod InTime
use systemrdl_toolkit.Base.{Bool, true, false, List, [], ◌∷◌, ◌++◌, Bytes, Option, none, some}
use systemrdl_toolkit.Elab.Model.{Properties, ElaborationError, elaboration_error, Position}

pub record ElaboratorState : Type 0 where
  pub current_parameter_values : Properties
  pub errors : List ElaborationError

pub data Outcome (A : Type 0) : Type 0 where
  done : A → ElaboratorState → Outcome A
  thrown : Outcome A
  too_deep : Outcome A

abbrev pub Elaborator : Type 0 → Type 0
Elaborator A = ElaboratorState → Outcome A

abbrev pub and_then : {A B : Type 0} → Outcome A → (A → Elaborator B) → Outcome B
and_then (done a st) f = f a st
and_then thrown f = thrown
and_then too_deep f = too_deep

infixl 1 ◌>>=◌
unfoldable pub ◌>>=◌ : {A B : Type 0} → Elaborator A → (A → Elaborator B) → Elaborator B
m >>= f = λ st. and_then (m st) f

unfoldable pub return : {A : Type 0} → A → Elaborator A
return a = λ st. done a st

abbrev pub or_throw : {A : Type 0} → Option A → ElaboratorState → Outcome A
or_throw none st = thrown
or_throw (some a) st = done a st

-- what an expression is worth with the values that the parameters have
unfoldable pub evaluating : {A : Type 0} → (Properties → Option A) → Elaborator A
evaluating f = λ st. or_throw (f st.current_parameter_values) st

unfoldable pub on_option :
    {A B : Type 0} → Option A → Elaborator B → (A → Elaborator B) → Elaborator B
on_option none m f = m
on_option (some a) m f = f a

-- the nesting that is left does not do
unfoldable pub give_up : {A : Type 0} → Elaborator A
give_up = λ st. too_deep

-- `report_error`
unfoldable pub report : List ElaborationError → Elaborator (Unit {0})
report errors = λ st. done tt (record st { errors = st.errors ++ errors })

unfoldable pub report_error : Bytes → Option Position → Elaborator (Unit {0})
unfolding elaboration_error
report_error message position = report (elaboration_error message position ∷ [])

unfoldable pub report_if : Bool → Bytes → Option Position → Elaborator (Unit {0})
report_if true message position = report_error message position
report_if false message position = return tt

unfoldable pub set_parameters : Properties → Elaborator (Unit {0})
set_parameters values = λ st. done tt (record st { current_parameter_values = values })

-- `clear_parameter_context`
unfoldable pub clear_parameter_context : Elaborator (Unit {0})
clear_parameter_context = set_parameters []
