-- ===== src/Elab/State/Returns.antt =====
-- What a method returns, where it returns.
use systemrdl_toolkit.Base.{Option, none, some, ◌≡◌, subst, arith}
use systemrdl_toolkit.Elab.State.{
  ElaboratorState, Outcome, done, thrown, too_deep, Elaborator, and_then, ◌>>=◌, return, on_option,
  give_up,
}

abbrev pub Ensures : {A : Type 0} → (A → Type 0) → Outcome A → Type 0
Ensures P (done a st) = P a
Ensures P thrown = Unit
Ensures P too_deep = Unit

pub record Returns {A : Type 0} (P : A → Type 0) (m : Elaborator A) : Type 0 where
  pub ensures : (st : ElaboratorState) → Ensures P (m st)

and_then-Ensures :
    {A B : Type 0} (P : A → Type 0) (Q : B → Type 0) (o : Outcome A) (f : A → Elaborator B)
    → Ensures P o
    → ((a : A) → P a → Returns Q (f a))
    → Ensures Q (and_then o f)
and_then-Ensures P Q (done a st) f h k = (k a h).ensures st
and_then-Ensures P Q thrown f h k = tt
and_then-Ensures P Q too_deep f h k = tt

any_outcome : {A : Type 0} (o : Outcome A) → Ensures (λ _. Unit {0}) o
any_outcome (done a st) = tt
any_outcome thrown = tt
any_outcome too_deep = tt

module _ {A B : Type 0} where
  pub Returns-bind :
      {P : A → Type 0} {Q : B → Type 0} {m : Elaborator A} {f : A → Elaborator B}
      → Returns P m
      → ((a : A) → P a → Returns Q (f a))
      → Returns Q (m >>= f)
  unfolding ◌>>=◌
  Returns-bind {P} {Q} {m} {f} h k = record {
    ensures = λ st. and_then-Ensures P Q (m st) f (h.ensures st) k;
  }

  -- whatever the first part returns
  pub Returns-after :
      (m : Elaborator A) {Q : B → Type 0} {f : A → Elaborator B}
      → ((a : A) → Returns Q (f a))
      → Returns Q (m >>= f)
  Returns-after m k = Returns-bind (record { ensures = λ st. any_outcome (m st) }) (λ a _. k a)

  pub Returns-on_option :
      (o : Option A) {Q : B → Type 0} {m : Elaborator B} {f : A → Elaborator B}
      → Returns Q m
      → ((a : A) → Returns Q (f a))
      → Returns Q (on_option o m f)
  unfolding on_option
  Returns-on_option none h k = h
  Returns-on_option (some a) h k = k a

weaken-Ensures :
    {A : Type 0} (P Q : A → Type 0) (o : Outcome A)
    → Ensures P o
    → ((a : A) → P a → Q a)
    → Ensures Q o
weaken-Ensures P Q (done a st) h k = k a h
weaken-Ensures P Q thrown h k = tt
weaken-Ensures P Q too_deep h k = tt

pub Returns-weaken :
    {A : Type 0} {P Q : A → Type 0} {m : Elaborator A}
    → Returns P m
    → ((a : A) → P a → Q a)
    → Returns Q m
Returns-weaken {P = P} {Q = Q} {m = m} h k = record {
  ensures = λ st. weaken-Ensures P Q (m st) (h.ensures st) k;
}

pub Returns-return : {A : Type 0} {P : A → Type 0} (a : A) → P a → Returns P (return a)
unfolding return
Returns-return a h = record { ensures = λ st. h }

pub Returns-give_up : {A : Type 0} {P : A → Type 0} → Returns P give_up
unfolding give_up
Returns-give_up = record { ensures = λ st. tt }

pub Returns-known :
    {A B : Type 0} (a : A) (o : Option A) (m : Elaborator B) (f : A → Elaborator B) {Q : B → Type 0}
    → o ≡ some a
    → Returns Q (f a)
    → Returns Q (on_option o m f)
unfolding on_option
Returns-known a none m f e h = absurd (ground arith)
Returns-known a (some b) m f {Q} e h = subst (λ c. Returns Q (f c)) (ground (arith)) h
