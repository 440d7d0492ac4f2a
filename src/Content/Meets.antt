-- ===== src/Content/Meets.antt =====
-- Pre- and postconditions of actions: `P` holds of the world before and after an action that returns,
-- `E` of what it throws and the world then. One rule for each way to build an action.
use uscxml.Prelude.{Bool, if_rule, if◌then◌else◌, Option, none, some, inl, inr}
use uscxml.Messages.{Event}
use uscxml.Content.{
  Thrown, error_event, plain_event, other_exception, Answer, Exec, Result, returns, raises, aborts,
  Action, pure, abort, ask, gets, modify, maybe, caught, catch_error, continue, ◌>>=◌, ◌>>◌,
}

module _ {W : Type 0} (P : W → Type 0) (E : Thrown → W → Type 0) where
  abbrev pub After : {A : Type 0} → Result W A → Type 0
  After (returns a s) = P s.world
  After (raises t s) = E t s.world
  After aborts = Unit

  abbrev pub Answers : {A : Type 0} → Answer W A → Type 0
  Answers (inl t, w) = E t w
  Answers (inr a, w) = P w

pub record Meets {W A : Type 0} (P : W → Type 0) (E : Thrown → W → Type 0) (m : Action W A)
    : Type 0 where
  pub at : (s : Exec W) → P s.world → After P E (m s)

module _ {W : Type 0} (P : W → Type 0) (E : Thrown → W → Type 0) where
  continue-After :
      {A B : Type 0} (f : A → Action W B) (r : Result W A)
      → After P E r
      → ((a : A) → Meets P E (f a))
      → After P E (continue f r)
  continue-After f (returns a s) h k = (k a).at s h
  continue-After f (raises t s) h k = h
  continue-After f aborts h k = h

  pub caught-After :
      {A : Type 0} (h : Event → Action W A) (r : Result W A)
      → After P E r
      → ((e : Event) (s : Exec W) → E (error_event e) s.world → After P E (h e s))
      → After P E (caught h r)
  caught-After h (returns a s) p k = p
  caught-After h (raises (error_event e) s) p k = k e s p
  caught-After h (raises (plain_event e) s) p k = p
  caught-After h (raises other_exception s) p k = p
  caught-After h aborts p k = p

  ask-After :
      {A : Type 0} (f : W → Answer W A) (s : Exec W) → Answers P E (f s.world) → After P E (ask f s)
  unfolding ask
  ask-After {A} f s = from (f s.world)
    where
      from : (r : Answer W A) → Answers P E r → After P E (ask (λ _. r) s)
      from (inl t, w) h = h
      from (inr a, w) h = h

module _ {W A B : Type 0} {P : W → Type 0} {E : Thrown → W → Type 0} where
  pub Meets-bind :
      (m : Action W A) (f : A → Action W B)
      → Meets P E m
      → ((a : A) → Meets P E (f a))
      → Meets P E (m >>= f)
  unfolding ◌>>=◌
  Meets-bind m f h k = record { at = λ s p. continue-After P E f (m s) (h.at s p) k }

  pub Meets-then :
      (m : Action W A) (n : Action W B) → Meets P E m → Meets P E n → Meets P E (m >> n)
  unfolding ◌>>◌
  Meets-then m n h k = record { at = λ s p. continue-After P E (λ _. n) (m s) (h.at s p) (λ _. k) }

module _ {W A : Type 0} {P : W → Type 0} {E : Thrown → W → Type 0} where
  pub Meets-catch :
      (h : Event → Action W A) (m : Action W A)
      → Meets P E m
      → ((e : Event) (s : Exec W) → E (error_event e) s.world → After P E (h e s))
      → Meets P E (catch_error h m)
  unfolding catch_error
  Meets-catch h m k g = record { at = λ s p. caught-After P E h (m s) (k.at s p) g }

  pub Meets-ask : (f : W → Answer W A) → ((w : W) → P w → Answers P E (f w)) → Meets P E (ask f)
  unfolding ask
  Meets-ask f h = record { at = λ s p. ask-After P E f s (h s.world p) }

  pub Meets-if :
      (b : Bool) (m n : Action W A) → Meets P E m → Meets P E n → Meets P E (if b then m else n)
  Meets-if b m n h k = if_rule (Meets P E) b (λ _. h) (λ _. k)

  pub Meets-maybe :
      {X : Type 0} (o : Option X) (m : Action W A) (f : X → Action W A)
      → Meets P E m
      → ((x : X) → Meets P E (f x))
      → Meets P E (maybe o m f)
  unfolding maybe
  Meets-maybe none m f h k = h
  Meets-maybe (some x) m f h k = k x

  pub Meets-pure : (a : A) → Meets P E (pure {W = W} a)
  unfolding pure
  Meets-pure a = record { at = λ s p. p }

  pub Meets-abort : Meets P E (abort {A = A})
  unfolding abort
  Meets-abort = record { at = λ s p. tt }

  pub Meets-gets : (f : W → A) → Meets P E (gets f)
  unfolding gets
  Meets-gets f = record { at = λ s p. p }

module _ {W : Type 0} {P : W → Type 0} {E : Thrown → W → Type 0} where
  pub Meets-modify : (f : W → W) → ((w : W) → P w → P (f w)) → Meets P E (modify f)
  unfolding modify
  Meets-modify f h = record { at = λ s p. h s.world p }

pub ruleset meets_rules = (
  Meets-bind, Meets-then, Meets-ask, Meets-if, Meets-maybe, Meets-pure, Meets-abort, Meets-gets,
  Meets-modify,
)
