-- ===== src/Content/Process/Nested.antt =====
-- Elements within elements: what `process` of src/uscxml/interpreter/BasicContentExecutor.cpp keeps and throws.
use uscxml.Prelude.{◌≡◌, Bool, true, false, ◌||◌, Text, String, codes}
use uscxml.Messages.{Event}
use uscxml.Predicates.{Dom}
use uscxml.Content.{
  Node, Element, element, node_of, attr_of, Children, childless, child, text, other, Thrown,
  error_event, plain_event, other_exception, Result, returns, raises, aborts, caught, catch_error,
  ContentCallbacks, Exec, Action, throw, ◌>>◌,
}
use uscxml.Content.Process.{report, process, process_all, process_if, has_tag}
use uscxml.Content.Process.Laws.{dispatch-Meets}
use uscxml.Content.Meets.{
  After, Meets, Meets-bind, Meets-then, Meets-ask, Meets-if, Meets-catch, Meets-pure, Meets-modify,
}
use uscxml.Content.Respects.{Reports}

module _ {W A : Type 0} where
  weaken-After :
      (P : W → Type 0) (E F : Thrown → W → Type 0) (o : Result W A)
      → ((t : Thrown) (w : W) → F t w → E t w)
      → After P F o
      → After P E o
  weaken-After P E F (returns a s) k h = h
  weaken-After P E F (raises t s) k h = k t s.world h
  weaken-After P E F aborts k h = h

-- No <finalize> in the tree
abbrev mutual
  pub Ordinary : Element → Type 0
  Ordinary (element n cs) = (has_tag n.prefix (codes "finalize") n ≡ false) × Ordinaries cs

  pub Ordinaries : Children → Type 0
  Ordinaries childless = Unit
  Ordinaries (child e cs) = Ordinary e × Ordinaries cs
  Ordinaries (text t cs) = Ordinaries cs
  Ordinaries (other cs) = Ordinaries cs

module _ {W : Type 0} {cb : ContentCallbacks W} {P : W → Type 0} {E F : Thrown → W → Type 0}
    (r : Reports cb P E F) where
  weaken : {m : Action W (Unit {0})} → Meets P F m → Meets P E m
  weaken {m} h = record { at = λ s p. weaken-After P E F (m s) r.within (h.at s p) }

  surfaced-After :
      (h : Event → Action W (Unit {0})) (o : Result W (Unit {0}))
      → After P E o
      → ((e : Event) (s : Exec W) → E (error_event e) s.world → After P F (h e s))
      → After P F (caught h o)
  surfaced-After h (returns a s) x g = x
  surfaced-After h (raises (error_event e) s) x g = g e s x
  surfaced-After h (raises (plain_event e) s) x g = r.passed e s.world x
  surfaced-After h (raises other_exception s) x g = r.passed_other s.world x
  surfaced-After h aborts x g = x

  surfaced-Meets :
      (h : Event → Action W (Unit {0})) (m : Action W (Unit {0}))
      → Meets P E m
      → ((e : Event) (s : Exec W) → E (error_event e) s.world → After P F (h e s))
      → Meets P F (catch_error h m)
  unfolding catch_error
  surfaced-Meets h m k g = record { at = λ s p. surfaced-After h (m s) (k.at s p) g }

  report-After :
      (dom : Dom) (n : Node) (e : Event) (s : Exec W)
      → E (error_event e) s.world
      → After P F (report dom cb n e s)
  unfolding report ◌>>◌
  report-After dom n e s x = r.reported e n.handle s.world x

  slice-Meets :
      (m : Action W (Unit {0}))
      → Meets P F m
      → Meets P F (catch_error (λ e. throw (plain_event e)) m)
  unfolding throw
  slice-Meets m h = Meets-catch _ m h λ e s x. r.sliced e s.world x

  mutual
    unfolding process

    pub process-Meets : (dom : Dom) (e : Element) → Ordinary e → Meets P F (process dom cb e)
    process-Meets dom (element n cs) o =
        let body = process_all-Meets dom cs o.1 in
        let c = r.respects.calls in
        let guarded =
          surfaced-Meets (report dom cb n) _
            (Meets-then _ _ (Meets-modify _ (c.before_kept n.handle)) (
              dispatch-Meets r.respects dom (element n cs) _ _ (weaken body) (
                Meets-bind _ _ (Meets-ask _ (c.is_true_kept (attr_of "cond" n)))
                  (process_if-Meets dom n.prefix cs o.1))))
            (report-After dom n) in
        let is = λ (name : String). has_tag n.prefix (codes name) n in
        Meets-if (is "onentry" || is "onexit" || is "transition") _ _ (slice-Meets _ body)
          (rw o.0 (Meets-then _ _ guarded (Meets-modify _ (c.after_kept n.handle))))

    pub process_all-Meets :
        (dom : Dom) (cs : Children) → Ordinaries cs → Meets P F (process_all dom cb cs)
    process_all-Meets dom childless o = Meets-pure tt
    process_all-Meets dom (text t cs) o = process_all-Meets dom cs o
    process_all-Meets dom (other cs) o = process_all-Meets dom cs o
    process_all-Meets dom (child e cs) o =
        Meets-then _ _ (process-Meets dom e o.0) (process_all-Meets dom cs o.1)

    process_if-Meets :
        (dom : Dom) (prefix : Text) (cs : Children)
        → Ordinaries cs
        → (b : Bool) → Meets P E (process_if dom cb prefix cs b)
    process_if-Meets dom prefix childless o b = Meets-pure tt
    process_if-Meets dom prefix (text t cs) o b = process_if-Meets dom prefix cs o b
    process_if-Meets dom prefix (other cs) o b = process_if-Meets dom prefix cs o b
    process_if-Meets dom prefix (child e cs) o b =
        let rest = process_if-Meets dom prefix cs o.1 in
        let holds = r.respects.calls.is_true_kept (attr_of "cond" (node_of e)) in
        Meets-if (has_tag prefix (codes "elseif") (node_of e)) _ _
          (Meets-if b _ _ (Meets-pure tt) (Meets-bind _ _ (Meets-ask _ holds) rest))
          (Meets-if (has_tag prefix (codes "else") (node_of e)) _ _
            (Meets-if b _ _ (Meets-pure tt) (rest true))
            (Meets-then _ _ (Meets-if b _ _ (weaken (process-Meets dom e o.0)) (Meets-pure tt))
              (rest b)))
