-- ===== src/Content/Respects.antt =====
-- What the callbacks must keep so that all executable content keeps it, and that the data of elements
-- keeps it.
use uscxml.Prelude.{
  ℕ, ◌^◌, ◌<◌, ◌≡◌, refl, true, Option, none, some, List, [], ◌∷◌, inl, inr, Text, String,
}
use uscxml.Messages.{Data, Compound, end, Event, EventType}
use uscxml.Content.{
  Node, Element, element, Thrown, error_event, plain_event, other_exception, Answer,
  ContentCallbacks, Exec, Result, returns, raises, aborts, Action, ask, throw, ◌>>=◌, catch_error,
  rethrow_execution, throw_execution, fresh, put_entry, insert_param, attr?, attr_of, node_of,
}
use uscxml.Content.Evaluate.{
  element_as_data, element_as_evaluated_data, remote_data, local_data, attempt, attempted, adopt,
  process_name_lists, fill_names, process_params, fill_params, param_data, fill, fill_with, filled,
  Filling,
}
use uscxml.Util.Strings.{tokenize}
use uscxml.Content.Meets.{After, Answers, Meets, Meets-catch, Meets-ask, meets_rules}

-- What the callbacks keep
pub record Calls {W : Type 0} (cb : ContentCallbacks W) (P : W → Type 0) (E : Thrown → W → Type 0)
    : Type 0 where
  pub cancel_kept : (id : Text) (w : W) → P w → P (cb.cancel_delayed id w)
  pub is_true_kept : (x : Text) (w : W) → P w → Answers P E (cb.is_true x w)
  pub length_kept : (x : Text) (w : W) → P w → Answers P E (cb.get_length x w)
  pub foreach_kept :
      (x y z : Text) (i : ℕ) (w : W) → i < 2 ^ 32 → P w → Answers P E (cb.set_foreach x y z i w)
  pub data_kept : (x : Text) (w : W) → P w → Answers P E (cb.eval_as_data x w)
  pub eval_kept : (x : Text) (w : W) → P w → Answers P E (cb.eval x w)
  -- what `getAsData` throws may be dropped
  pub as_data_kept : (x : Text) (w : W) → P w → Answers P (λ t v. E t v × P v) (cb.get_as_data x w)
  pub assign_kept :
      (x : Text) (d : Data) (l : List (Text × Text)) (w : W) → P w → Answers P E (cb.assign x d l w)
  pub valid_kept : (x : Text) (w : W) → P w → Answers P E (cb.is_valid_expr_syntax x w)
  pub check_kept : (x y : Text) (w : W) → P w → Answers P E (cb.check_valid_send_type x y w)
  pub enqueue_kept :
      (x y : Text) (delay : ℕ) (e : Event) (w : W)
      → delay < 2 ^ 32
      → e.event_type ≡ EventType.external
      → P w
      → Answers P E (cb.enqueue x y delay e w)
  pub before_kept : (n : ℕ) (w : W) → P w → P (cb.before_executing n w)
  pub after_kept : (n : ℕ) (w : W) → P w → P (cb.after_executing n w)
  pub log_kept : (x : Text) (d : Data) (w : W) → P w → P (cb.log x d w)
  pub create_kept : (x y : Text) (w : W) → P w → Answers P E (cb.create_executable_content x y w)
  pub enter_kept : (c n : ℕ) (w : W) → P w → Answers P E (cb.enter_element c n w)
  pub exit_kept : (c n : ℕ) (w : W) → P w → Answers P E (cb.exit_element c n w)
  pub seconds_bounded : (x : Text) → cb.seconds_to_ms x < 2 ^ 32
  pub uuid_kept : (w : W) → P w → P (cb.new_uuid w).1
  pub content_kept : (x y : Text) (w : W) → P w → Answers P E (cb.get_in_content x y w)
  pub adopt_kept : (x y : Text) (n : ℕ) (w : W) → P w → P (cb.adopt_document x y n w).1

-- What the executor adds to that: the events of <raise>, and an error that it throws, adds to, or puts into
-- the internal queue
pub record Respects {W : Type 0} (cb : ContentCallbacks W) (P : W → Type 0)
    (E : Thrown → W → Type 0) : Type 0 where
  pub calls : Calls cb P E
  pub raise_kept :
      (e : Event) (w : W) → e.event_type ≡ EventType.internal → P w → P (cb.enqueue_internal e w)
  pub thrown : (e : Event) (w : W) → e.event_type ≡ EventType.platform → P w → E (error_event e) w
  pub rethrown :
      (e : Event) (d : Data) (id : Text) (w : W)
      → E (error_event e) w
      → E (error_event (record e { payload = d; sendid = id })) w

-- What leaves an element, `F`, where `E` is what is thrown within it: an error is reported first.
pub record Reports {W : Type 0} (cb : ContentCallbacks W) (P : W → Type 0)
    (E F : Thrown → W → Type 0) : Type 0 where
  pub respects : Respects cb P E
  pub reported :
      (e : Event) (n : ℕ) (w : W)
      → E (error_event e) w
      → F (plain_event e) (cb.after_executing n (cb.enqueue_internal e w))
  pub sliced : (e : Event) (w : W) → F (error_event e) w → F (plain_event e) w
  pub passed : (e : Event) (w : W) → E (plain_event e) w → F (plain_event e) w
  pub passed_other : (w : W) → E other_exception w → F other_exception w
  pub within : (t : Thrown) (w : W) → F t w → E t w

module _ {W : Type 0} {cb : ContentCallbacks W} {P : W → Type 0} {E : Thrown → W → Type 0}
    (r : Respects cb P E) where
  pub fresh-Meets : Meets P E (fresh cb)
  fresh-Meets = record { at = λ s p. r.calls.uuid_kept s.world p }

  pub throw_execution-Meets :
      {A : Type 0} (cause : Text) (line : String) (n : Node)
      → Meets P E (throw_execution cb {A = A} cause line n)
  unfolding ◌>>=◌
  throw_execution-Meets cause line n = record {
    at = λ s p. r.thrown _ _ refl (r.calls.uuid_kept s.world p);
  }

  pub rethrow_execution-Meets :
      {A : Type 0} (caption : String) (n : Node) (m : Action W A)
      → Meets P E m
      → Meets P E (catch_error (rethrow_execution cb caption n) m)
  unfolding throw
  rethrow_execution-Meets caption n m h =
      Meets-catch (rethrow_execution cb caption n) m h λ e s x. r.rethrown e _ e.sendid s.world x

  attempted-After :
      {A : Type 0} (o : Result W A) → After P (λ t w. E t w × P w) o → After P E (attempted o)
  attempted-After (returns a s) h = h
  attempted-After (raises t s) h = h.1
  attempted-After aborts h = h

  attempt-Meets :
      {A : Type 0} (m : Action W A) → Meets P (λ t w. E t w × P w) m → Meets P E (attempt m)
  unfolding attempt
  attempt-Meets m h = record { at = λ s p. attempted-After (m s) (h.at s p) }

  data_attempt-Meets : (x : Text) → Meets P E (attempt (ask (cb.get_as_data x)))
  data_attempt-Meets x =
      attempt-Meets (ask (cb.get_as_data x)) (Meets-ask _ (r.calls.as_data_kept x))

  strict-Answers : {A : Type 0} (a : Answer W A) → Answers P (λ t w. E t w × P w) a → Answers P E a
  strict-Answers (inl t, w) h = h.0
  strict-Answers (inr a, w) h = h

  as_data-Meets : (x : Text) → Meets P E (ask (cb.get_as_data x))
  as_data-Meets x = Meets-ask _ λ w p. strict-Answers _ (r.calls.as_data_kept x w p)

  adopt-Meets : (x y : Text) (n : Node) → Meets P E (adopt cb x y n)
  unfolding adopt
  adopt-Meets x y n = record { at = λ s p. r.calls.adopt_kept x y n.handle s.world p }

  ruleset data_rules = (meets_rules, data_attempt-Meets, as_data-Meets, adopt-Meets)

  remote_data-Meets : (n : Node) (src : Text) → Meets P E (remote_data cb n src)
  unfolding remote_data
  remote_data-Meets n src = search (data_rules, r.calls.content_kept) depth 9

  local_data-Meets : (n : Node) (ts : List Text) → Meets P E (local_data cb n ts)
  unfolding local_data
  local_data-Meets n [] = search data_rules
  local_data-Meets n (t ∷ ts) = search data_rules

  pub element_as_data-Meets : (e : Element) → Meets P E (element_as_data cb e)
  unfolding element_as_data
  element_as_data-Meets (element n cs) = search (meets_rules, remote_data-Meets, local_data-Meets)

  pub element_as_evaluated_data-Meets : (e : Element) → Meets P E (element_as_evaluated_data cb e)
  unfolding element_as_evaluated_data
  element_as_evaluated_data-Meets e = search (meets_rules, element_as_data-Meets, r.calls.data_kept)

  param_data-Meets : (e : Element) → Meets P E (param_data cb e)
  unfolding param_data
  param_data-Meets e = search (meets_rules, element_as_evaluated_data-Meets, r.calls.data_kept)

  filled-After :
      {M : Type 0} (c : M) (o : Result W (Unit {0})) → After P E o → After P E (filled c o)
  filled-After c (returns u s) h = h
  filled-After c (raises t s) h = h
  filled-After c aborts h = h

  pub fill-Meets :
      {M : Type 0} (f : Filling W M)
      → ((s : Exec W) → P s.world → After P E (f s).1)
      → Meets P E (fill f)
  unfolding fill
  fill-Meets f h = record { at = λ s p. filled-After (f s).0 (f s).1 (h s p) }

  fill_with-After :
      {A M : Type 0} (c : M) (f : A → Filling W M) (o : Result W A)
      → After P E o
      → ((a : A) (s : Exec W) → P s.world → After P E (f a s).1)
      → After P E (fill_with c f o).1
  unfolding fill_with
  fill_with-After c f (returns a s) h k = k a s h
  fill_with-After c f (raises t s) h k = h
  fill_with-After c f aborts h k = h

  fill_names-After :
      (ns : List Text) (c : Compound) (s : Exec W) → P s.world → After P E (fill_names cb ns c s).1
  unfolding fill_names
  fill_names-After [] c s p = p
  fill_names-After (n ∷ ns) c s p =
      fill_with-After c _ _ ((Meets-ask _ (r.calls.data_kept n)).at s p)
        λ d s' p'. fill_names-After ns (put_entry n d c) s' p'

  pub process_name_lists-After :
      (n : Node) (s : Exec W) → P s.world → After P E (process_name_lists cb n s).1
  unfolding process_name_lists
  process_name_lists-After n s p = from (attr? "namelist" n)
    where
      from :
          (o : Option Text)
          → After P E
              ((elim o as (λ _. Filling W Compound) [
                | none ↦ λ s'. (end, returns tt s')
                | some names ↦ fill_names cb (tokenize names 32 true) end
              ])
                s).1
      from none = p
      from (some names) = fill_names-After (tokenize names 32 true) end s p

  fill_params-After :
      (es : List Element) (ps : List (Text × Data)) (s : Exec W)
      → P s.world
      → After P E (fill_params cb es ps s).1
  unfolding fill_params
  fill_params-After [] ps s p = p
  fill_params-After (e ∷ es) ps s p =
      fill_with-After ps _ _ ((param_data-Meets e).at s p)
        λ d s' p'. fill_params-After es (insert_param (attr_of "name" (node_of e)) d ps) s' p'

  pub process_params-After :
      (e : Element) (s : Exec W) → P s.world → After P E (process_params cb e s).1
  unfolding process_params
  process_params-After e s p = fill_params-After _ [] s p

  pub name_lists-Meets : (n : Node) → Meets P E (fill (process_name_lists cb n))
  name_lists-Meets n = fill-Meets _ (process_name_lists-After n)

  pub params-Meets : (e : Element) → Meets P E (fill (process_params cb e))
  params-Meets e = fill-Meets _ (process_params-After e)
