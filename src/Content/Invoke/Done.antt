-- ===== src/Content/Invoke/Done.antt =====
-- The event that `raiseDoneEvent` puts into the internal queue.
use uscxml.Prelude.{◌≡◌, refl, Option, none, some}
use uscxml.Messages.{Event, empty_data, new_event}
use uscxml.Content.{
  Node, Element, node_of, ContentCallbacks, Exec, Result, returns, raises, aborts, error_event,
  plain_event, other_exception, ◌>>=◌, ◌>>◌,
}
use uscxml.Content.Evaluate.{Filling, fill_with}
use uscxml.Content.Invoke.{done_data, finish_done, done_name, raise_done_event}

module _ {W M A : Type 0} (Q : M → Type 0) where
  fill_with_rule :
      (c : M) (f : A → Filling W M) (o : Result W A)
      → Q c
      → ((a : A) (s : Exec W) → Q (f a s).0)
      → Q (fill_with c f o).0
  unfolding fill_with
  fill_with_rule c f (returns a s) h k = k a s
  fill_with_rule c f (raises t s) h k = h
  fill_with_rule c f aborts h k = h

module _ {W : Type 0} (cb : ContentCallbacks W) where
  done_data-name : (d : Element) (e : Event) (s : Exec W) → (done_data cb d e s).0.name ≡ e.name
  unfolding done_data
  done_data-name d e s =
      fill_with_rule (λ (x : Event). x.name ≡ e.name) _ _ _ refl
        λ u s1.
          fill_with_rule (λ (x : Event). x.name ≡ e.name) _ _ _ refl
            λ u' s2. fill_with_rule (λ (x : Event). x.name ≡ e.name) _ _ _ refl λ content s3. refl

  -- How `raiseDoneEvent` ends: the last thing put into the internal queue is an event with the given name.
  abbrev pub Raised : Node → Result W (Unit {0}) → Type 0
  Raised n (returns u s) =
      (e : Event) × (w : W) × (s.world ≡ cb.enqueue_internal e w) × (e.name ≡ done_name cb n)
  Raised n (raises (error_event e) s) = ⊥
  Raised n (raises (plain_event e) s) = Unit
  Raised n (raises other_exception s) = Unit
  Raised n aborts = Unit

  finish_done-Raised :
      (n d : Node) (e : Event) (o : Result W (Unit {0}))
      → e.name ≡ done_name cb n
      → Raised n (finish_done cb d (e, o))
  unfolding finish_done ◌>>◌
  finish_done-Raised n d e (returns u s) h = (e, s.world, refl, h)
  finish_done-Raised n d e (raises (error_event x) s) h =
      (record e { payload = empty_data }, cb.enqueue_internal x s.world, refl, h)
  finish_done-Raised n d e (raises (plain_event x) s) h = tt
  finish_done-Raised n d e (raises other_exception s) h = tt
  finish_done-Raised n d e aborts h = tt

  -- A final state gets its done event, with the id of its parent, as the last one in the internal queue, also
  -- where an `ErrorEvent` comes of its <donedata>; no `ErrorEvent` is thrown.
  pub raise_done_event-Raised :
      (n : Node) (d : Option Element) (s : Exec W) → Raised n (raise_done_event cb n d s)
  unfolding raise_done_event ◌>>=◌
  raise_done_event-Raised n none s = (_, _, refl, refl)
  raise_done_event-Raised n (some d) s =
      let (id, w) = cb.new_uuid s.world in
      let e = record (new_event id) { name = done_name cb n } in
      let filled = done_data cb d e (record s { world = w }) in
      finish_done-Raised n (node_of d) filled.0 filled.1
        (done_data-name d e (record s { world = w }))
