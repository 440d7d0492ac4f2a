-- ===== src/Content/Process/Laws.antt =====
-- Whatever the callbacks keep, <send> and the other elements that `process` runs keep it.
use uscxml.Prelude.{
  ℕ, zero, suc, ◌+◌, ◌^◌, ◌%◌, ◌<◌, ◌≤◌, refl, if_rule, List, [], ◌∷◌, Text, String, arith, codes,
}
use uscxml.Messages.{Event, is_empty}
use uscxml.Predicates.{Dom}
use uscxml.Util.Convenience.{iequals}
use uscxml.Content.{Node, Element, element, Children, Thrown, ContentCallbacks, Action, throw}
use uscxml.Content.Send.{
  value_or, content_data, generate_id, send_id, process_send, delay_of, to_uint32, num_attr,
}
use uscxml.Content.Process.{
  process_raise, process_cancel, process_assign, process_log, process_script, process_foreach,
  rounds, assign_names, remember, find_or_create, process_custom, finalize_empty, dispatch,
}
use uscxml.Content.Meets.{
  Meets, Meets-bind, Meets-then, Meets-ask, Meets-if, Meets-catch, Meets-pure, Meets-modify,
  Meets-maybe, Meets-abort, Meets-gets, meets_rules,
}
use uscxml.Content.Respects.{
  Respects, fresh-Meets, throw_execution-Meets, rethrow_execution-Meets, element_as_data-Meets,
  element_as_evaluated_data-Meets, name_lists-Meets, params-Meets,
}

to_uint32-lt : (t : Text) → to_uint32 t < 2 ^ 32
unfolding to_uint32
to_uint32-lt t = ground arith

module _ {W : Type 0} {cb : ContentCallbacks W} {P : W → Type 0} {E : Thrown → W → Type 0}
    (r : Respects cb P E) where
  pub delay_of-lt : (t : Text) → delay_of cb t < 2 ^ 32
  unfolding delay_of
  delay_of-lt t =
      if_rule (λ d. d < 2 ^ 32) (is_empty t) (λ _. omega arith)
        λ _.
          if_rule (λ d. d < 2 ^ 32) (iequals (num_attr t).1 (codes "ms"))
            (λ _. to_uint32-lt (num_attr t).0)
            λ _.
              if_rule (λ d. d < 2 ^ 32) (iequals (num_attr t).1 (codes "s"))
                (λ _. r.calls.seconds_bounded _)
                λ _.
                  if_rule (λ d. d < 2 ^ 32) (is_empty (num_attr t).1)
                    (λ _. to_uint32-lt (num_attr t).0) λ _. omega arith

  pub value_or-Meets : (x y : String) (t : Text) (n : Node) → Meets P E (value_or cb x y t n)
  unfolding value_or
  value_or-Meets x y t n = search (meets_rules, r.calls.data_kept)

  pub content_data-Meets : (e : Element) → Meets P E (content_data cb e)
  unfolding content_data
  content_data-Meets e = search (meets_rules, element_as_evaluated_data-Meets r)

  pub generate_id-Meets : (dom : Dom) (n : Node) → Meets P E (generate_id dom cb n)
  unfolding generate_id
  generate_id-Meets dom n =
      Meets-maybe _ _ _ Meets-abort λ p. Meets-bind _ _ (fresh-Meets r) λ id. Meets-pure _

  send_id-Meets : (dom : Dom) (n : Node) → Meets P E (send_id dom cb n)
  unfolding send_id
  send_id-Meets dom n = search (meets_rules, generate_id-Meets, r.calls.assign_kept) depth 9

  -- The attributes and children that <send> reads, each with its handler
  ruleset read_rules = (
    rethrow_execution-Meets, value_or-Meets, send_id-Meets, name_lists-Meets, params-Meets,
    content_data-Meets,
  )

  process_send-Meets : (dom : Dom) (e : Element) → Meets P E (process_send dom cb e)
  unfolding process_send throw
  process_send-Meets dom e = Meets-bind _ _ (fresh-Meets r) λ uuid.
      Meets-bind _ _ (search meets_rules) λ invoke_id. Meets-bind _ _ (search read_rules) λ name.
        Meets-bind _ _ (search read_rules) λ target. Meets-bind _ _ (search read_rules) λ type.
          Meets-bind _ _ (search read_rules) λ id. Meets-bind _ _ (search read_rules) λ delay.
            Meets-bind _ _ (search read_rules) λ names. Meets-bind _ _ (search read_rules) λ ps.
              Meets-bind _ _ (search read_rules) λ content.
                Meets-then _ _
                  (Meets-catch _ _ (Meets-ask _ (r.calls.check_kept _ _))
                    λ exc s x. r.rethrown exc _ _ s.world x)
                  (Meets-ask _ λ w p. r.calls.enqueue_kept _ _ _ _ w (delay_of-lt delay) refl p)

  process_raise-Meets : (n : Node) → Meets P E (process_raise cb n)
  unfolding process_raise
  process_raise-Meets n = Meets-modify _ λ w p. r.raise_kept _ w refl p

  process_cancel-Meets : (n : Node) → Meets P E (process_cancel cb n)
  unfolding process_cancel
  process_cancel-Meets n =
      search (meets_rules, r.calls.data_kept, r.calls.cancel_kept, throw_execution-Meets r) depth 9

  process_assign-Meets : (e : Element) → Meets P E (process_assign cb e)
  unfolding process_assign
  process_assign-Meets e = search (meets_rules, element_as_data-Meets r, r.calls.assign_kept)

  process_log-Meets : (n : Node) → Meets P E (process_log cb n)
  unfolding process_log
  process_log-Meets n = search (meets_rules, r.calls.data_kept, r.calls.log_kept)

  process_script-Meets : (cs : Children) → Meets P E (process_script cb cs)
  unfolding process_script
  process_script-Meets cs = search (meets_rules, r.calls.eval_kept)

  rounds-Meets :
      (n i : ℕ) (f : ℕ → Action W (Unit {0}))
      → i + n ≤ 2 ^ 32
      → ((j : ℕ) → j < 2 ^ 32 → Meets P E (f j))
      → Meets P E (rounds n i f)
  unfolding rounds
  rounds-Meets zero i f b h = Meets-pure tt
  rounds-Meets (suc n) i f b h =
      Meets-then _ _ (h i (omega arith)) (rounds-Meets n (suc i) f (omega arith) h)

  process_foreach-Meets :
      (n : Node) (body : Action W (Unit {0}))
      → Meets P E body
      → Meets P E (process_foreach cb n body)
  unfolding process_foreach
  process_foreach-Meets n body h = Meets-bind _ _ (Meets-ask _ (r.calls.length_kept _)) λ l.
      rounds-Meets (l % 2 ^ 32) 0 _ (omega arith)
        λ j b. Meets-then _ _ (Meets-ask _ λ w p. r.calls.foreach_kept _ _ _ j w b p) h

  assign_names-Meets : (e : Event) (ns : List Text) → Meets P E (assign_names cb e ns)
  unfolding assign_names
  assign_names-Meets e [] = Meets-pure tt
  assign_names-Meets e (n ∷ ns) =
      Meets-then _ _ (search (meets_rules, r.calls.assign_kept)) (assign_names-Meets e ns)

  find_or_create-Meets : (n : Node) → Meets P E (find_or_create cb n)
  unfolding find_or_create remember
  find_or_create-Meets n = record {
    at = λ s.
        (Meets-maybe (s.custom_exec_content n.handle) _ _
            (Meets-bind _ _ (Meets-ask _ (r.calls.create_kept _ _)) remembered) Meets-pure).at
          s;
  }
    where
      remembered : (c : ℕ) → Meets P E (remember cb n c)
      remembered c = record { at = λ s p. p }

  process_custom-Meets :
      (n : Node) (body : Action W (Unit {0}))
      → Meets P E body
      → Meets P E (process_custom cb n body)
  unfolding process_custom
  process_custom-Meets n body h = Meets-bind _ _ (find_or_create-Meets n) λ c.
      Meets-then _ _ (Meets-ask _ (r.calls.enter_kept c n.handle)) (
        Meets-bind _ _ (Meets-gets _) λ inner.
          Meets-then _ _ (Meets-if inner _ _ h (Meets-pure tt))
            (Meets-ask _ (r.calls.exit_kept c n.handle)))

  finalize_empty-Meets : (dom : Dom) (n : Node) → Meets P E (finalize_empty dom cb n)
  unfolding finalize_empty
  finalize_empty-Meets dom n = search (meets_rules, assign_names-Meets) depth 9

  pub dispatch-Meets :
      (dom : Dom) (e : Element) (body branches : Action W (Unit {0}))
      → Meets P E body
      → Meets P E branches
      → Meets P E (dispatch dom cb e body branches)
  unfolding dispatch
  dispatch-Meets dom (element n cs) body branches h k =
      search
        (
          meets_rules, process_raise-Meets, process_send-Meets, process_cancel-Meets,
          process_assign-Meets, process_log-Meets, process_script-Meets, process_foreach-Meets,
          process_custom-Meets,
        )
        depth 20
