-- ===== src/Content/Invoke.antt =====
-- `invoke`, `uninvoke` and `raiseDoneEvent` of src/uscxml/interpreter/BasicContentExecutor.cpp.
pub mod Done
use uscxml.Prelude.{ℕ, ◌==◌, if◌then◌else◌, Option, none, some, [], ◌∷◌, ◌++◌, Text, codes}
use uscxml.Messages.{Data, empty_data, Event, new_event}
use uscxml.Util.Convenience.{iequals}
use uscxml.Predicates.{Dom}
use uscxml.Content.{
  Node, Element, attr?, attr_of, node_of, children_of, filter_child_elements, ContentCallbacks,
  Result, returns, raises, aborts, Action, pure, ask, modify, maybe, ◌>>=◌, ◌>>◌, caught,
  catch_error, error_event, plain_event, other_exception, rethrow_execution, throw_execution, fresh,
  verbatim_data, set_key,
}
use uscxml.Content.Evaluate.{
  element_as_evaluated_data, process_name_lists, process_params, first_content, fill, fill_with,
  Filling,
}
use uscxml.Content.Send.{value_or, content_data, generate_id}

module _ {W : Type 0} where
  -- `setUserData` under the key `invokeid`, and `getUserData`
  abbrev set_invoke_id : ℕ → Option Text → Action W (Unit {0})
  set_invoke_id h id s =
      returns tt (record s { invoke_ids = λ k. if k == h then id else s.invoke_ids k })

  abbrev get_invoke_id : ℕ → Action W Text
  get_invoke_id h s = elim (s.invoke_ids h) [ none ↦ aborts | some id ↦ returns id s ]

module _ {W : Type 0} (dom : Dom) (cb : ContentCallbacks W) where
  -- The id of an invocation, kept at its element
  unfoldable pub invoke_id : Node → Action W Text
  unfolding generate_id
  invoke_id n = do
    id ←
        maybe (attr? "id" n)
          (do
            id ← generate_id dom cb n
            maybe (attr? "idlocation" n) (pure tt)
                λ location. ask (cb.assign location (verbatim_data id) [])
            pure id)
          pure
    set_invoke_id n.handle (some id)
    pure id

  unfoldable pub invoke_element : Element → Action W (Unit {0})
  unfolding value_or content_data invoke_id process_name_lists process_params filter_child_elements
  invoke_element e = do
    let n = node_of e
    uuid ← fresh cb
    type ← value_or cb "typeexpr" "type" (codes "http://www.w3.org/TR/scxml/") n
    source ← value_or cb "srcexpr" "src" [] n
    id ←
        catch_error (rethrow_execution cb "Syntax error in invoke element idlocation" n)
          (invoke_id n)
    names ←
        catch_error (rethrow_execution cb "Syntax error in send element namelist" n)
          (fill (process_name_lists cb n))
    ps ←
        catch_error (rethrow_execution cb "Syntax error in send element param expr" n)
          (fill (process_params cb e))
    content ←
        catch_error (rethrow_execution cb "Syntax error in invoke element content" n)
          (content_data cb e)
    let auto_forward = iequals (attr_of "autoforward" n) (codes "true")
    let finalize : Option ℕ =
        elim (filter_child_elements (n.prefix ++ codes "finalize") (children_of e)) [
          | [] ↦ none
          | f ∷ fs ↦ some (node_of f).handle
        ]
    modify (cb.before_invoking n.handle id)
    ask (
        cb.invoke type source auto_forward finalize (record (new_event uuid) {
          invokeid = id;
          namelist = names;
          params = ps;
          payload = content;
        }))
    modify (cb.after_invoking n.handle id)

  unfoldable pub uninvoke_element : Node → Action W (Unit {0})
  uninvoke_element n = do
    id ← get_invoke_id n.handle
    modify (cb.before_uninvoking n.handle id)
    ask (cb.uninvoke id)
    modify (cb.after_uninvoking n.handle id)
    set_invoke_id n.handle none

module _ {W : Type 0} (cb : ContentCallbacks W) where
  -- The content of <donedata>
  unfoldable pub done_content : Element → Action W Data
  unfolding element_as_evaluated_data
  done_content d = maybe (first_content d) (pure empty_data) λ c.
      maybe (attr? "expr" (node_of c)) (element_as_evaluated_data cb c) λ x. do
        valid ← ask (cb.is_valid_expr_syntax x)
        if valid
            then element_as_evaluated_data cb c
            else throw_execution cb
                (codes "Expression '" ++ x ++ codes "' is not a legal data value") "553" (node_of c)

  -- The inner `try` block of `raiseDoneEvent`. The event keeps what was read before an exception.
  unfoldable pub done_data : Element → Event → Filling W Event
  unfolding done_content process_name_lists process_params
  done_data d e s =
      let n = node_of d in
      let (names, r) = process_name_lists cb n s in
      let e1 = record e { namelist = names } in
      fill_with e1
        (λ u s1.
          let (ps, r1) = process_params cb d s1 in
          let e2 = record e1 { params = ps } in
          fill_with e2
            (λ u' s2.
              fill_with e2 (λ content s3. (record e2 { payload = content }, returns tt s3))
                (catch_error (rethrow_execution cb "Syntax error in donedata element content" n)
                  (done_content d) s2))
            (caught (rethrow_execution cb "Syntax error in donedata element param expr" n) r1))
        (caught (rethrow_execution cb "Syntax error in donedata element namelist" n) r)

  -- The handlers around it, and the last call
  unfoldable pub finish_done : Node → Event × Result W (Unit {0}) → Result W (Unit {0})
  finish_done n (e, returns u s) = modify (cb.enqueue_internal e) s
  finish_done n (e, raises (error_event exc) s) =
      (do
        modify (cb.enqueue_internal exc)
        modify (cb.enqueue_internal (record e { payload = empty_data })))
        s
  finish_done n (e, raises (plain_event p) s) =
      raises
        (plain_event (record p {
          payload =
              set_key "caption" (verbatim_data (codes "Error in donedata element"))
                (set_key "xpath" (verbatim_data (cb.x_path_for_node n.handle)) p.payload);
        }))
        s
  finish_done n (e, raises other_exception s) = raises other_exception s
  finish_done n (e, aborts) = aborts

  abbrev pub done_name : Node → Text
  done_name n =
      codes "done.state." ++ elim (attr? "id" n) [ none ↦ cb.id_for_node n.handle | some id ↦ id ]

  unfoldable pub raise_done_event : Node → Option Element → Action W (Unit {0})
  unfolding done_data finish_done
  raise_done_event n done_element = do
    uuid ← fresh cb
    let done_event = record (new_event uuid) { name = done_name n }
    elim done_element [
      | none ↦ modify (cb.enqueue_internal done_event)
      | some d ↦ λ s. finish_done (node_of d) (done_data d done_event s)
    ]
