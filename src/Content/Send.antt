-- ===== src/Content/Send.antt =====
-- `processSend` of src/uscxml/interpreter/BasicContentExecutor.cpp, and `NumAttr` of
-- src/uscxml/util/Convenience.cpp, which reads its delay.
use uscxml.Prelude.{
  ℕ, ◌+◌, ◌-◌, ◌*◌, ◌^◌, Bool, true, false, not, ◌&&◌, ◌||◌, ◌==◌, ltb, leb, if◌then◌else◌, none,
  some, [], ◌∷◌, ◌++◌, Text, String, codes,
}
use uscxml.Messages.{Data, empty_data, get_atom, is_empty, Event, EventType, new_event}
use uscxml.Util.Convenience.{iequals}
use uscxml.Predicates.{Dom, get_parent_state}
use uscxml.Content.{
  Node, Element, attr?, node_of, ContentCallbacks, Action, pure, throw, abort, ask, gets, maybe,
  ◌>>=◌, ◌>>◌, catch_error, error_event, rethrow_execution, fresh, verbatim_data, set_key,
}
use uscxml.Content.Evaluate.{
  element_as_evaluated_data, process_name_lists, process_params, first_content, fill,
}

abbrev is_numeral : ℕ → Bool
is_numeral c = c == 46 || leb 48 c && leb c 57

abbrev is_blank : ℕ → Bool
is_blank c = c == 32 || c == 9

abbrev drop_while : (ℕ → Bool) → Text → Text
drop_while p [] = []
drop_while p (c ∷ t) = let rest = drop_while p t in if p c then rest else c ∷ t

-- The text up to the last character that `p` holds of, this one included, and the text behind it
abbrev split_last : (ℕ → Bool) → Text → Text × Text
split_last p [] = ([], [])
split_last p (c ∷ t) =
    let (v, r) = split_last p t in
    if not (is_empty v) then (c ∷ v, r) else if p c then (c ∷ [], t) else ([], c ∷ t)

abbrev drop_last : Text → Text
drop_last [] = []
drop_last (c ∷ []) = []
drop_last (c ∷ d ∷ t) = c ∷ drop_last (d ∷ t)

-- `NumAttr::NumAttr`: the value and the unit
unfoldable pub num_attr : Text → Text × Text
num_attr str =
    let (value, tail) = split_last is_numeral (drop_while (λ c. not (is_numeral c)) str) in
    let unit = drop_while is_blank tail in
    let (head, last) = split_last is_blank unit in
    if is_empty value then ([], []) else (value, if is_empty head then unit else drop_last head)

-- `strTo<uint32_t>`: the number that the leading digits make, no larger than the largest one
abbrev read_digits : ℕ → Text → ℕ
read_digits n [] = n
read_digits n (c ∷ t) =
    let rest = read_digits (n * 10 + (c - 48)) t in if leb 48 c && leb c 57 then rest else n

unfoldable pub to_uint32 : Text → ℕ
to_uint32 t = let n = read_digits 0 t in if ltb n (2 ^ 32) then n else 2 ^ 32 - 1

module _ {W : Type 0} (cb : ContentCallbacks W) where
  -- The value of the first attribute as an expression, else the second attribute, else the default
  unfoldable pub value_or : String → String → Text → Node → Action W Text
  value_or expr name default n =
      maybe (attr? expr n) (maybe (attr? name n) (pure default) pure)
        λ x. do d ← ask (cb.eval_as_data x); pure (get_atom d)

  -- The delay in milliseconds. An unknown unit is logged, and counts as no delay.
  unfoldable pub delay_of : Text → ℕ
  unfolding num_attr to_uint32
  delay_of delay =
      let (value, unit) = num_attr delay in
      if is_empty delay
      then 0
      else if iequals unit (codes "ms")
      then to_uint32 value
      else if iequals unit (codes "s")
      then cb.seconds_to_ms value
      else if is_empty unit
      then to_uint32 value
      else 0

  -- The first <content> child, evaluated
  unfoldable pub content_data : Element → Action W Data
  unfolding element_as_evaluated_data
  content_data e = maybe (first_content e) (pure empty_data) (element_as_evaluated_data cb)

module _ {W : Type 0} (dom : Dom) (cb : ContentCallbacks W) where
  -- `ATTR(getParentState(element), kXMLCharId) + "." + UUID::getUUID()`
  unfoldable pub generate_id : Node → Action W Text
  unfolding get_parent_state
  generate_id n = maybe (get_parent_state dom n.handle) abort λ p. do
    id ← fresh cb
    pure (elim (dom.attr p (codes "id")) [ none ↦ [] | some v ↦ v ] ++ codes "." ++ id)

  -- `sendEvent.sendid` and `sendEvent.hideSendId`
  unfoldable pub send_id : Node → Action W (Text × Bool)
  unfolding generate_id
  send_id n =
      maybe (attr? "id" n)
        (do
          id ← generate_id n
          maybe (attr? "idlocation" n) (pure (id, true))
              λ location. do ask (cb.assign location (verbatim_data id) []); pure (id, false))
        λ id. pure (id, false)

  -- The handler around `checkValidSendType`
  abbrev rethrow_invalid : {A : Type 0} → Node → Text → Event → Action W A
  rethrow_invalid n id e = throw (
      error_event (record e {
        payload = set_key "xpath" (verbatim_data (cb.x_path_for_node n.handle)) e.payload;
        sendid = id;
      }))

  unfoldable pub process_send : Element → Action W (Unit {0})
  unfolding value_or delay_of content_data send_id process_name_lists process_params
  process_send e = do
    let n = node_of e
    uuid ← fresh cb
    invoke_id ← gets cb.get_invoke_id
    name ←
        catch_error (rethrow_execution cb "Syntax error in send element eventexpr" n)
          (value_or cb "eventexpr" "event" [] n)
    target ←
        catch_error (rethrow_execution cb "Syntax error in send element targetexpr" n)
          (value_or cb "targetexpr" "target" [] n)
    type ←
        catch_error (rethrow_execution cb "Syntax error in send element typeexpr" n) (
          value_or cb "typeexpr" "type" (codes "http://www.w3.org/TR/scxml/#SCXMLEventProcessor") n)
    id ← catch_error (rethrow_execution cb "Syntax error in send element idlocation" n) (send_id n)
    delay ←
        catch_error (rethrow_execution cb "Syntax error in send element delayexpr" n)
          (value_or cb "delayexpr" "delay" [] n)
    names ←
        catch_error (rethrow_execution cb "Syntax error in send element namelist" n)
          (fill (process_name_lists cb n))
    ps ←
        catch_error (rethrow_execution cb "Syntax error in send element param expr" n)
          (fill (process_params cb e))
    content ←
        catch_error (rethrow_execution cb "Syntax error in send element content" n)
          (content_data cb e)
    catch_error (rethrow_invalid n id.0) (ask (cb.check_valid_send_type type target))
    ask (
        cb.enqueue type target (delay_of cb delay) (record (new_event uuid) {
          event_type = EventType.external;
          invokeid = invoke_id;
          name = name;
          sendid = id.0;
          hide_send_id = id.1;
          namelist = names;
          params = ps;
          payload = content;
        }))
