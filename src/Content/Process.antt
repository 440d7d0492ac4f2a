-- ===== src/Content/Process.antt =====
-- `process` of src/uscxml/interpreter/BasicContentExecutor.cpp and the elements that it runs.
pub mod Laws
pub mod Nested
pub mod Errors
pub mod Branches
use uscxml.Prelude.{
  ℕ, zero, suc, ◌%◌, ◌^◌, Bool, true, false, ◌==◌, ◌&&◌, ◌||◌, if◌then◌else◌, Option, none, some,
  List, [], ◌∷◌, ◌++◌, Text, String, codes, put,
}
use uscxml.Messages.{end, empty_data, get_atom, find_key, get_compound, Event, EventType}
use uscxml.Util.Convenience.{iequals}
use uscxml.Util.Strings.{tokenize}
use uscxml.Predicates.{Dom}
use uscxml.Content.{
  Node, Element, element, Children, childless, child, text, other, attr?, attr_of, node_of,
  has_elements, ContentCallbacks, Exec, Action, returns, pure, throw, abort, ask, gets, modify,
  maybe, ◌>>=◌, ◌>>◌, catch_error, plain_event, throw_execution,
}
use uscxml.Content.Evaluate.{element_as_data}
use uscxml.Content.Send.{process_send}

-- `iequals(TAGNAME(element), prefix + name)`
abbrev pub has_tag : Text → Text → Node → Bool
has_tag prefix name n = iequals n.tag_name (prefix ++ name)

-- The map that `processAssign` makes of the attributes
abbrev additional_attr : List (Text × Text) → List (Text × Text)
additional_attr [] = []
additional_attr ((k, v) ∷ attrs) = put k v (additional_attr attrs)

-- The value of the first child, if it is a text
abbrev first_text : Children → Text
first_text (text t cs) = t
first_text _ = []

-- `getParentNode`, of the ancestors
abbrev parent_of : List ℕ → Option ℕ
parent_of [] = none
parent_of (p ∷ ps) = some p

-- Rounds `i`, `i + 1`, … of a loop, `n` of them
unfoldable pub rounds : {W : Type 0} → ℕ → ℕ → (ℕ → Action W (Unit {0})) → Action W (Unit {0})
rounds zero i f = pure tt
rounds (suc n) i f = do f i; rounds n (suc i) f

module _ {W : Type 0} (cb : ContentCallbacks W) where
  unfoldable pub process_raise : Node → Action W (Unit {0})
  process_raise n = modify (
      cb.enqueue_internal (record {
        raw = [];
        name = attr_of "event" n;
        event_type = EventType.internal;
        origin = [];
        origintype = [];
        sendid = [];
        hide_send_id = false;
        invokeid = [];
        payload = empty_data;
        namelist = end;
        params = [];
        uuid = [];
      }))

  unfoldable pub process_cancel : Node → Action W (Unit {0})
  process_cancel n =
      maybe (attr? "sendid" n)
        (maybe (attr? "sendidexpr" n)
          (throw_execution cb (codes "Cancel element has neither sendid nor sendidexpr attribute")
            "220" n)
          λ x. do d ← ask (cb.eval_as_data x); modify (cb.cancel_delayed (get_atom d)))
        λ id. modify (cb.cancel_delayed id)

  unfoldable pub process_assign : Element → Action W (Unit {0})
  unfolding element_as_data
  process_assign e = do
    let n = node_of e
    d ← element_as_data cb e
    ask (cb.assign (attr_of "location" n) d (additional_attr n.attrs))

  unfoldable pub process_log : Node → Action W (Unit {0})
  process_log n = do
    d ← ask (cb.eval_as_data (attr_of "expr" n))
    modify (cb.log (attr_of "label" n) d)

  unfoldable pub process_script : Children → Action W (Unit {0})
  process_script cs = ask (cb.eval (first_text cs))

  -- `processForeach`, of the children's action; `iterations` has 32 bits.
  unfoldable pub process_foreach : Node → Action W (Unit {0}) → Action W (Unit {0})
  unfolding rounds
  process_foreach n body = do
    iterations ← ask (cb.get_length (attr_of "array" n))
    rounds (iterations % 2 ^ 32) 0 λ i. do
      ask (cb.set_foreach (attr_of "item" n) (attr_of "array" n) (attr_of "index" n) i)
      body

  -- The names that an empty <finalize> assigns, from the current event
  unfoldable pub assign_names : Event → List Text → Action W (Unit {0})
  unfolding find_key
  assign_names event [] = pure tt
  assign_names event (n ∷ ns) = do
    maybe (find_key n event.namelist)
        (maybe (find_key n (get_compound event.payload)) (pure tt) λ d. ask (cb.assign n d []))
        λ d. ask (cb.assign n d [])
    assign_names event ns

  -- `_customExecContent[block] = content`
  unfoldable pub remember : Node → ℕ → Action W ℕ
  remember n content s = returns content (record s {
    custom_exec_content = λ k. if k == n.handle then some content else s.custom_exec_content k;
  })

  -- `_customExecContent[block]`, created on the first use
  unfoldable pub find_or_create : Node → Action W ℕ
  unfolding remember
  find_or_create n s =
      maybe (s.custom_exec_content n.handle)
        (do
          content ← ask (cb.create_executable_content n.local_name n.namespace)
          remember n content)
        pure s

  -- Custom executable content, of the children's action
  unfoldable pub process_custom : Node → Action W (Unit {0}) → Action W (Unit {0})
  unfolding find_or_create
  process_custom n body = do
    content ← find_or_create n
    ask (cb.enter_element content n.handle)
    inner ← gets (cb.process_children content)
    if inner then body else pure tt
    ask (cb.exit_element content n.handle)

module _ {W : Type 0} (dom : Dom) (cb : ContentCallbacks W) where
  -- A <finalize> with no element in it
  unfoldable pub finalize_empty : Node → Action W (Unit {0})
  unfolding assign_names tokenize
  finalize_empty n = maybe (parent_of (dom.ancestors n.handle)) (pure tt) λ p.
      if dom.is_element p && iequals (dom.tag_name p) (n.prefix ++ codes "invoke")
      then (do
        event ← gets cb.get_current_event
        assign_names cb event
            (tokenize (elim (dom.attr p (codes "namelist")) [ none ↦ [] | some v ↦ v ]) 32 true))
      else pure tt

  -- The `try` block of `process`: the element, the action of its children, and that of its branches
  unfoldable pub dispatch :
      Element → Action W (Unit {0}) → Action W (Unit {0}) → Action W (Unit {0})
  unfolding process_raise process_cancel process_assign process_log process_script process_foreach
      process_custom process_send
  dispatch (element n cs) body branches =
      let is = λ (name : String). has_tag n.prefix (codes name) n in
      if is "raise"
      then process_raise cb n
      else if is "send"
      then process_send dom cb (element n cs)
      else if is "cancel"
      then process_cancel cb n
      else if is "if"
      then branches
      else if is "assign"
      then process_assign cb (element n cs)
      else if is "foreach"
      then process_foreach cb n body
      else if is "log"
      then process_log cb n
      else if is "script"
      then process_script cb cs
      else (do
        custom ← gets (cb.has_executable_content n.local_name n.namespace)
        if custom then process_custom cb n body else abort)

  -- The handler of `process`. What `throw e` throws has the type of `e`, an `Event`, here and in the handler of
  -- the blocks.
  unfoldable pub report : Node → Event → Action W (Unit {0})
  report n exc = do
    modify (cb.enqueue_internal exc)
    modify (cb.after_executing n.handle)
    throw (plain_event exc)

  unfoldable mutual
    unfolding dispatch report finalize_empty has_elements

    pub process : Element → Action W (Unit {0})
    process (element n cs) =
        let body = process_all cs in
        let branches = (do
          holds ← ask (cb.is_true (attr_of "cond" n))
          process_if n.prefix cs holds) in
        let is = λ (name : String). has_tag n.prefix (codes name) n in
        if is "onentry" || is "onexit" || is "transition"
        then catch_error (λ e. throw (plain_event e)) body
        else if is "finalize"
        then (if has_elements cs then body else finalize_empty n)
        else (do
          catch_error (report n)
              (do modify (cb.before_executing n.handle); dispatch (element n cs) body branches)
          modify (cb.after_executing n.handle))

    -- The children, in order
    pub process_all : Children → Action W (Unit {0})
    process_all childless = pure tt
    process_all (child e cs) = do process e; process_all cs
    process_all (text t cs) = process_all cs
    process_all (other cs) = process_all cs

    -- The loop of `processIf`
    pub process_if : Text → Children → Bool → Action W (Unit {0})
    process_if prefix childless block_is_true = pure tt
    process_if prefix (text t cs) block_is_true = process_if prefix cs block_is_true
    process_if prefix (other cs) block_is_true = process_if prefix cs block_is_true
    process_if prefix (child e cs) block_is_true =
        let here = process e in
        let rest = process_if prefix cs in
        if has_tag prefix (codes "elseif") (node_of e)
        then (if block_is_true
            then pure tt
            else (do holds ← ask (cb.is_true (attr_of "cond" (node_of e))); rest holds))
        else if has_tag prefix (codes "else") (node_of e)
        then (if block_is_true then pure tt else rest true)
        else (do (if block_is_true then here else pure tt); rest block_is_true)
