-- ===== src/Content.antt =====
-- Executable content: src/uscxml/interpreter/BasicContentExecutor.cpp. This file has the elements that it
-- walks over, its callbacks, and the actions that it is written in; `Evaluate`, `Send`, `Process` and
-- `Invoke` have its methods. Error messages to the log are left out, and monitors do not throw.
pub mod Evaluate
pub mod Send
pub mod Process
pub mod Invoke
pub mod Meets
pub mod Respects
mod Tests
use uscxml.Prelude.{
  ℕ, Bool, true, false, if◌then◌else◌, Option, none, some, List, [], ◌∷◌, ◌++◌, ◌⊎◌, inl, inr, Text,
  codes, text_eq, text_lt, find, String,
}
use uscxml.Messages.{
  Data, mk, Compound, end, entry, nil, verbatim, interpreted, Event, EventType, empty_data,
  new_event,
}

-- What an element holds beside its children. `prefix` is that of `XML_PREFIX`, with its colon.
pub record Node : Type 0 where
  pub handle : ℕ
  pub prefix : Text
  pub tag_name : Text
  pub local_name : Text
  pub namespace : Text
  pub attrs : List (Text × Text)

-- The children of an element: elements, texts, and the nodes of other types.
mutual
  pub data Element : Type 0 where
    element : Node → Children → Element

  pub data Children : Type 0 where
    childless : Children
    child : Element → Children → Children
    text : Text → Children → Children
    other : Children → Children

abbrev pub node_of : Element → Node
node_of (element n cs) = n

abbrev pub children_of : Element → Children
children_of (element n cs) = cs

-- `HAS_ATTR`
abbrev pub attr? : String → Node → Option Text
attr? name n = find (codes name) n.attrs

-- `ATTR`: a missing attribute reads as the empty text.
abbrev pub attr_of : String → Node → Text
attr_of name n = elim (attr? name n) [ none ↦ [] | some v ↦ v ]

-- `DOMUtils::filterChildElements(tagName, element)`
unfoldable pub filter_child_elements : Text → Children → List Element
filter_child_elements t childless = []
filter_child_elements t (text s cs) = filter_child_elements t cs
filter_child_elements t (other cs) = filter_child_elements t cs
filter_child_elements t (child e cs) =
    let rest = filter_child_elements t cs in
    if text_eq (node_of e).tag_name t then e ∷ rest else rest

-- `DOMUtils::filterChildType(DOMNode::ELEMENT_NODE, element).size() > 0`
unfoldable pub has_elements : Children → Bool
has_elements childless = false
has_elements (child e cs) = true
has_elements (text s cs) = has_elements cs
has_elements (other cs) = has_elements cs

-- The values of `DOMUtils::filterChildType(DOMNode::TEXT_NODE, element)`
unfoldable pub texts_of : Children → List Text
texts_of childless = []
texts_of (child e cs) = texts_of cs
texts_of (text s cs) = s ∷ texts_of cs
texts_of (other cs) = texts_of cs

-- What is thrown: an `ErrorEvent`, an `Event` that is none, or anything else.
pub data Thrown : Type 0 where
  error_event plain_event : Event → Thrown
  other_exception : Thrown

-- What a callback gives
abbrev pub Answer : Type 0 → Type 0 → Type 0
Answer W A = (Thrown ⊎ A) × W

-- `ContentExecutorCallbacks`, and what the executor calls of the DOM, the factory and URLs. A world has
-- the type `W`.
pub record ContentCallbacks (W : Type 0) : Type 0 where
  pub enqueue_internal : Event → W → W
  pub cancel_delayed : Text → W → W
  pub is_true : Text → W → Answer W Bool
  pub get_length : Text → W → Answer W ℕ
  pub set_foreach : Text → Text → Text → ℕ → W → Answer W (Unit {0})
  pub eval_as_data : Text → W → Answer W Data
  pub eval : Text → W → Answer W (Unit {0})
  pub get_as_data : Text → W → Answer W Data
  pub assign : Text → Data → List (Text × Text) → W → Answer W (Unit {0})
  pub is_valid_expr_syntax : Text → W → Answer W Bool
  pub get_invoke_id : W → Text
  pub get_base_url : W → Text
  pub check_valid_send_type : Text → Text → W → Answer W (Unit {0})
  pub enqueue : Text → Text → ℕ → Event → W → Answer W (Unit {0})
  pub invoke : Text → Text → Bool → Option ℕ → Event → W → Answer W (Unit {0})
  pub uninvoke : Text → W → Answer W (Unit {0})
  pub get_current_event : W → Event
  -- the monitors' calls around a block, an invocation and its end
  pub before_executing : ℕ → W → W
  pub after_executing : ℕ → W → W
  pub before_invoking : ℕ → Text → W → W
  pub after_invoking : ℕ → Text → W → W
  pub before_uninvoking : ℕ → Text → W → W
  pub after_uninvoking : ℕ → Text → W → W
  -- the log at the level of <log>
  pub log : Text → Data → W → W
  -- custom executable content, by a handle
  pub has_executable_content : Text → Text → W → Bool
  pub create_executable_content : Text → Text → W → Answer W ℕ
  pub enter_element : ℕ → ℕ → W → Answer W (Unit {0})
  pub process_children : ℕ → W → Bool
  pub exit_element : ℕ → ℕ → W → Answer W (Unit {0})
  -- `UUID::getUUID`
  pub new_uuid : W → Text × W
  -- the content of a URL, made absolute with the base URL
  pub get_in_content : Text → Text → W → Answer W Text
  -- the root of the document that the parser makes of a URL, put in place of the element's children
  pub adopt_document : Text → Text → ℕ → W → Option ℕ × W
  pub x_path_for_node : ℕ → Text
  -- `strTo<double>(text) * 1000`, as a `uint32_t`
  pub seconds_to_ms : Text → ℕ
  -- `__FILE__`
  pub file : Text
  pub id_for_node : ℕ → Text

-- The world, the ids that `invoke` keeps as the user data of its elements, and `_customExecContent`
pub record Exec (W : Type 0) : Type 0 where
  pub world : W
  pub invoke_ids : ℕ → Option Text
  pub custom_exec_content : ℕ → Option ℕ

pub data Result (W A : Type 0) : Type 0 where
  returns : A → Exec W → Result W A
  raises : Thrown → Exec W → Result W A
  -- a failed `assert`, or a null pointer that is read
  aborts : Result W A

abbrev pub Action : Type 0 → Type 0 → Type 0
Action W A = Exec W → Result W A

module _ {W A : Type 0} where
  unfoldable pub pure : A → Action W A
  pure a s = returns a s

  unfoldable pub throw : Thrown → Action W A
  throw t s = raises t s

  unfoldable pub abort : Action W A
  abort s = aborts

  unfoldable pub ask : (W → Answer W A) → Action W A
  ask f s =
      let (r, w) = f s.world in
      elim r [
        | inl t ↦ raises t (record s { world = w })
        | inr a ↦ returns a (record s { world = w })
      ]

  -- `catch (ErrorEvent e)`
  abbrev pub caught : (Event → Action W A) → Result W A → Result W A
  caught h (returns a s) = returns a s
  caught h (raises (error_event e) s) = h e s
  caught h (raises (plain_event e) s) = raises (plain_event e) s
  caught h (raises other_exception s) = raises other_exception s
  caught h aborts = aborts

  -- An action for a value that may be missing: what is done without it, and with it
  unfoldable pub maybe : {X : Type 0} → Option X → Action W A → (X → Action W A) → Action W A
  maybe none m f = m
  maybe (some x) m f = f x

  unfoldable pub catch_error : (Event → Action W A) → Action W A → Action W A
  catch_error h m s = caught h (m s)

module _ {W : Type 0} where
  unfoldable pub gets : {A : Type 0} → (W → A) → Action W A
  gets f s = returns (f s.world) s

  unfoldable pub modify : (W → W) → Action W (Unit {0})
  modify f s = returns tt (record s { world = f s.world })

module _ {W A B : Type 0} where
  abbrev pub continue : (A → Action W B) → Result W A → Result W B
  continue f (returns a s) = f a s
  continue f (raises t s) = raises t s
  continue f aborts = aborts

  -- Opening this opens the other actions too.
  infixl 5 ◌>>=◌ ◌>>◌
  unfoldable pub ◌>>=◌ : Action W A → (A → Action W B) → Action W B
  unfolding pure throw abort ask gets modify maybe catch_error
  ◌>>=◌ m f s = continue f (m s)

  unfoldable pub ◌>>◌ : Action W A → Action W B → Action W B
  unfolding ◌>>=◌
  m >> k = m >>= λ _. k

-- `map[key] = d`, and `multimap.insert`
unfoldable pub put_entry : Text → Data → Compound → Compound
put_entry k d end = entry k d end
put_entry k d (entry j x c) =
    let rest = entry j x (put_entry k d c) in
    if text_eq j k then entry k d c else if text_lt k j then entry k d (entry j x c) else rest

unfoldable pub insert_param : Text → Data → List (Text × Data) → List (Text × Data)
insert_param k d [] = (k, d) ∷ []
insert_param k d ((j, x) ∷ ps) =
    let rest = (j, x) ∷ insert_param k d ps in if text_lt k j then (k, d) ∷ (j, x) ∷ ps else rest

-- `Data(text, Data::VERBATIM)` and `Data(text, Data::INTERPRETED)`
abbrev pub verbatim_data : Text → Data
verbatim_data t = mk none end nil t none verbatim

abbrev pub interpreted_data : Text → Data
interpreted_data t = mk none end nil t none interpreted

-- `compound[key] = d`
abbrev pub set_key : String → Data → Data → Data
set_key k d (mk n c a t b ty) = mk n (put_entry (codes k) d c) a t b ty

module _ {W : Type 0} (cb : ContentCallbacks W) where
  -- `ERROR_EXECUTION_RETHROW`
  abbrev pub rethrow_execution : {A : Type 0} → String → Node → Event → Action W A
  rethrow_execution caption n e = throw (
      error_event (record e {
        payload =
            set_key "caption" (verbatim_data (codes caption))
              (set_key "xpath" (verbatim_data (cb.x_path_for_node n.handle)) e.payload);
      }))

  -- the `uuid` that a constructor draws
  abbrev pub fresh : Action W Text
  fresh s = let (id, w) = cb.new_uuid s.world in returns id (record s { world = w })

  -- `ERROR_EXECUTION_THROW2`, in the given line
  abbrev pub throw_execution : {A : Type 0} → Text → String → Node → Action W A
  throw_execution cause line n = do
    id ← fresh
    throw (
        error_event (record (new_event id) {
          name = codes "error.execution";
          event_type = EventType.platform;
          payload = set_key "xpath" (verbatim_data (cb.x_path_for_node n.handle)) (
              set_key "line" (interpreted_data (codes line)) (
                set_key "file" (verbatim_data cb.file)
                  (set_key "cause" (verbatim_data cause) empty_data)));
        }))
