-- ===== src/Content/Evaluate.antt =====
-- The data of an element: `elementAsData`, `elementAsEvaluatedData`, `processNameLists` and
-- `processParams` of src/uscxml/interpreter/BasicContentExecutor.cpp.
use uscxml.Prelude.{
  ℕ, Bool, true, false, not, ◌&&◌, ◌||◌, ◌==◌, leb, if◌then◌else◌, Option, none, some, List, [],
  ◌∷◌, ◌++◌, Text, codes, text_eq,
}
use uscxml.Messages.{
  Data, mk, Compound, end, nil, verbatim, interpreted, empty_data, get_atom, is_empty,
}
use uscxml.Util.Strings.{tokenize, space_normalize}
use uscxml.Content.{
  Node, Element, element, attr?, attr_of, node_of, children_of, filter_child_elements, has_elements,
  texts_of, ContentCallbacks, Exec, Result, returns, raises, aborts, Action, pure, ask, gets, maybe,
  ◌>>=◌, put_entry, insert_param, verbatim_data, interpreted_data,
}

-- `Data::empty`
unfoldable pub is_empty_data : Data → Bool
is_empty_data (mk none end nil t none ty) = is_empty t
is_empty_data _ = false

abbrev pub is_interpreted : Data → Bool
is_interpreted (mk n c a t b interpreted) = true
is_interpreted (mk n c a t b verbatim) = false

-- `isNumeric(text, 10)`
unfoldable pub is_numeric : Text → Bool
is_numeric [] = true
is_numeric (c ∷ t) = (c == 46 || c == 45 || leb 48 c && leb c 57) && is_numeric t

-- `if (d.type == Data::VERBATIM) d.atom = spaceNormalize(d.atom)`
unfoldable pub normalize_atom : Data → Data
unfolding space_normalize
normalize_atom (mk n c a t b verbatim) = mk n c a (space_normalize t) b verbatim
normalize_atom (mk n c a t b interpreted) = mk n c a t b interpreted

-- `Data(node)`
abbrev pub node_data : ℕ → Data
node_data n = mk (some n) end nil [] none interpreted

-- The pieces that the loop over the text children writes
abbrev pub concat : List Text → Text
concat [] = []
concat (t ∷ ts) = t ++ concat ts

module _ {W A : Type 0} where
  -- `catch (...)`, with nothing but the log in the handlers
  abbrev pub attempted : Result W A → Result W (Option A)
  attempted (returns a s) = returns (some a) s
  attempted (raises t s) = returns none s
  attempted aborts = aborts

  unfoldable pub attempt : Action W A → Action W (Option A)
  attempt m s = attempted (m s)

-- What fills a map that outlives an exception: the map comes back beside the result.
abbrev pub Filling : Type 0 → Type 0 → Type 0
Filling W M = Exec W → M × Result W (Unit {0})

module _ {W M A : Type 0} where
  -- Goes on with what was evaluated, or leaves the map as it is.
  unfoldable pub fill_with : M → (A → Filling W M) → Result W A → M × Result W (Unit {0})
  fill_with c f (returns a s) = f a s
  fill_with c f (raises t s) = (c, raises t s)
  fill_with c f aborts = (c, aborts)

module _ {W M : Type 0} where
  abbrev pub filled : M → Result W (Unit {0}) → Result W M
  filled c (returns u s) = returns c s
  filled c (raises t s) = raises t s
  filled c aborts = aborts

  -- A map that is a local variable is lost with the exception.
  unfoldable pub fill : Filling W M → Action W M
  fill f s = let (c, r) = f s in filled c r

-- The first <content> child, if there is one
abbrev pub first_content : Element → Option Element
first_content e =
    elim (filter_child_elements ((node_of e).prefix ++ codes "content") (children_of e)) [
      | [] ↦ none
      | c ∷ cs ↦ some c
    ]

module _ {W : Type 0} (cb : ContentCallbacks W) where
  -- `content` where the data model makes nothing of it
  abbrev data_or : Text → Option Data → Data
  data_or content none = verbatim_data (space_normalize content)
  data_or content (some d) =
      if is_empty_data d then verbatim_data (space_normalize content) else normalize_atom d

  -- The parser's document takes the place of the children.
  unfoldable pub adopt : Text → Text → Node → Action W (Option ℕ)
  adopt src base n s =
      let (o, w) = cb.adopt_document src base n.handle s.world in returns o (record s { world = w })

  -- `elementAsData`, the branch of the attribute `src`
  unfoldable pub remote_data : Node → Text → Action W Data
  unfolding attempt adopt is_empty_data normalize_atom space_normalize
  remote_data n src = do
    base ← gets cb.get_base_url
    content ← ask (cb.get_in_content src base)
    document ← adopt src base n
    maybe document (do d ← attempt (ask (cb.get_as_data content)); pure (data_or content d))
        λ root. pure (node_data root)

  -- The branch of the text children
  unfoldable pub local_data : Node → List Text → Action W Data
  unfolding attempt is_empty_data normalize_atom space_normalize
  local_data n [] = pure empty_data
  local_data n (t ∷ ts) =
      let content = concat (t ∷ ts) in
      if text_eq n.local_name (codes "content")
      then (do d ← attempt (ask (cb.get_as_data content)); pure (data_or content d))
      else (do d ← ask (cb.get_as_data content); pure (data_or content (some d)))

  unfoldable pub element_as_data : Element → Action W Data
  unfolding remote_data local_data has_elements texts_of
  element_as_data (element n cs) =
      maybe (attr? "expr" n)
        (maybe (attr? "src" n)
          (if has_elements cs then pure (node_data n.handle) else local_data n (texts_of cs))
          (remote_data n))
        λ x. pure (interpreted_data x)

  unfoldable pub element_as_evaluated_data : Element → Action W Data
  unfolding element_as_data is_numeric
  element_as_evaluated_data e = do
    d ← element_as_data e
    if is_interpreted d && not (is_empty (get_atom d)) && not (is_numeric (get_atom d))
        then ask (cb.eval_as_data (get_atom d))
        else pure d

  -- The loop of `processNameLists`
  unfoldable pub fill_names : List Text → Compound → Filling W Compound
  unfolding put_entry
  fill_names [] c s = (c, returns tt s)
  fill_names (n ∷ ns) c s =
      fill_with c (λ d. fill_names ns (put_entry n d c)) (ask (cb.eval_as_data n) s)

  unfoldable pub process_name_lists : Node → Filling W Compound
  unfolding fill_names tokenize
  process_name_lists n = elim (attr? "namelist" n) [
    | none ↦ λ s. (end, returns tt s)
    | some names ↦ fill_names (tokenize names 32 true) end
  ]

  unfoldable pub param_data : Element → Action W Data
  unfolding element_as_evaluated_data
  param_data e =
      maybe (attr? "expr" (node_of e))
        (maybe (attr? "location" (node_of e)) (element_as_evaluated_data e)
          λ x. ask (cb.eval_as_data x))
        λ x. ask (cb.eval_as_data x)

  -- The loop of `processParams`
  unfoldable pub fill_params : List Element → List (Text × Data) → Filling W (List (Text × Data))
  unfolding param_data insert_param
  fill_params [] ps s = (ps, returns tt s)
  fill_params (e ∷ es) ps s =
      fill_with ps (λ d. fill_params es (insert_param (attr_of "name" (node_of e)) d ps))
        (param_data e s)

  unfoldable pub process_params : Element → Filling W (List (Text × Data))
  unfolding fill_params filter_child_elements
  process_params e =
      fill_params (filter_child_elements ((node_of e).prefix ++ codes "param") (children_of e)) []
