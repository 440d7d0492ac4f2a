-- ===== src/MicroStep/Init/Marks.antt =====
-- Shared by the parts of `FastMicroStep::init`: the loop that marks the states of a list, and their indices.
use uscxml.Prelude.{
  ℕ, suc, ◌==◌, Bool, true, false, if◌then◌else◌, Option, none, some, List, [], ◌∷◌, String, codes,
  get_or,
}
use uscxml.Bits.{Bitset}
use uscxml.Util.Convenience.{iequals}
use uscxml.Content.{Node, Element, attr?}
use uscxml.Predicates.Walks.{handle_of}

abbrev pub type_is : String → Node → Bool
type_is t n = elim (attr? "type" n) [ none ↦ false | some v ↦ iequals v (codes t) ]

abbrev pub has_type : Node → Bool
has_type n = elim (attr? "type" n) [ none ↦ false | some v ↦ true ]

-- `!list.empty() && element == list.front()`
abbrev pub is_front : ℕ → List (Option ℕ) → Bool
is_front h [] = false
is_front h (none ∷ l) = false
is_front h (some x ∷ l) = x == h

abbrev pub pop_front : List (Option ℕ) → List (Option ℕ)
pop_front [] = []
pop_front (x ∷ l) = l

-- The loop that compares each state with the front of a list: the bits, and what is left of the list
unfoldable pub mark_listed : List Element → List (Option ℕ) → List Bool × List (Option ℕ)
mark_listed [] l = ([], l)
mark_listed (e ∷ es) l =
    let hit = is_front (handle_of e) l in
    let (bits, rest) = mark_listed es (if hit then pop_front l else l) in (hit ∷ bits, rest)

abbrev pub from_list : List Bool → Bitset
from_list l i = get_or l i false

abbrev pub next_index : Option ℕ → Option ℕ
next_index none = none
next_index (some i) = some (suc i)

-- `getUserData("uscxmlState")->documentOrder`
unfoldable pub index_of : List Element → ℕ → Option ℕ
index_of [] h = none
index_of (e ∷ es) h =
    let rest = index_of es h in if handle_of e == h then some 0 else next_index rest

abbrev pub some_all : List ℕ → List (Option ℕ)
some_all [] = []
some_all (h ∷ hs) = some h ∷ some_all hs

abbrev pub handle_or_null : Option Element → Option ℕ
handle_or_null none = none
handle_or_null (some e) = some (handle_of e)

abbrev pub first {ℓ} : {A : Type ℓ} → List A → Option A
first [] = none
first (x ∷ l) = some x
