-- ===== src/Messages.antt =====
-- Messages: src/uscxml/messages/Data.h, Event.h and Event.cpp. A text is a list of code points; a DOM
-- node and a blob are handles.
use uscxml.Prelude.{
  ℕ, Bool, true, false, not, Option, none, some, List, [], ◌∷◌, Text, text_eq, if◌then◌else◌,
}

-- `Data::Type`
pub data DataType : Type 0 where
  verbatim interpreted : DataType

-- `Data`: `compound` and `array` are maps, here in the order of their keys.
mutual
  pub data Data : Type 0 where
    mk : Option ℕ → Compound → Array → Text → Option ℕ → DataType → Data

  pub data Compound : Type 0 where
    end : Compound
    entry : Text → Data → Compound → Compound

  pub data Array : Type 0 where
    nil : Array
    item : ℕ → Data → Array → Array

-- `Data()`
abbrev pub empty_data : Data
empty_data = mk none end nil [] none interpreted

abbrev pub get_compound : Data → Compound
get_compound (mk n c a t b k) = c

abbrev pub get_array : Data → Array
get_array (mk n c a t b k) = a

abbrev pub get_atom : Data → Text
get_atom (mk n c a t b k) = t

-- `compound.find(key)`
unfoldable pub find_key : Text → Compound → Option Data
find_key k end = none
find_key k (entry j d c) = if text_eq j k then some d else find_key k c

-- `hasKey`
unfoldable pub has_key : Text → Data → Bool
unfolding find_key
has_key k d = elim (find_key k (get_compound d)) [ none ↦ false | some e ↦ true ]

-- `at`: an absent key reads as `Data()`.
unfoldable pub at : Text → Data → Data
unfolding find_key
at k d = elim (find_key k (get_compound d)) [ none ↦ empty_data | some e ↦ e ]

-- `compound[key] = d` on a map without that key
abbrev pub with_key : Text → Data → Data → Data
with_key k d (mk n c a t b ty) = mk n (entry k d c) a t b ty

-- `Event::Type`
pub data EventType : Type 0 where
  internal external platform : EventType

pub record Event : Type 0 where
  pub raw : Text
  pub name : Text
  pub event_type : EventType
  pub origin : Text
  pub origintype : Text
  pub sendid : Text
  pub hide_send_id : Bool
  pub invokeid : Text
  pub payload : Data
  pub namelist : Compound
  pub params : List (Text × Data)
  pub uuid : Text

-- `Event()`, with the fresh `uuid` that its constructor draws
abbrev pub new_event : Text → Event
new_event id = record {
  raw = [];
  name = [];
  event_type = internal;
  origin = [];
  origintype = [];
  sendid = [];
  hide_send_id = false;
  invokeid = [];
  payload = empty_data;
  namelist = end;
  params = [];
  uuid = id;
}

abbrev pub is_empty : Text → Bool
is_empty [] = true
is_empty (c ∷ t) = false

-- `operator bool`
abbrev pub is_event : Event → Bool
is_event e = not (is_empty e.name)
