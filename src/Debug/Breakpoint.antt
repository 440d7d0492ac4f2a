-- ===== src/Debug/Breakpoint.antt =====
-- A breakpoint, its form as `Data`, and when it matches another: src/uscxml/debug/Breakpoint.cpp.
pub mod Laws
pub mod Matches
mod Tests
use uscxml.Prelude.{
  ℕ, Bool, true, false, not, ◌&&◌, ◌||◌, if◌then◌else◌, Option, none, some, [], ◌∷◌, Text, codes,
  text_eq,
}
use uscxml.Messages.{
  Data, Compound, mk, empty_data, with_key, has_key, at, get_atom, verbatim, nil, end, is_empty,
}
use uscxml.Util.Strings.{name_match}

pub data When : Type 0 where
  undef_when after before on : When

pub data Subject : Type 0 where
  undef_subject state transition stable microstep event invoker executable : Subject

pub data Action : Type 0 where
  undef_action enter exit invoke uninvoke : Action

-- `element` is a handle.
pub record Breakpoint : Type 0 where
  pub enabled : Bool
  pub when : When
  pub subject : Subject
  pub action : Action
  pub element : Option ℕ
  pub invoke_id : Text
  pub invoke_type : Text
  pub event_name : Text
  pub executable_name : Text
  pub executable_xpath : Text
  pub state_id : Text
  pub trans_source_id : Text
  pub trans_target_id : Text
  pub condition : Text

-- `data.at(key).atom`, where the key is there
unfoldable pub atom_or : Text → Text → Data → Text
atom_or k d data' = if has_key k data' then get_atom (at k data') else d

unfoldable pub to_when : Text → When
to_when t =
    if text_eq t (codes "before")
    then before
    else if text_eq t (codes "after")
    then after
    else if text_eq t (codes "on")
    then on
    else undef_when

unfoldable pub to_action : Text → Action
to_action t =
    if text_eq t (codes "enter")
    then enter
    else if text_eq t (codes "exit")
    then exit
    else if text_eq t (codes "invoke")
    then invoke
    else if text_eq t (codes "cancel")
    then uninvoke
    else undef_action

unfoldable pub to_subject : Text → Subject
to_subject t =
    if text_eq t (codes "state")
    then state
    else if text_eq t (codes "transition")
    then transition
    else if text_eq t (codes "stable")
    then stable
    else if text_eq t (codes "microstep")
    then microstep
    else if text_eq t (codes "event")
    then event
    else if text_eq t (codes "invoker")
    then invoker
    else if text_eq t (codes "executable")
    then executable
    else undef_subject

-- `Breakpoint(const Data&)`. An absent key reads as the empty text, which names nothing.
unfoldable pub from_data : Data → Breakpoint
from_data d = record {
  enabled = true;
  when = to_when (atom_or (codes "when") [] d);
  subject = to_subject (atom_or (codes "subject") [] d);
  action = to_action (atom_or (codes "action") [] d);
  element = none;
  invoke_id = atom_or (codes "invokeId") [] d;
  invoke_type = atom_or (codes "invokeType") [] d;
  event_name = atom_or (codes "eventName") [] d;
  executable_name = atom_or (codes "execName") [] d;
  executable_xpath = atom_or (codes "execXPath") [] d;
  state_id = atom_or (codes "stateId") [] d;
  trans_source_id = atom_or (codes "source") [] d;
  trans_target_id = atom_or (codes "target") [] d;
  condition = atom_or (codes "condition") [] d;
}

-- The three `switch`es of `toData`; the default sets nothing.
unfoldable pub when_text : When → Text
when_text undef_when = []
when_text after = codes "after"
when_text before = codes "before"
when_text on = codes "on"

unfoldable pub action_text : Action → Text
action_text undef_action = []
action_text enter = codes "enter"
action_text exit = codes "exit"
action_text invoke = codes "invoke"
action_text uninvoke = codes "cancel"

unfoldable pub subject_text : Subject → Text
subject_text undef_subject = []
subject_text state = codes "state"
subject_text transition = codes "transition"
subject_text stable = codes "stable"
subject_text microstep = codes "microstep"
subject_text event = codes "event"
subject_text invoker = codes "invoker"
subject_text executable = codes "executable"

-- `Data(text, Data::VERBATIM)`
abbrev pub text_data : Text → Data
text_data t = mk none end nil t none verbatim

-- `if (t.length() > 0) data.compound[key] = Data(t, Data::VERBATIM);`
unfoldable pub put_text : Text → Text → Data → Data
put_text k t d = if is_empty t then d else with_key k (text_data t) d

-- `if (element) data.compound["xpath"] = Data(xPathForNode(element), Data::VERBATIM);`
unfoldable pub with_xpath : (ℕ → Text) → Option ℕ → Data → Data
with_xpath xpath none d = d
with_xpath xpath (some e) d = with_key (codes "xpath") (text_data (xpath e)) d

-- `toData`, over the XPath that the DOM gives for an element
unfoldable pub to_data : (ℕ → Text) → Breakpoint → Data
to_data xpath b = put_text (codes "condition") b.condition (
    put_text (codes "target") b.trans_target_id (
      put_text (codes "source") b.trans_source_id (
        put_text (codes "stateId") b.state_id (
          with_xpath xpath b.element (
            put_text (codes "execXPath") b.executable_xpath (
              put_text (codes "execName") b.executable_name (
                put_text (codes "eventName") b.event_name (
                  put_text (codes "invokeType") b.invoke_type (
                    put_text (codes "invokeId") b.invoke_id (
                      put_text (codes "action") (action_text b.action) (
                        put_text (codes "when") (when_text b.when) (
                          put_text (codes "subject") (subject_text b.subject) empty_data))))))))))))

-- `==` on the constants.
unfoldable pub when_eq : When → When → Bool
when_eq a b = text_eq (when_text a) (when_text b)

unfoldable pub subject_eq : Subject → Subject → Bool
subject_eq a b = text_eq (subject_text a) (subject_text b)

unfoldable pub action_eq : Action → Action → Bool
action_eq a b = text_eq (action_text a) (action_text b)

-- `t.length() > 0 && !(t matches u)`
unfoldable pub differs : (Text → Text → Bool) → Text → Text → Bool
differs test t u = not (is_empty t) && not (test t u)

-- `x != UNDEF && other.x != x`
unfoldable pub rejects : {A : Type 0} → (A → A → Bool) → A → A → A → Bool
rejects test undef x y = not (test x undef) && not (test y x)

-- `matches`. `boost_iequals` is the comparison that `nameMatch` calls; `is_true` runs the condition
-- in the interpreter: `none` where it throws, else its value, which the code does not use.
unfoldable pub matches :
    (Text → Text → Bool) → (Text → Option Bool) → Breakpoint → Breakpoint → Bool
matches boost_iequals is_true b other =
    if rejects subject_eq undef_subject b.subject other.subject
    then false
    else if rejects when_eq undef_when b.when other.when
    then false
    else if rejects action_eq undef_action b.action other.action
    then false
    else if differs text_eq b.invoke_id other.invoke_id
    then false
    else if differs text_eq b.invoke_type other.invoke_type
    then false
    else if differs text_eq b.state_id other.state_id
    then false
    else if differs (name_match boost_iequals) b.event_name other.event_name
    then false
    else if differs text_eq b.executable_name other.executable_name
    then false
    else if differs text_eq b.trans_source_id other.trans_source_id
    then false
    else if differs text_eq b.trans_target_id other.trans_target_id
    then false
    else if is_empty b.condition
    then true
    else elim (is_true b.condition) [ none ↦ false | some v ↦ true ]
