-- ===== src/Debug/Breakpoint/Laws.antt =====
-- The round trip of a breakpoint through `Data`.
use uscxml.Prelude.{
  sym, ℕ, ◌≡◌, refl, ap, ◌∙◌, Bool, true, false, Bool-cases, inl, inr, if◌then◌else◌, Option, none,
  some, List, [], ◌∷◌, Text, codes, text_eq,
}
use uscxml.Messages.{
  get_atom, get_compound, Data, mk, entry, empty_data, find_key, has_key, at, is_empty, with_key,
}
use uscxml.Debug.Breakpoint.{
  Breakpoint, When, Subject, Action, undef_when, before, after, on, undef_subject, state,
  transition, stable, microstep, event, invoker, executable, undef_action, enter, exit, invoke,
  uninvoke, atom_or, to_when, to_action, to_subject, from_data, when_text, action_text,
  subject_text, text_data, put_text, with_xpath, to_data,
}

or_else : Text → Text → Text
or_else t u = if is_empty t then u else t

or_else_nil : (t : Text) → or_else t [] ≡ t
unfolding or_else
or_else_nil [] = refl
or_else_nil (c ∷ t) = refl

atom_of : Option Data → Text
atom_of none = []
atom_of (some d) = get_atom d

atom_or-find_key : (k : Text) (d : Data) → atom_or k [] d ≡ atom_of (find_key k (get_compound d))
unfolding atom_or has_key at atom_of
atom_or-find_key k d = from (find_key k (get_compound d))
  where
    from :
        (o : Option Data)
        → (if (elim o [ none ↦ false | some e ↦ true ])
            then get_atom (elim o [ none ↦ empty_data | some e ↦ e ])
            else [])
          ≡ atom_of o
    from none = refl
    from (some e) = refl

atom_of-if :
    (b : Bool) (t : Text) (o : Option Data)
    → atom_of (if b then some (text_data t) else o) ≡ (if b then t else atom_of o)
unfolding atom_of
atom_of-if true t o = refl
atom_of-if false t o = refl

atom_or-with_key :
    (k j t : Text) (d : Data)
    → atom_or k [] (with_key j (text_data t) d) ≡ (if text_eq j k then t else atom_or k [] d)
unfolding find_key
atom_or-with_key k j t (mk n c a x b y) =
    atom_or-find_key k (mk n (entry j (text_data t) c) a x b y)
    ∙ atom_of-if (text_eq j k) t (find_key k c)
    ∙ ap (λ u. if text_eq j k then t else u) (sym (atom_or-find_key k (mk n c a x b y)))

atom_or-put_text :
    (k j t : Text) (d : Data)
    → atom_or k [] (put_text j t d)
      ≡ (if text_eq j k then or_else t (atom_or k [] d) else atom_or k [] d)
unfolding put_text or_else
atom_or-put_text k j [] d = elim (Bool-cases (text_eq j k)) [
  | inl same ↦ rw same
  | inr other ↦ rw other
]
atom_or-put_text k j (c ∷ t) d = atom_or-with_key k j (c ∷ t) d

atom_or-with_xpath :
    (xpath : ℕ → Text) (k : Text) (e : Option ℕ) (d : Data)
    → text_eq (codes "xpath") k ≡ false
    → atom_or k [] (with_xpath xpath e d) ≡ atom_or k [] d
unfolding with_xpath
atom_or-with_xpath xpath k none d p = refl
atom_or-with_xpath xpath k (some e) d p =
    atom_or-with_key k (codes "xpath") (xpath e) d
    ∙ ap (λ x. if x then xpath e else atom_or k [] d) p

-- Several `put_text`, the last one first.
put_all : List (Text × Text) → Data → Data
put_all [] d = d
put_all ((j, t) ∷ l) d = put_text j t (put_all l d)

find_all : Text → List (Text × Text) → Text → Text
find_all k [] u = u
find_all k ((j, t) ∷ l) u =
    let rest = find_all k l u in if text_eq j k then or_else t rest else rest

atom_or-put_all :
    (k : Text) (l : List (Text × Text)) (d : Data)
    → atom_or k [] (put_all l d) ≡ find_all k l (atom_or k [] d)
unfolding put_all find_all
atom_or-put_all k [] d = refl
atom_or-put_all k ((j, t) ∷ l) d =
    atom_or-put_text k j t (put_all l d)
    ∙ ap (λ x. if text_eq j k then or_else t x else x) (atom_or-put_all k l d)

late : Breakpoint → List (Text × Text)
late b =
    (codes "condition", b.condition)
    ∷ (codes "target", b.trans_target_id)
    ∷ (codes "source", b.trans_source_id)
    ∷ (codes "stateId", b.state_id)
    ∷ []

early : Breakpoint → List (Text × Text)
early b =
    (codes "execXPath", b.executable_xpath)
    ∷ (codes "execName", b.executable_name)
    ∷ (codes "eventName", b.event_name)
    ∷ (codes "invokeType", b.invoke_type)
    ∷ (codes "invokeId", b.invoke_id)
    ∷ (codes "action", action_text b.action)
    ∷ (codes "when", when_text b.when)
    ∷ (codes "subject", subject_text b.subject)
    ∷ []

field_of :
    (xpath : ℕ → Text) (b : Breakpoint) (k : Text)
    → text_eq (codes "xpath") k ≡ false
    → atom_or k [] (to_data xpath b)
      ≡ find_all k (late b) (find_all k (early b) (atom_or k [] empty_data))
unfolding to_data put_all late early
field_of xpath b k p =
    atom_or-put_all k (late b) (with_xpath xpath b.element (put_all (early b) empty_data))
    ∙ ap (find_all k (late b)) (
        atom_or-with_xpath xpath k b.element (put_all (early b) empty_data) p
        ∙ atom_or-put_all k (early b) empty_data)

to_when-when_text : (w : When) → to_when (when_text w) ≡ w
unfolding to_when when_text text_eq
to_when-when_text undef_when = refl
to_when-when_text before = refl
to_when-when_text after = refl
to_when-when_text on = refl

to_action-action_text : (a : Action) → to_action (action_text a) ≡ a
unfolding to_action action_text text_eq
to_action-action_text undef_action = refl
to_action-action_text enter = refl
to_action-action_text exit = refl
to_action-action_text invoke = refl
to_action-action_text uninvoke = refl

to_subject-subject_text : (s : Subject) → to_subject (subject_text s) ≡ s
unfolding to_subject subject_text text_eq
to_subject-subject_text undef_subject = refl
to_subject-subject_text state = refl
to_subject-subject_text transition = refl
to_subject-subject_text stable = refl
to_subject-subject_text microstep = refl
to_subject-subject_text event = refl
to_subject-subject_text invoker = refl
to_subject-subject_text executable = refl

-- What the round trip keeps.
unfoldable pub reread : Breakpoint → Breakpoint
reread b = record {
  enabled = true;
  when = b.when;
  subject = b.subject;
  action = b.action;
  element = none;
  invoke_id = b.invoke_id;
  invoke_type = b.invoke_type;
  event_name = b.event_name;
  executable_name = b.executable_name;
  executable_xpath = b.executable_xpath;
  state_id = b.state_id;
  trans_source_id = b.trans_source_id;
  trans_target_id = b.trans_target_id;
  condition = b.condition;
}

-- A breakpoint that is written as `Data` and read again has all the fields it had, the empty ones
-- included, except that it is enabled and bound to no element.
pub from_data-to_data : (xpath : ℕ → Text) (b : Breakpoint) → from_data (to_data xpath b) ≡ reread b
unfolding from_data reread find_all late early text_eq atom_or has_key at find_key
from_data-to_data xpath b = rw (
  field_of xpath b (codes "when") refl,
  or_else_nil (when_text b.when),
  to_when-when_text b.when,
  field_of xpath b (codes "subject") refl,
  or_else_nil (subject_text b.subject),
  to_subject-subject_text b.subject,
  field_of xpath b (codes "action") refl,
  or_else_nil (action_text b.action),
  to_action-action_text b.action,
  field_of xpath b (codes "invokeId") refl,
  or_else_nil b.invoke_id,
  field_of xpath b (codes "invokeType") refl,
  or_else_nil b.invoke_type,
  field_of xpath b (codes "eventName") refl,
  or_else_nil b.event_name,
  field_of xpath b (codes "execName") refl,
  or_else_nil b.executable_name,
  field_of xpath b (codes "execXPath") refl,
  or_else_nil b.executable_xpath,
  field_of xpath b (codes "stateId") refl,
  or_else_nil b.state_id,
  field_of xpath b (codes "source") refl,
  or_else_nil b.trans_source_id,
  field_of xpath b (codes "target") refl,
  or_else_nil b.trans_target_id,
  field_of xpath b (codes "condition") refl,
  or_else_nil b.condition,
)
