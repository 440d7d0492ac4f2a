-- ===== src/Debug/Breakpoint/Matches.antt =====
-- The place of the condition in `Breakpoint::matches`.
use uscxml.Prelude.{◌≡◌, refl, Bool, true, false, if◌then◌else◌, Option, none, some, [], ◌∷◌, Text}
use uscxml.Messages.{is_empty}
use uscxml.Debug.Breakpoint.{Breakpoint, matches}

abbrev pub unconditional : Breakpoint → Breakpoint
unconditional b = record {
  enabled = b.enabled;
  when = b.when;
  subject = b.subject;
  action = b.action;
  element = b.element;
  invoke_id = b.invoke_id;
  invoke_type = b.invoke_type;
  event_name = b.event_name;
  executable_name = b.executable_name;
  executable_xpath = b.executable_xpath;
  state_id = b.state_id;
  trans_source_id = b.trans_source_id;
  trans_target_id = b.trans_target_id;
  condition = [];
}

last_test : (Text → Option Bool) → Text → Bool
last_test is_true c = if is_empty c then true else elim (is_true c) [ none ↦ false | some v ↦ true ]

last_test-some :
    (is_true : Text → Option Bool) (c : Text) (v : Bool)
    → is_true c ≡ some v
    → last_test is_true c ≡ true
unfolding last_test
last_test-some is_true [] v h = refl
last_test-some is_true (a ∷ c) v h = rw h

-- Whatever value the condition has, true or false, a breakpoint whose condition can be run matches
-- exactly what the same breakpoint without a condition matches.
pub matches-unconditional :
    (boost_iequals : Text → Text → Bool) (is_true : Text → Option Bool) (b other : Breakpoint)
    (v : Bool)
    → is_true b.condition ≡ some v
    → matches boost_iequals is_true b other ≡ matches boost_iequals is_true (unconditional b) other
unfolding matches last_test
matches-unconditional boost_iequals is_true b other v h =
    rw (last_test-some is_true b.condition v h)
