-- ===== src/Debug/Breakpoint/Tests.antt =====
-- Breakpoints at concrete values.
use uscxml.Prelude.{◌≡◌, false, some, [], codes}
use uscxml.Debug.Breakpoint.{Breakpoint, on, event, undef_action, from_data, to_data}
use uscxml.Debug.Breakpoint.Laws.{from_data-to_data, reread}

abbrev on_event : Breakpoint
on_event = record {
  enabled = false;
  when = on;
  subject = event;
  action = undef_action;
  element = some 7;
  invoke_id = [];
  invoke_type = [];
  event_name = codes "foo";
  executable_name = [];
  executable_xpath = [];
  state_id = codes "s1";
  trans_source_id = [];
  trans_target_id = [];
  condition = codes "x > 1";
}

from_data-to_data_example : from_data (to_data (λ _. codes "//scxml") on_event) ≡ reread on_event
from_data-to_data_example = from_data-to_data (λ _. codes "//scxml") on_event
