-- ===== src/Content/Tests.antt =====
-- Executable content over a world that has the internal queue and the delays and indices that the callbacks
-- were called with; the data model evaluates every text to itself, but for `bad`, which is an error.
use uscxml.Prelude.{
  ℕ, ◌+◌, ◌^◌, ◌<◌, ◌≤◌, ◌≡◌, refl, Bool, true, false, if◌then◌else◌, none, some, List, [], ◌∷◌,
  ◌++◌, map, inl, inr, Text, String, codes, text_eq, find, arith,
}
use uscxml.Messages.{Event, EventType, new_event, empty_data}
use uscxml.Predicates.{Dom}
use uscxml.Util.Convenience.{iequals}
use uscxml.Content.{
  Node, Element, element, Children, childless, child, ContentCallbacks, Exec, Answer, Thrown,
  error_event, returns, raises, ask, verbatim_data, aborts, ◌>>=◌, ◌>>◌,
}
use uscxml.Content.Evaluate.{fill, fill_with}
use uscxml.Content.Send.{delay_of}
use uscxml.Content.Process.{process, process_if}
use uscxml.Content.Invoke.{raise_done_event}
use uscxml.Content.Meets.{After, Answers}
use uscxml.Content.Respects.{Calls}
use uscxml.Content.Process.Errors.{Counts, Within, Reported, is_platform, process_reports}
use uscxml.Content.Process.Branches.{choose, split_branches, process_if-choose}
use uscxml.Content.Invoke.Done.{Raised, raise_done_event-Raised}

record World : Type 0 where
  queue : List Event
  numbers : List ℕ

abbrev noted : ℕ → World → World
noted n w = record w { numbers = n ∷ w.numbers }

abbrev bad_event : Event
bad_event = record (new_event []) {
  name = codes "error.execution";
  event_type = EventType.platform;
}

abbrev unless_bad : {A : Type 0} → A → Text → World → Answer World A
unless_bad a x w = (if text_eq x (codes "bad") then inl (error_event bad_event) else inr a, w)

-- `InterpreterImpl::isTrue` puts the error into the queue and takes the condition for false.
abbrev true_or_bad : Bool → Text → World → Answer World Bool
true_or_bad b x w =
    if text_eq x (codes "bad")
    then (inr false, record w { queue = w.queue ++ bad_event ∷ [] })
    else (inr b, w)

abbrev callbacks : ContentCallbacks World
callbacks = record {
  enqueue_internal = λ e w. record w { queue = w.queue ++ e ∷ [] };
  cancel_delayed = λ id w. w;
  is_true = λ x w. true_or_bad (text_eq x (codes "true")) x w;
  get_length = λ x w. (inr 2, w);
  set_foreach = λ x y z i w. (inr tt, noted i w);
  eval_as_data = λ x w. unless_bad (verbatim_data x) x w;
  eval = λ x w. (inr tt, w);
  get_as_data = λ x w. (inr empty_data, w);
  assign = λ x d l w. (inr tt, w);
  is_valid_expr_syntax = λ x w. (inr true, w);
  get_invoke_id = λ w. [];
  get_base_url = λ w. [];
  check_valid_send_type = λ x y w. (inr tt, w);
  enqueue = λ x y d e w. (inr tt, noted d w);
  invoke = λ x y b f e w. (inr tt, w);
  uninvoke = λ x w. (inr tt, w);
  get_current_event = λ w. new_event [];
  before_executing = λ n w. w;
  after_executing = λ n w. w;
  before_invoking = λ n x w. w;
  after_invoking = λ n x w. w;
  before_uninvoking = λ n x w. w;
  after_uninvoking = λ n x w. w;
  log = λ x d w. w;
  has_executable_content = λ x y w. false;
  create_executable_content = λ x y w. (inr 0, w);
  enter_element = λ c n w. (inr tt, w);
  process_children = λ c w. true;
  exit_element = λ c n w. (inr tt, w);
  new_uuid = λ w. ([], w);
  get_in_content = λ x y w. (inr [], w);
  adopt_document = λ x y n w. (none, w);
  x_path_for_node = λ n. [];
  id_for_node = λ n. [];
  seconds_to_ms = λ t. 0;
  file = [];
}

abbrev platform_events : List Event → ℕ
platform_events [] = 0
platform_events (e ∷ w) = (if is_platform e.event_type then 1 else 0) + platform_events w

-- The errors in the queue
abbrev errors : World → ℕ
errors w = platform_events w.queue

platform_events-append :
    (e : Event) (w : List Event)
    → platform_events (w ++ e ∷ [])
      ≡ (if is_platform e.event_type then 1 else 0) + platform_events w
platform_events-append e [] = omega arith
platform_events-append e (x ∷ w) = omega (arith, platform_events-append e w)

module _ (P : World → Type 0) (E : Thrown → World → Type 0)
    (bad : (w : World) → P w → E (error_event bad_event) w)
    (queued_kept : (w : World) → P w → P (record w { queue = w.queue ++ bad_event ∷ [] }))
    (noted_kept : (n : ℕ) (w : World) → n < 2 ^ 32 → P w → P (noted n w)) where
  unless_bad-Answers :
      {A : Type 0} (a : A) (x : Text) (w : World) → P w → Answers P E (unless_bad a x w)
  unless_bad-Answers {A = A} a x w p = from (text_eq x (codes "bad"))
    where
      from : (b : Bool) → Answers P E {A = A} (if b then inl (error_event bad_event) else inr a, w)
      from true = bad w p
      from false = p

  true_or_bad-Answers : (b : Bool) (x : Text) (w : World) → P w → Answers P E (true_or_bad b x w)
  true_or_bad-Answers b x w p = from (text_eq x (codes "bad"))
    where
      from :
          (t : Bool)
          → Answers P E {A = Bool} (
              if t then (inr false, record w { queue = w.queue ++ bad_event ∷ [] }) else (inr b, w))
      from true = queued_kept w p
      from false = p

  callbacks-Calls : Calls callbacks P E
  callbacks-Calls = record {
    cancel_kept = λ id w p. p;
    is_true_kept = λ x w p. true_or_bad-Answers _ x w p;
    length_kept = λ x w p. p;
    foreach_kept = λ x y z i w h p. noted_kept i w h p;
    data_kept = λ x w p. unless_bad-Answers _ x w p;
    eval_kept = λ x w p. p;
    as_data_kept = λ x w p. p;
    assign_kept = λ x d l w p. p;
    valid_kept = λ x w p. p;
    check_kept = λ x y w p. p;
    enqueue_kept = λ x y d e w h k p. noted_kept d w h p;
    before_kept = λ n w p. p;
    after_kept = λ n w p. p;
    log_kept = λ x d w p. p;
    create_kept = λ x y w p. p;
    enter_kept = λ c n w p. p;
    exit_kept = λ c n w p. p;
    seconds_bounded = λ x. omega arith;
    uuid_kept = λ w p. p;
    content_kept = λ x y w p. p;
    adopt_kept = λ x y n w p. p;
  }

callbacks-Counts : Counts callbacks errors
callbacks-Counts = record {
  calls = λ c.
      callbacks-Calls (λ w. c ≤ errors w) (Within errors c) (λ w p. (refl, p))
        (λ w p. omega (arith, platform_events-append bad_event w.queue, p)) (λ n w h p. p);
  counted = λ e w. platform_events-append e w.queue;
}

abbrev node : ℕ → String → List (Text × Text) → Node
node h tag attrs = record {
  handle = h;
  prefix = [];
  tag_name = codes tag;
  local_name = codes tag;
  namespace = [];
  attrs = attrs;
}

abbrev no_dom : Dom
no_dom = record {
  ancestors = λ n. [];
  child_elements = λ n. [];
  is_element = λ n. false;
  local_name = λ n. [];
  tag_name = λ n. [];
  xml_prefix = λ n. [];
  attr = λ n x. none;
}

abbrev start : Exec World
start = record {
  world = record { queue = []; numbers = [] };
  invoke_ids = λ n. none;
  custom_exec_content = λ n. none;
}

-- `<if cond="bad"><raise event="a"/><else/><raise event="b"/><log expr="bad"/><raise event="c"/></if>`
abbrev raise : ℕ → String → Element
raise h name = element (node h "raise" ((codes "event", codes name) ∷ [])) childless

abbrev branches : Children
branches = child (raise 1 "a") (
    child (element (node 2 "else" []) childless) (
      child (raise 3 "b") (
        child (element (node 4 "log" ((codes "expr", codes "bad") ∷ [])) childless)
          (child (raise 5 "c") childless))))

abbrev if_node : Node
if_node = node 0 "if" ((codes "cond", codes "bad") ∷ [])

process_reports_example :
    After
      (λ w. 0 ≤ errors w)
      (Reported errors 0)
      (process no_dom callbacks (element if_node branches) start)
unfolding iequals
process_reports_example =
    process_reports callbacks-Counts no_dom (element if_node branches) start
      (refl, ((refl, tt), ((refl, tt), ((refl, tt), ((refl, tt), ((refl, tt), tt))))))

-- The condition is an error and counts as false; the block of <else> runs up to the next error, which is
-- put into the queue once.
branches_queued :
    elim (process no_dom callbacks (element if_node branches) start) [
      | returns u s ↦ []
      | raises t s ↦ map (λ (e : Event). e.name) s.world.queue
      | aborts ↦ []
    ]
    ≡ codes "error.execution" ∷ codes "b" ∷ codes "error.execution" ∷ []
unfolding process ◌>>◌ iequals text_eq find
branches_queued = refl

-- `<foreach array="x"><send event="a" delay="90ms"/></foreach>`
abbrev loop : Element
loop = element (node 0 "foreach" ((codes "array", codes "x") ∷ [])) (
    child
      (element
        (node 1 "send" (
          (codes "delay", codes "90ms")
          ∷ (codes "event", codes "a")
          ∷ (codes "id", codes "s")
          ∷ []))
        childless)
      childless)

numbers_noted :
    elim (process no_dom callbacks loop start) [
      | returns u s ↦ s.world.numbers
      | raises t s ↦ []
      | aborts ↦ []
    ]
    ≡ 90 ∷ 1 ∷ 90 ∷ 0 ∷ []
unfolding process ◌>>◌ iequals fill delay_of find text_eq
numbers_noted = refl

process_if-choose_example :
    (ask (callbacks.is_true (codes "false")) >>= process_if no_dom callbacks [] branches)
    ≡ choose no_dom callbacks
        ((some (codes "false"), (split_branches [] branches).0) ∷ (split_branches [] branches).1)
unfolding iequals
process_if-choose_example = process_if-choose no_dom callbacks [] (codes "false") branches

-- <donedata> with a parameter that is an error
abbrev done_element : Element
done_element = element (node 7 "donedata" []) (
    child
      (element (node 8 "param" ((codes "expr", codes "bad") ∷ (codes "name", codes "p") ∷ []))
        childless)
      childless)

abbrev final_state : Node
final_state = node 6 "final" ((codes "id", codes "f") ∷ [])

done_queued :
    elim (raise_done_event callbacks final_state (some done_element) start) [
      | returns u s ↦ map (λ (e : Event). e.name) s.world.queue
      | raises t s ↦ []
      | aborts ↦ []
    ]
    ≡ codes "error.execution" ∷ codes "done.state.f" ∷ []
unfolding raise_done_event ◌>>◌ fill_with find text_eq
done_queued = refl

raise_done_event-Raised_example :
    Raised callbacks final_state (raise_done_event callbacks final_state (some done_element) start)
raise_done_event-Raised_example =
    raise_done_event-Raised callbacks final_state (some done_element) start
