-- ===== src/MicroStep/Example.antt =====
-- A small machine: a state, and a parallel state with two regions that end in final states.
use uscxml.Prelude.{ℕ, ◌+◌, true, false, ◌==◌, ◌||◌, none, some, List, [], ◌∷◌, codes, text_eq}
use uscxml.Bits.{Bitset, no_bits}
use uscxml.Messages.{Event, new_event}
use uscxml.MicroStep.Tables.{Kind, State, Transition, Chart, Callbacks, Micro, pristine}

abbrev pub bits : List ℕ → Bitset
bits [] = no_bits
bits (x ∷ xs) = λ i. (i == x) || bits xs i

abbrev pub state : ℕ → Kind → ℕ → List ℕ → List ℕ → List ℕ → State
state i k parent ancestors children completion = record {
  element = i;
  completion = bits completion;
  children = bits children;
  ancestors = bits ancestors;
  parent = parent;
  datas = [];
  invokes = i ∷ [];
  on_entry = (100 + i) ∷ [];
  on_exit = (200 + i) ∷ [];
  done_data = none;
  kind = k;
  has_history = false;
}

abbrev pub root : State
root = state 0 Kind.compound 0 [] (1 ∷ 2 ∷ 3 ∷ 4 ∷ 5 ∷ 6 ∷ []) (1 ∷ [])

abbrev pub leaf : State
leaf = state 1 Kind.atomic 0 (0 ∷ []) [] []

abbrev pub both : State
both = state 2 Kind.parallel 0 (0 ∷ []) (3 ∷ 4 ∷ 5 ∷ 6 ∷ []) (3 ∷ 5 ∷ [])

abbrev pub left : State
left = state 3 Kind.compound 2 (0 ∷ 2 ∷ []) (4 ∷ []) (4 ∷ [])

abbrev pub left_end : State
left_end = state 4 Kind.final 3 (0 ∷ 2 ∷ 3 ∷ []) [] []

abbrev pub right : State
right = state 5 Kind.compound 2 (0 ∷ 2 ∷ []) (6 ∷ []) (6 ∷ [])

abbrev pub right_end : State
right_end = state 6 Kind.final 5 (0 ∷ 2 ∷ 5 ∷ []) [] []

abbrev pub go : Transition
go = record {
  element = 50;
  conflicts = bits (0 ∷ 1 ∷ []);
  exit_set = bits (1 ∷ 2 ∷ 3 ∷ 4 ∷ 5 ∷ 6 ∷ []);
  source = 1;
  target = bits (2 ∷ []);
  on_trans = some 300;
  event = codes "go";
  cond = [];
  is_history = false;
  is_initial = false;
}

abbrev pub stay : Transition
stay = record go { element = 51; target = bits (1 ∷ []) }

abbrev pub go_left : Transition
go_left = record go {
  source = 3;
  conflicts = bits (2 ∷ []);
  target = bits (4 ∷ []);
  exit_set = bits [];
}

abbrev pub go_right : Transition
go_right = record go {
  source = 5;
  conflicts = bits (3 ∷ []);
  target = bits (6 ∷ []);
  exit_set = bits [];
}

abbrev pub chart : Chart
chart = record {
  states = root ∷ leaf ∷ both ∷ left ∷ left_end ∷ right ∷ right_end ∷ [];
  transitions = go ∷ stay ∷ go_left ∷ go_right ∷ [];
}

abbrev pub go_event : Event
go_event = record (new_event []) { name = codes "go" }

-- The world is a log, the latest entry first.
abbrev pub log : Callbacks (List ℕ)
log = record {
  process = λ x w. x ∷ w;
  init_data = λ x w. x ∷ w;
  invoke = λ x w. (400 + x) ∷ w;
  uninvoke = λ x w. (500 + x) ∷ w;
  raise_done = λ x d w. (600 + x) ∷ w;
  is_matched = λ e d. text_eq d e.name;
  is_true = λ t w. (true, w);
  dequeue_internal = λ w. (new_event [], w);
  dequeue_external = λ ms w. (go_event, w);
  notify = λ n w. w;
}

abbrev pub in_leaf : Micro (List ℕ)
in_leaf = record {
  flags = record pristine { initialized = true; stable = true };
  configuration = bits (0 ∷ 1 ∷ []);
  invocations = bits (0 ∷ 1 ∷ []);
  history = no_bits;
  initialized_data = bits (0 ∷ 1 ∷ []);
  microstep_configurations = [];
  is_initialized = true;
  is_cancelled = false;
  event = go_event;
  world = [];
}
