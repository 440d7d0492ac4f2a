-- ===== src/MicroStep/Tables.antt =====
-- The classes and fields of src/uscxml/interpreter/FastMicroStep.h, and the interface to its callbacks.
use uscxml.Prelude.{ℕ, Bool, true, false, ◌||◌, Option, none, List, [], Text, get_or, length}
use uscxml.Bits.{Bitset, no_bits}
use uscxml.Messages.{Event}

-- `USCXML_STATE_…`, the low seven bits of `State::type`
pub data Kind : Type 0 where
  atomic parallel compound final history_deep history_shallow initial : Kind

-- `FastMicroStep::State`. An element is a handle, and so is a block of executable content.
-- `has_history` is the highest bit of `type`.
pub record State : Type 0 where
  pub element : ℕ
  pub completion : Bitset
  pub children : Bitset
  pub ancestors : Bitset
  pub parent : ℕ
  pub datas : List ℕ
  pub invokes : List ℕ
  pub on_entry : List ℕ
  pub on_exit : List ℕ
  pub done_data : Option ℕ
  pub kind : Kind
  pub has_history : Bool

-- `FastMicroStep::Transition`; of the bits of `type`, those that a step reads
pub record Transition : Type 0 where
  pub element : ℕ
  pub conflicts : Bitset
  pub exit_set : Bitset
  pub source : ℕ
  pub target : Bitset
  pub on_trans : Option ℕ
  pub event : Text
  pub cond : Text
  pub is_history : Bool
  pub is_initial : Bool

-- `_states` and `_transitions`
pub record Chart : Type 0 where
  pub states : List State
  pub transitions : List Transition

abbrev pub no_state : State
no_state = record {
  element = 0;
  completion = no_bits;
  children = no_bits;
  ancestors = no_bits;
  parent = 0;
  datas = [];
  invokes = [];
  on_entry = [];
  on_exit = [];
  done_data = none;
  kind = Kind.atomic;
  has_history = false;
}

abbrev no_transition : Transition
no_transition = record {
  element = 0;
  conflicts = no_bits;
  exit_set = no_bits;
  source = 0;
  target = no_bits;
  on_trans = none;
  event = [];
  cond = [];
  is_history = false;
  is_initial = false;
}

-- `USCXML_GET_STATE`, `USCXML_GET_TRANS`: every index that the code uses is below the size.
abbrev pub state_at : Chart → ℕ → State
state_at c i = get_or c.states i no_state

abbrev pub trans_at : Chart → ℕ → Transition
trans_at c i = get_or c.transitions i no_transition

abbrev pub n_states : Chart → ℕ
n_states c = length c.states

abbrev pub n_trans : Chart → ℕ
n_trans c = length c.transitions

abbrev pub is_history_kind : Kind → Bool
is_history_kind k = elim k [ Kind.history_deep ↦ true | Kind.history_shallow ↦ true | _ ↦ false ]

-- "these are no proper states"
abbrev pub is_pseudo : Kind → Bool
is_pseudo k = elim k [
  | Kind.history_deep ↦ true
  | Kind.history_shallow ↦ true
  | Kind.initial ↦ true
  | _ ↦ false
]

abbrev pub is_parallel : Kind → Bool
is_parallel k = elim k [ Kind.parallel ↦ true | _ ↦ false ]

abbrev pub is_final : Kind → Bool
is_final k = elim k [ Kind.final ↦ true | _ ↦ false ]

-- `_flags`, one field for each bit
pub record Flags : Type 0 where
  pub spontaneous : Bool
  pub initialized : Bool
  pub top_level_final : Bool
  pub transition_found : Bool
  pub finished : Bool
  pub stable : Bool

abbrev pub pristine : Flags
pristine = record {
  spontaneous = false;
  initialized = false;
  top_level_final = false;
  transition_found = false;
  finished = false;
  stable = false;
}

-- `_flags == USCXML_CTX_PRISTINE`
abbrev pub is_pristine : Flags → Bool
is_pristine f =
    elim (f.spontaneous || f.initialized || f.top_level_final || f.transition_found || f.finished
      || f.stable) [ true ↦ false | false ↦ true ]

-- The notifications of `InterpreterMonitor` that a step sends
pub data Notice : Type 0 where
  before_completion after_completion before_micro_step after_micro_step on_stable : Notice
  before_processing : Event → Notice
  before_exiting after_exiting before_entering after_entering : ℕ → Notice
  before_taking after_taking : ℕ → Notice
  endless_loop : Notice

-- `MicroStepCallbacks`: what a step asks of the interpreter, over a world of type `W`. The calls return: an
-- exception that `step` swallows is a call that returns, and what `uninvoke`, `raiseDoneEvent` and
-- `dequeueExternal` throw, which ends the step, is not modelled.
pub record Callbacks (W : Type 0) : Type 0 where
  pub process : ℕ → W → W
  pub init_data : ℕ → W → W
  pub invoke : ℕ → W → W
  pub uninvoke : ℕ → W → W
  pub raise_done : ℕ → Option ℕ → W → W
  pub is_matched : Event → Text → Bool
  pub is_true : Text → W → Bool × W
  pub dequeue_internal : W → Event × W
  pub dequeue_external : ℕ → W → Event × W
  pub notify : Notice → W → W

-- The mutable fields of `FastMicroStep`, and the world behind its callbacks.
pub record Micro (W : Type 0) : Type 0 where
  pub flags : Flags
  pub configuration : Bitset
  pub invocations : Bitset
  pub history : Bitset
  pub initialized_data : Bitset
  pub microstep_configurations : List Bitset
  pub is_initialized : Bool
  pub is_cancelled : Bool
  pub event : Event
  pub world : W
