-- ===== src/MicroStep/GapTests.antt =====
-- Two charts in which the entry set lacks what belongs to its states
use uscxml.Prelude.{◌≡◌, refl, Bool, true, false, List, [], ◌∷◌, upward, first_below, any_below}
use uscxml.Bits.{Bitset, no_bits}
use uscxml.MicroStep.Tables.{Chart, Kind}
use uscxml.MicroStep.Entry.{
  establish_entry_set, complete_descendants, complete_state, complete_kind, complete_compound,
  complete_history, add_ancestors, add_ancestors_of, default_history,
}
use uscxml.MicroStep.Example.{bits, state, go}

abbrev first_five : Bitset → List Bool
first_five b = b 0 ∷ b 1 ∷ b 2 ∷ b 3 ∷ b 4 ∷ []

-- The `initial` attribute of the state 2 names the state 4, within the state 3.
abbrev deep_initial : Chart
deep_initial = record {
  states =
      state 0 Kind.compound 0 [] (1 ∷ 2 ∷ 3 ∷ 4 ∷ []) (1 ∷ [])
      ∷ state 1 Kind.atomic 0 (0 ∷ []) [] []
      ∷ state 2 Kind.compound 0 (0 ∷ []) (3 ∷ 4 ∷ []) (4 ∷ [])
      ∷ state 3 Kind.compound 2 (0 ∷ 2 ∷ []) (4 ∷ []) (4 ∷ [])
      ∷ state 4 Kind.atomic 3 (0 ∷ 2 ∷ 3 ∷ []) [] []
      ∷ [];
  transitions = record go { target = bits (2 ∷ []); exit_set = bits (1 ∷ 2 ∷ 3 ∷ 4 ∷ []) } ∷ [];
}

-- The state 4 is entered, but not the state 3 around it.
deep_initial_test :
    first_five
      (establish_entry_set deep_initial
        (bits (0 ∷ 1 ∷ []))
        no_bits
        (bits (1 ∷ []))
        (bits (2 ∷ []))
        no_bits).states
    ≡ true ∷ false ∷ true ∷ false ∷ true ∷ []
unfolding establish_entry_set complete_descendants complete_state complete_kind complete_compound
    complete_history add_ancestors add_ancestors_of upward first_below any_below default_history
deep_initial_test = refl

-- A transition within the state 1 leads to its history 2 before anything is recorded.
abbrev no_record : Chart
no_record = record {
  states =
      state 0 Kind.compound 0 [] (1 ∷ 2 ∷ 3 ∷ 4 ∷ []) (1 ∷ [])
      ∷ state 1 Kind.compound 0 (0 ∷ []) (2 ∷ 3 ∷ 4 ∷ []) (3 ∷ [])
      ∷ state 2 Kind.history_shallow 1 (0 ∷ 1 ∷ []) [] (3 ∷ 4 ∷ [])
      ∷ state 3 Kind.atomic 1 (0 ∷ 1 ∷ []) [] []
      ∷ state 4 Kind.atomic 1 (0 ∷ 1 ∷ []) [] []
      ∷ [];
  transitions =
      record go { source = 3; target = bits (2 ∷ []); exit_set = bits (3 ∷ 4 ∷ []) }
      ∷ record go { source = 2; target = bits (4 ∷ []); exit_set = no_bits; is_history = true }
      ∷ [];
}

-- The state 1 stays active and the state 3 is left, but none of its states is entered.
no_record_test :
    first_five
      (establish_entry_set no_record
        (bits (0 ∷ 1 ∷ 3 ∷ []))
        no_bits
        (bits (3 ∷ []))
        (bits (2 ∷ []))
        no_bits).states
    ≡ true ∷ true ∷ true ∷ false ∷ false ∷ []
unfolding establish_entry_set complete_descendants complete_state complete_kind complete_compound
    complete_history add_ancestors add_ancestors_of upward first_below any_below default_history
no_record_test = refl
