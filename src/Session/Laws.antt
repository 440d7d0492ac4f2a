-- ===== src/Session/Laws.antt =====
-- What a cancellation by `sendid` leaves.
use uscxml.Prelude.{
  ◌≡◌, refl, ap, ◌∙◌, sym, subst, Bool, true, false, Bool-cases, inl, inr, Option, none, some, List,
  [], ◌∷◌, Text, text_eq, text_eq_sound, if◌then◌else◌, find, erase, find-erase_same,
  find-erase_other,
}
use uscxml.Prelude.Maps.Sorted.{Sorted, find-Above}
use uscxml.Queue.Delayed.{Libevent, Delayed, CallbackData, cancel_delayed}
use uscxml.Session.{Session, Target, kept_targets, cancel_targets, cancel_sent}

-- The keys of a map are distinct.
unfoldable Distinct : List (Text × Target) → Type 0
Distinct [] = Unit {0}
Distinct ((k, t) ∷ m) = (find k m ≡ none) × Distinct m

Sorted-Distinct : (m : List (Text × Target)) → Sorted m → Distinct m
unfolding Sorted Distinct
Sorted-Distinct [] s = tt
Sorted-Distinct ((k, t) ∷ m) (a, s) = (find-Above k m a, Sorted-Distinct m s)

find_there :
    {A : Type 0} (j k : Text) (v : A) (m : List (Text × A))
    → text_eq j k ≡ false
    → find k ((j, v) ∷ m) ≡ find k m
unfolding find
find_there j k v m h = rw h

find_here :
    {A : Type 0} (j k : Text) (u v : A) (m : List (Text × A))
    → text_eq j k ≡ true
    → find k ((j, u) ∷ m) ≡ some v
    → u ≡ v
unfolding find
find_here j k u v m same h = injective (rw same at h)
  where
    injective : {A : Type 0} {a b : A} → some a ≡ some b → a ≡ b
    injective p = cc

kept_none :
    (send_id k : Text) (m : List (Text × Target))
    → find k m ≡ none
    → find k (kept_targets send_id m) ≡ none
unfolding kept_targets find
kept_none send_id k [] h = refl
kept_none send_id k ((j, t) ∷ m) h = elim (Bool-cases (text_eq j k)) [
  | inl same ↦ absurd (some_none t (rw same at h))
  | inr other ↦ elim (Bool-cases (text_eq (t.0) send_id)) [
    | inl drops ↦ rw drops (kept_none send_id k m (rw other at h))
    | inr keeps ↦ rw (keeps, other) (kept_none send_id k m (rw other at h))
  ]
]
  where
    some_none : (x : Target) → some x ≡ none → ⊥
    some_none x e = cc

kept_there :
    (send_id j k : Text) (u : Target) (m : List (Text × Target))
    → text_eq j k ≡ false
    → find k (kept_targets send_id ((j, u) ∷ m)) ≡ find k (kept_targets send_id m)
unfolding kept_targets
kept_there send_id j k u m h = elim (Bool-cases (text_eq (u.0) send_id)) [
  | inl drops ↦ rw drops
  | inr keeps ↦ rw keeps (find_there j k u (kept_targets send_id m) h)
]

module _ {W : Type 0} (lib : Libevent W) where
  entry_of : Text → Delayed W → Option CallbackData
  entry_of k q = find k q.callback_data

  cancelled : (k : Text) (q : Delayed W) → entry_of k (cancel_delayed lib k q) ≡ none
  unfolding entry_of cancel_delayed
  cancelled k q = from (find k q.callback_data) refl
    where
      from :
          (o : Option CallbackData)
          → find k q.callback_data ≡ o
          → find k (
              Delayed.callback_data (elim o as (λ _. Delayed W) [
                | none ↦ q
                | some d ↦ record q {
                  callback_data = erase k q.callback_data;
                  world = lib.event_free d.event (lib.event_del d.event q.world);
                }
              ]))
            ≡ none
      from none missing = missing
      from (some d) found = find-erase_same k q.callback_data

  untouched :
      (j k : Text) (q : Delayed W)
      → text_eq j k ≡ false
      → entry_of k (cancel_delayed lib j q) ≡ entry_of k q
  unfolding entry_of cancel_delayed
  untouched j k q h = from (find j q.callback_data)
    where
      from :
          (o : Option CallbackData)
          → find k (
              Delayed.callback_data (elim o as (λ _. Delayed W) [
                | none ↦ q
                | some d ↦ record q {
                  callback_data = erase j q.callback_data;
                  world = lib.event_free d.event (lib.event_del d.event q.world);
                }
              ]))
            ≡ find k q.callback_data
      from none = refl
      from (some d) = find-erase_other j k q.callback_data h

  step_untouched :
      (b : Bool) (j k : Text) (q : Delayed W)
      → text_eq j k ≡ false
      → entry_of k (if b then cancel_delayed lib j q else q) ≡ entry_of k q
  step_untouched true j k q h = untouched j k q h
  step_untouched false j k q h = refl

  -- Keys that are not in the map keep their entries.
  cancel_targets-none :
      (send_id k : Text) (m : List (Text × Target)) (q : Delayed W)
      → find k m ≡ none
      → entry_of k (cancel_targets lib send_id m q) ≡ entry_of k q
  unfolding cancel_targets find
  cancel_targets-none send_id k [] q h = refl
  cancel_targets-none send_id k ((j, t) ∷ m) q h = elim (Bool-cases (text_eq j k)) [
    | inl same ↦ absurd (some_none t (rw same at h))
    | inr other ↦
        cancel_targets-none send_id k m
          (if text_eq (t.0) send_id then cancel_delayed lib j q else q) (rw other at h)
        ∙ step_untouched (text_eq (t.0) send_id) j k q other
  ]
    where
      some_none : (x : Target) → some x ≡ none → ⊥
      some_none x e = cc

  cancel_targets_drops :
      (send_id k : Text) (t : Target) (m : List (Text × Target)) (q : Delayed W)
      → Distinct m
      → find k m ≡ some t
      → text_eq (t.0) send_id ≡ true
      → (find k (kept_targets send_id m) ≡ none)
        × (entry_of k (cancel_targets lib send_id m q) ≡ none)
  unfolding Distinct kept_targets cancel_targets find
  cancel_targets_drops send_id k t [] q d h eq = absurd (cc)
  cancel_targets_drops send_id k t ((j, u) ∷ m) q (n, d) h eq = elim (Bool-cases (text_eq j k)) [
    | inl same ↦
        let u_eq : u ≡ t = find_here j k u t m same h in
        let drop : text_eq (u.0) send_id ≡ true = ap (λ x. text_eq (x.0) send_id) u_eq ∙ eq in
        let absent : find k m ≡ none = subst (λ x. find x m ≡ none) (text_eq_sound j k same) n in
        (
          rw drop (kept_none send_id k m absent),
          rw drop (
              cancel_targets-none send_id k m (cancel_delayed lib j q) absent
              ∙ subst (λ x. entry_of k (cancel_delayed lib x q) ≡ none)
                  (sym (text_eq_sound j k same)) (cancelled k q)),
        )
    | inr other ↦
        let rest =
          cancel_targets_drops send_id k t m
            (if text_eq (u.0) send_id then cancel_delayed lib j q else q) d (rw other at h) eq in
        (kept_there send_id j k u m other ∙ rest.0, rest.1)
  ]

  cancel_targets_keeps :
      (send_id k : Text) (t : Target) (m : List (Text × Target)) (q : Delayed W)
      → Distinct m
      → find k m ≡ some t
      → text_eq (t.0) send_id ≡ false
      → (find k (kept_targets send_id m) ≡ some t)
        × (entry_of k (cancel_targets lib send_id m q) ≡ entry_of k q)
  unfolding Distinct kept_targets cancel_targets find
  cancel_targets_keeps send_id k t [] q d h eq = absurd (cc)
  cancel_targets_keeps send_id k t ((j, u) ∷ m) q (n, d) h eq = elim (Bool-cases (text_eq j k)) [
    | inl same ↦
        let u_eq : u ≡ t = find_here j k u t m same h in
        let keep : text_eq (u.0) send_id ≡ false = ap (λ x. text_eq (x.0) send_id) u_eq ∙ eq in
        let absent : find k m ≡ none = subst (λ x. find x m ≡ none) (text_eq_sound j k same) n in
        (rw (keep, same, u_eq), rw keep (cancel_targets-none send_id k m q absent))
    | inr other ↦
        let next = if text_eq (u.0) send_id then cancel_delayed lib j q else q in
        let rest = cancel_targets_keeps send_id k t m next d (rw other at h) eq in
        (
          kept_there send_id j k u m other ∙ rest.0,
          rest.1 ∙ step_untouched (text_eq (u.0) send_id) j k q other,
        )
  ]

  -- In a table with its keys in order, a cancellation by `sendid` takes each waiting event that was sent with it out of the table and out
  -- of the delayed queue.
  pub cancel_sent_drops :
      (send_id uuid : Text) (t : Target) (s : Session W)
      → Sorted s.delayed_event_targets
      → find uuid s.delayed_event_targets ≡ some t
      → text_eq (t.0) send_id ≡ true
      → (find uuid (cancel_sent lib send_id s).delayed_event_targets ≡ none)
        × (find uuid (cancel_sent lib send_id s).delay_queue.callback_data ≡ none)
  unfolding cancel_sent entry_of
  cancel_sent_drops send_id k t s sorted =
      cancel_targets_drops send_id k t s.delayed_event_targets s.delay_queue
        (Sorted-Distinct s.delayed_event_targets sorted)

  -- In a table with its keys in order, a cancellation by `sendid` leaves each waiting event that was sent with another one in the table,
  -- and its entry in the delayed queue, with its timer, as it was.
  pub cancel_sent_keeps :
      (send_id uuid : Text) (t : Target) (s : Session W)
      → Sorted s.delayed_event_targets
      → find uuid s.delayed_event_targets ≡ some t
      → text_eq (t.0) send_id ≡ false
      → (find uuid (cancel_sent lib send_id s).delayed_event_targets ≡ some t)
        × (find uuid (cancel_sent lib send_id s).delay_queue.callback_data
            ≡ find uuid s.delay_queue.callback_data)
  unfolding cancel_sent entry_of
  cancel_sent_keeps send_id k t s sorted =
      cancel_targets_keeps send_id k t s.delayed_event_targets s.delay_queue
        (Sorted-Distinct s.delayed_event_targets sorted)
