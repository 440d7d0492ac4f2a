-- ===== src/Queue/Basic/Laws.antt =====
-- First in, first out.
use uscxml.Prelude.{
  ℕ, ◌≡◌, refl, ap, ◌∙◌, sym, Bool, true, false, ◌==◌, Bool-cases, inl, inr, ◌↔◌, ◌||◌, ==_iff,
  Option, none, some, List, [], ◌∷◌, ◌++◌, Text, zero, suc, subst, length,
}
use uscxml.Messages.{Event, new_event}
use uscxml.Queue.Basic.{
  forever, Wait, enqueue, enqueue_all, wait_forever, wait_until, wait, take_front, dequeue,
}

append_nil : (q : List Event) → q ++ [] ≡ q
append_nil [] = refl
append_nil (e ∷ q) = ap (λ x. e ∷ x) (append_nil q)

append_assoc : (p q r : List Event) → (p ++ q) ++ r ≡ p ++ (q ++ r)
append_assoc [] q r = refl
append_assoc (e ∷ p) q r = ap (λ x. e ∷ x) (append_assoc p q r)

enqueue_all_lem : (es q : List Event) → enqueue_all es q ≡ q ++ es
unfolding enqueue_all enqueue
enqueue_all_lem [] q = sym (append_nil q)
enqueue_all_lem (e ∷ es) q = enqueue_all_lem es (q ++ e ∷ []) ∙ append_assoc q (e ∷ []) es

some_inj {ℓ} : {A : Type ℓ} (a b : A) → some a ≡ some b → a ≡ b
some_inj a b h = cc

none-some {ℓ} : {A : Type ℓ} (a : A) → none ≡ some a → ⊥
none-some a h = cc

-- What a call is served with, by the waits and the queue it finds: the front of a queue that is not empty, the
-- nameless event at once if it does not block or when its end time has passed, and else what it is served
-- with after the next wake-up.
pub data Served (block_ms : ℕ) (fresh : Text)
    : List Wait → List Event → Event → List Event → Type 0 where
  at_once : (ws : List Wait) (e : Event) (r : List Event) → Served block_ms fresh ws (e ∷ r) e r
  polled :
      (ws : List Wait) → (block_ms == 0) ≡ true → Served block_ms fresh ws [] (new_event fresh) []
  expired :
      (es : List Event) (ws : List Wait)
      → (block_ms == forever) ≡ false
      → (block_ms == 0) ≡ false
      → Served block_ms fresh ((false, es) ∷ ws) [] (new_event fresh) []
  woken :
      (b : Bool) (es : List Event) (ws : List Wait) (e : Event) (r : List Event)
      → (block_ms == 0) ≡ false
      → ((block_ms == forever) || b) ≡ true
      → Served block_ms fresh ws es e r
      → Served block_ms fresh ((b, es) ∷ ws) [] e r

module _ (block_ms : ℕ) (fresh : Text) where
  served : Option (List Event) → Option (Event × List Event)
  served o = elim o [ none ↦ none | some r ↦ some (take_front fresh r) ]

  wait-forever :
      (ws : List Wait) (q : List Event)
      → (block_ms == forever) ≡ true
      → wait block_ms ws q ≡ wait_forever ws q
  unfolding wait
  wait-forever ws q long = rw long

  wait-until :
      (ws : List Wait) (q : List Event)
      → (block_ms == forever) ≡ false
      → (block_ms == 0) ≡ false
      → wait block_ms ws q ≡ wait_until ws q
  unfolding wait
  wait-until ws q short some_ms = rw (short, some_ms)

  wait-polled :
      (ws : List Wait) (q : List Event)
      → (block_ms == forever) ≡ false
      → (block_ms == 0) ≡ true
      → wait block_ms ws q ≡ some q
  unfolding wait
  wait-polled ws q short zero_ms = rw (short, zero_ms)

  wait-first :
      (ws : List Wait) (e : Event) (r : List Event) → wait block_ms ws (e ∷ r) ≡ some (e ∷ r)
  unfolding wait_forever wait_until
  wait-first ws e r = elim (Bool-cases (block_ms == forever)) [
    | inl long ↦ wait-forever ws (e ∷ r) long
    | inr short ↦ elim (Bool-cases (block_ms == 0)) [
      | inl zero_ms ↦ wait-polled ws (e ∷ r) short zero_ms
      | inr some_ms ↦ wait-until ws (e ∷ r) short some_ms
    ]
  ]

  dequeue-first :
      (ws : List Wait) (e : Event) (r : List Event)
      → dequeue block_ms ws fresh (e ∷ r) ≡ some (e, r)
  unfolding dequeue served take_front
  dequeue-first ws e r = ap served (wait-first ws e r)

  dequeue-polled :
      (ws : List Wait)
      → (block_ms == 0) ≡ true
      → dequeue block_ms ws fresh [] ≡ some (new_event fresh, [])
  unfolding dequeue served take_front
  dequeue-polled ws h = ap served (wait-polled ws [] (rw ((==_iff block_ms 0).0 h) refl) h)

  dequeue-expired :
      (es : List Event) (ws : List Wait)
      → (block_ms == forever) ≡ false
      → (block_ms == 0) ≡ false
      → dequeue block_ms ((false, es) ∷ ws) fresh [] ≡ some (new_event fresh, [])
  unfolding dequeue served take_front wait_until
  dequeue-expired es ws short some_ms = ap served (wait-until ((false, es) ∷ ws) [] short some_ms)

  -- Where nothing wakes it up, a call that blocks waits.
  dequeue-waits : (block_ms == 0) ≡ false → dequeue block_ms [] fresh [] ≡ none
  unfolding dequeue served wait_forever wait_until
  dequeue-waits some_ms = elim (Bool-cases (block_ms == forever)) [
    | inl long ↦ ap served (wait-forever [] [] long)
    | inr short ↦ ap served (wait-until [] [] short some_ms)
  ]

  dequeue-woken :
      (b : Bool) (es : List Event) (ws : List Wait)
      → (block_ms == 0) ≡ false
      → ((block_ms == forever) || b) ≡ true
      → dequeue block_ms ((b, es) ∷ ws) fresh [] ≡ dequeue block_ms ws fresh es
  unfolding dequeue served wait_forever wait_until
  dequeue-woken b es ws some_ms wakes = ap served (from b wakes)
    where
      queued : enqueue_all es [] ≡ es
      queued = enqueue_all_lem es []

      from :
          (b : Bool)
          → ((block_ms == forever) || b) ≡ true
          → wait block_ms ((b, es) ∷ ws) [] ≡ wait block_ms ws es
      from b w = elim (Bool-cases (block_ms == forever)) [
        | inl long ↦
            wait-forever ((b, es) ∷ ws) [] long
            ∙ ap (wait_forever ws) queued
            ∙ sym (wait-forever ws es long)
        | inr short ↦
            wait-until ((b, es) ∷ ws) [] short some_ms
            ∙ ap (λ x. wait_until ((x, es) ∷ ws) []) (or_false short w)
            ∙ ap (wait_until ws) queued
            ∙ sym (wait-until ws es short some_ms)
      ]
        where
          or_false : (block_ms == forever) ≡ false → ((block_ms == forever) || b) ≡ true → b ≡ true
          or_false short o = rw short at o

  dequeue-of-Served :
      (ws : List Wait) (q : List Event) (e : Event) (r : List Event)
      → Served block_ms fresh ws q e r
      → dequeue block_ms ws fresh q ≡ some (e, r)
  dequeue-of-Served ws q e r (at_once ws' e' r') = dequeue-first ws e r
  dequeue-of-Served ws q e r (polled ws' h) = dequeue-polled ws h
  dequeue-of-Served ws q e r (expired es ws' short some_ms) = dequeue-expired es ws' short some_ms
  dequeue-of-Served ws q e r (woken b es ws' e' r' some_ms wakes s) =
      dequeue-woken b es ws' some_ms wakes ∙ dequeue-of-Served ws' es e r s

  Served-of :
      {ws : List Wait} {q : List Event} {e d : Event} {r p : List Event}
      → dequeue block_ms ws fresh q ≡ some (d, p)
      → dequeue block_ms ws fresh q ≡ some (e, r)
      → Served block_ms fresh ws q d p
      → Served block_ms fresh ws q e r
  Served-of {ws = ws} {q = q} g h s =
      let same = some_inj _ _ (sym g ∙ h) in
      subst (λ x. Served block_ms fresh ws q (x.0) (x.1)) same s

  Served-dequeue :
      (ws : List Wait) (q : List Event) (e : Event) (r : List Event)
      → dequeue block_ms ws fresh q ≡ some (e, r)
      → Served block_ms fresh ws q e r
  Served-dequeue ws (d ∷ q) e r h = Served-of (dequeue-first ws d q) h (at_once ws d q)
  Served-dequeue [] [] e r h = elim (Bool-cases (block_ms == 0)) [
    | inl zero_ms ↦ Served-of (dequeue-polled [] zero_ms) h (polled [] zero_ms)
    | inr some_ms ↦ absurd (none-some (e, r) (sym (dequeue-waits some_ms) ∙ h))
  ]
  Served-dequeue ((b, es) ∷ ws) [] e r h =
      let rest = Served-dequeue ws es e r in
      elim (Bool-cases (block_ms == 0)) [
        | inl zero_ms ↦
            Served-of (dequeue-polled ((b, es) ∷ ws) zero_ms) h (polled ((b, es) ∷ ws) zero_ms)
        | inr some_ms ↦ elim (Bool-cases ((block_ms == forever) || b)) [
          | inl wakes ↦
              woken b es ws e r some_ms wakes (rest (sym (dequeue-woken b es ws some_ms wakes) ∙ h))
          | inr over ↦ passed b es ws e r some_ms over h
        ]
      ]
    where
      passed :
          (b : Bool) (es : List Event) (ws : List Wait) (e : Event) (r : List Event)
          → (block_ms == 0) ≡ false
          → ((block_ms == forever) || b) ≡ false
          → dequeue block_ms ((b, es) ∷ ws) fresh [] ≡ some (e, r)
          → Served block_ms fresh ((b, es) ∷ ws) [] e r
      passed true es ws e r some_ms over h = absurd (or_true (block_ms == forever) over)
        where
          or_true : (x : Bool) → (x || true) ≡ false → ⊥
          or_true true o = absurd (cc)
          or_true false o = absurd (cc)
      passed false es ws e r some_ms over h =
          let short = or_false (block_ms == forever) over in
          Served-of (dequeue-expired es ws short some_ms) h (expired es ws short some_ms)
        where
          or_false : (x : Bool) → (x || false) ≡ false → x ≡ false
          or_false true o = o
          or_false false o = refl

-- A call of `dequeue` returns if, and only if, the waits and the queue serve it, and it returns what they
-- serve: the first of the events in the queue, or, where the queue is empty, the nameless event if it does not
-- block or its end time has passed, and else what it gets after the next wake-up. It leaves the others.
pub dequeue-Served :
    (block_ms : ℕ) (ws : List Wait) (fresh : Text) (q : List Event) (e : Event) (r : List Event)
    → (dequeue block_ms ws fresh q ≡ some (e, r)) ↔ Served block_ms fresh ws q e r
dequeue-Served n ws fresh q e r =
    (Served-dequeue n fresh ws q e r, dequeue-of-Served n fresh ws q e r)

-- `n` wake-ups that bring nothing
unfoldable pub spurious : ℕ → List Wait → List Wait
spurious zero ws = ws
spurious (suc n) ws = (true, []) ∷ spurious n ws

wait_forever-spurious :
    (n : ℕ) (e : Event) (es : List Event) (ws : List Wait)
    → wait_forever (spurious n ((true, e ∷ es) ∷ ws)) [] ≡ some (e ∷ es)
unfolding wait_forever spurious enqueue_all
wait_forever-spurious zero e es ws = ap (wait_forever ws) (enqueue_all_lem (e ∷ es) [])
wait_forever-spurious (suc n) e es ws = wait_forever-spurious n e es ws

wait_until-spurious :
    (n : ℕ) (e : Event) (es : List Event) (ws : List Wait)
    → wait_until (spurious n ((true, e ∷ es) ∷ ws)) [] ≡ some (e ∷ es)
unfolding wait_until spurious enqueue_all
wait_until-spurious zero e es ws = ap (wait_until ws) (enqueue_all_lem (e ∷ es) [])
wait_until-spurious (suc n) e es ws = wait_until-spurious n e es ws

wait-spurious :
    (m n : ℕ) (e : Event) (es : List Event) (ws : List Wait)
    → (m == 0) ≡ false
    → wait m (spurious n ((true, e ∷ es) ∷ ws)) [] ≡ some (e ∷ es)
unfolding wait
wait-spurious m n e es ws h = elim (Bool-cases (m == forever)) [
  | inl long ↦ rw long (wait_forever-spurious n e es ws)
  | inr short ↦ rw (short, h) (wait_until-spurious n e es ws)
]

-- A thread that waits for ever, or whose end time has not come, is served by the first event that
-- comes, however often it woke up for nothing; what comes with that event stays in the queue.
pub dequeue-spurious :
    (block_ms n : ℕ) (es : List Event) (ws : List Wait) (fresh : Text) (e : Event)
    → (block_ms == 0) ≡ false
    → dequeue block_ms (spurious n ((true, e ∷ es) ∷ ws)) fresh [] ≡ some (e, es)
unfolding dequeue take_front
dequeue-spurious m n es ws fresh e h = ap front (wait-spurious m n e es ws h)
  where
    front : Option (List Event) → Option (Event × List Event)
    front x = elim x [ none ↦ none | some y ↦ some (take_front fresh y) ]

-- `n` calls of `dequeue(0)`: the events in the order in which they come out
unfoldable pub drain : ℕ → List Event → List Event
drain zero q = []
drain (suc n) q = elim (dequeue 0 [] [] q) [ none ↦ [] | some p ↦ p.0 ∷ drain n (p.1) ]

drain-queue : (es : List Event) → drain (length es) es ≡ es
unfolding drain dequeue wait take_front
drain-queue [] = refl
drain-queue (e ∷ es) = ap (λ x. e ∷ x) (drain-queue es)

-- Events leave an empty queue in the order in which they were enqueued.
pub drain-enqueue_all : (es : List Event) → drain (length es) (enqueue_all es []) ≡ es
drain-enqueue_all es = ap (drain (length es)) (enqueue_all_lem es []) ∙ drain-queue es
