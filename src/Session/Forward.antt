-- ===== src/Session/Forward.antt =====
-- Which invokers an external event is forwarded to.
use uscxml.Prelude.{
  ℕ, ◌≡◌, refl, ap, ◌∙◌, Option, none, some, List, [], ◌∷◌, Text, find, if◌then◌else◌, true,
}
use uscxml.Messages.{Event, is_event}
use uscxml.Queue.Basic.{Wait, dequeue}
use uscxml.Session.{
  Session, Plugins, Result, Fault, done, throws, forward_to, dequeue_external, finalize_event,
}

-- The invokers whose ids are in the list, in the order of their ids
unfoldable pub forwarded : List (Text × Unit {0}) → List (Text × ℕ) → List ℕ
forwarded listed [] = []
forwarded listed ((id, i) ∷ m) =
    let rest = forwarded listed m in elim (find id listed) [ none ↦ rest | some u ↦ i ∷ rest ]

module _ {W : Type 0} (plugins : Plugins W)
    (quiet : (i : ℕ) (e : Event) (s : Session W) → (plugins.invoker_event i e s).0 ≡ none)
    (keeps_list : (i : ℕ) (e : Event) (s : Session W)
      → (plugins.invoker_event i e s).1.auto_forwarders ≡ s.auto_forwarders)
    (keeps_event : (i : ℕ) (e : Event) (s : Session W)
      → (plugins.invoker_event i e s).1.curr_event ≡ s.curr_event) where
  -- The event to each of the invokers, one after the other
  unfoldable pub deliver : Event → List ℕ → Session W → Session W
  deliver e [] s = s
  deliver e (i ∷ is) s = deliver e is (plugins.invoker_event i e s).1

  forward_to-deliver :
      (m : List (Text × ℕ)) (s : Session W)
      → forward_to plugins m s ≡ done (deliver s.curr_event (forwarded s.auto_forwarders m) s)
  unfolding forward_to forwarded deliver
  forward_to-deliver [] s = refl
  forward_to-deliver ((id, i) ∷ m) s =
      from (λ r. forward_to-deliver m r) (find id s.auto_forwarders)
    where
      rest : List ℕ
      rest = forwarded s.auto_forwarders m

      t : Session W
      t = (plugins.invoker_event i s.curr_event s).1

      outcome : Option Fault → Result W
      outcome o = elim o [ none ↦ forward_to plugins m t | some f ↦ throws f t ]

      Rest : Type 0
      Rest =
          (r : Session W)
          → forward_to plugins m r ≡ done (deliver r.curr_event (forwarded r.auto_forwarders m) r)

      visited : Rest → forward_to plugins m t ≡ done (deliver s.curr_event rest t)
      visited next = next t ∙ (λ k. done (
          deliver (keeps_event i s.curr_event s k) (forwarded (keeps_list i s.curr_event s k) m) t))

      from :
          Rest
          → (o : Option (Unit {0}))
          → (elim o as (λ _. Result W) [
            | none ↦ forward_to plugins m s
            | some u ↦ outcome (plugins.invoker_event i s.curr_event s).0
          ])
            ≡ done (
                deliver s.curr_event
                  (elim o as (λ _. List ℕ) [ none ↦ rest | some u ↦ i ∷ rest ])
                  s)
      from next none = next s
      from next (some u) = ap outcome (quiet i s.curr_event s) ∙ visited next

  -- The session when a new external event was taken from the queue and set
  unfoldable pub announced : Event → List Event → Session W → Session W
  announced e q s = plugins.set_event e (record s { external_queue = q; curr_event = e })

  -- What follows the `<finalize>` block: an exception in it ends the call.
  abbrev pub forward_finalized : Option Fault × Session W → Result W
  forward_finalized p = elim (p.0) [
    | some f ↦ throws f p.1
    | none ↦ done (deliver (p.1).curr_event (forwarded (p.1).auto_forwarders (p.1).invokers) (p.1))
  ]

  -- Where invokers that get an event neither throw nor change the event and the list of ids to forward to,
  -- `dequeueExternal`, when it gets an event, sets it, runs the `<finalize>` of the invocation it came from,
  -- and, unless that throws, hands it to each invoker in the list once, in the order of their ids, and to no
  -- other.
  pub dequeue_external-deliver :
      (block_ms : ℕ) (ws : List Wait) (fresh : Text) (s : Session W) (e : Event) (q : List Event)
      → dequeue block_ms ws fresh s.external_queue ≡ some (e, q)
      → is_event e ≡ true
      → dequeue_external plugins block_ms ws fresh s
        ≡ some (forward_finalized (finalize_event plugins e (announced e q s)))
  unfolding dequeue_external announced
  dequeue_external-deliver n ws fresh s e q got named =
      ap after got ∙ rw named (ap some (forwards (finalize_event plugins e (announced e q s))))
    where
      forwards :
          (p : Option Fault × Session W)
          → (elim (p.0) as (λ _. Result W) [
            | none ↦ forward_to plugins ((p.1).invokers) (p.1)
            | some f ↦ throws f (p.1)
          ])
            ≡ forward_finalized p
      forwards (none, t) = forward_to-deliver t.invokers t
      forwards (some f, t) = refl

      after : Option (Event × List Event) → Option (Result W)
      after o = elim o [
        | none ↦ none
        | some r ↦
            let s1 = record s { external_queue = r.1; curr_event = r.0 } in
            if is_event (r.0)
            then (let (fault, s2) = finalize_event plugins (r.0) (plugins.set_event (r.0) s1) in
                some (elim fault [
                  | none ↦ forward_to plugins (s2.invokers) s2
                  | some f ↦ throws f s2
                ]))
            else some (done s1)
      ]
