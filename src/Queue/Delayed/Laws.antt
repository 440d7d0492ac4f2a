-- ===== src/Queue/Delayed/Laws.antt =====
-- The timers of the delayed queue are used only between their creation and their release.
use uscxml.Prelude.{
  ℕ, ◌≡◌, refl, ap, ◌∙◌, sym, Bool, true, false, not, ◌&&◌, ◌||◌, ◌==◌, ==_iff, Option,
  Option-cases, inl, inr, subst, none, some, List, [], ◌∷◌, Text, find, put, erase,
}
use uscxml.Messages.{Event}
use uscxml.Queue.Delayed.{
  Libevent, CallbackData, Delayed, to_timeval, cancel_delayed, enqueue_delayed, cancel_entries,
  cancel_all_delayed,
}
use uscxml.Queue.Delayed.Delivery.{fire, fire-none, fire-some}
use uscxml.Queue.Delayed.Timers.{
  Timers, Sound, IsSound, Sound-find, Sound-erase, Sound-more, Sound-release, release,
  release_faulty, Sound-Unused, Sound-put, some_inj,
}

module _ {W : Type 0} (lib : Libevent W) (timers : Timers lib) where
  cancel_delayed-IsSound :
      (k : Text) (s : Delayed W)
      → IsSound lib timers s
      → IsSound lib timers (cancel_delayed lib k s)
  unfolding IsSound cancel_delayed
  cancel_delayed-IsSound k s (f, g) = from (find k s.callback_data) refl
    where
      from :
          (o : Option CallbackData)
          → find k s.callback_data ≡ o
          → IsSound lib timers (elim o [
            | none ↦ s
            | some d ↦ record s {
              callback_data = erase k s.callback_data;
              world = lib.event_free d.event (lib.event_del d.event s.world);
            }
          ])
      from none missing = (f, g)
      from (some d) found = (
        release_faulty lib timers d.event s.world
            (Sound-find lib timers k d s.callback_data s.world found g) f,
        Sound-erase lib timers k d s.callback_data s.world found g,
      )

  cancel_entries_faulty :
      (m : List (Text × CallbackData)) (w : W)
      → Sound lib timers m w
      → timers.faulty w ≡ false
      → timers.faulty (cancel_entries lib m w) ≡ false
  unfolding Sound cancel_entries
  cancel_entries_faulty [] w s f = f
  cancel_entries_faulty ((k, d) ∷ m) w (l, (u, s)) f =
      cancel_entries_faulty m (release lib timers d.event w)
        (Sound-release lib timers m d.event w u s) (release_faulty lib timers d.event w l f)

  cancel_all_delayed-IsSound :
      (s : Delayed W) → IsSound lib timers s → IsSound lib timers (cancel_all_delayed lib s)
  unfolding IsSound cancel_all_delayed Sound
  cancel_all_delayed-IsSound s (f, g) = (cancel_entries_faulty s.callback_data s.world g f, tt)

  make_room : Text → Delayed W → Delayed W
  make_room k s = elim (find k s.callback_data) [ none ↦ s | some d ↦ cancel_delayed lib k s ]

  make_room-IsSound :
      (k : Text) (s : Delayed W) → IsSound lib timers s → IsSound lib timers (make_room k s)
  unfolding make_room
  make_room-IsSound k s g = from (find k s.callback_data)
    where
      from :
          (o : Option CallbackData)
          → IsSound lib timers (elim o [ none ↦ s | some d ↦ cancel_delayed lib k s ])
      from none = g
      from (some d) = cancel_delayed-IsSound k s g

  -- What `enqueue_delayed` does with the timer
  abbrev arm : Text → ℕ → W → W
  arm k delay w =
      lib.event_add (lib.event_new k w).0 (to_timeval delay)
        (lib.gettimeofday (lib.event_new k w).1).1

  arm_live :
      (k : Text) (delay : ℕ) (w : W) (x : ℕ)
      → timers.live (arm k delay w) x ≡ (x == (lib.event_new k w).0 || timers.live w x)
  arm_live k delay w x =
      timers.add_live (lib.event_new k w).0 (to_timeval delay)
        (lib.gettimeofday (lib.event_new k w).1).1 x
      ∙ timers.time_live (lib.event_new k w).1 x
      ∙ timers.new_live k w x

  arm_faulty :
      (k : Text) (delay : ℕ) (w : W)
      → timers.faulty w ≡ false
      → timers.faulty (arm k delay w) ≡ false
  arm_faulty k delay w f = rw (
    timers.add_faulty (lib.event_new k w).0 (to_timeval delay)
        (lib.gettimeofday (lib.event_new k w).1).1,
    timers.time_live (lib.event_new k w).1 (lib.event_new k w).0,
    timers.new_live k w (lib.event_new k w).0,
    timers.time_faulty (lib.event_new k w).1,
    timers.new_faulty k w,
    f,
    same (lib.event_new k w).0,
  )
    where
      same : (a : ℕ) → (a == a) ≡ true
      same a = (==_iff a a).1 refl

  place : Event → ℕ → Text → Delayed W → Delayed W
  place e delay k t =
      let added = (lib.gettimeofday (lib.event_new k t.world).1).0 in
      record t {
        callback_data =
            put k
              (record {
                user_data = e;
                event = (lib.event_new k t.world).0;
                added = added;
                due = lib.timeradd (to_timeval delay) added;
              })
              t.callback_data;
        world = arm k delay t.world;
      }

  place-IsSound :
      (e : Event) (delay : ℕ) (k : Text) (t : Delayed W)
      → IsSound lib timers t
      → IsSound lib timers (place e delay k t)
  unfolding IsSound place
  place-IsSound e delay k t (f, g) =
      let h = (lib.event_new k t.world).0 in
      let u = Sound-Unused lib timers t.callback_data h t.world (timers.new_unused k t.world) g in
      let more =
        Sound-more lib timers t.callback_data t.world (arm k delay t.world)
          (λ x l. arm_live k delay t.world x ∙ or_true (x == h) l) g in
      (
        arm_faulty k delay t.world f,
        Sound-put lib timers k _ t.callback_data (arm k delay t.world)
            (arm_live k delay t.world h ∙ rw ((==_iff h h).1 refl)) u more,
      )
    where
      or_true : (a : Bool) {b : Bool} → b ≡ true → (a || b) ≡ true
      or_true true p = refl
      or_true false p = p

  enqueue_delayed-IsSound :
      (e : Event) (delay : ℕ) (k : Text) (s : Delayed W)
      → IsSound lib timers s
      → IsSound lib timers (enqueue_delayed lib e delay k s)
  unfolding enqueue_delayed make_room place
  enqueue_delayed-IsSound e delay k s g =
      place-IsSound e delay k (make_room k s) (make_room-IsSound k s g)

  event_due :
      (k : Text) (d : CallbackData) (s : Delayed W)
      → find k s.callback_data ≡ some d
      → IsSound lib timers s
      → IsSound lib timers (record s {
        callback_data = erase k s.callback_data;
        world = lib.event_free d.event s.world;
      })
  unfolding IsSound
  event_due k d s found (f, g) = (
    rw (
      timers.free_faulty d.event s.world,
      Sound-find lib timers k d s.callback_data s.world found g,
      f,
    ),
    Sound-more lib timers (erase k s.callback_data) (release lib timers d.event s.world)
        (lib.event_free d.event s.world)
        (λ x l.
          timers.free_live d.event s.world x
          ∙ ap (λ y. not (x == d.event) && y) (sym (timers.del_live d.event s.world x))
          ∙ sym (timers.free_live d.event (lib.event_del d.event s.world) x)
          ∙ l)
        (Sound-erase lib timers k d s.callback_data s.world found g),
  )

  fire-IsSound :
      (k : Text) (s t : Delayed W)
      → fire lib k s ≡ some t
      → IsSound lib timers s
      → IsSound lib timers t
  fire-IsSound k s t h g = elim (Option-cases (find k s.callback_data)) [
    | inl missing ↦ absurd (none_some (sym (fire-none lib k s missing) ∙ h))
    | inr (d, found) ↦
        subst (IsSound lib timers) (some_inj _ t (sym (fire-some lib k d s found) ∙ h))
          (event_due k d s found g)
  ]
    where
      none_some : none ≡ some t → ⊥
      none_some e = cc

  -- The calls on the queue, each under the lock, and the timers that fall due, one after the other;
  -- what a due event starts is a later step. A timer falls due only while its entry is there: libevent does not
  -- call a timer that was deleted, and a timer leaves with its entry.
  pub data Step : Delayed W → Delayed W → Type 0 where
    enqueues :
        (e : Event) (delay : ℕ) (uuid : Text) (s : Delayed W)
        → Step s (enqueue_delayed lib e delay uuid s)
    cancels : (event_id : Text) (s : Delayed W) → Step s (cancel_delayed lib event_id s)
    cancels_all : (s : Delayed W) → Step s (cancel_all_delayed lib s)
    fires : (uuid : Text) (s t : Delayed W) → fire lib uuid s ≡ some t → Step s t

  pub data Reaches : Delayed W → Delayed W → Type 0 where
    here : (s : Delayed W) → Reaches s s
    next : (s t u : Delayed W) → Step s t → Reaches t u → Reaches s u

  Step-IsSound : (s t : Delayed W) → Step s t → IsSound lib timers s → IsSound lib timers t
  Step-IsSound s t (enqueues e delay k s') g = enqueue_delayed-IsSound e delay k s g
  Step-IsSound s t (cancels k s') g = cancel_delayed-IsSound k s g
  Step-IsSound s t (cancels_all s') g = cancel_all_delayed-IsSound s g
  Step-IsSound s t (fires k s' t' h) g = fire-IsSound k s t h g

  -- However the queue is used from a state in which each entry has a live timer of its own and no
  -- fault has happened, as long as no call comes between the two locks of a timer that falls due, the
  -- state stays so: no timer is deleted or freed twice, or after it was freed.
  pub Reaches-IsSound :
      (s t : Delayed W) → Reaches s t → IsSound lib timers s → IsSound lib timers t
  Reaches-IsSound s t (here s') g = g
  Reaches-IsSound s t (next s' u t' p r) g = Reaches-IsSound u t r (Step-IsSound s u p g)
