-- ===== src/Queue/Delayed/Window.antt =====
-- What can go wrong between the two locks of `timerCallback`.
use uscxml.Prelude.{
  ℕ, ◌≡◌, refl, ap, ◌∙◌, Bool, true, false, not, ◌&&◌, ◌||◌, ◌==◌, ==_iff, Bool-cases, inl, inr,
  some, List, [], ◌∷◌, Text, find, text_eq,
}
use uscxml.Queue.Delayed.{
  Libevent, CallbackData, Delayed, cancel_entries, cancel_all_delayed, begin_firing,
}
use uscxml.Queue.Delayed.Delivery.{freed, begin_firing-some}
use uscxml.Queue.Delayed.Timers.{Timers, some_inj, release}

module _ {W : Type 0} (lib : Libevent W) (timers : Timers lib) where
  released_faulty :
      (h : ℕ) (w : W) → timers.faulty w ≡ true → timers.faulty (release lib timers h w) ≡ true
  released_faulty h w f = rw (timers.free_faulty h (lib.event_del h w), timers.del_faulty h w, f)

  cancel_entries_after_fault :
      (m : List (Text × CallbackData)) (w : W)
      → timers.faulty w ≡ true
      → timers.faulty (cancel_entries lib m w) ≡ true
  unfolding cancel_entries
  cancel_entries_after_fault [] w f = f
  cancel_entries_after_fault ((k, d) ∷ m) w f =
      cancel_entries_after_fault m (release lib timers d.event w) (released_faulty d.event w f)

  release_dead :
      (h : ℕ) (w : W) → timers.live w h ≡ false → timers.faulty (release lib timers h w) ≡ true
  release_dead h w l =
      rw (timers.free_faulty h (lib.event_del h w), timers.del_faulty h w, l)
        (either (timers.faulty w) _)
    where
      either : (a b : Bool) → ((a || true) || b) ≡ true
      either true b = refl
      either false b = refl

  cancel_entries_dead :
      (k : Text) (d : CallbackData) (m : List (Text × CallbackData)) (w : W)
      → find k m ≡ some d
      → timers.live w d.event ≡ false
      → timers.faulty (cancel_entries lib m w) ≡ true
  unfolding cancel_entries find
  cancel_entries_dead k d [] w f l = absurd (cc)
  cancel_entries_dead k d ((j, e) ∷ m) w f l = elim (Bool-cases (text_eq j k)) [
    | inl same ↦ cancel_entries_after_fault m (release lib timers e.event w) (
        release_dead e.event w
          (ap (λ x. timers.live w (CallbackData.event x)) (some_inj e d (rw same at f)) ∙ l))
    | inr other ↦ cancel_entries_dead k d m (release lib timers e.event w) (rw other at f) (
        rw
          (
            timers.free_live e.event (lib.event_del e.event w) d.event,
            timers.del_live e.event w d.event,
            l,
          )
          (and_false (not (d.event == e.event))))
  ]
    where
      and_false : (a : Bool) → (a && false) ≡ false
      and_false true = refl
      and_false false = refl

  -- A cancellation of all events that comes between the two locks of a timer that falls due deletes
  -- and frees a timer that is freed already.
  pub cancel_all_delayed-begin_firing :
      (uuid : Text) (d : CallbackData) (s : Delayed W)
      → find uuid s.callback_data ≡ some d
      → (t : Delayed W) × ((begin_firing lib uuid s ≡ some (d.user_data, t))
          × (timers.faulty (Delayed.world (cancel_all_delayed lib t)) ≡ true))
  unfolding cancel_all_delayed
  cancel_all_delayed-begin_firing k d s found = (
    freed lib d s,
    (
      begin_firing-some lib k d s found,
      cancel_entries_dead k d s.callback_data (lib.event_free d.event s.world) found
          (timers.free_live d.event s.world d.event ∙ rw ((==_iff d.event d.event).1 refl)),
    ),
  )
