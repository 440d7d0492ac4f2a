-- ===== src/Queue/Delayed/Delivery.antt =====
-- What a timer that falls due delivers.
use uscxml.Prelude.{ℕ, ◌≡◌, ap, ◌∙◌, sym, Option, none, some, Text, find, erase, find-put_same}
use uscxml.Messages.{Event}
use uscxml.Queue.Delayed.{
  Libevent, CallbackData, Delayed, enqueue_delayed, begin_firing, end_firing, timer_callback,
}
use uscxml.Queue.Delayed.Timers.{some_inj}

module _ {W : Type 0} (lib : Libevent W) where
  -- The queue after the first lock
  abbrev pub freed : CallbackData → Delayed W → Delayed W
  freed d s = record s { world = lib.event_free d.event s.world }

  pub begin_firing-some :
      (k : Text) (d : CallbackData) (s : Delayed W)
      → find k s.callback_data ≡ some d
      → begin_firing lib k s ≡ some (d.user_data, freed d s)
  unfolding begin_firing
  begin_firing-some k d s h = ap begun h
    where
      begun : Option CallbackData → Option (Event × Delayed W)
      begun o = elim o [ none ↦ none | some e ↦ some (e.user_data, freed e s) ]

  begin_firing-none :
      (k : Text) (s : Delayed W) → find k s.callback_data ≡ none → begin_firing lib k s ≡ none
  unfolding begin_firing
  begin_firing-none k s h = ap begun h
    where
      begun : Option CallbackData → Option (Event × Delayed W)
      begun o = elim o [ none ↦ none | some e ↦ some (e.user_data, freed e s) ]

  end_firing-some :
      (k : Text) (d : CallbackData) (s : Delayed W)
      → find k s.callback_data ≡ some d
      → end_firing lib k s ≡ some (record s { callback_data = erase k s.callback_data })
  unfolding end_firing
  end_firing-some k d s h = ap ended h
    where
      ended : Option CallbackData → Option (Delayed W)
      ended o = elim o [
        | none ↦ none
        | some e ↦ some (record s { callback_data = erase k s.callback_data })
      ]

  -- A timer that falls due, with nothing in between the locks
  abbrev pub fire : Text → Delayed W → Option (Delayed W)
  fire = timer_callback lib (λ s. s) (λ q s. q) (λ e k t. some t)

  ended : Text → Option (Event × Delayed W) → Option (Delayed W)
  ended k o = elim o [
    | none ↦ none
    | some p ↦ elim (end_firing lib k (p.1)) [ none ↦ none | some q ↦ some q ]
  ]

  pub fire-none : (k : Text) (s : Delayed W) → find k s.callback_data ≡ none → fire k s ≡ none
  unfolding timer_callback ended
  fire-none k s h = ap (ended k) (begin_firing-none k s h)

  pub fire-some :
      (k : Text) (d : CallbackData) (s : Delayed W)
      → find k s.callback_data ≡ some d
      → fire k s ≡ some (record (freed d s) { callback_data = erase k s.callback_data })
  unfolding timer_callback ended
  fire-some k d s h =
      ap (ended k) (begin_firing-some k d s h) ∙ ap left (end_firing-some k d (freed d s) h)
    where
      left : Option (Delayed W) → Option (Delayed W)
      left o = elim o [ none ↦ none | some q ↦ some q ]

  pub user_data-enqueue_delayed :
      (e : Event) (delay : ℕ) (uuid : Text) (q : Delayed W) (d : CallbackData)
      → find uuid (Delayed.callback_data (enqueue_delayed lib e delay uuid q)) ≡ some d
      → d.user_data ≡ e
  unfolding enqueue_delayed
  user_data-enqueue_delayed e delay uuid q d h =
      sym (ap CallbackData.user_data (some_inj _ d (sym (find-put_same uuid _ _) ∙ h)))
