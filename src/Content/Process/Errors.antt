-- ===== src/Content/Process/Errors.antt =====
-- Errors in executable content: what is thrown, and what is in the internal queue.
use uscxml.Prelude.{ℕ, suc, ◌+◌, ◌≤◌, ◌<◌, ◌≡◌, Bool, true, false, if◌then◌else◌, arith}
use uscxml.Messages.{Event, EventType}
use uscxml.Predicates.{Dom}
use uscxml.Content.{
  Element, Thrown, error_event, plain_event, other_exception, ContentCallbacks, Exec,
}
use uscxml.Content.Process.{process}
use uscxml.Content.Process.Nested.{Ordinary, process-Meets}
use uscxml.Content.Meets.{After}
use uscxml.Content.Respects.{Calls, Respects, Reports}

abbrev pub is_platform : EventType → Bool
is_platform EventType.platform = true
is_platform EventType.internal = false
is_platform EventType.external = false

module _ {W : Type 0} (errors : W → ℕ) where
  -- What is thrown within an element after `c` errors: an `ErrorEvent` is an error that need not be in the
  -- queue yet, a plain `Event` one that was put there.
  abbrev pub Within : ℕ → Thrown → W → Type 0
  Within c (error_event e) w = (e.event_type ≡ EventType.platform) × (c ≤ errors w)
  Within c (plain_event e) w = c < errors w
  Within c other_exception w = c ≤ errors w

  -- What leaves an element
  abbrev pub Reported : ℕ → Thrown → W → Type 0
  Reported c (error_event e) w = ⊥
  Reported c (plain_event e) w = c < errors w
  Reported c other_exception w = c ≤ errors w

-- The callbacks put errors into the queue and take none out, and a platform event counts where it is
-- enqueued.
pub record Counts {W : Type 0} (cb : ContentCallbacks W) (errors : W → ℕ) : Type 0 where
  pub calls : (c : ℕ) → Calls cb (λ w. c ≤ errors w) (Within errors c)
  pub counted :
      (e : Event) (w : W)
      → errors (cb.enqueue_internal e w) ≡ (if is_platform e.event_type then 1 else 0) + errors w

module _ {W : Type 0} {cb : ContentCallbacks W} {errors : W → ℕ} (k : Counts cb errors) where
  Counts-Respects : (c : ℕ) → Respects cb (λ w. c ≤ errors w) (Within errors c)
  Counts-Respects c = record {
    calls = k.calls c;
    raise_kept = λ e w h p. rw (k.counted e w) (omega (arith, h));
    thrown = λ e w h p. (h, p);
    rethrown = λ e d id w h. h;
  }

  Within-Reported : (c : ℕ) (t : Thrown) (w : W) → Reported errors c t w → Within errors c t w
  Within-Reported c (error_event e) w h = absurd h
  Within-Reported c (plain_event e) w h = h
  Within-Reported c other_exception w h = h

  Counts-Reports : (c : ℕ) → Reports cb (λ w. c ≤ errors w) (Within errors c) (Reported errors c)
  Counts-Reports c = record {
    respects = Counts-Respects c;
    reported =
        λ e n w h. (k.calls (suc c)).after_kept n _ (rw (k.counted e w, h.0) (omega (arith, h.1)));
    sliced = λ e w h. absurd h;
    passed = λ e w h. h;
    passed_other = λ w h. h;
    within = Within-Reported c;
  }

  -- Where callbacks throw platform errors, or plain events for errors that they put into the internal queue,
  -- and take no error out of it, and no <finalize> lies within the element: an element takes no error out of
  -- the queue, no error leaves it as an `ErrorEvent`, and if it ends with a plain event, an error was put
  -- into the queue, however deep the content is nested.
  pub process_reports :
      (dom : Dom) (e : Element) (s : Exec W)
      → Ordinary e
      → After
          (λ w. errors s.world ≤ errors w)
          (Reported errors (errors s.world))
          (process dom cb e s)
  process_reports dom e s o =
      (process-Meets (Counts-Reports (errors s.world)) dom e o).at s (omega arith)
