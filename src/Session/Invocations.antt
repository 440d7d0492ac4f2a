-- ===== src/Session/Invocations.antt =====
-- What the end of an invocation leaves.
use uscxml.Prelude.{ℕ, ◌≡◌, sym, subst, Option, none, some, Text, find, erase, find-erase_same}
use uscxml.Session.{Session, Plugins, uninvoke}

module _ {W : Type 0} (plugins : Plugins W) where
  -- After the end of a running invocation there is no invoker with its id, the id is not in the list of
  -- those that all events are forwarded to, and it has no `<finalize>`, whatever the invoker did as it
  -- stopped.
  pub uninvoke_lem :
      (invoke_id : Text) (i : ℕ) (s : Session W)
      → find invoke_id s.invokers ≡ some i
      → (find invoke_id (uninvoke plugins invoke_id s).invokers ≡ none)
        × ((find invoke_id (uninvoke plugins invoke_id s).auto_forwarders ≡ none)
            × (find invoke_id (uninvoke plugins invoke_id s).finalize ≡ none))
  unfolding uninvoke
  uninvoke_lem id i s found = subst Gone (sym found) (
    find-erase_same id (plugins.stop_invoker i s).invokers,
    (
      find-erase_same id (plugins.stop_invoker i s).auto_forwarders,
      find-erase_same id (plugins.stop_invoker i s).finalize,
    ),
  )
    where
      ended : Option ℕ → Session W
      ended o = elim o [
        | none ↦ s
        | some i ↦
            let s1 = plugins.stop_invoker i s in
            record s1 {
              auto_forwarders = erase id (s1.auto_forwarders);
              finalize = erase id (s1.finalize);
              invokers = erase id (s1.invokers);
            }
      ]

      Gone : Option ℕ → Type 0
      Gone o =
          (find id (ended o).invokers ≡ none)
          × ((find id (ended o).auto_forwarders ≡ none) × (find id (ended o).finalize ≡ none))
