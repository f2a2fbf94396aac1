-- ===== src/Clipboard/Monitor/Failures.antt =====
-- The monitor after a Start that failed.
use small_program.Base.{
  ℕ, List, [], ◌∷◌, ◌++◌, ◌≡◌, refl, sym, ap, ◌∙◌, Bool, true, false, ◌&&◌, Bool-cases, inl, inr,
  Ensures, done, Ensures-bind,
}
use small_program.Clipboard.Listener.{Listener, Copied}
use small_program.Clipboard.Monitor.{
  Handle, Thread, null, over, Message, Monitor, attach, Answers, clipboard_monitor_thread,
  start_clipboard_monitor, post, turn, wait_for_thread, stop_clipboard_monitor, Event, starts,
  stops, turns, posts, event, events,
}

abbrev ended : Bool → Thread
ended true = over
ended false = null

module _ (l : Listener) (unset : List ℕ) where
  -- The class is registered, and nothing listens.
  data Lost : Monitor → Type 0 where
    lost :
        {b : Bool} {msgs : List Message} {w e : Handle} (t : Bool)
        → Lost (record {
          running = b;
          registered = true;
          window = false;
          thread = ended t;
          messages = msgs;
          hwnd = w;
          started = e;
        })

  -- Nothing has listened, and nothing was handed to a callback.
  abbrev LostStill : Monitor × List Copied → Type 0
  LostStill r = Lost r.0 × (r.1 ≡ [])

  event-Lost : (m : Monitor) (e : Event) → Lost m → Ensures LostStill (event l unset m e)
  unfolding event start_clipboard_monitor clipboard_monitor_thread stop_clipboard_monitor
      wait_for_thread post turn
  event-Lost _ (starts a) (lost {b = true} t) = done _ (lost t, refl)
  event-Lost _ (starts a) (lost {b = false} t) = done _ (lost true, refl)
  event-Lost _ stops (lost {b = true} true) = done _ (lost false, refl)
  event-Lost _ stops (lost {b = true} false) = done _ (lost false, refl)
  event-Lost _ stops (lost {b = false} t) = done _ (lost t, refl)
  event-Lost _ (posts msg) (lost t) = done _ (lost t, refl)
  event-Lost _ turns (lost true) = done _ (lost true, refl)
  event-Lost _ turns (lost false) = done _ (lost false, refl)

  events-Lost : (m : Monitor) (es : List Event) → Lost m → Ensures LostStill (events l unset m es)
  unfolding events
  events-Lost m [] v = done _ (v, refl)
  events-Lost m (e ∷ es) v =
      Ensures-bind LostStill LostStill (event l unset m e) _ (event-Lost m e v) λ r w.
        Ensures-bind LostStill LostStill _ _ (events-Lost r.0 es w.0)
          λ q x. done _ (x.0, ap (λ cs. cs ++ q.1) w.1 ∙ x.1)

  first-Lost :
      (a : Answers)
      → a.register_class ≡ true
      → a.create_window && a.add_listener ≡ false
      → Lost (start_clipboard_monitor a attach)
  unfolding start_clipboard_monitor clipboard_monitor_thread attach
  first-Lost a r f = elim (Bool-cases a.create_window) [
    | inl w ↦ rw (r, w, sym (ap (λ b. b && a.add_listener) w) ∙ f) (lost true)
    | inr w ↦ rw (r, w) (lost true)
  ]

  -- If the first StartClipboardMonitor registers the class, but the window or its listener
  -- cannot be made, then whatever follows, further Stops and Starts whose calls would succeed
  -- included, the class stays registered, no window listens, and no callback is called.
  pub failed_start :
      (a : Answers) (es : List Event)
      → a.register_class ≡ true
      → a.create_window && a.add_listener ≡ false
      → Ensures
          (λ r. (r.0.registered ≡ true) × (r.0.window ≡ false) × (r.1 ≡ []))
          (events l unset attach (starts a ∷ es))
  unfolding events event
  failed_start a es r f =
      Ensures-bind LostStill _ _ _
        (events-Lost (start_clipboard_monitor a attach) es (first-Lost a r f))
        λ q v. done _ ((fields q.0 v.0).0, (fields q.0 v.0).1, v.1)
    where
      fields : (m : Monitor) → Lost m → (m.registered ≡ true) × (m.window ≡ false)
      fields _ (lost t) = (refl, refl)
