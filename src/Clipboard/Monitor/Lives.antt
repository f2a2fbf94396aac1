-- ===== src/Clipboard/Monitor/Lives.antt =====
-- The life of the monitor, from a Start to a Stop.
use small_program.Base.{
  ℕ, List, [], ◌∷◌, ◌++◌, ◌≡◌, refl, Bool, true, false, ok, Ensures, done, Ensures-bind,
}
use small_program.Clipboard.Listener.{Listener, Copied, on_clipboard_update}
use small_program.Clipboard.Monitor.{
  valid, stale, Thread, tests, gets, over, Message, clipboard_update, closes, others, quits, fails,
  Monitor, attach, Answers, clipboard_monitor_thread, start_clipboard_monitor, post, leave,
  dispatch, turn, wait_for_thread, stop_clipboard_monitor, Event, starts, stops, turns, posts,
  event, events,
}

-- The monitor as it was loaded, but for the handles of objects that are gone.
unfoldable pub left_over : Monitor
unfolding attach
left_over = record attach { hwnd = stale; started = stale }

-- A thread in its loop, before the test or in GetMessage.
abbrev pub listening : Bool → Thread
listening true = tests
listening false = gets

module _ (l : Listener) (unset : List ℕ) where
  -- An update that the window procedure can read.
  abbrev pub Readable : Message → Type 0
  Readable (clipboard_update c) =
      (copied : List Copied) × (on_clipboard_update l unset c ≡ ok copied)
  Readable closes = Unit {0}
  Readable others = Unit {0}
  Readable quits = Unit {0}
  Readable fails = Unit {0}

  abbrev AllReadable : List Message → Type 0
  AllReadable [] = Unit {0}
  AllReadable (msg ∷ msgs) = Readable msg × AllReadable msgs

  AllReadable-append :
      (msgs : List Message) (msg : Message)
      → AllReadable msgs
      → Readable msg
      → AllReadable (msgs ++ (msg ∷ []))
  AllReadable-append [] msg h r = (r, tt)
  AllReadable-append (m ∷ ms) msg h r = (h.0, AllReadable-append ms msg h.1 r)

  -- No Stop, and no update that cannot be read.
  abbrev pub Unstopped : List Event → Type 0
  Unstopped [] = Unit {0}
  Unstopped (starts a ∷ es) = Unstopped es
  Unstopped (stops ∷ es) = ⊥
  Unstopped (turns ∷ es) = Unstopped es
  Unstopped (posts msg ∷ es) = Readable msg × Unstopped es

  -- A monitor that was started, until a Stop: its window is there, or it is destroyed and WM_QUIT is to
  -- come, or its thread has left.
  data Up : Monitor → Type 0 where
    opened :
        {msgs : List Message} (t : Bool)
        → AllReadable msgs
        → Up (record {
          running = true;
          registered = true;
          window = true;
          thread = listening t;
          messages = msgs;
          hwnd = valid;
          started = stale;
        })
    shut :
        (t : Bool)
        → Up (record {
          running = true;
          registered = true;
          window = false;
          thread = listening t;
          messages = quits ∷ [];
          hwnd = stale;
          started = stale;
        })
    has_left : Up (record {
      running = true;
      registered = false;
      window = false;
      thread = over;
      messages = [];
      hwnd = stale;
      started = stale;
    })

  post-Up : (m : Monitor) (msg : Message) → Readable msg → Up m → Up (post msg m)
  unfolding post
  post-Up _ msg r (opened {msgs} t h) = opened t (AllReadable-append msgs msg h r)
  post-Up _ msg r (shut t) = shut t
  post-Up _ msg r has_left = has_left

  start-Up : (m : Monitor) (a : Answers) → Up m → Up (start_clipboard_monitor a m)
  unfolding start_clipboard_monitor
  start-Up _ a (opened t h) = opened t h
  start-Up _ a (shut t) = shut t
  start-Up _ a has_left = has_left

  turn-Up : (m : Monitor) → Up m → Ensures (λ r. Up r.0) (turn l unset m)
  unfolding turn dispatch leave
  turn-Up _ (opened true h) = done _ (opened false h)
  turn-Up _ (opened {msgs = []} false h) = done _ (opened false tt)
  turn-Up _ (opened {msgs = clipboard_update c ∷ msgs} false h) =
      rw h.0.1 (done _ (opened true h.1))
  turn-Up _ (opened {msgs = closes ∷ msgs} false h) = done _ (shut true)
  turn-Up _ (opened {msgs = others ∷ msgs} false h) = done _ (opened true h.1)
  turn-Up _ (opened {msgs = quits ∷ msgs} false h) = done _ has_left
  turn-Up _ (opened {msgs = fails ∷ msgs} false h) = done _ has_left
  turn-Up _ (shut true) = done _ (shut false)
  turn-Up _ (shut false) = done _ has_left
  turn-Up _ has_left = done _ has_left

  -- Two turns are enough for a Stop.
  stop-left_over : (m : Monitor) → Up m → Ensures (λ r. r.0 ≡ left_over) (event l unset m stops)
  unfolding event stop_clipboard_monitor wait_for_thread post turn dispatch leave left_over
  stop-left_over _ (opened true h) = done _ refl
  stop-left_over _ (opened {msgs = []} false h) = done _ refl
  stop-left_over _ (opened {msgs = clipboard_update c ∷ msgs} false h) = rw h.0.1 (done _ refl)
  stop-left_over _ (opened {msgs = closes ∷ msgs} false h) = done _ refl
  stop-left_over _ (opened {msgs = others ∷ msgs} false h) = done _ refl
  stop-left_over _ (opened {msgs = quits ∷ msgs} false h) = done _ refl
  stop-left_over _ (opened {msgs = fails ∷ msgs} false h) = done _ refl
  stop-left_over _ (shut true) = done _ refl
  stop-left_over _ (shut false) = done _ refl
  stop-left_over _ has_left = done _ refl

  events-left_over :
      (m : Monitor) (es : List Event)
      → Up m
      → Unstopped es
      → Ensures (λ r. r.0 ≡ left_over) (events l unset m (es ++ (stops ∷ [])))
  unfolding events event
  events-left_over m [] u h =
      Ensures-bind (λ r. r.0 ≡ left_over) _ (event l unset m stops) _ (stop-left_over m u)
        λ r e. done _ e
  events-left_over m (starts a ∷ es) u h =
      Ensures-bind (λ r. r.0 ≡ left_over) _ _ _
        (events-left_over (start_clipboard_monitor a m) es (start-Up m a u) h) λ r e. done _ e
  events-left_over m (stops ∷ es) u h = absurd h
  events-left_over m (turns ∷ es) u h =
      Ensures-bind (λ r. Up r.0) _ (turn l unset m) _ (turn-Up m u)
        λ r v.
          Ensures-bind (λ q. q.0 ≡ left_over) _ _ _ (events-left_over r.0 es v h) λ q e. done _ e
  events-left_over m (posts msg ∷ es) u h =
      Ensures-bind (λ r. r.0 ≡ left_over) _ _ _
        (events-left_over (post msg m) es (post-Up m msg h.0 u) h.1) λ r e. done _ e

  first-Up :
      (a : Answers)
      → a.register_class ≡ true
      → a.create_window ≡ true
      → a.add_listener ≡ true
      → Up (start_clipboard_monitor a attach)
  unfolding start_clipboard_monitor clipboard_monitor_thread attach
  first-Up a r w d = rw (r, w, d) (opened true tt)

  -- StartClipboardMonitor, where the calls of Windows succeed, then any turns of the thread,
  -- messages and further Starts, and then StopClipboardMonitor leave the monitor as it was when
  -- the library was loaded, but for g_hWnd and g_event, which keep the handles of the destroyed
  -- window and of the closed event; two turns of the thread are enough for the Stop to return.
  -- The condition: no update is posted that the window procedure cannot read.
  pub start-stop :
      (a : Answers) (es : List Event)
      → a.register_class ≡ true
      → a.create_window ≡ true
      → a.add_listener ≡ true
      → Unstopped es
      → Ensures (λ r. r.0 ≡ left_over) (events l unset attach (starts a ∷ (es ++ (stops ∷ []))))
  unfolding events event
  start-stop a es r w d h =
      Ensures-bind (λ r. r.0 ≡ left_over) _ _ _
        (events-left_over (start_clipboard_monitor a attach) es (first-Up a r w d) h)
        λ r e. done _ e
