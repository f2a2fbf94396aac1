-- ===== src/Clipboard/Monitor.antt =====
-- data_sharing/clipboard/clipboard.cpp: the thread that listens to the clipboard, and the calls that
-- start and stop it, which are made one after the other. Whether a call of Windows succeeds is an
-- argument, but for CreateEvent and CreateThread, which do.
pub mod Lives
pub mod Failures
use small_program.Base.{
  ℕ, zero, suc, List, [], ◌∷◌, ◌++◌, Option, none, some, Bool, true, false, ◌||◌, not,
  if◌then◌else◌, Result, ok, err, ◌>>=◌,
}
use small_program.Clipboard.Listener.{Listener, Contents, Copied, on_clipboard_update}
use mathlib.Core.Option

-- g_thread: NULL, before the test of g_running, in GetMessage, or ended.
pub data Thread : Type 0 where
  null tests gets over : Thread

-- What GetMessage takes from the thread's queue: WM_CLIPBOARDUPDATE with what the clipboard has then,
-- WM_CLOSE, another message for the window, WM_QUIT, or an error.
pub data Message : Type 0 where
  clipboard_update : Option Contents → Message
  closes others quits fails : Message

-- A global handle: NULL, one that is valid, or one of an object that is gone.
pub data Handle : Type 0 where
  null_handle valid stale : Handle

-- `hwnd` is g_hWnd and `started` g_event. `registered` is the window class, `window` whether the window of g_hWnd is there and gets updates.
pub record Monitor : Type 0 where
  pub running : Bool
  pub registered : Bool
  pub window : Bool
  pub thread : Thread
  pub messages : List Message
  pub hwnd : Handle
  pub started : Handle

-- g_running after DllMain, and no thread.
unfoldable pub attach : Monitor
attach = record {
  running = false;
  registered = false;
  window = false;
  thread = null;
  messages = [];
  hwnd = null_handle;
  started = null_handle;
}

-- Whether RegisterClass, CreateWindow and AddClipboardFormatListener succeed.
pub record Answers : Type 0 where
  pub register_class : Bool
  pub create_window : Bool
  pub add_listener : Bool

-- ClipboardMonitorThread up to its loop: every path sets g_event. A class that is there already is
-- not registered again.
unfoldable pub clipboard_monitor_thread : Answers → Monitor → Monitor
clipboard_monitor_thread a m =
    if m.registered || not a.register_class
    then record m { thread = over }
    else (if a.create_window
        then (if a.add_listener
            then record m {
              registered = true;
              window = true;
              thread = tests;
              messages = [];
              hwnd = valid;
            }
            else record m { registered = true; thread = over; hwnd = stale })
        else record m { registered = true; thread = over; hwnd = null_handle })

-- StartClipboardMonitor, which waits for g_event and closes it.
unfoldable pub start_clipboard_monitor : Answers → Monitor → Monitor
unfolding clipboard_monitor_thread
start_clipboard_monitor a m =
    if m.running
    then m
    else clipboard_monitor_thread a (record m { running = true; started = stale })

-- A message for the window.
unfoldable pub post : Message → Monitor → Monitor
post msg m = if m.window then record m { messages = m.messages ++ (msg ∷ []) } else m

-- DestroyWindow and UnregisterClass, at the end of the thread.
unfoldable pub leave : Monitor → Monitor
leave m = record m {
  registered = false;
  window = false;
  thread = over;
  messages = [];
  hwnd = stale;
}

-- DispatchMessage to WndProc. WM_CLOSE destroys the window, whose messages are dropped, and WM_DESTROY
-- posts WM_QUIT.
unfoldable pub dispatch : Listener → List ℕ → Monitor → Message → Result (Monitor × List Copied)
unfolding on_clipboard_update leave
dispatch l unset m (clipboard_update c) = do
  copied ← on_clipboard_update l unset c
  ok (record m { thread = tests }, copied)
dispatch l unset m closes =
    ok (record m { window = false; hwnd = stale; thread = tests; messages = quits ∷ [] }, [])
dispatch l unset m others = ok (record m { thread = tests }, [])
dispatch l unset m quits = ok (leave m, [])
dispatch l unset m fails = ok (leave m, [])

-- GetMessage, which waits when there is no message.
abbrev pub get_message : Listener → List ℕ → Monitor → List Message → Result (Monitor × List Copied)
unfolding dispatch
get_message l unset m [] = ok (m, [])
get_message l unset m (msg ∷ msgs) = dispatch l unset (record m { messages = msgs }) msg

abbrev pub turn_of : Listener → List ℕ → Monitor → Thread → Result (Monitor × List Copied)
unfolding get_message leave
turn_of l unset m null = ok (m, [])
turn_of l unset m tests = ok ((if m.running then record m { thread = gets } else leave m), [])
turn_of l unset m gets = get_message l unset m m.messages
turn_of l unset m over = ok (m, [])

-- A turn of the thread in its loop, and the callbacks that it makes.
unfoldable pub turn : Listener → List ℕ → Monitor → Result (Monitor × List Copied)
unfolding turn_of
turn l unset m = turn_of l unset m m.thread

abbrev pub has_ended : Thread → Bool
has_ended null = true
has_ended tests = false
has_ended gets = false
has_ended over = true

-- The thread's turns until it has ended, at most so many; `none` if it has not ended then.
unfoldable pub wait_for_thread :
    Listener → List ℕ → ℕ → Monitor → Result (Option (Monitor × List Copied))
unfolding turn
wait_for_thread l unset zero m = ok (if has_ended m.thread then some (m, []) else none)
wait_for_thread l unset (suc k) m = if has_ended m.thread then ok (some (m, [])) else (do
  r ← turn l unset m
  rest ← wait_for_thread l unset k r.0
  ok (Option.map (λ q. (q.0, r.1 ++ q.1)) rest))

-- StopClipboardMonitor: WM_CLOSE, the wait for the thread, and its handle set to NULL.
unfoldable pub stop_clipboard_monitor :
    Listener → List ℕ → ℕ → Monitor → Result (Option (Monitor × List Copied))
unfolding post wait_for_thread
stop_clipboard_monitor l unset k m =
    if m.running
    then (do
      r ← wait_for_thread l unset k (post closes (record m { running = false }))
      ok (Option.map (λ q. (record q.0 { thread = null }, q.1)) r))
    else ok (some (m, []))

-- What happens to the monitor: a Start, a Stop, a message, or a turn of the thread.
pub data Event : Type 0 where
  starts : Answers → Event
  stops turns : Event
  posts : Message → Event

-- The turns that are given to a Stop.
abbrev pub stop_turns : ℕ
stop_turns = 2

-- A Stop that does not come back leaves the monitor as it was.
abbrev pub stopped : Monitor → Option (Monitor × List Copied) → Monitor × List Copied
stopped m none = (m, [])
stopped m (some r) = r

unfoldable pub event : Listener → List ℕ → Monitor → Event → Result (Monitor × List Copied)
unfolding start_clipboard_monitor stop_clipboard_monitor post turn
event l unset m (starts a) = ok (start_clipboard_monitor a m, [])
event l unset m stops = do r ← stop_clipboard_monitor l unset stop_turns m; ok (stopped m r)
event l unset m (posts msg) = ok (post msg m, [])
event l unset m turns = turn l unset m

unfoldable pub events : Listener → List ℕ → Monitor → List Event → Result (Monitor × List Copied)
unfolding event
events l unset m [] = ok (m, [])
events l unset m (e ∷ es) = do
  r ← event l unset m e
  rest ← events l unset r.0 es
  ok (rest.0, r.1 ++ rest.1)
