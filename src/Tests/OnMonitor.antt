-- ===== src/Tests/OnMonitor.antt =====
-- The monitor of the clipboard: its life, and what it hands to the callbacks.
use small_program.Base.{
  ◌+◌, ◌*◌, ◌^◌, ◌<◌, ◌≡◌, refl, length, List, [], ◌∷◌, ◌++◌, replicate, some, none, true, false,
  arith, err, undefined, Ensures,
}
use small_program.Clipboard.Listener.{
  CopiedFile, Bitmap, from_dib, drops, bitmap, Listener, on_clipboard_update, on_contents,
  copy_file, get_file_size,
}
use small_program.Clipboard.Listener.Copies.{
  Handed, on_clipboard_update-Handed, on_clipboard_update-bitmap,
}
use small_program.Clipboard.Listener.Large.{run-large}
use small_program.Paste.Transfer.{writes, turns as reads}
use small_program.Paste.Stream.{create, run}
use small_program.Paste.Stream.Reading.{received_bytes}
use small_program.Clipboard.Monitor.{
  attach, Answers, clipboard_update, Event, starts, stops, turns, posts, events,
}
use small_program.Clipboard.Monitor.Lives.{left_over, start-stop}
use small_program.Clipboard.Monitor.Failures.{failed_start}

abbrev idle_listener : Listener
idle_listener = record {
  is_ole_clipboard_operation = false;
  cp_filecallback = true;
  cp_img_callback = true;
}

-- A file of 5 GB and 7 bytes.
abbrev large_file : CopiedFile
large_file = record { path = 67 ∷ 58 ∷ 92 ∷ 97 ∷ []; size = some (5 * 2 ^ 30 + 7) }

on_clipboard_update-Handed_example :
    Handed large_file.path large_file.size
      (on_clipboard_update idle_listener [] (some (drops (some (large_file ∷ [])))))
on_clipboard_update-Handed_example =
    on_clipboard_update-Handed idle_listener [] large_file [] refl refl

-- Three columns of 24 bits and two rows.
abbrev narrow : Bitmap
narrow = record { width = 3; height = 2; width_bytes = 10; planes = 1; bits_pixel = 24 }

on_clipboard_update-bitmap_example :
    on_clipboard_update idle_listener []
      (some (bitmap (some (some (narrow, from_dib 0 (replicate 24 9))))))
    ≡ err undefined
on_clipboard_update-bitmap_example =
    on_clipboard_update-bitmap idle_listener [] narrow 0 (replicate 24 9) refl refl refl refl
      (omega arith) (λ z. refl) (λ z. absurd (omega (arith, z))) (omega arith)

abbrev all_work : Answers
all_work = record { register_class = true; create_window = true; add_listener = true }

abbrev no_listener : Answers
no_listener = record { register_class = true; create_window = true; add_listener = false }

-- A copy, and a message that is left when the Stop comes.
abbrev some_events : List Event
some_events =
    turns
    ∷ posts (clipboard_update (some (drops (some (large_file ∷ [])))))
    ∷ turns
    ∷ turns
    ∷ starts no_listener
    ∷ posts (clipboard_update none)
    ∷ []

start-stop_example :
    Ensures
      (λ r. r.0 ≡ left_over)
      (events idle_listener [] attach (starts all_work ∷ (some_events ++ (stops ∷ []))))
unfolding on_clipboard_update on_contents copy_file get_file_size
start-stop_example =
    start-stop idle_listener [] all_work some_events refl refl refl ((_, refl), ((_, refl), tt))

failed_start_example :
    Ensures
      (λ r. (r.0.registered ≡ true) × (r.0.window ≡ false) × (r.1 ≡ []))
      (events idle_listener [] attach (starts no_listener ∷ stops ∷ starts all_work ∷ some_events))
failed_start_example =
    failed_start idle_listener [] no_listener (stops ∷ starts all_work ∷ some_events) refl refl

large-words : get_file_size (some (2 ^ 32 + 2)) ≡ some (1, 2)
unfolding get_file_size
large-words = refl

run-large_example :
    Ensures
      (λ r. length (received_bytes r.0) < 2 ^ 32 + 2)
      (run (create true 1 2) (writes (some (1 ∷ 2 ∷ [])) ∷ reads 4 ∷ writes (some (3 ∷ [])) ∷ []))
run-large_example =
    run-large (2 ^ 32 + 2) 1 2 (writes (some (1 ∷ 2 ∷ [])) ∷ reads 4 ∷ writes (some (3 ∷ [])) ∷ [])
      (omega arith) large-words (omega arith, (omega arith, (omega arith, tt)))
