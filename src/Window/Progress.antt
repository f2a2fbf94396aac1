-- ===== src/Window/Progress.antt =====
-- The progress of a transfer, from the message to the widgets.
use small_program.Base.{
  ℕ, ◌<◌, ◌≤◌, ◌≡◌, refl, ap, [], ◌∷◌, some, true, false, arith, Build, ok, Ensures, done, bytes_eq,
  bytes_eq_refl,
}
use small_program.Message.Qt.{Qt, QByteArray}
use small_program.Message.Progress.{UpdateProgressMsg}
use small_program.Process.{progress}
use small_program.Window.{
  GlobalData, update_control_status, update_progress_info_with_id, Answer, Host, progress_val,
  show_progress, on_dispatch_message, DeviceInfo, get_client_id, on_update_progress_info_with_id,
}

module _ (host : Host) (qt : Qt) (build : Build) where
  -- A progress message of a transfer that is not complete emits one value, of at most 100, for
  -- the message's client; the widget of that client shows it, and the widget of another client
  -- goes back to 0 and emits nothing. The condition is that the message's log text can be made.
  pub on_dispatch_message-progress :
      (answer : Answer) (g : GlobalData) (msg : UpdateProgressMsg) (text : QByteArray)
      (own other : DeviceInfo)
      → host.dump msg ≡ some text
      → msg.sent_size < msg.file_size
      → get_client_id own ≡ msg.client_id
      → bytes_eq msg.client_id (get_client_id other) ≡ false
      → Ensures
          (λ r.
            (val : ℕ) × (val ≤ 100)
            × (r ≡ (g, update_progress_info_with_id val msg.client_id ∷ []))
            × ((on_update_progress_info_with_id val msg.client_id own).0 ≡ record own { bar = val })
            × (on_update_progress_info_with_id val msg.client_id other
                ≡ (record other { bar = 0 }, [])))
          (on_dispatch_message host qt build answer g (progress msg))
  unfolding on_dispatch_message show_progress progress_val on_update_progress_info_with_id
  on_dispatch_message-progress answer g msg text own other dumped part mine differs =
      let (p, e, bound) = host.percent_part msg.sent_size msg.file_size part in
      rw (dumped, e)
        (done _ (
          p,
          bound,
          ap (λ v. (g, update_progress_info_with_id v msg.client_id ∷ [])) (ground (arith, part)),
          rw (mine, bytes_eq_refl msg.client_id) refl,
          rw differs refl,
        ))

  -- A progress message of a complete transfer, where the cast of the quotient is defined, emits
  -- 100 for the message's client; the widget of that client shows 100 and has the controls
  -- enabled again. The condition is that the message's log text can be made.
  pub on_dispatch_message-finished :
      (answer : Answer) (g : GlobalData) (msg : UpdateProgressMsg) (text : QByteArray) (p : ℕ)
      (own : DeviceInfo)
      → host.dump msg ≡ some text
      → host.percent msg.sent_size msg.file_size ≡ some p
      → msg.file_size ≤ msg.sent_size
      → get_client_id own ≡ msg.client_id
      → (on_dispatch_message host qt build answer g (progress msg)
          ≡ ok (g, update_progress_info_with_id 100 msg.client_id ∷ []))
        × (on_update_progress_info_with_id 100 msg.client_id own
            ≡ (record own { bar = 100 }, update_control_status true ∷ []))
  unfolding on_dispatch_message show_progress progress_val on_update_progress_info_with_id
  on_dispatch_message-finished answer g msg text p own dumped cast whole mine = (
    rw (dumped, cast)
        (ap (λ v. ok (g, update_progress_info_with_id v msg.client_id ∷ []))
          (ground (arith, whole))),
    rw (mine, bytes_eq_refl msg.client_id),
  )
