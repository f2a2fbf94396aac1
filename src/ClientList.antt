-- ===== src/ClientList.antt =====
-- The clients that are shown: `GlobalData::m_clientVec`, as `MainWindow::onDispatchMessage` of
-- windows_clipboard/src/mainwindow.cpp changes it on a status message, and as
-- `DeviceInfo::onOpenFile` of device_info.cpp looks it up.
pub mod Registry
use small_program.Base.{
  ℕ, List, [], ◌∷◌, ◌++◌, Option, none, some, Bool, true, false, ◌==◌, if◌then◌else◌, bytes_eq,
}
use small_program.Message.Qt.{QByteArray}
use small_program.Message.ClientStatus.{UpdateClientStatusMsg}

-- The loop over the clients: whether it met the client of the message, and the clients then. The
-- entry that it meets is erased if its status is 0, and replaced otherwise.
unfoldable pub visit :
    UpdateClientStatusMsg → List UpdateClientStatusMsg → Bool × List UpdateClientStatusMsg
visit msg [] = (false, [])
visit msg (c ∷ cs) =
    let rest = visit msg cs in
    if bytes_eq c.client_id msg.client_id
    then (true, if c.status == 0 then cs else msg ∷ cs)
    else (rest.0, c ∷ rest.1)

-- The branch of `onDispatchMessage` on a status message.
unfoldable pub update_clients :
    UpdateClientStatusMsg → List UpdateClientStatusMsg → List UpdateClientStatusMsg
unfolding visit
update_clients msg cs = if (visit msg cs).0 then (visit msg cs).1 else (visit msg cs).1 ++ msg ∷ []

-- One status message after the other.
unfoldable pub update_all :
    List UpdateClientStatusMsg → List UpdateClientStatusMsg → List UpdateClientStatusMsg
unfolding update_clients
update_all [] cs = cs
update_all (msg ∷ msgs) cs = update_all msgs (update_clients msg cs)

-- The loop of `onOpenFile`: the first client with the id, `none` for nullptr.
unfoldable pub find_client : QByteArray → List UpdateClientStatusMsg → Option UpdateClientStatusMsg
find_client id [] = none
find_client id (c ∷ cs) = if bytes_eq c.client_id id then some c else find_client id cs
