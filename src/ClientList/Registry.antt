-- ===== src/ClientList/Registry.antt =====
-- The client list as a map from ids to status messages.
use small_program.Base.{
  bytes_eq_sym, inl, inr, subst, Bool-cases, bytes_eq_sound, ◌≡◌, refl, sym, ap, ◌∙◌, List, [], ◌∷◌,
  Option, none, some, false, ◌==◌, if◌then◌else◌, bytes_eq, bytes_eq_refl, arith,
}
use small_program.Message.Qt.{QByteArray}
use small_program.Message.ClientStatus.{UpdateClientStatusMsg}
use small_program.ClientList.{visit, update_clients, update_all, find_client}

-- No client is in the list twice.
abbrev pub IsUnique : List UpdateClientStatusMsg → Type 0
IsUnique [] = Unit {0}
IsUnique (c ∷ cs) = (find_client c.client_id cs ≡ none) × IsUnique cs

-- What a status message makes of the entry of its client.
abbrev pub observe :
    UpdateClientStatusMsg → Option UpdateClientStatusMsg → Option UpdateClientStatusMsg
observe msg none = some msg
observe msg (some old) = if old.status == 0 then none else some msg

-- The map's own account of the messages: each changes the entry of its client only.
abbrev pub entry :
    QByteArray
    → List UpdateClientStatusMsg
    → Option UpdateClientStatusMsg
    → Option UpdateClientStatusMsg
entry id [] old = old
entry id (msg ∷ msgs) old =
    entry id msgs (if bytes_eq msg.client_id id then observe msg old else old)

update_clients-cons :
    (msg c : UpdateClientStatusMsg) (cs : List UpdateClientStatusMsg)
    → update_clients msg (c ∷ cs) ≡ (
        if bytes_eq c.client_id msg.client_id
        then (if c.status == 0 then cs else msg ∷ cs)
        else c ∷ update_clients msg cs)
unfolding update_clients visit
update_clients-cons msg c cs = ground arith

find_same :
    (msg : UpdateClientStatusMsg) (cs : List UpdateClientStatusMsg)
    → IsUnique cs
    → find_client msg.client_id (update_clients msg cs) ≡ observe msg (find_client msg.client_id cs)
unfolding find_client update_clients visit
find_same msg [] u = rw (bytes_eq_refl msg.client_id)
find_same msg (c ∷ cs) u = elim (Bool-cases (bytes_eq c.client_id msg.client_id)) [
  | inl same ↦
      rw (update_clients-cons msg c cs, same)
        (met (ap (λ id. find_client id cs) (sym (bytes_eq_sound _ _ same)) ∙ u.0))
  | inr differ ↦ rw (update_clients-cons msg c cs, differ, differ) (find_same msg cs u.1)
]
  where
    met :
        find_client msg.client_id cs ≡ none
        → find_client msg.client_id (if c.status == 0 then cs else msg ∷ cs)
          ≡ (if c.status == 0 then none else some msg)
    met absent = ground (arith, bytes_eq_refl msg.client_id)

find_other :
    (id : QByteArray) (msg : UpdateClientStatusMsg) (cs : List UpdateClientStatusMsg)
    → bytes_eq msg.client_id id ≡ false
    → find_client id (update_clients msg cs) ≡ find_client id cs
unfolding find_client update_clients visit
find_other id msg [] other = rw other
find_other id msg (c ∷ cs) other = elim (Bool-cases (bytes_eq c.client_id msg.client_id)) [
  | inl same ↦
      rw (update_clients-cons msg c cs, same)
        (passed (ap (λ i. bytes_eq i id) (bytes_eq_sound _ _ same) ∙ other))
  | inr differ ↦
      rw (update_clients-cons msg c cs, differ)
        (ap (λ r. if bytes_eq c.client_id id then some c else r) (find_other id msg cs other))
]
  where
    passed :
        bytes_eq c.client_id id ≡ false
        → find_client id (if c.status == 0 then cs else msg ∷ cs)
          ≡ (if bytes_eq c.client_id id then some c else find_client id cs)
    passed away = ground (arith, other)

pub update_clients-IsUnique :
    (msg : UpdateClientStatusMsg) (cs : List UpdateClientStatusMsg)
    → IsUnique cs
    → IsUnique (update_clients msg cs)
unfolding update_clients visit find_client
update_clients-IsUnique msg [] u = (refl, tt)
update_clients-IsUnique msg (c ∷ cs) u = elim (Bool-cases (bytes_eq c.client_id msg.client_id)) [
  | inl same ↦
      rw (update_clients-cons msg c cs, same)
        (met (ap (λ id. find_client id cs) (sym (bytes_eq_sound _ _ same)) ∙ u.0))
  | inr differ ↦
      rw (update_clients-cons msg c cs, differ)
        (
          find_other c.client_id msg cs (bytes_eq_sym msg.client_id c.client_id ∙ differ) ∙ u.0,
          update_clients-IsUnique msg cs u.1,
        )
]
  where
    met : find_client msg.client_id cs ≡ none → IsUnique (if c.status == 0 then cs else msg ∷ cs)
    met absent = elim (Bool-cases (c.status == 0)) [
      | inl gone ↦ rw gone u.1
      | inr here ↦ rw here (absent, u.1)
    ]

find_client-update_clients :
    (id : QByteArray) (msg : UpdateClientStatusMsg) (cs : List UpdateClientStatusMsg)
    → IsUnique cs
    → find_client id (update_clients msg cs)
      ≡ (if bytes_eq msg.client_id id then observe msg (find_client id cs) else find_client id cs)
find_client-update_clients id msg cs u = elim (Bool-cases (bytes_eq msg.client_id id)) [
  | inl same ↦ rw same (
      subst (λ i. find_client i (update_clients msg cs) ≡ observe msg (find_client i cs))
        (bytes_eq_sound _ _ same) (find_same msg cs u))
  | inr other ↦ rw other (find_other id msg cs other)
]

-- The client list is a map from ids to status messages: if no client is in the list twice, then
-- after any status messages what a search for an id finds is given by the messages for that id
-- alone, where a message for an absent client adds it, one for a client whose entry has the
-- status 0 removes the entry, and any other replaces the entry; and still no client is in the
-- list twice.
pub find_client-update_all :
    (id : QByteArray) (msgs cs : List UpdateClientStatusMsg)
    → IsUnique cs
    → (find_client id (update_all msgs cs) ≡ entry id msgs (find_client id cs))
      × IsUnique (update_all msgs cs)
unfolding update_all
find_client-update_all id [] cs u = (refl, u)
find_client-update_all id (msg ∷ msgs) cs u =
    let (found, unique) =
      find_client-update_all id msgs (update_clients msg cs) (update_clients-IsUnique msg cs u) in
    (found ∙ ap (entry id msgs) (find_client-update_clients id msg cs u), unique)

-- If no client is in the list twice, then a client that is not in it, that connects with the
-- status 1 and then disconnects with the status 0, is still found, with the status 0; and when
-- it then connects again, it is not found.
pub disconnection_lags :
    (msg gone : UpdateClientStatusMsg) (cs : List UpdateClientStatusMsg)
    → IsUnique cs
    → find_client msg.client_id cs ≡ none
    → msg.status ≡ 1
    → gone.status ≡ 0
    → gone.client_id ≡ msg.client_id
    → (find_client msg.client_id (update_all (msg ∷ gone ∷ []) cs) ≡ some gone)
      × (find_client msg.client_id (update_all (msg ∷ gone ∷ msg ∷ []) cs) ≡ none)
disconnection_lags msg gone cs u absent one zero_status same = (
  (find_client-update_all msg.client_id (msg ∷ gone ∷ []) cs u).0
      ∙ rw (absent, same, bytes_eq_refl msg.client_id, one),
  (find_client-update_all msg.client_id (msg ∷ gone ∷ msg ∷ []) cs u).0
      ∙ rw (absent, same, bytes_eq_refl msg.client_id, one, zero_status),
)
