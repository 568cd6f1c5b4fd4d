-- ===== src/Handlers/Replacement.antt =====
-- Proofs on the map of clients in the logins and at the end of a connection.
use skype7_reborn.Prelude.{
  ℕ, String, ◌≡◌, ◌≢◌, refl, List, [], ◌∷◌, some, ◌==◌, eq_refl, eq-false, arith, if◌then◌else◌,
  ◌∙◌,
}
use skype7_reborn.Prelude.Dict.{lookup, insert, lookup-insert}
use skype7_reborn.World.{World}
use skype7_reborn.Wire.{NexusMessage}
use skype7_reborn.Db.{OfflineMessage}
use skype7_reborn.Server.{Server, send, set_conn, close, user_of}
use skype7_reborn.Server.Effects.{clients-send, clients-send_to_all, clients-set_db, conns-send}
use skype7_reborn.Social.Friends.{broadcast_presence}
use skype7_reborn.Social.Offline.{send_rows, deliver_offline_messages}
use skype7_reborn.Handlers.Login.{
  install, kick_existing, resume, complete_auth, send_list, friend_statuses, send_pending,
  drop_client, was_replaced, disconnect,
}

clients-send_rows :
    (w : World) (c : ℕ) (ms : List OfflineMessage) (s : Server)
    → (send_rows w c ms s).clients ≡ s.clients
unfolding send_rows
clients-send_rows w c [] s = refl
clients-send_rows w c (m ∷ ms) s = clients-send_rows w c ms (send c _ s) ∙ clients-send c _ s

clients-send_list :
    (c : ℕ) (ms : List NexusMessage) (s : Server) → (send_list c ms s).clients ≡ s.clients
unfolding send_list
clients-send_list c [] s = refl
clients-send_list c (m ∷ ms) s = clients-send_list c ms (send c m s) ∙ clients-send c m s

clients-friend_statuses :
    (c : ℕ) (fs : List String) (s : Server) → (friend_statuses c fs s).clients ≡ s.clients
unfolding friend_statuses
clients-friend_statuses c [] s = refl
clients-friend_statuses c (f ∷ fs) s =
    clients-friend_statuses c fs (send c _ s) ∙ clients-send c _ s

clients-broadcast_presence :
    (w : World) (u status : String) (s : Server)
    → (broadcast_presence w u status s).clients ≡ s.clients
unfolding broadcast_presence
clients-broadcast_presence w u status s = clients-send_to_all _ _ s

clients-deliver_offline_messages :
    (w : World) (u : String) (s : Server) → (deliver_offline_messages w u s).clients ≡ s.clients
unfolding deliver_offline_messages
clients-deliver_offline_messages w u s = grind (arith, clients-send_rows, clients-set_db)

clients-send_pending :
    (w : World) (c : ℕ) (u : String) (s : Server) → (send_pending w c u s).clients ≡ s.clients
unfolding send_pending
clients-send_pending w c u s = grind (arith, clients-send)

clients-install : (c : ℕ) (u : String) (s : Server) → (install c u s).clients ≡ insert u c s.clients
unfolding install kick_existing set_conn close
clients-install c u s = grind (arith, clients-send)

user_of-install :
    (c d : ℕ) (u : String) (s : Server) → c ≢ d → user_of (install d u s) c ≡ user_of s c
unfolding install kick_existing set_conn close
user_of-install c d u s differ = grind (arith, conns-send)

-- After each of the three kinds of login the user's entry is the connection that logged in, and every
-- other user's entry is what it was.
pub lookup-login :
    (w : World) (c : ℕ) (m : NexusMessage) (u v token : String) (s : Server)
    → (lookup v (complete_auth w c m s).clients
        ≡ (if m.sender == v then some c else lookup v s.clients))
      × (lookup v (resume w c u token s).clients ≡ (if u == v then some c else lookup v s.clients))
unfolding complete_auth resume
lookup-login w c m u v token s = (
  grind (
    arith, clients-friend_statuses, clients-send_list, clients-send_pending,
    clients-deliver_offline_messages, clients-broadcast_presence, clients-send, clients-install,
    clients-set_db, lookup-insert,
  ),
  grind (
    arith, clients-deliver_offline_messages, clients-broadcast_presence, clients-send,
    clients-install, lookup-insert,
  ),
)

-- A user who logs in on another connection is not logged out when the old connection ends: the entry
-- stays, no friend is told that the user went offline, and nothing but the old socket changes.
pub disconnect-install :
    (w : World) (c d : ℕ) (u : String) (s : Server)
    → user_of s c ≡ u
    → u ≢ ""
    → c ≢ d
    → disconnect w c (install d u s) ≡ close c (install d u s)
unfolding disconnect drop_client was_replaced
disconnect-install w c d u s same full differ =
    let found : lookup u (install d u s).clients ≡ some d =
      rw (clients-install d u s, lookup-insert, eq_refl u) in
    let name : user_of (install d u s) c ≡ u = user_of-install c d u s differ ∙ same in
    ground (arith, name, found, eq-false u "" full, differ)
