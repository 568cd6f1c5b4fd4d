-- ===== src/Handlers/Roster.antt =====
-- The cases friend_request, friend_accept, friend_reject and friend_remove.
use skype7_reborn.Prelude.{ℕ, String, ◌==◌, if◌then◌else◌, ok, err}
use skype7_reborn.World.{World}
use skype7_reborn.Wire.{NexusMessage, MsgType, blank}
use skype7_reborn.Server.{Server, send_to_user, set_db, user_of}
use skype7_reborn.Social.Friends.{
  send_friend_request, accept_friend_request, reject_friend_request, remove_friend,
}

-- A notice that carries nothing but its sender.
unfoldable pub notice : MsgType → String → NexusMessage
notice t u = record (blank t) { sender = u }

-- A failed INSERT is logged, and nobody is told.
unfoldable pub handle_friend_request : World → ℕ → NexusMessage → Server → Server
handle_friend_request w c m s =
    let u = user_of s c in
    if u == ""
    then s
    else let (r, db) = send_friend_request w u m.recipient s.db in
      elim r [
        | err e ↦ set_db db s
        | ok _ ↦ send_to_user m.recipient (notice MsgType.friend_request u) (set_db db s)
      ]

unfoldable pub handle_friend_accept : World → ℕ → NexusMessage → Server → Server
handle_friend_accept w c m s =
    let u = user_of s c in
    if u == ""
    then s
    else let (r, db) = accept_friend_request w m.sender u s.db in
      elim r [
        | err e ↦ set_db db s
        | ok _ ↦ send_to_user m.sender (notice MsgType.friend_accepted u) (set_db db s)
      ]

unfoldable pub handle_friend_reject : World → ℕ → NexusMessage → Server → Server
handle_friend_reject w c m s =
    let u = user_of s c in if u == "" then s else set_db (reject_friend_request w m.sender u s.db) s

unfoldable pub handle_friend_remove : World → ℕ → NexusMessage → Server → Server
handle_friend_remove w c m s =
    let u = user_of s c in
    if u == ""
    then s
    else send_to_user m.recipient (notice MsgType.friend_removed u)
        (set_db (remove_friend w u m.recipient s.db) s)
