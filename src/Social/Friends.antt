-- ===== src/Social/Friends.antt =====
-- sendFriendRequest, acceptFriendRequest, rejectFriendRequest, removeFriend, areFriends, getFriends,
-- getPendingRequests, broadcastPresence.
use skype7_reborn.Prelude.{
  String, Bool, true, false, ◌&&◌, ◌||◌, List, [], map, ◌==◌, if◌then◌else◌, Result, ok, err,
}
use skype7_reborn.Prelude.Table.{select, any_row, update_where, delete_where}
use skype7_reborn.World.{World, Site}
use skype7_reborn.Wire.{NexusMessage, MsgType, blank}
use skype7_reborn.Db.{Db, Friend, FriendStatus, pending, accepted}
use skype7_reborn.Sql.{insert_unique}
use skype7_reborn.Server.{Server, send_to_all}

unfoldable pub from_to : String → String → Friend → Bool
from_to a b f = f.user_a == a && f.user_b == b

unfoldable pub between : String → String → Friend → Bool
unfolding from_to
between a b f = from_to a b f || from_to b a f

abbrev pub is_accepted : FriendStatus → Bool
is_accepted accepted = true
is_accepted pending = false

abbrev pub is_pending : FriendStatus → Bool
is_pending pending = true
is_pending accepted = false

-- A count that cannot be read is 0.
unfoldable pub send_friend_request : World → String → String → Db → Result (Unit {0}) × Db
send_friend_request w from to db =
    let known =
      (if w.fails Site.request_select then false else any_row (between from to) db.friends) in
    if known
    then (ok tt, db)
    else elim (insert_unique w Site.request_insert (from_to from to)
        (record { user_a = from; user_b = to; status = pending }) db.friends) [
          | err e ↦ (err e, db)
          | ok rows ↦ (ok tt, record db { friends = rows })
        ]

unfoldable pub pending_from : String → String → Friend → Bool
unfolding from_to
pending_from a b f = from_to a b f && is_pending f.status

unfoldable pub set_accepted : Friend → Friend
set_accepted f = record f { status = accepted }

unfoldable pub accept_friend_request : World → String → String → Db → Result (Unit {0}) × Db
accept_friend_request w from to db =
    if w.fails Site.accept_update then (err (w.error_text Site.accept_update), db) else (
      ok tt,
      record db { friends = update_where (pending_from from to) set_accepted db.friends },
    )

unfoldable pub reject_friend_request : World → String → String → Db → Db
reject_friend_request w from to db =
    if w.fails Site.reject_delete
    then db
    else record db { friends = delete_where (pending_from from to) db.friends }

unfoldable pub accepted_between : String → String → Friend → Bool
unfolding between
accepted_between a b f = is_accepted f.status && between a b f

unfoldable pub are_friends : World → String → String → Db → Bool
are_friends w a b db =
    if w.fails Site.are_friends then false else any_row (accepted_between a b) db.friends

unfoldable pub remove_friend : World → String → String → Db → Db
remove_friend w a b db =
    if w.fails Site.remove_delete
    then db
    else record db { friends = delete_where (between a b) db.friends }

unfoldable pub accepted_with : String → Friend → Bool
accepted_with u f = (f.user_a == u || f.user_b == u) && is_accepted f.status

-- CASE WHEN user_a = ? THEN user_b ELSE user_a END
unfoldable pub other_side : String → Friend → String
other_side u f = if f.user_a == u then f.user_b else f.user_a

unfoldable pub get_friends : World → Site → String → Db → List String
get_friends w site u db =
    if w.fails site then [] else map (other_side u) (select (accepted_with u) db.friends)

unfoldable pub pending_to : String → Friend → Bool
pending_to u f = f.user_b == u && is_pending f.status

unfoldable pub get_pending_requests : World → String → Db → List String
get_pending_requests w u db =
    if w.fails Site.pending_select
    then []
    else map (λ f. f.user_a) (select (pending_to u) db.friends)

unfoldable pub presence_message : String → String → NexusMessage
presence_message username status = record (blank MsgType.presence) {
  sender = username;
  status = status;
}

unfoldable pub broadcast_presence : World → String → String → Server → Server
broadcast_presence w username status s =
    send_to_all (get_friends w Site.friends_select username s.db) (presence_message username status)
      s
