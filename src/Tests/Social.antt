-- ===== src/Tests/Social.antt =====
-- The theorems on friends, blocks and conversations at concrete inputs.
use skype7_reborn.Prelude.{
  String, ℕ, leb, ◌≡◌, refl, ◌⊎◌, inr, [], ◌∷◌, some, err, ◌||◌, ◌&&◌, text-apart, map,
}
use skype7_reborn.Prelude.Table.{any_row, delete_where, order_by, select}
use skype7_reborn.Prelude.Text.{append}
use skype7_reborn.Prelude.Dict.{lookup}
use skype7_reborn.Wire.{NexusMessage, MsgType, blank}
use skype7_reborn.Db.{Db, pending, accepted, OfflineMessage}
use skype7_reborn.Server.{send}
use skype7_reborn.Social.Friends.{are_friends, accept_friend_request, pending_from}
use skype7_reborn.Social.Convos.{create_conversation, member_row, mem_text}
use skype7_reborn.Social.Consent.{are_friends-accept_friend_request, is_pair}
use skype7_reborn.Social.Founding.{
  create_conversation_atomic, conversation_members-create_conversation,
}
use skype7_reborn.Handlers.Chat.{handle_msg, handle_block, delivered_offline}
use skype7_reborn.Handlers.Blocking.{handle_msg-handle_block}
use skype7_reborn.Handlers.Origin.{handle_msg-sender}
use mathlib.Core.List.{reverse_aux}
use skype7_reborn.Social.Offline.{deliver_offline_messages, waiting}
use skype7_reborn.Social.Delivery.{deliver_offline_messages-waiting, is_for}
use skype7_reborn.Tests.Data.{morning, noon, failing, three_users, two_online, to_user}

abbrev asked : Db
asked = record three_users {
  friends = record { user_a = "alice"; user_b = "bob"; status = pending } ∷ [];
}

are_friends-accept_friend_request_example :
    are_friends noon "bob" "alice" (accept_friend_request morning "alice" "bob" asked).1 ≡ (
      are_friends noon "bob" "alice" asked
      || (is_pair "bob" "alice" "alice" "bob"
          && any_row (pending_from "alice" "bob") asked.friends))
are_friends-accept_friend_request_example =
    are_friends-accept_friend_request morning noon "bob" "alice" "alice" "bob" asked refl refl

abbrev befriended : Db
befriended = record three_users {
  friends = record { user_a = "alice"; user_b = "bob"; status = accepted } ∷ [];
}

abbrev founded : Db
founded = (create_conversation morning "k1" "plans" "alice" ("bob" ∷ []) befriended).1

conversation_members-create_conversation_example :
    any_row (member_row "k1" "bob") founded.conversation_members ≡ (
      any_row (member_row "k1" "bob") befriended.conversation_members
      || mem_text "bob" ("alice" ∷ "bob" ∷ []))
unfolding create_conversation skype7_reborn.Sql.insert_unique skype7_reborn.Db.empty_db
    skype7_reborn.Social.Convos.add_members mem_text
conversation_members-create_conversation_example =
    conversation_members-create_conversation morning "k1" "plans" "alice" ("bob" ∷ []) "bob"
      befriended refl

create_conversation_atomic_example :
    (e : String) × (create_conversation failing "k1" "plans" "alice" ("bob" ∷ []) befriended
      ≡ (err e, befriended))
unfolding mem_text
create_conversation_atomic_example =
    create_conversation_atomic failing "k1" "plans" "alice" ("bob" ∷ []) befriended
      (inr (inr (inr ("bob", refl, refl))))

handle_msg-handle_block_example :
    handle_msg noon 2
      (to_user "alice")
      (handle_block morning 1 (to_user "bob") (two_online three_users))
    ≡ send 2
        (delivered_offline "alice")
        (handle_block morning 1 (to_user "bob") (two_online three_users))
handle_msg-handle_block_example =
    handle_msg-handle_block morning noon 1 2 (to_user "bob") (to_user "alice")
      (two_online three_users) "alice" "bob" refl refl (text-apart "alice" "" refl)
      (text-apart "bob" "" refl) (text-apart "alice" "bob" refl)
      (text-apart "alice" "PhazeBot" refl) (inr (refl, refl)) refl refl

handle_msg-sender_example :
    ((handle_msg morning 1 (to_user "bob") (two_online three_users)).out ≡ [])
    ⊎ ((d : ℕ) × (x : NexusMessage) × ((handle_msg morning 1
            (to_user "bob")
            (two_online three_users)).out
          ≡ (d, x) ∷ [])
        × ((d ≡ 1)
            ⊎ ((x.sender ≡ "alice") × (lookup "bob" (two_online three_users).clients ≡ some d))))
unfolding skype7_reborn.Server.new_server
handle_msg-sender_example = handle_msg-sender morning 1 (to_user "bob") (two_online three_users)

abbrev alices : ℕ
alices = 1

abbrev letter : ℕ → String → OfflineMessage
letter id to = record {
  id = id;
  sender = "carol";
  recipient = to;
  body = "hi";
  msg_type = MsgType.msg;
  convo = "";
  created_at = id;
}

abbrev three_letters : Db
three_letters = record three_users {
  offline_messages = letter 1 "alice" ∷ letter 2 "bob" ∷ letter 3 "alice" ∷ [];
  offline_last = 3;
}

deliver_offline_messages-waiting_example :
    ((deliver_offline_messages noon "alice" (two_online three_letters)).out
      ≡ reverse_aux
          (map
            (λ m. (
              alices,
              record (blank m.msg_type) {
                sender = m.sender;
                body = m.body;
                status = append "offline:" (noon.date_text m.created_at);
              },
            ))
            (order_by
              (λ m n. leb m.created_at n.created_at)
              (select (is_for "alice") three_letters.offline_messages)))
          [])
    × ((deliver_offline_messages noon "alice" (two_online three_letters)).db.offline_messages
        ≡ delete_where (is_for "alice") three_letters.offline_messages)
    × (waiting "alice" (deliver_offline_messages noon "alice" (two_online three_letters)).db ≡ [])
unfolding lookup skype7_reborn.Server.new_server any_row
deliver_offline_messages-waiting_example =
    deliver_offline_messages-waiting noon "alice" alices (two_online three_letters) refl refl refl
      (λ id. refl) (refl, (refl, (refl, tt)))
