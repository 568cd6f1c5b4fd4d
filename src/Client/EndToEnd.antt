-- ===== src/Client/EndToEnd.antt =====
-- A proof on the client and the server together: SendMessage of one client, the case msg of
-- handleConnections, HandleIncomingMessage of the other client.
use skype7_reborn.Prelude.{ℕ, true, false, ◌||◌, some, ◌∷◌, ◌==◌, ◌≡◌, ap, ◌∙◌, arith}
use skype7_reborn.Prelude.Dict.{lookup}
use skype7_reborn.Prelude.Table.{insert_row}
use skype7_reborn.World.{World}
use skype7_reborn.Wire.{NexusMessage, MsgType}
use skype7_reborn.Server.{Server, send, user_of}
use skype7_reborn.Social.Blocks.{is_blocked}
use skype7_reborn.Handlers.Chat.{handle_msg, deliver_message}
use skype7_reborn.Client.Crypto.{Key}
use skype7_reborn.Client.App.{
  PhazeApp, Host, Message, in_body, in_sdp, in_candidate, message_insert, act,
}
use skype7_reborn.Client.App.Sending.{seal_message}
use skype7_reborn.Client.App.Messages.{on_msg, insert_message, show_in_chat}
use skype7_reborn.Client.App.Inbox.{dispatch, handle_incoming_message}
use skype7_reborn.Client.App.Delivery.{Carries, handle_incoming_message-seal_message}

out-handle_msg :
    (w : World) (c d : ℕ) (m : NexusMessage) (s : Server)
    → (user_of s c == "") ≡ false
    → user_of s c ≡ m.sender
    → (m.recipient == "PhazeBot") ≡ false
    → (is_blocked w m.recipient (user_of s c) s.db || is_blocked w (user_of s c) m.recipient s.db)
      ≡ false
    → lookup m.recipient s.clients ≡ some d
    → (s.conns d).is_open ≡ true
    → (handle_msg w c m s).out ≡ (d, m) ∷ s.out
unfolding handle_msg deliver_message send
out-handle_msg w c d m s known named other open_way online is_open =
    sent ∙ ap (λ u. (d, record m { sender = u }) ∷ s.out) named
  where
    sent : (handle_msg w c m s).out ≡ (d, record m { sender = user_of s c }) ∷ s.out
    sent = ground (arith, known, other, open_way, online, is_open)

-- The row that the case msg stores.
abbrev stored : Host → NexusMessage → Message
stored h msg = record {
  chatname = msg.sender;
  author = msg.sender;
  body_xml = msg.body;
  timestamp = h.now;
  type = 61;
}

messages-on_msg :
    (h : Host) (msg : NexusMessage) (s : PhazeApp)
    → h.fails message_insert ≡ false
    → (msg.body == "") ≡ false
    → (on_msg h msg s).messages ≡ insert_row (stored h msg) s.messages
unfolding on_msg insert_message show_in_chat act
messages-on_msg h msg s works ne = ground (arith, works, ne)

messages-dispatch :
    (h : Host) (msg : NexusMessage) (s : PhazeApp)
    → msg.type ≡ MsgType.msg
    → h.fails message_insert ≡ false
    → (msg.body == "") ≡ false
    → (dispatch h msg.type msg s).messages ≡ insert_row (stored h msg) s.messages
unfolding dispatch
messages-dispatch h msg s is_msg works ne =
    ap (λ t. (dispatch h t msg s).messages) is_msg ∙ messages-on_msg h msg s works ne

-- When a user who is logged in under the message's sender, which is not empty, sends a message of type
-- msg, whose body is not empty, to another user who is online on an open connection and is not PhazeBot, neither blocks the other,
-- each of the two apps has the other's key and its own, and the receiving app's INSERT does not fail,
-- then the server passes on the sealed message as it is, and nothing else, and the other's app stores
-- the body that was sent. For each of the three sealed fields a nonce of 24 bytes is
-- drawn, and the box opens what it sealed.
pub handle_msg-seal_message :
    (w : World) (c d : ℕ) (s : Server) (ha hb : Host) (a b : PhazeApp) (msg : NexusMessage)
    (pub_a priv_a pub_b priv_b : Key)
    → Carries ha hb pub_a priv_a pub_b priv_b in_body msg.body
    → Carries ha hb pub_a priv_a pub_b priv_b in_sdp msg.sdp
    → Carries ha hb pub_a priv_a pub_b priv_b in_candidate msg.candidate
    → a.pub_key ≡ some pub_a
    → a.priv_key ≡ some priv_a
    → lookup msg.recipient a.peer_keys ≡ some pub_b
    → b.priv_key ≡ some priv_b
    → lookup msg.sender b.peer_keys ≡ some pub_a
    → (msg.sender == "") ≡ false
    → (msg.recipient == "") ≡ false
    → msg.type ≡ MsgType.msg
    → (msg.body == "") ≡ false
    → hb.fails message_insert ≡ false
    → user_of s c ≡ msg.sender
    → (msg.recipient == "PhazeBot") ≡ false
    → (is_blocked w msg.recipient (user_of s c) s.db
        || is_blocked w (user_of s c) msg.recipient s.db)
      ≡ false
    → lookup msg.recipient s.clients ≡ some d
    → (s.conns d).is_open ≡ true
    → ((handle_msg w c (seal_message ha a msg) s).out ≡ (d, seal_message ha a msg) ∷ s.out)
      × ((handle_incoming_message hb (seal_message ha a msg) b).messages
          ≡ insert_row
              (record {
                chatname = msg.sender;
                author = msg.sender;
                body_xml = msg.body;
                timestamp = hb.now;
                type = 61;
              })
              b.messages)
unfolding seal_message
handle_msg-seal_message w c d s ha hb a b msg pub_a priv_a pub_b priv_b body sdp candidate has_pub
      own_a known_a own_b known_b from to is_msg ne works named other open_way online is_open =
    (
      out-handle_msg w c d (seal_message ha a msg) s (ap (λ u. u == "") named ∙ from) named other
          open_way online is_open,
      ap (λ t. t.messages)
            (handle_incoming_message-seal_message ha hb a b msg pub_a priv_a pub_b priv_b body sdp
              candidate has_pub own_a known_a own_b known_b from to).1
          ∙ messages-dispatch hb msg b is_msg works ne,
    )
