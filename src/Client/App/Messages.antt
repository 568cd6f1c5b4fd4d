-- ===== src/Client/App/Messages.antt =====
-- The cases of HandleIncomingMessage, native_client/main.go, on messages and conversations.
use skype7_reborn.Prelude.{
  ℕ, suc, String, Bool, true, false, none, some, List, [], ◌∷◌, ◌++◌, ◌==◌, if◌then◌else◌,
}
use skype7_reborn.Prelude.Dict.{lookup, insert}
use skype7_reborn.Prelude.Table.{insert_row, delete_where}
use skype7_reborn.Prelude.Text.{append}
use skype7_reborn.Wire.{NexusMessage}
use skype7_reborn.Client.App.{
  PhazeApp, Host, Conversation, Bubble, play_sound, notification, hide_typing_later, act,
  message_insert, convo_insert,
}

unfoldable pub insert_message : Host → String → String → String → ℕ → PhazeApp → PhazeApp
insert_message h chat author body type s = if h.fails message_insert then s else record s {
  messages =
      insert_row
        (record {
          chatname = chat;
          author = author;
          body_xml = body;
          timestamp = h.now;
          type = type;
        })
        s.messages;
}

-- UnreadCounts[chat]++
unfoldable pub count_unread : String → List (String × ℕ) → List (String × ℕ)
count_unread chat counts = elim (lookup chat counts) [
  | none ↦ insert chat 1 counts
  | some n ↦ insert chat (suc n) counts
]

-- A bubble in the chat if it is open, and otherwise a notification.
unfoldable pub show_in_chat : String → Bubble → String → PhazeApp → PhazeApp
unfolding count_unread act
show_in_chat chat b title s = elim (lookup chat s.chat_logs) [
  | some bubbles ↦ record s { chat_logs = insert chat (bubbles ++ b ∷ []) s.chat_logs }
  | none ↦
      act (notification title b.text)
        (record s { unread_counts = count_unread chat s.unread_counts })
]

unfoldable pub on_msg : Host → NexusMessage → PhazeApp → PhazeApp
unfolding insert_message show_in_chat act
on_msg h msg s =
    let text = if msg.body == "" then "[Encrypted Message - Handshaking...]" else msg.body in
    show_in_chat msg.sender (record { author = msg.sender; text = text; is_me = false })
      (append "Message from " msg.sender)
      (insert_message h msg.sender msg.sender text 61 (act (play_sound "MessageIncoming.wav") s))

unfoldable pub on_typing : NexusMessage → PhazeApp → PhazeApp
unfolding act
on_typing msg s = elim (lookup msg.sender s.chat_typing_labels) [
  | none ↦ s
  | some shown ↦
      act (hide_typing_later msg.sender)
        (record s { chat_typing_labels = insert msg.sender true s.chat_typing_labels })
]

-- INSERT OR REPLACE, where identity is unique
unfoldable pub has_identity : String → Conversation → Bool
has_identity convo c = c.identity == convo

unfoldable pub on_convo_info : Host → NexusMessage → PhazeApp → PhazeApp
unfolding has_identity
on_convo_info h msg s =
    let known =
      (if h.fails convo_insert then s else record s {
        conversations =
            insert_row (record { identity = msg.convo_id; displayname = msg.convo_name; type = 2 })
              (delete_where (has_identity msg.convo_id) s.conversations);
      }) in
    elim msg.members [
      | [] ↦ known
      | m ∷ ms ↦ record known { convo_members = insert msg.convo_id (m ∷ ms) known.convo_members }
    ]

unfoldable pub on_convo_created : Host → NexusMessage → PhazeApp → PhazeApp
unfolding on_convo_info act
on_convo_created h msg s =
    act (notification "New Group Chat" (append msg.sender (append " added you to " msg.convo_name)))
      (on_convo_info h msg s)

unfoldable pub on_convo_msg : Host → NexusMessage → PhazeApp → PhazeApp
unfolding insert_message show_in_chat act
on_convo_msg h msg s =
    show_in_chat msg.convo_id (record { author = msg.sender; text = msg.body; is_me = false })
      (append msg.sender " in group")
      (insert_message h msg.convo_id msg.sender msg.body 61
        (act (play_sound "MessageReceived.wav") s))

unfoldable pub on_convo_left : NexusMessage → PhazeApp → PhazeApp
on_convo_left msg s = elim (lookup msg.convo_id s.chat_logs) [
  | none ↦ s
  | some bubbles ↦ record s {
    chat_logs =
        insert msg.convo_id
          (bubbles
            ++ record {
              author = "system";
              text = append msg.sender " left the conversation";
              is_me = false;
            }
              ∷ [])
          s.chat_logs;
  }
]
