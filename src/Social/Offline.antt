-- ===== src/Social/Offline.antt =====
-- storeOfflineMessage, deliverOfflineMessages.
use skype7_reborn.Prelude.{
  ℕ, suc, String, List, [], ◌∷◌, none, some, ◌==◌, leb, nat_eq, if◌then◌else◌,
}
use skype7_reborn.Prelude.Dict.{lookup}
use skype7_reborn.Prelude.Table.{select, insert_row, delete_where, order_by}
use skype7_reborn.Prelude.Text.{append}
use skype7_reborn.World.{World, Site, current_timestamp}
use skype7_reborn.Wire.{NexusMessage, MsgType, blank}
use skype7_reborn.Db.{Db, OfflineMessage}
use skype7_reborn.Server.{Server, send, set_db}

-- INSERT INTO offline_messages; `convo` is '' where the statement leaves it out.
unfoldable pub store_offline_row : World → String → String → String → MsgType → String → Db → Db
store_offline_row w sender recipient body type convo db =
    if w.fails (Site.offline_insert recipient) then db else record db {
      offline_messages =
          insert_row
            (record {
              id = suc db.offline_last;
              sender = sender;
              recipient = recipient;
              body = body;
              msg_type = type;
              convo = convo;
              created_at = current_timestamp w;
            })
            db.offline_messages;
      offline_last = suc db.offline_last;
    }

unfoldable pub store_offline_message : World → String → String → String → MsgType → Db → Db
store_offline_message w sender recipient body type db =
    store_offline_row w sender recipient body type "" db

-- The frame for one row
unfoldable pub offline_frame : World → OfflineMessage → NexusMessage
offline_frame w m = record (blank m.msg_type) {
  sender = m.sender;
  body = m.body;
  status = append "offline:" (w.date_text m.created_at);
}

unfoldable pub waiting : String → Db → List OfflineMessage
waiting u db =
    order_by (λ m n. leb m.created_at n.created_at)
      (select (λ m. m.recipient == u) db.offline_messages)

unfoldable pub send_rows : World → ℕ → List OfflineMessage → Server → Server
send_rows w c [] s = s
send_rows w c (m ∷ ms) s = send_rows w c ms (send c (offline_frame w m) s)

-- DELETE … WHERE id = ?, for each row that was sent
unfoldable pub delete_rows : World → List OfflineMessage → List OfflineMessage → List OfflineMessage
delete_rows w [] rows = rows
delete_rows w (m ∷ ms) rows =
    delete_rows w ms (
      if w.fails (Site.offline_delete m.id)
      then rows
      else delete_where (λ r. nat_eq r.id m.id) rows)

unfoldable pub deliver_offline_messages : World → String → Server → Server
deliver_offline_messages w u s = elim (lookup u s.clients) [
  | none ↦ s
  | some c ↦
      if w.fails Site.offline_select
      then s
      else set_db
          (record s.db { offline_messages = delete_rows w (waiting u s.db) s.db.offline_messages })
          (send_rows w c (waiting u s.db) s)
]
