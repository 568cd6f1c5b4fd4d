-- ===== src/Handlers/Blocking.antt =====
-- Proofs on the cases block and msg together.
use skype7_reborn.Prelude.{
  ℕ, String, true, false, ◌≡◌, ◌≢◌, eq_refl, eq-false, arith, inl, inr, ◌⊎◌, ◌∙◌, sym,
}
use skype7_reborn.Prelude.Table.Rows.{any_row-insert}
use skype7_reborn.World.{World, Site, current_timestamp}
use skype7_reborn.Wire.{NexusMessage}
use skype7_reborn.Db.{Db}
use skype7_reborn.Server.{Server, send, user_of}
use skype7_reborn.Server.Effects.{db-send, conns-send, db-set_db, conns-set_db}
use skype7_reborn.Social.Blocks.{is_blocked, block_user, blocks}
use skype7_reborn.Handlers.Chat.{handle_block, handle_msg, delivered_offline}

blocked_row :
    (w w' : World) (a b : String) (db : Db)
    → a ≢ ""
    → b ≢ ""
    → a ≢ b
    → w.fails Site.block_insert ≡ false
    → w'.fails (Site.block_select a b) ≡ false
    → is_blocked w' a b (block_user w a b db).1 ≡ true
unfolding block_user blocks is_blocked current_timestamp
blocked_row w w' a b db na nb ne live live' = ground (
  arith,
  eq-false a "" na,
  eq-false b "" nb,
  eq-false a b ne,
  eq_refl a,
  eq_refl b,
  any_row-insert (blocks a b)
      (record { blocker = a; blocked = b; created_at = current_timestamp w }) db.blocks,
)

db-handle_block :
    (w : World) (c : ℕ) (m : NexusMessage) (s : Server)
    → user_of s c ≢ ""
    → (handle_block w c m s).db ≡ (block_user w (user_of s c) m.recipient s.db).1
unfolding handle_block
db-handle_block w c m s full = grind (arith, eq-false, db-send, db-set_db)

conns-handle_block :
    (w : World) (c : ℕ) (m : NexusMessage) (s : Server) → (handle_block w c m s).conns ≡ s.conns
unfolding handle_block
conns-handle_block w c m s = grind (arith, conns-send, conns-set_db)

handle_msg_blocked :
    (w : World) (c : ℕ) (m : NexusMessage) (s : Server)
    → user_of s c ≢ ""
    → m.recipient ≢ "PhazeBot"
    → (is_blocked w m.recipient (user_of s c) s.db ≡ true)
      ⊎ (is_blocked w (user_of s c) m.recipient s.db ≡ true)
    → handle_msg w c m s ≡ send c (delivered_offline m.recipient) s
unfolding handle_msg
handle_msg_blocked w c m s full nobot h =
    ground (arith, h, eq-false (user_of s c) "" full, eq-false m.recipient "PhazeBot" nobot)

-- Once user a has blocked user b, and whatever the state was before, a message from a to b or from b
-- to a changes no table and reaches nobody: its sender, b as much as a, only gets the note that it
-- waits for delivery. The two users differ and have names, the statements of the block and of the
-- check do not fail, and the message is not for the bot.
pub handle_msg-handle_block :
    (w w' : World) (c d : ℕ) (m m' : NexusMessage) (s : Server) (a b : String)
    → user_of s c ≡ a
    → m.recipient ≡ b
    → a ≢ ""
    → b ≢ ""
    → a ≢ b
    → m'.recipient ≢ "PhazeBot"
    → (((user_of s d ≡ a) × (m'.recipient ≡ b)) ⊎ ((user_of s d ≡ b) × (m'.recipient ≡ a)))
    → w.fails Site.block_insert ≡ false
    → w'.fails (Site.block_select a b) ≡ false
    → handle_msg w' d m' (handle_block w c m s)
      ≡ send d (delivered_offline m'.recipient) (handle_block w c m s)
handle_msg-handle_block w w' c d m m' s a b ha hb na nb ne nobot who live live' =
    let same = conns-handle_block w c m s in
    let db = db-handle_block w c m s (λ e. na (sym ha ∙ e)) in
    let row : is_blocked w' a b (handle_block w c m s).db ≡ true =
      rw (db, ha, hb) (blocked_row w w' a b s.db na nb ne live live') in
    elim who [
      | inl (hd, hr) ↦
          handle_msg_blocked w' d m' (handle_block w c m s) (rw (same, hd) na) nobot
            (inr (rw (same, hd, hr) row))
      | inr (hd, hr) ↦
          handle_msg_blocked w' d m' (handle_block w c m s) (rw (same, hd) nb) nobot
            (inl (rw (same, hd, hr) row))
    ]
