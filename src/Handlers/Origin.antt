-- ===== src/Handlers/Origin.antt =====
-- Proofs on the sender of the frames of the case msg.
use skype7_reborn.Prelude.{ℕ, ◌≡◌, ◌⊎◌, ◌∷◌, some, arith}
use skype7_reborn.Prelude.Dict.{lookup}
use skype7_reborn.World.{World}
use skype7_reborn.Wire.{NexusMessage}
use skype7_reborn.Server.{Server, send, set_db, user_of}
use skype7_reborn.Handlers.Chat.{handle_msg, deliver_message, handle_bot_message}

-- A message reaches at most one connection, and a frame that reaches another connection than the
-- sender's own reaches the recipient's and names the user who is logged in on the sender's, whatever
-- name the message claims.
pub handle_msg-sender :
    (w : World) (c : ℕ) (m : NexusMessage) (s : Server)
    → ((handle_msg w c m s).out ≡ s.out)
      ⊎ ((d : ℕ) × (x : NexusMessage) × ((handle_msg w c m s).out ≡ (d, x) ∷ s.out)
          × ((d ≡ c) ⊎ ((x.sender ≡ user_of s c) × (lookup m.recipient s.clients ≡ some d))))
unfolding handle_msg deliver_message handle_bot_message send set_db
handle_msg-sender w c m s = ground arith
