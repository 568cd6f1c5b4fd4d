-- ===== src/Integrity/Handlers/Groups.antt =====
-- The constraints of the tables under the cases of conversations, servers and channels.
use skype7_reborn.Prelude.{ℕ, arith, String, List, [], ◌∷◌, ◌⊎◌, inl, inr, ◌≡◌, ok}
use skype7_reborn.World.{World}
use skype7_reborn.Wire.{NexusMessage}
use skype7_reborn.Server.{Server}
use skype7_reborn.Db.Keys.{IsWellFormed}
use skype7_reborn.Integrity.Quiet.{quiet}
use skype7_reborn.Handlers.Groups.{
  handle_convo_create, handle_convo_msg, handle_convo_leave, fan_out, fan_out_to,
}
use skype7_reborn.Handlers.Space.{
  handle_server_create, handle_server_list, handle_server_join, handle_server_leave,
  handle_server_info, join_found, create_space,
}
use skype7_reborn.Handlers.Channels.{
  handle_channel_create, handle_channel_msg, handle_channel_history, post_message, channel_row,
  new_channel, create_channel,
}
use skype7_reborn.Db.{Space}
use skype7_reborn.Sql.{insert_unique}
use skype7_reborn.Integrity.Social.{store_offline_row-IsWellFormed}
use skype7_reborn.Integrity.Convos.{
  create_conversation-IsWellFormed, leave_conversation-IsWellFormed,
}
use skype7_reborn.Integrity.Spaces.{
  create_space-IsWellFormed, join_space-IsWellFormed, delete_members-IsWellFormed,
  insert_channel-IsWellFormed, insert_message-IsWellFormed,
}

fan_out-IsWellFormed :
    (w : World) (m : NexusMessage) (sender : String) (us : List String) (s : Server)
    → IsWellFormed s.db
    → IsWellFormed (fan_out w m sender us s).db
unfolding fan_out fan_out_to
fan_out-IsWellFormed w m sender [] s h = h
fan_out-IsWellFormed w m sender (u ∷ us) s h =
    fan_out-IsWellFormed w m sender us _ (grind (arith, quiet, store_offline_row-IsWellFormed))

pub handle_convo_create-IsWellFormed :
    (w : World) (c : ℕ) (m : NexusMessage) (s : Server)
    → IsWellFormed s.db
    → IsWellFormed (handle_convo_create w c m s).db
unfolding handle_convo_create
handle_convo_create-IsWellFormed w c m s h = grind (arith, quiet, create_conversation-IsWellFormed)

pub handle_convo_msg-IsWellFormed :
    (w : World) (c : ℕ) (m : NexusMessage) (s : Server)
    → IsWellFormed s.db
    → IsWellFormed (handle_convo_msg w c m s).db
unfolding handle_convo_msg
handle_convo_msg-IsWellFormed w c m s h = grind (arith, quiet, fan_out-IsWellFormed)

pub handle_convo_leave-IsWellFormed :
    (w : World) (c : ℕ) (m : NexusMessage) (s : Server)
    → IsWellFormed s.db
    → IsWellFormed (handle_convo_leave w c m s).db
unfolding handle_convo_leave
handle_convo_leave-IsWellFormed w c m s h = grind (arith, quiet, leave_conversation-IsWellFormed)

server_create_cases :
    (w : World) (c : ℕ) (m : NexusMessage) (s : Server)
    → ((handle_server_create w c m s).db ≡ s.db)
      ⊎ ((sp : Space) × (create_space w sp s.db ≡ ok (handle_server_create w c m s).db))
unfolding handle_server_create
server_create_cases w c m s = grind (arith, quiet)

pub handle_server_create-IsWellFormed :
    (w : World) (c : ℕ) (m : NexusMessage) (s : Server)
    → IsWellFormed s.db
    → IsWellFormed (handle_server_create w c m s).db
handle_server_create-IsWellFormed w c m s h = elim (server_create_cases w c m s) [
  | inl e ↦ rw e h
  | inr (sp, e) ↦ create_space-IsWellFormed w sp s.db e h
]

pub handle_server_list-IsWellFormed :
    (w : World) (c : ℕ) (m : NexusMessage) (s : Server)
    → IsWellFormed s.db
    → IsWellFormed (handle_server_list w c m s).db
unfolding handle_server_list
handle_server_list-IsWellFormed w c m s h = grind (arith, quiet)

join_found-IsWellFormed :
    (w : World) (c : ℕ) (sp : Space) (u : String) (s : Server)
    → IsWellFormed s.db
    → IsWellFormed (join_found w c sp u s).db
unfolding join_found
join_found-IsWellFormed w c sp u s h = grind (arith, quiet, join_space-IsWellFormed)

pub handle_server_join-IsWellFormed :
    (w : World) (c : ℕ) (m : NexusMessage) (s : Server)
    → IsWellFormed s.db
    → IsWellFormed (handle_server_join w c m s).db
unfolding handle_server_join
handle_server_join-IsWellFormed w c m s h = grind (arith, quiet, join_found-IsWellFormed)

pub handle_server_leave-IsWellFormed :
    (w : World) (c : ℕ) (m : NexusMessage) (s : Server)
    → IsWellFormed s.db
    → IsWellFormed (handle_server_leave w c m s).db
unfolding handle_server_leave
handle_server_leave-IsWellFormed w c m s h = grind (arith, quiet, delete_members-IsWellFormed)

pub handle_server_info-IsWellFormed :
    (w : World) (c : ℕ) (m : NexusMessage) (s : Server)
    → IsWellFormed s.db
    → IsWellFormed (handle_server_info w c m s).db
unfolding handle_server_info
handle_server_info-IsWellFormed w c m s h = grind (arith, quiet)

create_channel-IsWellFormed :
    (w : World) (c : ℕ) (cid : String) (m : NexusMessage) (s : Server)
    → IsWellFormed s.db
    → IsWellFormed (create_channel w c cid m s).db
unfolding create_channel insert_unique new_channel
create_channel-IsWellFormed w c cid m s h = grind (arith, quiet, insert_channel-IsWellFormed)

channel_create_cases :
    (w : World) (c : ℕ) (m : NexusMessage) (s : Server)
    → ((handle_channel_create w c m s).db ≡ s.db)
      ⊎ ((cid : String) × ((handle_channel_create w c m s).db ≡ (create_channel w c cid m s).db))
unfolding handle_channel_create
channel_create_cases w c m s = grind (arith, quiet)

pub handle_channel_create-IsWellFormed :
    (w : World) (c : ℕ) (m : NexusMessage) (s : Server)
    → IsWellFormed s.db
    → IsWellFormed (handle_channel_create w c m s).db
handle_channel_create-IsWellFormed w c m s h = elim (channel_create_cases w c m s) [
  | inl e ↦ rw e h
  | inr (cid, e) ↦ rw e (create_channel-IsWellFormed w c cid m s h)
]

pub handle_channel_msg-IsWellFormed :
    (w : World) (c : ℕ) (m : NexusMessage) (s : Server)
    → IsWellFormed s.db
    → IsWellFormed (handle_channel_msg w c m s).db
unfolding handle_channel_msg post_message channel_row
handle_channel_msg-IsWellFormed w c m s h = grind (arith, quiet, insert_message-IsWellFormed)

pub handle_channel_history-IsWellFormed :
    (w : World) (c : ℕ) (m : NexusMessage) (s : Server)
    → IsWellFormed s.db
    → IsWellFormed (handle_channel_history w c m s).db
unfolding handle_channel_history
handle_channel_history-IsWellFormed w c m s h = grind (arith, quiet)
