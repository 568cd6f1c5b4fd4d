-- ===== src/Integrity/Handlers/Chat.antt =====
-- The constraints of the tables under the cases of chat, roster and signalling.
use skype7_reborn.Prelude.{ℕ, arith}
use skype7_reborn.World.{World}
use skype7_reborn.Wire.{NexusMessage}
use skype7_reborn.Server.{Server}
use skype7_reborn.Db.Keys.{IsWellFormed}
use skype7_reborn.Integrity.Quiet.{quiet}
use skype7_reborn.Handlers.Chat.{
  handle_msg, deliver_message, handle_bot_message, handle_block, handle_unblock, handle_list_blocks,
  handle_report_abuse, handle_typing, handle_status_update, handle_presence, handle_search,
}
use skype7_reborn.Handlers.Roster.{
  handle_friend_request, handle_friend_accept, handle_friend_reject, handle_friend_remove,
}
use skype7_reborn.Handlers.Signal.{
  handle_read_receipt, handle_key_request, handle_call_signal, handle_call_end,
}
use skype7_reborn.Integrity.Social.{
  block_user-IsWellFormed, unblock_user-IsWellFormed, record_abuse_report-IsWellFormed,
  store_offline_message-IsWellFormed, send_friend_request-IsWellFormed,
  accept_friend_request-IsWellFormed, reject_friend_request-IsWellFormed,
  remove_friend-IsWellFormed,
}

pub handle_msg-IsWellFormed :
    (w : World) (c : ℕ) (m : NexusMessage) (s : Server)
    → IsWellFormed s.db
    → IsWellFormed (handle_msg w c m s).db
unfolding handle_msg deliver_message handle_bot_message
handle_msg-IsWellFormed w c m s h = grind (arith, quiet, store_offline_message-IsWellFormed)

pub handle_block-IsWellFormed :
    (w : World) (c : ℕ) (m : NexusMessage) (s : Server)
    → IsWellFormed s.db
    → IsWellFormed (handle_block w c m s).db
unfolding handle_block
handle_block-IsWellFormed w c m s h = grind (arith, quiet, block_user-IsWellFormed)

pub handle_unblock-IsWellFormed :
    (w : World) (c : ℕ) (m : NexusMessage) (s : Server)
    → IsWellFormed s.db
    → IsWellFormed (handle_unblock w c m s).db
unfolding handle_unblock
handle_unblock-IsWellFormed w c m s h = grind (arith, quiet, unblock_user-IsWellFormed)

pub handle_list_blocks-IsWellFormed :
    (w : World) (c : ℕ) (m : NexusMessage) (s : Server)
    → IsWellFormed s.db
    → IsWellFormed (handle_list_blocks w c m s).db
unfolding handle_list_blocks
handle_list_blocks-IsWellFormed w c m s h = grind (arith, quiet)

pub handle_report_abuse-IsWellFormed :
    (w : World) (c : ℕ) (m : NexusMessage) (s : Server)
    → IsWellFormed s.db
    → IsWellFormed (handle_report_abuse w c m s).db
unfolding handle_report_abuse
handle_report_abuse-IsWellFormed w c m s h = grind (arith, quiet, record_abuse_report-IsWellFormed)

pub handle_typing-IsWellFormed :
    (w : World) (c : ℕ) (m : NexusMessage) (s : Server)
    → IsWellFormed s.db
    → IsWellFormed (handle_typing w c m s).db
unfolding handle_typing
handle_typing-IsWellFormed w c m s h = grind (arith, quiet)

pub handle_status_update-IsWellFormed :
    (w : World) (c : ℕ) (m : NexusMessage) (s : Server)
    → IsWellFormed s.db
    → IsWellFormed (handle_status_update w c m s).db
unfolding handle_status_update
handle_status_update-IsWellFormed w c m s h = grind (arith, quiet)

pub handle_presence-IsWellFormed :
    (w : World) (c : ℕ) (m : NexusMessage) (s : Server)
    → IsWellFormed s.db
    → IsWellFormed (handle_presence w c m s).db
unfolding handle_presence
handle_presence-IsWellFormed w c m s h = grind (arith, quiet)

pub handle_search-IsWellFormed :
    (w : World) (c : ℕ) (m : NexusMessage) (s : Server)
    → IsWellFormed s.db
    → IsWellFormed (handle_search w c m s).db
unfolding handle_search
handle_search-IsWellFormed w c m s h = grind (arith, quiet)

pub handle_friend_request-IsWellFormed :
    (w : World) (c : ℕ) (m : NexusMessage) (s : Server)
    → IsWellFormed s.db
    → IsWellFormed (handle_friend_request w c m s).db
unfolding handle_friend_request
handle_friend_request-IsWellFormed w c m s h =
    grind (arith, quiet, send_friend_request-IsWellFormed)

pub handle_friend_accept-IsWellFormed :
    (w : World) (c : ℕ) (m : NexusMessage) (s : Server)
    → IsWellFormed s.db
    → IsWellFormed (handle_friend_accept w c m s).db
unfolding handle_friend_accept
handle_friend_accept-IsWellFormed w c m s h =
    grind (arith, quiet, accept_friend_request-IsWellFormed)

pub handle_friend_reject-IsWellFormed :
    (w : World) (c : ℕ) (m : NexusMessage) (s : Server)
    → IsWellFormed s.db
    → IsWellFormed (handle_friend_reject w c m s).db
unfolding handle_friend_reject
handle_friend_reject-IsWellFormed w c m s h =
    grind (arith, quiet, reject_friend_request-IsWellFormed)

pub handle_friend_remove-IsWellFormed :
    (w : World) (c : ℕ) (m : NexusMessage) (s : Server)
    → IsWellFormed s.db
    → IsWellFormed (handle_friend_remove w c m s).db
unfolding handle_friend_remove
handle_friend_remove-IsWellFormed w c m s h = grind (arith, quiet, remove_friend-IsWellFormed)

pub handle_read_receipt-IsWellFormed :
    (w : World) (c : ℕ) (m : NexusMessage) (s : Server)
    → IsWellFormed s.db
    → IsWellFormed (handle_read_receipt w c m s).db
unfolding handle_read_receipt
handle_read_receipt-IsWellFormed w c m s h = grind (arith, quiet)

pub handle_key_request-IsWellFormed :
    (w : World) (c : ℕ) (m : NexusMessage) (s : Server)
    → IsWellFormed s.db
    → IsWellFormed (handle_key_request w c m s).db
unfolding handle_key_request
handle_key_request-IsWellFormed w c m s h = grind (arith, quiet)

pub handle_call_signal-IsWellFormed :
    (w : World) (c : ℕ) (m : NexusMessage) (s : Server)
    → IsWellFormed s.db
    → IsWellFormed (handle_call_signal w c m s).db
unfolding handle_call_signal
handle_call_signal-IsWellFormed w c m s h = grind (arith, quiet)

pub handle_call_end-IsWellFormed :
    (w : World) (c : ℕ) (m : NexusMessage) (s : Server)
    → IsWellFormed s.db
    → IsWellFormed (handle_call_end w c m s).db
unfolding handle_call_end
handle_call_end-IsWellFormed w c m s h = grind (arith, quiet)
