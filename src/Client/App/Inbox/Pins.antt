-- ===== src/Client/App/Inbox/Pins.antt =====
-- Proofs that no case of HandleIncomingMessage but presence touches a key, and what presence does.
use skype7_reborn.Prelude.{
  String, none, some, if◌then◌else◌, ◌≡◌, refl, sym, ◌∙◌, ◌⊎◌, inl, inr, nat_eq, length,
  Option-cases,
}
use skype7_reborn.Prelude.Dict.{lookup}
use skype7_reborn.Wire.{NexusMessage, MsgType}
use skype7_reborn.Client.Crypto.{Key, fingerprint}
use skype7_reborn.Client.App.{PhazeApp, Host, KeyPin, act, play_sound}
use skype7_reborn.Client.App.Keys.{pinned, accept_peer_key}
use skype7_reborn.Client.App.Contacts.{load_friends, update_friend_status, update_friend_profile}
use skype7_reborn.Client.App.Trust.{
  ArePinned, IsTrusty, IsTrusty-SameKeys, IsTrusty-trans, accept_peer_key-IsTrusty, if-IsTrusty,
}
use skype7_reborn.Client.App.Messages.{on_convo_created}
use skype7_reborn.Client.App.Events.{online_sound, on_presence, on_friend_accepted}
use skype7_reborn.Client.App.Inbox.{dispatch, handle_incoming_message, decrypt_fields}
use skype7_reborn.Client.App.Inbox.Quiet.{
  on_auth_result-SameKeys, on_totp_result-SameKeys, on_qr_login_result-SameKeys,
  error_only-SameKeys, on_phone_link_result-SameKeys, online_sound-SameKeys, on_call_end-SameKeys,
  incoming_call-SameKeys, on_typing-SameKeys, on_convo_left-SameKeys, error_or-SameKeys,
  on_friend_request-SameKeys, on_key_request-SameKeys, on_msg-SameKeys, on_convo_msg-SameKeys,
  on_convo_info-SameKeys, insert_contact-SameKeys, delete_contact-SameKeys, ask_all-SameKeys,
}

on_presence-IsTrusty :
    (h : Host) (msg : NexusMessage) (s : PhazeApp) → IsTrusty h.box s (on_presence h msg s)
unfolding on_presence update_friend_status
on_presence-IsTrusty h msg s =
    let known = update_friend_status h msg.sender msg.status s in
    let accepted = accept_peer_key h msg.sender msg.public_key msg.key_fingerprint known in
    let is_key = nat_eq (length msg.public_key) 32 in
    let keyed = if is_key then accepted else known in
    IsTrusty-trans h.box s known (online_sound msg keyed)
      (IsTrusty-SameKeys h.box s known (refl, refl))
      (IsTrusty-trans h.box known keyed (online_sound msg keyed)
        (if-IsTrusty h.box known is_key accepted known
          (accept_peer_key-IsTrusty h msg.sender msg.public_key msg.key_fingerprint known)
          (IsTrusty-SameKeys h.box known known (refl, refl)))
        (IsTrusty-SameKeys h.box keyed (online_sound msg keyed) (online_sound-SameKeys msg keyed)))

dispatch-IsTrusty :
    (h : Host) (t : MsgType) (msg : NexusMessage) (s : PhazeApp)
    → IsTrusty h.box s (dispatch h t msg s)
unfolding dispatch act update_friend_status update_friend_profile load_friends on_friend_accepted
    on_convo_created
dispatch-IsTrusty h MsgType.presence msg s = on_presence-IsTrusty h msg s
dispatch-IsTrusty h MsgType.auth_result msg s =
    IsTrusty-SameKeys h.box s (dispatch h MsgType.auth_result msg s) (on_auth_result-SameKeys msg s)
dispatch-IsTrusty h MsgType.totp_result msg s =
    IsTrusty-SameKeys h.box s (dispatch h MsgType.totp_result msg s) (on_totp_result-SameKeys msg s)
dispatch-IsTrusty h MsgType.qr_login_result msg s =
    IsTrusty-SameKeys h.box s (dispatch h MsgType.qr_login_result msg s)
      (on_qr_login_result-SameKeys msg s)
dispatch-IsTrusty h MsgType.forgot_password_result msg s =
    IsTrusty-SameKeys h.box s (dispatch h MsgType.forgot_password_result msg s) (refl, refl)
dispatch-IsTrusty h MsgType.reset_password_result msg s =
    IsTrusty-SameKeys h.box s (dispatch h MsgType.reset_password_result msg s)
      (error_or-SameKeys _ msg s)
dispatch-IsTrusty h MsgType.verify_result msg s =
    IsTrusty-SameKeys h.box s (dispatch h MsgType.verify_result msg s) (error_or-SameKeys _ msg s)
dispatch-IsTrusty h MsgType.update_result msg s =
    IsTrusty-SameKeys h.box s (dispatch h MsgType.update_result msg s) (error_only-SameKeys msg s)
dispatch-IsTrusty h MsgType.phone_link_result msg s =
    IsTrusty-SameKeys h.box s (dispatch h MsgType.phone_link_result msg s)
      (on_phone_link_result-SameKeys msg s)
dispatch-IsTrusty h MsgType.pstn_status msg s =
    IsTrusty-SameKeys h.box s (dispatch h MsgType.pstn_status msg s) (error_only-SameKeys msg s)
dispatch-IsTrusty h MsgType.block_result msg s =
    IsTrusty-SameKeys h.box s (dispatch h MsgType.block_result msg s) (error_only-SameKeys msg s)
dispatch-IsTrusty h MsgType.report_result msg s =
    IsTrusty-SameKeys h.box s (dispatch h MsgType.report_result msg s) (error_or-SameKeys _ msg s)
dispatch-IsTrusty h MsgType.convo_error msg s =
    IsTrusty-SameKeys h.box s (dispatch h MsgType.convo_error msg s) (refl, refl)
dispatch-IsTrusty h MsgType.msg msg s =
    IsTrusty-SameKeys h.box s (dispatch h MsgType.msg msg s) (on_msg-SameKeys h msg s)
dispatch-IsTrusty h MsgType.typing msg s =
    IsTrusty-SameKeys h.box s (dispatch h MsgType.typing msg s) (on_typing-SameKeys msg s)
dispatch-IsTrusty h MsgType.search_results msg s =
    IsTrusty-SameKeys h.box s (dispatch h MsgType.search_results msg s) (refl, refl)
dispatch-IsTrusty h MsgType.key_request msg s =
    IsTrusty-SameKeys h.box s (dispatch h MsgType.key_request msg s)
      (on_key_request-SameKeys h msg s)
dispatch-IsTrusty h MsgType.friend_status msg s =
    IsTrusty-SameKeys h.box s (dispatch h MsgType.friend_status msg s)
      (online_sound-SameKeys msg (update_friend_status h msg.sender msg.status s))
dispatch-IsTrusty h MsgType.profile_update msg s =
    IsTrusty-SameKeys h.box s (dispatch h MsgType.profile_update msg s) (refl, refl)
dispatch-IsTrusty h MsgType.friend_request msg s =
    IsTrusty-SameKeys h.box s (dispatch h MsgType.friend_request msg s)
      (on_friend_request-SameKeys msg s)
dispatch-IsTrusty h MsgType.friend_accepted msg s =
    IsTrusty-SameKeys h.box s (dispatch h MsgType.friend_accepted msg s)
      (insert_contact-SameKeys h msg.sender (act (play_sound "MessageReceived.wav") s))
dispatch-IsTrusty h MsgType.pending_requests msg s =
    IsTrusty-SameKeys h.box s (dispatch h MsgType.pending_requests msg s)
      (ask_all-SameKeys msg.results (record s { pending_inbound = msg.results }))
dispatch-IsTrusty h MsgType.call_offer msg s =
    IsTrusty-SameKeys h.box s (dispatch h MsgType.call_offer msg s)
      (incoming_call-SameKeys msg (act (play_sound "CallIncoming.wav") s))
dispatch-IsTrusty h MsgType.call_reject msg s =
    IsTrusty-SameKeys h.box s (dispatch h MsgType.call_reject msg s) (on_call_end-SameKeys msg s)
dispatch-IsTrusty h MsgType.call_end msg s =
    IsTrusty-SameKeys h.box s (dispatch h MsgType.call_end msg s) (on_call_end-SameKeys msg s)
dispatch-IsTrusty h MsgType.call_error msg s =
    IsTrusty-SameKeys h.box s (dispatch h MsgType.call_error msg s) (refl, refl)
dispatch-IsTrusty h MsgType.kicked msg s =
    IsTrusty-SameKeys h.box s (dispatch h MsgType.kicked msg s) (refl, refl)
dispatch-IsTrusty h MsgType.friend_removed msg s =
    IsTrusty-SameKeys h.box s (dispatch h MsgType.friend_removed msg s)
      (delete_contact-SameKeys h msg.sender s)
dispatch-IsTrusty h MsgType.convo_info msg s =
    IsTrusty-SameKeys h.box s (dispatch h MsgType.convo_info msg s) (on_convo_info-SameKeys h msg s)
dispatch-IsTrusty h MsgType.convo_created msg s =
    IsTrusty-SameKeys h.box s (dispatch h MsgType.convo_created msg s)
      (on_convo_info-SameKeys h msg s)
dispatch-IsTrusty h MsgType.convo_msg msg s =
    IsTrusty-SameKeys h.box s (dispatch h MsgType.convo_msg msg s) (on_convo_msg-SameKeys h msg s)
dispatch-IsTrusty h MsgType.convo_left msg s =
    IsTrusty-SameKeys h.box s (dispatch h MsgType.convo_left msg s) (on_convo_left-SameKeys msg s)
dispatch-IsTrusty h _ msg s = IsTrusty-SameKeys h.box s s (refl, refl)

-- When every key in use has the fingerprint that is pinned for its peer, the same holds after any
-- message, whatever it holds and whichever statements fail: of every peer, no key is in use, or one
-- with the pinned fingerprint. And every peer that had a pin has the same pin still, whether a key of
-- it is in use or not.
pub handle_incoming_message-ArePinned :
    (h : Host) (msg : NexusMessage) (s : PhazeApp) (peer : String)
    → ArePinned h.box s
    → ((lookup peer (handle_incoming_message h msg s).peer_keys ≡ none)
        ⊎ ((pk : Key) × (lookup peer (handle_incoming_message h msg s).peer_keys ≡ some pk)
            × (p : KeyPin) × (pinned peer (handle_incoming_message h msg s) ≡ some p)
            × (p.fingerprint ≡ fingerprint h.box pk)))
      × ((pinned peer s ≡ none) ⊎ (pinned peer (handle_incoming_message h msg s) ≡ pinned peer s))
unfolding handle_incoming_message
handle_incoming_message-ArePinned h msg s peer safe =
    let (trusty, keeps) = dispatch-IsTrusty h msg.type (decrypt_fields h s msg) s in
    (
      elim (Option-cases (lookup peer (handle_incoming_message h msg s).peer_keys)) [
        | inl e ↦ inl e
        | inr (pk, used) ↦
            let (p, found, same) = trusty safe peer pk used in inr (pk, used, p, found, same)
      ],
      elim (Option-cases (pinned peer s)) [
        | inl e ↦ inl e
        | inr (q, e) ↦ inr (keeps peer q e ∙ sym e)
      ],
    )
