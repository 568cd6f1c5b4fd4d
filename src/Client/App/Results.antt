-- ===== src/Client/App/Results.antt =====
-- The cases of HandleIncomingMessage, native_client/main.go, that carry the result of a request.
use skype7_reborn.Prelude.{String, not, Option, none, some, ◌==◌, if◌then◌else◌}
use skype7_reborn.Wire.{NexusMessage, TurnConfig}
use skype7_reborn.Client.App.{
  PhazeApp, AuthResult, play_sound, show_information, show_error, totp_enroll_dialog, act,
}

-- A select with a default: a result is dropped when one waits.
unfoldable pub offer_result : AuthResult → Option AuthResult → Option AuthResult
offer_result r none = some r
offer_result r (some waiting) = some waiting

unfoldable pub set_ice_servers : Option TurnConfig → PhazeApp → PhazeApp
set_ice_servers none s = s
set_ice_servers (some t) s = record s { ice_servers = some t }

unfoldable pub on_auth_result : NexusMessage → PhazeApp → PhazeApp
unfolding offer_result set_ice_servers act
on_auth_result msg s =
    let entered =
      (if msg.status == "ok"
        then set_ice_servers msg.turn_config
            (record (act (play_sound "Login.wav") s) { username = msg.sender })
        else s) in
    record entered {
      auth_chan =
          offer_result
            (record { status = msg.status; session_token = msg.qr_token; error = msg.error })
            entered.auth_chan;
    }

unfoldable pub on_totp_result : NexusMessage → PhazeApp → PhazeApp
unfolding act
on_totp_result msg s =
    if msg.status == "pending_confirm"
    then act (totp_enroll_dialog msg.totp_uri) s
    else if msg.status == "enabled"
    then act (show_information "2FA is now enabled on this account.") s
    else if msg.status == "disabled"
    then act (show_information "2FA has been disabled.") s
    else if msg.error == ""
    then s
    else act (show_error msg.error) s

unfoldable pub on_qr_login_result : NexusMessage → PhazeApp → PhazeApp
unfolding act
on_qr_login_result msg s =
    if msg.status == "approved"
    then act (show_information "Sign-in approved on the other device.") s
    else if msg.error == ""
    then s
    else act (show_error msg.error) s

-- An error is shown, and otherwise a text.
unfoldable pub error_or : String → NexusMessage → PhazeApp → PhazeApp
unfolding act
error_or success msg s =
    if msg.error == "" then act (show_information success) s else act (show_error msg.error) s

-- An error is shown; nothing else is.
unfoldable pub error_only : NexusMessage → PhazeApp → PhazeApp
unfolding act
error_only msg s = if msg.error == "" then s else act (show_error msg.error) s

unfoldable pub on_phone_link_result : NexusMessage → PhazeApp → PhazeApp
unfolding act
on_phone_link_result msg s =
    if not (msg.error == "")
    then act (show_error msg.error) s
    else if msg.status == "code_sent"
    then act (show_information "Verification code sent to your phone.") s
    else if msg.status == "verified"
    then act (show_information "Phone number linked.") s
    else s
