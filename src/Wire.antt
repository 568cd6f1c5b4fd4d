-- ===== src/Wire.antt =====
-- The wire protocol of nexus_server/main.go: NexusMessage and the structs that it carries. The
-- `type` string of a message is a data type here, with a constructor for each string that the
-- server reads or writes, and `other` for the rest.
use skype7_reborn.Prelude.{ℕ, String, List, [], Option, none}

pub data MsgType : Type 0 where
  pstn_call register verify_email status_update request_phone_link verify_phone_link : MsgType
  update_profile auth session_auth revoke_session delete_account resend_verification : MsgType
  enable_totp confirm_totp disable_totp forgot_password reset_password change_password : MsgType
  qr_login_create qr_login_approve qr_login_check msg block unblock list_blocks : MsgType
  report_abuse typing presence search friend_request friend_accept friend_reject : MsgType
  friend_remove convo_create convo_msg convo_leave read_receipt key_request call_offer : MsgType
  call_answer ice_candidate call_reject call_end server_create server_list server_join : MsgType
  server_leave server_info channel_create channel_msg channel_history : MsgType
  pstn_status register_result verify_result phone_link_result update_result auth_result : MsgType
  kicked pending_requests convo_info friend_status session_revoked delete_account_result : MsgType
  totp_result forgot_password_result reset_password_result change_password_result : MsgType
  qr_login_result msg_status block_result blocks report_result search_results : MsgType
  friend_accepted friend_removed convo_error convo_created convo_left call_error : MsgType
  server_result server_list_result server_join_result server_leave_result : MsgType
  server_info_result channel_result server_channels_updated channel_msg_result : MsgType
  channel_msg_in channel_history_result profile_update : MsgType
  other : String → MsgType

pub record ServerSummary : Type 0 where
  pub id : String
  pub name : String
  pub description : String
  pub icon : String
  pub owner : String
  pub visibility : String
  pub role : String
  pub invite_code : String

pub record ChannelInfo : Type 0 where
  pub id : String
  pub server_id : String
  pub name : String
  pub topic : String
  pub kind : String
  pub position : ℕ

pub record ChannelMsg : Type 0 where
  pub id : ℕ
  pub channel_id : String
  pub sender : String
  pub body : String
  pub created_at : ℕ

pub record TurnConfig : Type 0 where
  pub url : String
  pub username : String
  pub password : String

pub record NexusMessage : Type 0 where
  pub type : MsgType
  pub sender : String
  pub recipient : String
  pub body : String
  pub status : String
  pub results : List String
  pub sdp : String
  pub candidate : String
  pub token : String
  pub error : String
  pub email : String
  pub mood : String
  pub display_name : String
  pub convo_id : String
  pub convo_name : String
  pub members : List String
  pub turn_config : Option TurnConfig
  pub totp_code : String
  pub totp_uri : String
  pub qr_token : String
  pub qr_data : String
  pub device_info : String
  pub envelopes : List (String × String)
  pub public_key : List ℕ
  pub key_fingerprint : String
  pub server_id : String
  pub channel_id : String
  pub server_name : String
  pub channel_name : String
  pub topic : String
  pub kind : String
  pub role : String
  pub visibility : String
  pub invite_code : String
  pub servers : List ServerSummary
  pub channels : List ChannelInfo
  pub messages : List ChannelMsg
  pub history_from : ℕ

-- NexusMessage{Type: t}: every other field is Go's zero value.
unfoldable pub blank : MsgType → NexusMessage
blank t = record {
  type = t;
  sender = "";
  recipient = "";
  body = "";
  status = "";
  results = [];
  sdp = "";
  candidate = "";
  token = "";
  error = "";
  email = "";
  mood = "";
  display_name = "";
  convo_id = "";
  convo_name = "";
  members = [];
  turn_config = none;
  totp_code = "";
  totp_uri = "";
  qr_token = "";
  qr_data = "";
  device_info = "";
  envelopes = [];
  public_key = [];
  key_fingerprint = "";
  server_id = "";
  channel_id = "";
  server_name = "";
  channel_name = "";
  topic = "";
  kind = "";
  role = "";
  visibility = "";
  invite_code = "";
  servers = [];
  channels = [];
  messages = [];
  history_from = 0;
}

-- NexusMessage{Type: t, Status: s} and NexusMessage{Type: t, Error: e}
unfoldable pub with_status : MsgType → String → NexusMessage
unfolding blank
with_status t s = record (blank t) { status = s }

unfoldable pub with_error : MsgType → String → NexusMessage
unfolding blank
with_error t e = record (blank t) { error = e }
