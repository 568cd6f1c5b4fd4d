-- ===== src/Db.antt =====
-- The database of nexus_server/main.go (initDB): a record of tables for each CREATE TABLE, with the
-- columns that some statement reads. A table holds its rows in the order of insertion; an integer
-- that is only ever 0 or 1 is a Bool, and a column that may be NULL is an Option where the program
-- sets it to NULL. AUTOINCREMENT never uses an id twice, so the last id of a table is kept.
pub mod Keys
use skype7_reborn.Prelude.{ℕ, String, Bool, List, [], Option}
use skype7_reborn.Wire.{MsgType}

pub record User : Type 0 where
  pub username : String
  pub email : String
  pub mood : String
  pub display_name : Option String
  pub password_hash : String
  pub is_verified : Bool
  pub verification_code : Option String
  pub phone_number : Option String
  pub phone_verified : Bool
  pub totp_secret : String
  pub totp_enabled : Bool
  pub is_admin : Bool
  pub is_banned : Bool
  pub ban_reason : String

pub data FriendStatus : Type 0 where
  pending accepted : FriendStatus

pub record Friend : Type 0 where
  pub user_a : String
  pub user_b : String
  pub status : FriendStatus

pub record OfflineMessage : Type 0 where
  pub id : ℕ
  pub sender : String
  pub recipient : String
  pub body : String
  pub msg_type : MsgType
  pub convo : String
  pub created_at : ℕ

pub record Conversation : Type 0 where
  pub id : String
  pub name : String
  pub created_by : String

pub record ConversationMember : Type 0 where
  pub convo_id : String
  pub username : String

pub record Block : Type 0 where
  pub blocker : String
  pub blocked : String
  pub created_at : ℕ

pub record AbuseReport : Type 0 where
  pub id : ℕ
  pub reporter : String
  pub subject : String
  pub reason : String
  pub body : String
  pub status : String
  pub resolved_by : String

pub record SessionToken : Type 0 where
  pub token : String
  pub username : String
  pub device_info : String
  pub expires_at : ℕ
  pub revoked : Bool

pub record PasswordReset : Type 0 where
  pub token : String
  pub username : String
  pub expires_at : ℕ
  pub used : Bool

pub record QrLogin : Type 0 where
  pub token : String
  pub username : String
  pub session_token : String
  pub device_info : String
  pub expires_at : ℕ
  pub approved : Bool

pub record Space : Type 0 where
  pub id : String
  pub name : String
  pub description : String
  pub icon : String
  pub owner : String
  pub visibility : String
  pub invite_code : String

pub record Channel : Type 0 where
  pub id : String
  pub server_id : String
  pub name : String
  pub topic : String
  pub kind : String
  pub position : ℕ

pub record ServerMember : Type 0 where
  pub server_id : String
  pub username : String
  pub role : String
  pub joined_at : ℕ

pub record ChannelMessage : Type 0 where
  pub id : ℕ
  pub channel_id : String
  pub sender : String
  pub body : String
  pub created_at : ℕ

pub record Db : Type 0 where
  pub users : List User
  pub friends : List Friend
  pub offline_messages : List OfflineMessage
  pub offline_last : ℕ
  pub conversations : List Conversation
  pub conversation_members : List ConversationMember
  pub blocks : List Block
  pub abuse_reports : List AbuseReport
  pub reports_last : ℕ
  pub session_tokens : List SessionToken
  pub password_resets : List PasswordReset
  pub qr_login_tokens : List QrLogin
  pub servers : List Space
  pub channels : List Channel
  pub server_members : List ServerMember
  pub channel_messages : List ChannelMessage
  pub messages_last : ℕ

unfoldable pub empty_db : Db
empty_db = record {
  users = [];
  friends = [];
  offline_messages = [];
  offline_last = 0;
  conversations = [];
  conversation_members = [];
  blocks = [];
  abuse_reports = [];
  reports_last = 0;
  session_tokens = [];
  password_resets = [];
  qr_login_tokens = [];
  servers = [];
  channels = [];
  server_members = [];
  channel_messages = [];
  messages_last = 0;
}
