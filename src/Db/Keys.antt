-- ===== src/Db/Keys.antt =====
-- The constraints of the tables: PRIMARY KEY, UNIQUE, and the ids that AUTOINCREMENT gives.
use skype7_reborn.Prelude.{nat_eq, Bool, List, ◌&&◌, ◌==◌, leb}
use skype7_reborn.Prelude.Table.Rows.{Every}
use skype7_reborn.Prelude.Table.Keys.{Distinct}
use skype7_reborn.Db.{
  empty_db, Db, User, Friend, Conversation, ConversationMember, Block, SessionToken, PasswordReset,
  QrLogin, Space, Channel, ServerMember, OfflineMessage, AbuseReport, ChannelMessage,
}

abbrev pub same_username : User → User → Bool
same_username a b = b.username == a.username

abbrev pub same_friends : Friend → Friend → Bool
same_friends a b = b.user_a == a.user_a && b.user_b == a.user_b

abbrev pub same_convo : Conversation → Conversation → Bool
same_convo a b = b.id == a.id

abbrev pub same_member : ConversationMember → ConversationMember → Bool
same_member a b = b.convo_id == a.convo_id && b.username == a.username

abbrev pub same_block : Block → Block → Bool
same_block a b = b.blocker == a.blocker && b.blocked == a.blocked

abbrev pub same_session : SessionToken → SessionToken → Bool
same_session a b = b.token == a.token

abbrev pub same_reset : PasswordReset → PasswordReset → Bool
same_reset a b = b.token == a.token

abbrev pub same_qr : QrLogin → QrLogin → Bool
same_qr a b = b.token == a.token

abbrev pub same_letter : OfflineMessage → OfflineMessage → Bool
same_letter a b = nat_eq a.id b.id

abbrev pub same_report : AbuseReport → AbuseReport → Bool
same_report a b = nat_eq a.id b.id

abbrev pub same_message : ChannelMessage → ChannelMessage → Bool
same_message a b = nat_eq a.id b.id

abbrev pub same_server : Space → Space → Bool
same_server a b = b.id == a.id

abbrev pub same_invite : Space → Space → Bool
same_invite a b = b.invite_code == a.invite_code

abbrev pub same_channel : Channel → Channel → Bool
same_channel a b = b.id == a.id

abbrev pub same_server_member : ServerMember → ServerMember → Bool
same_server_member a b = b.server_id == a.server_id && b.username == a.username

pub record IsWellFormed (db : Db) : Type 0 where
  pub users : Distinct same_username db.users
  pub friends : Distinct same_friends db.friends
  pub conversations : Distinct same_convo db.conversations
  pub members : Distinct same_member db.conversation_members
  pub blocks : Distinct same_block db.blocks
  pub sessions : Distinct same_session db.session_tokens
  pub resets : Distinct same_reset db.password_resets
  pub qr_logins : Distinct same_qr db.qr_login_tokens
  pub servers : Distinct same_server db.servers
  pub invites : Distinct same_invite db.servers
  pub channels : Distinct same_channel db.channels
  pub server_members : Distinct same_server_member db.server_members
  pub offline_ids : Every (λ m. leb m.id db.offline_last) db.offline_messages
  pub report_ids : Every (λ r. leb r.id db.reports_last) db.abuse_reports
  pub message_ids : Every (λ m. leb m.id db.messages_last) db.channel_messages
  pub offline_keys : Distinct same_letter db.offline_messages
  pub report_keys : Distinct same_report db.abuse_reports
  pub message_keys : Distinct same_message db.channel_messages

-- One table is replaced by another that meets its constraints.
module _ {db : Db} (h : IsWellFormed db) where
  pub with_users :
      {rows : List User} → Distinct same_username rows → IsWellFormed (record db { users = rows })
  with_users d = assumption

  pub with_friends :
      {rows : List Friend}
      → Distinct same_friends rows
      → IsWellFormed (record db { friends = rows })
  with_friends d = assumption

  pub with_members :
      {rows : List ConversationMember}
      → Distinct same_member rows
      → IsWellFormed (record db { conversation_members = rows })
  with_members d = assumption

  pub with_blocks :
      {rows : List Block} → Distinct same_block rows → IsWellFormed (record db { blocks = rows })
  with_blocks d = assumption

  pub with_sessions :
      {rows : List SessionToken}
      → Distinct same_session rows
      → IsWellFormed (record db { session_tokens = rows })
  with_sessions d = assumption

  pub with_resets :
      {rows : List PasswordReset}
      → Distinct same_reset rows
      → IsWellFormed (record db { password_resets = rows })
  with_resets d = assumption

  pub with_qr_logins :
      {rows : List QrLogin}
      → Distinct same_qr rows
      → IsWellFormed (record db { qr_login_tokens = rows })
  with_qr_logins d = assumption

  pub with_channels :
      {rows : List Channel}
      → Distinct same_channel rows
      → IsWellFormed (record db { channels = rows })
  with_channels d = assumption

  pub with_server_members :
      {rows : List ServerMember}
      → Distinct same_server_member rows
      → IsWellFormed (record db { server_members = rows })
  with_server_members d = assumption

pub empty_db-IsWellFormed : IsWellFormed empty_db
unfolding empty_db
empty_db-IsWellFormed = record {
  users = tt;
  friends = tt;
  conversations = tt;
  members = tt;
  blocks = tt;
  sessions = tt;
  resets = tt;
  qr_logins = tt;
  servers = tt;
  invites = tt;
  channels = tt;
  server_members = tt;
  offline_ids = tt;
  report_ids = tt;
  message_ids = tt;
  offline_keys = tt;
  report_keys = tt;
  message_keys = tt;
}
