-- ===== src/Client/App.antt =====
-- PhazeApp of native_client/main.go: what the app keeps of its user, of peers' keys, of contacts and of
-- messages, with the local database, and what it does to the outside as a list of acts in their order.
-- `go f()` is taken to run at once.
pub mod Sending
pub mod Keys
pub mod Contacts
pub mod Results
pub mod Messages
pub mod Events
pub mod Inbox
pub mod Chat
pub mod Connect
pub mod Windows
pub mod Trust
pub mod Delivery
use skype7_reborn.Prelude.{ℕ, String, Bool, Option, List, [], ◌∷◌, ◌++◌}
use skype7_reborn.Wire.{NexusMessage, TurnConfig}
use skype7_reborn.Client.Crypto.{Box, Key}

-- Rows of the local database. A column that an INSERT leaves out is NULL.
pub record Contact : Type 0 where
  pub skypename : String
  pub displayname : Option String
  pub mood_text : Option String
  pub availability : ℕ

pub record KeyPin : Type 0 where
  pub skypename : String
  pub fingerprint : String
  pub public_key : Key
  pub first_seen : ℕ

pub record Message : Type 0 where
  pub chatname : String
  pub author : String
  pub body_xml : String
  pub timestamp : ℕ
  pub type : ℕ

pub record Conversation : Type 0 where
  pub identity : String
  pub displayname : String
  pub type : ℕ

pub record Account : Type 0 where
  pub skypename : String
  pub public_key : Key
  pub private_key : Key

pub record FriendInfo : Type 0 where
  pub username : String
  pub display_name : String
  pub status : String
  pub mood : String

pub record Bubble : Type 0 where
  pub author : String
  pub text : String
  pub is_me : Bool

pub record AuthResult : Type 0 where
  pub status : String
  pub session_token : String
  pub error : String

pub data Act : Type 0 where
  -- Conn.WriteJSON that succeeds, and P2P.SendSignal
  write : NexusMessage → Act
  send_signal : String → NexusMessage → Act
  play_sound : String → Act
  notification : String → String → Act
  show_information : String → Act
  show_error : String → Act
  totp_enroll_dialog : String → Act
  friend_request_dialog : String → Act
  incoming_call_dialog : String → String → Act
  close_call_window : String → Act
  hide_typing_later : String → Act

pub record PhazeApp : Type 0 where
  pub username : String
  pub session_token : String
  pub server_address : String
  -- The tokens of sessions that the system's keyring holds, by user
  pub keyring : List (String × String)
  pub status : String
  pub pub_key : Option Key
  pub priv_key : Option Key
  pub peer_keys : List (String × Key)
  pub convo_members : List (String × List String)
  pub accounts : List Account
  pub contacts : List Contact
  pub key_pins : List KeyPin
  pub messages : List Message
  pub conversations : List Conversation
  pub friends : List FriendInfo
  pub discovered : List String
  pub pending_inbound : List String
  pub unread_counts : List (String × ℕ)
  pub chat_logs : List (String × List Bubble)
  -- The labels of the open chats, with whether they are shown
  pub chat_typing_labels : List (String × Bool)
  pub call_windows : List String
  pub ice_servers : Option TurnConfig
  -- A channel that holds one result
  pub auth_chan : Option AuthResult
  pub main_window : Bool
  pub acts : List Act

-- What is sealed for a peer, each with a nonce of its own: the fields that SendMessage seals, and the
-- envelope of each member of a group.
pub data Field : Type 0 where
  in_body in_sdp in_candidate : Field
  in_envelope : String → Field

-- The statements on the local database that may fail.
pub data Site : Type 0 where
  pin_select pin_insert message_insert contact_insert contact_delete contact_update : Site
  contact_select convo_insert message_select account_select account_update : Site

pub record Host : Type 0 where
  pub box : Box
  pub now : ℕ
  pub nonce : Field → Option (List ℕ)
  -- Whether Conn is there and WriteJSON succeeds, and whether P2P is there
  pub connected : Bool
  pub p2p : Bool
  pub fails : Site → Bool

unfoldable pub act : Act → PhazeApp → PhazeApp
act a s = record s { acts = s.acts ++ a ∷ [] }
