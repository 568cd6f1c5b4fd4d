-- ===== src/Server.antt =====
-- NexusServer and Client of nexus_server/main.go, and what a handler does to them besides the
-- database. A connection is a number, its identity as a pointer; `clients` is the map s.Clients.
-- A handler runs from one message to the next as one step. What it sends is logged in `out`, the
-- last frame first; a frame to a closed socket is lost, since no caller looks at Send's error.
pub mod Effects
use skype7_reborn.Prelude.{
  ℕ, ◌+◌, ◌*◌, ◌/◌, String, Bool, true, false, ◌||◌, List, [], ◌∷◌, Option, none, some, ◌==◌,
  nat_eq, if◌then◌else◌,
}
use skype7_reborn.Prelude.Dict.{lookup}
use skype7_reborn.Prelude.Text.{append, decimal}
use skype7_reborn.World.{World, minute, hour, second}
use skype7_reborn.Wire.{NexusMessage, TurnConfig}
use skype7_reborn.Db.{Db}

-- `username` is the read loop's variable, which Client.Username always equals; it is "" before a
-- login. `status` is Client.Status; `is_open` says that the socket is not closed.
pub record Conn : Type 0 where
  pub username : String
  pub status : String
  pub is_open : Bool

pub record Metrics : Type 0 where
  pub ws_messages_in : ℕ
  pub auth_success : ℕ
  pub auth_failure : ℕ
  pub key_requests : ℕ
  pub convo_messages : ℕ
  pub pstn_attempts : ℕ
  pub pstn_rejected : ℕ

-- Mails and short messages that the server sends.
pub data Mail : Type 0 where
  activation : String → Mail
  new_code : String → Mail
  reset_link : String → String → Mail
  sms_code : String → Mail

pub record Server : Type 0 where
  pub db : Db
  pub clients : List (String × ℕ)
  pub conns : ℕ → Conn
  pub out : List (ℕ × NexusMessage)
  pub mails : List (String × Mail)
  pub metrics : Metrics

abbrev fresh_conn : Conn
fresh_conn = record { username = ""; status = ""; is_open = true }

-- A server that has just started, every connection number unused.
unfoldable pub new_server : Db → Server
new_server db = record {
  db = db;
  clients = [];
  conns = λ c. fresh_conn;
  out = [];
  mails = [];
  metrics = record {
    ws_messages_in = 0;
    auth_success = 0;
    auth_failure = 0;
    key_requests = 0;
    convo_messages = 0;
    pstn_attempts = 0;
    pstn_rejected = 0;
  };
}

-- client.Send
unfoldable pub send : ℕ → NexusMessage → Server → Server
send c m s = if (s.conns c).is_open then record s { out = (c, m) ∷ s.out } else s

-- if c, ok := s.Clients[u]; ok { c.Send(m) }
unfoldable pub send_to_user : String → NexusMessage → Server → Server
send_to_user u m s = elim (lookup u s.clients) [ none ↦ s | some c ↦ send c m s ]

-- One message to each of some users who is online.
unfoldable pub send_to_all : List String → NexusMessage → Server → Server
send_to_all [] m s = s
send_to_all (u ∷ us) m s = send_to_all us m (send_to_user u m s)

unfoldable pub set_conn : ℕ → Conn → Server → Server
set_conn c conn s = record s { conns = λ d. if nat_eq c d then conn else s.conns d }

-- Conn.Close
unfoldable pub close : ℕ → Server → Server
unfolding set_conn
close c s = set_conn c (record (s.conns c) { is_open = false }) s

unfoldable pub set_db : Db → Server → Server
set_db db s = record s { db = db }

unfoldable pub send_mail : String → Mail → Server → Server
send_mail to m s = record s { mails = (to, m) ∷ s.mails }

abbrev pub user_of : Server → ℕ → String
user_of s c = (s.conns c).username

-- generateMediaToken: (expiry:username, HMAC of that under the TURN secret)
unfoldable pub generate_media_token : World → String → Option TurnConfig
generate_media_token w username =
    if w.turn_secret == "" || w.turn_url == ""
    then none
    else let life : ℕ = (if w.turn_short_term then 10 * minute else 24 * hour) in
      let user : String = append (decimal ((w.now + life) / second)) (append ":" username) in
      some (record { url = w.turn_url; username = user; password = w.hmac_sha1 w.turn_secret user })
