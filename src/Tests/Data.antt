-- ===== src/Tests/Data.antt =====
-- The world, users and connections of the tests. The functions outside the program are small
-- concrete ones: bcrypt puts a mark before the password, a random byte is 7 but for the ids of the
-- first channels, a random digit is 4.
use skype7_reborn.Prelude.{
  ℕ, zero, suc, String, true, false, List, [], ◌∷◌, none, some, ◌==◌, nat_eq, if◌then◌else◌,
}
use skype7_reborn.Prelude.Text.{append, decimal}
use skype7_reborn.World.{World, Draw}
use skype7_reborn.Wire.{NexusMessage, MsgType, blank}
use skype7_reborn.Db.{Db, User, empty_db}
use skype7_reborn.Server.{Server, Conn, new_server}

abbrev repeat : ℕ → ℕ → List ℕ
repeat b zero = []
repeat b (suc n) = b ∷ repeat b n

-- The two channels of a new server need two ids.
abbrev byte_of : Draw → ℕ
byte_of (Draw.bootstrap_draw i) = i
byte_of _ = 7

-- A moment, in nanoseconds, at which nothing fails.
abbrev pub at_time : ℕ → World
at_time now = record {
  now = now;
  fails = λ s. false;
  error_text = λ s. "disk I/O error";
  rand_read = λ d n. some (repeat (byte_of d) n);
  rand_int = λ i. some 4;
  bcrypt_generate = λ p. some (append "$2a$" p);
  bcrypt_matches = λ h p. h == append "$2a$" p;
  totp_generate = λ u. some ("JBSWY3DP", u);
  totp_validate = λ code secret. code == "123456";
  parse_address = λ a. true;
  is_letter_or_number = λ c. true;
  msg_allowed = true;
  pstn_enabled = false;
  turn_secret = "";
  turn_url = "";
  turn_short_term = false;
  date_text = λ t. decimal t;
  hmac_sha1 = λ key text. append key text;
  twilio_call = λ number. none;
}

abbrev pub morning : World
morning = at_time 1000000000000

abbrev pub noon : World
noon = at_time 2000000000000

abbrev pub user : String → User
user name = record {
  username = name;
  email = append name "@example.org";
  mood = "";
  display_name = none;
  password_hash = "$2a$correct horse";
  is_verified = true;
  verification_code = none;
  phone_number = none;
  phone_verified = false;
  totp_secret = "";
  totp_enabled = false;
  is_admin = name == "alice";
  is_banned = false;
  ban_reason = "";
}

abbrev pub three_users : Db
three_users = record (empty_db) { users = user "alice" ∷ user "bob" ∷ user "carol" ∷ [] }

abbrev pub logged_in : String → Conn
logged_in name = record { username = name; status = "Online"; is_open = true }

-- alice on connection 1, bob on connection 2
abbrev pub two_online : Db → Server
two_online db = record (new_server db) {
  clients = ("alice", 1) ∷ ("bob", 2) ∷ [];
  conns = λ c.
      if nat_eq c 1
      then logged_in "alice"
      else if nat_eq c 2
      then logged_in "bob"
      else logged_in "";
}

abbrev pub to_user : String → NexusMessage
to_user name = record (blank MsgType.msg) { recipient = name; body = "hello" }

-- Every statement fails.
abbrev pub failing : World
failing = record morning { fails = λ s. true }

abbrev pub with_reset : Db
with_reset = record three_users {
  password_resets =
      record { token = "r1"; username = "bob"; expires_at = 3000000000000; used = false } ∷ [];
}

-- the session token of 32 bytes
abbrev pub session_text : String
session_text = "0707070707070707070707070707070707070707070707070707070707070707"
