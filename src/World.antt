-- ===== src/World.antt =====
-- What a run of a handler meets outside the program: the clock, the random source, bcrypt, TOTP,
-- the mail address parser, Twilio, the environment variables, and which SQL statements fail. A
-- `World` is one such meeting; every handler takes one, and theorems range over all of them.
use skype7_reborn.Prelude.{ℕ, zero, suc, ◌+◌, ◌*◌, ◌/◌, String, Bool, List, Option, none, some}
use skype7_reborn.Prelude.Text.{hex_encode, digit, append}
use Prim.Native.Char.{Char}

-- The SQL statements of the server by the operation that runs them, with what tells two runs of
-- one statement by one handler apart. Commits and the starts of transactions may fail too.
pub data Site : Type 0 where
  register_insert session_insert session_revoke session_select erase_begin erase_commit
        totp_select :
      Site
  erase_statement : ℕ → Site
  totp_update reset_user reset_insert reset_select reset_begin reset_password reset_used : Site
  reset_commit qr_insert qr_approve qr_select verify_select verify_update auth_select : Site
  ban_select admin_select member_select role_select servers_select channels_select : Site
  history_select broadcast_select friends_select request_select request_insert : Site
  accept_update reject_delete are_friends remove_delete convo_begin convo_insert : Site
  convo_commit convos_select friends_list leave_delete pending_select : Site
  convo_member : String → Site
  offline_insert : String → Site
  offline_select : Site
  offline_delete : ℕ → Site
  block_select : String → String → Site
  block_insert block_delete blocks_select report_insert users_search pstn_select : Site
  phone_update phone_select phone_verified phone_cleared profile_update resend_select : Site
  resend_update totp_stash password_update space_begin space_insert owner_insert : Site
  bootstrap_insert : ℕ → Site
  convo_members : String → Site
  space_commit invite_select join_insert space_leave members_select position_select : Site
  channel_insert channel_select message_insert ban_update ban_sessions unban_update : Site
  report_resolve reports_select banned_select : Site

-- The draws of random bytes, by what they are for.
pub data Draw : Type 0 where
  session_draw reset_draw qr_draw space_draw invite_draw channel_draw : Draw
  bootstrap_draw : ℕ → Draw

pub record World : Type 0 where
  -- time.Now() in nanoseconds
  pub now : ℕ
  pub fails : Site → Bool
  -- the text of a failed statement's error
  pub error_text : Site → String
  -- rand.Read into a buffer of the given length
  pub rand_read : Draw → ℕ → Option (List ℕ)
  -- rand.Int(10) for the digit at an index
  pub rand_int : ℕ → Option ℕ
  pub bcrypt_generate : String → Option String
  pub bcrypt_matches : String → String → Bool
  pub totp_generate : String → Option (String × String)
  pub totp_validate : String → String → Bool
  pub parse_address : String → Bool
  -- the class [\p{L}\p{N}]
  pub is_letter_or_number : Char → Bool
  -- client.msgLimiter.Allow()
  pub msg_allowed : Bool
  pub pstn_enabled : Bool
  pub turn_secret : String
  pub turn_url : String
  pub turn_short_term : Bool
  -- the text that the database driver gives for a DATETIME
  pub date_text : ℕ → String
  -- base64 of HMAC-SHA1 of a text under a key
  pub hmac_sha1 : String → String → String
  -- the error of an outbound Twilio call
  pub twilio_call : String → Option String

abbrev pub second : ℕ
second = 1000000000

abbrev pub minute : ℕ
minute = 60000000000

abbrev pub hour : ℕ
hour = 3600000000000

-- CURRENT_TIMESTAMP counts whole seconds.
unfoldable pub current_timestamp : World → ℕ
current_timestamp w = w.now / second * second

unfoldable pub rand_hex : World → Draw → ℕ → Option String
rand_hex w d n = elim (w.rand_read d n) [ none ↦ none | some bytes ↦ some (hex_encode bytes) ]

-- The loop of randDigits from index `i`, with `left` digits to come.
unfoldable pub rand_digits_from : World → ℕ → ℕ → Option String
rand_digits_from w i zero = some ""
rand_digits_from w i (suc left) =
    let rest = rand_digits_from w (i + 1) left in
    elim (w.rand_int i) [
      | none ↦ none
      | some d ↦ elim rest [ none ↦ none | some s ↦ some (append (digit d) s) ]
    ]

unfoldable pub rand_digits : World → ℕ → Option String
unfolding rand_digits_from
rand_digits w n = rand_digits_from w 0 n
