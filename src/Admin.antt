-- ===== src/Admin.antt =====
-- The moderation endpoints of nexus_server/main.go: adminFromRequest, adminResolveReportHandler,
-- adminBanHandler. A request carries what the handlers read of it; its reason is the decoded body's.
pub mod Access
pub mod Ban
pub mod Boot
use Prim.Native.Char.{code}
use Prim.Native.String.{String as Text}
use skype7_reborn.Prelude.{
  ℕ, ◌+◌, ◌-◌, ◌*◌, ◌^◌, ◌⊎◌, inl, inr, String, Bool, true, false, not, ◌&&◌, ◌||◌, List, [], ◌∷◌,
  Option, none, some, ◌==◌, ltb, nat_eq, if◌then◌else◌, ok,
}
use skype7_reborn.Prelude.Int.{ℤ, pos, negsuc, minus}
use skype7_reborn.Prelude.Dict.{lookup, erase}
use skype7_reborn.Prelude.Table.{any_row, update_where}
use skype7_reborn.Prelude.Text.{split, trim_prefix, trim_space, is_digit, starts_with}
use skype7_reborn.World.{World, Site}
use skype7_reborn.Db.{User, AbuseReport, SessionToken}
use skype7_reborn.Server.{Server, send, close, set_db}
use skype7_reborn.Account.Login.{named, user_is_admin, valid_username}
use skype7_reborn.Account.Session.{session_username, set_revoked}
use skype7_reborn.Handlers.Login.{kicked_message, suspended}

pub record Request : Type 0 where
  pub method : String
  pub path : String
  pub authorization : String
  pub content_length : ℕ
  pub reason : String

pub record Response : Type 0 where
  pub code : ℕ
  pub text : String

abbrev pub reply : ℕ → String → Response
reply code text = record { code = code; text = text }

-- The administrator's name, or the refusal.
unfoldable pub admin_from_request : World → Request → Server → String ⊎ Response
admin_from_request w r s =
    if not (starts_with r.authorization "Bearer ")
    then inr (reply 401 "Authorization required")
    else let u = session_username w (trim_space (trim_prefix "Bearer " r.authorization)) s.db in
      if u == ""
      then inr (reply 401 "invalid or expired session")
      else if not (user_is_admin w u s.db)
      then inr (reply 403 "admin access required")
      else inl u

-- strconv.ParseInt of a text of digits: its value.
unfoldable pub parse_digits : ℕ → String → Option ℕ
parse_digits acc Text.[] = some acc
parse_digits acc (Text.◌∷◌ c s) =
    if is_digit c then parse_digits (acc * 10 + (code c - b'0')) s else none

unfoldable pub parse_unsigned : String → Option ℕ
parse_unsigned Text.[] = none
parse_unsigned (Text.◌∷◌ c s) = parse_digits 0 (Text.◌∷◌ c s)

-- strconv.ParseInt(t, 10, 64): a sign or none, digits, and a value that an int64 holds.
unfoldable pub parse_id : String → Option ℤ
parse_id Text.[] = none
parse_id (Text.◌∷◌ c s) =
    if nat_eq (code c) b'-'
    then elim (parse_unsigned s) [
      | none ↦ none
      | some n ↦ if ltb (2 ^ 63) n then none else some (minus n)
    ]
    else elim (parse_unsigned (if nat_eq (code c) b'+' then s else Text.◌∷◌ c s)) [
      | none ↦ none
      | some n ↦ if ltb n (2 ^ 63) then some (pos n) else none
    ]

unfoldable pub set_resolved : String → AbuseReport → AbuseReport
set_resolved admin r = record r { status = "resolved"; resolved_by = admin }

-- WHERE id = ?
unfoldable pub has_id : ℤ → AbuseReport → Bool
has_id (pos n) r = nat_eq r.id n
has_id (negsuc n) r = false

unfoldable pub resolve : World → String → ℤ → Server → Response × Server
resolve w admin id s =
    if w.fails Site.report_resolve
    then (reply 500 "db error", s)
    else if any_row (has_id id) s.db.abuse_reports
    then (
      reply 200 "ok",
      set_db
          (record s.db {
            abuse_reports = update_where (has_id id) (set_resolved admin) s.db.abuse_reports;
          })
          s,
    )
    else (reply 404 "report not found", s)

abbrev resolve_usage : String
resolve_usage = "expected /api/v1/admin/reports/{id}/resolve"

unfoldable pub resolve_path : World → String → List String → Server → Response × Server
resolve_path w admin (id ∷ action ∷ rest) s =
    if not (action == "resolve")
    then (reply 400 resolve_usage, s)
    else elim (parse_id id) [ none ↦ (reply 400 "bad report id", s) | some n ↦ resolve w admin n s ]
resolve_path w admin _ s = (reply 400 resolve_usage, s)

unfoldable pub admin_resolve_report_handler : World → Request → Server → Response × Server
admin_resolve_report_handler w r s = elim (admin_from_request w r s) [
  | inr refusal ↦ (refusal, s)
  | inl admin ↦
      if not (r.method == "POST")
      then (reply 405 "method not allowed", s)
      else resolve_path w admin (split b'/' (trim_prefix "/api/v1/admin/reports/" r.path)) s
]

unfoldable pub set_banned : Bool → String → User → User
set_banned banned reason u = record u { is_banned = banned; ban_reason = reason }

unfoldable pub of_user : String → SessionToken → Bool
of_user u t = t.username == u

-- UPDATE session_tokens SET revoked = 1 WHERE username = ?
unfoldable pub revoke_sessions_of : World → String → Server → Server
revoke_sessions_of w u s =
    if w.fails Site.ban_sessions
    then s
    else set_db
        (record s.db { session_tokens = update_where (of_user u) set_revoked s.db.session_tokens })
        s

unfoldable pub kick_banned : String → String → Server → Server
kick_banned u reason s = elim (lookup u s.clients) [
  | none ↦ s
  | some c ↦
      let t = close c (send c (kicked_message (suspended reason)) s) in
      record t { clients = erase u t.clients }
]

unfoldable pub ban : World → String → String → Server → Response × Server
ban w u reason s =
    if w.fails Site.ban_update
    then (reply 500 "db error", s)
    else if any_row (named u) s.db.users
    then (
      reply 200 "ok",
      kick_banned u reason (
          revoke_sessions_of w u (
            set_db
              (record s.db { users = update_where (named u) (set_banned true reason) s.db.users })
              s)),
    )
    else (reply 404 "user not found", s)

unfoldable pub unban : World → String → Server → Response × Server
unban w u s =
    if w.fails Site.unban_update
    then (reply 500 "db error", s)
    else if any_row (named u) s.db.users
    then (
      reply 200 "ok",
      set_db (record s.db { users = update_where (named u) (set_banned false "") s.db.users }) s,
    )
    else (reply 404 "user not found", s)

-- The checks on the user named in the path, and the action.
unfoldable pub moderate : World → String → String → String → Request → Server → Response × Server
moderate w admin target action r s =
    let reason : String =
      (if ltb 0 r.content_length && ltb r.content_length 4096 then trim_space r.reason else "") in
    if target == "" || not (valid_username target)
    then (reply 400 "bad username", s)
    else if target == admin
    then (reply 400 "cannot ban yourself", s)
    else if action == "ban"
    then ban w target reason s
    else if action == "unban"
    then unban w target s
    else (reply 400 "expected /ban or /unban", s)

abbrev ban_usage : String
ban_usage = "expected /api/v1/admin/users/{username}/(ban|unban)"

unfoldable pub moderate_path : World → String → List String → Request → Server → Response × Server
moderate_path w admin (target ∷ action ∷ rest) r s = moderate w admin target action r s
moderate_path w admin _ r s = (reply 400 ban_usage, s)

unfoldable pub admin_ban_handler : World → Request → Server → Response × Server
admin_ban_handler w r s = elim (admin_from_request w r s) [
  | inr refusal ↦ (refusal, s)
  | inl admin ↦
      if not (r.method == "POST")
      then (reply 405 "method not allowed", s)
      else moderate_path w admin (split b'/' (trim_prefix "/api/v1/admin/users/" r.path)) r s
]
