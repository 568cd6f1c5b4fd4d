-- ===== src/Admin/Boot.antt =====
-- What initDB does with PHAZE_ADMIN_USERS at the start, adminReportsHandler, healthHandler and
-- statsHandler. The outcome of each statement is a parameter.
use skype7_reborn.Prelude.{
  ℕ, String, Bool, true, ◌&&◌, List, [], ◌∷◌, ◌==◌, length, not, if◌then◌else◌, ◌⊎◌, inl, inr,
}
use skype7_reborn.Prelude.Table.{select, update_where, limit}
use skype7_reborn.Prelude.Text.{split, trim_space}
use skype7_reborn.World.{World}
use skype7_reborn.Db.{Db, User, AbuseReport}
use skype7_reborn.Server.{Server}
use skype7_reborn.Account.Login.{named}
use skype7_reborn.Admin.{Request, Response, admin_from_request, reply}

unfoldable pub set_admin : User → User
set_admin u = record u { is_admin = true }

-- One round of the loop over the names.
unfoldable pub promote : (String → Bool) → String → List User → List User
unfolding set_admin
promote fails name users =
    if trim_space name == ""
    then users
    else if fails (trim_space name)
    then users
    else update_where (named (trim_space name)) set_admin users

unfoldable pub promote_each : (String → Bool) → List String → List User → List User
unfolding promote
promote_each fails [] users = users
promote_each fails (name ∷ names) users = promote_each fails names (promote fails name users)

unfoldable pub promote_admins : (String → Bool) → String → Db → Db
unfolding promote_each
promote_admins fails raw db =
    if trim_space raw == ""
    then db
    else record db { users = promote_each fails (split b',' (trim_space raw)) db.users }

unfoldable pub has_status : String → AbuseReport → Bool
has_status status r = r.status == status

unfoldable pub newest : List AbuseReport → List AbuseReport → List AbuseReport
newest [] done = done
newest (r ∷ rs) done = newest rs (r ∷ done)

-- Ids grow with the order of insertion.
unfoldable pub reports_with : String → Db → List AbuseReport
unfolding has_status newest
reports_with status db =
    limit 500 (
      newest (select (has_status (if status == "" then "pending" else status)) db.abuse_reports) [])

unfoldable pub admin_reports_handler :
    World → Bool → Request → String → Server → Response ⊎ List AbuseReport
unfolding admin_from_request reports_with
admin_reports_handler w fails r status s = elim (admin_from_request w r s) [
  | inr refusal ↦ inl refusal
  | inl admin ↦ if fails then inl (reply 500 "db error") else inr (reports_with status s.db)
]

pub record Health : Type 0 where
  pub code : ℕ
  pub status : String
  pub version : String
  pub database_ok : Bool
  pub turn_configured : Bool
  pub connected_clients : ℕ

-- The version is the environment's, and the ping either succeeds or not.
unfoldable pub health_handler : World → Bool → String → Server → Health
health_handler w pings version s = record {
  code = if pings then 200 else 503;
  status = if pings then "ok" else "degraded";
  version = if version == "" then "1.0.0-Phaze" else version;
  database_ok = pings;
  turn_configured = not (w.turn_secret == "") && not (w.turn_url == "");
  connected_clients = length s.clients;
}

pub record Stats : Type 0 where
  pub active_nodes : ℕ
  pub total_members : ℕ

unfoldable pub stats_handler : Bool → Server → Stats
stats_handler counts s = record {
  active_nodes = length s.clients;
  total_members = if counts then length s.db.users else 0;
}
