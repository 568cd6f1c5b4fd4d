-- ===== src/Integrity/Moderation.antt =====
-- The constraints of the tables under the moderation endpoints.
use skype7_reborn.Prelude.Table.Keys.{Distinct-update}
use skype7_reborn.Prelude.{refl, ℕ, String, List, [], ◌∷◌, leb, arith, ◌≡◌}
use skype7_reborn.Prelude.Table.{update_where}
use skype7_reborn.Prelude.Table.Rows.{Every}
use skype7_reborn.World.{World}
use skype7_reborn.Server.{Server, set_db}
use skype7_reborn.Db.{AbuseReport, Db}
use skype7_reborn.Db.Keys.{IsWellFormed, same_report}
use skype7_reborn.Prelude.Int.{ℤ}
use skype7_reborn.Admin.{
  Request, admin_ban_handler, admin_resolve_report_handler, ban, unban, moderate, moderate_path,
  revoke_sessions_of, kick_banned, set_banned, set_resolved, has_id, resolve, resolve_path, of_user,
}
use skype7_reborn.Integrity.Quiet.{quiet}
use skype7_reborn.Integrity.Accounts.{update_users-IsWellFormed, update_sessions-IsWellFormed}

revoke_sessions_of-IsWellFormed :
    (w : World) (u : String) (s : Server)
    → IsWellFormed s.db
    → IsWellFormed (revoke_sessions_of w u s).db
unfolding revoke_sessions_of set_db
revoke_sessions_of-IsWellFormed w u s h =
    ground (arith, update_sessions-IsWellFormed (of_user u) s.db h)

db-kick_banned : (u reason : String) (s : Server) → (kick_banned u reason s).db ≡ s.db
unfolding kick_banned
db-kick_banned u reason s = grind (arith, quiet)

ban-IsWellFormed :
    (w : World) (u reason : String) (s : Server)
    → IsWellFormed s.db
    → IsWellFormed (ban w u reason s).1.db
unfolding ban set_banned
ban-IsWellFormed w u reason s h =
    grind (arith, quiet, db-kick_banned, revoke_sessions_of-IsWellFormed, update_users-IsWellFormed)

unban-IsWellFormed :
    (w : World) (u : String) (s : Server) → IsWellFormed s.db → IsWellFormed (unban w u s).1.db
unfolding unban set_banned
unban-IsWellFormed w u s h = grind (arith, quiet, update_users-IsWellFormed)

moderate-IsWellFormed :
    (w : World) (admin target action : String) (r : Request) (s : Server)
    → IsWellFormed s.db
    → IsWellFormed (moderate w admin target action r s).1.db
unfolding moderate
moderate-IsWellFormed w admin target action r s h =
    grind (arith, ban-IsWellFormed, unban-IsWellFormed)

moderate_path-IsWellFormed :
    (w : World) (admin : String) (parts : List String) (r : Request) (s : Server)
    → IsWellFormed s.db
    → IsWellFormed (moderate_path w admin parts r s).1.db
unfolding moderate_path
moderate_path-IsWellFormed w admin (target ∷ action ∷ rest) r s h =
    moderate-IsWellFormed w admin target action r s h
moderate_path-IsWellFormed w admin _ r s h = h

pub admin_ban_handler-IsWellFormed :
    (w : World) (r : Request) (s : Server)
    → IsWellFormed s.db
    → IsWellFormed (admin_ban_handler w r s).1.db
unfolding admin_ban_handler
admin_ban_handler-IsWellFormed w r s h = grind (arith, moderate_path-IsWellFormed)

update_reports-Every :
    (admin : String) (id : ℤ) (n : ℕ) (rows : List AbuseReport)
    → Every (λ r. leb r.id n) rows
    → Every (λ r. leb r.id n) (update_where (has_id id) (set_resolved admin) rows)
unfolding update_where set_resolved
update_reports-Every admin id n [] h = tt
update_reports-Every admin id n (r ∷ rows) h =
    (ground arith, update_reports-Every admin id n rows h.1)

update_reports-IsWellFormed :
    (admin : String) (id : ℤ) (db : Db)
    → IsWellFormed db
    → IsWellFormed (record db {
      abuse_reports = update_where (has_id id) (set_resolved admin) db.abuse_reports;
    })
update_reports-IsWellFormed admin id db h =
    let ids = update_reports-Every admin id db.reports_last db.abuse_reports h.report_ids in
    let keys =
      Distinct-update same_report (has_id id) (set_resolved admin) db.abuse_reports
        (λ x y. unfold set_resolved in refl) (λ x y. unfold set_resolved in refl) h.report_keys in
    assumption

resolve-IsWellFormed :
    (w : World) (admin : String) (id : ℤ) (s : Server)
    → IsWellFormed s.db
    → IsWellFormed (resolve w admin id s).1.db
unfolding resolve set_db
resolve-IsWellFormed w admin id s h = ground (arith, update_reports-IsWellFormed admin id s.db h)

resolve_path-IsWellFormed :
    (w : World) (admin : String) (parts : List String) (s : Server)
    → IsWellFormed s.db
    → IsWellFormed (resolve_path w admin parts s).1.db
unfolding resolve_path
resolve_path-IsWellFormed w admin (id ∷ action ∷ rest) s h = grind (arith, resolve-IsWellFormed)
resolve_path-IsWellFormed w admin _ s h = h

pub admin_resolve_report_handler-IsWellFormed :
    (w : World) (r : Request) (s : Server)
    → IsWellFormed s.db
    → IsWellFormed (admin_resolve_report_handler w r s).1.db
unfolding admin_resolve_report_handler
admin_resolve_report_handler-IsWellFormed w r s h = grind (arith, resolve_path-IsWellFormed)
