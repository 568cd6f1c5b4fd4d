-- ===== src/Admin/Access.antt =====
-- Proofs on who may use adminBanHandler and adminResolveReportHandler.
use skype7_reborn.Prelude.{
  String, true, ◌≡◌, ◌≢◌, refl, ◌⊎◌, inl, inr, eq_iff, arith, List, [], ◌∷◌,
}
use skype7_reborn.Prelude.Text.{split, trim_prefix, trim_space}
use skype7_reborn.World.{World}
use skype7_reborn.Server.{Server}
use skype7_reborn.Account.Login.{user_is_admin}
use skype7_reborn.Account.Session.{session_username}
use skype7_reborn.Admin.{
  Request, Response, admin_from_request, admin_ban_handler, admin_resolve_report_handler,
  moderate_path, moderate, resolve_path, resolve, ban, unban,
}

-- The session that a request carries.
abbrev pub bearer : Request → String
bearer r = trim_space (trim_prefix "Bearer " r.authorization)

admin_from_request_inv :
    (w : World) (r : Request) (s : Server) {admin : String}
    → admin_from_request w r s ≡ inl admin
    → (session_username w (bearer r) s.db ≡ admin) × (user_is_admin w admin s.db ≡ true)
unfolding admin_from_request
admin_from_request_inv w r s {admin} h = ground arith

refused_code :
    (w : World) (r : Request) (s : Server) {refusal : Response}
    → admin_from_request w r s ≡ inr refusal
    → refusal.code ≢ 200
unfolding admin_from_request
refused_code w r s {refusal} h = ground arith

-- What an answer says of the state: 200, by an administrator's valid session and with POST, or else
-- nothing changed.
abbrev pub Authorized : World → Request → Server → Response × Server → Type 0
Authorized w r s (answer, s') =
    ((admin : String) × (session_username w (bearer r) s.db ≡ admin)
      × (user_is_admin w admin s.db ≡ true)
      × (r.method ≡ "POST")
      × (answer.code ≡ 200))
    ⊎ ((answer.code ≢ 200) × (s' ≡ s))

moderate-keeps :
    (w : World) (admin target action : String) (r : Request) (s : Server)
    → ((moderate w admin target action r s).0.code ≡ 200)
      ⊎ (((moderate w admin target action r s).0.code ≢ 200)
          × ((moderate w admin target action r s).1 ≡ s))
unfolding moderate ban unban
moderate-keeps w admin target action r s = ground arith

moderate_path-keeps :
    (w : World) (admin : String) (parts : List String) (r : Request) (s : Server)
    → ((moderate_path w admin parts r s).0.code ≡ 200)
      ⊎ (((moderate_path w admin parts r s).0.code ≢ 200)
          × ((moderate_path w admin parts r s).1 ≡ s))
unfolding moderate_path
moderate_path-keeps w admin [] r s = ground arith
moderate_path-keeps w admin (a ∷ []) r s = ground arith
moderate_path-keeps w admin (a ∷ b ∷ rest) r s = moderate-keeps w admin a b r s

resolve_path-keeps :
    (w : World) (admin : String) (parts : List String) (s : Server)
    → ((resolve_path w admin parts s).0.code ≡ 200)
      ⊎ (((resolve_path w admin parts s).0.code ≢ 200) × ((resolve_path w admin parts s).1 ≡ s))
unfolding resolve_path resolve
resolve_path-keeps w admin [] s = ground arith
resolve_path-keeps w admin (a ∷ []) s = ground arith
resolve_path-keeps w admin (a ∷ b ∷ rest) s = ground arith

-- Both endpoints answer 200 only to a POST with a session that names an administrator; with any other
-- answer they leave the server as it was.
pub admin_handlers-Authorized :
    (w : World) (r : Request) (s : Server)
    → Authorized w r s (admin_ban_handler w r s)
      × Authorized w r s (admin_resolve_report_handler w r s)
unfolding admin_ban_handler admin_resolve_report_handler
admin_handlers-Authorized w r s = go (admin_from_request w r s) refl
  where
    go :
        (o : String ⊎ Response)
        → admin_from_request w r s ≡ o
        → Authorized w r s (admin_ban_handler w r s)
          × Authorized w r s (admin_resolve_report_handler w r s)
    go (inl admin) e =
        let (names, is_admin) = admin_from_request_inv w r s e in
        let path = split b'/' (trim_prefix "/api/v1/admin/users/" r.path) in
        let path' = split b'/' (trim_prefix "/api/v1/admin/reports/" r.path) in
        (
          rw (e, admin_ban_handler)
              (ground (
                arith,
                names,
                is_admin,
                eq_iff r.method "POST",
                moderate_path-keeps w admin path r s,
              )),
          rw (e, admin_resolve_report_handler)
              (ground (
                arith,
                names,
                is_admin,
                eq_iff r.method "POST",
                resolve_path-keeps w admin path' s,
              )),
        )
    go (inr refusal) e =
        let no = refused_code w r s e in
        (
          rw (e, admin_ban_handler) (inr (no, refl)),
          rw (e, admin_resolve_report_handler) (inr (no, refl)),
        )
