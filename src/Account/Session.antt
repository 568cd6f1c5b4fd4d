-- ===== src/Account/Session.antt =====
-- issueSessionToken, sessionUsername, revokeSession.
use skype7_reborn.Prelude.{
  ℕ, ◌+◌, ◌*◌, String, Bool, true, false, ◌||◌, Option, none, some, ◌==◌, ltb, if◌then◌else◌, ok,
  err,
}
use skype7_reborn.Prelude.Table.{update_where}
use skype7_reborn.World.{World, Draw, Site, hour, rand_hex}
use skype7_reborn.Db.{Db, SessionToken}
use skype7_reborn.Sql.{fetch, insert_unique}
use skype7_reborn.Account.Login.{rand_failed}

abbrev pub session_life : ℕ
session_life = 30 * 24 * hour

unfoldable pub holds : String → SessionToken → Bool
holds token t = t.token == token

unfoldable pub new_session : World → String → String → String → SessionToken
new_session w username device tok = record {
  token = tok;
  username = username;
  device_info = device;
  expires_at = w.now + session_life;
  revoked = false;
}

-- (token, error, database): the token comes back beside the error of a failed INSERT.
unfoldable pub issue_session_token : World → String → String → Db → String × Option String × Db
issue_session_token w username device db = elim (rand_hex w Draw.session_draw 32) [
  | none ↦ ("", some rand_failed, db)
  | some tok ↦
      elim (insert_unique w Site.session_insert (holds tok) (new_session w username device tok)
        db.session_tokens) [
          | err e ↦ (tok, some e, db)
          | ok rows ↦ (tok, none, record db { session_tokens = rows })
        ]
]

-- The session's user, or "".
unfoldable pub session_username : World → String → Db → String
session_username w token db =
    if token == "" then "" else elim (fetch w Site.session_select (holds token) db.session_tokens) [
      | err e ↦ ""
      | ok t ↦ if t.revoked || ltb t.expires_at w.now then "" else t.username
    ]

unfoldable pub set_revoked : SessionToken → SessionToken
set_revoked t = record t { revoked = true }

unfoldable pub revoke_session : World → String → Db → Db
revoke_session w token db =
    if w.fails Site.session_revoke
    then db
    else record db { session_tokens = update_where (holds token) set_revoked db.session_tokens }
