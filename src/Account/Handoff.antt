-- ===== src/Account/Handoff.antt =====
-- Proofs on login by QR code: approveQRLogin and checkQRLogin.
use skype7_reborn.Prelude.{
  ◌+◌, ◌≤◌, String, true, false, ◌≡◌, ◌≢◌, none, some, Option, arith, refl, ok, is_ok, List, [],
  ◌∷◌, ap, ◌∙◌, sym,
}
use skype7_reborn.Prelude.Table.{query_row, any_row, update_where}
use skype7_reborn.World.{World, Site}
use skype7_reborn.Db.{Db, QrLogin}
use skype7_reborn.Sql.{insert_unique, fetch-eq_ok}
use skype7_reborn.Account.Session.{issue_session_token, session_username, session_life}
use skype7_reborn.Account.Expiry.{session_username-issue_session_token}
use skype7_reborn.Account.Qr.{
  shows, approvable, set_approved, approve_qr_login, check_qr_login, finish_approve,
}

-- The first row of a code that may be approved is approved.
query_row-approve :
    (w : World) (token u sess device : String) (rows : List QrLogin) (q : QrLogin)
    → query_row (shows token) rows ≡ some q
    → approvable w token q ≡ true
    → query_row (shows token) (update_where (approvable w token) (set_approved u sess device) rows)
      ≡ some (set_approved u sess device q)
unfolding query_row update_where approvable set_approved
query_row-approve w token u sess device [] q h k = cc
query_row-approve w token u sess device (r ∷ rows) q h k =
    ground (arith, query_row-approve w token u sess device rows q)

-- What issuing a session leaves alone.
issue-qr_login_tokens :
    (w : World) (u device : String) (db : Db)
    → (issue_session_token w u device db).2.qr_login_tokens ≡ db.qr_login_tokens
unfolding issue_session_token insert_unique
issue-qr_login_tokens w u device db = ground arith

approve_qr_login_result :
    (w : World) (token u device : String) (db : Db) {sess : String} {db1 : Db}
    → issue_session_token w u device db ≡ (sess, none, db1)
    → w.fails Site.qr_approve ≡ false
    → any_row (approvable w token) db1.qr_login_tokens ≡ true
    → approve_qr_login w token u device db ≡ (
      ok tt,
      record db1 {
        qr_login_tokens =
            update_where (approvable w token) (set_approved u sess device) db1.qr_login_tokens;
      },
    )
unfolding approve_qr_login
approve_qr_login_result w token u device db {sess} {db1} issued live there =
    rw (issued, approve_qr_login) (rw live (rw there))

any_row-approvable :
    (w : World) (token : String) (rows : List QrLogin) (q : QrLogin)
    → query_row (shows token) rows ≡ some q
    → approvable w token q ≡ true
    → any_row (approvable w token) rows ≡ true
unfolding query_row any_row approvable
any_row-approvable w token [] q h k = cc
any_row-approvable w token (r ∷ rows) q h k = ground (arith, any_row-approvable w token rows q)

-- A code that was shown, is not approved and has not expired is approved by a logged-in device for
-- its user u. Until the code expires, a check of it returns u and the session just issued, and the
-- session names u.
pub check_qr_login-approve_qr_login :
    (w w' : World) (token u device : String) (db : Db) (q : QrLogin) {sess : String} {db1 : Db}
    → query_row (shows token) db.qr_login_tokens ≡ some q
    → approvable w token q ≡ true
    → issue_session_token w u device db ≡ (sess, none, db1)
    → sess ≢ ""
    → w.fails Site.qr_approve ≡ false
    → w'.fails Site.qr_select ≡ false
    → w'.fails Site.session_select ≡ false
    → w'.now ≤ q.expires_at
    → w'.now ≤ w.now + session_life
    → ((approve_qr_login w token u device db).0 ≡ ok tt)
      × (check_qr_login w' token (approve_qr_login w token u device db).1 ≡ (u, sess, true))
      × (session_username w' sess (approve_qr_login w token u device db).1 ≡ u)
unfolding check_qr_login
check_qr_login-approve_qr_login w w' token u device db q {sess} {db1} found may issued full l1 l2 l3
      t1 t2 =
    let same : db1.qr_login_tokens ≡ db.qr_login_tokens =
      sym (ap (λ (r : String × Option String × Db). r.2.qr_login_tokens) issued)
      ∙ issue-qr_login_tokens w u device db in
    let found' : query_row (shows token) db1.qr_login_tokens ≡ some q = rw same found in
    let done =
      approve_qr_login_result w token u device db issued l1
        (any_row-approvable w token db1.qr_login_tokens q found' may) in
    let row = query_row-approve w token u sess device db1.qr_login_tokens q found' may in
    rw done (
      refl,
      rw (fetch-eq_ok w' Site.qr_select (shows token) _ l2 row, check_qr_login)
          (unfold set_approved in ground arith),
      unfold session_username in
          ground (
            arith,
            session_username-issue_session_token w w' u device db {token = sess} {db' = db1} issued
                full l3,
          ),
    )

-- After the update no row of the code may be approved, at any later moment.
approvable-approved :
    (w w' : World) (token u sess device : String) (rows : List QrLogin)
    → w.now ≤ w'.now
    → any_row
        (approvable w' token)
        (update_where (approvable w token) (set_approved u sess device) rows)
      ≡ false
unfolding any_row update_where approvable set_approved
approvable-approved w w' token u sess device [] later = refl
approvable-approved w w' token u sess device (r ∷ rows) later =
    ground (arith, approvable-approved w w' token u sess device rows later)

approve_qr_login_inv :
    (w : World) (token u device : String) (db : Db) {db' : Db}
    → approve_qr_login w token u device db ≡ (ok tt, db')
    → (sess : String) × (db'.qr_login_tokens
        ≡ update_where (approvable w token) (set_approved u sess device) db.qr_login_tokens)
unfolding approve_qr_login
approve_qr_login_inv w token u device db {db'} h =
    go (issue_session_token w u device db) h (issue-qr_login_tokens w u device db)
  where
    go :
        (r : String × Option String × Db)
        → finish_approve w token u device r ≡ (ok tt, db')
        → r.2.qr_login_tokens ≡ db.qr_login_tokens
        → (sess : String) × (db'.qr_login_tokens
            ≡ update_where (approvable w token) (set_approved u sess device) db.qr_login_tokens)
    go (sess, some e, db1) k same = absurd (ground arith)
    go (sess, none, db1) k same = (sess, ground arith)

finish_approve_refused :
    (w : World) (token u device : String) (r : String × Option String × Db)
    → any_row (approvable w token) r.2.qr_login_tokens ≡ false
    → is_ok (finish_approve w token u device r).0 ≡ false
unfolding finish_approve
finish_approve_refused w token u device (sess, some e, db) none_left = refl
finish_approve_refused w token u device (sess, none, db) none_left = ground arith

-- A code is approved once: after a success nobody approves it again, whatever the time after it.
pub approve_qr_login_once :
    (w w' : World) (token u u' device device' : String) (db : Db) {db' : Db}
    → approve_qr_login w token u device db ≡ (ok tt, db')
    → w.now ≤ w'.now
    → is_ok (approve_qr_login w' token u' device' db').0 ≡ false
unfolding approve_qr_login
approve_qr_login_once w w' token u u' device device' db {db'} h later =
    let (sess, rows) = approve_qr_login_inv w token u device db h in
    finish_approve_refused w' token u' device' (issue_session_token w' u' device' db') (
      rw (issue-qr_login_tokens w' u' device' db', rows)
        (approvable-approved w w' token u sess device db.qr_login_tokens later))
