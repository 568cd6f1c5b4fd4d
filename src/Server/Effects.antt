-- ===== src/Server/Effects.antt =====
-- The fields of the server under the functions that send and close.
use skype7_reborn.Prelude.{ℕ, String, List, [], ◌∷◌, ◌≡◌, refl, arith, ◌∙◌}
use skype7_reborn.Wire.{NexusMessage}
use skype7_reborn.Db.{Db}
use skype7_reborn.Server.{Server, Mail, send, send_to_user, send_to_all, close, set_db, send_mail}

pub db-send : (c : ℕ) (m : NexusMessage) (s : Server) → (send c m s).db ≡ s.db
unfolding send
db-send c m s = ground arith

pub clients-send : (c : ℕ) (m : NexusMessage) (s : Server) → (send c m s).clients ≡ s.clients
unfolding send
clients-send c m s = ground arith

pub conns-send : (c : ℕ) (m : NexusMessage) (s : Server) → (send c m s).conns ≡ s.conns
unfolding send
conns-send c m s = ground arith

pub db-send_to_user : (u : String) (m : NexusMessage) (s : Server) → (send_to_user u m s).db ≡ s.db
unfolding send_to_user
db-send_to_user u m s = grind (arith, db-send)

pub clients-send_to_user :
    (u : String) (m : NexusMessage) (s : Server) → (send_to_user u m s).clients ≡ s.clients
unfolding send_to_user
clients-send_to_user u m s = grind (arith, clients-send)

pub conns-send_to_user :
    (u : String) (m : NexusMessage) (s : Server) → (send_to_user u m s).conns ≡ s.conns
unfolding send_to_user
conns-send_to_user u m s = grind (arith, conns-send)

pub db-send_to_all :
    (us : List String) (m : NexusMessage) (s : Server) → (send_to_all us m s).db ≡ s.db
unfolding send_to_all
db-send_to_all [] m s = refl
db-send_to_all (u ∷ us) m s = db-send_to_all us m (send_to_user u m s) ∙ db-send_to_user u m s

pub clients-send_to_all :
    (us : List String) (m : NexusMessage) (s : Server) → (send_to_all us m s).clients ≡ s.clients
unfolding send_to_all
clients-send_to_all [] m s = refl
clients-send_to_all (u ∷ us) m s =
    clients-send_to_all us m (send_to_user u m s) ∙ clients-send_to_user u m s

pub conns-send_to_all :
    (us : List String) (m : NexusMessage) (s : Server) → (send_to_all us m s).conns ≡ s.conns
unfolding send_to_all
conns-send_to_all [] m s = refl
conns-send_to_all (u ∷ us) m s =
    conns-send_to_all us m (send_to_user u m s) ∙ conns-send_to_user u m s

pub db-set_db : (db : Db) (s : Server) → (set_db db s).db ≡ db
unfolding set_db
db-set_db db s = refl

pub clients-set_db : (db : Db) (s : Server) → (set_db db s).clients ≡ s.clients
unfolding set_db
clients-set_db db s = refl

pub conns-set_db : (db : Db) (s : Server) → (set_db db s).conns ≡ s.conns
unfolding set_db
conns-set_db db s = refl

pub db-send_mail : (to : String) (m : Mail) (s : Server) → (send_mail to m s).db ≡ s.db
unfolding send_mail
db-send_mail to m s = refl

pub db-close : (c : ℕ) (s : Server) → (close c s).db ≡ s.db
unfolding close
db-close c s = refl

pub ruleset db_effects =
    (db-send, db-send_to_user, db-send_to_all, db-set_db, db-send_mail, db-close)
