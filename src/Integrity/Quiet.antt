-- ===== src/Integrity/Quiet.antt =====
-- The database under the functions that send, close or install.
use skype7_reborn.Prelude.{ℕ, String, List, [], ◌∷◌, ◌≡◌, refl, arith, ◌∙◌}
use skype7_reborn.World.{World}
use skype7_reborn.Wire.{NexusMessage}
use skype7_reborn.Server.{Server, send, set_conn}
use skype7_reborn.Server.Effects.{db-send, db_effects, db-send_to_all}
use skype7_reborn.Spaces.{broadcast_channel_msg}
use skype7_reborn.Social.Friends.{broadcast_presence}
use skype7_reborn.Handlers.Login.{
  kick_existing, install, send_list, friend_statuses, send_pending, drop_client,
}
use skype7_reborn.Handlers.Accounts.{send_profile, broadcast_profile_update}
use skype7_reborn.Handlers.Chat.{set_status, hand_over_key}

pub db-broadcast_presence :
    (w : World) (u status : String) (s : Server) → (broadcast_presence w u status s).db ≡ s.db
unfolding broadcast_presence
db-broadcast_presence w u status s = db-send_to_all _ _ s

pub db-broadcast_channel_msg :
    (w : World) (server : String) (m : NexusMessage) (s : Server)
    → (broadcast_channel_msg w server m s).db ≡ s.db
unfolding broadcast_channel_msg
db-broadcast_channel_msg w server m s = grind (arith, db-send_to_all)

pub db-kick_existing : (u : String) (s : Server) → (kick_existing u s).db ≡ s.db
unfolding kick_existing
db-kick_existing u s = grind (arith, db_effects)

pub db-install : (c : ℕ) (u : String) (s : Server) → (install c u s).db ≡ s.db
unfolding install set_conn
db-install c u s = grind (arith, db_effects)

pub db-send_list : (c : ℕ) (ms : List NexusMessage) (s : Server) → (send_list c ms s).db ≡ s.db
unfolding send_list
db-send_list c [] s = refl
db-send_list c (m ∷ ms) s = db-send_list c ms (send c m s) ∙ db-send c m s

pub db-friend_statuses :
    (c : ℕ) (fs : List String) (s : Server) → (friend_statuses c fs s).db ≡ s.db
unfolding friend_statuses
db-friend_statuses c [] s = refl
db-friend_statuses c (f ∷ fs) s = db-friend_statuses c fs _ ∙ db-send c _ s

pub db-send_pending :
    (w : World) (c : ℕ) (u : String) (s : Server) → (send_pending w c u s).db ≡ s.db
unfolding send_pending
db-send_pending w c u s = grind (arith, db-send)

pub db-drop_client : (c : ℕ) (u : String) (s : Server) → (drop_client c u s).db ≡ s.db
unfolding drop_client
db-drop_client c u s = ground arith

pub db-send_profile :
    (u : String) (m : NexusMessage) (cs : List (String × ℕ)) (s : Server)
    → (send_profile u m cs s).db ≡ s.db
unfolding send_profile
db-send_profile u m [] s = refl
db-send_profile u m ((v, c) ∷ cs) s = db-send_profile u m cs _ ∙ ground (arith, db-send c m s)

pub db-broadcast_profile_update :
    (u name mood : String) (s : Server) → (broadcast_profile_update u name mood s).db ≡ s.db
unfolding broadcast_profile_update
db-broadcast_profile_update u name mood s = db-send_profile u _ s.clients s

pub db-set_status : (u status : String) (s : Server) → (set_status u status s).db ≡ s.db
unfolding set_status set_conn
db-set_status u status s = ground arith

pub db-hand_over_key :
    (w : World) (u : String) (m : NexusMessage) (s : Server) → (hand_over_key w u m s).db ≡ s.db
unfolding hand_over_key
db-hand_over_key w u m s = grind (arith, db_effects)

pub ruleset quiet = (
  db_effects, db-broadcast_presence, db-broadcast_channel_msg, db-kick_existing, db-install,
  db-send_list, db-friend_statuses, db-send_pending, db-drop_client, db-broadcast_profile_update,
  db-set_status, db-hand_over_key,
)
