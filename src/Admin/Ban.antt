-- ===== src/Admin/Ban.antt =====
-- Proofs on the ban action of adminBanHandler, with sessionUsername and the case auth.
use skype7_reborn.World.{World}
use skype7_reborn.Db.{Db}
use skype7_reborn.Server.{Server}
