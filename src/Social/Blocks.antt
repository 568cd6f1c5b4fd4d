-- ===== src/Social/Blocks.antt =====
-- isBlocked, blockUser, unblockUser, listBlocks, recordAbuseReport.
use mathlib.Core.List.{reverse}
use skype7_reborn.Prelude.{
  suc, String, Bool, false, ◌&&◌, ◌||◌, List, [], map, ◌==◌, leb, if◌then◌else◌, Result, ok, err,
}
use skype7_reborn.Prelude.Table.{select, any_row, insert_row, delete_where, order_by}
use skype7_reborn.World.{World, Site, current_timestamp}
use skype7_reborn.Db.{Db, Block}

unfoldable pub blocks : String → String → Block → Bool
blocks blocker blocked b = b.blocker == blocker && b.blocked == blocked

unfoldable pub is_blocked : World → String → String → Db → Bool
is_blocked w blocker blocked db =
    if w.fails (Site.block_select blocker blocked)
    then false
    else any_row (blocks blocker blocked) db.blocks

abbrev pub invalid_block : String
invalid_block = "invalid block"

-- INSERT OR IGNORE leaves a row that is there.
unfoldable pub block_user : World → String → String → Db → Result (Unit {0}) × Db
block_user w blocker blocked db =
    if blocker == "" || blocked == "" || blocker == blocked
    then (err invalid_block, db)
    else if w.fails Site.block_insert
    then (err (w.error_text Site.block_insert), db)
    else if any_row (blocks blocker blocked) db.blocks
    then (ok tt, db)
    else (
      ok tt,
      record db {
        blocks =
            insert_row
              (record { blocker = blocker; blocked = blocked; created_at = current_timestamp w })
              db.blocks;
      },
    )

unfoldable pub unblock_user : World → String → String → Db → Result (Unit {0}) × Db
unblock_user w blocker blocked db =
    if w.fails Site.block_delete
    then (err (w.error_text Site.block_delete), db)
    else (ok tt, record db { blocks = delete_where (blocks blocker blocked) db.blocks })

-- ORDER BY created_at DESC
unfoldable pub list_blocks : World → String → Db → List String
list_blocks w blocker db =
    if w.fails Site.blocks_select
    then []
    else map (λ b. b.blocked)
        (reverse (
          order_by (λ a b. leb a.created_at b.created_at)
            (select (λ b. b.blocker == blocker) db.blocks)))

abbrev pub missing_fields : String
missing_fields = "missing fields"

unfoldable pub record_abuse_report :
    World → String → String → String → String → Db → Result (Unit {0}) × Db
record_abuse_report w reporter subject reason body db =
    if reporter == "" || subject == "" || reason == ""
    then (err missing_fields, db)
    else if w.fails Site.report_insert
    then (err (w.error_text Site.report_insert), db)
    else (
      ok tt,
      record db {
        abuse_reports =
            insert_row
              (record {
                id = suc db.reports_last;
                reporter = reporter;
                subject = subject;
                reason = reason;
                body = body;
                status = "pending";
                resolved_by = "";
              })
              db.abuse_reports;
        reports_last = suc db.reports_last;
      },
    )
