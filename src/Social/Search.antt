-- ===== src/Social/Search.antt =====
-- searchUsers: LIKE with the query between two wildcards. The query's own % and _ are wildcards too.
use Prim.Native.Char.{code}
use Prim.Native.String.{String as Text}
use skype7_reborn.Prelude.{
  String, Bool, true, false, not, ◌&&◌, List, [], map, ◌==◌, nat_eq, if◌then◌else◌,
}
use skype7_reborn.Prelude.Table.{select, limit}
use skype7_reborn.Prelude.Text.{append, lower, to_lower, trim_space}
use skype7_reborn.World.{World, Site}
use skype7_reborn.Db.{Db, User}

-- Whether the test holds of some suffix.
unfoldable pub some_suffix : (String → Bool) → String → Bool
some_suffix p Text.[] = p ""
some_suffix p (Text.◌∷◌ c s) = if p (Text.◌∷◌ c s) then true else some_suffix p s

unfoldable pub like : String → String → Bool
like Text.[] s = s == ""
like (Text.◌∷◌ p ps) s = if nat_eq (code p) b'%' then some_suffix (like ps) s else elim s [
  | Text.[] ↦ false
  | Text.◌∷◌ c rest ↦
      let after = like ps rest in
      if nat_eq (code p) b'_'
      then after
      else if nat_eq (code (lower p)) (code (lower c))
      then after
      else false
]

unfoldable pub found_by : String → String → User → Bool
found_by query exclude u =
    like (append "%" (append query "%")) (to_lower u.username) && not (u.username == exclude)

unfoldable pub search_users : World → String → String → Db → List String
search_users w query exclude db =
    let q = to_lower (trim_space query) in
    if q == ""
    then []
    else if w.fails Site.users_search
    then []
    else map (λ u. u.username) (limit 20 (select (found_by q exclude) db.users))
