-- ===== src/Client/Version/Order.antt =====
-- Proofs that IsNewer orders the versions that parse.
use skype7_reborn.Prelude.{
  ℕ, String, Bool, true, false, not, ◌&&◌, ◌≡◌, some, ◌==◌, arith, sym, ◌∙◌,
}
use skype7_reborn.Client.Version.{
  Numbers, parse_version, pre_release, newer_numbers, is_newer, compare_part,
}

compare_part_trans :
    (x y z : ℕ) (r s t u : Bool)
    → (r ≡ true → s ≡ true → (t ≡ true) × (u ≡ false))
    → compare_part x y r ≡ true
    → compare_part y z s ≡ true
    → (compare_part x z t ≡ true) × (compare_part z x u ≡ false)
unfolding compare_part
compare_part_trans x y z r s t u f h k = ground arith

released_trans :
    (p q r : String)
    → (p == "" && not (q == "")) ≡ true
    → (q == "" && not (r == "")) ≡ true
    → ((p == "" && not (r == "")) ≡ true) × ((r == "" && not (p == "")) ≡ false)
released_trans p q r h k = ground arith

newer_numbers_trans :
    (a b c : Numbers) (p q r : String)
    → newer_numbers a b p q ≡ true
    → newer_numbers b c q r ≡ true
    → (newer_numbers a c p r ≡ true) × (newer_numbers c a r p ≡ false)
unfolding newer_numbers
newer_numbers_trans a b c p q r = compare_part_trans a.major b.major c.major _ _ _ _ (
    compare_part_trans a.minor b.minor c.minor _ _ _ _
      (compare_part_trans a.patch b.patch c.patch _ _ _ _ (released_trans p q r)))

is_newer-parsed :
    (latest current : String) (la cu : Numbers)
    → parse_version latest ≡ some la
    → parse_version current ≡ some cu
    → is_newer latest current ≡ newer_numbers la cu (pre_release latest) (pre_release current)
unfolding is_newer
is_newer-parsed latest current la cu h k = cc

-- Of three versions that parse, when the first is newer than the second and the second newer than
-- the third, the first is newer than the third and the third is not newer than the first.
pub is_newer_trans :
    (a b c : String) (na nb nc : Numbers)
    → parse_version a ≡ some na
    → parse_version b ≡ some nb
    → parse_version c ≡ some nc
    → is_newer a b ≡ true
    → is_newer b c ≡ true
    → (is_newer a c ≡ true) × (is_newer c a ≡ false)
is_newer_trans a b c na nb nc ha hb hc h k = rw (is_newer-parsed a c na nc ha hc) (
    rw (is_newer-parsed c a nc na hc ha) (
      newer_numbers_trans na nb nc (pre_release a) (pre_release b) (pre_release c)
        (sym (is_newer-parsed a b na nb ha hb) ∙ h) (sym (is_newer-parsed b c nb nc hb hc) ∙ k)))
