-- ===== src/Limiter/Bounds.antt =====
-- Proofs on the map of ipLimiter: its size, and the entries of other addresses.
use skype7_reborn.Prelude.{
  ℕ, suc, ◌+◌, ◌≤◌, String, false, ◌≡◌, ◌≢◌, List, [], ◌∷◌, some, eq-false, length, arith, Bool,
  not,
}
use skype7_reborn.Prelude.Dict.{lookup, insert, erase, lookup-insert}
use skype7_reborn.Prelude.Table.{delete_where, select}
use skype7_reborn.Limiter.{
  Bucket, IpLimiter, Entry, drop_until, is_idle, gc_locked, limiter_of, allow, max_size, idle_ttl,
}

length-erase {ℓ} : {V : Type ℓ} (k : String) (m : List (String × V)) → length (erase k m) ≤ length m
unfolding erase
length-erase k [] = omega arith
length-erase k ((j, v) ∷ m) = ground (arith, length-erase k m)

length-insert {ℓ} :
    {V : Type ℓ} (k : String) (v : V) (m : List (String × V))
    → length (insert k v m) ≤ suc (length m)
unfolding insert
length-insert k v m = omega (arith, length-erase k m)

lookup-delete {ℓ} :
    {V : Type ℓ} (p : String × V → Bool) (k : String) (v : V) (m : List (String × V))
    → lookup k m ≡ some v
    → ((j : String) → p (j, v) ≡ false)
    → lookup k (delete_where p m) ≡ some v
unfolding lookup delete_where select
lookup-delete p k v [] h keep = cc
lookup-delete p k v ((j, x) ∷ m) h keep = ground (arith, keep j, lookup-delete p k v m)

length-drop_until :
    (b : Bucket) (target : ℕ) (es : List (String × Entry b))
    → length (drop_until b target es) ≤ target
unfolding drop_until
length-drop_until b target [] = omega arith
length-drop_until b target (e ∷ es) = ground (arith, length-drop_until b target es)

length-gc_locked :
    (b : Bucket) (now : ℕ) (l : IpLimiter b) → length (gc_locked b now l).entries ≤ max_size
unfolding gc_locked
length-gc_locked b now l =
    ground (arith, length-drop_until b 45000 (delete_where (is_idle b now) l.entries))

-- After every request the map has at most one entry above its limit, however many entries it had
-- before and whatever the address and the time: the addresses that send requests cannot make it grow.
pub length-allow :
    (b : Bucket) (now : ℕ) (ip : String) (l : IpLimiter b)
    → length (allow b now ip l).1.entries ≤ max_size + 1
unfolding allow
length-allow b now ip l = omega (
  arith,
  length-gc_locked b now l,
  length-insert ip
      (record { lim = (b.take now (limiter_of b ip (gc_locked b now l))).1; last = now })
      (gc_locked b now l).entries,
)

is_idle-recent :
    (b : Bucket) (now : ℕ) (j : String) (e : Entry b)
    → now ≤ e.last + idle_ttl
    → is_idle b now (j, e) ≡ false
unfolding is_idle
is_idle-recent b now j e recent = ground arith

length-select {ℓ} : {A : Type ℓ} (p : A → Bool) (xs : List A) → length (select p xs) ≤ length xs
unfolding select
length-select p [] = omega arith
length-select p (x ∷ xs) = ground (arith, length-select p xs)

lookup-gc_locked :
    (b : Bucket) (now : ℕ) (other : String) (l : IpLimiter b) (e : Entry b)
    → lookup other l.entries ≡ some e
    → now ≤ e.last + idle_ttl
    → length l.entries ≤ max_size
    → lookup other (gc_locked b now l).entries ≡ some e
unfolding gc_locked delete_where
lookup-gc_locked b now other l e found recent small = ground (
  arith,
  lookup-delete (is_idle b now) other e l.entries found (λ j. is_idle-recent b now j e recent),
  length-select (λ x. not (is_idle b now x)) l.entries,
)

-- While the map is within its limit, a request from one address leaves the entry of each other
-- address that sent one during the last ten minutes as it was, with its tokens.
pub lookup-allow :
    (b : Bucket) (now : ℕ) (ip other : String) (l : IpLimiter b) (e : Entry b)
    → ip ≢ other
    → lookup other l.entries ≡ some e
    → now ≤ e.last + idle_ttl
    → length l.entries ≤ max_size
    → lookup other (allow b now ip l).1.entries ≡ some e
unfolding allow
lookup-allow b now ip other l e differ found recent small =
    rw (lookup-insert, eq-false ip other differ)
      (lookup-gc_locked b now other l e found recent small)
