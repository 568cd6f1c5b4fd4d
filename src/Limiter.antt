-- ===== src/Limiter.antt =====
-- The limiter per IP address of nexus_server/main.go: ipLimiter, gcLocked, allow. The token bucket
-- itself is golang.org/x/time/rate's and a parameter. Go visits a map in any order; the model visits
-- it in the order of its list, and what is proved holds for each order.
pub mod Bounds
use skype7_reborn.Prelude.{
  ℕ, ◌-◌, ◌*◌, ◌/◌, String, Bool, ◌&&◌, List, [], ◌∷◌, none, some, leb, ltb, length, if◌then◌else◌,
}
use skype7_reborn.Prelude.Dict.{lookup, insert}
use skype7_reborn.Prelude.Table.{delete_where}
use skype7_reborn.World.{minute}

-- rate.Limiter: a new one, and Allow at a time.
pub record Bucket : Type 1 where
  pub State : Type 0
  pub fresh : State
  pub take : ℕ → State → Bool × State

abbrev pub idle_ttl : ℕ
idle_ttl = 10 * minute

abbrev pub max_size : ℕ
max_size = 50000

abbrev pub gc_every : ℕ
gc_every = minute

module _ (b : Bucket) where
  abbrev pub State : Type 0
  State = b.State

  pub record Entry : Type 0 where
    pub lim : State
    pub last : ℕ

  pub record IpLimiter : Type 0 where
    pub entries : List (String × Entry)
    pub last_gc : ℕ

  -- Entries are deleted one by one until few enough are left.
  unfoldable pub drop_until : ℕ → List (String × Entry) → List (String × Entry)
  drop_until target [] = []
  drop_until target (e ∷ es) =
      let rest = drop_until target es in if leb (length es) target then es else rest

  unfoldable pub is_idle : ℕ → String × Entry → Bool
  is_idle now e = ltb e.1.last (now - idle_ttl)

  unfoldable pub gc_locked : ℕ → IpLimiter → IpLimiter
  gc_locked now l =
      if ltb (now - l.last_gc) gc_every && ltb (length l.entries) max_size
      then l
      else let kept = delete_where (is_idle now) l.entries in
        record {
          entries =
              (if ltb max_size (length kept) then drop_until (max_size * 9 / 10) kept else kept);
          last_gc = now;
        }

  unfoldable pub limiter_of : String → IpLimiter → State
  limiter_of ip l = elim (lookup ip l.entries) [ none ↦ b.fresh | some e ↦ e.lim ]

  unfoldable pub allow : ℕ → String → IpLimiter → Bool × IpLimiter
  allow now ip l =
      let g = gc_locked now l in
      let (allowed, lim) = b.take now (limiter_of ip g) in
      (allowed, record g { entries = insert ip (record { lim = lim; last = now }) g.entries })
