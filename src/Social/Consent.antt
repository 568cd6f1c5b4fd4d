-- ===== src/Social/Consent.antt =====
-- Proofs on areFriends after each of the operations on friendships.
use skype7_reborn.Prelude.{
  String, Bool, true, false, not, ◌&&◌, ◌||◌, ◌≡◌, refl, List, [], ◌∷◌, ◌==◌, eq_iff, arith,
  and-true, Bool-cases, inl, inr, if◌then◌else◌,
}
use skype7_reborn.Prelude.Table.{any_row, insert_row, update_where, delete_where, select}
use skype7_reborn.Prelude.Table.Rows.{any_row-insert}
use skype7_reborn.World.{World, Site}
use skype7_reborn.Db.{Db, Friend, pending, accepted}
use skype7_reborn.Sql.{insert_unique}
use skype7_reborn.Social.Friends.{
  from_to, between, pending_from, set_accepted, accepted_between, are_friends,
  accept_friend_request, send_friend_request, reject_friend_request, remove_friend,
}

-- The pair (a, b) is the pair (c, d), in either order.
abbrev pub is_pair : String → String → String → String → Bool
is_pair a b c d = (c == a && d == b) || (c == b && d == a)

between-from_to :
    (a b from to : String) (f : Friend)
    → from_to from to f ≡ true
    → between a b f ≡ is_pair a b from to
unfolding between from_to
between-from_to a b from to f h =
    let (left, right) = and-true (f.user_a == from) (f.user_b == to) h in
    rw ((eq_iff f.user_a from).0 left, (eq_iff f.user_b to).0 right)

between-set_accepted :
    (a b : String) (f : Friend) → between a b (record f { status = accepted }) ≡ between a b f
unfolding between from_to
between-set_accepted a b f = refl

accept_row :
    (a b from to : String) (f : Friend)
    → accepted_between a b (if pending_from from to f then set_accepted f else f)
      ≡ (accepted_between a b f || (is_pair a b from to && pending_from from to f))
unfolding accepted_between pending_from set_accepted
accept_row a b from to f = elim (Bool-cases (from_to from to f)) [
  | inl e ↦ ground (arith, e, between-set_accepted a b f, between-from_to a b from to f e)
  | inr e ↦ ground (arith, e)
]

any_row-accept :
    (a b from to : String) (rows : List Friend)
    → any_row (accepted_between a b) (update_where (pending_from from to) set_accepted rows) ≡ (
        any_row (accepted_between a b) rows
        || (is_pair a b from to && any_row (pending_from from to) rows))
unfolding any_row update_where
any_row-accept a b from to [] = ground arith
any_row-accept a b from to (f ∷ rows) =
    ground (arith, any_row-accept a b from to rows, accept_row a b from to f)

-- Accepting a request from one user to another makes the two friends, whichever way the question is
-- put, exactly when the request was there and pending; for every other pair nothing changes.
pub are_friends-accept_friend_request :
    (w w' : World) (a b from to : String) (db : Db)
    → w.fails Site.accept_update ≡ false
    → w'.fails Site.are_friends ≡ false
    → are_friends w' a b (accept_friend_request w from to db).1 ≡ (
        are_friends w' a b db || (is_pair a b from to && any_row (pending_from from to) db.friends))
unfolding are_friends accept_friend_request
are_friends-accept_friend_request w w' a b from to db live live' =
    ground (arith, any_row-accept a b from to db.friends)

any_row-spare {ℓ} :
    {A : Type ℓ} (q p : A → Bool) (xs : List A)
    → ((x : A) → q x ≡ true → p x ≡ false)
    → any_row q (delete_where p xs) ≡ any_row q xs
unfolding any_row delete_where select
any_row-spare q p [] spare = refl
any_row-spare q p (x ∷ xs) spare = ground (arith, spare x, any_row-spare q p xs spare)

request_row :
    (w : World) (a b from to : String) (rows : List Friend)
    → any_row
        (accepted_between a b)
        (insert_row (record { user_a = from; user_b = to; status = pending }) rows)
      ≡ any_row (accepted_between a b) rows
unfolding accepted_between
request_row w a b from to rows = ground (
  arith,
  any_row-insert (accepted_between a b) (record { user_a = from; user_b = to; status = pending })
      rows,
)

-- Sending a friend request and rejecting one make nobody a friend and end no friendship, whether
-- their statements fail or not.
are_friends-without_consent :
    (w w' : World) (a b from to : String) (db : Db)
    → (are_friends w' a b (send_friend_request w from to db).1 ≡ are_friends w' a b db)
      × (are_friends w' a b (reject_friend_request w from to db) ≡ are_friends w' a b db)
unfolding are_friends send_friend_request reject_friend_request insert_unique
are_friends-without_consent w w' a b from to db = (
  ground (arith, request_row w a b from to db.friends),
  ground (
    arith,
    any_row-spare (accepted_between a b) (pending_from from to) db.friends
        (λ f k. unfold accepted_between pending_from in ground arith),
  ),
)

between-between :
    (a b x y : String) (f : Friend) → between x y f ≡ true → between a b f ≡ is_pair a b x y
unfolding between
between-between a b x y f h = elim (Bool-cases (from_to x y f)) [
  | inl e ↦ between-from_to a b x y f e
  | inr e ↦
      unfold between from_to in ground (arith, between-from_to a b y x f (ground (arith, h, e)))
]

between-is_pair :
    (a b x y : String) (f : Friend) → is_pair a b x y ≡ true → between a b f ≡ between x y f
unfolding between from_to
between-is_pair a b x y f h = elim (Bool-cases (x == a && y == b)) [
  | inl e ↦ let (p, q) = and-true (x == a) (y == b) e in rw ((eq_iff x a).0 p, (eq_iff y b).0 q)
  | inr e ↦
      let (p, q) = and-true (x == b) (y == a) (ground (arith, h, e)) in
      rw ((eq_iff x b).0 p, (eq_iff y a).0 q) (ground arith)
]

remove_step :
    (a b x y : String) (f : Friend)
    → (between x y f ≡ true → accepted_between a b f ≡ true → is_pair a b x y ≡ true)
      × (between x y f ≡ false → is_pair a b x y ≡ true → accepted_between a b f ≡ false)
unfolding accepted_between
remove_step a b x y f = (
  (λ h k. ground (arith, between-between a b x y f h)),
  (λ h k. ground (arith, between-is_pair a b x y f k)),
)

remove_row :
    (a b x y : String) (rows : List Friend)
    → any_row (accepted_between a b) (delete_where (between x y) rows)
      ≡ (not (is_pair a b x y) && any_row (accepted_between a b) rows)
unfolding any_row delete_where select
remove_row a b x y [] = ground arith
remove_row a b x y (f ∷ rows) = ground (arith, remove_row a b x y rows, remove_step a b x y f)

-- Removing a friend ends the friendship of that pair, whoever of the two asks and whoever of the two
-- had sent the request, and no other friendship.
are_friends-remove_friend :
    (w w' : World) (a b x y : String) (db : Db)
    → w.fails Site.remove_delete ≡ false
    → are_friends w' a b (remove_friend w x y db) ≡ (not (is_pair a b x y) && are_friends w' a b db)
unfolding are_friends remove_friend
are_friends-remove_friend w w' a b x y db live = ground (arith, remove_row a b x y db.friends)
