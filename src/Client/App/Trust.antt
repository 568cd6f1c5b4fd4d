-- ===== src/Client/App/Trust.antt =====
-- Proofs on the keys that the app uses for its peers, through acceptPeerKey and every case of
-- HandleIncomingMessage.
use skype7_reborn.Prelude.{
  String, Bool, true, false, not, ◌&&◌, Option, none, some, List, [], ◌∷◌, ◌==◌, if◌then◌else◌, ◌≡◌,
  refl, sym, ap, ◌∙◌, arith, ◌⊎◌, inl, inr, eq_iff, eq_refl, Option-cases, Bool-cases, subst,
}
use skype7_reborn.Prelude.Dict.{lookup, lookup-insert}
use skype7_reborn.Prelude.Table.{query_row, insert_row}
use skype7_reborn.Client.Crypto.{Key, Box, fingerprint}
use skype7_reborn.Client.App.{PhazeApp, Host, KeyPin, act, pin_select, pin_insert}
use skype7_reborn.Client.App.Keys.{pins, pinned, trust, pin_new, compare_pin, accept_peer_key}

-- Every key in use has the fingerprint that is pinned for its peer.
abbrev pub ArePinned : Box → PhazeApp → Type 0
ArePinned x s =
    (peer : String) (pk : Key)
    → lookup peer s.peer_keys ≡ some pk
    → (p : KeyPin) × (pinned peer s ≡ some p) × (p.fingerprint ≡ fingerprint x pk)

-- A pin that is there is there afterwards.
abbrev pub KeepsPins : PhazeApp → PhazeApp → Type 0
KeepsPins s after =
    (peer : String) (p : KeyPin) → pinned peer s ≡ some p → pinned peer after ≡ some p

-- What is proved of a step.
abbrev pub IsTrusty : Box → PhazeApp → PhazeApp → Type 0
IsTrusty x s after = (ArePinned x s → ArePinned x after) × KeepsPins s after

abbrev pub SameKeys : PhazeApp → PhazeApp → Type 0
SameKeys s after = (after.peer_keys ≡ s.peer_keys) × (after.key_pins ≡ s.key_pins)

pub IsTrusty-SameKeys : (x : Box) (s after : PhazeApp) → SameKeys s after → IsTrusty x s after
unfolding pinned
IsTrusty-SameKeys x s after (keys, rows) = (
  (λ safe peer pk h.
      let (p, found, same) = safe peer pk (sym (ap (lookup peer) keys) ∙ h) in
      (p, ap (query_row (pins peer)) rows ∙ found, same)),
  (λ peer p h. ap (query_row (pins peer)) rows ∙ h),
)

pub IsTrusty-trans : (x : Box) (a b c : PhazeApp) → IsTrusty x a b → IsTrusty x b c → IsTrusty x a c
IsTrusty-trans x a b c (f, g) (f', g') =
    ((λ safe. f' (f safe)), (λ peer p h. g' peer p (g peer p h)))

unchanged : (x : Box) (s : PhazeApp) → IsTrusty x s s
unchanged x s = IsTrusty-SameKeys x s s (refl, refl)

pub if-IsTrusty :
    (x : Box) (s : PhazeApp) (b : Bool) (t u : PhazeApp)
    → IsTrusty x s t
    → IsTrusty x s u
    → IsTrusty x s (if b then t else u)
if-IsTrusty x s true t u f g = f
if-IsTrusty x s false t u f g = g

lookup-trust :
    (peer other : String) (pk other_pk : Key) (s : PhazeApp)
    → lookup other (trust peer pk s).peer_keys ≡ some other_pk
    → ((peer ≡ other) × (pk ≡ other_pk)) ⊎ (lookup other s.peer_keys ≡ some other_pk)
unfolding trust
lookup-trust peer other pk other_pk s h =
    ground (arith, lookup-insert peer other pk s.peer_keys, eq_iff peer other)

-- The key is used once a pin for the peer has its fingerprint.
trust-IsTrusty :
    (x : Box) (peer : String) (pk : Key) (p : KeyPin) (s : PhazeApp)
    → pinned peer s ≡ some p
    → p.fingerprint ≡ fingerprint x pk
    → IsTrusty x s (trust peer pk s)
unfolding trust pinned
trust-IsTrusty x peer pk p s found same = (
  (λ safe other other_pk h. elim (lookup-trust peer other pk other_pk s h) [
    | inl (e, k) ↦ (p, subst (λ o. pinned o s ≡ some p) e found, same ∙ ap (fingerprint x) k)
    | inr h' ↦ safe other other_pk h'
  ]),
  (λ other q h. h),
)

query_row-insert_row :
    (f : KeyPin → Bool) (p q : KeyPin) (rows : List KeyPin)
    → query_row f rows ≡ some q
    → query_row f (insert_row p rows) ≡ some q
unfolding query_row insert_row
query_row-insert_row f p q [] h = cc
query_row-insert_row f p q (r ∷ rows) h = ground (arith, query_row-insert_row f p q rows)

query_row-new :
    (f : KeyPin → Bool) (p : KeyPin) (rows : List KeyPin)
    → query_row f rows ≡ none
    → f p ≡ true
    → query_row f (insert_row p rows) ≡ some p
unfolding query_row insert_row
query_row-new f p [] h k = ground arith
query_row-new f p (r ∷ rows) h k = ground (arith, query_row-new f p rows)

-- The row that acceptPeerKey inserts, and the app with it.
abbrev new_pin : Host → String → Key → KeyPin
new_pin h peer pk = record {
  skypename = peer;
  fingerprint = fingerprint h.box pk;
  public_key = pk;
  first_seen = h.now;
}

abbrev with_pin : Host → String → Key → PhazeApp → PhazeApp
with_pin h peer pk s = record s { key_pins = insert_row (new_pin h peer pk) s.key_pins }

with_pin-IsTrusty :
    (h : Host) (peer : String) (pk : Key) (s : PhazeApp) → IsTrusty h.box s (with_pin h peer pk s)
unfolding pinned
with_pin-IsTrusty h peer pk s = (
  (λ safe other other_pk k.
      let (p, found, same) = safe other other_pk k in
      (p, query_row-insert_row (pins other) (new_pin h peer pk) p s.key_pins found, same)),
  (λ other p k. query_row-insert_row (pins other) (new_pin h peer pk) p s.key_pins k),
)

pin_new-IsTrusty :
    (h : Host) (peer : String) (pk : Key) (s : PhazeApp) → IsTrusty h.box s (pin_new h peer pk s)
unfolding pin_new pinned pins
pin_new-IsTrusty h peer pk s = elim (Option-cases (pinned peer s)) [
  | inr (p, e) ↦ subst (IsTrusty h.box s) (stays e) (IsTrusty-SameKeys h.box s s (refl, refl))
  | inl e ↦ elim (Bool-cases (h.fails pin_insert)) [
    | inl k ↦ subst (IsTrusty h.box s) (fails e k) (IsTrusty-SameKeys h.box s s (refl, refl))
    | inr k ↦ subst (IsTrusty h.box s) (inserts e k) (
        IsTrusty-trans h.box s (with_pin h peer pk s) (trust peer pk (with_pin h peer pk s))
          (with_pin-IsTrusty h peer pk s)
          (trust-IsTrusty h.box peer pk (new_pin h peer pk) (with_pin h peer pk s)
            (query_row-new (pins peer) (new_pin h peer pk) s.key_pins e (eq_refl peer)) refl))
  ]
]
  where
    stays : {p : KeyPin} → pinned peer s ≡ some p → s ≡ pin_new h peer pk s
    stays e = cc

    fails : pinned peer s ≡ none → h.fails pin_insert ≡ true → s ≡ pin_new h peer pk s
    fails e k = cc

    inserts :
        pinned peer s ≡ none
        → h.fails pin_insert ≡ false
        → trust peer pk (with_pin h peer pk s) ≡ pin_new h peer pk s
    inserts e k = cc

compare_pin-IsTrusty :
    (h : Host) (peer : String) (pk : Key) (p : KeyPin) (s : PhazeApp)
    → pinned peer s ≡ some p
    → IsTrusty h.box s (compare_pin h peer pk p s)
unfolding compare_pin act
compare_pin-IsTrusty h peer pk p s found =
    elim (Bool-cases (p.fingerprint == fingerprint h.box pk)) [
      | inl e ↦ subst (IsTrusty h.box s) (matches e) (
          trust-IsTrusty h.box peer pk p s found
            ((eq_iff p.fingerprint (fingerprint h.box pk)).0 e))
      | inr e ↦ IsTrusty-SameKeys h.box s (compare_pin h peer pk p s) (ground (arith, e))
    ]
  where
    matches :
        (p.fingerprint == fingerprint h.box pk) ≡ true → trust peer pk s ≡ compare_pin h peer pk p s
    matches e = cc

-- After acceptPeerKey, whatever it is given and whichever statements fail, each key in use still has
-- the fingerprint that is pinned for its peer, and every pin is what it was.
pub accept_peer_key-IsTrusty :
    (h : Host) (peer : String) (pk : Key) (hint : String) (s : PhazeApp)
    → IsTrusty h.box s (accept_peer_key h peer pk hint s)
unfolding accept_peer_key
accept_peer_key-IsTrusty h peer pk hint s =
    if-IsTrusty h.box s (peer == "") _ _ (unchanged h.box s) (
      if-IsTrusty h.box s (not (hint == "") && not (hint == fingerprint h.box pk)) _ _
        (unchanged h.box s)
        (if-IsTrusty h.box s (h.fails pin_select) _ _ (pin_new-IsTrusty h peer pk s)
          (by_pin (pinned peer s) refl)))
  where
    by_pin :
        (o : Option KeyPin)
        → pinned peer s ≡ o
        → IsTrusty h.box s
            (elim o [ none ↦ pin_new h peer pk s | some p ↦ compare_pin h peer pk p s ])
    by_pin none e = pin_new-IsTrusty h peer pk s
    by_pin (some p) e = compare_pin-IsTrusty h peer pk p s e
