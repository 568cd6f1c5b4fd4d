-- ===== src/Client/Crypto/RoundTrip.antt =====
-- Proofs that Decrypt takes apart what Encrypt puts together.
use skype7_reborn.Prelude.Table.{limit}
use skype7_reborn.Prelude.{
  ℕ, List, [], ◌∷◌, ◌++◌, ◌≡◌, refl, ap, arith, length, length-append, ◌∙◌, sym,
}
use mathlib.Core.Path.{ap₂}
use skype7_reborn.Client.Crypto.{Key, Box, drop_bytes, decrypt}

pub limit-append : (nonce bs : List ℕ) → limit (length nonce) (nonce ++ bs) ≡ nonce
unfolding limit
limit-append [] bs = refl
limit-append (b ∷ nonce) bs = ap (λ x. b ∷ x) (limit-append nonce bs)

pub drop_bytes-append : (nonce bs : List ℕ) → drop_bytes (length nonce) (nonce ++ bs) ≡ bs
unfolding drop_bytes
drop_bytes-append [] bs = refl
drop_bytes-append (b ∷ nonce) bs = drop_bytes-append nonce bs

-- Decrypt hands the box the nonce and the sealed bytes that Encrypt has joined.
pub decrypt-encrypt :
    (x : Box) (nonce sealed : List ℕ) (sender_pub recipient_priv : Key)
    → length nonce ≡ 24
    → decrypt x (nonce ++ sealed) sender_pub recipient_priv
      ≡ x.open_sealed nonce sealed sender_pub recipient_priv
unfolding decrypt
decrypt-encrypt x nonce sealed sender_pub recipient_priv h =
    guard ∙ ap₂ (λ n s. x.open_sealed n s sender_pub recipient_priv) front back
  where
    front : limit 24 (nonce ++ sealed) ≡ nonce
    front = ap (λ n. limit n (nonce ++ sealed)) (sym h) ∙ limit-append nonce sealed

    back : drop_bytes 24 (nonce ++ sealed) ≡ sealed
    back = ap (λ n. drop_bytes n (nonce ++ sealed)) (sym h) ∙ drop_bytes-append nonce sealed

    guard :
        decrypt x (nonce ++ sealed) sender_pub recipient_priv
        ≡ x.open_sealed
            (limit 24 (nonce ++ sealed))
            (drop_bytes 24 (nonce ++ sealed))
            sender_pub
            recipient_priv
    guard = ground (arith, length-append nonce sealed)
