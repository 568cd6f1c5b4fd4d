-- ===== src/Client/Crypto.antt =====
-- native_client/internal/crypto/e2ee.go: Encrypt, Decrypt, Fingerprint, VerifyKey. golang.org/x/crypto's
-- box and SHA-256 are the fields of a record that the operations take; a message is the text whose
-- UTF-8 the box gets.
pub mod RoundTrip
use skype7_reborn.Prelude.Table.{limit}
use skype7_reborn.Prelude.{
  ℕ, zero, suc, String, Bool, Option, none, some, List, [], ◌∷◌, ◌++◌, ◌==◌, ltb, if◌then◌else◌,
  length,
}
use skype7_reborn.Prelude.Text.{hex_encode}

abbrev pub Key : Type 0
Key = List ℕ

pub record Box : Type 0 where
  -- nonce, message or sealed bytes, a public key, a private key
  pub seal : List ℕ → String → Key → Key → List ℕ
  pub open_sealed : List ℕ → List ℕ → Key → Key → Option String
  pub sum256 : List ℕ → List ℕ

-- bs[n:] where bs has n bytes or more
unfoldable pub drop_bytes : ℕ → List ℕ → List ℕ
drop_bytes zero bs = bs
drop_bytes (suc n) [] = []
drop_bytes (suc n) (b ∷ bs) = drop_bytes n bs

-- The nonce that was read, if reading it succeeds: the sealed bytes are appended to it.
unfoldable pub encrypt : Box → Option (List ℕ) → String → Key → Key → Option (List ℕ)
encrypt x none plain recipient_pub sender_priv = none
encrypt x (some nonce) plain recipient_pub sender_priv =
    some (nonce ++ x.seal nonce plain recipient_pub sender_priv)

unfoldable pub decrypt : Box → List ℕ → Key → Key → Option String
unfolding limit drop_bytes
decrypt x encrypted sender_pub recipient_priv =
    if ltb (length encrypted) 24
    then none
    else x.open_sealed (limit 24 encrypted) (drop_bytes 24 encrypted) sender_pub recipient_priv

unfoldable pub fingerprint : Box → Key → String
unfolding limit
fingerprint x key = hex_encode (limit 8 (x.sum256 key))

unfoldable pub verify_key : Box → Option (List ℕ) → Key → Key → String → Option Bool
unfolding encrypt decrypt
verify_key x nonce their_pub my_priv test_msg = elim (encrypt x nonce test_msg their_pub my_priv) [
  | none ↦ none
  | some encrypted ↦ elim (decrypt x encrypted their_pub my_priv) [
    | none ↦ none
    | some decrypted ↦ some (decrypted == test_msg)
  ]
]
