-- ===== src/Client/App/Delivery.antt =====
-- Proofs that what SendMessage seals for a peer, HandleIncomingMessage of that peer takes out again.
use skype7_reborn.Prelude.{
  ℕ, ◌+◌, String, Bool, true, false, some, List, [], ◌∷◌, ◌++◌, ◌==◌, if◌then◌else◌, ◌≡◌, sym, ap,
  ◌∙◌, arith, Bool-cases, eq-false, inl, inr, eq_iff, length, ltb,
}
use mathlib.Core.Path.{ap₂}
use skype7_reborn.Prelude.Dict.{lookup}
use skype7_reborn.Prelude.Table.Rows.{Every}
use skype7_reborn.Prelude.Text.{append, starts_with, len, hex_encode}
use skype7_reborn.Prelude.Hex.{hex_decode, hex_decode-hex_encode}
use text.Mathlib.TextPositions.{slice-append_left, slice-append_right, eq_refl, len-append}
use Prim.Native.String.{slice}
use skype7_reborn.Wire.{NexusMessage}
use skype7_reborn.Client.Crypto.{Key, encrypt, decrypt}
use skype7_reborn.Client.Crypto.RoundTrip.{decrypt-encrypt}
use skype7_reborn.Client.App.{PhazeApp, Host, Field, in_body, in_sdp, in_candidate}
use skype7_reborn.Client.App.Sending.{
  encrypt_for_peer, decrypt_from_peer, decrypt_hex, e2ee_text, text_or_empty, seal_message,
  send_message, transmit, may_seal,
}
use skype7_reborn.Client.App.Inbox.{decrypt_fields, dispatch, handle_incoming_message}

starts_with-append : (p s : String) → starts_with (append p s) p ≡ true
starts_with-append p s = ap (λ x. x == p) (slice-append_left p s) ∙ eq_refl p

slice-append : (p s : String) → slice (append p s) (len p) (len (append p s)) ≡ s
slice-append p s = ap (slice (append p s) (len p)) (len-append p s) ∙ slice-append_right p s

Every-append : (f : ℕ → Bool) (xs ys : List ℕ) → Every f xs → Every f ys → Every f (xs ++ ys)
Every-append f [] ys h k = k
Every-append f (x ∷ xs) ys (p, h) k = (p, Every-append f xs ys h k)

abbrev pub is_byte : ℕ → Bool
is_byte b = ltb b 256

-- What one user's app seals a field with, and what golang.org/x/crypto promises of it: 24 bytes are
-- read for the nonce, the box makes bytes, and the other user's keys open them with that nonce.
abbrev pub Carries : Host → Host → Key → Key → Key → Key → Field → String → Type 0
Carries ha hb pub_a priv_a pub_b priv_b f plain =
    (nonce : List ℕ) × (ha.nonce f ≡ some nonce)
    × (length nonce ≡ 24)
    × Every is_byte nonce
    × Every is_byte (ha.box.seal nonce plain pub_b priv_a)
    × (hb.box.open_sealed nonce (ha.box.seal nonce plain pub_b priv_a) pub_a priv_b ≡ some plain)

decrypt_hex-opened :
    (h : Host) (nonce sealed : List ℕ) (plain : String) (pub_a priv_b : Key)
    → length nonce ≡ 24
    → Every is_byte nonce
    → Every is_byte sealed
    → h.box.open_sealed nonce sealed pub_a priv_b ≡ some plain
    → decrypt_hex h (hex_encode (nonce ++ sealed)) pub_a priv_b ≡ plain
unfolding decrypt_hex text_or_empty
decrypt_hex-opened h nonce sealed plain pub_a priv_b long bytes small opened =
    at_last (hex_encode (nonce ++ sealed)) (nonce ++ sealed)
      (hex_decode-hex_encode (nonce ++ sealed) (Every-append is_byte nonce sealed bytes small))
      (decrypt-encrypt h.box nonce sealed pub_a priv_b long ∙ opened)
  where
    at_last :
        (hex : String) (encrypted : List ℕ)
        → hex_decode hex ≡ some encrypted
        → decrypt h.box encrypted pub_a priv_b ≡ some plain
        → decrypt_hex h hex pub_a priv_b ≡ plain
    at_last hex encrypted e f = cc

sealed_text : (s : String) → (append "E2EE:" s == "") ≡ false
sealed_text s =
    eq-false (append "E2EE:" s) "" (λ e. absurd (too_long (sym (len-append "E2EE:" s) ∙ ap len e)))
  where
    too_long : len "E2EE:" + len s ≡ len "" → ⊥
    too_long e = omega (arith, e)

decrypt_from_peer-sealed :
    (h : Host) (b : PhazeApp) (hex sender : String) (pub_a priv_b : Key)
    → b.priv_key ≡ some priv_b
    → lookup sender b.peer_keys ≡ some pub_a
    → decrypt_from_peer h b (append "E2EE:" hex) sender ≡ decrypt_hex h hex pub_a priv_b
unfolding decrypt_from_peer
decrypt_from_peer-sealed h b hex sender pub_a priv_b own known =
    opened (starts_with-append "E2EE:" hex)
    ∙ ap (λ t. decrypt_hex h t pub_a priv_b) (slice-append "E2EE:" hex)
  where
    opened :
        starts_with (append "E2EE:" hex) "E2EE:" ≡ true
        → decrypt_from_peer h b (append "E2EE:" hex) sender
          ≡ decrypt_hex h (slice (append "E2EE:" hex) 5 (len (append "E2EE:" hex))) pub_a priv_b
    opened e = cc

encrypt_for_peer-sealed :
    (h : Host) (a : PhazeApp) (f : Field) (plain recipient : String) (nonce : List ℕ)
    (priv_a pub_b : Key)
    → (plain == "") ≡ false
    → (recipient == "") ≡ false
    → h.nonce f ≡ some nonce
    → a.priv_key ≡ some priv_a
    → lookup recipient a.peer_keys ≡ some pub_b
    → encrypt_for_peer h a f plain recipient
      ≡ append "E2EE:" (hex_encode (nonce ++ h.box.seal nonce plain pub_b priv_a))
unfolding encrypt_for_peer e2ee_text encrypt
encrypt_for_peer-sealed h a f plain recipient nonce priv_a pub_b ne to drawn own known = cc

-- A field that is sealed comes out as it went in.
decrypt_from_peer-encrypt_for_peer :
    (ha hb : Host) (a b : PhazeApp) (f : Field) (plain sender recipient : String)
    (pub_a priv_a pub_b priv_b : Key)
    → Carries ha hb pub_a priv_a pub_b priv_b f plain
    → a.priv_key ≡ some priv_a
    → lookup recipient a.peer_keys ≡ some pub_b
    → b.priv_key ≡ some priv_b
    → lookup sender b.peer_keys ≡ some pub_a
    → (recipient == "") ≡ false
    → (if encrypt_for_peer ha a f plain recipient == ""
        then ""
        else decrypt_from_peer hb b (encrypt_for_peer ha a f plain recipient) sender)
      ≡ plain
unfolding encrypt_for_peer
decrypt_from_peer-encrypt_for_peer ha hb a b f plain sender recipient pub_a priv_a pub_b priv_b
      (nonce, drawn, long, bytes, small, opened) own_a known_a own_b known_b to =
    elim (Bool-cases (plain == "")) [
      | inl e ↦ ground (arith, e, eq_iff plain "")
      | inr e ↦
          let hex = hex_encode (nonce ++ ha.box.seal nonce plain pub_b priv_a) in
          let sealed =
            encrypt_for_peer-sealed ha a f plain recipient nonce priv_a pub_b e to drawn own_a
              known_a in
          ap (λ t. if t == "" then "" else decrypt_from_peer hb b t sender) sealed
          ∙ nonempty hex (sealed_text hex)
          ∙ decrypt_from_peer-sealed hb b hex sender pub_a priv_b own_b known_b
          ∙ decrypt_hex-opened hb nonce (ha.box.seal nonce plain pub_b priv_a) plain pub_a priv_b
              long bytes small opened
    ]
  where
    nonempty :
        (hex : String)
        → (append "E2EE:" hex == "") ≡ false
        → (if append "E2EE:" hex == ""
            then ""
            else decrypt_from_peer hb b (append "E2EE:" hex) sender)
          ≡ decrypt_from_peer hb b (append "E2EE:" hex) sender
    nonempty hex e = cc

-- When each of two users has the other's public key, a message that one sends goes out with its body,
-- session description and candidate sealed, and the other's app does with it what it does with the
-- message itself. A nonce of 24 bytes is read for each field, and the box opens what it has
-- sealed.
pub handle_incoming_message-seal_message :
    (ha hb : Host) (a b : PhazeApp) (msg : NexusMessage) (pub_a priv_a pub_b priv_b : Key)
    → Carries ha hb pub_a priv_a pub_b priv_b in_body msg.body
    → Carries ha hb pub_a priv_a pub_b priv_b in_sdp msg.sdp
    → Carries ha hb pub_a priv_a pub_b priv_b in_candidate msg.candidate
    → a.pub_key ≡ some pub_a
    → a.priv_key ≡ some priv_a
    → lookup msg.recipient a.peer_keys ≡ some pub_b
    → b.priv_key ≡ some priv_b
    → lookup msg.sender b.peer_keys ≡ some pub_a
    → (msg.sender == "") ≡ false
    → (msg.recipient == "") ≡ false
    → (send_message ha msg a ≡ transmit ha (seal_message ha a msg) a)
      × (handle_incoming_message hb (seal_message ha a msg) b ≡ dispatch hb msg.type msg b)
unfolding send_message may_seal seal_message handle_incoming_message decrypt_fields
handle_incoming_message-seal_message ha hb a b msg pub_a priv_a pub_b priv_b body sdp candidate
      has_pub own_a known_a own_b known_b from to =
    (cc, ap (λ m. dispatch hb msg.type m b) (guarded from ∙ whole))
  where
    opened :
        (f : Field) (plain : String)
        → Carries ha hb pub_a priv_a pub_b priv_b f plain
        → (if encrypt_for_peer ha a f plain msg.recipient == ""
            then ""
            else decrypt_from_peer hb b (encrypt_for_peer ha a f plain msg.recipient) msg.sender)
          ≡ plain
    opened f plain drawn =
        decrypt_from_peer-encrypt_for_peer ha hb a b f plain msg.sender msg.recipient pub_a priv_a
          pub_b priv_b drawn own_a known_a own_b known_b to

    reopened : Field → String → String
    reopened f plain =
        if encrypt_for_peer ha a f plain msg.recipient == ""
        then ""
        else decrypt_from_peer hb b (encrypt_for_peer ha a f plain msg.recipient) msg.sender

    with_fields : String → String → String → NexusMessage
    with_fields x y z = record msg { body = x; sdp = y; candidate = z }

    guarded :
        (msg.sender == "") ≡ false
        → decrypt_fields hb b (seal_message ha a msg)
          ≡ with_fields
              (reopened in_body msg.body)
              (reopened in_sdp msg.sdp)
              (reopened in_candidate msg.candidate)
    guarded e = cc

    whole :
        with_fields
          (reopened in_body msg.body)
          (reopened in_sdp msg.sdp)
          (reopened in_candidate msg.candidate)
        ≡ msg
    whole =
        ap (λ x. with_fields x (reopened in_sdp msg.sdp) (reopened in_candidate msg.candidate))
          (opened in_body msg.body body)
        ∙ ap₂ (with_fields msg.body) (opened in_sdp msg.sdp sdp)
            (opened in_candidate msg.candidate candidate)
