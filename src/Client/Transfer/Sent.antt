-- ===== src/Client/Transfer/Sent.antt =====
-- Proofs on what SendFile sends: its chunks are the data, and without an error all of it is sent.
use skype7_reborn.Prelude.{
  ℕ, zero, suc, ◌≤◌, String, Bool, true, false, Option, List, [], ◌∷◌, ◌++◌, ◌≡◌, refl, ap, ◌∙◌,
  arith, length, is_ok,
}
use skype7_reborn.Prelude.Table.{limit}
use skype7_reborn.Client.Crypto.{drop_bytes}
use skype7_reborn.Client.Transfer.{
  Bytes, Codec, chunk_size, chunks, file_frames, send_each, send_file,
}

limit-drop_bytes : (n : ℕ) (bs : Bytes) → limit n bs ++ drop_bytes n bs ≡ bs
unfolding limit drop_bytes
limit-drop_bytes zero bs = refl
limit-drop_bytes (suc n) [] = refl
limit-drop_bytes (suc n) (b ∷ bs) = ap (λ x. b ∷ x) (limit-drop_bytes n bs)

length-drop_bytes : (n : ℕ) (b : ℕ) (bs : Bytes) → length (drop_bytes (suc n) (b ∷ bs)) ≤ length bs
unfolding drop_bytes
length-drop_bytes zero b bs = omega arith
length-drop_bytes (suc n) b [] = omega arith
length-drop_bytes (suc n) b (c ∷ bs) = omega (arith, length-drop_bytes n c bs)

unfoldable pub join_bytes : List Bytes → Bytes
join_bytes [] = []
join_bytes (c ∷ cs) = c ++ join_bytes cs

-- The chunks are the data, cut, with fuel for a round per byte.
pub join_bytes-chunks :
    (fuel : ℕ) (bytes : Bytes) → length bytes ≤ fuel → join_bytes (chunks fuel bytes) ≡ bytes
unfolding chunks join_bytes
join_bytes-chunks zero [] h = refl
join_bytes-chunks zero (b ∷ bytes) h = absurd (omega arith)
join_bytes-chunks (suc fuel) [] h = refl
join_bytes-chunks (suc fuel) (b ∷ bytes) h =
    ap (λ x. limit chunk_size (b ∷ bytes) ++ x)
      (join_bytes-chunks fuel (drop_bytes chunk_size (b ∷ bytes))
        (omega (arith, h, length-drop_bytes 16383 b bytes)))
    ∙ limit-drop_bytes chunk_size (b ∷ bytes)

send_each-ok :
    (outcome : ℕ → Option String) (n : ℕ) (frames : List Bytes)
    → is_ok (send_each outcome n frames).0 ≡ true
    → (send_each outcome n frames).1 ≡ frames
unfolding send_each
send_each-ok outcome n [] h = refl
send_each-ok outcome n (f ∷ fs) h = ground (arith, h, send_each-ok outcome (suc n) fs)

pub send_file-ok :
    (c : Codec) (opened : Bool) (outcome : ℕ → Option String) (name : String) (bytes : Bytes)
    → is_ok (send_file c opened outcome name bytes).0 ≡ true
    → (send_file c opened outcome name bytes).1 ≡ file_frames c name bytes
unfolding send_file
send_file-ok c true outcome name bytes h = send_each-ok outcome 0 (file_frames c name bytes) h
send_file-ok c false outcome name bytes h = cc
