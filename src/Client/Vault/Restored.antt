-- ===== src/Client/Vault/Restored.antt =====
-- Proofs that decryptDBFile brings back what encryptDBFile has put away.
use skype7_reborn.Prelude.{
  String, true, false, none, some, ◌++◌, ◌≡◌, ◌==◌, sym, ap, ◌∙◌, arith, ltb, nat_eq, length,
  length-append, ok, eq_refl, eq_iff, subst,
}
use skype7_reborn.Prelude.Table.{limit}
use skype7_reborn.Prelude.Dict.{lookup, insert, lookup-insert, lookup-erase}
use text.Mathlib.TextPositions.{len-append}
use skype7_reborn.Prelude.Text.{append, len}
use skype7_reborn.Client.Crypto.{drop_bytes}
use skype7_reborn.Client.Crypto.RoundTrip.{limit-append, drop_bytes-append}
use skype7_reborn.Client.Updater.{Bytes}
use skype7_reborn.Client.Vault.{
  Aead, VaultCodec, Run, Vault, stored_key, db_vault_key, read_file, write_file, enc_path,
  has_vault_file, open_vault, decrypt_with, decrypt_db_file, replace_by_vault, encrypt_db_file,
}

-- Every call of the run on a file does what it is asked to. (Whether the plain file can be removed
-- does not matter.)
abbrev pub ServesFiles : Run → Type 0
ServesFiles r = (r.stat_fails ≡ false) × (r.read_error ≡ none) × (r.write_fault ≡ none)

-- What base64 and AES-GCM promise of a key.
abbrev pub Opens : VaultCodec → Aead → Bytes → Type 0
Opens x g key =
    (x.new_gcm key ≡ ok g)
    × (nat_eq (length key) 32 ≡ true)
    × ((x.encode_to_string key == "") ≡ false)
    × (x.decode_string (x.encode_to_string key) ≡ some key)

abbrev pub Inverts : Aead → Bytes → Bytes → Type 0
Inverts g nonce plain =
    (length nonce ≡ g.nonce_size)
    × (ltb 0 g.nonce_size ≡ true)
    × (g.open_sealed nonce (g.seal nonce plain) ≡ ok plain)

other_path : (path : String) → (enc_path path == path) ≡ false
unfolding enc_path
other_path path = ground (arith, eq_iff (append path ".enc") path, longer)
  where
    longer : append path ".enc" ≡ path → ⊥
    longer p = omega (arith, sym (len-append path ".enc") ∙ ap len p)

open_vault-append :
    (g : Aead) (nonce plain : Bytes)
    → Inverts g nonce plain
    → open_vault g (nonce ++ g.seal nonce plain) ≡ ok plain
unfolding open_vault
open_vault-append g nonce plain (size, _, opens) =
    ground (arith, length-append nonce (g.seal nonce plain), size, front, back, opens)
  where
    front : limit g.nonce_size (nonce ++ g.seal nonce plain) ≡ nonce
    front =
        ap (λ n. limit n (nonce ++ g.seal nonce plain)) (sym size)
        ∙ limit-append nonce (g.seal nonce plain)

    back : drop_bytes g.nonce_size (nonce ++ g.seal nonce plain) ≡ g.seal nonce plain
    back =
        ap (λ n. drop_bytes n (nonce ++ g.seal nonce plain)) (sym size)
        ∙ drop_bytes-append nonce (g.seal nonce plain)

-- The key that dbVaultKey gives is the one it finds on a later run.
stored_key-db_vault_key :
    (x : VaultCodec) (r r' : Run) (v : Vault) (g : Aead) (key : Bytes)
    → (db_vault_key x r v).0 ≡ ok key
    → Opens x g key
    → r'.get_fails ≡ false
    → stored_key x r' (db_vault_key x r v).1.secret ≡ some key
unfolding db_vault_key stored_key
stored_key-db_vault_key x r r' v g key gave (_, long, visible, back) works =
    ground (arith, gave, long, visible, back, works)

encrypt_db_file-sealed :
    (x : VaultCodec) (r : Run) (path : String) (v : Vault) (g : Aead) (key nonce plain : Bytes)
    → (db_vault_key x r v).0 ≡ ok key
    → x.new_gcm key ≡ ok g
    → r.nonce_bytes g.nonce_size ≡ ok nonce
    → r.read_error ≡ none
    → lookup path v.files ≡ some plain
    → encrypt_db_file x r path v
      ≡ replace_by_vault r path (nonce ++ g.seal nonce plain) (db_vault_key x r v).1
unfolding encrypt_db_file read_file
encrypt_db_file-sealed x r path v g key nonce plain gave cipher drawn reads there =
    ground (arith, gave, cipher, drawn, reads, there)

lookup-replace_by_vault :
    (r : Run) (path : String) (sealed : Bytes) (v : Vault)
    → r.write_fault ≡ none
    → ((replace_by_vault r path sealed v).0 ≡ none)
      × (lookup (enc_path path) (replace_by_vault r path sealed v).1.files ≡ some sealed)
      × ((replace_by_vault r path sealed v).1.secret ≡ v.secret)
unfolding replace_by_vault write_file
lookup-replace_by_vault r path sealed v writes = (
  ground (arith, writes),
  ground (
    arith,
    writes,
    other_path path,
    eq_iff path (enc_path path),
    eq_iff (enc_path path) path,
    eq_refl (enc_path path),
    lookup-insert (enc_path path) (enc_path path) sealed v.files,
    lookup-erase path (enc_path path) (insert (enc_path path) sealed v.files),
  ),
  ground (arith, writes),
)

decrypt_db_file-opened :
    (x : VaultCodec) (r : Run) (path : String) (v : Vault) (g : Aead) (key nonce plain : Bytes)
    → stored_key x r v.secret ≡ some key
    → x.new_gcm key ≡ ok g
    → Inverts g nonce plain
    → ServesFiles r
    → lookup (enc_path path) v.files ≡ some (nonce ++ g.seal nonce plain)
    → decrypt_db_file x r path v ≡ (none, record v { files = insert path plain v.files })
unfolding decrypt_db_file has_vault_file db_vault_key decrypt_with read_file write_file
decrypt_db_file-opened x r path v g key nonce plain found cipher inv (stat, reads, writes) there =
    ground (
      arith,
      found,
      cipher,
      inv.0,
      inv.1,
      stat,
      reads,
      writes,
      there,
      length-append nonce (g.seal nonce plain),
      open_vault-append g nonce plain inv,
    )

-- What a run leaves whose calls on files succeed, and what the next one makes of it.
decrypt_db_file-replace_by_vault :
    (x : VaultCodec) (r r' : Run) (path : String) (v : Vault) (g : Aead) (key nonce plain : Bytes)
    → stored_key x r' v.secret ≡ some key
    → x.new_gcm key ≡ ok g
    → Inverts g nonce plain
    → r.write_fault ≡ none
    → ServesFiles r'
    → let left = replace_by_vault r path (nonce ++ g.seal nonce plain) v in
      (left.0 ≡ none)
      × ((decrypt_db_file x r' path left.1).0 ≡ none)
      × (lookup path (decrypt_db_file x r' path left.1).1.files ≡ some plain)
decrypt_db_file-replace_by_vault x r r' path v g key nonce plain found cipher inv writes serves' =
    let left = replace_by_vault r path (nonce ++ g.seal nonce plain) v in
    let (quiet, stored, kept) =
      lookup-replace_by_vault r path (nonce ++ g.seal nonce plain) v writes in
    let opened =
      decrypt_db_file-opened x r' path left.1 g key nonce plain
        (ap (λ t. stored_key x r' t) kept ∙ found) cipher inv serves' stored in
    (
      quiet,
      ap (λ p. p.0) opened,
      ap (λ p. lookup path p.1.files) opened
          ∙ ground (arith, lookup-insert path path plain left.1.files, eq_refl path),
    )

-- When the calls on files succeed in both runs, the key ring gives or takes a key, it can be read in the
-- later run, and base64 and AES-GCM undo themselves on that key, the nonce that was drawn and the bytes
-- of the database, then encryptDBFile and, in the later run, decryptDBFile both return no error, and
-- after them the database at its path has the bytes it had.
pub decrypt_db_file-encrypt_db_file :
    (x : VaultCodec) (r r' : Run) (path : String) (v : Vault) (g : Aead) (key nonce plain : Bytes)
    → (db_vault_key x r v).0 ≡ ok key
    → Opens x g key
    → r.nonce_bytes g.nonce_size ≡ ok nonce
    → Inverts g nonce plain
    → ServesFiles r
    → ServesFiles r'
    → r'.get_fails ≡ false
    → lookup path v.files ≡ some plain
    → ((encrypt_db_file x r path v).0 ≡ none)
      × ((decrypt_db_file x r' path (encrypt_db_file x r path v).1).0 ≡ none)
      × (lookup path (decrypt_db_file x r' path (encrypt_db_file x r path v).1).1.files
          ≡ some plain)
decrypt_db_file-encrypt_db_file x r r' path v g key nonce plain gave op drawn inv serves serves'
      get' there =
    subst
      (λ q.
        (q.0 ≡ none)
        × ((decrypt_db_file x r' path q.1).0 ≡ none)
        × (lookup path (decrypt_db_file x r' path q.1).1.files ≡ some plain))
      (sym (encrypt_db_file-sealed x r path v g key nonce plain gave op.0 drawn serves.1 there))
      (decrypt_db_file-replace_by_vault x r r' path (db_vault_key x r v).1 g key nonce plain
        (stored_key-db_vault_key x r r' v g key gave op get') op.0 inv serves.2 serves')
