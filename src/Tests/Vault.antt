-- ===== src/Tests/Vault.antt =====
-- The theorem on the vault of the client at a concrete input: a codec that keeps its bytes, one file.
use skype7_reborn.Prelude.{
  true, false, none, some, [], ◌∷◌, ◌==◌, ◌≡◌, refl, if◌then◌else◌, ok, err,
}
use skype7_reborn.Prelude.Dict.{lookup}
use skype7_reborn.Client.Updater.{Bytes}
use skype7_reborn.Client.Vault.{
  Aead, VaultCodec, Run, Vault, decrypt_db_file, encrypt_db_file, enc_path, db_vault_key,
  stored_key,
}
use skype7_reborn.Client.Vault.Restored.{decrypt_db_file-encrypt_db_file}

abbrev key : Bytes
key =
    5 ∷ 5 ∷ 5 ∷ 5 ∷ 5 ∷ 5 ∷ 5 ∷ 5 ∷ 5 ∷ 5 ∷ 5 ∷ 5 ∷ 5 ∷ 5 ∷ 5 ∷ 5 ∷ 5 ∷ 5 ∷ 5 ∷ 5 ∷ 5 ∷ 5 ∷ 5 ∷ 5
    ∷ 5 ∷ 5 ∷ 5 ∷ 5 ∷ 5 ∷ 5 ∷ 5 ∷ 5 ∷ []

-- Seals by putting the nonce's bytes behind the plain ones: enough to be undone.
abbrev aead : Aead
aead = record {
  nonce_size = 2;
  seal = λ nonce plain. 7 ∷ plain;
  open_sealed = λ nonce sealed. elim sealed [ [] ↦ err "short" | b ∷ bs ↦ ok bs ];
}

abbrev codec : VaultCodec
codec = record {
  encode_to_string = λ bs. "fives";
  decode_string = λ s. if s == "fives" then some key else none;
  new_gcm = λ k. ok aead;
}

abbrev run : Run
run = record {
  get_fails = false;
  set_error = none;
  key_bytes = ok key;
  nonce_bytes = λ n. ok (3 ∷ 4 ∷ []);
  stat_fails = false;
  read_error = none;
  no_such_file = "no such file";
  write_fault = none;
  can_remove = true;
}

-- The first start: the key ring has no key yet.
abbrev fresh : Vault
fresh = record { files = ("main.db", 1 ∷ 2 ∷ 3 ∷ []) ∷ []; secret = none }

decrypt_db_file-encrypt_db_file_example :
    ((encrypt_db_file codec run "main.db" fresh).0 ≡ none)
    × ((decrypt_db_file codec run "main.db" (encrypt_db_file codec run "main.db" fresh).1).0 ≡ none)
    × (lookup "main.db"
          (decrypt_db_file codec run "main.db"
            (encrypt_db_file codec run "main.db" fresh).1).1.files
        ≡ some (1 ∷ 2 ∷ 3 ∷ []))
unfolding db_vault_key stored_key lookup
decrypt_db_file-encrypt_db_file_example =
    decrypt_db_file-encrypt_db_file codec run run "main.db" fresh aead key (3 ∷ 4 ∷ [])
      (1 ∷ 2 ∷ 3 ∷ []) refl (refl, refl, refl, refl) refl (refl, refl, refl) (refl, refl, refl)
      (refl, refl, refl) refl refl

-- When the app ends without encryptDBFile, the next start puts the older vault over the newer database.
older_vault :
    (decrypt_db_file codec run "main.db" (record {
      files = ("main.db", 9 ∷ 9 ∷ []) ∷ ("main.db.enc", 3 ∷ 4 ∷ 7 ∷ 1 ∷ 2 ∷ []) ∷ [];
      secret = some "fives";
    })).1.files
    ≡ ("main.db", 1 ∷ 2 ∷ []) ∷ ("main.db.enc", 3 ∷ 4 ∷ 7 ∷ 1 ∷ 2 ∷ []) ∷ []
unfolding decrypt_db_file db_vault_key stored_key lookup enc_path
    skype7_reborn.Client.Vault.has_vault_file skype7_reborn.Client.Vault.decrypt_with
    skype7_reborn.Client.Vault.read_file skype7_reborn.Client.Vault.write_file
    skype7_reborn.Client.Vault.open_vault skype7_reborn.Prelude.Dict.insert
    skype7_reborn.Prelude.Dict.erase skype7_reborn.Prelude.Table.limit
    skype7_reborn.Client.Crypto.drop_bytes
older_vault = refl
