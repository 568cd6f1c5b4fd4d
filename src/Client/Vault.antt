-- ===== src/Client/Vault.antt =====
-- native_client/db_vault.go: dbVaultKey, decryptDBFile, encryptDBFile. base64, AES-GCM and the key ring
-- of the desktop are parameters, with the outcome of each call of the operating system. A file system
-- is a list of paths with their contents.
pub mod Restored
use skype7_reborn.Prelude.Table.{limit}
use skype7_reborn.Prelude.{
  ℕ, String, Bool, false, Option, none, some, ◌++◌, ◌==◌, ltb, nat_eq, if◌then◌else◌, length,
  Result, ok, err,
}
use skype7_reborn.Prelude.Dict.{lookup, insert, erase}
use skype7_reborn.Prelude.Text.{append}
use skype7_reborn.Client.Crypto.{drop_bytes}
use skype7_reborn.Client.Updater.{Bytes, Files}

-- cipher.AEAD
pub record Aead : Type 0 where
  pub nonce_size : ℕ
  -- nonce, then the plain or the sealed bytes
  pub seal : Bytes → Bytes → Bytes
  pub open_sealed : Bytes → Bytes → Result Bytes

-- What computes alike on every run.
pub record VaultCodec : Type 0 where
  pub encode_to_string : Bytes → String
  pub decode_string : String → Option Bytes
  -- aes.NewCipher, then cipher.NewGCM
  pub new_gcm : Bytes → Result Aead

-- How os.WriteFile fails: the file is not opened, or it is left with a part of the bytes.
pub data WriteFault : Type 0 where
  refused : String → WriteFault
  partial : ℕ → String → WriteFault

-- The outcomes of one run. An error that the code does not look at is a flag.
pub record Run : Type 0 where
  pub get_fails : Bool
  pub set_error : Option String
  pub key_bytes : Result Bytes
  pub nonce_bytes : ℕ → Result Bytes
  pub stat_fails : Bool
  pub read_error : Option String
  pub no_such_file : String
  pub write_fault : Option WriteFault
  pub can_remove : Bool

-- The files, and the secret that the key ring keeps for the account default of phaze-db-vault.
pub record Vault : Type 0 where
  pub files : Files
  pub secret : Option String

-- The first half of dbVaultKey: a secret that is the text of 32 bytes.
unfoldable pub stored_key : VaultCodec → Run → Option String → Option Bytes
stored_key x r secret = if r.get_fails then none else elim secret [
  | none ↦ none
  | some s ↦ if s == "" then none else elim (x.decode_string s) [
    | none ↦ none
    | some k ↦ if nat_eq (length k) 32 then some k else none
  ]
]

unfoldable pub db_vault_key : VaultCodec → Run → Vault → Result Bytes × Vault
unfolding stored_key
db_vault_key x r v = elim (stored_key x r v.secret) [
  | some k ↦ (ok k, v)
  | none ↦ elim r.key_bytes [
    | err e ↦ (err e, v)
    | ok k ↦ elim r.set_error [
      | some e ↦ (err e, v)
      | none ↦ (ok k, record v { secret = some (x.encode_to_string k) })
    ]
  ]
]

unfoldable pub read_file : Run → String → Files → Result Bytes
unfolding lookup
read_file r path fs = elim r.read_error [
  | some e ↦ err e
  | none ↦ elim (lookup path fs) [ none ↦ err r.no_such_file | some data_bytes ↦ ok data_bytes ]
]

unfoldable pub write_file : Run → String → Bytes → Files → Option String × Files
unfolding insert limit
write_file r path content fs = elim r.write_fault [
  | none ↦ (none, insert path content fs)
  | some (refused e) ↦ (some e, fs)
  | some (partial n e) ↦ (some e, insert path (limit n content) fs)
]

unfoldable pub enc_path : String → String
enc_path path = append path ".enc"

-- The condition of decryptDBFile's first return: no vault file, or an empty one.
unfoldable pub has_vault_file : Run → String → Files → Bool
unfolding lookup
has_vault_file r enc fs = elim (lookup enc fs) [
  | none ↦ false
  | some content ↦ if r.stat_fails then false else ltb 0 (length content)
]

-- gcm.Open of what follows the nonce.
unfoldable pub open_vault : Aead → Bytes → Result Bytes
unfolding limit drop_bytes
open_vault g content =
    if ltb (length content) g.nonce_size
    then err "vault file truncated"
    else g.open_sealed (limit g.nonce_size content) (drop_bytes g.nonce_size content)

-- decryptDBFile below its first return, with the key.
unfoldable pub decrypt_with : VaultCodec → Run → Bytes → String → Vault → Option String × Vault
unfolding read_file write_file enc_path open_vault
decrypt_with x r key path v = elim (read_file r (enc_path path) v.files) [
  | err e ↦ (some e, v)
  | ok content ↦ elim (x.new_gcm key) [
    | err e ↦ (some e, v)
    | ok g ↦ elim (open_vault g content) [
      | err e ↦ (some e, v)
      | ok plain ↦
          let result = write_file r path plain v.files in (result.0, record v { files = result.1 })
    ]
  ]
]

unfoldable pub decrypt_db_file : VaultCodec → Run → String → Vault → Option String × Vault
unfolding has_vault_file enc_path db_vault_key decrypt_with
decrypt_db_file x r path v =
    let keyed = db_vault_key x r v in
    if has_vault_file r (enc_path path) v.files
    then elim keyed.0 [ err e ↦ (some e, keyed.1) | ok key ↦ decrypt_with x r key path keyed.1 ]
    else (none, v)

-- encryptDBFile from os.WriteFile on: the plain file goes once the vault file is written.
unfoldable pub replace_by_vault : Run → String → Bytes → Vault → Option String × Vault
unfolding write_file enc_path erase
replace_by_vault r path sealed v =
    let result = write_file r (enc_path path) sealed v.files in
    elim result.0 [
      | some e ↦ (some e, record v { files = result.1 })
      | none ↦ (none, record v { files = if r.can_remove then erase path result.1 else result.1 })
    ]

unfoldable pub encrypt_db_file : VaultCodec → Run → String → Vault → Option String × Vault
unfolding read_file db_vault_key replace_by_vault
encrypt_db_file x r path v = elim (read_file r path v.files) [
  | err e ↦ (some e, v)
  | ok plain ↦
      let keyed = db_vault_key x r v in
      elim keyed.0 [
        | err e ↦ (some e, keyed.1)
        | ok key ↦ elim (x.new_gcm key) [
          | err e ↦ (some e, keyed.1)
          | ok g ↦ elim (r.nonce_bytes g.nonce_size) [
            | err e ↦ (some e, keyed.1)
            | ok nonce ↦ replace_by_vault r path (nonce ++ g.seal nonce plain) keyed.1
          ]
        ]
      ]
]
