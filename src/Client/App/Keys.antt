-- ===== src/Client/App/Keys.antt =====
-- The keys of native_client/main.go: acceptPeerKey, and the part of connect that loads the user's own.
use skype7_reborn.Prelude.{
  String, Bool, not, ◌&&◌, Option, none, some, ◌==◌, nat_eq, if◌then◌else◌, length,
}
use skype7_reborn.Prelude.Dict.{insert}
use skype7_reborn.Prelude.Table.{query_row, insert_row, update_where}
use skype7_reborn.Prelude.Text.{append}
use skype7_reborn.Client.Crypto.{Key, fingerprint}
use skype7_reborn.Client.App.{
  PhazeApp, Host, KeyPin, Account, notification, act, pin_select, pin_insert, account_select,
  account_update,
}

unfoldable pub pins : String → KeyPin → Bool
pins peer p = p.skypename == peer

-- The fingerprint that is pinned for a peer.
unfoldable pub pinned : String → PhazeApp → Option KeyPin
unfolding pins
pinned peer s = query_row (pins peer) s.key_pins

unfoldable pub trust : String → Key → PhazeApp → PhazeApp
trust peer pk s = record s { peer_keys = insert peer pk s.peer_keys }

-- INSERT INTO KeyPins, where skypename is the primary key, and what follows.
unfoldable pub pin_new : Host → String → Key → PhazeApp → PhazeApp
unfolding pinned trust
pin_new h peer pk s = elim (pinned peer s) [
  | some p ↦ s
  | none ↦
      if h.fails pin_insert
      then s
      else trust peer pk (record s {
        key_pins =
            insert_row
              (record {
                skypename = peer;
                fingerprint = fingerprint h.box pk;
                public_key = pk;
                first_seen = h.now;
              })
              s.key_pins;
      })
]

unfoldable pub compare_pin : Host → String → Key → KeyPin → PhazeApp → PhazeApp
unfolding trust act
compare_pin h peer pk p s =
    if p.fingerprint == fingerprint h.box pk
    then trust peer pk s
    else act
        (notification "Identity Mismatch"
          (append peer "'s key changed. Possible MITM. Message rejected."))
        s

unfoldable pub accept_peer_key : Host → String → Key → String → PhazeApp → PhazeApp
unfolding pin_new compare_pin
accept_peer_key h peer pk fp_hint s =
    if peer == ""
    then s
    else if not (fp_hint == "") && not (fp_hint == fingerprint h.box pk)
    then s
    else if h.fails pin_select
    then pin_new h peer pk s
    else elim (pinned peer s) [ none ↦ pin_new h peer pk s | some p ↦ compare_pin h peer pk p s ]

unfoldable pub owns : String → Account → Bool
owns username a = a.skypename == username

unfoldable pub store_keys : Key → Key → Account → Account
store_keys pub_key priv_key a = record a { public_key = pub_key; private_key = priv_key }

-- A pair from crypto.GenerateKeyPair, kept in the account's row where there is one.
unfoldable pub generate_keys : Host → Key × Key → PhazeApp → PhazeApp
unfolding owns store_keys
generate_keys h fresh s = record s {
  pub_key = some fresh.0;
  priv_key = some fresh.1;
  accounts =
      (if h.fails account_update
        then s.accounts
        else update_where (owns s.username) (store_keys fresh.0 fresh.1) s.accounts);
}

-- connect, once the server has accepted the user: the keys of the account's row, or a new pair.
unfoldable pub load_keys : Host → Key × Key → PhazeApp → PhazeApp
unfolding generate_keys
load_keys h fresh s =
    if h.fails account_select
    then generate_keys h fresh s
    else elim (query_row (owns s.username) s.accounts) [
      | none ↦ generate_keys h fresh s
      | some a ↦
          if nat_eq (length a.public_key) 0
          then generate_keys h fresh s
          else record s { pub_key = some a.public_key; priv_key = some a.private_key }
    ]
