-- ===== src/Client/App/Contacts.antt =====
-- The contacts of native_client/main.go: loadFriends, updateFriendStatus, updateFriendProfile,
-- showFriendRequestDialog, removeContact.
use Prim.Native.Nat.{Ordering}
use Prim.Native.String.{compare}
use skype7_reborn.Prelude.{
  ℕ, zero, suc, String, Bool, true, false, ◌||◌, none, some, List, [], ◌∷◌, ◌==◌, ltb, map,
  if◌then◌else◌,
}
use skype7_reborn.Prelude.Table.{any_row, insert_row, delete_where, update_where, order_by}
use skype7_reborn.Wire.{MsgType, blank}
use skype7_reborn.Client.App.{
  PhazeApp, Host, Contact, FriendInfo, friend_request_dialog, act, contact_insert, contact_delete,
  contact_update, contact_select,
}
use skype7_reborn.Client.App.Sending.{send_message}

unfoldable pub echo : FriendInfo
echo = record {
  username = "Echo / Sound Test Service";
  display_name = "Echo / Sound Test Service";
  status = "Online";
  mood = "Call me to test your microphone.";
}

unfoldable pub status_text : ℕ → String
status_text (suc zero) = "Online"
status_text (suc (suc zero)) = "Away"
status_text (suc (suc (suc zero))) = "Do Not Disturb"
status_text _ = "Offline"

unfoldable pub availability_of : String → ℕ
availability_of status =
    if status == "Online"
    then 1
    else if status == "Away"
    then 2
    else if status == "Do Not Disturb"
    then 3
    else 0

-- rows.Scan, whose error is not looked at: it stops at the first column that is NULL, and what
-- follows keeps Go's zero value.
unfoldable pub scan_contact : Contact → FriendInfo
unfolding status_text
scan_contact c = elim c.displayname [
  | none ↦ record { username = c.skypename; display_name = ""; mood = ""; status = status_text 0 }
  | some name ↦ elim c.mood_text [
    | none ↦ record {
      username = c.skypename;
      display_name = name;
      mood = "";
      status = status_text 0;
    }
    | some mood ↦ record {
      username = c.skypename;
      display_name = name;
      mood = mood;
      status = status_text c.availability;
    }
  ]
]

unfoldable pub text_le : String → String → Bool
text_le a b = elim (compare a b) [ Ordering.gt ↦ false | _ ↦ true ]

-- ORDER BY availability DESC, skypename ASC
unfoldable pub contact_before : Contact → Contact → Bool
unfolding text_le
contact_before c d =
    if ltb d.availability c.availability
    then true
    else if ltb c.availability d.availability
    then false
    else text_le c.skypename d.skypename

unfoldable pub load_friends : Host → PhazeApp → PhazeApp
unfolding echo scan_contact contact_before
load_friends h s = record s {
  friends =
      echo
      ∷ (if h.fails contact_select
          then []
          else map scan_contact (order_by contact_before s.contacts));
}

unfoldable pub is_contact : String → Contact → Bool
is_contact name c = c.skypename == name

-- The loop over s.Friends, which stops at the first that it changes.
unfoldable pub update_first : String → (FriendInfo → FriendInfo) → List FriendInfo → List FriendInfo
update_first name f [] = []
update_first name f (x ∷ xs) =
    let rest = update_first name f xs in if x.username == name then f x ∷ xs else x ∷ rest

-- UPDATE Contacts … WHERE skypename = ?
unfoldable pub update_contacts : Host → String → (Contact → Contact) → List Contact → List Contact
unfolding is_contact
update_contacts h name f cs =
    if h.fails contact_update then cs else update_where (is_contact name) f cs

unfoldable pub update_friend_status : Host → String → String → PhazeApp → PhazeApp
unfolding update_contacts update_first availability_of
update_friend_status h name status s = record s {
  contacts =
      update_contacts h name (λ c. record c { availability = availability_of status }) s.contacts;
  friends = update_first name (λ f. record f { status = status }) s.friends;
}

unfoldable pub update_friend_profile : Host → String → String → String → PhazeApp → PhazeApp
unfolding update_contacts update_first
update_friend_profile h name display_name mood s = record s {
  contacts =
      update_contacts h name
        (λ c. record c { displayname = some display_name; mood_text = some mood }) s.contacts;
  friends =
      update_first name (λ f. record f { display_name = display_name; mood = mood }) s.friends;
}

-- INSERT OR IGNORE INTO Contacts (skypename, availability) VALUES (?, 1), where skypename is unique
unfoldable pub insert_contact : Host → String → PhazeApp → PhazeApp
unfolding is_contact
insert_contact h name s =
    if h.fails contact_insert || any_row (is_contact name) s.contacts then s else record s {
      contacts =
          insert_row
            (record { skypename = name; displayname = none; mood_text = none; availability = 1 })
            s.contacts;
    }

unfoldable pub delete_contact : Host → String → PhazeApp → PhazeApp
unfolding is_contact
delete_contact h name s =
    if h.fails contact_delete
    then s
    else record s { contacts = delete_where (is_contact name) s.contacts }

unfoldable pub show_friend_request_dialog : String → PhazeApp → PhazeApp
unfolding act
show_friend_request_dialog requester s =
    if s.main_window then act (friend_request_dialog requester) s else s

-- The loop that drops the first entry of s.PendingInbound.
unfoldable pub drop_pending : String → List String → List String
drop_pending name [] = []
drop_pending name (p ∷ ps) = let rest = drop_pending name ps in if p == name then ps else p ∷ rest

-- The callback of the dialog.
unfoldable pub answer_friend_request : Host → String → Bool → PhazeApp → PhazeApp
unfolding send_message blank insert_contact load_friends drop_pending
answer_friend_request h requester accept s =
    let answered =
      (if accept
        then load_friends h (
            insert_contact h requester
              (send_message h (record (blank MsgType.friend_accept) { sender = requester }) s))
        else send_message h (record (blank MsgType.friend_reject) { sender = requester }) s) in
    record answered { pending_inbound = drop_pending requester answered.pending_inbound }

-- The callback of the dialog of removeContact, once confirmed.
unfoldable pub remove_contact : Host → String → PhazeApp → PhazeApp
unfolding send_message blank delete_contact load_friends
remove_contact h name s = load_friends h (
    delete_contact h name (
      send_message h
        (record (blank MsgType.friend_remove) { sender = s.username; recipient = name }) s))
