-- ===== src/Gui/Model.antt =====
-- gui/models: a user, a friend, a message, a room and a transfer, as the graphical client knows them.
use g04_final_project_d_25_c.Prelude.{
  ℕ, ◌+◌, ℤ, Bool, true, false, String, ◌==◌, String_eq, Option, none, List, [], ◌∷◌, ◌++◌,
  if◌then◌else◌, contains, join_text, upper,
}

pub data UserStatus : Type 0 where
  online offline in_room in_match do_not_disturb voice_active : UserStatus

-- `UserStatus.coerce` of a text
unfoldable pub coerce : String → UserStatus
unfolding upper
coerce value =
    let name = upper value in
    if name == "ONLINE"
    then online
    else if name == "OFFLINE"
    then offline
    else if name == "IN_ROOM"
    then in_room
    else if name == "IN_MATCH"
    then in_match
    else if name == "DO_NOT_DISTURB"
    then do_not_disturb
    else if name == "VOICE_ACTIVE"
    then voice_active
    else offline

-- `UserStatus.X.value`
unfoldable pub status_value : UserStatus → String
status_value online = "ONLINE"
status_value offline = "OFFLINE"
status_value in_room = "IN_ROOM"
status_value in_match = "IN_MATCH"
status_value do_not_disturb = "DO_NOT_DISTURB"
status_value voice_active = "VOICE_ACTIVE"

pub record User : Type 0 where
  pub username : String
  pub status : UserStatus
  pub in_voice : Bool
  pub muted : Bool
  pub speaking : Bool
  pub last_seen : Option String

pub record Friend : Type 0 where
  pub username : String
  pub status : UserStatus
  pub in_voice : Bool
  pub pending : Bool

abbrev pub new_user : String → User
new_user name = record {
  username = name;
  status = offline;
  in_voice = false;
  muted = false;
  speaking = false;
  last_seen = none;
}

abbrev pub new_friend : String → Friend
new_friend name = record { username = name; status = offline; in_voice = false; pending = false }

pub data MessageKind : Type 0 where
  normal self system private file image : MessageKind

pub record Message : Type 0 where
  pub sender : String
  pub content : String
  pub timestamp : String
  pub room : Option String
  pub target_user : Option String
  pub kind : MessageKind
  pub file_path : Option String
  pub filename : Option String

unfoldable pub is_system : Message → Bool
is_system m = elim m.kind [ system ↦ true | _ ↦ false ]

unfoldable pub is_self : Message → Bool
is_self m = elim m.kind [ self ↦ true | _ ↦ false ]

unfoldable pub is_private : Message → Bool
is_private m = elim m.kind [ private ↦ true | _ ↦ false ]

unfoldable pub display_text : Message → String
unfolding is_system join_text
display_text m =
    if is_system m
    then join_text ("[SYSTEM] " ∷ m.content ∷ [])
    else if m.timestamp == ""
    then join_text (m.sender ∷ ": " ∷ m.content ∷ [])
    else join_text ("[" ∷ m.timestamp ∷ "] " ∷ m.sender ∷ ": " ∷ m.content ∷ [])

pub record Room : Type 0 where
  pub name : String
  pub owner : String
  pub members : List String
  pub max_capacity : ℕ
  pub visibility : String
  pub voice_active : Bool
  pub voice_participants : List String
  pub messages : List Message
  pub unread_count : ℕ

abbrev pub new_room : String → String → Room
new_room name owner = record {
  name = name;
  owner = owner;
  members = [];
  max_capacity = 50;
  visibility = "public";
  voice_active = false;
  voice_participants = [];
  messages = [];
  unread_count = 0;
}

unfoldable pub is_member : String → Room → Bool
is_member username r = contains username r.members

-- `Room.add_message`
unfoldable pub append_message : Message → Room → Room
append_message m r = record r { messages = r.messages ++ m ∷ [] }

unfoldable pub increment_unread : Room → Room
increment_unread r = record r { unread_count = r.unread_count + 1 }

unfoldable pub clear_unread : Room → Room
clear_unread r = record r { unread_count = 0 }

-- `status` of a transfer
pub data TransferStatus : Type 0 where
  pending uploading complete error : TransferStatus

pub record FileTransfer : Type 0 where
  pub transfer_id : String
  pub filename : String
  pub filesize : ℤ
  pub progress : ℕ
  pub status : TransferStatus
  pub error_message : Option String

unfoldable pub is_complete : FileTransfer → Bool
is_complete t = elim t.status [ complete ↦ true | _ ↦ false ]

unfoldable pub has_error : FileTransfer → Bool
has_error t = elim t.status [ error ↦ true | _ ↦ false ]
