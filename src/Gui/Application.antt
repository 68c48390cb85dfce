-- ===== src/Gui/Application.antt =====
-- gui/models/app_model.py: `ApplicationModel`, what the graphical client knows of the server.
use g04_final_project_d_25_c.Prelude.{
  ℕ, Bool, true, false, String, ◌==◌, String_eq, Option, none, some, List, [], ◌∷◌, ◌++◌, ℤ, pos,
  negsuc, if◌then◌else◌, or_else, leb, keep_if,
}
use g04_final_project_d_25_c.Dict.{Dict, get, put, pop}
use g04_final_project_d_25_c.Gui.Model.{
  UserStatus, User, Friend, Message, MessageKind, Room, FileTransfer, online, coerce, new_user,
  new_friend, new_room, append_message, normal, self, system, private, pending, uploading, complete,
  error,
}

pub record ApplicationModel : Type 0 where
  pub username : Option String
  pub session_token : Option String
  pub current_room : String
  pub current_status : UserStatus
  pub users : Dict String User
  pub rooms : Dict String Room
  pub friends : Dict String Friend
  pub messages : List Message
  pub file_transfers : Dict String FileTransfer

-- `__init__`
abbrev pub new_model : ApplicationModel
new_model = record {
  username = none;
  session_token = none;
  current_room = "global";
  current_status = online;
  users = [];
  rooms = ("global", new_room "global" "system") ∷ [];
  friends = [];
  messages = [];
  file_transfers = [];
}

unfoldable pub set_username : String → ApplicationModel → ApplicationModel
set_username name m = record m { username = some name }

unfoldable pub set_session_token : String → ApplicationModel → ApplicationModel
set_session_token token m = record m { session_token = some token }

unfoldable pub add_or_update_user : String → String → Bool → ApplicationModel → ApplicationModel
unfolding get put coerce
add_or_update_user name status in_voice m =
    let user = or_else (get name m.users) (new_user name) in
    record m {
      users = put name (record user { status = coerce status; in_voice = in_voice }) m.users;
    }

unfoldable pub remove_user : String → ApplicationModel → ApplicationModel
unfolding pop
remove_user name m = record m { users = pop name m.users }

-- `self.rooms.get(name) or Room(name=name, owner="system")`
abbrev pub room_or_new : String → Dict String Room → Room
room_or_new name rooms = or_else (get name rooms) (new_room name "system")

-- The room under the name, made where there is none, with the change that the caller makes to it.
unfoldable pub change_room : String → (Room → Room) → ApplicationModel → ApplicationModel
unfolding get put
change_room name f m = record m { rooms = put name (f (room_or_new name m.rooms)) m.rooms }

-- `add_or_update_room(name)`; no caller passes an owner or other fields.
unfoldable pub add_or_update_room : String → ApplicationModel → ApplicationModel
unfolding change_room
add_or_update_room name m = change_room name (λ r. r) m

unfoldable pub remove_room : String → ApplicationModel → ApplicationModel
unfolding pop
remove_room name m = if name == "global" then m else record m { rooms = pop name m.rooms }

-- `not text`, for a text or None
abbrev pub is_blank : Option String → Bool
is_blank none = true
is_blank (some s) = s == ""

-- `self.kind`, where the caller gives none
unfoldable pub default_kind : String → Option String → Bool → ApplicationModel → MessageKind
default_kind sender target true m = system
default_kind sender (some target) false m = private
default_kind sender none false m = elim m.username [
  | none ↦ normal
  | some me ↦ if sender == me then self else normal
]

-- `room or self.current_room`
abbrev pub room_or_current : Option String → ApplicationModel → String
room_or_current none m = m.current_room
room_or_current (some room) m = if room == "" then m.current_room else room

abbrev pub new_message :
    String
    → String
    → String
    → Option String
    → Option String
    → MessageKind
    → ApplicationModel
    → Message
new_message sender content timestamp room target kind m = record {
  sender = sender;
  content = content;
  timestamp = timestamp;
  room = some (room_or_current room m);
  target_user = target;
  kind = kind;
  file_path = none;
  filename = none;
}

-- The room that the message is shown in, or the empty text.
unfoldable pub target_room : Option String → Option String → ApplicationModel → String
target_room room target m =
    if is_blank room then (if is_blank target then m.current_room else "") else or_else room ""

unfoldable pub add_message :
    String
    → String
    → String
    → Option String
    → Option String
    → Bool
    → Option MessageKind
    → ApplicationModel
    → ApplicationModel
unfolding default_kind target_room change_room append_message
add_message sender content timestamp room target is_system kind m =
    let message : Message =
      new_message sender content timestamp room target
        (or_else kind (default_kind sender target is_system m)) m in
    let logged : ApplicationModel = record m { messages = m.messages ++ message ∷ [] } in
    let name = target_room room target m in
    if name == "" then logged else change_room name (append_message message) logged

abbrev pub is_in : String → Message → Bool
is_in room message = elim message.room [ none ↦ false | some r ↦ r == room ]

unfoldable pub get_room_messages : String → ApplicationModel → List Message
unfolding get
get_room_messages room m = elim (get room m.rooms) [
  | some r ↦ r.messages
  | none ↦ keep_if (is_in room) m.messages
]

unfoldable pub add_or_update_friend :
    String → String → Bool → Bool → ApplicationModel → ApplicationModel
unfolding get put coerce
add_or_update_friend name status in_voice waiting m =
    let friend = or_else (get name m.friends) (new_friend name) in
    record m {
      friends =
          put name
            (record friend { status = coerce status; in_voice = in_voice; pending = waiting })
            m.friends;
    }

unfoldable pub remove_friend : String → ApplicationModel → ApplicationModel
unfolding pop
remove_friend name m = record m { friends = pop name m.friends }

unfoldable pub add_file_transfer : String → String → ℤ → ApplicationModel → ApplicationModel
unfolding put
add_file_transfer transfer_id filename filesize m = record m {
  file_transfers =
      put transfer_id
        (record {
          transfer_id = transfer_id;
          filename = filename;
          filesize = filesize;
          progress = 0;
          status = pending;
          error_message = none;
        })
        m.file_transfers;
}

-- The change of a transfer that is known.
abbrev pub change_transfer :
    String → (FileTransfer → FileTransfer) → ApplicationModel → ApplicationModel
change_transfer transfer_id f m = elim (get transfer_id m.file_transfers) [
  | none ↦ m
  | some t ↦ record m { file_transfers = put transfer_id (f t) m.file_transfers }
]

-- `max(0, min(100, progress))`
unfoldable pub clamp : ℤ → ℕ
clamp (pos n) = if leb n 100 then n else 100
clamp (negsuc n) = 0

unfoldable pub update_file_transfer_progress : String → ℤ → ApplicationModel → ApplicationModel
unfolding get put clamp
update_file_transfer_progress transfer_id progress = change_transfer transfer_id (λ t. record t {
  progress = clamp progress;
  status = if leb 100 (clamp progress) then complete else uploading;
})

unfoldable pub complete_file_transfer : String → ApplicationModel → ApplicationModel
unfolding get put
complete_file_transfer transfer_id =
    change_transfer transfer_id (λ t. record t { progress = 100; status = complete })

unfoldable pub error_file_transfer : String → String → ApplicationModel → ApplicationModel
unfolding get put
error_file_transfer transfer_id reason =
    change_transfer transfer_id (λ t. record t { status = error; error_message = some reason })
