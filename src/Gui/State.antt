-- ===== src/Gui/State.antt =====
-- gui/controllers/gui_state_manager.py: how the events of the dispatcher change the model. `notices`
-- are the signals that the manager raises for the widgets, the first of them first.
pub mod Reach
pub mod Attention
pub mod Progress
pub mod Views
pub mod Online
use g04_final_project_d_25_c.Prelude.{
  ℕ, Bool, true, false, ◌&&◌, not, String, ◌==◌, String_eq, Option, none, some, List, [], ◌∷◌, ◌++◌,
  ℤ, if◌then◌else◌, or_else, contains, join_text,
}
use g04_final_project_d_25_c.Dict.{Dict, get, has}
use g04_final_project_d_25_c.Protocol
use g04_final_project_d_25_c.Gui.Events.{
  Event, session_restored, message_received, private_message_received, system_message,
  online_users_updated, user_status_changed, friend_list_updated, friend_request_received,
  room_joined, room_left, room_deleted, room_list_updated, file_transfer_started,
  file_transfer_progress, file_transfer_complete, file_transfer_error, image_received,
}
use g04_final_project_d_25_c.Gui.Model.{
  User, Friend, self, normal, private, offline, coerce, status_value, increment_unread,
  clear_unread,
}
use g04_final_project_d_25_c.Gui.Application.{
  ApplicationModel, new_model, set_username, set_session_token, add_or_update_user, change_room,
  add_or_update_room, remove_room, add_message, add_or_update_friend, add_file_transfer,
  update_file_transfer_progress, complete_file_transfer, error_file_transfer,
}

pub data Notice : Type 0 where
  message_added : (room : String) → Notice
  rooms_changed users_changed friends_changed : Notice
  status_changed : (status : String) → Notice

pub record GuiState : Type 0 where
  pub model : ApplicationModel
  pub notices : List Notice

-- `__init__`
abbrev pub new_state : GuiState
new_state = record { model = new_model; notices = [] }

abbrev pub on_model : (ApplicationModel → ApplicationModel) → GuiState → GuiState
on_model f g = record g { model = f g.model }

abbrev pub notify : Notice → GuiState → GuiState
notify n g = record g { notices = g.notices ++ n ∷ [] }

unfoldable pub set_identity : String → Option String → GuiState → GuiState
unfolding set_username set_session_token
set_identity username none g = on_model (set_username username) g
set_identity username (some token) g =
    if token == ""
    then on_model (set_username username) g
    else on_model (λ m. set_session_token token (set_username username m)) g

unfoldable pub set_status : String → GuiState → GuiState
unfolding coerce status_value
set_status status g =
    notify (status_changed (status_value (coerce status)))
      (on_model (λ m. record m { current_status = coerce status }) g)

unfoldable pub set_current_room : String → GuiState → GuiState
unfolding change_room clear_unread
set_current_room room g =
    notify rooms_changed
      (on_model (λ m. change_room room clear_unread (record m { current_room = room })) g)

-- `self.model.username or "me"`
abbrev pub own_name : ApplicationModel → String
own_name m = elim m.username [ none ↦ "me" | some name ↦ if name == "" then "me" else name ]

unfoldable pub record_outgoing_message : String → String → String → GuiState → GuiState
unfolding add_message
record_outgoing_message room content timestamp g = notify (message_added room) (
    on_model (λ m. add_message (own_name m) content timestamp (some room) none false (some self) m)
      g)

unfoldable pub record_outgoing_private : String → String → String → GuiState → GuiState
unfolding add_message join_text
record_outgoing_private target content timestamp g =
    notify (message_added (join_text ("@" ∷ target ∷ []))) (
      on_model
        (λ m. add_message (own_name m) content timestamp none (some target) false (some self) m) g)

unfoldable pub on_session : String → String → GuiState → GuiState
unfolding set_username set_current_room
on_session username room g =
    set_current_room (if room == "" then "global" else room) (on_model (set_username username) g)

-- `sender == self.model.username`
abbrev pub is_own : String → ApplicationModel → Bool
is_own sender m = elim m.username [ none ↦ false | some me ↦ sender == me ]

unfoldable pub on_message : String → String → String → String → GuiState → GuiState
unfolding add_message change_room increment_unread
on_message room sender message timestamp g =
    let own = is_own sender g.model in
    let kind = if own then self else normal in
    let added : GuiState =
      on_model (add_message sender message timestamp (some room) none false (some kind)) g in
    let counted : GuiState =
      if not own && not (room == added.model.current_room)
      then notify rooms_changed (on_model (change_room room increment_unread) added)
      else added in
    notify (message_added room) counted

unfoldable pub on_private_message : String → String → String → GuiState → GuiState
unfolding add_message join_text
on_private_message sender message timestamp g =
    notify (message_added (join_text ("@" ∷ sender ∷ []))) (
      on_model (λ m. add_message sender message timestamp none m.username false (some private) m) g)

unfoldable pub on_system_message : String → String → GuiState → GuiState
unfolding add_message
on_system_message room message g =
    notify (message_added room)
      (on_model (add_message "system" message "" (some room) none true none) g)

-- `for user in users: self.model.add_or_update_user(user, status="ONLINE")`
abbrev pub add_online : List String → ApplicationModel → ApplicationModel
add_online [] m = m
add_online (u ∷ us) m = add_online us (add_or_update_user u "ONLINE" false m)

-- `username == self.model.username`
abbrev pub is_me : String → Option String → Bool
is_me username none = false
is_me username (some me) = username == me

abbrev pub mark_absent : List String → Option String → Dict String User → Dict String User
mark_absent seen me [] = []
mark_absent seen me ((name, user) ∷ users) =
    (
      name,
      if not (contains name seen) && not (is_me name me)
          then record user { status = offline }
          else user,
    )
    ∷ mark_absent seen me users

unfoldable pub on_online_users : List String → GuiState → GuiState
unfolding add_or_update_user
on_online_users users g =
    let added = add_online users g.model in
    notify users_changed
      (record g { model = record added { users = mark_absent users added.username added.users } })

unfoldable pub on_user_status : String → String → GuiState → GuiState
unfolding add_or_update_user add_or_update_friend get
on_user_status user status g =
    let updated : GuiState = on_model (add_or_update_user user status false) g in
    notify users_changed (elim (get user updated.model.friends) [
      | none ↦ updated
      | some f ↦
          notify friends_changed
            (on_model (add_or_update_friend user status f.in_voice f.pending) updated)
    ])

-- An entry of the list that the server sends has no `in_voice`.
abbrev pub add_friends : List Protocol.Friend → ApplicationModel → ApplicationModel
add_friends [] m = m
add_friends (f ∷ fs) m = add_friends fs (add_or_update_friend f.username f.status false false m)

unfoldable pub on_friend_list : List Protocol.Friend → GuiState → GuiState
unfolding add_or_update_friend
on_friend_list friends g =
    notify friends_changed (on_model (λ m. add_friends friends (record m { friends = [] })) g)

unfoldable pub on_friend_request : String → GuiState → GuiState
unfolding add_or_update_friend
on_friend_request sender g =
    notify friends_changed (on_model (add_or_update_friend sender "OFFLINE" false true) g)

unfoldable pub on_room_joined : String → GuiState → GuiState
unfolding add_or_update_room
on_room_joined room g = notify rooms_changed (on_model (add_or_update_room room) g)

unfoldable pub on_room_left : String → GuiState → GuiState
on_room_left room g = notify rooms_changed g

unfoldable pub on_room_deleted : String → GuiState → GuiState
unfolding remove_room
on_room_deleted room g = notify rooms_changed (on_model (remove_room room) g)

abbrev pub add_rooms : List String → ApplicationModel → ApplicationModel
add_rooms [] m = m
add_rooms (r ∷ rs) m = add_rooms rs (add_or_update_room r m)

unfoldable pub on_room_list : List String → GuiState → GuiState
unfolding add_or_update_room
on_room_list rooms g = notify rooms_changed (on_model (add_rooms rooms) g)

unfoldable pub on_transfer_start : String → String → ℤ → GuiState → GuiState
unfolding add_file_transfer
on_transfer_start transfer_id filename filesize =
    on_model (add_file_transfer transfer_id filename filesize)

unfoldable pub on_transfer_progress : String → ℤ → GuiState → GuiState
unfolding update_file_transfer_progress
on_transfer_progress transfer_id progress =
    on_model (update_file_transfer_progress transfer_id progress)

unfoldable pub on_transfer_complete : String → GuiState → GuiState
unfolding complete_file_transfer
on_transfer_complete transfer_id = on_model (complete_file_transfer transfer_id)

unfoldable pub on_transfer_error : String → String → GuiState → GuiState
unfolding error_file_transfer
on_transfer_error transfer_id reason = on_model (error_file_transfer transfer_id reason)

unfoldable pub on_image_or_file : String → String → String → GuiState → GuiState
on_image_or_file room_or_sender filename file_path = notify (message_added room_or_sender)

-- `_wire_signals`: the handler that each event goes to; any other event is not listened to.
unfoldable pub on_event : Event → GuiState → GuiState
on_event (session_restored username room) = on_session username room
on_event (message_received room sender message time) = on_message room sender message time
on_event (private_message_received sender message time) = on_private_message sender message time
on_event (system_message room message) = on_system_message room message
on_event (online_users_updated users) = on_online_users users
on_event (user_status_changed user status) = on_user_status user status
on_event (friend_list_updated friends) = on_friend_list friends
on_event (friend_request_received sender) = on_friend_request sender
on_event (room_joined room) = on_room_joined room
on_event (room_left room) = on_room_left room
on_event (room_deleted room) = on_room_deleted room
on_event (room_list_updated rooms) = on_room_list rooms
on_event (file_transfer_started id name size) = on_transfer_start id name size
on_event (file_transfer_progress id progress) = on_transfer_progress id progress
on_event (file_transfer_complete id) = on_transfer_complete id
on_event (file_transfer_error id reason) = on_transfer_error id reason
on_event (image_received room name path) = on_image_or_file room name path
on_event _ = λ g. g

-- The events that come in one after the other.
unfoldable pub on_events : List Event → GuiState → GuiState
on_events [] g = g
on_events (e ∷ es) g = on_events es (on_event e g)
