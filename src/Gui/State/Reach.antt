-- ===== src/Gui/State/Reach.antt =====
-- What the graphical client can come to know: the events of the dispatcher and the calls of the
-- windows, one after the other. Not every property outlives every event, so that the events that may
-- come are a parameter.
use g04_final_project_d_25_c.Prelude.{
  Bool, true, false, String, Option, none, some, List, [], ◌∷◌, ◌≡◌, ◌==◌, String_eq, ℤ, Bool-cases,
  Option-cases, ◌⊎◌, inl, inr, refl, if◌then◌else◌, not, ◌&&◌, arith,
}
use g04_final_project_d_25_c.Dict.{Dict, get}
use g04_final_project_d_25_c.Protocol
use g04_final_project_d_25_c.Gui.Model.{
  User, Friend, UserStatus, MessageKind, FileTransfer, self, normal, private, increment_unread,
  clear_unread,
}
use g04_final_project_d_25_c.Gui.Events
use g04_final_project_d_25_c.Gui.Events.{Event}
use g04_final_project_d_25_c.Gui.Application.{
  ApplicationModel, new_model, change_room, add_or_update_room, remove_room, add_message,
  change_transfer, add_file_transfer, update_file_transfer_progress, complete_file_transfer,
  error_file_transfer, add_or_update_user, add_or_update_friend, set_username, set_session_token,
}
use g04_final_project_d_25_c.Gui.State.{
  GuiState, new_state, on_event, on_session, on_message, on_private_message, on_system_message,
  on_online_users, on_user_status, on_friend_list, on_friend_request, on_room_joined, on_room_left,
  on_room_deleted, on_room_list, on_transfer_start, on_transfer_progress, on_transfer_complete,
  on_transfer_error, on_image_or_file, is_own, own_name, set_identity, set_status, set_current_room,
  record_outgoing_message, record_outgoing_private, add_online, add_friends, add_rooms,
}

-- Every event, where a property outlives them all.
abbrev pub any_event : Event → Bool
any_event e = true

pub data Known (allowed : Event → Bool) : GuiState → Type 0 where
  begin : Known allowed new_state
  event :
      (e : Event)
      → allowed e ≡ true
      → (g : GuiState) → Known allowed g
      → Known allowed (on_event e g)
  identity :
      (name : String) (token : Option String) (g : GuiState)
      → Known allowed g
      → Known allowed (set_identity name token g)
  status : (s : String) (g : GuiState) → Known allowed g → Known allowed (set_status s g)
  choose :
      (room : String) (g : GuiState) → Known allowed g → Known allowed (set_current_room room g)
  said :
      (room content time : String) (g : GuiState)
      → Known allowed g
      → Known allowed (record_outgoing_message room content time g)
  whispered :
      (target content time : String) (g : GuiState)
      → Known allowed g
      → Known allowed (record_outgoing_private target content time g)

-- A property of the model that every change of it keeps.
pub record Closed {ℓ} (allowed : Event → Bool) (P : ApplicationModel → Type ℓ) : Type ℓ where
  pub at_name : (n : Option String) (m : ApplicationModel) → P m → P (record m { username = n })
  pub at_token :
      (t : Option String) (m : ApplicationModel) → P m → P (record m { session_token = t })
  pub at_status :
      (s : UserStatus) (m : ApplicationModel) → P m → P (record m { current_status = s })
  pub at_users : (us : Dict String User) (m : ApplicationModel) → P m → P (record m { users = us })
  pub at_friends :
      (fs : Dict String Friend) (m : ApplicationModel) → P m → P (record m { friends = fs })
  pub at_message :
      (sender content time : String) (room target : Option String) (b : Bool)
      (k : Option MessageKind) (m : ApplicationModel)
      → (room ≡ none) ⊎ (target ≡ none)
      → P m
      → P (add_message sender content time room target b k m)
  pub at_unread :
      (room : String) (m : ApplicationModel)
      → (room == m.current_room) ≡ false
      → P m
      → P (change_room room increment_unread m)
  pub at_room : (room : String) (m : ApplicationModel) → P m → P (add_or_update_room room m)
  pub at_current :
      (room : String) (m : ApplicationModel)
      → P m
      → P (change_room room clear_unread (record m { current_room = room }))
  pub at_removed :
      (room : String) (m : ApplicationModel)
      → allowed (Events.room_deleted room) ≡ true
      → P m
      → P (remove_room room m)
  pub at_started :
      (id name : String) (size : ℤ) (m : ApplicationModel)
      → P m
      → P (add_file_transfer id name size m)
  pub at_progress :
      (id : String) (n : ℤ) (m : ApplicationModel) → P m → P (update_file_transfer_progress id n m)
  pub at_complete : (id : String) (m : ApplicationModel) → P m → P (complete_file_transfer id m)
  pub at_failed : (id e : String) (m : ApplicationModel) → P m → P (error_file_transfer id e m)

-- A property that does not look at the transfers outlives a change of one.
module _ {ℓ} {P : ApplicationModel → Type ℓ}
    (k : (ts : Dict String FileTransfer) (m : ApplicationModel)
      → P m
      → P (record m { file_transfers = ts })) where
  change_transfer-untouched :
      (id : String) (f : FileTransfer → FileTransfer) (m : ApplicationModel)
      → P m
      → P (change_transfer id f m)
  change_transfer-untouched id f m p = elim (Option-cases (get id m.file_transfers)) [
    | inl e ↦ rw (change_transfer, e) p
    | inr (t, e) ↦ rw (change_transfer, e) (k _ m p)
  ]

  pub update_file_transfer_progress-untouched :
      (id : String) (n : ℤ) (m : ApplicationModel) → P m → P (update_file_transfer_progress id n m)
  unfolding update_file_transfer_progress
  update_file_transfer_progress-untouched id n m p = change_transfer-untouched id _ m p

  pub complete_file_transfer-untouched :
      (id : String) (m : ApplicationModel) → P m → P (complete_file_transfer id m)
  unfolding complete_file_transfer
  complete_file_transfer-untouched id m p = change_transfer-untouched id _ m p

  pub error_file_transfer-untouched :
      (id reason : String) (m : ApplicationModel) → P m → P (error_file_transfer id reason m)
  unfolding error_file_transfer
  error_file_transfer-untouched id reason m p = change_transfer-untouched id _ m p

module _ {ℓ} {allowed : Event → Bool} {P : ApplicationModel → Type ℓ} (c : Closed allowed P) where
  add_online-Closed : (us : List String) (m : ApplicationModel) → P m → P (add_online us m)
  unfolding add_or_update_user
  add_online-Closed [] m p = p
  add_online-Closed (u ∷ us) m p =
      add_online-Closed us (add_or_update_user u "ONLINE" false m) (c.at_users _ m p)

  add_friends-Closed :
      (fs : List Protocol.Friend) (m : ApplicationModel) → P m → P (add_friends fs m)
  unfolding add_or_update_friend
  add_friends-Closed [] m p = p
  add_friends-Closed (f ∷ fs) m p = add_friends-Closed fs _ (c.at_friends _ m p)

  add_rooms-Closed : (rs : List String) (m : ApplicationModel) → P m → P (add_rooms rs m)
  add_rooms-Closed [] m p = p
  add_rooms-Closed (r ∷ rs) m p = add_rooms-Closed rs _ (c.at_room r m p)

  set_current_room-Closed :
      (room : String) (g : GuiState) → P g.model → P (set_current_room room g).model
  unfolding set_current_room
  set_current_room-Closed room g p = c.at_current room g.model p

  on_message-Closed :
      (room sender message time : String) (g : GuiState)
      → P g.model
      → P (on_message room sender message time g).model
  unfolding on_message
  on_message-Closed room sender message time g p =
      elim (Bool-cases (not (is_own sender g.model) && not (room == added.current_room))) [
        | inl e ↦ rw (e) (c.at_unread room added (ground arith) q)
        | inr e ↦ rw (e) q
      ]
    where
      added : ApplicationModel
      added =
          add_message sender message time (some room) none false
            (some (if is_own sender g.model then self else normal)) g.model

      q : P added
      q =
          c.at_message sender message time (some room) none false
            (some (if is_own sender g.model then self else normal)) g.model (inr refl) p

  on_user_status-Closed :
      (user status : String) (g : GuiState) → P g.model → P (on_user_status user status g).model
  unfolding on_user_status add_or_update_user add_or_update_friend
  on_user_status-Closed user now g p = elim (Option-cases (get user g.model.friends)) [
    | inl e ↦ rw (e) (c.at_users _ g.model p)
    | inr (f, e) ↦ rw (e) (c.at_friends _ _ (c.at_users _ g.model p))
  ]

  on_online_users-Closed :
      (users : List String) (g : GuiState) → P g.model → P (on_online_users users g).model
  unfolding on_online_users
  on_online_users-Closed users g p = c.at_users _ _ (add_online-Closed users g.model p)

  on_event-Closed :
      (e : Event) (g : GuiState) → allowed e ≡ true → P g.model → P (on_event e g).model
  unfolding on_event on_session on_private_message on_system_message on_friend_list
      on_friend_request on_room_joined on_room_left on_room_deleted on_room_list on_transfer_start
      on_transfer_progress on_transfer_complete on_transfer_error on_image_or_file set_username
      add_or_update_friend
  on_event-Closed (Events.session_restored u r) g h p =
      set_current_room-Closed (if r == "" then "global" else r)
        (record g { model = record g.model { username = some u } }) (c.at_name (some u) g.model p)
  on_event-Closed (Events.message_received r s m t) g h p = on_message-Closed r s m t g p
  on_event-Closed (Events.private_message_received s m t) g h p =
      c.at_message s m t none g.model.username false (some private) g.model (inl refl) p
  on_event-Closed (Events.system_message r m) g h p =
      c.at_message "system" m "" (some r) none true none g.model (inr refl) p
  on_event-Closed (Events.online_users_updated us) g h p = on_online_users-Closed us g p
  on_event-Closed (Events.user_status_changed u s) g h p = on_user_status-Closed u s g p
  on_event-Closed (Events.friend_list_updated fs) g h p =
      add_friends-Closed fs _ (c.at_friends _ g.model p)
  on_event-Closed (Events.friend_request_received s) g h p = c.at_friends _ g.model p
  on_event-Closed (Events.room_joined r) g h p = c.at_room r g.model p
  on_event-Closed (Events.room_left r) g h p = p
  on_event-Closed (Events.room_deleted r) g h p = c.at_removed r g.model h p
  on_event-Closed (Events.room_list_updated rs) g h p = add_rooms-Closed rs g.model p
  on_event-Closed (Events.file_transfer_started i n z) g h p = c.at_started i n z g.model p
  on_event-Closed (Events.file_transfer_progress i z) g h p = c.at_progress i z g.model p
  on_event-Closed (Events.file_transfer_complete i) g h p = c.at_complete i g.model p
  on_event-Closed (Events.file_transfer_error i e) g h p = c.at_failed i e g.model p
  on_event-Closed (Events.image_received r n f) g h p = p
  on_event-Closed _ g h p = p

  set_identity-Closed :
      (name : String) (token : Option String) (g : GuiState)
      → P g.model
      → P (set_identity name token g).model
  unfolding set_identity set_username set_session_token
  set_identity-Closed name none g p = c.at_name _ g.model p
  set_identity-Closed name (some t) g p = elim (Bool-cases (t == "")) [
    | inl e ↦ rw (e) (c.at_name _ g.model p)
    | inr e ↦ rw (e) (c.at_token _ _ (c.at_name _ g.model p))
  ]

  pub always : (g : GuiState) → Known allowed g → P new_model → P g.model
  unfolding set_status record_outgoing_message record_outgoing_private
  always _ begin b = b
  always _ (event e h g k) b = on_event-Closed e g h (always g k b)
  always _ (identity n t g k) b = set_identity-Closed n t g (always g k b)
  always _ (status s g k) b = c.at_status _ g.model (always g k b)
  always _ (choose r g k) b = set_current_room-Closed r g (always g k b)
  always _ (said r s t g k) b =
      c.at_message (own_name g.model) s t (some r) none false (some self) g.model (inr refl)
        (always g k b)
  always _ (whispered r s t g k) b =
      c.at_message (own_name g.model) s t none (some r) false (some self) g.model (inl refl)
        (always g k b)
