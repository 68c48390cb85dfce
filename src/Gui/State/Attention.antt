-- ===== src/Gui/State/Attention.antt =====
-- The room that the user looks at.
use g04_final_project_d_25_c.Prelude.{
  ℕ, Bool, true, false, String, Option, none, some, ◌≡◌, refl, ◌∙◌, ◌==◌, String_eq, Bool-cases,
  Option-cases, ◌⊎◌, inl, inr, ap, eq_iff, is_some, or_else, [], ◌∷◌, ◌++◌,
}
use g04_final_project_d_25_c.Dict.{Dict, get, put, pop, get-put, get-put_self, get-pop}
use g04_final_project_d_25_c.Gui.Model.{
  Room, MessageKind, increment_unread, clear_unread, append_message,
}
use g04_final_project_d_25_c.Gui.Application.{
  ApplicationModel, change_room, add_or_update_room, remove_room, add_message, target_room,
  room_or_new, new_message, default_kind, add_file_transfer,
}
use g04_final_project_d_25_c.Gui.State.{GuiState}
use g04_final_project_d_25_c.Gui.State.Reach.{
  Known, Closed, any_event, always, update_file_transfer_progress-untouched,
  complete_file_transfer-untouched, error_file_transfer-untouched,
}

-- The messages of a room that the user has not seen.
abbrev pub unread_in : Option Room → ℕ
unread_in none = 0
unread_in (some r) = r.unread_count

abbrev pub unread_of : String → ApplicationModel → ℕ
unread_of room m = unread_in (get room m.rooms)

abbrev pub IsAttended : ApplicationModel → Type 0
IsAttended m = unread_of m.current_room m ≡ 0

room_or_new-unread_of :
    (room : String) (m : ApplicationModel)
    → (room_or_new room m.rooms).unread_count ≡ unread_of room m
room_or_new-unread_of room m = elim (Option-cases (get room m.rooms)) [
  | inl e ↦ rw (e) refl
  | inr (r, e) ↦ rw (e) refl
]

-- A change that counts nothing as unread, of any room.
change_room-IsAttended :
    (f : Room → Room)
    → ((r : Room) → (f r).unread_count ≡ r.unread_count)
    → (room : String) (m : ApplicationModel) → IsAttended m
    → IsAttended (change_room room f m)
unfolding change_room
change_room-IsAttended f h room m p = elim (Bool-cases (room == m.current_room)) [
  | inl same ↦
      rw (get-put room m.current_room (f (room_or_new room m.rooms)) m.rooms, same)
        (h _
          ∙ room_or_new-unread_of room m
          ∙ ap (λ x. unread_of x m) ((eq_iff room m.current_room).0 same)
          ∙ p)
  | inr other ↦ rw (get-put room m.current_room (f (room_or_new room m.rooms)) m.rooms, other) p
]

add_message-IsAttended :
    (sender content time : String) (room target : Option String) (b : Bool) (k : Option MessageKind)
    (m : ApplicationModel)
    → (room ≡ none) ⊎ (target ≡ none)
    → IsAttended m
    → IsAttended (add_message sender content time room target b k m)
unfolding add_message append_message
add_message-IsAttended sender content time room target b k m one p =
    elim (Bool-cases (target_room room target m == "")) [
      | inl e ↦ rw (e) p
      | inr e ↦ rw (e) (
          change_room-IsAttended
            (append_message (
              new_message sender content time room target
                (or_else k (default_kind sender target b m)) m))
            (λ r. refl) (target_room room target m)
            (record m {
              messages =
                  m.messages
                  ++ new_message sender content time room target
                      (or_else k (default_kind sender target b m)) m
                    ∷ [];
            })
            p)
    ]

increment_unread-IsAttended :
    (room : String) (m : ApplicationModel)
    → (room == m.current_room) ≡ false
    → IsAttended m
    → IsAttended (change_room room increment_unread m)
unfolding change_room
increment_unread-IsAttended room m h p =
    rw (get-put room m.current_room (increment_unread (room_or_new room m.rooms)) m.rooms, h) p

clear_unread-IsAttended :
    (room : String) (m : ApplicationModel)
    → IsAttended (change_room room clear_unread (record m { current_room = room }))
unfolding change_room clear_unread
clear_unread-IsAttended room m =
    rw (get-put_self room (clear_unread (room_or_new room m.rooms)) m.rooms) refl

remove_room-IsAttended :
    (room : String) (m : ApplicationModel) → IsAttended m → IsAttended (remove_room room m)
unfolding remove_room
remove_room-IsAttended room m p = elim (Bool-cases (room == "global")) [
  | inl e ↦ rw (e) p
  | inr e ↦ rw (e) (drop (Bool-cases (room == m.current_room)))
]
  where
    drop :
        ((room == m.current_room) ≡ true) ⊎ ((room == m.current_room) ≡ false)
        → unread_in (get m.current_room (pop room m.rooms)) ≡ 0
    drop (inl same) = rw (get-pop room m.current_room m.rooms, same) refl
    drop (inr other) = rw (get-pop room m.current_room m.rooms, other) p

IsAttended-Closed : Closed any_event IsAttended
unfolding add_or_update_room add_file_transfer
IsAttended-Closed = record {
  at_name = λ n m p. p;
  at_token = λ t m p. p;
  at_status = λ s m p. p;
  at_users = λ u m p. p;
  at_friends = λ f m p. p;
  at_message = add_message-IsAttended;
  at_unread = increment_unread-IsAttended;
  at_room = λ r m p. change_room-IsAttended (λ r. r) (λ r. refl) r m p;
  at_current = λ r m p. clear_unread-IsAttended r m;
  at_removed = λ r m h p. remove_room-IsAttended r m p;
  at_started = λ i n z m p. p;
  at_progress = update_file_transfer_progress-untouched (λ ts m p. p);
  at_complete = complete_file_transfer-untouched (λ ts m p. p);
  at_failed = error_file_transfer-untouched (λ ts m p. p);
}

-- The room that the user looks at never has unread messages, whatever events come and whatever the
-- windows call, in any order.
pub nothing_unread_here :
    (g : GuiState) → Known any_event g → unread_of g.model.current_room g.model ≡ 0
unfolding get
nothing_unread_here g k = always IsAttended-Closed g k refl

-- The global room is known.
abbrev pub HasGlobal : ApplicationModel → Type 0
HasGlobal m = is_some (get "global" m.rooms) ≡ true

put-is_some :
    (room : String) (r : Room) (rooms : Dict String Room)
    → is_some (get "global" rooms) ≡ true
    → is_some (get "global" (put room r rooms)) ≡ true
put-is_some room r rooms p = elim (Bool-cases (room == "global")) [
  | inl e ↦ rw (get-put room "global" r rooms, e) refl
  | inr e ↦ rw (get-put room "global" r rooms, e) p
]

add_message-HasGlobal :
    (sender content time : String) (room target : Option String) (b : Bool) (k : Option MessageKind)
    (m : ApplicationModel)
    → (room ≡ none) ⊎ (target ≡ none)
    → HasGlobal m
    → HasGlobal (add_message sender content time room target b k m)
unfolding add_message change_room
add_message-HasGlobal sender content time room target b k m one p =
    elim (Bool-cases (target_room room target m == "")) [
      | inl e ↦ rw (e) p
      | inr e ↦ rw (e) (put-is_some (target_room room target m) _ m.rooms p)
    ]

remove_room-HasGlobal :
    (room : String) (m : ApplicationModel) → HasGlobal m → HasGlobal (remove_room room m)
unfolding remove_room
remove_room-HasGlobal room m p = elim (Bool-cases (room == "global")) [
  | inl e ↦ rw (e) p
  | inr e ↦ rw (e, get-pop room "global" m.rooms, e) p
]

HasGlobal-Closed : Closed any_event HasGlobal
unfolding add_or_update_room add_file_transfer change_room
HasGlobal-Closed = record {
  at_name = λ n m p. p;
  at_token = λ t m p. p;
  at_status = λ s m p. p;
  at_users = λ u m p. p;
  at_friends = λ f m p. p;
  at_message = add_message-HasGlobal;
  at_unread = λ r m h p. put-is_some r _ m.rooms p;
  at_room = λ r m p. put-is_some r _ m.rooms p;
  at_current = λ r m p. put-is_some r _ m.rooms p;
  at_removed = λ r m h p. remove_room-HasGlobal r m p;
  at_started = λ i n z m p. p;
  at_progress = update_file_transfer_progress-untouched (λ ts m p. p);
  at_complete = complete_file_transfer-untouched (λ ts m p. p);
  at_failed = error_file_transfer-untouched (λ ts m p. p);
}

-- The global room is always known: no event and no call of the windows takes it away.
pub global_stays : (g : GuiState) → Known any_event g → is_some (get "global" g.model.rooms) ≡ true
unfolding get
global_stays g k = always HasGlobal-Closed g k refl
