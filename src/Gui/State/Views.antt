-- ===== src/Gui/State/Views.antt =====
-- The messages that a room shows.
use g04_final_project_d_25_c.Prelude.{
  Bool, true, false, ◌&&◌, not, String, Option, none, some, List, [], ◌∷◌, ◌++◌, ◌≡◌, refl, sym, ap,
  ◌∙◌, ◌==◌, String_eq, eq_iff, Bool-cases, Option-cases, ◌⊎◌, inl, inr, arith, keep_if,
  if◌then◌else◌, or_else,
}
use g04_final_project_d_25_c.Dict.{Dict, get, put, get-put}
use g04_final_project_d_25_c.Gui.Events
use g04_final_project_d_25_c.Gui.Events.{Event}
use g04_final_project_d_25_c.Gui.Model.{
  Room, Message, MessageKind, increment_unread, clear_unread, append_message,
}
use g04_final_project_d_25_c.Gui.Application.{
  ApplicationModel, new_model, change_room, add_or_update_room, add_message, target_room,
  room_or_new, new_message, default_kind, is_blank, is_in, add_file_transfer,
}
use g04_final_project_d_25_c.Gui.State.{GuiState}
use g04_final_project_d_25_c.Gui.State.Reach.{
  Known, Closed, always, update_file_transfer_progress-untouched, complete_file_transfer-untouched,
  error_file_transfer-untouched,
}

-- Every event but the deletion of a room.
abbrev pub keeps_rooms : Event → Bool
keeps_rooms (Events.room_deleted room) = false
keeps_rooms _ = true

abbrev pub messages_in : Option Room → List Message
messages_in none = []
messages_in (some r) = r.messages

-- A message belongs to the room that it names, unless it is for one user.
abbrev pub is_shown : String → Message → Bool
is_shown room message = not (room == "") && (is_in room message && is_blank message.target_user)

abbrev pub ShowsAll : ApplicationModel → Type 0
ShowsAll m = (room : String) → messages_in (get room m.rooms) ≡ keep_if (is_shown room) m.messages

keep_if-snoc :
    (p : Message → Bool) (xs : List Message) (x : Message)
    → keep_if p (xs ++ x ∷ []) ≡ keep_if p xs ++ (if p x then x ∷ [] else [])
keep_if-snoc p [] x = refl
keep_if-snoc p (y ∷ xs) x = elim (Bool-cases (p y)) [
  | inl e ↦ rw (e) (ap (λ l. y ∷ l) (keep_if-snoc p xs x))
  | inr e ↦ rw (e) (keep_if-snoc p xs x)
]

append_empty : (xs : List Message) → xs ++ [] ≡ xs
append_empty [] = refl
append_empty (x ∷ xs) = ap (λ l. x ∷ l) (append_empty xs)

messages-room_or_new :
    (room : String) (rooms : Dict String Room)
    → (room_or_new room rooms).messages ≡ messages_in (get room rooms)
messages-room_or_new room rooms = elim (Option-cases (get room rooms)) [
  | inl e ↦ rw (room_or_new, e) refl
  | inr (r, e) ↦ rw (room_or_new, e) refl
]

-- A change that leaves the messages alone, of any room.
put-messages :
    (f : Room → Room)
    → ((r : Room) → (f r).messages ≡ r.messages)
    → (room name : String) (rooms : Dict String Room)
    → messages_in (get name (put room (f (room_or_new room rooms)) rooms))
      ≡ messages_in (get name rooms)
put-messages f h room name rooms = elim (Bool-cases (room == name)) [
  | inl same ↦
      rw (get-put room name (f (room_or_new room rooms)) rooms, same)
        (h _
          ∙ messages-room_or_new room rooms
          ∙ ap (λ x. messages_in (get x rooms)) ((eq_iff room name).0 same))
  | inr other ↦ rw (get-put room name (f (room_or_new room rooms)) rooms, other) refl
]

append-messages :
    (message : Message) (room name : String) (rooms : Dict String Room)
    → messages_in (get name (put room (append_message message (room_or_new room rooms)) rooms))
      ≡ messages_in (get name rooms) ++ (if room == name then message ∷ [] else [])
unfolding append_message
append-messages message room name rooms = elim (Bool-cases (room == name)) [
  | inl same ↦
      rw (get-put room name (append_message message (room_or_new room rooms)) rooms, same)
        (ap (λ l. l ++ message ∷ [])
          (messages-room_or_new room rooms
            ∙ ap (λ x. messages_in (get x rooms)) ((eq_iff room name).0 same)))
  | inr other ↦
      rw (get-put room name (append_message message (room_or_new room rooms)) rooms, other)
        (sym (append_empty (messages_in (get name rooms))))
]

-- The room that a message goes to is the one that shows it.
is_shown-new_message :
    (name sender content time : String) (room target : Option String) (k : MessageKind)
    (m : ApplicationModel)
    → (room ≡ none) ⊎ (target ≡ none)
    → is_shown name (new_message sender content time room target k m)
      ≡ (not (target_room room target m == "") && (target_room room target m == name))
unfolding target_room
is_shown-new_message name sender content time none none k m one =
    ground (arith, eq_iff m.current_room name, eq_iff name "", eq_iff m.current_room "")
is_shown-new_message name sender content time none (some t) k m one = elim (Bool-cases (t == "")) [
  | inl e ↦
      rw (e) (ground (arith, eq_iff m.current_room name, eq_iff name "", eq_iff m.current_room ""))
  | inr e ↦ rw (e) (ground (arith, eq_iff m.current_room name, eq_iff name ""))
]
is_shown-new_message name sender content time (some r) none k m one = elim (Bool-cases (r == "")) [
  | inl e ↦
      rw (e) (ground (arith, eq_iff m.current_room name, eq_iff name "", eq_iff m.current_room ""))
  | inr e ↦ rw (e) (ground (arith, eq_iff r name, eq_iff name "", eq_iff r ""))
]
is_shown-new_message name sender content time (some r) (some t) k m (inl e) = ground arith
is_shown-new_message name sender content time (some r) (some t) k m (inr e) = ground arith

add_message-ShowsAll :
    (sender content time : String) (room target : Option String) (b : Bool) (k : Option MessageKind)
    (m : ApplicationModel)
    → (room ≡ none) ⊎ (target ≡ none)
    → ShowsAll m
    → ShowsAll (add_message sender content time room target b k m)
unfolding add_message change_room
add_message-ShowsAll sender content time room target b k m one p name =
    elim (Bool-cases (t == "")) [
      | inl e ↦ rw (e) (
          p name
          ∙ sym (
              keep_if-snoc (is_shown name) m.messages message
              ∙ rw (is_shown-new_message name sender content time room target kind m one, e)
                  (append_empty _)))
      | inr e ↦ rw (e) (
          append-messages message t name m.rooms
          ∙ ap (λ l. l ++ (if t == name then message ∷ [] else [])) (p name)
          ∙ sym (
              keep_if-snoc (is_shown name) m.messages message
              ∙ rw (is_shown-new_message name sender content time room target kind m one, e) refl))
    ]
  where
    t : String
    t = target_room room target m

    kind : MessageKind
    kind = or_else k (default_kind sender target b m)

    message : Message
    message = new_message sender content time room target kind m

ShowsAll-Closed : Closed keeps_rooms ShowsAll
unfolding add_or_update_room add_file_transfer change_room increment_unread clear_unread
ShowsAll-Closed = record {
  at_name = λ n m p. p;
  at_token = λ t m p. p;
  at_status = λ s m p. p;
  at_users = λ u m p. p;
  at_friends = λ f m p. p;
  at_message = add_message-ShowsAll;
  at_unread = λ r m h p name. put-messages increment_unread (λ x. refl) r name m.rooms ∙ p name;
  at_room = λ r m p name. put-messages (λ x. x) (λ x. refl) r name m.rooms ∙ p name;
  at_current = λ r m p name. put-messages clear_unread (λ x. refl) r name m.rooms ∙ p name;
  at_removed = λ r m h p. ground arith;
  at_started = λ i n z m p. p;
  at_progress = update_file_transfer_progress-untouched (λ ts m p. p);
  at_complete = complete_file_transfer-untouched (λ ts m p. p);
  at_failed = error_file_transfer-untouched (λ ts m p. p);
}

-- As long as no room is deleted, each room shows exactly the messages of the log that name it and are
-- for no single user, in the order of the log, and a room that is not known has none there; the room
-- with the empty name shows nothing.
pub rooms_show_log :
    (g : GuiState)
    → Known keeps_rooms g
    → (room : String)
    → messages_in (get room g.model.rooms) ≡ keep_if (is_shown room) g.model.messages
unfolding get
rooms_show_log g k = always ShowsAll-Closed g k start
  where
    start : ShowsAll new_model
    start room = ground arith
