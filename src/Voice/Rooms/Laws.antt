-- ===== src/Voice/Rooms/Laws.antt =====
-- voice/voice_room.py: the rooms that the manager holds are never empty, and a participant who leaves
-- is gone.
use g04_final_project_d_25_c.Prelude.{
  ℕ, ◌<◌, ◌≡◌, ◌∙◌, sym, subst, Bool, true, false, String, String_eq, ◌==◌, ℕ_eq, Option, none,
  some, [], ◌∷◌, length, if◌then◌else◌, arith, Bool-cases, Option-cases, inl, inr,
}
use g04_final_project_d_25_c.Dict.{Dict, get, put, pop, get-put, get-pop, put-put}
use g04_final_project_d_25_c.Voice.Rooms.{
  VoiceRoom, VoiceRooms, add_participant, remove_participant, add_to_room, remove_from_room,
  create_or_get_room, new_room, keep_or_delete, participant_count,
}

-- Every room that is held has a participant.
abbrev pub NoneEmpty : VoiceRooms → Type 0
NoneEmpty rooms =
    (name : String) (r : VoiceRoom) → get name rooms ≡ some r → 0 < length r.participants

some_of : {A : Type 0} (P : A → Type 0) (a b : A) → some a ≡ some b → P a → P b
some_of P a b e h = subst (λ o. elim o [ none ↦ P a | some c ↦ P c ]) e h

chosen :
    (b : Bool) (r x : VoiceRoom) (o : Option VoiceRoom)
    → 0 < length r.participants
    → (o ≡ some x → 0 < length x.participants)
    → (if b then some r else o) ≡ some x
    → 0 < length x.participants
chosen true r x o h k e = some_of (λ c. 0 < length c.participants) r x e h
chosen false r x o h k e = k e

pub put-NoneEmpty :
    (name : String) (r : VoiceRoom) (rooms : VoiceRooms)
    → 0 < length r.participants
    → NoneEmpty rooms
    → NoneEmpty (put name r rooms)
put-NoneEmpty name r rooms h k other x e =
    chosen (name == other) r x (get other rooms) h (k other x)
      (sym (get-put name other r rooms) ∙ e)

left :
    (b : Bool) (x : VoiceRoom) (o : Option VoiceRoom)
    → (if b then none else o) ≡ some x
    → o ≡ some x
left true x o e = ground arith
left false x o e = e

pop-NoneEmpty : (name : String) (rooms : VoiceRooms) → NoneEmpty rooms → NoneEmpty (pop name rooms)
pop-NoneEmpty name rooms k other x e =
    k other x (left (name == other) x (get other rooms) (sym (get-pop name other rooms) ∙ e))

pub put_some : {V : Type 0} (k : String) (v : V) (d : Dict String V) → 0 < length (put k v d)
unfolding put
put_some k v [] = omega arith
put_some k v ((j, w) ∷ d) = elim (Bool-cases (j == k)) [
  | inl e ↦ rw e (omega arith)
  | inr e ↦ rw e (omega arith)
]

add_participant-some :
    (u : String) (port : ℕ) (r : VoiceRoom) → 0 < length (add_participant u port r).participants
unfolding add_participant
add_participant-some u port r = put_some u _ r.participants

keep_or_delete-NoneEmpty :
    (name : String) (r : VoiceRoom) (rooms : VoiceRooms)
    → NoneEmpty rooms
    → NoneEmpty (keep_or_delete name r rooms)
unfolding participant_count
keep_or_delete-NoneEmpty name r rooms k = elim (Bool-cases (length r.participants == 0)) [
  | inl e ↦ rw e (pop-NoneEmpty name rooms k)
  | inr e ↦ rw e (put-NoneEmpty name r rooms (ground arith) k)
]

pub add_to_room-NoneEmpty :
    (name u : String) (port : ℕ) (rooms : VoiceRooms)
    → NoneEmpty rooms
    → NoneEmpty (add_to_room name u port rooms)
unfolding add_to_room create_or_get_room
add_to_room-NoneEmpty name u port rooms k = elim (Option-cases (get name rooms)) [
  | inl e ↦
      rw
        (
          e,
          create_or_get_room,
          put-put name (add_participant u port (new_room name)) (new_room name) rooms,
        )
        (put-NoneEmpty name (add_participant u port (new_room name)) rooms
          (add_participant-some u port (new_room name)) k)
  | inr (r, e) ↦
      rw (e, create_or_get_room)
        (put-NoneEmpty name (add_participant u port r) rooms (add_participant-some u port r) k)
]

pub remove_from_room-NoneEmpty :
    (name u : String) (rooms : VoiceRooms)
    → NoneEmpty rooms
    → NoneEmpty (remove_from_room name u rooms)
unfolding remove_from_room
remove_from_room-NoneEmpty name u rooms k = elim (Option-cases (get name rooms)) [
  | inl e ↦ rw (e, remove_from_room) k
  | inr (r, e) ↦
      rw (e, remove_from_room) (keep_or_delete-NoneEmpty name (remove_participant u r) rooms k)
]
