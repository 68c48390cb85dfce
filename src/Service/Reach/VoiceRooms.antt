-- ===== src/Service/Reach/VoiceRooms.antt =====
-- The voice rooms, in every state that the server gets into.
use g04_final_project_d_25_c.Prelude.{
  ℕ, ◌<◌, ◌≡◌, Bool, false, refl, ◌==◌, ℕ_eq, Option-cases, inl, inr, String, String_eq, none, some,
  length, arith,
}
use g04_final_project_d_25_c.Dict.{get}
use g04_final_project_d_25_c.Voice.Rooms as V
use g04_final_project_d_25_c.Voice.Rooms.{
  VoiceRoom, participant_count, set_muted, set_speaking, change_participant, add_to_room,
  remove_from_room,
}
use g04_final_project_d_25_c.Voice.Rooms.Laws.{
  NoneEmpty, put_some, put-NoneEmpty, add_to_room-NoneEmpty, remove_from_room-NoneEmpty,
}
use g04_final_project_d_25_c.Server.{Server}
use g04_final_project_d_25_c.Server.Matchmaker.{leave_queue}
use g04_final_project_d_25_c.Service.Voices.{change_room}
use g04_final_project_d_25_c.Service.Closed.OfFields
use g04_final_project_d_25_c.Service.Closed.OfFields.{ClosedFields}
use g04_final_project_d_25_c.Service.Reach.{Reach, always}

-- A change of a participant's flags adds and removes nobody.
change_participant-some :
    (u : String) (f : V.VoiceParticipant → V.VoiceParticipant) (r : VoiceRoom)
    → 0 < length r.participants
    → 0 < length (change_participant u f r).participants
change_participant-some u f r h = elim (Option-cases (get u r.participants)) [
  | inl e ↦ rw (e, change_participant) h
  | inr (p, e) ↦ rw (e, change_participant) (put_some u (f p) r.participants)
]

change_room-NoneEmpty :
    (name : String) (f : VoiceRoom → VoiceRoom) (rooms : V.VoiceRooms)
    → ((r : VoiceRoom) → 0 < length r.participants → 0 < length (f r).participants)
    → NoneEmpty rooms
    → NoneEmpty (change_room name f rooms)
change_room-NoneEmpty name f rooms g h = elim (Option-cases (get name rooms)) [
  | inl e ↦ rw (e, change_room) h
  | inr (r, e) ↦ rw (e, change_room) (put-NoneEmpty name (f r) rooms (g r (h name r e)) h)
]

muted-NoneEmpty :
    (n u : String) (b : Bool) (rooms : V.VoiceRooms)
    → NoneEmpty rooms
    → NoneEmpty (change_room n (set_muted u b) rooms)
unfolding set_muted
muted-NoneEmpty n u b rooms h =
    change_room-NoneEmpty n (set_muted u b) rooms
      (λ r k. change_participant-some u (λ p. record p { muted = b }) r k) h

speaking-NoneEmpty :
    (n u : String) (b : Bool) (rooms : V.VoiceRooms)
    → NoneEmpty rooms
    → NoneEmpty (change_room n (set_speaking u b) rooms)
unfolding set_speaking
speaking-NoneEmpty n u b rooms h =
    change_room-NoneEmpty n (set_speaking u b) rooms
      (λ r k. change_participant-some u (λ p. record p { speaking = b }) r k) h

abbrev NoGhostRooms : Server → Type 0
NoGhostRooms s = NoneEmpty s.voice_rooms

fields : ClosedFields NoGhostRooms
unfolding leave_queue
fields = record {
  at_db = λ d s h. h;
  at_sent = λ x s h. h;
  at_clients = λ x s h. h;
  at_status = λ x s h. h;
  at_rooms = λ x s h. h;
  at_sessions = λ x s h. h;
  at_user_rooms = λ x s h. h;
  at_files = λ x s h. h;
  at_writable = λ x s h. h;
  at_voice_join = λ n u k s h. add_to_room-NoneEmpty n u k s.voice_rooms h;
  at_voice_leave = λ n u s h. remove_from_room-NoneEmpty n u s.voice_rooms h;
  at_muted = λ n u b s h. muted-NoneEmpty n u b s.voice_rooms h;
  at_speaking = λ n u b s h. speaking-NoneEmpty n u b s.voice_rooms h;
  at_match = λ u s h. h;
  at_leave_queue = λ u s h. h;
  at_begin = λ t f n d s h. h;
  at_chunk = λ t i b s h. h;
  at_complete = λ t s h. h;
  at_cancel = λ t s h. h;
}

-- A room is held under the name, and nobody is in it.
abbrev pub is_deserted : String → V.VoiceRooms → Bool
is_deserted name rooms = elim (get name rooms) [ none ↦ false | some r ↦ participant_count r == 0 ]

not_deserted :
    (name : String) (rooms : V.VoiceRooms) → NoneEmpty rooms → is_deserted name rooms ≡ false
unfolding participant_count
not_deserted name rooms h = elim (Option-cases (get name rooms)) [
  | inl e ↦ rw (e, is_deserted) refl
  | inr (r, e) ↦ rw (e, is_deserted) (not_zero (length r.participants) (h name r e))
]
  where
    not_zero : (n : ℕ) → 0 < n → (n == 0) ≡ false
    not_zero n k = ground arith

-- In every state that the server can get into, no voice room is held that nobody is in.
pub voice_rooms_peopled :
    (s : Server) (name : String) → Reach s → is_deserted name s.voice_rooms ≡ false
unfolding get
voice_rooms_peopled s name reached =
    not_deserted name s.voice_rooms
      (always (OfFields.writes fields) (λ n t s h. h) (λ n t name r e. ground arith) s reached)
