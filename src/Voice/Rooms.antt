-- ===== src/Voice/Rooms.antt =====
-- voice/voice_room.py: who takes part in the voice of which room.
pub mod Laws
use g04_final_project_d_25_c.Prelude.{
  ℕ, zero, Bool, true, false, ◌&&◌, not, String, ◌==◌, String_eq, ℕ_eq, Option, none, some, List,
  [], ◌∷◌, length, if◌then◌else◌, is_empty,
}
use g04_final_project_d_25_c.Dict.{Dict, get, put, pop, has, keys}

pub record VoiceParticipant : Type 0 where
  pub username : String
  pub speaking : Bool
  pub muted : Bool
  pub udp_port : Option ℕ

pub record VoiceRoom : Type 0 where
  pub room_name : String
  pub participants : Dict String VoiceParticipant

unfoldable pub add_participant : String → ℕ → VoiceRoom → VoiceRoom
unfolding put
add_participant username port r = record r {
  participants =
      put username
        (record { username = username; speaking = false; muted = false; udp_port = some port })
        r.participants;
}

unfoldable pub remove_participant : String → VoiceRoom → VoiceRoom
unfolding pop
remove_participant username r = record r { participants = pop username r.participants }

abbrev pub change_participant :
    String → (VoiceParticipant → VoiceParticipant) → VoiceRoom → VoiceRoom
change_participant username f r = elim (get username r.participants) [
  | none ↦ r
  | some p ↦ record r { participants = put username (f p) r.participants }
]

unfoldable pub set_speaking : String → Bool → VoiceRoom → VoiceRoom
unfolding get put
set_speaking username b = change_participant username (λ p. record p { speaking = b })

unfoldable pub set_muted : String → Bool → VoiceRoom → VoiceRoom
unfolding get put
set_muted username b = change_participant username (λ p. record p { muted = b })

unfoldable pub get_participants : VoiceRoom → List String
unfolding keys
get_participants r = keys r.participants

unfoldable pub is_member : String → VoiceRoom → Bool
unfolding get
is_member username r = has username r.participants

unfoldable pub get_participant : String → VoiceRoom → Option VoiceParticipant
unfolding get
get_participant username r = get username r.participants

unfoldable pub participant_count : VoiceRoom → ℕ
participant_count r = length r.participants

abbrev pub speakers : Dict String VoiceParticipant → List String
speakers [] = []
speakers ((u, p) ∷ d) = if p.speaking && not p.muted then u ∷ speakers d else speakers d

unfoldable pub get_speaking_users : VoiceRoom → List String
get_speaking_users r = speakers r.participants

-- `VoiceRoomManager.rooms`
abbrev pub VoiceRooms : Type 0
VoiceRooms = Dict String VoiceRoom

abbrev pub new_room : String → VoiceRoom
new_room name = record { room_name = name; participants = [] }

unfoldable pub create_or_get_room : String → VoiceRooms → VoiceRoom × VoiceRooms
unfolding get put
create_or_get_room name rooms = elim (get name rooms) [
  | none ↦ (new_room name, put name (new_room name) rooms)
  | some r ↦ (r, rooms)
]

unfoldable pub get_room : String → VoiceRooms → Option VoiceRoom
unfolding get
get_room name rooms = get name rooms

-- The participant is added to the room object that the manager holds.
unfoldable pub add_to_room : String → String → ℕ → VoiceRooms → VoiceRooms
unfolding create_or_get_room add_participant put
add_to_room name username port rooms =
    let (r, rooms') = create_or_get_room name rooms in
    put name (add_participant username port r) rooms'

abbrev pub keep_or_delete : String → VoiceRoom → VoiceRooms → VoiceRooms
keep_or_delete name r rooms = if participant_count r == 0 then pop name rooms else put name r rooms

unfoldable pub remove_from_room : String → String → VoiceRooms → VoiceRooms
unfolding get put pop remove_participant participant_count
remove_from_room name username rooms = elim (get name rooms) [
  | none ↦ rooms
  | some r ↦ keep_or_delete name (remove_participant username r) rooms
]

unfoldable pub list_rooms : VoiceRooms → List String
unfolding keys
list_rooms rooms = keys rooms

-- The first room, in the order of their creation, that has the user.
unfoldable pub user_voice_room : String → VoiceRooms → Option String
unfolding is_member
user_voice_room username [] = none
user_voice_room username ((name, r) ∷ rooms) =
    if is_member username r then some name else user_voice_room username rooms
