-- ===== src/Server/RoomManager/Joining.antt =====
-- rooms/room_manager.py, join_room: who gets into a room that the manager holds.
use g04_final_project_d_25_c.Prelude.{
  ◌≡◌, refl, Bool, true, false, ◌&&◌, ◌||◌, not, String, String_eq, ◌==◌, Option, none, some,
  if◌then◌else◌, contains, length, reaches, is_some, arith,
}
use g04_final_project_d_25_c.Dict
use g04_final_project_d_25_c.Dict.{get-put_self}
use g04_final_project_d_25_c.Exec.{Result, ok, err, pure, modify, within, continue, ◌>>=◌, ◌>>◌}
use g04_final_project_d_25_c.Database.{Database}
use g04_final_project_d_25_c.Database.Rooms as DbRooms
use g04_final_project_d_25_c.Server.State.{Server, Room, set_db, on_db, query}
use g04_final_project_d_25_c.Server.RoomManager.{
  join_room, join_found, get_room, load_room, refusal, wrong_password, add_member, put_room,
}

abbrev pub may_enter : Room → String → Bool → Bool
may_enter r u invited = not r.invite_only || contains u r.invites || u == r.owner || invited

abbrev pub IsAdmissible : Room → String → Option String → Bool → Type 0
IsAdmissible r u given invited =
    (may_enter r u invited ≡ true)
    × (wrong_password r.password given ≡ false)
    × (reaches (length r.members) r.max_capacity ≡ false)

no_case :
    (g w f : Bool) (x y z : String)
    → (if g then some x else if w then some y else if f then some z else none) ≡ none
    → (g ≡ false) × (w ≡ false) × (f ≡ false)
no_case true w f x y z h = ground arith
no_case false true f x y z h = ground arith
no_case false false true x y z h = ground arith
no_case false false false x y z h = (refl, refl, refl)

let_in : (a b c d : Bool) → (a && not b && not c && not d) ≡ false → (not a || b || c || d) ≡ true
let_in false b c d h = refl
let_in true true c d h = refl
let_in true false true d h = refl
let_in true false false true h = refl
let_in true false false false h = ground arith

refusal-none :
    (r : Room) (n u : String) (given : Option String) (invited : Bool)
    → refusal r n u given invited ≡ none
    → IsAdmissible r u given invited
unfolding refusal
refusal-none r n u given invited h =
    let (g, w, f) =
      no_case (r.invite_only && not (contains u r.invites) && not (u == r.owner) && not invited)
        (wrong_password r.password given) (reaches (length r.members) r.max_capacity) _ _ _ h in
    (let_in r.invite_only (contains u r.invites) (u == r.owner) invited g, w, f)

-- What each outcome of `join_room` says.
abbrev pub IsJoined :
    String → String → Option String → Room → Server → Result (Option String) × Server → Type 0
IsJoined n u given r s (ok (some e), s') = s' ≡ s
IsJoined n u given r s (ok none, s') =
    (Dict.get n s'.rooms ≡ some (add_member u r))
    × IsAdmissible r u given (DbRooms.is_room_invited n u s.db)
IsJoined n u given r s (err e, s') = IsAdmissible r u given (DbRooms.is_room_invited n u s.db)

-- A room that the manager holds is asked for. Where `join_room` refuses, nothing changes. Where it
-- lets the user in, the user is a member of the room in memory, the room has had a place left, the
-- password, if the room has one, was given, and the room is not by invitation only, or the user owns
-- it or is invited. Where it raises, in the database, the same holds of the user.
pub join_room-IsJoined :
    (n u : String) (given : Option String) (r : Room) (s : Server)
    → Dict.get n s.rooms ≡ some r
    → IsJoined n u given r s (join_room n u given s)
unfolding join_room join_found get_room load_room query ◌>>=◌ on_db within
join_room-IsJoined n u given r s held =
    rw held (by_refusal (refusal r n u given (DbRooms.is_room_invited n u s.db)) refl)
  where
    by_database :
        (o : Result (Unit {0}) × Database)
        → IsAdmissible r u given (DbRooms.is_room_invited n u s.db)
        → IsJoined n u given r s
            (continue o.0 (set_db o.1 (put_room n (add_member u r) s)) (λ x. pure none))
    by_database (ok x, d) a = (get-put_self n (add_member u r) s.rooms, a)
    by_database (err e, d) a = a

    by_refusal :
        (o : Option String)
        → refusal r n u given (DbRooms.is_room_invited n u s.db) ≡ o
        → IsJoined n u given r s (
            (if is_some o then pure o else do
              modify (put_room n (add_member u r))
              on_db (DbRooms.add_room_member n u)
              pure none)
              s)
    by_refusal (some e) h = refl
    by_refusal none h =
        by_database (DbRooms.add_room_member n u s.db) (refusal-none r n u given _ h)
