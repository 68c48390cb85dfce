-- ===== src/Service/Closed/Writes.antt =====
-- The writes of the handlers beside those of the managers, and the shared helpers of the service.
use g04_final_project_d_25_c.Prelude.{
  Bytes, ℕ, Bool, true, false, String, String_eq, ◌==◌, Option, none, some, List, [], ◌∷◌, ◌++◌,
  if◌then◌else◌,
}
use g04_final_project_d_25_c.Dict
use g04_final_project_d_25_c.Dict.{Dict}
use g04_final_project_d_25_c.Exec.{
  Result, ok, err, Exec, Keeps, Keeps-modify, Keeps-gets, Keeps-pure, Keeps-raise, Keeps-bind,
  Keeps-if, keeps_rules, modify, pure, raise,
}
use g04_final_project_d_25_c.Database.Users.{set_user_password}
use g04_final_project_d_25_c.Database.Messages as DbMessages
use g04_final_project_d_25_c.Database.Transfers as DbTransfers
use g04_final_project_d_25_c.Database.Broadcasts as DbBroadcasts
use g04_final_project_d_25_c.Protocol.{PacketType, Field}
use g04_final_project_d_25_c.Chunking
use g04_final_project_d_25_c.Voice.Rooms.{add_to_room, remove_from_room, set_muted, set_speaking}
use g04_final_project_d_25_c.Server.{Server, on_db, update_db}
use g04_final_project_d_25_c.Server.Matchmaker.{take_match, leave_queue}
use g04_final_project_d_25_c.Server.Closed
use g04_final_project_d_25_c.Server.Closed.{Closed}
use g04_final_project_d_25_c.Service.{
  set_user_room, lift, send_packet, send_system, send_error, broadcast_room_message,
  broadcast_system, broadcast_online_users, send_online_users, leave_as_member, leave_room,
  raise_if, join_room,
}
use g04_final_project_d_25_c.Service.Files.{set_chunks}
use g04_final_project_d_25_c.Service.Voices.{change_voice, change_room}

pub record ClosedWrites {ℓ} (P : Server → Type ℓ) : Type ℓ where
  pub base : Closed P
  pub at_user_rooms : (x : Dict String String) (s : Server) → P s → P (record s { user_rooms = x })
  pub at_files : (x : Dict String Bytes) (s : Server) → P s → P (record s { files = x })
  pub at_writable : (x : ℕ → Bool) (s : Server) → P s → P (record s { writable = x })
  pub at_voice_join :
      (n u : String) (k : ℕ) (s : Server)
      → P s
      → P (record s { voice_rooms = add_to_room n u k s.voice_rooms })
  pub at_voice_leave :
      (n u : String) (s : Server)
      → P s
      → P (record s { voice_rooms = remove_from_room n u s.voice_rooms })
  pub at_muted :
      (n u : String) (b : Bool) (s : Server)
      → P s
      → P (record s { voice_rooms = change_room n (set_muted u b) s.voice_rooms })
  pub at_speaking :
      (n u : String) (b : Bool) (s : Server)
      → P s
      → P (record s { voice_rooms = change_room n (set_speaking u b) s.voice_rooms })
  pub at_match :
      (u : String) (s : Server) → P s → P (record s { queue = (take_match (s.queue ++ u ∷ [])).1 })
  pub at_leave_queue : (u : String) (s : Server) → P s → P (leave_queue u s)
  pub at_begin :
      (t f : String) (n : Option ℕ) (d : Dict String String) (s : Server)
      → P s
      → P (set_chunks (Chunking.begin_transfer t f n d s.chunks) s)
  pub at_chunk :
      (t : String) (i : ℕ) (b : Bytes) (s : Server)
      → P s
      → P (set_chunks (Chunking.add_chunk t i b s.chunks) s)
  pub at_complete :
      (t : String) (s : Server) → P s → P (set_chunks (Chunking.complete_transfer t s.chunks).1 s)
  pub at_cancel :
      (t : String) (s : Server) → P s → P (set_chunks (Chunking.cancel_transfer t s.chunks) s)
  pub at_password : (u h : String) → Keeps P (on_db (set_user_password u h))
  pub at_message :
      (a b k : String) (r t : Option String) → Keeps P (on_db (DbMessages.save_message a b k r t))
  pub at_transfer :
      (t u : String) (r v : Option String) (f : String) (n : ℕ) (p k w : String)
      → Keeps P (on_db (DbTransfers.save_file_transfer t u r v f n p k w))
  pub at_schedule :
      (r m t u : String) → Keeps P (on_db (DbBroadcasts.create_scheduled_broadcast r m t u))
  pub at_mark : (i : ℕ) → Keeps P (update_db (DbBroadcasts.mark_broadcast_sent i))

module _ {ℓ} {P : Server → Type ℓ} (w : ClosedWrites P) where
  open w use {base, at_user_rooms, at_voice_join, at_voice_leave, at_muted, at_speaking}

  pub lift-Keeps {κ} : {A : Type κ} (r : Result A) → Keeps P (lift r)
  unfolding lift
  lift-Keeps (ok a) = Keeps-pure a
  lift-Keeps (err e) = Keeps-raise e

  pub set_user_room-Keeps : (u r : String) → Keeps P (modify (set_user_room u r))
  set_user_room-Keeps u r = Keeps-modify _ (λ s h. at_user_rooms _ s h)

  pub voice_join-Keeps :
      (n u : String) (k : ℕ) → Keeps P (modify (change_voice (add_to_room n u k)))
  unfolding change_voice
  voice_join-Keeps n u k = Keeps-modify _ (λ s h. at_voice_join n u k s h)

  pub voice_leave-Keeps : (n u : String) → Keeps P (modify (change_voice (remove_from_room n u)))
  unfolding change_voice
  voice_leave-Keeps n u = Keeps-modify _ (λ s h. at_voice_leave n u s h)

  pub muted-Keeps :
      (n u : String) (b : Bool) → Keeps P (modify (change_voice (change_room n (set_muted u b))))
  unfolding change_voice
  muted-Keeps n u b = Keeps-modify _ (λ s h. at_muted n u b s h)

  pub speaking-Keeps :
      (n u : String) (b : Bool) → Keeps P (modify (change_voice (change_room n (set_speaking u b))))
  unfolding change_voice
  speaking-Keeps n u b = Keeps-modify _ (λ s h. at_speaking n u b s h)

  pub raise_if-Keeps : (o : Option String) → Keeps P (raise_if o)
  raise_if-Keeps none = Keeps-pure _
  raise_if-Keeps (some e) = Keeps-raise _

  pub send_packet-Keeps :
      (u : String) (k : PacketType) (d : Dict String Field) → Keeps P (send_packet u k d)
  unfolding send_packet
  send_packet-Keeps u k d = search (keeps_rules, Closed.send-Keeps base) depth 10

  pub send_system-Keeps : (u : String) (l : List String) (r : String) → Keeps P (send_system u l r)
  unfolding send_system
  send_system-Keeps u l r = send_packet-Keeps u _ _

  pub send_error-Keeps : (u t : String) → Keeps P (send_error u t)
  unfolding send_error
  send_error-Keeps u t = send_packet-Keeps u _ _

  pub broadcast_room_message-Keeps : (r a t : String) → Keeps P (broadcast_room_message r a t)
  unfolding broadcast_room_message
  broadcast_room_message-Keeps r a t =
      search (keeps_rules, Closed.get_members-Keeps base, Closed.broadcast-Keeps base) depth 8

  pub broadcast_system-Keeps : (l : List String) (r : String) → Keeps P (broadcast_system l r)
  unfolding broadcast_system
  broadcast_system-Keeps l r =
      search (keeps_rules, Closed.get_members-Keeps base, Closed.broadcast-Keeps base) depth 8

  pub broadcast_online_users-Keeps : Keeps P broadcast_online_users
  unfolding broadcast_online_users
  broadcast_online_users-Keeps = search (keeps_rules, Closed.broadcast-Keeps base) depth 8

  pub send_online_users-Keeps : (u : String) → Keeps P (send_online_users u)
  unfolding send_online_users
  send_online_users-Keeps u =
      search (keeps_rules, broadcast_online_users-Keeps, send_packet-Keeps) depth 8

  pub if_kept : (b : Bool) (s t : Server) → P s → P t → P (if b then s else t)
  if_kept true s t h k = h
  if_kept false s t h k = k

  forgotten :
      (u r : String) (o : Option String) (s : Server)
      → P s
      → P (elim o [
        | none ↦ s
        | some current ↦ if current == r then set_user_room u "global" s else s
      ])
  forgotten u r none s h = h
  forgotten u r (some c) s h = if_kept (c == r) _ s (at_user_rooms _ s h) h

  forget_room-Keeps :
      (u r : String)
      → Keeps P (
          modify (λ s. elim (Dict.get u s.user_rooms) [
            | none ↦ s
            | some current ↦ if current == r then set_user_room u "global" s else s
          ]))
  forget_room-Keeps u r = Keeps-modify _ (λ s h. forgotten u r (Dict.get u s.user_rooms) s h)

  leave_as_member-Keeps : (u r : String) (b : Bool) → Keeps P (leave_as_member u r b)
  unfolding leave_as_member
  leave_as_member-Keeps u r b =
      search
        (
          keeps_rules,
          Closed.leave_room-Keeps base,
          base.at_no_member,
          forget_room-Keeps,
          send_system-Keeps,
          broadcast_system-Keeps,
        )
        depth 12

  pub leave_room-Keeps : (u r : String) (b : Bool) → Keeps P (leave_room u r b)
  unfolding leave_room
  leave_room-Keeps u r b =
      search (keeps_rules, Closed.is_room_member-Keeps base, leave_as_member-Keeps) depth 8

  pub join_room-Keeps : (u r : String) (p : Option String) (b : Bool) → Keeps P (join_room u r p b)
  unfolding join_room
  join_room-Keeps u r p b =
      search
        (
          keeps_rules,
          Closed.join_room-Keeps base,
          raise_if-Keeps,
          set_user_room-Keeps,
          broadcast_system-Keeps,
        )
        depth 12

  pub base_of : Closed P
  base_of = base

-- Stated for every property with its writes, so that `search` finds the property too.
pub ruleset service_rules = (
  keeps_rules, lift-Keeps, set_user_room-Keeps, voice_join-Keeps, voice_leave-Keeps, muted-Keeps,
  speaking-Keeps, raise_if-Keeps, send_packet-Keeps, send_system-Keeps, send_error-Keeps,
  broadcast_room_message-Keeps, broadcast_system-Keeps, broadcast_online_users-Keeps,
  send_online_users-Keeps, leave_room-Keeps, join_room-Keeps, base_of,
)
