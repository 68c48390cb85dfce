-- ===== src/Server/Closed.antt =====
-- What it takes for a property of the server's state to survive every method: it is closed under the
-- writes that the methods are built from. The managers' methods keep such a property.
use g04_final_project_d_25_c.Prelude.{
  ℕ, ℤ, Bool, true, false, String, String_eq, ◌==◌, Option, none, some, List, if◌then◌else◌,
}
use g04_final_project_d_25_c.Dict
use g04_final_project_d_25_c.Dict.{Dict}
use g04_final_project_d_25_c.Exec.{
  Keeps, Keeps-modify, Keeps-gets, Keeps-pure, Keeps-bind, Keeps-if, keeps_rules, modify,
}
use g04_final_project_d_25_c.Database.{Database, SessionRow}
use g04_final_project_d_25_c.Database.Users.{get_or_create_user, update_user_status}
use g04_final_project_d_25_c.Database.Friends as DbFriends
use g04_final_project_d_25_c.Database.Rooms as DbRooms
use g04_final_project_d_25_c.Database.Sessions as DbSessions
use g04_final_project_d_25_c.Protocol.{PacketType, Field, Reply}
use g04_final_project_d_25_c.Server.State.{Server, Room, UserStatus, Env, query, on_db, update_db}
use g04_final_project_d_25_c.Server.Connections
use g04_final_project_d_25_c.Server.Presence
use g04_final_project_d_25_c.Server.RoomManager
use g04_final_project_d_25_c.Server.Sessions
use g04_final_project_d_25_c.Server.FriendManager

-- The writes of the managers.
pub record Closed {ℓ} (P : Server → Type ℓ) : Type ℓ where
  pub at_sent : (x : List (ℕ × Reply)) (s : Server) → P s → P (record s { sent = x })
  pub at_clients : (x : Dict String ℕ) (s : Server) → P s → P (record s { clients = x })
  pub at_status : (x : Dict String UserStatus) (s : Server) → P s → P (record s { status_map = x })
  pub at_rooms : (x : Dict String Room) (s : Server) → P s → P (record s { rooms = x })
  pub at_sessions : (x : Dict String String) (s : Server) → P s → P (record s { sessions = x })
  pub at_user : (n : String) → Keeps P (on_db (get_or_create_user n))
  pub at_user_status : (n v : String) → Keeps P (update_db (update_user_status n v))
  pub at_request : (a b : String) → Keeps P (on_db (DbFriends.create_friend_request a b))
  pub at_response :
      (a b : String) (v : Bool) → Keeps P (on_db (DbFriends.respond_friend_request a b v))
  pub at_unfriend : (a b : String) → Keeps P (update_db (DbFriends.remove_friend a b))
  pub at_new_room :
      (n o v : String) (c : ℤ) (i : Bool) (p : Option String)
      → Keeps P (on_db (DbRooms.create_room n o v c i p))
  pub at_member : (r u : String) → Keeps P (on_db (DbRooms.add_room_member r u))
  pub at_no_member : (r u : String) → Keeps P (update_db (DbRooms.remove_room_member r u))
  pub at_no_room : (r : String) → Keeps P (update_db (DbRooms.delete_room r))
  pub at_invite : (r a b : String) → Keeps P (on_db (DbRooms.invite_room_user r a b))
  pub at_expiry : (n : ℕ) → Keeps P (update_db (DbSessions.expire_sessions_older_than n))
  pub at_refresh : (t : String) → Keeps P (update_db (DbSessions.refresh_session t))
  pub at_deactivate : (t : String) → Keeps P (update_db (DbSessions.deactivate_session t))
  pub at_session : (t u r : String) → Keeps P (update_db (DbSessions.create_session t u r))

module _ {ℓ} {P : Server → Type ℓ} (c : Closed P) where
  open c use {
    at_sent, at_clients, at_status, at_rooms, at_sessions, at_user, at_user_status, at_request,
    at_response, at_unfriend, at_new_room, at_member, at_no_member, at_no_room, at_invite,
    at_expiry, at_refresh, at_deactivate, at_session,
  }

  if_kept : (b : Bool) (s t : Server) → P s → P t → P (if b then s else t)
  if_kept true s t h k = h
  if_kept false s t h k = k

  pub query-Keeps {κ} : {A : Type κ} (f : Database → A) → Keeps P (query f)
  unfolding query
  query-Keeps f = Keeps-gets (λ s. f s.db)

  put_room-Keeps : (n : String) (r : Room) → Keeps P (modify (RoomManager.put_room n r))
  put_room-Keeps n r = Keeps-modify _ (λ s h. at_rooms _ s h)

  pub transmit-Keeps :
      (n : ℕ) (k : PacketType) (d : Dict String Field)
      → Keeps P (modify (Connections.transmit n k d))
  unfolding Connections.transmit
  transmit-Keeps n k d = Keeps-modify _ (λ s h. if_kept (s.writable n) _ s (at_sent _ s h) h)

  send_to-Keeps :
      (o : Option ℕ) (k : PacketType) (d : Dict String Field)
      → Keeps P (modify (Connections.send_to o k d))
  send_to-Keeps none k d = Keeps-modify _ (λ s h. h)
  send_to-Keeps (some n) k d = transmit-Keeps n k d

  pub send-Keeps :
      (u : String) (k : PacketType) (d : Dict String Field) → Keeps P (Connections.send u k d)
  unfolding Connections.send
  send-Keeps u k d = search (keeps_rules, send_to-Keeps) depth 10

  pub broadcast-Keeps :
      (us : List String) (k : PacketType) (d : Dict String Field)
      → Keeps P (Connections.broadcast us k d)
  unfolding Connections.broadcast
  broadcast-Keeps us k d = search (keeps_rules, send-Keeps) depth 10

  pub add_client-Keeps : (u : String) (n : ℕ) → Keeps P (modify (Connections.add u n))
  unfolding Connections.add
  add_client-Keeps u n = Keeps-modify _ (λ s h. at_clients _ s h)

  pub remove_client-Keeps : (u : String) → Keeps P (modify (Connections.remove u))
  unfolding Connections.remove
  remove_client-Keeps u = Keeps-modify _ (λ s h. at_clients _ s h)

  notify_friends-Keeps : (u : String) (v : UserStatus) → Keeps P (Presence.notify_friends u v)
  unfolding Presence.notify_friends
  notify_friends-Keeps u v = search (keeps_rules, query-Keeps, send-Keeps) depth 12

  status-Keeps :
      (f : Dict String UserStatus → Dict String UserStatus)
      → Keeps P (modify (λ s. record s { status_map = f s.status_map }))
  status-Keeps f = Keeps-modify _ (λ s h. at_status _ s h)

  pub set_status-Keeps : (u : String) (v : UserStatus) → Keeps P (Presence.set_status u v)
  unfolding Presence.set_status
  set_status-Keeps u v =
      Keeps-bind _ _ (status-Keeps (Dict.put u v))
        (λ _. search (keeps_rules, at_user_status, notify_friends-Keeps))

  pub remove_status-Keeps : (u : String) → Keeps P (Presence.remove u)
  unfolding Presence.remove
  remove_status-Keeps u = Keeps-bind _ _ (status-Keeps (Dict.pop u)) (λ _. at_user_status u _)

  held_room-Keeps :
      (n : String) (found : Option Room)
      → Keeps P (modify (λ s. elim found [ none ↦ s | some r ↦ RoomManager.put_room n r s ]))
  held_room-Keeps n none = Keeps-modify _ (λ s h. h)
  held_room-Keeps n (some r) = Keeps-modify _ (λ s h. at_rooms _ s h)

  pub get_room-Keeps : (n : String) → Keeps P (RoomManager.get_room n)
  unfolding RoomManager.get_room RoomManager.load_room
  get_room-Keeps n = Keeps-bind _ _ (Keeps-gets _) (λ held. Keeps-if _ _ _ (Keeps-pure _) (
      Keeps-bind _ _ (query-Keeps _)
        (λ f. Keeps-bind _ _ (held_room-Keeps n f) (λ _. Keeps-pure _))))

  ruleset room_rules = (keeps_rules, query-Keeps, get_room-Keeps, put_room-Keeps)

  pub create_room-Keeps :
      (n o v : String) (k : ℤ) (i : Bool) (p : Option String)
      → Keeps P (RoomManager.create_room n o v k i p)
  unfolding RoomManager.create_room
  create_room-Keeps n o v k i p = search (room_rules, at_new_room, at_member) depth 14

  join_found-Keeps :
      (r : Option Room) (n u : String) (p : Option String)
      → Keeps P (RoomManager.join_found r n u p)
  unfolding RoomManager.join_found
  join_found-Keeps none n u p = search room_rules
  join_found-Keeps (some r) n u p = search (room_rules, at_member) depth 14

  pub join_room-Keeps : (n u : String) (p : Option String) → Keeps P (RoomManager.join_room n u p)
  unfolding RoomManager.join_room
  join_room-Keeps n u p = search (room_rules, join_found-Keeps) depth 8

  pub init_rooms-Keeps : Keeps P RoomManager.init_rooms
  unfolding RoomManager.init_rooms RoomManager.get_room
  init_rooms-Keeps = search (room_rules, at_new_room) depth 14

  drop_held-Keeps : (n : String) → Keeps P (modify (λ s. record s { rooms = Dict.pop n s.rooms }))
  drop_held-Keeps n = Keeps-modify _ (λ s h. at_rooms _ s h)

  pub delete_room-Keeps : (n : String) → Keeps P (RoomManager.delete_room n)
  unfolding RoomManager.delete_room
  delete_room-Keeps n = Keeps-bind _ _ (drop_held-Keeps n) (λ _. at_no_room n)

  leave_found-Keeps : (r : Option Room) (n u : String) → Keeps P (RoomManager.leave_found r n u)
  unfolding RoomManager.leave_found
  leave_found-Keeps none n u = search room_rules
  leave_found-Keeps (some r) n u = search (room_rules, at_no_member, delete_room-Keeps) depth 10

  pub leave_room-Keeps : (n u : String) → Keeps P (RoomManager.leave_room n u)
  unfolding RoomManager.leave_room
  leave_room-Keeps n u = search (room_rules, leave_found-Keeps) depth 8

  invite_found-Keeps : (r : Option Room) (n u : String) → Keeps P (RoomManager.invite_found r n u)
  unfolding RoomManager.invite_found
  invite_found-Keeps none n u = search room_rules
  invite_found-Keeps (some r) n u = put_room-Keeps n _

  pub invite_user-Keeps : (n u : String) → Keeps P (RoomManager.invite_user n u)
  unfolding RoomManager.invite_user
  invite_user-Keeps n u = search (room_rules, invite_found-Keeps) depth 8

  kick_found-Keeps : (r : Option Room) (n u : String) → Keeps P (RoomManager.kick_found r n u)
  unfolding RoomManager.kick_found
  kick_found-Keeps none n u = search room_rules
  kick_found-Keeps (some r) n u = search (room_rules, at_no_member) depth 8

  pub kick_user-Keeps : (n u : String) → Keeps P (RoomManager.kick_user n u)
  unfolding RoomManager.kick_user
  kick_user-Keeps n u = search (room_rules, kick_found-Keeps) depth 8

  pub is_owner-Keeps : (n u : String) → Keeps P (RoomManager.is_owner n u)
  unfolding RoomManager.is_owner
  is_owner-Keeps n u = search room_rules depth 8

  pub is_room_member-Keeps : (n u : String) → Keeps P (RoomManager.is_room_member n u)
  unfolding RoomManager.is_room_member
  is_room_member-Keeps n u = search room_rules depth 8

  pub get_members-Keeps : (n : String) → Keeps P (RoomManager.get_members n)
  unfolding RoomManager.get_members
  get_members-Keeps n = search room_rules depth 8

  notify-Keeps : (u : String) (l : List String) → Keeps P (FriendManager.notify u l)
  unfolding FriendManager.notify
  notify-Keeps u l = search (keeps_rules, send-Keeps) depth 8

  ruleset friend_rules = (keeps_rules, query-Keeps, send-Keeps, notify-Keeps)

  pub send_request-Keeps : (a b : String) → Keeps P (FriendManager.send_request a b)
  unfolding FriendManager.send_request
  send_request-Keeps a b = search (friend_rules, at_user, at_request) depth 20

  pub accept_request-Keeps : (a b : String) → Keeps P (FriendManager.accept_request a b)
  unfolding FriendManager.accept_request
  accept_request-Keeps a b = search (friend_rules, at_response) depth 12

  pub reject_request-Keeps : (a b : String) → Keeps P (FriendManager.reject_request a b)
  unfolding FriendManager.reject_request
  reject_request-Keeps a b = search (friend_rules, at_response) depth 12

  pub send_friend_list-Keeps : (u : String) → Keeps P (FriendManager.send_friend_list u)
  unfolding FriendManager.send_friend_list
  send_friend_list-Keeps u = search friend_rules depth 12

  pub remove_friend-Keeps : (a b : String) → Keeps P (FriendManager.remove_friend a b)
  unfolding FriendManager.remove_friend
  remove_friend-Keeps a b = search (friend_rules, at_unfriend) depth 12

  refresh_if-Keeps :
      (o : Option SessionRow) (t : String) → Keeps P (update_db (Sessions.refresh_if o t))
  unfolding update_db
  refresh_if-Keeps none t = Keeps-modify _ (λ s h. h)
  refresh_if-Keeps (some r) t = at_refresh t

  pub restore_session-Keeps : (t : String) → Keeps P (Sessions.restore_session t)
  unfolding Sessions.restore_session
  restore_session-Keeps t = search (keeps_rules, query-Keeps, at_expiry, refresh_if-Keeps) depth 10

  sessions-Keeps :
      (f : Dict String String → Dict String String)
      → Keeps P (modify (λ s. record s { sessions = f s.sessions }))
  sessions-Keeps f = Keeps-modify _ (λ s h. at_sessions _ s h)

  pub create_session-Keeps : (e : Env) (u r : String) → Keeps P (Sessions.create_session e u r)
  unfolding Sessions.create_session
  create_session-Keeps e u r =
      Keeps-bind _ _ (at_session e.uuid u r)
        (λ _. Keeps-bind _ _ (sessions-Keeps (Dict.put u e.uuid)) (λ _. Keeps-pure _))

  if_deactivated-Keeps :
      (b : Bool) (t : String)
      → Keeps P (update_db (λ db. if b then db else DbSessions.deactivate_session t db))
  unfolding update_db
  if_deactivated-Keeps true t = Keeps-modify _ (λ s h. h)
  if_deactivated-Keeps false t = at_deactivate t

  deactivate_if-Keeps : (o : Option String) → Keeps P (update_db (Sessions.deactivate_if o))
  unfolding update_db
  deactivate_if-Keeps none = Keeps-modify _ (λ s h. h)
  deactivate_if-Keeps (some t) = if_deactivated-Keeps (t == "") t

  pub end_session-Keeps : (u : String) → Keeps P (Sessions.end_session u)
  unfolding Sessions.end_session
  end_session-Keeps u =
      Keeps-bind _ _ (Keeps-gets _)
        (λ o. Keeps-bind _ _ (sessions-Keeps (Dict.pop u)) (λ _. deactivate_if-Keeps o))
