-- ===== src/Service/Closed/OfDatabase.antt =====
-- A property of the database alone: what it takes for it to be closed under the writes of the service.
use g04_final_project_d_25_c.Prelude.{
  ℕ, ℤ, Bool, true, false, String, String_eq, ◌==◌, Bool-cases, ◌≡◌, Option, none, some,
  if◌then◌else◌, Option-cases, inl, inr, find_row, any_row,
}
use g04_final_project_d_25_c.Exec.{
  Exec, Keeps, Keeps-modify, Keeps-pure, Keeps-bind, keeps_rules, within, Keeps-raise, ◌>>=◌, ◌>>◌,
  modify,
}
use g04_final_project_d_25_c.Database.{
  Database, Table, FriendRequest, RoomRow, MemberRow, InviteRow, MessageRow, BroadcastRow,
  TransferRow, SessionRow,
}
use g04_final_project_d_25_c.Database.Users
use g04_final_project_d_25_c.Database.Friends
use g04_final_project_d_25_c.Database.Rooms
use g04_final_project_d_25_c.Database.Messages
use g04_final_project_d_25_c.Database.Transfers
use g04_final_project_d_25_c.Database.Sessions
use g04_final_project_d_25_c.Database.Broadcasts
use g04_final_project_d_25_c.Server.{Server, on_db, update_db}
use g04_final_project_d_25_c.Server.Matchmaker.{leave_queue}
use g04_final_project_d_25_c.Server.Closed.{Closed}
use g04_final_project_d_25_c.Service.Closed.Writes.{ClosedWrites}

pub record ClosedTables {ℓ} (Q : Database → Type ℓ) : Type ℓ where
  pub at_insert_user :
      (n v : String) (h : Option String) (d : Database)
      → Users.find_user_id n d ≡ none
      → Q d
      → Q (Users.insert_user n v h d)
  pub at_password :
      (n h : String) (d : Database)
      → Q d
      → Q (Users.update_users (λ u. u.username == n) (λ u. record u { password_hash = some h }) d)
  pub at_user_status : (n v : String) (d : Database) → Q d → Q (Users.update_user_status n v d)
  pub at_befriend :
      (a b : ℕ) (d : Database)
      → Q d
      → Q (Friends.add_friend_by_id b a (Friends.add_friend_by_id a b d))
  pub at_unfriend : (a b : ℕ) (d : Database) → Q d → Q (Friends.drop_friendship a b d)
  pub at_requests :
      (x : Table FriendRequest) (d : Database) → Q d → Q (record d { friend_requests = x })
  pub at_rooms : (x : Table RoomRow) (d : Database) → Q d → Q (record d { rooms = x })
  pub at_members : (x : Table MemberRow) (d : Database) → Q d → Q (record d { room_members = x })
  pub at_invites : (x : Table InviteRow) (d : Database) → Q d → Q (record d { room_invites = x })
  pub at_messages : (x : Table MessageRow) (d : Database) → Q d → Q (record d { messages = x })
  pub at_broadcasts :
      (x : Table BroadcastRow) (d : Database) → Q d → Q (record d { broadcasts = x })
  pub at_transfers :
      (x : Table TransferRow) (d : Database) → Q d → Q (record d { file_transfers = x })
  pub at_sessions : (x : Table SessionRow) (d : Database) → Q d → Q (record d { sessions = x })

module _ {ℓ} {Q : Database → Type ℓ} (t : ClosedTables Q) where
  if_kept : (b : Bool) (c d : Database) → Q c → Q d → Q (if b then c else d)
  if_kept true c d h k = h
  if_kept false c d h k = k

  user_added : (n : String) (d : Database) → Q d → Q (Users.with_user n d)
  user_added n d h = elim (Option-cases (Users.find_user_id n d)) [
    | inl new ↦ rw (new, Users.with_user) (t.at_insert_user n "ONLINE" none d new h)
    | inr (i, old) ↦ rw (old, Users.with_user) h
  ]

  get_or_create_user-Keeps : (n : String) → Keeps Q (Users.get_or_create_user n)
  unfolding Users.get_or_create_user
  get_or_create_user-Keeps n =
      search (keeps_rules, λ (k : String). Keeps-modify (Users.with_user k) (user_added k)) depth 8

  set_user_password-Keeps : (n h : String) → Keeps Q (Users.set_user_password n h)
  unfolding Users.set_user_password ◌>>=◌
  set_user_password-Keeps n h = record {
    after = λ d q. elim (Bool-cases (n == "")) [
      | inl bad ↦ rw bad q
      | inr good ↦ rw good (elim (Option-cases (Users.find_user_id n d)) [
        | inl new ↦ rw new (t.at_insert_user n "OFFLINE" (some h) d new q)
        | inr (i, old) ↦ rw old (t.at_password n h d q)
      ])
    ];
  }

  request_recorded : (a b : ℕ) (d : Database) → Q d → Q (Friends.record_request a b d)
  request_recorded a b d h =
      elim (Option-cases (find_row (Friends.asks a b) d.friend_requests.rows)) [
        | inl new ↦ rw (new, Friends.record_request) (t.at_requests _ d h)
        | inr (q, old) ↦
            rw (old, Friends.record_request)
              (if_kept (Friends.is_pending q.status) d _ h (t.at_requests _ d h))
      ]

  create_friend_request-Keeps : (a b : String) → Keeps Q (Friends.create_friend_request a b)
  unfolding Friends.create_friend_request
  create_friend_request-Keeps a b =
      search
        (
          keeps_rules,
          get_or_create_user-Keeps,
          λ (i j : ℕ). Keeps-modify (Friends.record_request i j) (request_recorded i j),
        )
        depth 8

  -- The two INSERTs of a friendship, one after the other.
  befriend-Keeps :
      (i j : ℕ)
      → Keeps Q (modify (Friends.add_friend_by_id i j) >> modify (Friends.add_friend_by_id j i))
  unfolding modify ◌>>=◌
  befriend-Keeps i j = record { after = t.at_befriend i j }

  respond_friend_request-Keeps :
      (a b : String) (v : Bool) → Keeps Q (Friends.respond_friend_request a b v)
  unfolding Friends.respond_friend_request
  respond_friend_request-Keeps a b v =
      search
        (
          keeps_rules,
          λ (i j : ℕ). Keeps-modify (Friends.settle_request i j v) (λ d h. t.at_requests _ d h),
          befriend-Keeps,
        )
        depth 10

  friend_removed : (a b : String) (d : Database) → Q d → Q (Friends.remove_friend a b d)
  unfolding Friends.remove_friend
  friend_removed a b d h = elim (Option-cases (Users.find_user_id a d)) [
    | inl x ↦ rw (x, Friends.remove_friend) h
    | inr (i, x) ↦ elim (Option-cases (Users.find_user_id b d)) [
      | inl y ↦ rw (x, y, Friends.remove_friend) h
      | inr (j, y) ↦ rw (x, y, Friends.remove_friend) (t.at_unfriend i j d h)
    ]
  ]

  create_room-Keeps :
      (n o v : String) (c : ℤ) (i : Bool) (p : Option String)
      → Keeps Q (Rooms.create_room n o v c i p)
  unfolding Rooms.create_room
  create_room-Keeps n o v c i p =
      search
        (
          keeps_rules,
          get_or_create_user-Keeps,
          λ (k : ℕ). Keeps-modify (Rooms.insert_room n k v c i p) (λ d h. t.at_rooms _ d h),
        )
        depth 8

  member_inserted : (r u : ℕ) (d : Database) → Q d → Q (Rooms.insert_member r u d)
  member_inserted r u d h =
      if_kept (any_row (Rooms.is_member_row r u) d.room_members.rows) d _ h (t.at_members _ d h)

  add_room_member-Keeps : (r u : String) → Keeps Q (Rooms.add_room_member r u)
  unfolding Rooms.add_room_member
  add_room_member-Keeps r u =
      search
        (
          keeps_rules,
          get_or_create_user-Keeps,
          λ (i j : ℕ). Keeps-modify (Rooms.insert_member i j) (member_inserted i j),
        )
        depth 8

  member_removed : (r u : String) (d : Database) → Q d → Q (Rooms.remove_room_member r u d)
  unfolding Rooms.remove_room_member
  member_removed r u d h = elim (Option-cases (Rooms.get_room r d)) [
    | inl x ↦ rw (x, Rooms.remove_room_member) h
    | inr (row, x) ↦ elim (Option-cases (Users.find_user_id u d)) [
      | inl y ↦ rw (x, y, Rooms.remove_room_member) h
      | inr (j, y) ↦ rw (x, y, Rooms.remove_room_member) (t.at_members _ d h)
    ]
  ]

  room_dropped : (i : ℕ) (d : Database) → Q d → Q (Rooms.drop_room i d)
  room_dropped i d h = t.at_rooms _ _ (t.at_members _ _ (t.at_invites _ d h))

  room_deleted : (r : String) (d : Database) → Q d → Q (Rooms.delete_room r d)
  unfolding Rooms.delete_room
  room_deleted r d h = elim (Option-cases (Rooms.get_room r d)) [
    | inl x ↦ rw (x, Rooms.delete_room) h
    | inr (row, x) ↦ rw (x, Rooms.delete_room) (room_dropped row.id d h)
  ]

  invite_inserted : (r a b : ℕ) (d : Database) → Q d → Q (Rooms.insert_invite r a b d)
  invite_inserted r a b d h =
      if_kept (any_row (Rooms.is_invite_row r b) d.room_invites.rows) d _ h (t.at_invites _ d h)

  invite_room_user-Keeps : (r a b : String) → Keeps Q (Rooms.invite_room_user r a b)
  unfolding Rooms.invite_room_user
  invite_room_user-Keeps r a b =
      search
        (
          keeps_rules,
          λ (i j k : ℕ). Keeps-modify (Rooms.insert_invite i j k) (invite_inserted i j k),
        )
        depth 10

  room_id_of-Keeps : (o : Option RoomRow) → Keeps Q (Messages.room_id_of o)
  room_id_of-Keeps none = Keeps-raise _
  room_id_of-Keeps (some r) = Keeps-pure _

  message_room-Keeps : (o : Option String) → Keeps Q (Messages.message_room o)
  message_room-Keeps none = Keeps-pure _
  message_room-Keeps (some r) = search (keeps_rules, room_id_of-Keeps)

  save_message-Keeps :
      (a b k : String) (r v : Option String) → Keeps Q (Messages.save_message a b k r v)
  unfolding Messages.save_message
  save_message-Keeps a b k r v =
      search
        (
          keeps_rules,
          get_or_create_user-Keeps,
          message_room-Keeps,
          λ (i : ℕ) (o p : Option ℕ).
              Keeps-modify (Messages.insert_message i o p k b) (λ d h. t.at_messages _ d h),
        )
        depth 8

  save_file_transfer-Keeps :
      (x u : String) (r v : Option String) (f : String) (n : ℕ) (p k w : String)
      → Keeps Q (Transfers.save_file_transfer x u r v f n p k w)
  unfolding Transfers.save_file_transfer
  save_file_transfer-Keeps x u r v f n p k w =
      Keeps-bind _ _ (get_or_create_user-Keeps u)
        (λ i. Keeps-modify _ (λ d h. t.at_transfers _ d h))

  create_scheduled_broadcast-Keeps :
      (r m x u : String) → Keeps Q (Broadcasts.create_scheduled_broadcast r m x u)
  unfolding Broadcasts.create_scheduled_broadcast
  create_scheduled_broadcast-Keeps r m x u =
      Keeps-bind _ _ (get_or_create_user-Keeps u)
        (λ i. Keeps-modify _ (λ d h. t.at_broadcasts _ d h))

  -- The same of a server with the database.
  abbrev Of : Server → Type ℓ
  Of s = Q s.db

  on_db-Keeps {κ} : {A : Type κ} (m : Exec Database A) → Keeps Q m → Keeps Of (on_db m)
  unfolding on_db within
  on_db-Keeps m k = record { after = λ s h. k.after s.db h }

  update_db-Keeps :
      (f : Database → Database) → ((d : Database) → Q d → Q (f d)) → Keeps Of (update_db f)
  unfolding update_db
  update_db-Keeps f k = Keeps-modify _ (λ s h. k s.db h)

  base : Closed Of
  unfolding Sessions.expire_sessions_older_than Sessions.refresh_session Sessions.deactivate_session
      Sessions.create_session
  base = record {
    at_sent = λ x s h. h;
    at_clients = λ x s h. h;
    at_status = λ x s h. h;
    at_rooms = λ x s h. h;
    at_sessions = λ x s h. h;
    at_user = λ n. on_db-Keeps _ (get_or_create_user-Keeps n);
    at_user_status = λ n v. update_db-Keeps _ (t.at_user_status n v);
    at_request = λ a b. on_db-Keeps _ (create_friend_request-Keeps a b);
    at_response = λ a b v. on_db-Keeps _ (respond_friend_request-Keeps a b v);
    at_unfriend = λ a b. update_db-Keeps _ (friend_removed a b);
    at_new_room = λ n o v c i p. on_db-Keeps _ (create_room-Keeps n o v c i p);
    at_member = λ r u. on_db-Keeps _ (add_room_member-Keeps r u);
    at_no_member = λ r u. update_db-Keeps _ (member_removed r u);
    at_no_room = λ r. update_db-Keeps _ (room_deleted r);
    at_invite = λ r a b. on_db-Keeps _ (invite_room_user-Keeps r a b);
    at_expiry = λ n. update_db-Keeps _ (λ d h. t.at_sessions _ d h);
    at_refresh = λ x. update_db-Keeps _ (λ d h. t.at_sessions _ d h);
    at_deactivate = λ x. update_db-Keeps _ (λ d h. t.at_sessions _ d h);
    at_session = λ x u r. update_db-Keeps _ (λ d h. t.at_sessions _ d h);
  }

  pub writes : ClosedWrites Of
  unfolding leave_queue Broadcasts.mark_broadcast_sent
  writes = record {
    base = base;
    at_user_rooms = λ x s h. h;
    at_files = λ x s h. h;
    at_writable = λ x s h. h;
    at_voice_join = λ n u k s h. h;
    at_voice_leave = λ n u s h. h;
    at_muted = λ n u b s h. h;
    at_speaking = λ n u b s h. h;
    at_match = λ u s h. h;
    at_leave_queue = λ u s h. h;
    at_begin = λ x f n d s h. h;
    at_chunk = λ x i b s h. h;
    at_complete = λ x s h. h;
    at_cancel = λ x s h. h;
    at_password = λ u h. on_db-Keeps _ (set_user_password-Keeps u h);
    at_message = λ a b k r v. on_db-Keeps _ (save_message-Keeps a b k r v);
    at_transfer = λ x u r v f n p k w. on_db-Keeps _ (save_file_transfer-Keeps x u r v f n p k w);
    at_schedule = λ r m x u. on_db-Keeps _ (create_scheduled_broadcast-Keeps r m x u);
    at_mark = λ i. update_db-Keeps _ (λ d h. t.at_broadcasts _ d h);
  }
