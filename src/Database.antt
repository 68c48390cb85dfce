-- ===== src/Database.antt =====
-- database/db.py: the tables of the schema, one record for a row. The primary key counts up from
-- 1 (AUTOINCREMENT); a column that may be NULL is an Option; a time is a count of microseconds.
pub mod Sorted
pub mod Users
pub mod Friends
pub mod Rooms
pub mod Messages
pub mod Transfers
pub mod Sessions
pub mod Broadcasts
use Prim.Native.String.{compare as compare_text}
use Prim.Native.Nat.{Ordering}
use g04_final_project_d_25_c.Prelude.{
  ℕ, ◌+◌, ℤ, Bool, true, false, String, Option, List, [], ◌∷◌, ◌++◌, if◌then◌else◌,
}

pub record User : Type 0 where
  pub id : ℕ
  pub username : String
  pub status : String
  pub created_at : ℕ
  pub password_hash : Option String

-- the texts 'PENDING', 'ACCEPTED' and 'REJECTED'
pub data RequestStatus : Type 0 where
  pending accepted rejected : RequestStatus

pub record FriendRequest : Type 0 where
  pub id : ℕ
  pub sender_id : ℕ
  pub receiver_id : ℕ
  pub status : RequestStatus
  pub created_at : ℕ

pub record Friendship : Type 0 where
  pub id : ℕ
  pub user_id : ℕ
  pub friend_id : ℕ
  pub created_at : ℕ

pub record RoomRow : Type 0 where
  pub id : ℕ
  pub name : String
  pub owner_id : ℕ
  pub visibility : String
  pub max_capacity : ℤ
  pub invite_only : Bool
  pub password : Option String
  pub created_at : ℕ

pub record MemberRow : Type 0 where
  pub id : ℕ
  pub room_id : ℕ
  pub user_id : ℕ
  pub joined_at : ℕ

pub record InviteRow : Type 0 where
  pub id : ℕ
  pub room_id : ℕ
  pub inviter_id : ℕ
  pub invitee_id : ℕ
  pub created_at : ℕ

pub record MessageRow : Type 0 where
  pub id : ℕ
  pub sender_id : ℕ
  pub receiver_id : Option ℕ
  pub room_id : Option ℕ
  pub message_type : String
  pub content : String
  pub timestamp : ℕ

pub record BroadcastRow : Type 0 where
  pub id : ℕ
  pub target_room : String
  pub message : String
  pub send_time : String
  pub sent : Bool
  pub created_by : ℕ
  pub created_at : ℕ

pub record TransferRow : Type 0 where
  pub id : ℕ
  pub transfer_id : String
  pub sender_id : ℕ
  pub target_room : Option String
  pub target_user : Option String
  pub filename : String
  pub filesize : ℕ
  pub file_path : String
  pub transfer_type : String
  pub status : String
  pub timestamp : ℕ

pub record SessionRow : Type 0 where
  pub id : ℕ
  pub session_token : String
  pub username : String
  pub room_name : String
  pub last_seen : ℕ
  pub active : Bool

-- A table keeps its rows in the order of their ids.
pub record Table (R : Type 0) : Type 0 where
  pub rows : List R
  pub next_id : ℕ

-- `INSERT`: the row is built from its new id.
abbrev pub insert_row : {R : Type 0} → (ℕ → R) → Table R → Table R
insert_row make t = record { rows = t.rows ++ make t.next_id ∷ []; next_id = t.next_id + 1 }

abbrev pub empty_table : (R : Type 0) → Table R
empty_table R = record { rows = []; next_id = 1 }

-- The tables, and the system clock: `now` for `datetime.utcnow()`, and `now_text` for the same
-- time by the format '%Y-%m-%d %H:%M:%S'.
pub record Database : Type 0 where
  pub users : Table User
  pub friend_requests : Table FriendRequest
  pub friends : Table Friendship
  pub rooms : Table RoomRow
  pub room_members : Table MemberRow
  pub room_invites : Table InviteRow
  pub messages : Table MessageRow
  pub broadcasts : Table BroadcastRow
  pub file_transfers : Table TransferRow
  pub sessions : Table SessionRow
  pub now : ℕ
  pub now_text : String

-- `ensure_schema` on a fresh file
abbrev pub ensure_schema : ℕ → String → Database
ensure_schema now now_text = record {
  users = empty_table User;
  friend_requests = empty_table FriendRequest;
  friends = empty_table Friendship;
  rooms = empty_table RoomRow;
  room_members = empty_table MemberRow;
  room_invites = empty_table InviteRow;
  messages = empty_table MessageRow;
  broadcasts = empty_table BroadcastRow;
  file_transfers = empty_table TransferRow;
  sessions = empty_table SessionRow;
  now = now;
  now_text = now_text;
}

-- `a <= b` for texts, by code points, as SQLite and Python compare them.
abbrev pub text_le : String → String → Bool
text_le a b = elim (compare_text a b) [ Ordering.gt ↦ false | _ ↦ true ]

module _ {ℓ} {A : Type ℓ} (key : A → String) where
  abbrev pub insert_sorted : A → List A → List A
  insert_sorted x [] = x ∷ []
  insert_sorted x (y ∷ ys) = if text_le (key x) (key y) then x ∷ y ∷ ys else y ∷ insert_sorted x ys

  -- `ORDER BY key`, and `sorted`
  unfoldable pub sort_by : List A → List A
  sort_by [] = []
  sort_by (x ∷ xs) = insert_sorted x (sort_by xs)
