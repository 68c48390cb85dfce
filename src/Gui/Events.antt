-- ===== src/Gui/Events.antt =====
-- gui/controllers/event_dispatcher.py: the signals of the dispatcher, with what each carries.
use g04_final_project_d_25_c.Prelude.{String, List, ℤ}
use g04_final_project_d_25_c.Protocol.{Friend}

pub data Event : Type 0 where
  connected disconnected : Event
  connection_error : (message : String) → Event
  login_success : (username : String) → Event
  login_failed : (message : String) → Event
  register_success : (username : String) → Event
  session_restored : (username room : String) → Event
  message_received : (room sender message timestamp : String) → Event
  private_message_received : (sender message timestamp : String) → Event
  system_message : (room message : String) → Event
  room_created room_joined room_left room_deleted : (room : String) → Event
  room_list_updated : (rooms : List String) → Event
  user_online user_offline : (username : String) → Event
  user_status_changed : (username status : String) → Event
  online_users_updated : (usernames : List String) → Event
  friend_request_received friend_request_accepted : (username : String) → Event
  friend_list_updated : (friends : List Friend) → Event
  voice_started voice_stopped : (room : String) → Event
  voice_user_joined voice_user_left user_speaking user_muted user_unmuted :
      (room username : String) → Event
  matchmaking_queue_joined matchmaking_queue_left : Event
  matchmaking_found : (room : String) (participants : List String) → Event
  file_transfer_started : (transfer_id filename : String) (filesize : ℤ) → Event
  file_transfer_progress : (transfer_id : String) (progress : ℤ) → Event
  file_transfer_complete : (transfer_id : String) → Event
  file_transfer_error : (transfer_id message : String) → Event
  image_received : (room_or_sender filename file_path : String) → Event
  error : (message : String) → Event
