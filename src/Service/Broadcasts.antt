-- ===== src/Service/Broadcasts.antt =====
-- scheduler/scheduled_broadcast.py, and the handlers of server/service.py that it works with.
pub mod Runner
use g04_final_project_d_25_c.Prelude.{
  Bool, true, false, ◌||◌, not, String, ◌==◌, String_eq, Option, none, some, List, [], ◌∷◌,
}
use g04_final_project_d_25_c.Exec.{
  Result, ok, err, Exec, value_error, pure, gets, ensure, ◌>>=◌, ◌>>◌, for_each,
}
use g04_final_project_d_25_c.Database.{BroadcastRow}
use g04_final_project_d_25_c.Database.Messages.{save_message}
use g04_final_project_d_25_c.Database.Broadcasts.{
  create_scheduled_broadcast, fetch_due_broadcasts, mark_broadcast_sent,
}
use g04_final_project_d_25_c.Protocol.{Packet, text, stripped_field}
use g04_final_project_d_25_c.Server.{Server, Env, on_db, query, update_db}
use g04_final_project_d_25_c.Service.{send_system, broadcast_system}

unfoldable pub handle_schedule_broadcast : Env → String → Packet → Exec Server (Unit {0})
handle_schedule_broadcast env username packet = do
  let target_room = stripped_field "target_room" (text "global") packet
  let body = stripped_field "message" (text "") packet
  let send_time = stripped_field "send_time" (text "") packet
  ensure (not (target_room == "" || body == "" || send_time == ""))
      (value_error "target_room, message, and send_time are required.")
  ensure (env.is_send_time send_time) (value_error "send_time must use format YYYY-MM-DD HH:MM:SS.")
  on_db (create_scheduled_broadcast target_room body send_time username)
  send_system username ("Broadcast scheduled to " ∷ target_room ∷ " at " ∷ send_time ∷ "." ∷ [])
      "global"

unfoldable pub dispatch_scheduled_broadcast : String → String → Exec Server (Unit {0})
dispatch_scheduled_broadcast room_name body = do
  on_db (save_message "system" body "SYSTEM" (some room_name) none)
  broadcast_system (body ∷ []) room_name

unfoldable pub run_broadcast : BroadcastRow → Exec Server (Unit {0})
run_broadcast b = do
  dispatch_scheduled_broadcast b.target_room b.message
  update_db (mark_broadcast_sent b.id)

-- One round of the loop of `_run`. An exception ends the loop, and the thread with it.
unfoldable pub run_due : Exec Server (Unit {0})
run_due = do due ← query fetch_due_broadcasts; for_each due run_broadcast
