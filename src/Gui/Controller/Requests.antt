-- ===== src/Gui/Controller/Requests.antt =====
-- Every request that the controller has, sent to the server: the packet comes to the handler that the
-- request is meant for.
use g04_final_project_d_25_c.Prelude.{ℕ, String, Option}
use g04_final_project_d_25_c.Gui.Controller
use g04_final_project_d_25_c.Gui.Controller.{TcpController}

pub data Request : Type 0 where
  login : (username : String) (password : String) → Request
  register_account : (username : String) (password : String) → Request
  reconnect : (token : String) → Request
  send_message : (room : String) (message : String) → Request
  send_private_message : (target : String) (message : String) → Request
  join_room : (room : String) (password : Option String) → Request
  leave_room : (room : String) → Request
  create_room : (room : String) (visibility : String) (max_capacity : ℕ) → Request
  delete_room : (room : String) → Request
  add_friend : (friend : String) → Request
  accept_friend : (friend : String) → Request
  reject_friend : (friend : String) → Request
  remove_friend : (friend : String) → Request
  get_friends : Request
  get_online_users : Request
  update_status : (status : String) → Request
  invite_user : (target : String) → Request
  kick_user : (target : String) → Request
  send_voice_start : (room : String) (udp_port : ℕ) → Request
  send_voice_stop : (room : String) → Request
  send_voice_status : (room : String) (status : String) → Request

-- The method of the controller for each request.
unfoldable pub perform : Request → TcpController → TcpController
unfolding Controller.login Controller.register_account Controller.reconnect Controller.send_message
    Controller.send_private_message Controller.join_room Controller.leave_room
    Controller.create_room Controller.delete_room Controller.add_friend Controller.accept_friend
    Controller.reject_friend Controller.remove_friend Controller.get_friends
    Controller.get_online_users Controller.update_status Controller.invite_user Controller.kick_user
    Controller.send_voice_start Controller.send_voice_stop Controller.send_voice_status
perform (login username password) = Controller.login username password
perform (register_account username password) = Controller.register_account username password
perform (reconnect token) = Controller.reconnect token
perform (send_message room message) = Controller.send_message room message
perform (send_private_message target message) = Controller.send_private_message target message
perform (join_room room password) = Controller.join_room room password
perform (leave_room room) = Controller.leave_room room
perform (create_room room visibility max_capacity) =
    Controller.create_room room visibility max_capacity
perform (delete_room room) = Controller.delete_room room
perform (add_friend friend) = Controller.add_friend friend
perform (accept_friend friend) = Controller.accept_friend friend
perform (reject_friend friend) = Controller.reject_friend friend
perform (remove_friend friend) = Controller.remove_friend friend
perform get_friends = Controller.get_friends
perform get_online_users = Controller.get_online_users
perform (update_status status) = Controller.update_status status
perform (invite_user target) = Controller.invite_user target
perform (kick_user target) = Controller.kick_user target
perform (send_voice_start room udp_port) = Controller.send_voice_start room udp_port
perform (send_voice_stop room) = Controller.send_voice_stop room
perform (send_voice_status room status) = Controller.send_voice_status room status
