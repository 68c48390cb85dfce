-- ===== src/Gui/Controller.antt =====
-- gui/controllers/tcp_controller.py, TCPController: every request goes to the worker, where there is
-- one. A controller is the worker that it holds.
pub mod Requests
pub mod Dispatch
use g04_final_project_d_25_c.Prelude.{ℕ, Bool, true, false, String, Option, none, some}
use g04_final_project_d_25_c.Gui.Worker
use g04_final_project_d_25_c.Gui.Worker.{TcpWorker, Link, new_worker, absent, ready, failing}

abbrev pub TcpController : Type 0
TcpController = Option TcpWorker

-- `if self.worker:`
abbrev pub with_worker : (TcpWorker → TcpWorker) → TcpController → TcpController
with_worker f none = none
with_worker f (some w) = some (f w)

-- The thread then runs the loop of the worker.
unfoldable pub start : TcpController → TcpController
start none = some new_worker
start (some w) = some w

-- The worker that `stop` lets go is shut down first; the controller holds none afterwards.
unfoldable pub stop : TcpController → TcpController
stop c = none

unfoldable pub login : String → String → TcpController → TcpController
unfolding Worker.login
login username password = with_worker (Worker.login username password)

unfoldable pub register_account : String → String → TcpController → TcpController
unfolding Worker.register_account
register_account username password = with_worker (Worker.register_account username password)

unfoldable pub reconnect : String → TcpController → TcpController
unfolding Worker.reconnect
reconnect token = with_worker (Worker.reconnect token)

unfoldable pub send_message : String → String → TcpController → TcpController
unfolding Worker.send_message
send_message room message = with_worker (Worker.send_message room message)

unfoldable pub send_private_message : String → String → TcpController → TcpController
unfolding Worker.send_private_message
send_private_message target message = with_worker (Worker.send_private_message target message)

unfoldable pub join_room : String → Option String → TcpController → TcpController
unfolding Worker.join_room
join_room room password = with_worker (Worker.join_room room password)

unfoldable pub leave_room : String → TcpController → TcpController
unfolding Worker.leave_room
leave_room room = with_worker (Worker.leave_room room)

unfoldable pub create_room : String → String → ℕ → TcpController → TcpController
unfolding Worker.create_room
create_room room visibility max_capacity =
    with_worker (Worker.create_room room visibility max_capacity)

unfoldable pub delete_room : String → TcpController → TcpController
unfolding Worker.delete_room
delete_room room = with_worker (Worker.delete_room room)

unfoldable pub add_friend : String → TcpController → TcpController
unfolding Worker.add_friend
add_friend friend = with_worker (Worker.add_friend friend)

unfoldable pub accept_friend : String → TcpController → TcpController
unfolding Worker.accept_friend
accept_friend friend = with_worker (Worker.accept_friend friend)

unfoldable pub reject_friend : String → TcpController → TcpController
unfolding Worker.reject_friend
reject_friend friend = with_worker (Worker.reject_friend friend)

unfoldable pub remove_friend : String → TcpController → TcpController
unfolding Worker.remove_friend
remove_friend friend = with_worker (Worker.remove_friend friend)

unfoldable pub get_friends : TcpController → TcpController
unfolding Worker.get_friends
get_friends = with_worker Worker.get_friends

unfoldable pub get_online_users : TcpController → TcpController
unfolding Worker.get_online_users
get_online_users = with_worker Worker.get_online_users

unfoldable pub update_status : String → TcpController → TcpController
unfolding Worker.update_status
update_status status = with_worker (Worker.update_status status)

unfoldable pub invite_user : String → TcpController → TcpController
unfolding Worker.invite_user
invite_user target = with_worker (Worker.invite_user target)

unfoldable pub kick_user : String → TcpController → TcpController
unfolding Worker.kick_user
kick_user target = with_worker (Worker.kick_user target)

unfoldable pub send_voice_start : String → ℕ → TcpController → TcpController
unfolding Worker.send_voice_start
send_voice_start room udp_port = with_worker (Worker.send_voice_start room udp_port)

unfoldable pub send_voice_stop : String → TcpController → TcpController
unfolding Worker.send_voice_stop
send_voice_stop room = with_worker (Worker.send_voice_stop room)

unfoldable pub send_voice_status : String → String → TcpController → TcpController
unfolding Worker.send_voice_status
send_voice_status room status = with_worker (Worker.send_voice_status room status)
