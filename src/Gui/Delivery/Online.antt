-- ===== src/Gui/Delivery/Online.antt =====
-- The list of the users who are online, from the server's table of connections to the user of the
-- graphical client.
use g04_final_project_d_25_c.Prelude.{
  ℕ, ℤ, true, false, String, some, [], ◌∷◌, ◌≡◌, refl, ◌∙◌, ◌==◌, String_eq, is_some, contains,
}
use g04_final_project_d_25_c.Dict
use g04_final_project_d_25_c.Dict.{Dict, contains-keys}
use g04_final_project_d_25_c.Exec.{Result}
use g04_final_project_d_25_c.Database.Sorted.{contains-sort_by}
use g04_final_project_d_25_c.Protocol.{Reply, get_online_users, string, names}
use g04_final_project_d_25_c.Server.{Server, timestamp}
use g04_final_project_d_25_c.Server.Connections
use g04_final_project_d_25_c.Server.Connections.{send, transmit, send_to, delivered, list_usernames}
use g04_final_project_d_25_c.Service.{send_online_users, send_packet}
use g04_final_project_d_25_c.Gui.Worker.{TcpWorker}
use g04_final_project_d_25_c.Gui.State.{GuiState, is_me, on_event}
use g04_final_project_d_25_c.Gui.State.Online.{shows_online, on_online_users-shows_online}
use g04_final_project_d_25_c.Gui.Delivery.{deliver}

list_usernames-contains :
    (name : String) (s : Server)
    → contains name (list_usernames s) ≡ is_some (Connections.get name s)
unfolding list_usernames Connections.get
list_usernames-contains name s = contains-sort_by (λ n. n) name _ ∙ contains-keys name s.clients

-- A user whose socket works and who asks for the users who are online is sent one packet; after the
-- graphical client has handled it, it shows any user but its own as online if and only if the server
-- has a connection of that user.
pub send_online_users-shows_online :
    (qt_int : ℤ → Result ℤ) (user name : String) (conn : ℕ) (s : Server) (w : TcpWorker)
    (g : GuiState)
    → (user == "") ≡ false
    → Connections.get user s ≡ some conn
    → s.writable conn ≡ true
    → is_me name g.model.username ≡ false
    → (packet : Reply) × ((send_online_users user s).1.sent ≡ (conn, packet) ∷ s.sent)
      × (shows_online (Dict.get name (deliver qt_int packet w g).model.users)
          ≡ is_some (Connections.get name s))
unfolding send_online_users send_packet send transmit deliver on_event
send_online_users-shows_online qt_int user name conn s w g h c o other = (
  record {
    type = get_online_users;
    fields =
        ("timestamp", string (timestamp s))
        ∷ ("sender", string "server")
        ∷ ("online_users", names (list_usernames s))
        ∷ [];
  },
  rw (h, send_online_users, c, o) refl,
  on_online_users-shows_online (list_usernames s) g name other ∙ list_usernames-contains name s,
)
