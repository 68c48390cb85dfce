-- ===== src/Service/Clients/Pending.antt =====
-- server/service.py, send_pending_friend_requests.
use g04_final_project_d_25_c.Prelude.{◌≡◌, refl, String, String_eq, List, ◌∷◌}
use g04_final_project_d_25_c.Dict
use g04_final_project_d_25_c.Exec.{err, internal_error, ◌>>=◌, for_each}
use g04_final_project_d_25_c.Database.Friends.{list_pending_friend_requests}
use g04_final_project_d_25_c.Server.{Server, query}
use g04_final_project_d_25_c.Service.{send_packet}
use g04_final_project_d_25_c.Service.Clients.{send_pending_friend_requests, pending_packet}

-- For a user whom somebody has asked, `send_pending_friend_requests` raises, and sends nothing.
pub send_pending_friend_requests-raises :
    (username sender : String) (rest : List String) (s : Server)
    → list_pending_friend_requests username s.db ≡ sender ∷ rest
    → send_pending_friend_requests username s ≡ (err internal_error, s)
unfolding send_pending_friend_requests pending_packet send_packet query for_each ◌>>=◌ Dict.get
send_pending_friend_requests-raises username sender rest s h = rw h refl
