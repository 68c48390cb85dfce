-- ===== src/Server/Connections.antt =====
-- server/connection_manager.py: one socket for each user name, and sending.
use g04_final_project_d_25_c.Prelude.{
  ℕ, Bool, false, String, String_eq, Option, none, some, List, ◌∷◌, if◌then◌else◌,
}
use g04_final_project_d_25_c.Dict
use g04_final_project_d_25_c.Dict.{Dict, keys}
use g04_final_project_d_25_c.Exec.{Exec, gets, modify, ◌>>=◌, ◌>>◌, for_each}
use g04_final_project_d_25_c.Database.{sort_by}
use g04_final_project_d_25_c.Protocol.{PacketType, Field}
use g04_final_project_d_25_c.Server.State.{Server}

unfoldable pub add : String → ℕ → Server → Server
add username conn s = record s { clients = Dict.put username conn s.clients }

unfoldable pub remove : String → Server → Server
remove username s = record s { clients = Dict.pop username s.clients }

unfoldable pub get : String → Server → Option ℕ
get username s = Dict.get username s.clients

unfoldable pub list_usernames : Server → List String
list_usernames s = sort_by (λ n. n) (keys s.clients)

-- `conn.sendall(build_packet(…))`, with its OSError caught. The encoding of a text cannot fail here: a text
-- is a sequence of Unicode scalar values, and has no lone surrogate.
unfoldable pub transmit : ℕ → PacketType → Dict String Field → Server → Server
transmit conn kind fields s =
    if s.writable conn
    then record s { sent = (conn, record { type = kind; fields = fields }) ∷ s.sent }
    else s

abbrev pub delivered : Option ℕ → Server → Bool
delivered none s = false
delivered (some conn) s = s.writable conn

abbrev pub send_to : Option ℕ → PacketType → Dict String Field → Server → Server
send_to none kind fields s = s
send_to (some conn) kind fields s = transmit conn kind fields s

unfoldable pub send : String → PacketType → Dict String Field → Exec Server Bool
send username kind fields = do
  conn ← gets (get username)
  done ← gets (delivered conn)
  modify (send_to conn kind fields)
  gets (λ _. done)

unfoldable pub broadcast : List String → PacketType → Dict String Field → Exec Server (Unit {0})
broadcast recipients kind fields = for_each recipients (λ u. do send u kind fields; gets (λ _. tt))
