-- ===== src/Client/Login/SigningIn.antt =====
-- client/client_app.py: when `login` signs a user in, and as whom.
use g04_final_project_d_25_c.Prelude.{
  ◌≡◌, true, false, String, String_eq, ◌==◌, some, List, [], ◌∷◌, ◌++◌, or_else,
}
use g04_final_project_d_25_c.Protocol.{Packet, PacketType, Reply, text, wire_name}
use g04_final_project_d_25_c.Client.{ConvoxClient}
use g04_final_project_d_25_c.Client.Login.{
  Outcome, Answers, again, signed_in, closed, login, is_success, field_text, given_or,
}

-- Some answers were read, and the user is who it was before.
pub record Unsigned (rs rs' : Answers) (c c' : ConvoxClient) : Type 0 where
  pub read : Answers
  pub in_order : rs ≡ read ++ rs'
  pub same_username : c'.username ≡ c.username
  pub same_token : c'.session_token ≡ c.session_token
  pub same_room : c'.current_room ≡ c.current_room
  pub same_running : c'.running ≡ c.running

abbrev pub login_request : String → String → Packet
login_request name password =
    ("type", text (wire_name PacketType.login))
    ∷ ("sender", text name)
    ∷ ("username", text name)
    ∷ ("password", text password)
    ∷ []

-- The last packet is a LOGIN with a name, the last answer that was read is AUTH_SUCCESS, and the user is
-- who that answer says.
pub record SignedIn (rs rs' : Answers) (c' : ConvoxClient) : Type 0 where
  pub read : Answers
  pub reply : Reply
  pub in_order : rs ≡ read ++ some reply ∷ rs'
  pub success : is_success (some reply) ≡ true
  pub earlier : List Packet
  pub name : String
  pub password : String
  pub last_sent : c'.sent ≡ earlier ++ login_request name password ∷ []
  pub named : (name == "") ≡ false
  pub as_user : c'.username ≡ some (given_or (field_text "username" (some reply)) name)
  pub with_token : c'.session_token ≡ field_text "session_token" (some reply)
  pub in_room : c'.current_room ≡ or_else (field_text "room" (some reply)) "global"
  pub runs : c'.running ≡ true

abbrev pub IsSettled : Answers → ConvoxClient → Answers × (Outcome × ConvoxClient) → Type 0
IsSettled rs c (rs', (again, c')) = Unsigned rs rs' c c'
IsSettled rs c (rs', (closed, c')) = Unsigned rs rs' c c'
IsSettled rs c (rs', (signed_in, c')) = SignedIn rs rs' c'
