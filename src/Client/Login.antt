-- ===== src/Client/Login.antt =====
-- client/client_app.py: the dialogue of `login`. The user's answers come as a list, and what
-- `receive_packet` gives as another, where `none` is a connection that has ended; it gives nothing
-- more after the end of the list. The socket takes what is sent here. A text that is printed or kept is
-- a text in the packet.
pub mod SigningIn
use g04_final_project_d_25_c.Prelude.{
  ℕ, Bool, true, false, ◌&&◌, ◌||◌, String, String_eq, ◌==◌, Option, none, some, List, [], ◌∷◌,
  ◌++◌, code, nat_eq, if◌then◌else◌, or_else, strip, lower, join_text,
}
use g04_final_project_d_25_c.Dict.{Dict, get}
use g04_final_project_d_25_c.Protocol.{
  Packet, PacketType, Reply, Field, string, Value, text, wire_name,
}
use g04_final_project_d_25_c.Client.{ConvoxClient}

pub record Attempt : Type 0 where
  pub username : String
  pub password : String
  pub choice : String

-- How a turn of the loop ends: with another turn, or with `return` or `break`. A loop whose user says
-- no more waits.
pub data Outcome : Type 0 where
  again signed_in closed : Outcome

abbrev pub Answers : Type 0
Answers = List (Option Reply)

abbrev pub next_answer : Answers → Option Reply
next_answer [] = none
next_answer (r ∷ rs) = r

abbrev pub rest_of : Answers → Answers
rest_of [] = []
rest_of (r ∷ rs) = rs

abbrev pub print_line : List String → ConvoxClient → ConvoxClient
print_line pieces c = record c { printed = c.printed ++ join_text pieces ∷ [] }

-- `response.get("type") == PacketType.AUTH_SUCCESS.value`
abbrev pub is_success : Option Reply → Bool
is_success none = false
is_success (some r) = wire_name r.type == wire_name PacketType.auth_success

abbrev pub field_text : String → Option Reply → Option String
field_text key none = none
field_text key (some r) = elim (get key r.fields) [
  | none ↦ none
  | some f ↦ elim f [ string s ↦ some s | _ ↦ none ]
]

abbrev pub credentials : PacketType → String → String → ConvoxClient → ConvoxClient
credentials t name password c = record c {
  sent =
      c.sent
      ++ (("type", text (wire_name t))
          ∷ ("sender", text name)
          ∷ ("username", text name)
          ∷ ("password", text password)
          ∷ [])
        ∷ [];
}

-- `response.get("username") or username`
abbrev pub given_or : Option String → String → String
given_or none name = name
given_or (some s) name = if s == "" then name else s

-- After the loop, the client runs.
unfoldable pub welcome : String → Option Reply → ConvoxClient → ConvoxClient
unfolding get join_text
welcome name r c =
    print_line ("[AUTH] Signed in as " ∷ given_or (field_text "username" r) name ∷ "." ∷ [])
      (record c {
        username = some (given_or (field_text "username" r) name);
        session_token = field_text "session_token" r;
        current_room = or_else (field_text "room" r) "global";
        running = true;
      })

abbrev pub answered : String → Option Reply → ConvoxClient → Outcome × ConvoxClient
answered name none c =
    (closed, print_line ("Server closed the connection during authentication." ∷ []) c)
answered name (some r) c = if is_success (some r) then (signed_in, welcome name (some r) c) else (
  again,
  print_line ("[AUTH] " ∷ or_else (field_text "message" (some r)) "Authentication failed." ∷ []) c,
)

-- The part of a turn after `# LOGIN`
unfoldable pub sign_in :
    String → String → Answers → ConvoxClient → Answers × (Outcome × ConvoxClient)
unfolding wire_name get join_text welcome
sign_in name password rs c =
    (rest_of rs, answered name (next_answer rs) (credentials PacketType.login name password c))

abbrev starts_with_n : String → Bool
starts_with_n String.[] = false
starts_with_n (String.◌∷◌ c s) = nat_eq (code c) b'n'

-- `choice.startswith("n")`, with "y" for an empty choice
abbrev pub wants_account : String → Bool
wants_account choice = starts_with_n (lower (strip choice))

unfoldable pub register_first :
    String → String → Answers → ConvoxClient → Answers × (Outcome × ConvoxClient)
unfolding wire_name get join_text sign_in
register_first name password rs c =
    let r = next_answer rs in
    let asked : ConvoxClient = credentials PacketType.register name password c in
    if is_success r
    then sign_in name password (rest_of rs)
        (print_line ("[AUTH] " ∷ or_else (field_text "message" r) "Account created." ∷ []) asked)
    else (
      rest_of rs,
      (
        again,
        print_line ("[AUTH] " ∷ or_else (field_text "message" r) "Registration failed." ∷ []) asked,
      ),
    )

-- One turn of the loop.
unfoldable pub attempt : Attempt → Answers → ConvoxClient → Answers × (Outcome × ConvoxClient)
unfolding strip lower join_text sign_in register_first
attempt a rs c =
    if strip a.username == "" || a.password == ""
    then (rs, (again, print_line ("Username and password are required." ∷ []) c))
    else if wants_account a.choice
    then register_first (strip a.username) a.password rs c
    else sign_in (strip a.username) a.password rs c

-- What follows a turn.
abbrev pub settle :
    Answers × (Outcome × ConvoxClient)
    → (Answers → ConvoxClient → Answers × (Outcome × ConvoxClient))
    → Answers × (Outcome × ConvoxClient)
settle (rs, (again, c)) f = f rs c
settle (rs, (signed_in, c)) f = (rs, (signed_in, c))
settle (rs, (closed, c)) f = (rs, (closed, c))

unfoldable pub login : List Attempt → Answers → ConvoxClient → Answers × (Outcome × ConvoxClient)
unfolding attempt
login [] rs c = (rs, (again, c))
login (a ∷ more) rs c = settle (attempt a rs c) (λ rs' c'. login more rs' c')
