-- ===== src/Client/Session.antt =====
-- A client that is signed in, over any sequence of lines that its user types and packets that come in.
use g04_final_project_d_25_c.Prelude.{
  true, String, Option, none, some, List, [], ◌∷◌, ◌++◌, ◌≡◌, refl, ap, sym, String_eq,
}
use g04_final_project_d_25_c.Exec.{Keeps, keeps_rules}
use g04_final_project_d_25_c.Protocol.{
  Packet, PacketType, Reply, Field, string, nat, names, roster, history,
}
use g04_final_project_d_25_c.Client.{Machine, ConvoxClient}
use g04_final_project_d_25_c.Client.Commands.{on_line}
use g04_final_project_d_25_c.Client.Commands.Understood.{
  Understood, all_understood, client_rules, on_line-Keeps,
}
use g04_final_project_d_25_c.Client.Display.{
  display_packet, display_branch, shown, optional, text_or_none, on_auth_success, on_session_ack,
  on_upload, on_match, on_system,
}

module _ {before : List Packet} where
  text_or_none-Keeps : (o : Option Field) → Keeps (Understood before) (text_or_none o)
  unfolding text_or_none
  text_or_none-Keeps none = search keeps_rules
  text_or_none-Keeps (some (string s)) = search keeps_rules
  text_or_none-Keeps (some (nat n)) = search keeps_rules
  text_or_none-Keeps (some (names xs)) = search keeps_rules
  text_or_none-Keeps (some (roster xs)) = search keeps_rules
  text_or_none-Keeps (some (history xs)) = search keeps_rules

  optional-Keeps : (key : String) (packet : Reply) → Keeps (Understood before) (optional key packet)
  unfolding optional
  optional-Keeps key packet = text_or_none-Keeps _

  shown-Keeps :
      (key : String) (f : Field) (packet : Reply) → Keeps (Understood before) (shown key f packet)
  unfolding shown
  shown-Keeps key f packet = search keeps_rules

  ruleset display_rules = (client_rules, optional-Keeps, shown-Keeps)

  on_auth_success-Keeps : (packet : Reply) → Keeps (Understood before) (on_auth_success packet)
  unfolding on_auth_success
  on_auth_success-Keeps packet = search display_rules depth 12

  on_session_ack-Keeps : (packet : Reply) → Keeps (Understood before) (on_session_ack packet)
  unfolding on_session_ack
  on_session_ack-Keeps packet = search display_rules depth 12

  on_upload-Keeps :
      (kind : String) (packet : Reply) → Keeps (Understood before) (on_upload kind packet)
  unfolding on_upload
  on_upload-Keeps kind packet = search display_rules depth 12

  on_match-Keeps : (packet : Reply) → Keeps (Understood before) (on_match packet)
  unfolding on_match
  on_match-Keeps packet = search display_rules depth 12

  on_system-Keeps : (packet : Reply) → Keeps (Understood before) (on_system packet)
  unfolding on_system
  on_system-Keeps packet = search display_rules depth 12

  display_branch-Keeps :
      (repr : Reply → String) (t : PacketType) (packet : Reply)
      → Keeps (Understood before) (display_branch repr t packet)
  unfolding display_branch
  display_branch-Keeps repr PacketType.auth_success packet = on_auth_success-Keeps packet
  display_branch-Keeps repr PacketType.auth_failed packet = search display_rules depth 14
  display_branch-Keeps repr PacketType.message packet = search display_rules depth 14
  display_branch-Keeps repr PacketType.private_message packet = search display_rules depth 14
  display_branch-Keeps repr PacketType.friend_request packet = search display_rules depth 14
  display_branch-Keeps repr PacketType.friend_list packet = search display_rules depth 14
  display_branch-Keeps repr PacketType.get_online_users packet = search display_rules depth 14
  display_branch-Keeps repr PacketType.status_update packet = search display_rules depth 14
  display_branch-Keeps repr PacketType.match_found packet = on_match-Keeps packet
  display_branch-Keeps repr PacketType.image packet = on_upload-Keeps "IMAGE" packet
  display_branch-Keeps repr PacketType.file packet = on_upload-Keeps "FILE" packet
  display_branch-Keeps repr PacketType.session_ack packet = on_session_ack-Keeps packet
  display_branch-Keeps repr PacketType.transfer_progress packet = search display_rules depth 14
  display_branch-Keeps repr PacketType.room_history packet = search display_rules depth 14
  display_branch-Keeps repr PacketType.system packet = on_system-Keeps packet
  display_branch-Keeps repr PacketType.error packet = search display_rules depth 14
  display_branch-Keeps repr _ packet = search display_rules

  display_packet-Keeps :
      (repr : Reply → String) (packet : Reply)
      → Keeps (Understood before) (display_packet repr packet)
  unfolding display_packet
  display_packet-Keeps repr packet = display_branch-Keeps repr packet.type packet

-- What happens to a client that is signed in: the user types a line, or a packet comes in.
pub data Step : Type 0 where
  typed : (line : String) → Step
  arrived : (packet : Reply) → Step

abbrev pub take_step : Machine → (Reply → String) → Step → ConvoxClient → ConvoxClient
take_step machine repr (typed line) c = (on_line machine line c).1
take_step machine repr (arrived packet) c = (display_packet repr packet c).1

abbrev pub take_steps : Machine → (Reply → String) → List Step → ConvoxClient → ConvoxClient
take_steps machine repr [] c = c
take_steps machine repr (s ∷ ss) c = take_steps machine repr ss (take_step machine repr s c)

take_steps-Understood :
    (before : List Packet) (machine : Machine) (repr : Reply → String) (steps : List Step)
    (c : ConvoxClient)
    → Understood before c
    → Understood before (take_steps machine repr steps c)
take_steps-Understood before machine repr [] c h = h
take_steps-Understood before machine repr (typed line ∷ steps) c h =
    take_steps-Understood before machine repr steps (on_line machine line c).1
      ((on_line-Keeps machine line).after c h)
take_steps-Understood before machine repr (arrived packet ∷ steps) c h =
    take_steps-Understood before machine repr steps (display_packet repr packet c).1
      ((display_packet-Keeps repr packet).after c h)

-- Whatever its user types, and whatever comes in meanwhile, a client sends no packet that the server has
-- no branch for: what it has sent at the end is what it had sent before, as the packets of `login`, and
-- then only packets whose types `route_packet` knows. A file that cannot be read, a command that is
-- unknown and a socket that fails are no exception.
pub take_steps-all_understood :
    (machine : Machine) (repr : Reply → String) (steps : List Step) (c : ConvoxClient)
    → (since : List Packet) × ((take_steps machine repr steps c).sent ≡ c.sent ++ since)
      × (all_understood since ≡ true)
take_steps-all_understood machine repr steps c =
    let kept =
      take_steps-Understood c.sent machine repr steps c
        (record { since = []; same = sym (append_nil c.sent); known = refl }) in
    (kept.since, kept.same, kept.known)
  where
    append_nil : (ps : List Packet) → ps ++ [] ≡ ps
    append_nil [] = refl
    append_nil (p ∷ ps) = ap (λ l. p ∷ l) (append_nil ps)
