-- ===== src/Client/Commands/Understood.antt =====
-- What the user types, and the packets that come of it.
use g04_final_project_d_25_c.Prelude.{
  Bytes, Bool, true, false, ◌&&◌, String, Option, none, some, List, [], ◌∷◌, ◌++◌, ◌≡◌, refl, ap,
  ◌∙◌, is_some, Option-cases, inl, inr, arith, String_eq,
}
use g04_final_project_d_25_c.Dict.{Dict, get}
use g04_final_project_d_25_c.Exec.{
  Keeps, Exec, modify, catch, keeps_rules, Keeps-bind, Keeps-pure, Keeps-gets, Keeps-modify,
  Keeps-if, Keeps-when, Keeps-catch, Keeps-for_each,
}
use g04_final_project_d_25_c.Protocol.{Packet, PacketType, Value, null, text, field_or, wire_name}
use g04_final_project_d_25_c.Service.Routing.{type_among, routed}
use g04_final_project_d_25_c.Client.{
  Machine, ConvoxClient, say, send_packet, packet_from, put_sent, FileRead, missing, unreadable,
  contents, join_as, voice_join, voice_leave, set_mute, announce_voice,
}
use g04_final_project_d_25_c.Client.Uploads.{
  send_chunks, send_file, send_image, send_image_data, chunks_of, chunk_size, error_line,
}
use g04_final_project_d_25_c.Client.Commands.{Command, execute, print_help, on_line, handle_command}

-- The server has a branch of `route_packet` for the packet.
abbrev pub is_understood : Packet → Bool
is_understood p = is_some (type_among routed (field_or "type" null p))

abbrev pub all_understood : List Packet → Bool
all_understood [] = true
all_understood (p ∷ ps) = is_understood p && all_understood ps

-- The client has sent what it had sent before, and then packets that the server has branches for.
pub record Understood (before : List Packet) (c : ConvoxClient) : Type 0 where
  pub since : List Packet
  pub same : c.sent ≡ before ++ since
  pub known : all_understood since ≡ true

all_understood-snoc :
    (ps : List Packet) (p : Packet)
    → all_understood ps ≡ true
    → is_understood p ≡ true
    → all_understood (ps ++ p ∷ []) ≡ true
all_understood-snoc [] p h k = ground arith
all_understood-snoc (q ∷ ps) p h k = ground (arith, all_understood-snoc ps p)

packets_assoc : (a b c : List Packet) → (a ++ b) ++ c ≡ a ++ (b ++ c)
packets_assoc [] b c = refl
packets_assoc (x ∷ a) b c = ap (λ l. x ∷ l) (packets_assoc a b c)

Understood-snoc :
    (before : List Packet) (p : Packet) (c : ConvoxClient)
    → is_understood p ≡ true
    → Understood before c
    → Understood before (record c { sent = c.sent ++ p ∷ [] })
Understood-snoc before p c k h = record {
  since = h.since ++ p ∷ [];
  same = ap (λ ps. ps ++ p ∷ []) h.same ∙ packets_assoc before h.since (p ∷ []);
  known = all_understood-snoc h.since p h.known k;
}

abbrev pub is_routed : PacketType → Bool
is_routed t = is_some (type_among routed (text (wire_name t)))

module _ {before : List Packet} where
  -- A change of anything but what was sent.
  pub modify-Keeps :
      (f : ConvoxClient → ConvoxClient)
      → ((c : ConvoxClient) → (f c).sent ≡ c.sent)
      → Keeps (Understood before) (modify f)
  modify-Keeps f same =
      Keeps-modify f (λ c h. record { since = h.since; same = same c ∙ h.same; known = h.known })

  pub say-Keeps : (pieces : List String) → Keeps (Understood before) (say pieces)
  unfolding say
  say-Keeps pieces = modify-Keeps _ (λ c. refl)

  pub send_packet-Keeps :
      (t : PacketType) (fields : Dict String Value)
      → is_routed t ≡ true
      → Keeps (Understood before) (send_packet t fields)
  unfolding send_packet get
  send_packet-Keeps t fields known = record { after = by_socket }
    where
      by_socket :
          (c : ConvoxClient) → Understood before c → Understood before (send_packet t fields c).1
      by_socket c h = elim (Option-cases c.broken) [
        | inl e ↦
            rw (e, put_sent) (Understood-snoc before (packet_from c.username t fields) c known h)
        | inr (r, e) ↦ rw (e, put_sent) h
      ]

  pub ruleset client_rules = (keeps_rules, say-Keeps, modify-Keeps, send_packet-Keeps)

  announce_voice-Keeps :
      (machine : Machine) (name : String) → Keeps (Understood before) (announce_voice machine name)
  unfolding type_among wire_name
  announce_voice-Keeps machine name = search client_rules depth 10

  join_as-Keeps :
      (machine : Machine) (name room : Option String)
      → Keeps (Understood before) (join_as machine name room)
  unfolding join_as
  join_as-Keeps machine none room = search client_rules
  join_as-Keeps machine (some name) room = search (client_rules, announce_voice-Keeps)

  voice_join-Keeps : (machine : Machine) → Keeps (Understood before) (voice_join machine)
  unfolding voice_join
  voice_join-Keeps machine = search (client_rules, join_as-Keeps)

  voice_leave-Keeps : Keeps (Understood before) voice_leave
  unfolding voice_leave type_among wire_name
  voice_leave-Keeps = search client_rules depth 10

  set_mute-Keeps : (muted : Bool) → Keeps (Understood before) (set_mute muted)
  unfolding set_mute type_among wire_name
  set_mute-Keeps muted = search client_rules depth 10

  send_chunks-Keeps :
      (machine : Machine) (path : String) (bs : Bytes) (chunks : List Bytes)
      → Keeps (Understood before) (send_chunks machine path bs chunks)
  unfolding type_among wire_name
  send_chunks-Keeps machine path bs chunks = search client_rules depth 12

  send_file-Keeps :
      (machine : Machine) (path : String) → Keeps (Understood before) (send_file machine path)
  unfolding send_file
  send_file-Keeps machine path = by_contents (machine.read path)
    where
      by_contents :
          (r : FileRead)
          → Keeps (Understood before) (elim r [
            | missing ↦ say ("File not found: " ∷ path ∷ [])
            | unreadable reason ↦ say ("Error sending file: " ∷ reason ∷ [])
            | contents bs ↦
                catch
                  (send_chunks machine path bs (chunks_of chunk_size bs))
                  (λ e. say ("Error sending file: " ∷ error_line e ∷ []))
          ])
      by_contents missing = search client_rules
      by_contents (unreadable reason) = search client_rules
      by_contents (contents bs) = search (client_rules, send_chunks-Keeps)

  send_image_data-Keeps :
      (machine : Machine) (path : String) (bs : Bytes)
      → Keeps (Understood before) (send_image_data machine path bs)
  unfolding type_among wire_name
  send_image_data-Keeps machine path bs = search client_rules depth 12

  send_image-Keeps :
      (machine : Machine) (path : String) → Keeps (Understood before) (send_image machine path)
  unfolding send_image
  send_image-Keeps machine path = by_contents (machine.read path)
    where
      by_contents :
          (r : FileRead)
          → Keeps (Understood before) (elim r [
            | missing ↦ say ("Image file not found: " ∷ path ∷ [])
            | unreadable reason ↦ say ("Error sending image: " ∷ reason ∷ [])
            | contents bs ↦
                catch
                  (send_image_data machine path bs)
                  (λ e. say ("Error sending image: " ∷ error_line e ∷ []))
          ])
      by_contents missing = search client_rules
      by_contents (unreadable reason) = search client_rules
      by_contents (contents bs) = search (client_rules, send_image_data-Keeps)

  print_help-Keeps : Keeps (Understood before) print_help
  unfolding print_help
  print_help-Keeps = search client_rules

  execute-Keeps :
      (machine : Machine) (command : Command) → Keeps (Understood before) (execute machine command)
  unfolding execute type_among wire_name
  execute-Keeps machine Command.help = print_help-Keeps
  execute-Keeps machine Command.online = search client_rules
  execute-Keeps machine Command.leave = search client_rules
  execute-Keeps machine Command.matchmake = search client_rules
  execute-Keeps machine Command.friends = search client_rules
  execute-Keeps machine Command.join_voice = voice_join-Keeps machine
  execute-Keeps machine Command.leave_voice = voice_leave-Keeps
  execute-Keeps machine Command.mute = set_mute-Keeps true
  execute-Keeps machine Command.unmute = set_mute-Keeps false
  execute-Keeps machine Command.voice_users = search client_rules
  execute-Keeps machine Command.ptt = search client_rules
  execute-Keeps machine Command.quit = search client_rules
  execute-Keeps machine Command.unknown = search client_rules
  execute-Keeps machine (Command.join a) = search client_rules
  execute-Keeps machine (Command.create a) = search client_rules
  execute-Keeps machine (Command.delete a) = search client_rules
  execute-Keeps machine (Command.invite a) = search client_rules
  execute-Keeps machine (Command.kick a) = search client_rules
  execute-Keeps machine (Command.friend a) = search client_rules
  execute-Keeps machine (Command.accept a) = search client_rules
  execute-Keeps machine (Command.reject a) = search client_rules
  execute-Keeps machine (Command.remove a) = search client_rules
  execute-Keeps machine (Command.status a) = search client_rules
  execute-Keeps machine (Command.image_from a) = send_image-Keeps machine a
  execute-Keeps machine (Command.file_from a) = send_file-Keeps machine a
  execute-Keeps machine (Command.reconnect a) = search client_rules
  execute-Keeps machine (Command.message_to a b) = search client_rules

  pub on_line-Keeps :
      (machine : Machine) (line : String) → Keeps (Understood before) (on_line machine line)
  unfolding on_line handle_command type_among wire_name
  on_line-Keeps machine line = search (client_rules, execute-Keeps) depth 10
