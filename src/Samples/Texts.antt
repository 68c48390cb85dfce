-- ===== src/Samples/Texts.antt =====
-- Runs of the command line client on small inputs.
use g04_final_project_d_25_c.Prelude.{
  Bytes, ◌≡◌, true, String_eq, some, List, [], ◌∷◌, ◌++◌, length,
}
use g04_final_project_d_25_c.Protocol.{Packet, PacketType, Reply, string}
use g04_final_project_d_25_c.Chunking.{new_manager, begin_transfer, complete_transfer}
use g04_final_project_d_25_c.Chunking.Assembly.{add_all, upload_outcome}
use g04_final_project_d_25_c.Client.{Machine, contents, ConvoxClient, new_app}
use g04_final_project_d_25_c.Client.Uploads.{chunks_of, chunk_size, enumerate}
use g04_final_project_d_25_c.Client.Uploads.Chunks.{chunks_of-complete_transfer, AreWithin}
use g04_final_project_d_25_c.Client.Commands.Understood.{all_understood}
use g04_final_project_d_25_c.Client.Session.{
  Step, typed, arrived, take_steps, take_steps-all_understood,
}
use g04_final_project_d_25_c.Client.Login.{Attempt, Answers, login}

abbrev notes : Bytes
notes = 104 ∷ 105 ∷ []

chunks_of-complete_transfer_example :
    AreWithin chunk_size (chunks_of chunk_size notes)
    × (upload_outcome
          (complete_transfer "t1" (
            add_all "t1" (enumerate 1 (chunks_of chunk_size notes)) (
              begin_transfer "t1" "notes.txt"
                (some (length (chunks_of chunk_size notes)))
                []
                (new_manager 20)))).0
        ≡ some ([], some notes))
chunks_of-complete_transfer_example =
    chunks_of-complete_transfer "t1" "notes.txt" [] (new_manager 20) notes

abbrev laptop : Machine
laptop = record {
  read = λ path. contents notes;
  file_name = λ path. "notes.txt";
  uuid = "0b9e7c1a";
  b64encode = λ bs. "aGk=";
  voice_port = 5001;
  closed_reason = "[Errno 9] Bad file descriptor";
}

abbrev joined : Reply
joined = record {
  type = PacketType.system;
  fields =
      ("room", string "lobby")
      ∷ ("message", string "You joined room 'lobby'.")
      ∷ ("timestamp", string "12:00")
      ∷ [];
}

abbrev typed_lines : List Step
typed_lines =
    typed "/join lobby"
    ∷ arrived joined
    ∷ typed "hello"
    ∷ typed "/sendfile notes.txt"
    ∷ typed "/voicejoin"
    ∷ typed "/quit"
    ∷ typed "/nonsense"
    ∷ []

abbrev welcomed : Reply
welcomed = record {
  type = PacketType.auth_success;
  fields = ("username", string "ann") ∷ ("session_token", string "t0k3n") ∷ [];
}

-- The client after `login`, which has sent a request of its own.
abbrev signed_in_app : ConvoxClient
signed_in_app =
    (login (record { username = " ann "; password = "correct horse"; choice = "" } ∷ [])
      (some welcomed ∷ []) new_app).1.1

take_steps-all_understood_example :
    (since : List Packet) × ((take_steps laptop (λ p. "{}") typed_lines signed_in_app).sent
      ≡ signed_in_app.sent ++ since)
    × (all_understood since ≡ true)
take_steps-all_understood_example =
    take_steps-all_understood laptop (λ p. "{}") typed_lines signed_in_app

abbrev attempts : List Attempt
attempts = record { username = " ann "; password = "correct horse"; choice = "No" } ∷ []

abbrev made : Reply
made = record {
  type = PacketType.auth_success;
  fields = ("username", string "ann") ∷ ("message", string "Account created.") ∷ [];
}

abbrev answers : Answers
answers = some made ∷ some welcomed ∷ some joined ∷ []
