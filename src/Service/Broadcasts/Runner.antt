-- ===== src/Service/Broadcasts/Runner.antt =====
-- scheduler/scheduled_broadcast.py: a round with a broadcast that cannot be made.
use g04_final_project_d_25_c.Prelude.{
  ◌≡◌, refl, false, String, String_eq, ◌==◌, none, some, List, ◌∷◌, Option-cases, inl, inr,
}
use g04_final_project_d_25_c.Exec.{err, internal_error, ◌>>=◌, for_each, within}
use g04_final_project_d_25_c.Database.{Database, BroadcastRow}
use g04_final_project_d_25_c.Database.Users.{get_or_create_user, with_user, find_user_id}
use g04_final_project_d_25_c.Database.Rooms.{get_room}
use g04_final_project_d_25_c.Database.Messages.{save_message}
use g04_final_project_d_25_c.Database.Broadcasts.{fetch_due_broadcasts}
use g04_final_project_d_25_c.Server.{Server, query, on_db, set_db}
use g04_final_project_d_25_c.Service.Broadcasts.{
  run_due, run_broadcast, dispatch_scheduled_broadcast,
}

get_room-with_user : (r n : String) (d : Database) → get_room r (with_user n d) ≡ get_room r d
unfolding get_room
get_room-with_user r n d = elim (Option-cases (find_user_id n d)) [
  | inl e ↦ rw (e, with_user) refl
  | inr (i, e) ↦ rw (e, with_user) refl
]

broadcasts-with_user : (n : String) (d : Database) → (with_user n d).broadcasts ≡ d.broadcasts
broadcasts-with_user n d = elim (Option-cases (find_user_id n d)) [
  | inl e ↦ rw (e, with_user) refl
  | inr (i, e) ↦ rw (e, with_user) refl
]

save_message-raises :
    (text r : String) (d : Database)
    → get_room r d ≡ none
    → (r == "") ≡ false
    → save_message "system" text "SYSTEM" (some r) none d
      ≡ (err internal_error, with_user "system" d)
unfolding save_message get_or_create_user ◌>>=◌
save_message-raises text r d gone named = rw (named, get_room-with_user r "system" d, gone) refl

run_broadcast-raises :
    (b : BroadcastRow) (s : Server)
    → get_room b.target_room s.db ≡ none
    → (b.target_room == "") ≡ false
    → run_broadcast b s ≡ (err internal_error, set_db (with_user "system" s.db) s)
unfolding run_broadcast dispatch_scheduled_broadcast on_db within ◌>>=◌
run_broadcast-raises b s gone named =
    rw (save_message-raises b.message b.target_room s.db gone named) refl

-- Where the first broadcast that is due names a room that does not exist, the round raises; what is
-- due stays unsent, and no packet goes out.
pub run_due-raises :
    (b : BroadcastRow) (rest : List BroadcastRow) (s : Server)
    → fetch_due_broadcasts s.db ≡ b ∷ rest
    → get_room b.target_room s.db ≡ none
    → (b.target_room == "") ≡ false
    → ((run_due s).0 ≡ err internal_error)
      × ((run_due s).1.sent ≡ s.sent)
      × ((run_due s).1.db.broadcasts ≡ s.db.broadcasts)
unfolding run_due query for_each ◌>>=◌
run_due-raises b rest s due gone named =
    rw (due, run_broadcast-raises b s gone named) (refl, refl, broadcasts-with_user "system" s.db)
