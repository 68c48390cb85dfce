-- ===== src/Database/Friends/Race.antt =====
-- database/db.py: two handlers of friends whose SQL statements come in turn. Each statement is committed
-- by itself, and no lock holds the others off.
use g04_final_project_d_25_c.Prelude.{ℕ, true, String, ℕ_eq}
use g04_final_project_d_25_c.Database.{Database}
use g04_final_project_d_25_c.Database.Friends.{add_friend_by_id, remove_friend, settle_request}

-- What `respond_friend_request` does for a yes, with a REMOVE_FRIEND of the sender between its two
-- INSERTs.
abbrev pub accepted_around_removal : String → String → ℕ → ℕ → Database → Database
accepted_around_removal sender receiver a b d =
    add_friend_by_id b a
      (remove_friend sender receiver (add_friend_by_id a b (settle_request a b true d)))
