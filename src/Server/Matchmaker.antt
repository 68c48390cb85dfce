-- ===== src/Server/Matchmaker.antt =====
-- matchmaking/matchmaker.py
pub mod Laws
use g04_final_project_d_25_c.Prelude.{
  Bool, true, false, String, String_eq, ◌==◌, List, [], ◌∷◌, ◌++◌, contains, remove_first,
  if◌then◌else◌,
}
use g04_final_project_d_25_c.Exec.{Exec, pure, gets, modify, ◌>>=◌, ◌>>◌}
use g04_final_project_d_25_c.Server.State.{Server}

-- The texts "already_queued", "matched" and "queued".
pub data EnqueueResult : Type 0 where
  already_queued matched queued : EnqueueResult

-- The first two of the queue if there are two, and what stays.
unfoldable pub take_match : List String → List String × List String
take_match [] = ([], [])
take_match (a ∷ []) = ([], a ∷ [])
take_match (a ∷ b ∷ rest) = (a ∷ b ∷ [], rest)

abbrev pub announce :
    List String → (List String → Exec Server (Unit {0})) → Exec Server EnqueueResult
announce [] on_match = pure queued
announce (a ∷ as') on_match = do on_match (a ∷ as'); pure matched

unfoldable pub enqueue : String → (List String → Exec Server (Unit {0})) → Exec Server EnqueueResult
enqueue username on_match = do
  waiting ← gets (λ s. s.queue)
  if contains username waiting then pure already_queued else do
    let line = take_match (waiting ++ username ∷ [])
    modify (λ s. record s { queue = line.1 })
    announce line.0 on_match

unfoldable pub leave_queue : String → Server → Server
leave_queue username s = record s { queue = remove_first username s.queue }
