-- ===== src/Server/Matchmaker/Laws.antt =====
-- matchmaking/matchmaker.py: what joining and leaving the queue do to it.
use g04_final_project_d_25_c.Prelude.{
  ◌≤◌, ◌≡◌, refl, String, String_eq, ◌==◌, List, [], ◌∷◌, ◌++◌, Bool-cases, inl, inr, length,
  remove_first, arith, if◌then◌else◌,
}
use g04_final_project_d_25_c.Exec.{Exec, pure, modify, ◌>>=◌, ◌>>◌}
use g04_final_project_d_25_c.Server.State.{Server}
use g04_final_project_d_25_c.Server.Matchmaker.{
  EnqueueResult, already_queued, matched, queued, enqueue, take_match,
}

pub take_match-waiting :
    (q : List String) (u : String) → length q ≤ 1 → length (take_match (q ++ u ∷ [])).1 ≤ 1
unfolding take_match
take_match-waiting [] u h = omega arith
take_match-waiting (a ∷ []) u h = omega arith
take_match-waiting (a ∷ b ∷ q) u h = omega arith

pub length-remove_first-le : (u : String) (q : List String) → length (remove_first u q) ≤ length q
length-remove_first-le u [] = omega arith
length-remove_first-le u (x ∷ q) = ground (arith, length-remove_first-le u q)

abbrev set_queue : List String → Server → Server
set_queue q s = record s { queue = q }

-- What `enqueue` comes to, by the queue that it finds.
abbrev pub joined :
    String → (List String → Exec Server (Unit {0})) → List String → Exec Server EnqueueResult
joined u on_match [] = do modify (set_queue (u ∷ [])); pure queued
joined u on_match (v ∷ rest) =
    if v == u
    then pure already_queued
    else do modify (set_queue []); on_match (v ∷ u ∷ []); pure matched

-- Where at most one user waits, a user who comes to an empty queue waits in it; a user who already
-- waits changes nothing; and any other user is matched at once with the one who waits: the queue is
-- empty before the match is made, and the match has those two, the one who waited first.
pub enqueue-joined :
    (u : String) (on_match : List String → Exec Server (Unit {0})) (s : Server)
    → length s.queue ≤ 1
    → enqueue u on_match s ≡ joined u on_match s.queue s
unfolding enqueue ◌>>=◌ take_match
enqueue-joined u on_match s h = by_queue s.queue h refl
  where
    by_queue :
        (q : List String)
        → length q ≤ 1
        → s.queue ≡ q
        → enqueue u on_match s ≡ joined u on_match q s
    by_queue [] k e = rw e refl
    by_queue (v ∷ []) k e = elim (Bool-cases (v == u)) [
      | inl same ↦ rw (e, same) refl
      | inr other ↦ rw (e, other) refl
    ]
    by_queue (v ∷ w ∷ q) k e = ground arith
