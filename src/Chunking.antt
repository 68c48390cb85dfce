-- ===== src/Chunking.antt =====
-- protocol/chunking/chunk_manager.py: transfers that arrive in chunks.
pub mod Bounds
pub mod Assembly
use g04_final_project_d_25_c.Prelude.{
  Bytes, ℕ, zero, suc, ◌+◌, Bool, true, false, String, Option, none, some, List, [], ◌∷◌, ◌++◌,
  length, leb, if◌then◌else◌, ◌==◌, ℕ_eq, String_eq, join_text,
}
use g04_final_project_d_25_c.Dict.{Dict, get, put, pop, has}

abbrev pub max_chunk_buffer : ℕ
max_chunk_buffer = 20

unfoldable pub generate_transfer_id : String → String → String → String
unfolding join_text
generate_transfer_id sender filename timestamp =
    join_text (sender ∷ ":" ∷ filename ∷ ":" ∷ timestamp ∷ [])

pub record ChunkState : Type 0 where
  pub transfer_id : String
  pub total_chunks : Option ℕ
  pub received_chunks : Dict ℕ Bytes
  pub filename : String
  pub metadata : Dict String String

unfoldable pub is_complete : ChunkState → Bool
is_complete s = elim s.total_chunks [ none ↦ false | some n ↦ length s.received_chunks == n ]

-- The indices from `i` on, `n` of them, that have not been received.
unfoldable pub missing_from : ℕ → ℕ → Dict ℕ Bytes → List ℕ
missing_from i zero d = []
missing_from i (suc n) d = let rest = missing_from (suc i) n d in if has i d then rest else i ∷ rest

unfoldable pub missing_chunks : ChunkState → List ℕ
unfolding missing_from get
missing_chunks s = elim s.total_chunks [ none ↦ [] | some n ↦ missing_from 1 n s.received_chunks ]

-- `b"".join(received[idx] for idx in range(i, i + n))`; a missing index is a KeyError.
unfoldable pub join_chunks : ℕ → ℕ → Dict ℕ Bytes → Option Bytes
join_chunks i zero d = some []
join_chunks i (suc n) d = elim (get i d) [
  | none ↦ none
  | some chunk ↦ elim (join_chunks (suc i) n d) [ none ↦ none | some rest ↦ some (chunk ++ rest) ]
]

pub record ChunkManager : Type 0 where
  pub transfers : Dict String ChunkState
  pub max_buffer : ℕ

abbrev pub new_manager : ℕ → ChunkManager
new_manager n = record { transfers = []; max_buffer = n }

-- `self.transfers.pop(next(iter(self.transfers)))`
unfoldable pub evict_oldest : Dict String ChunkState → Dict String ChunkState
unfolding pop
evict_oldest [] = []
evict_oldest ((k, s) ∷ d) = pop k ((k, s) ∷ d)

unfoldable pub begin_transfer :
    String → String → Option ℕ → Dict String String → ChunkManager → ChunkManager
unfolding evict_oldest put
begin_transfer transfer_id filename total metadata m =
    let kept =
      if leb m.max_buffer (length m.transfers) then evict_oldest m.transfers else m.transfers in
    record m {
      transfers =
          put transfer_id
            (record {
              transfer_id = transfer_id;
              total_chunks = total;
              received_chunks = [];
              filename = filename;
              metadata = metadata;
            })
            kept;
    }

unfoldable pub get_state : String → ChunkManager → Option ChunkState
unfolding get
get_state transfer_id m = get transfer_id m.transfers

abbrev pub receive : ℕ → Bytes → ChunkState → ChunkState
receive i chunk s = record s { received_chunks = put i chunk s.received_chunks }

unfoldable pub add_chunk : String → ℕ → Bytes → ChunkManager → ChunkManager
unfolding get put
add_chunk transfer_id i chunk m = elim (get transfer_id m.transfers) [
  | none ↦ m
  | some s ↦ record m { transfers = put transfer_id (receive i chunk s) m.transfers }
]

-- The state that is handed out, and the manager after it.
unfoldable pub complete_transfer : String → ChunkManager → Option ChunkState × ChunkManager
unfolding get pop is_complete
complete_transfer transfer_id m = elim (get transfer_id m.transfers) [
  | none ↦ (none, m)
  | some s ↦
      if is_complete s
      then (some s, record m { transfers = pop transfer_id m.transfers })
      else (none, m)
]

unfoldable pub cancel_transfer : String → ChunkManager → ChunkManager
unfolding pop
cancel_transfer transfer_id m = record m { transfers = pop transfer_id m.transfers }
