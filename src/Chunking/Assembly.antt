-- ===== src/Chunking/Assembly.antt =====
-- protocol/chunking/chunk_manager.py, and handle_file_end of server/service.py: the contents that
-- the chunks of a transfer give.
use g04_final_project_d_25_c.Prelude.{
  Bytes, ℕ, suc, ◌≡◌, refl, ap, ◌∙◌, true, String, String_eq, ℕ_eq, Option, none, some, List, [],
  ◌∷◌, ◌++◌, length, beq_refl,
}
use g04_final_project_d_25_c.Dict.{Dict, get-put_self}
use g04_final_project_d_25_c.Dict.Runs.{HoldsRun, AreNew, put_all, put_all-append}
use g04_final_project_d_25_c.Chunking.{
  ChunkState, ChunkManager, begin_transfer, get_state, add_chunk, complete_transfer, receive,
  is_complete, missing_chunks, missing_from, join_chunks,
}

abbrev pub concat : List Bytes → Bytes
concat [] = []
concat (c ∷ cs) = c ++ concat cs

missing_from-HoldsRun :
    (i : ℕ) (cs : List Bytes) (d : Dict ℕ Bytes)
    → HoldsRun i cs d
    → missing_from i (length cs) d ≡ []
unfolding missing_from
missing_from-HoldsRun i [] d h = refl
missing_from-HoldsRun i (c ∷ cs) d h = rw (h.0) (missing_from-HoldsRun (suc i) cs d h.1)

join_chunks-HoldsRun :
    (i : ℕ) (cs : List Bytes) (d : Dict ℕ Bytes)
    → HoldsRun i cs d
    → join_chunks i (length cs) d ≡ some (concat cs)
unfolding join_chunks
join_chunks-HoldsRun i [] d h = refl
join_chunks-HoldsRun i (c ∷ cs) d h =
    rw (h.0, join_chunks-HoldsRun (suc i) cs d h.1, join_chunks) refl

-- The chunks of one transfer, one `add_chunk` after the other.
abbrev pub add_all : String → Dict ℕ Bytes → ChunkManager → ChunkManager
add_all t [] m = m
add_all t ((i, c) ∷ arrivals) m = add_all t arrivals (add_chunk t i c m)

abbrev receive_all : Dict ℕ Bytes → ChunkState → ChunkState
receive_all arrivals s = record s { received_chunks = put_all arrivals s.received_chunks }

add_chunk-held :
    (t : String) (i : ℕ) (c : Bytes) (s : ChunkState) (m : ChunkManager)
    → get_state t m ≡ some s
    → get_state t (add_chunk t i c m) ≡ some (receive i c s)
unfolding get_state add_chunk
add_chunk-held t i c s m h = rw (h, add_chunk) (get-put_self t (receive i c s) m.transfers)

add_all-held :
    (t : String) (arrivals : Dict ℕ Bytes) (s : ChunkState) (m : ChunkManager)
    → get_state t m ≡ some s
    → get_state t (add_all t arrivals m) ≡ some (receive_all arrivals s)
add_all-held t [] s m h = h
add_all-held t ((i, c) ∷ arrivals) s m h =
    add_all-held t arrivals (receive i c s) (add_chunk t i c m) (add_chunk-held t i c s m h)

begin_transfer-held :
    (t f : String) (n : Option ℕ) (x : Dict String String) (m : ChunkManager)
    → get_state t (begin_transfer t f n x m)
      ≡ some (record {
        transfer_id = t;
        total_chunks = n;
        received_chunks = [];
        filename = f;
        metadata = x;
      })
unfolding get_state begin_transfer
begin_transfer-held t f n x m = get-put_self t _ _

complete_transfer-held :
    (t : String) (s : ChunkState) (m : ChunkManager)
    → get_state t m ≡ some s
    → is_complete s ≡ true
    → (complete_transfer t m).0 ≡ some s
unfolding get_state complete_transfer
complete_transfer-held t s m h k = rw (h, k, complete_transfer) refl

-- What an upload in chunks gives at its end: the missing indices, and the contents.
abbrev pub upload_outcome : Option ChunkState → Option (List ℕ × Option Bytes)
upload_outcome none = none
upload_outcome (some s) = elim s.total_chunks [
  | none ↦ none
  | some n ↦ some (missing_chunks s, join_chunks 1 n s.received_chunks)
]

whole :
    (t f : String) (x : Dict String String) (cs : List Bytes) (arrivals : Dict ℕ Bytes)
    → HoldsRun 1 cs arrivals
    → upload_outcome (
        some (record {
          transfer_id = t;
          total_chunks = some (length cs);
          received_chunks = arrivals;
          filename = f;
          metadata = x;
        }))
      ≡ some ([], some (concat cs))
unfolding missing_chunks
whole t f x cs arrivals h =
    rw (missing_from-HoldsRun 1 cs arrivals h, join_chunks-HoldsRun 1 cs arrivals h) refl

-- A transfer of some chunks is begun, and its chunks come in, each once and in any order, under their
-- indices from 1 on. Then `complete_transfer` hands the transfer out, no index is missing, and the
-- bytes that `handle_file_end` joins are the chunks one after the other in the order of their
-- indices, whatever transfers the manager held before.
pub upload-roundtrip :
    (t f : String) (x : Dict String String) (cs : List Bytes) (arrivals : Dict ℕ Bytes)
    (m : ChunkManager)
    → AreNew arrivals []
    → length arrivals ≡ length cs
    → HoldsRun 1 cs arrivals
    → upload_outcome
        (complete_transfer t (add_all t arrivals (begin_transfer t f (some (length cs)) x m))).0
      ≡ some ([], some (concat cs))
unfolding is_complete
upload-roundtrip t f x cs arrivals m new size run =
    let s : ChunkState = record {
      transfer_id = t;
      total_chunks = some (length cs);
      received_chunks = [];
      filename = f;
      metadata = x;
    } in
    let held =
      add_all-held t arrivals s (begin_transfer t f (some (length cs)) x m)
        (begin_transfer-held t f (some (length cs)) x m) in
    let all = put_all-append arrivals [] new in
    ap upload_outcome (
      complete_transfer-held t (receive_all arrivals s)
        (add_all t arrivals (begin_transfer t f (some (length cs)) x m)) held
        (rw (all, size) (beq_refl (length cs))))
    ∙ rw all (whole t f x cs arrivals run)
