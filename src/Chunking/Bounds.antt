-- ===== src/Chunking/Bounds.antt =====
-- protocol/chunking/chunk_manager.py: how many transfers are held.
use g04_final_project_d_25_c.Prelude.{
  Bytes, ℕ, ◌+◌, ◌≤◌, ◌<◌, ◌≡◌, refl, String, String_eq, Option, some, [], ◌∷◌, length, arith, leb,
  Bool-cases, Option-cases, inl, inr,
}
use g04_final_project_d_25_c.Dict.{Dict, get, put, length-put, length-pop-le, length-pop_head}
use g04_final_project_d_25_c.Chunking.{
  ChunkState, ChunkManager, evict_oldest, begin_transfer, add_chunk, complete_transfer,
  cancel_transfer, receive, is_complete,
}

-- No more transfers are held than the buffer has room for.
abbrev pub IsBounded : ChunkManager → Type 0
IsBounded m = (length m.transfers ≤ m.max_buffer) × (0 < m.max_buffer)

evicted :
    (d : Dict String ChunkState) (n : ℕ) → length d ≤ n → 0 < n → length (evict_oldest d) + 1 ≤ n
unfolding evict_oldest
evicted [] n h k = omega arith
evicted ((i, s) ∷ d) n h k = omega (arith, length-pop_head i s d)

length-put-le :
    (k : String) (s : ChunkState) (d : Dict String ChunkState) → length (put k s d) ≤ length d + 1
length-put-le k s d = ground (arith, length-put k s d)

length-put_same :
    (k : String) (s t : ChunkState) (d : Dict String ChunkState)
    → get k d ≡ some t
    → length (put k s d) ≡ length d
length-put_same k s t d e = rw (length-put k s d, e) refl

pub begin_transfer-IsBounded :
    (t f : String) (n : Option ℕ) (x : Dict String String) (m : ChunkManager)
    → IsBounded m
    → IsBounded (begin_transfer t f n x m)
unfolding begin_transfer
begin_transfer-IsBounded t f n x m h = elim (Bool-cases (leb m.max_buffer (length m.transfers))) [
  | inl full ↦
      rw (full, begin_transfer)
        (begun (evict_oldest m.transfers) (evicted m.transfers m.max_buffer h.0 h.1), h.1)
  | inr free ↦ rw (free, begin_transfer) (begun m.transfers (ground arith), h.1)
]
  where
    begun :
        (d : Dict String ChunkState)
        → length d + 1 ≤ m.max_buffer
        → length (
            put t
              (record {
                transfer_id = t;
                total_chunks = n;
                received_chunks = [];
                filename = f;
                metadata = x;
              })
              d)
          ≤ m.max_buffer
    begun d k = omega (
      arith,
      length-put-le t
          (record {
            transfer_id = t;
            total_chunks = n;
            received_chunks = [];
            filename = f;
            metadata = x;
          })
          d,
    )

pub add_chunk-IsBounded :
    (t : String) (i : ℕ) (b : Bytes) (m : ChunkManager)
    → IsBounded m
    → IsBounded (add_chunk t i b m)
unfolding add_chunk
add_chunk-IsBounded t i b m h = elim (Option-cases (get t m.transfers)) [
  | inl e ↦ rw (e, add_chunk) h
  | inr (s, e) ↦ rw (e, add_chunk) (rw (length-put_same t (receive i b s) s m.transfers e) h.0, h.1)
]

pub complete_transfer-IsBounded :
    (t : String) (m : ChunkManager) → IsBounded m → IsBounded (complete_transfer t m).1
unfolding complete_transfer
complete_transfer-IsBounded t m h = elim (Option-cases (get t m.transfers)) [
  | inl e ↦ rw (e, complete_transfer) h
  | inr (s, e) ↦ (elim (Bool-cases (is_complete s)) [
    | inl c ↦ rw (e, c, complete_transfer) (omega (arith, length-pop-le t m.transfers), h.1)
    | inr c ↦ rw (e, c, complete_transfer) h
  ])
]

pub cancel_transfer-IsBounded :
    (t : String) (m : ChunkManager) → IsBounded m → IsBounded (cancel_transfer t m)
unfolding cancel_transfer
cancel_transfer-IsBounded t m h = (omega (arith, length-pop-le t m.transfers), h.1)

pub begin_transfer-limit :
    (t f : String) (n : Option ℕ) (x : Dict String String) (m : ChunkManager)
    → (begin_transfer t f n x m).max_buffer ≡ m.max_buffer
unfolding begin_transfer
begin_transfer-limit t f n x m = refl

pub add_chunk-limit :
    (t : String) (i : ℕ) (b : Bytes) (m : ChunkManager)
    → (add_chunk t i b m).max_buffer ≡ m.max_buffer
unfolding add_chunk
add_chunk-limit t i b m = elim (Option-cases (get t m.transfers)) [
  | inl e ↦ rw (e, add_chunk) refl
  | inr (s, e) ↦ rw (e, add_chunk) refl
]

pub complete_transfer-limit :
    (t : String) (m : ChunkManager) → (complete_transfer t m).1.max_buffer ≡ m.max_buffer
unfolding complete_transfer
complete_transfer-limit t m = elim (Option-cases (get t m.transfers)) [
  | inl e ↦ rw (e, complete_transfer) refl
  | inr (s, e) ↦ elim (Bool-cases (is_complete s)) [
    | inl c ↦ rw (e, c, complete_transfer) refl
    | inr c ↦ rw (e, c, complete_transfer) refl
  ]
]

pub cancel_transfer-limit :
    (t : String) (m : ChunkManager) → (cancel_transfer t m).max_buffer ≡ m.max_buffer
unfolding cancel_transfer
cancel_transfer-limit t m = refl
