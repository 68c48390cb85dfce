-- ===== src/Client/Uploads/Chunks.antt =====
-- client/client_app.py: the chunks of a file, and what the server makes of them.
use g04_final_project_d_25_c.Prelude.{
  Bytes, ℕ, zero, suc, ◌≤◌, ◌<◌, ◌≡◌, refl, ap, ◌∙◌, String, some, List, [], ◌∷◌, ◌++◌, arith,
  length, take, drop, take-append-drop, length-take, length-drop, contains-append, beq_refl, false,
  contains, ℕ_eq,
}
use g04_final_project_d_25_c.Dict.{Dict, keys, get}
use g04_final_project_d_25_c.Dict.Runs.{HoldsRun, AreNew, keys-append}
use g04_final_project_d_25_c.Chunking.{ChunkManager, begin_transfer, complete_transfer}
use g04_final_project_d_25_c.Chunking.Assembly.{concat, add_all, upload_outcome, upload-roundtrip}
use g04_final_project_d_25_c.Client.Uploads.{chunks_within, chunks_of, chunk_size, enumerate}

-- No chunk has more than so many bytes, and none is empty.
abbrev pub AreWithin : ℕ → List Bytes → Type 0
AreWithin size [] = Unit
AreWithin size (c ∷ cs) = (0 < length c) × (length c ≤ size) × AreWithin size cs

-- With as much fuel as there are bytes, every byte comes into a chunk.
concat-chunks_within :
    (f size : ℕ) (bs : Bytes) → 0 < size → length bs ≤ f → concat (chunks_within f size bs) ≡ bs
unfolding chunks_within
concat-chunks_within zero size [] h k = refl
concat-chunks_within zero size (b ∷ bs) h k = ground arith
concat-chunks_within (suc f) size [] h k = refl
concat-chunks_within (suc f) size (b ∷ bs) h k =
    ap (λ l. take size (b ∷ bs) ++ l)
      (concat-chunks_within f size (drop size (b ∷ bs)) h
        (omega (arith, length-drop size (b ∷ bs))))
    ∙ take-append-drop size (b ∷ bs)

chunks_within-AreWithin :
    (f size : ℕ) (bs : Bytes) → 0 < size → AreWithin size (chunks_within f size bs)
unfolding chunks_within
chunks_within-AreWithin zero size bs h = tt
chunks_within-AreWithin (suc f) size [] h = tt
chunks_within-AreWithin (suc f) size (b ∷ bs) h = (
  omega (arith, length-take size (b ∷ bs)),
  omega (arith, length-take size (b ∷ bs)),
  chunks_within-AreWithin f size (drop size (b ∷ bs)) h,
)

-- The indices below `i` are in the dictionary, and no other.
abbrev IsBelow : ℕ → Dict ℕ Bytes → Type 0
IsBelow i d = (k : ℕ) → i ≤ k → contains k (keys d) ≡ false

IsBelow-snoc :
    (i : ℕ) (c : Bytes) (d : Dict ℕ Bytes) → IsBelow i d → IsBelow (suc i) (d ++ (i, c) ∷ [])
unfolding keys
IsBelow-snoc i c d h k le =
    rw (keys-append d ((i, c) ∷ []), contains-append k (keys d) (i ∷ []))
      (ground (arith, h k (omega arith)))

enumerate-AreNew :
    (i : ℕ) (cs : List Bytes) (d : Dict ℕ Bytes) → IsBelow i d → AreNew (enumerate i cs) d
enumerate-AreNew i [] d h = tt
enumerate-AreNew i (c ∷ cs) d h =
    (h i (omega arith), enumerate-AreNew (suc i) cs (d ++ (i, c) ∷ []) (IsBelow-snoc i c d h))

length-enumerate : (i : ℕ) (cs : List Bytes) → length (enumerate i cs) ≡ length cs
length-enumerate i [] = refl
length-enumerate i (c ∷ cs) = omega (arith, length-enumerate (suc i) cs)

HoldsRun-earlier :
    (i j : ℕ) (cs : List Bytes) (c : Bytes) (d : Dict ℕ Bytes)
    → j < i
    → HoldsRun i cs d
    → HoldsRun i cs ((j, c) ∷ d)
unfolding get
HoldsRun-earlier i j [] c d lt h = tt
HoldsRun-earlier i j (x ∷ cs) c d lt h =
    (ground (arith, h.0), HoldsRun-earlier (suc i) j cs c d (omega arith) h.1)

enumerate-HoldsRun : (i : ℕ) (cs : List Bytes) → HoldsRun i cs (enumerate i cs)
unfolding get
enumerate-HoldsRun i [] = tt
enumerate-HoldsRun i (c ∷ cs) = (
  rw (beq_refl i) refl,
  HoldsRun-earlier (suc i) i cs c (enumerate (suc i) cs) (omega arith)
      (enumerate-HoldsRun (suc i) cs),
)

-- The chunks that the client makes of a file have from 1 to 32768 bytes each. Sent in order under
-- their indices from 1 on, in a transfer of as many chunks, they are complete for the server, no index
-- is missing, and the bytes that it joins are those of the file.
pub chunks_of-complete_transfer :
    (t f : String) (x : Dict String String) (m : ChunkManager) (data_bytes : Bytes)
    → AreWithin chunk_size (chunks_of chunk_size data_bytes)
      × (upload_outcome
            (complete_transfer t (
              add_all t
                (enumerate 1 (chunks_of chunk_size data_bytes))
                (begin_transfer t f (some (length (chunks_of chunk_size data_bytes))) x m))).0
          ≡ some ([], some data_bytes))
unfolding chunks_of keys
chunks_of-complete_transfer t f x m bs = (
  chunks_within-AreWithin (length bs) chunk_size bs (omega arith),
  upload-roundtrip t f x (chunks_of chunk_size bs) (enumerate 1 (chunks_of chunk_size bs)) m
        (enumerate-AreNew 1 (chunks_of chunk_size bs) [] nothing)
        (length-enumerate 1 (chunks_of chunk_size bs))
        (enumerate-HoldsRun 1 (chunks_of chunk_size bs))
      ∙ ap (λ l. some ([], some l))
          (concat-chunks_within (length bs) chunk_size bs (omega arith) (omega arith)),
)
  where
    nothing : IsBelow 1 []
    nothing k le = refl
