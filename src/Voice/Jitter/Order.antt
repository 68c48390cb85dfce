-- ===== src/Voice/Jitter/Order.antt =====
-- voice/jitter_buffer.py: how many frames wait, and the order in which they are played.
use g04_final_project_d_25_c.Prelude.{
  Bytes, ℕ, zero, suc, ◌+◌, ◌≤◌, ◌≡◌, ◌⊎◌, refl, ap, ◌∙◌, sym, true, false, ℕ_eq, Option, some,
  List, [], ◌∷◌, ◌++◌, length, map, ltb, if◌then◌else◌, arith, Bool-cases, inl, inr, length-append,
  subst, contains,
}
use g04_final_project_d_25_c.Dict.{
  Dict, get, put, pop, has, keys, length-put, length-pop_head, contains-keys,
}
use g04_final_project_d_25_c.Dict.Runs.{
  HoldsRun, HoldsRun-pop, AreNew, put-snoc, append_one, append_nil,
}
use g04_final_project_d_25_c.Voice.Jitter.{
  JitterBuffer, new_buffer, add_frame, get_frame, started_at, trimmed,
}

length-trimmed : (n : ℕ) (d : Dict ℕ Bytes) → length d ≤ n + 1 → length (trimmed n d) ≤ n
length-trimmed n [] h = ground arith
length-trimmed n ((k, v) ∷ d) h = elim (Bool-cases (ltb n (suc (length d)))) [
  | inl e ↦ rw e (omega (arith, length-pop_head k v d))
  | inr e ↦ rw e (ground arith)
]

-- The second half of `add_frame`.
abbrev inserted : ℕ → Bytes → JitterBuffer → JitterBuffer
inserted n chunk j =
    if has n j.buffer then j else record j { buffer = trimmed j.max_frames (put n chunk j.buffer) }

length-put-le : (n : ℕ) (chunk : Bytes) (d : Dict ℕ Bytes) → length (put n chunk d) ≤ length d + 1
length-put-le n chunk d = ground (arith, length-put n chunk d)

inserted-bounded :
    (n : ℕ) (chunk : Bytes) (j : JitterBuffer)
    → length j.buffer ≤ j.max_frames
    → (length (inserted n chunk j).buffer ≤ j.max_frames)
      × ((inserted n chunk j).max_frames ≡ j.max_frames)
inserted-bounded n chunk j h = elim (Bool-cases (has n j.buffer)) [
  | inl e ↦ rw e (h, refl)
  | inr e ↦ rw e (
    length-trimmed j.max_frames (put n chunk j.buffer)
        (omega (arith, length-put-le n chunk j.buffer)),
    refl,
  )
]

started_at-cases :
    (n : ℕ) (j : JitterBuffer)
    → (started_at n j ≡ j) ⊎ (started_at n j ≡ record j { next_sequence = n; started = true })
started_at-cases n j = elim (Bool-cases j.started) [
  | inl e ↦ inl (rw e refl)
  | inr e ↦ inr (rw e refl)
]

-- A frame that arrives never makes more frames wait than the buffer has room for, and the room stays
-- the same.
add_frame-bounded :
    (n : ℕ) (chunk : Bytes) (j : JitterBuffer)
    → length j.buffer ≤ j.max_frames
    → (length (add_frame n chunk j).buffer ≤ j.max_frames)
      × ((add_frame n chunk j).max_frames ≡ j.max_frames)
unfolding add_frame
add_frame-bounded n chunk j h = elim (started_at-cases n j) [
  | inl e ↦ rw e (inserted-bounded n chunk j h)
  | inr e ↦ rw e (inserted-bounded n chunk (record j { next_sequence = n; started = true }) h)
]

-- `get_frame`, some number of times: what each call returns.
abbrev pub play : ℕ → JitterBuffer → List (Option Bytes)
play zero j = []
play (suc n) j = let (frame, j') = get_frame j in frame ∷ play n j'

get_frame-next :
    (frame : Bytes) (j : JitterBuffer)
    → get j.next_sequence j.buffer ≡ some frame
    → get_frame j ≡ (
      some frame,
      record j { buffer = pop j.next_sequence j.buffer; next_sequence = j.next_sequence + 1 },
    )
unfolding get_frame pop
get_frame-next frame j h = rw (h, get_frame) refl

play-HoldsRun :
    (frames : List Bytes) (j : JitterBuffer)
    → HoldsRun j.next_sequence frames j.buffer
    → play (length frames) j ≡ map some frames
play-HoldsRun [] j h = refl
play-HoldsRun (f ∷ frames) j h = rw (get_frame-next f j h.0) (
    ap (λ l. some f ∷ l)
      (play-HoldsRun frames
        (record j { buffer = pop j.next_sequence j.buffer; next_sequence = j.next_sequence + 1 })
        (next_run h.1)))
  where
    next_run :
        HoldsRun (suc j.next_sequence) frames j.buffer
        → HoldsRun (j.next_sequence + 1) frames (pop j.next_sequence j.buffer)
    next_run k =
        subst (λ i. HoldsRun i frames (pop j.next_sequence j.buffer)) (omega arith)
          (HoldsRun-pop j.next_sequence (suc j.next_sequence) frames j.buffer (omega arith) k)

-- The frames of a list of arrivals, added one after the other.
abbrev pub add_frames : Dict ℕ Bytes → JitterBuffer → JitterBuffer
add_frames [] j = j
add_frames ((n, chunk) ∷ arrivals) j = add_frames arrivals (add_frame n chunk j)

trimmed-fits : (n : ℕ) (d : Dict ℕ Bytes) → length d ≤ n → trimmed n d ≡ d
trimmed-fits n d h = ground arith

inserted-new :
    (n : ℕ) (chunk : Bytes) (j : JitterBuffer)
    → contains n (keys j.buffer) ≡ false
    → length j.buffer + 1 ≤ j.max_frames
    → inserted n chunk j ≡ record j { buffer = j.buffer ++ (n, chunk) ∷ [] }
inserted-new n chunk j new h =
    rw
      (
        sym (contains-keys n j.buffer) ∙ new,
        put-snoc n chunk j.buffer new,
        trimmed-fits j.max_frames (j.buffer ++ (n, chunk) ∷ [])
            (omega (arith, length-append j.buffer ((n, chunk) ∷ []))),
      )
      refl

started_at-same : (n : ℕ) (j : JitterBuffer) → j.started ≡ true → started_at n j ≡ j
started_at-same n j s = rw s refl

add_frames-append :
    (arrivals : Dict ℕ Bytes) (j : JitterBuffer)
    → j.started ≡ true
    → AreNew arrivals j.buffer
    → length j.buffer + length arrivals ≤ j.max_frames
    → add_frames arrivals j ≡ record j { buffer = j.buffer ++ arrivals }
unfolding add_frame
add_frames-append [] j s new h = ap (λ b. record j { buffer = b }) (sym (append_nil j.buffer))
add_frames-append ((n, chunk) ∷ arrivals) j s new h =
    ap (add_frames arrivals)
      (ap (inserted n chunk) (started_at-same n j s) ∙ inserted-new n chunk j new.0 (omega arith))
    ∙ add_frames-append arrivals (record j { buffer = j.buffer ++ (n, chunk) ∷ [] }) s new.1
        (omega (arith, length-append j.buffer ((n, chunk) ∷ [])))
    ∙ ap (λ b. record j { buffer = b }) (append_one j.buffer arrivals (n, chunk))

-- Frames that come into a new buffer with room for them all, each once, the first of them before the
-- others and those in any order, are played in the order of their sequence numbers: as many calls of
-- `get_frame` as there are frames in the run from the first return these frames one by one.
pub playback_in_order :
    (room first : ℕ) (chunk : Bytes) (arrivals : Dict ℕ Bytes) (frames : List Bytes)
    → AreNew ((first, chunk) ∷ arrivals) []
    → length arrivals + 1 ≤ room
    → HoldsRun first frames ((first, chunk) ∷ arrivals)
    → play (length frames) (add_frames ((first, chunk) ∷ arrivals) (new_buffer room))
      ≡ map some frames
unfolding add_frame keys
playback_in_order room first chunk arrivals frames new fits run =
    let j : JitterBuffer = record {
      buffer = (first, chunk) ∷ [];
      next_sequence = first;
      max_frames = room;
      started = true;
    } in
    ap (play (length frames)) (
      ap (add_frames arrivals) (
        inserted-new first chunk
          (record { buffer = []; next_sequence = first; max_frames = room; started = true }) refl
          (omega arith))
      ∙ add_frames-append arrivals j refl new.1 (omega arith))
    ∙ play-HoldsRun frames (record j { buffer = (first, chunk) ∷ arrivals }) run
