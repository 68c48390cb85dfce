-- ===== src/Voice/Jitter/Stalls.antt =====
-- voice/jitter_buffer.py: what a frame that is lost does to the playback.
use g04_final_project_d_25_c.Prelude.{
  Bytes, ℕ, ℕ_eq, Bool, true, false, ◌==◌, ◌≡◌, refl, ap, ◌∙◌, Option, none, List, [], ◌∷◌, length,
  ltb, if◌then◌else◌, Bool-cases, inl, inr,
}
use g04_final_project_d_25_c.Dict.{Dict, get, put, has, get-put, get-pop}
use g04_final_project_d_25_c.Voice.Jitter.{
  JitterBuffer, add_frame, get_frame, started_at, trimmed, drop_oldest,
}

-- A frame comes in, or the player asks for one.
pub data Use : Type 0 where
  arrives : (sequence : ℕ) (chunk : Bytes) → Use
  asks : Use

-- What the player gets, one answer for each time that it asks.
abbrev pub answers : List Use → JitterBuffer → List (Option Bytes)
answers [] j = []
answers (arrives n chunk ∷ uses) j = answers uses (add_frame n chunk j)
answers (asks ∷ uses) j = let (frame, j') = get_frame j in frame ∷ answers uses j'

-- As many times nothing as the player asks.
abbrev pub nothing_each : List Use → List (Option Bytes)
nothing_each [] = []
nothing_each (arrives n chunk ∷ uses) = nothing_each uses
nothing_each (asks ∷ uses) = none ∷ nothing_each uses

-- The frame with the number does not come in.
abbrev pub Lacks : ℕ → List Use → Type 0
Lacks m [] = Unit
Lacks m (arrives n chunk ∷ uses) = ((n == m) ≡ false) × Lacks m uses
Lacks m (asks ∷ uses) = Lacks m uses

none_either : (b : Bool) (o : Option Bytes) → o ≡ none → (if b then none else o) ≡ none
none_either true o h = refl
none_either false o h = h

get-drop_oldest : (m : ℕ) (d : Dict ℕ Bytes) → get m d ≡ none → get m (drop_oldest d) ≡ none
get-drop_oldest m [] h = h
get-drop_oldest m ((k, v) ∷ d) h =
    get-pop k m ((k, v) ∷ d) ∙ none_either (k == m) (get m ((k, v) ∷ d)) h

get-trimmed : (m limit : ℕ) (d : Dict ℕ Bytes) → get m d ≡ none → get m (trimmed limit d) ≡ none
get-trimmed m limit d h = elim (Bool-cases (ltb limit (length d))) [
  | inl e ↦ rw e (get-drop_oldest m d h)
  | inr e ↦ rw e h
]

get-put_other :
    (m n : ℕ) (chunk : Bytes) (d : Dict ℕ Bytes)
    → (n == m) ≡ false
    → get m d ≡ none
    → get m (put n chunk d) ≡ none
get-put_other m n chunk d e h = get-put n m chunk d ∙ rw (e) h

-- A buffer that has started and that does not hold the next frame.
IsStuck : ℕ → JitterBuffer → Type 0
IsStuck m j = (j.started ≡ true) × (j.next_sequence ≡ m) × (get m j.buffer ≡ none)

add_frame-IsStuck :
    (m n : ℕ) (chunk : Bytes) (j : JitterBuffer)
    → (n == m) ≡ false
    → IsStuck m j
    → IsStuck m (add_frame n chunk j)
unfolding IsStuck add_frame
add_frame-IsStuck m n chunk j e (s, x, g) = rw (started) (by_hand (has n j.buffer))
  where
    started : started_at n j ≡ j
    started = rw (s) refl

    by_hand :
        (b : Bool)
        → IsStuck m
            (if b then j else record j { buffer = trimmed j.max_frames (put n chunk j.buffer) })
    by_hand true = (s, x, g)
    by_hand false = (
      s,
      x,
      get-trimmed m j.max_frames (put n chunk j.buffer) (get-put_other m n chunk j.buffer e g),
    )

get_frame-IsStuck : (m : ℕ) (j : JitterBuffer) → IsStuck m j → get_frame j ≡ (none, j)
unfolding IsStuck get_frame
get_frame-IsStuck m j (s, x, g) = rw (ap (λ i. get i j.buffer) x ∙ g, get_frame) refl

answers-IsStuck :
    (m : ℕ) (uses : List Use) (j : JitterBuffer)
    → Lacks m uses
    → IsStuck m j
    → answers uses j ≡ nothing_each uses
answers-IsStuck m [] j l h = refl
answers-IsStuck m (arrives n chunk ∷ uses) j (e, l) h =
    answers-IsStuck m uses (add_frame n chunk j) l (add_frame-IsStuck m n chunk j e h)
answers-IsStuck m (asks ∷ uses) j l h =
    rw (get_frame-IsStuck m j h) (ap (λ o. none ∷ o) (answers-IsStuck m uses j l h))

-- Where a buffer has started and does not hold the next frame in order, the player gets nothing, however
-- often it asks and whatever other frames come in meanwhile, in any number and order, as long as that
-- very frame does not come and the buffer is not flushed.
pub stalls_without :
    (uses : List Use) (j : JitterBuffer)
    → j.started ≡ true
    → get j.next_sequence j.buffer ≡ none
    → Lacks j.next_sequence uses
    → answers uses j ≡ nothing_each uses
unfolding IsStuck
stalls_without uses j s g l = answers-IsStuck j.next_sequence uses j l (s, refl, g)
