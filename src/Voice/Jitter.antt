-- ===== src/Voice/Jitter.antt =====
-- voice/jitter_buffer.py: frames wait here for their turn. `max_latency_ms` is kept by the class and
-- read by none of its methods.
pub mod Order
pub mod Stalls
use g04_final_project_d_25_c.Prelude.{
  Bytes, ℕ, zero, suc, ◌+◌, ◌-◌, Bool, true, false, ◌&&◌, not, Option, none, some, List, [], ◌∷◌,
  length, ltb, if◌then◌else◌, ℕ_eq,
}
use g04_final_project_d_25_c.Dict.{Dict, get, put, pop, has}

pub record JitterBuffer : Type 0 where
  pub buffer : Dict ℕ Bytes
  pub next_sequence : ℕ
  pub max_frames : ℕ
  pub started : Bool

abbrev pub new_buffer : ℕ → JitterBuffer
new_buffer n = record { buffer = []; next_sequence = 0; max_frames = n; started = false }

-- `self.buffer.pop(next(iter(self.buffer)))`
abbrev pub drop_oldest : Dict ℕ Bytes → Dict ℕ Bytes
drop_oldest [] = []
drop_oldest ((k, v) ∷ d) = pop k ((k, v) ∷ d)

abbrev pub started_at : ℕ → JitterBuffer → JitterBuffer
started_at n j = if j.started then j else record j { next_sequence = n; started = true }

abbrev pub trimmed : ℕ → Dict ℕ Bytes → Dict ℕ Bytes
trimmed limit d = if ltb limit (length d) then drop_oldest d else d

unfoldable pub add_frame : ℕ → Bytes → JitterBuffer → JitterBuffer
unfolding get put pop
add_frame n chunk j =
    let j' = started_at n j in
    if has n j'.buffer
    then j'
    else record j' { buffer = trimmed j'.max_frames (put n chunk j'.buffer) }

unfoldable pub get_frame : JitterBuffer → Option Bytes × JitterBuffer
unfolding get pop
get_frame j = elim (get j.next_sequence j.buffer) [
  | none ↦ (none, j)
  | some chunk ↦ (
    some chunk,
    record j { buffer = pop j.next_sequence j.buffer; next_sequence = j.next_sequence + 1 },
  )
]

abbrev pub min_key : ℕ → Dict ℕ Bytes → ℕ
min_key m [] = m
min_key m ((k, v) ∷ d) = min_key (if ltb k m then k else m) d

abbrev pub max_key : ℕ → Dict ℕ Bytes → ℕ
max_key m [] = m
max_key m ((k, v) ∷ d) = max_key (if ltb m k then k else m) d

-- `n` sequence numbers from `i` on, those that are not in the buffer and are already past.
abbrev pub past_gaps : ℕ → ℕ → JitterBuffer → List ℕ
past_gaps i zero j = []
past_gaps i (suc n) j =
    let rest = past_gaps (suc i) n j in
    if not (has i j.buffer) && ltb i j.next_sequence then i ∷ rest else rest

abbrev pub gaps_of : JitterBuffer → Dict ℕ Bytes → List ℕ
gaps_of j [] = []
gaps_of j ((k, v) ∷ d) = past_gaps (min_key k d) (max_key k d - min_key k d) j

unfoldable pub missing_frames : JitterBuffer → List ℕ
unfolding get
missing_frames j = gaps_of j j.buffer

unfoldable pub flush : JitterBuffer → JitterBuffer
flush j = record j { buffer = []; started = false }

unfoldable pub buffer_size : JitterBuffer → ℕ
buffer_size j = length j.buffer
