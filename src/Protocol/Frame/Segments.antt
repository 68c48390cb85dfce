-- ===== src/Protocol/Frame/Segments.antt =====
-- protocol/packet.py: a packet arrives whole, however the bytes are cut on the way.
use g04_final_project_d_25_c.Prelude.{
  Bytes, ℕ, zero, suc, ◌-◌, ◌≤◌, ◌<◌, ◌≡◌, refl, ap, ◌∙◌, sym, subst, false, Option, some, [], ◌∷◌,
  ◌++◌, length, take, drop, arith, is_empty, length-append, length-take, length-drop, leb, ltb,
  ◌||◌,
}
use g04_final_project_d_25_c.Protocol.Frame.{
  Socket, to_bytes, from_bytes, build_packet, recv, keep_rest, recv_loop, recvall, receive_packet,
  max_packet_size, after_header, read_length, read_payload,
}

-- The bytes that are still to come, and that no segment is empty.
abbrev pub flat : Socket → Bytes
flat [] = []
flat (segment ∷ s) = segment ++ flat s

abbrev pub AreFull : Socket → Type 0
AreFull [] = Unit
AreFull (segment ∷ s) = (is_empty segment ≡ false) × AreFull s

append_assoc : (a b c : Bytes) → (a ++ b) ++ c ≡ a ++ (b ++ c)
append_assoc [] b c = refl
append_assoc (x ∷ a) b c = ap (λ l. x ∷ l) (append_assoc a b c)

append_nil : (a : Bytes) → a ++ [] ≡ a
append_nil [] = refl
append_nil (x ∷ a) = ap (λ l. x ∷ l) (append_nil a)

flat-keep_rest : (b : Bytes) (s : Socket) → flat (keep_rest b s) ≡ b ++ flat s
flat-keep_rest [] s = refl
flat-keep_rest (x ∷ b) s = refl

keep_rest-AreFull : (b : Bytes) (s : Socket) → AreFull s → AreFull (keep_rest b s)
keep_rest-AreFull [] s h = h
keep_rest-AreFull (x ∷ b) s h = (refl, h)

minus_zero : (n : ℕ) → n ≡ n - 0
minus_zero n = omega arith

minus_suc : (n m : ℕ) → n - m ≡ suc n - suc m
minus_suc n m = omega arith

-- Taking from a list in front of another, in two steps.
take-split :
    (n : ℕ) (a b : Bytes)
    → take n (a ++ b) ≡ take n a ++ take (n - length (take n a)) (drop n a ++ b)
take-split zero a b = ap (λ k. take k (a ++ b)) (minus_zero 0)
take-split (suc n) [] b = ap (λ k. take k b) (minus_zero (suc n))
take-split (suc n) (x ∷ a) b =
    ap (λ l. x ∷ l) (take-split n a b)
    ∙ ap (λ k. x ∷ (take n a ++ take k (drop n a ++ b))) (minus_suc n (length (take n a)))

drop-split : (n : ℕ) (a b : Bytes) → drop n (a ++ b) ≡ drop (n - length (take n a)) (drop n a ++ b)
drop-split zero a b = ap (λ k. drop k (a ++ b)) (minus_zero 0)
drop-split (suc n) [] b = ap (λ k. drop k b) (minus_zero (suc n))
drop-split (suc n) (x ∷ a) b =
    drop-split n a b ∙ ap (λ k. drop k (drop n a ++ b)) (minus_suc n (length (take n a)))

-- What `recvall` has to give.
abbrev IsRead : ℕ → Bytes → Socket → Option Bytes × Socket → Type 0
IsRead n received s (o, s') =
    (o ≡ some (received ++ take n (flat s))) × (flat s' ≡ drop n (flat s)) × AreFull s'

IsRead-step :
    (n m b : ℕ) (bs received : Bytes) (s : Socket) (o : Option Bytes × Socket)
    → n - length (take n bs) ≡ m
    → IsRead m (received ++ b ∷ take n bs) (keep_rest (drop n bs) s) o
    → IsRead (suc n) received ((b ∷ bs) ∷ s) o
IsRead-step n m b bs received s (o, t) e (r, d, full) = (
  r
      ∙ ap some (
          append_assoc received (b ∷ take n bs) (take m (flat (keep_rest (drop n bs) s)))
          ∙ ap (λ l. received ++ b ∷ (take n bs ++ take m l)) (flat-keep_rest (drop n bs) s)
          ∙ ap (λ k. received ++ b ∷ (take n bs ++ take k (drop n bs ++ flat s))) (sym e)
          ∙ ap (λ l. received ++ b ∷ l) (sym (take-split n bs (flat s)))),
  d
      ∙ ap (drop m) (flat-keep_rest (drop n bs) s)
      ∙ ap (λ k. drop k (drop n bs ++ flat s)) (sym e)
      ∙ sym (drop-split n bs (flat s)),
  full,
)

left_over :
    (n : ℕ) (bs : Bytes) (s : Socket)
    → n ≤ length (bs ++ flat s)
    → suc n - suc (length (take n bs)) ≤ length (flat (keep_rest (drop n bs) s))
left_over n bs s h = rw (flat-keep_rest (drop n bs) s) (
    omega (
      arith,
      length-append (drop n bs) (flat s),
      length-append bs (flat s),
      length-take n bs,
      length-drop n bs,
    ))

recv_loop-IsRead :
    (f n : ℕ) (received : Bytes) (s : Socket)
    → n ≤ f
    → n ≤ length (flat s)
    → AreFull s
    → IsRead n received s (recv_loop f n received s)
unfolding recv_loop recv
recv_loop-IsRead zero zero received s h k full = (ap some (sym (append_nil received)), refl, full)
recv_loop-IsRead zero (suc n) received s h k full = ground arith
recv_loop-IsRead (suc f) zero received s h k full =
    (ap some (sym (append_nil received)), refl, full)
recv_loop-IsRead (suc f) (suc n) received [] h k full = ground arith
recv_loop-IsRead (suc f) (suc n) received ([] ∷ s) h k full = ground arith
recv_loop-IsRead (suc f) (suc n) received ((b ∷ bs) ∷ s) h k full =
    IsRead-step n (suc n - suc (length (take n bs))) b bs received s _
      (minus_suc n (length (take n bs)))
      (recv_loop-IsRead f (suc n - suc (length (take n bs))) (received ++ b ∷ take n bs)
        (keep_rest (drop n bs) s) (omega arith) (left_over n bs s (omega (arith, k)))
        (keep_rest-AreFull (drop n bs) s full.1))

-- A length of less than four bytes' worth is read back from its four bytes.
pub from_bytes-to_bytes : (n : ℕ) → n < 4_294_967_296 → from_bytes (to_bytes n) ≡ n
unfolding from_bytes to_bytes
from_bytes-to_bytes n h = omega arith

take-prefix : (a b : Bytes) → take (length a) (a ++ b) ≡ a
take-prefix [] b = refl
take-prefix (x ∷ a) b = ap (λ l. x ∷ l) (take-prefix a b)

drop-prefix : (a b : Bytes) → drop (length a) (a ++ b) ≡ b
drop-prefix [] b = refl
drop-prefix (x ∷ a) b = drop-prefix a b

-- The payload came out, and the rest of the stream is still to come.
abbrev pub IsReceived : Bytes → Bytes → Option Bytes × Socket → Type 0
IsReceived payload rest (o, s) = (o ≡ some payload) × (flat s ≡ rest) × AreFull s

-- `recvall`, where the stream starts with what is asked for.
recvall-IsReceived :
    (wanted rest : Bytes) (s : Socket)
    → AreFull s
    → flat s ≡ wanted ++ rest
    → IsReceived wanted rest (recvall (length wanted) s)
unfolding recvall
recvall-IsReceived wanted rest s full e =
    let (r, d, f) =
      recv_loop-IsRead (length wanted) (length wanted) [] s (omega arith)
        (omega (arith, ap length e, length-append wanted rest)) full in
    (
      r ∙ ap (λ l. some (take (length wanted) l)) e ∙ ap some (take-prefix wanted rest),
      d ∙ ap (drop (length wanted)) e ∙ drop-prefix wanted rest,
      f,
    )

read_payload-IsReceived :
    (b : ℕ) (bs rest : Bytes) (p : Option Bytes × Socket)
    → IsReceived (b ∷ bs) rest p
    → IsReceived (b ∷ bs) rest (read_payload p)
read_payload-IsReceived b bs rest (o, s) (r, d, f) =
    subst (λ x. IsReceived (b ∷ bs) rest (read_payload (x, s))) (sym r) (refl, d, f)

read_length-IsReceived :
    (payload rest : Bytes) (s : Socket)
    → AreFull s
    → flat s ≡ payload ++ rest
    → 0 < length payload
    → length payload ≤ max_packet_size
    → IsReceived payload rest (read_length (length payload) s)
read_length-IsReceived [] rest s full e some_bytes small = ground arith
read_length-IsReceived (b ∷ bs) rest s full e some_bytes small =
    rw (is_allowed (length (b ∷ bs)) some_bytes small)
      (read_payload-IsReceived b bs rest _ (recvall-IsReceived (b ∷ bs) rest s full e))
  where
    is_allowed : (n : ℕ) → 0 < n → n ≤ max_packet_size → (leb n 0 || ltb max_packet_size n) ≡ false
    is_allowed n h k = ground arith

after_header-IsReceived :
    (payload rest : Bytes) (p : Option Bytes × Socket)
    → IsReceived (to_bytes (length payload)) (payload ++ rest) p
    → 0 < length payload
    → length payload ≤ max_packet_size
    → IsReceived payload rest (after_header p)
unfolding to_bytes
after_header-IsReceived payload rest (o, s) (r, d, f) some_bytes small =
    subst (λ x. IsReceived payload rest (after_header (x, s))) (sym r)
      (subst (λ n. IsReceived payload rest (read_length n s))
        (sym (from_bytes-to_bytes (length payload) (omega arith)))
        (read_length-IsReceived payload rest s f d some_bytes small))

-- The bytes of `build_packet` for a payload, with whatever follows them, come in by segments that are
-- cut anywhere, none of them empty. Where the payload has at least one byte and no more than
-- MAX_PACKET_SIZE, `receive_packet` reads exactly that payload, and leaves exactly what follows.
pub receive_packet-build_packet :
    (payload rest : Bytes) (s : Socket)
    → AreFull s
    → flat s ≡ build_packet payload ++ rest
    → 0 < length payload
    → length payload ≤ max_packet_size
    → IsReceived payload rest (receive_packet s)
unfolding receive_packet build_packet to_bytes
receive_packet-build_packet payload rest s full e some_bytes small =
    after_header-IsReceived payload rest (recvall 4 s)
      (recvall-IsReceived (to_bytes (length payload)) (payload ++ rest) s full
        (e ∙ append_assoc (to_bytes (length payload)) payload rest))
      some_bytes small
