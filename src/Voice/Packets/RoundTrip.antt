-- ===== src/Voice/Packets/RoundTrip.antt =====
-- voice/voice_packet.py: what `decode` makes of the datagrams of `encode`, whole and cut off.
use g04_final_project_d_25_c.Prelude.{
  Bytes, ℕ, suc, ◌+◌, ◌-◌, ◌≤◌, ◌<◌, Bool, true, false, String_eq, ℕ_eq, none, some, [], ◌∷◌, ◌++◌,
  ◌≡◌, refl, ap, sym, subst, ◌∙◌, arith, length, take, ltb, if◌then◌else◌, length-take, Bool-cases,
  inl, inr,
}
use g04_final_project_d_25_c.Dict.{get}
use g04_final_project_d_25_c.Exec.{Result, ok, err}
use g04_final_project_d_25_c.Protocol.Frame.{to_bytes, from_bytes}
use g04_final_project_d_25_c.Protocol.Frame.Segments.{from_bytes-to_bytes}
use g04_final_project_d_25_c.Voice.Packets.{
  VoicePacket, Codec, dictionary, payload_of, voice_magic, pack, encode, decode, decode_payload,
}

-- The datagram of a payload.
abbrev datagram : Bytes → Bytes
datagram json_bytes = (to_bytes voice_magic ++ to_bytes (length json_bytes)) ++ json_bytes

encode-datagram :
    (codec : Codec) (p : VoicePacket)
    → length (codec.dumps (payload_of codec p)) < 4_294_967_296
    → encode codec p ≡ ok (datagram (codec.dumps (payload_of codec p)))
unfolding encode pack
encode-datagram codec p h =
    rw (encode, pack, is_small (length (codec.dumps (payload_of codec p))) h) refl
  where
    is_small : (n : ℕ) → n < 4_294_967_296 → ltb n 4_294_967_296 ≡ true
    is_small n k = ground arith

take_all : (bs : Bytes) → take (length bs) bs ≡ bs
take_all [] = refl
take_all (b ∷ bs) = ap (λ l. b ∷ l) (take_all bs)

-- The length of what is `k` bytes after the header.
abbrev eight : ℕ → ℕ
eight k = suc (suc (suc (suc (suc (suc (suc (suc k)))))))

not_short : (k : ℕ) → ltb (eight k) 8 ≡ false
not_short k = ground arith

same_rest : (k n : ℕ) → ltb (eight k) (8 + n) ≡ ltb k n
same_rest k n = ground arith

pick :
    {A : Type 0} (a b c : Bool) (x y : A)
    → a ≡ false
    → b ≡ true
    → (if a then x else if b then (if c then x else y) else x) ≡ (if c then x else y)
pick a b c x y h k = rw (h, k) refl

-- Whatever follows the magic number and a length.
decode-header :
    (codec : Codec) (n : ℕ) (tail : Bytes)
    → n < 4_294_967_296
    → decode codec ((to_bytes voice_magic ++ to_bytes n) ++ tail)
      ≡ (if ltb (length tail) n then ok none else decode_payload codec (codec.loads (take n tail)))
unfolding decode to_bytes
decode-header codec n tail h =
    pick (ltb (eight (length tail)) 8) true
      (ltb (eight (length tail)) (8 + from_bytes (to_bytes n))) (ok none)
      (decode_payload codec (codec.loads (take (from_bytes (to_bytes n)) tail)))
      (not_short (length tail)) refl
    ∙ ap
        (λ k.
          if ltb (eight (length tail)) (8 + k)
          then ok none
          else decode_payload codec (codec.loads (take k tail)))
        (from_bytes-to_bytes n h)
    ∙ ap (λ b. if b then ok none else decode_payload codec (codec.loads (take n tail)))
        (same_rest (length tail) n)

decode-datagram :
    (codec : Codec) (json_bytes : Bytes)
    → length json_bytes < 4_294_967_296
    → decode codec (datagram json_bytes) ≡ decode_payload codec (codec.loads json_bytes)
decode-datagram codec bs h =
    decode-header codec (length bs) bs h ∙ rw (not_less (length bs), take_all bs) refl
  where
    not_less : (n : ℕ) → ltb n n ≡ false
    not_less n = ground arith

-- A frame that is encoded, where JSON and base64 give back what they were given and the payload has
-- less than 4 GiB, is decoded to the same frame.
pub decode-encode :
    (codec : Codec) (p : VoicePacket)
    → length (codec.dumps (payload_of codec p)) < 4_294_967_296
    → codec.loads (codec.dumps (payload_of codec p)) ≡ dictionary (payload_of codec p)
    → codec.b64decode (codec.b64encode p.audio_data) ≡ ok p.audio_data
    → (datagram : Bytes) × (encode codec p ≡ ok datagram) × (decode codec datagram ≡ ok (some p))
unfolding decode_payload get
decode-encode codec p h l b = (
  _,
  encode-datagram codec p h,
  decode-datagram codec (codec.dumps (payload_of codec p)) h ∙ rw (l, b) refl,
)

take-header :
    (k : ℕ) (n : ℕ) (bs : Bytes)
    → take (eight k) ((to_bytes voice_magic ++ to_bytes n) ++ bs)
      ≡ (to_bytes voice_magic ++ to_bytes n) ++ take k bs
unfolding to_bytes
take-header k n bs = refl

short_datagram :
    (codec : Codec) (data_bytes : Bytes) → length data_bytes < 8 → decode codec data_bytes ≡ ok none
unfolding decode
short_datagram codec bs h = rw (is_short (length bs) h) refl
  where
    is_short : (n : ℕ) → n < 8 → ltb n 8 ≡ true
    is_short n k = ground arith

-- Some of the bytes of a datagram, after the header.
cut_payload :
    (codec : Codec) (bs : Bytes) (k : ℕ)
    → length bs < 4_294_967_296
    → k < length bs
    → decode codec (take (eight k) (datagram bs)) ≡ ok none
cut_payload codec bs k h lt =
    ap (decode codec) (take-header k (length bs) bs)
    ∙ decode-header codec (length bs) (take k bs) h
    ∙ ap
        (λ b.
          if b then ok none else decode_payload codec (codec.loads (take (length bs) (take k bs))))
        (is_less (length (take k bs)) (length bs) (omega (arith, length-take k bs)))
  where
    is_less : (m n : ℕ) → m < n → ltb m n ≡ true
    is_less m n l = ground arith

length-datagram : (bs : Bytes) → length (datagram bs) ≡ eight (length bs)
unfolding to_bytes
length-datagram bs = refl

cut_datagram :
    (codec : Codec) (bs : Bytes) (n : ℕ)
    → length bs < 4_294_967_296
    → n < length (datagram bs)
    → decode codec (take n (datagram bs)) ≡ ok none
cut_datagram codec bs n h lt = elim (Bool-cases (ltb n 8)) [
  | inl e ↦
      short_datagram codec (take n (datagram bs))
        (omega (arith, length-take n (datagram bs), few e))
  | inr e ↦
      subst (λ m. decode codec (take m (datagram bs)) ≡ ok none) (sym (many e))
        (cut_payload codec bs (n - 8) h (omega (arith, many e, lt, length-datagram bs)))
]
  where
    few : ltb n 8 ≡ true → n < 8
    few e = ground arith

    many : ltb n 8 ≡ false → n ≡ eight (n - 8)
    many e = let k : 8 ≤ n = ground arith in omega (arith, k)

abbrev bytes_in : Result Bytes → Bytes
bytes_in (ok bs) = bs
bytes_in (err e) = []

-- A datagram that was cut off anywhere, as `recvfrom` does with one that is too long for it, is decoded
-- to nothing, and raises nothing.
pub decode-cut_off :
    (codec : Codec) (p : VoicePacket) (sent : Bytes) (n : ℕ)
    → length (codec.dumps (payload_of codec p)) < 4_294_967_296
    → encode codec p ≡ ok sent
    → n < length sent
    → decode codec (take n sent) ≡ ok none
decode-cut_off codec p sent n h e lt =
    let same : datagram (codec.dumps (payload_of codec p)) ≡ sent =
      ap bytes_in (sym (encode-datagram codec p h) ∙ e) in
    subst (λ d. n < length d → decode codec (take n d) ≡ ok none) same
      (cut_datagram codec (codec.dumps (payload_of codec p)) n h) lt
