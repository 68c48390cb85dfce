-- ===== src/Protocol/Frame.antt =====
-- protocol/packet.py: a packet on the wire is the length of its payload in four bytes, the most
-- significant first, and the payload. The payload itself, which `json` and UTF-8 give, is a list of
-- bytes here.
pub mod Segments
use g04_final_project_d_25_c.Prelude.{
  Bytes, ℕ, zero, suc, ◌+◌, ◌-◌, ◌*◌, ◌/◌, ◌%◌, Bool, true, false, ◌||◌, Option, none, some, List,
  [], ◌∷◌, ◌++◌, length, take, drop, ltb, leb, if◌then◌else◌, is_empty,
}

-- `MAX_PACKET_SIZE`
abbrev pub max_packet_size : ℕ
max_packet_size = 10 * 1024 * 1024

-- `length.to_bytes(4, "big")`, for a length that four bytes hold
unfoldable pub to_bytes : ℕ → Bytes
to_bytes n = n / 16_777_216 % 256 ∷ n / 65_536 % 256 ∷ n / 256 % 256 ∷ n % 256 ∷ []

-- `int.from_bytes(header, "big")`
abbrev pub from_bytes_onto : ℕ → Bytes → ℕ
from_bytes_onto n [] = n
from_bytes_onto n (b ∷ bs) = from_bytes_onto (n * 256 + b) bs

unfoldable pub from_bytes : Bytes → ℕ
from_bytes bs = from_bytes_onto 0 bs

-- `build_packet`, from the payload
unfoldable pub build_packet : Bytes → Bytes
unfolding to_bytes
build_packet payload = to_bytes (length payload) ++ payload

-- What a socket will give: the segments that have come in, in order; `recv` gives at most as many
-- bytes as it is asked for, of the first segment, and nothing at the end of the stream.
abbrev pub Socket : Type 0
Socket = List Bytes

abbrev pub keep_rest : Bytes → Socket → Socket
keep_rest [] s = s
keep_rest (b ∷ bs) s = (b ∷ bs) ∷ s

unfoldable pub recv : ℕ → Socket → Bytes × Socket
recv n [] = ([], [])
recv n (segment ∷ s) = (take n segment, keep_rest (drop n segment) s)

-- The loop of `recvall`, for the bytes that are still to come. Each turn takes a byte or ends it, so
-- that their number is fuel enough.
unfoldable pub recv_loop : ℕ → ℕ → Bytes → Socket → Option Bytes × Socket
unfolding recv
recv_loop zero zero received s = (some received, s)
recv_loop zero (suc n) received s = (none, s)
recv_loop (suc f) zero received s = (some received, s)
recv_loop (suc f) (suc n) received s =
    let (packet, s') = recv (suc n) s in
    let rest = recv_loop f (suc n - length packet) (received ++ packet) s' in
    if is_empty packet then (none, s') else rest

unfoldable pub recvall : ℕ → Socket → Option Bytes × Socket
unfolding recv_loop
recvall n s = recv_loop n n [] s

abbrev pub read_payload : Option Bytes × Socket → Option Bytes × Socket
read_payload (none, s) = (none, s)
read_payload (some [], s) = (none, s)
read_payload (some (b ∷ bs), s) = (some (b ∷ bs), s)

abbrev pub read_length : ℕ → Socket → Option Bytes × Socket
read_length n s =
    let read = read_payload (recvall n s) in
    if leb n 0 || ltb max_packet_size n then (none, s) else read

abbrev pub after_header : Option Bytes × Socket → Option Bytes × Socket
after_header (none, s) = (none, s)
after_header (some [], s) = (none, s)
after_header (some (b ∷ bs), s) = read_length (from_bytes (b ∷ bs)) s

-- `receive_packet`, up to the decoding of the payload
unfoldable pub receive_packet : Socket → Option Bytes × Socket
unfolding recvall from_bytes
receive_packet s = after_header (recvall 4 s)
