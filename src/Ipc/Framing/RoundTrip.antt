-- ===== src/Ipc/Framing/RoundTrip.antt =====
-- Encoding and reading back of the frames of src/webwire/authority_ipc_framing.py.
use wire_agent.Base.{ℕ, ◌+◌, ◌≤◌, ◌<◌, ◌≡◌, refl, List, [], ◌∷◌, ◌++◌, arith, length, ap}
use wire_agent.Base.Results.{ok, err}
use wire_agent.Ipc.Framing.{
  ipc_max_frame_bytes, oversized, pack, unpack, take, drop, encode_frame, parse_frame_header,
}

pack_unpacked : (n : ℕ) → n ≤ 1048576 → unpack 0 (pack n) ≡ n
unfolding pack unpack
pack_unpacked n h = omega (arith, h)

take_zero : (xs : List ℕ) → take 0 xs ≡ []
unfolding take
take_zero [] = refl
take_zero (x ∷ xs) = refl

drop_zero : (xs : List ℕ) → drop 0 xs ≡ xs
unfolding drop
drop_zero [] = refl
drop_zero (x ∷ xs) = refl

take-pack : (n : ℕ) (xs : List ℕ) → take 8 (pack n ++ xs) ≡ pack n
unfolding take pack
take-pack n xs = rw (take_zero xs)

drop-pack : (n : ℕ) (xs : List ℕ) → drop 8 (pack n ++ xs) ≡ xs
unfolding drop pack
drop-pack n xs = drop_zero xs

length-pack : (n : ℕ) (xs : List ℕ) → length (pack n ++ xs) ≡ 8 + length xs
unfolding pack
length-pack n xs = omega arith

parse-pack :
    (n : ℕ) (xs : List ℕ) → n ≤ ipc_max_frame_bytes → parse_frame_header (pack n ++ xs) ≡ ok (n, 8)
unfolding parse_frame_header
parse-pack n xs h =
    ground (arith, length-pack n xs, ap (λ b. unpack 0 b) (take-pack n xs), pack_unpacked n h)

-- A payload of at most one MiB is encoded to a frame whose header parses to the payload's length
-- and eight bytes read, and what follows these is the payload; a longer payload is refused with
-- its length.
pub parse-encode :
    (payload : List ℕ)
    → (length payload ≤ ipc_max_frame_bytes
        → (frame : List ℕ) × (encode_frame payload ≡ ok frame)
          × (parse_frame_header frame ≡ ok (length payload, 8))
          × (drop 8 frame ≡ payload))
      × (ipc_max_frame_bytes < length payload
          → encode_frame payload ≡ err (oversized (length payload)))
unfolding encode_frame
parse-encode payload = (
  λ h. (
    pack (length payload) ++ payload,
    ground (arith, h),
    parse-pack (length payload) payload h,
    drop-pack (length payload) payload,
  ),
  λ h. ground (arith, h),
)

-- What a header announces is within the ceiling, whatever the bytes.
pub parse_bounded :
    (bytes : List ℕ) (n k : ℕ)
    → parse_frame_header bytes ≡ ok (n, k)
    → (n ≤ ipc_max_frame_bytes) × (k ≡ 8) × (8 ≤ length bytes)
unfolding parse_frame_header
parse_bounded bytes n k h = ground arith
