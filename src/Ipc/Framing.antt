-- ===== src/Ipc/Framing.antt =====
-- Length-prefixed frames, of src/webwire/authority_ipc_framing.py: `encode_frame` and
-- `parse_frame_header`. Bytes are a list of numbers; the JSON codec is not modelled.
pub mod RoundTrip
use wire_agent.Base.{
  ℕ, zero, suc, ◌+◌, ◌*◌, ◌/◌, ◌%◌, Bool, true, false, ◌≡◌, List, [], ◌∷◌, ◌++◌, leb, ltb,
  if◌then◌else◌, length,
}
use wire_agent.Base.Results.{Result, ok, err}

-- 1 MiB
abbrev pub ipc_max_frame_bytes : ℕ
ipc_max_frame_bytes = 1048576

-- The messages of `IPCProtocolError`.
pub data IpcProtocolError : Type 0 where
  oversized truncated : ℕ → IpcProtocolError

-- `struct.Struct(">Q").pack`: eight bytes, the highest first.
unfoldable pub pack : ℕ → List ℕ
pack n =
    (n / 72057594037927936) % 256
    ∷ ((n / 281474976710656) % 256
        ∷ ((n / 1099511627776) % 256
            ∷ ((n / 4294967296) % 256
                ∷ ((n / 16777216) % 256
                    ∷ ((n / 65536) % 256 ∷ ((n / 256) % 256 ∷ (n % 256 ∷ [])))))))

-- The number that bytes stand for after those read so far.
unfoldable pub unpack : ℕ → List ℕ → ℕ
unpack n [] = n
unpack n (b ∷ bs) = unpack (n * 256 + b) bs

-- `data[:n]` and `data[n:]`
unfoldable pub take : ℕ → List ℕ → List ℕ
take n [] = []
take zero (b ∷ bs) = []
take (suc n) (b ∷ bs) = b ∷ take n bs

unfoldable pub drop : ℕ → List ℕ → List ℕ
drop n [] = []
drop zero (b ∷ bs) = b ∷ bs
drop (suc n) (b ∷ bs) = drop n bs

unfoldable pub encode_frame : List ℕ → Result IpcProtocolError (List ℕ)
unfolding pack
encode_frame payload =
    if ltb ipc_max_frame_bytes (length payload)
    then err (oversized (length payload))
    else ok (pack (length payload) ++ payload)

-- The announced length and the number of bytes read.
unfoldable pub parse_frame_header : List ℕ → Result IpcProtocolError (ℕ × ℕ)
unfolding unpack take
parse_frame_header bytes =
    if ltb (length bytes) 8
    then err (truncated (length bytes))
    else (let n = unpack 0 (take 8 bytes) in
        if ltb ipc_max_frame_bytes n then err (oversized n) else ok (n, 8))
