-- ===== src/Companion/Frames.antt =====
-- server.cjs: WebSocket frames (RFC 6455), as lists of bytes.
use Prim.Native.Nat.{bit_and, bit_or, bit_xor}
use next_level_agent.Base.{
  ℕ, ◌+◌, ◌*◌, ◌/◌, ◌%◌, ◌^◌, none, some, List, [], ◌∷◌, ◌++◌, length, take, drop, get_elem?, eqb,
  ltb, if◌then◌else◌,
}

abbrev pub max_frame_payload_bytes : ℕ
max_frame_payload_bytes = 10 * 1024 * 1024

-- writeUInt16BE and writeBigUInt64BE
abbrev pub be16 : ℕ → List ℕ
be16 n = (n / 256 % 256) ∷ (n % 256) ∷ []

abbrev pub be64 : ℕ → List ℕ
be64 n =
    (n / 2 ^ 56 % 256)
    ∷ (n / 2 ^ 48 % 256)
    ∷ (n / 2 ^ 40 % 256)
    ∷ (n / 2 ^ 32 % 256)
    ∷ (n / 2 ^ 24 % 256)
    ∷ (n / 2 ^ 16 % 256)
    ∷ (n / 2 ^ 8 % 256)
    ∷ (n % 256)
    ∷ []

unfoldable pub encode_frame : ℕ → List ℕ → List ℕ
encode_frame opcode payload =
    let first = bit_or 0x80 opcode % 256 in
    let len = length payload in
    if ltb len 126
    then first ∷ len ∷ payload
    else if ltb len 65536
    then first ∷ 126 ∷ (be16 len ++ payload)
    else first ∷ 127 ∷ (be64 len ++ payload)

pub data Decoded : Type 0 where
  incomplete not_masked too_large : Decoded
  frame : ℕ → List ℕ → ℕ → Decoded

abbrev pub byte_at : List ℕ → ℕ → ℕ
byte_at buffer i = elim (get_elem? buffer i) [ none ↦ 0 | some b ↦ b ]

-- readUInt16BE(2) and readBigUInt64BE(2)
abbrev pub read16 : List ℕ → ℕ
read16 b = byte_at b 2 * 256 + byte_at b 3

abbrev pub read64 : List ℕ → ℕ
read64 b =
    byte_at b 2 * 2 ^ 56
    + byte_at b 3 * 2 ^ 48
    + byte_at b 4 * 2 ^ 40
    + byte_at b 5 * 2 ^ 32
    + byte_at b 6 * 2 ^ 24
    + byte_at b 7 * 2 ^ 16
    + byte_at b 8 * 2 ^ 8
    + byte_at b 9

-- data[i] = buffer[dataOffset + i] ^ mask[i % 4], from some i on
unfoldable pub unmask : List ℕ → ℕ → List ℕ → List ℕ
unmask mask i [] = []
unmask mask i (x ∷ xs) = bit_xor x (byte_at mask (i % 4)) ∷ unmask mask (i + 1) xs

-- The part of `decodeFrame` below the length: the mask, then the payload.
unfoldable pub decode_payload : List ℕ → ℕ → ℕ → Decoded
unfolding unmask
decode_payload buffer payload_len offset =
    if ltb max_frame_payload_bytes payload_len
    then too_large
    else if ltb (length buffer) (offset + 4 + payload_len)
    then incomplete
    else frame (bit_and (byte_at buffer 0) 0x0F)
        (unmask (take 4 (drop offset buffer)) 0 (take payload_len (drop (offset + 4) buffer)))
        (offset + 4 + payload_len)

-- The length in two bytes, and in eight.
abbrev pub decode_medium : List ℕ → Decoded
decode_medium buffer =
    if ltb (length buffer) 4 then incomplete else decode_payload buffer (read16 buffer) 4

abbrev pub decode_long : List ℕ → Decoded
decode_long buffer =
    if ltb (length buffer) 10
    then incomplete
    else if ltb max_frame_payload_bytes (read64 buffer)
    then too_large
    else decode_payload buffer (read64 buffer) 10

-- What follows the check of the mask bit, by the seven bits of the length.
abbrev pub decode_masked : List ℕ → ℕ → Decoded
decode_masked buffer payload_len =
    if eqb payload_len 126
    then decode_medium buffer
    else if eqb payload_len 127
    then decode_long buffer
    else decode_payload buffer payload_len 2

unfoldable pub decode_frame : List ℕ → Decoded
decode_frame buffer =
    let second = byte_at buffer 1 in
    if ltb (length buffer) 2
    then incomplete
    else if eqb (bit_and second 0x80) 0
    then not_masked
    else decode_masked buffer (bit_and second 0x7F)
