-- ===== src/Companion/Masking.antt =====
-- server.cjs: what the server reads of the frames that a client sends.
use Prim.Native.Nat.{bit_and, bit_xor}
use next_level_agent.Base.{
  ℕ, zero, suc, ◌+◌, ◌*◌, ◌/◌, ◌%◌, ◌≤◌, ◌<◌, ◌≡◌, refl, sym, ap, ap₂, ◌∙◌, Bool, true, false, ◌&&◌,
  List, [], ◌∷◌, ◌++◌, length, take, drop, eqb, eqb_iff, ltb, if◌then◌else◌, inl, inr, Bool-cases,
  arith, All, length-append, take-append,
}
use next_level_agent.Companion.Frames.{
  max_frame_payload_bytes, be16, be64, encode_frame, Decoded, not_masked, frame, byte_at, read64,
  unmask, decode_payload, decode_frame,
}

-- A test that holds at every number under a bound.
passes_under : (ℕ → Bool) → ℕ → Bool
passes_under test zero = true
passes_under test (suc bound) = passes_under test bound && test bound

passes_under-eq_true :
    (test : ℕ → Bool) (bound k : ℕ) → k < bound → passes_under test bound ≡ true → test k ≡ true
unfolding passes_under
passes_under-eq_true test zero k small passed = absurd (omega arith)
passes_under-eq_true test (suc bound) k small passed =
    ground (arith, passes_under-eq_true test bound k)

mask_table : passes_under (λ x. passes_under (λ m. eqb (bit_xor (bit_xor x m) m) x) 256) 256 ≡ true
unfolding passes_under
mask_table = refl

mask_twice : (x m : ℕ) → x < 256 → m < 256 → bit_xor (bit_xor x m) m ≡ x
mask_twice x m hx hm =
    (eqb_iff (bit_xor (bit_xor x m) m) x).0
      (passes_under-eq_true _ 256 m hm (passes_under-eq_true _ 256 x hx mask_table))

length_table :
    passes_under
      (λ n.
        eqb (bit_and (128 + n) 0x7F) n
        && eqb (bit_and (128 + n) 0x80) 128
        && eqb (bit_and n 0x80) 0)
      128
    ≡ true
unfolding passes_under
length_table = refl

length_bits :
    (n : ℕ)
    → n < 128
    → (bit_and (128 + n) 0x7F ≡ n) × (bit_and (128 + n) 0x80 ≡ 128) × (bit_and n 0x80 ≡ 0)
length_bits n h = let t = passes_under-eq_true _ 128 n h length_table in ground arith

opcode_table : passes_under (λ n. eqb (bit_and (128 + n) 0x0F) n) 16 ≡ true
unfolding passes_under
opcode_table = refl

opcode_bits : (n : ℕ) → n < 16 → bit_and (128 + n) 0x0F ≡ n
opcode_bits n h = (eqb_iff _ n).0 (passes_under-eq_true _ 16 n h opcode_table)

-- What RFC 6455 has a client send: byte i is xored with byte i mod 4 of the mask, here by turning
-- the mask.
pub masked : ℕ → ℕ → ℕ → ℕ → List ℕ → List ℕ
masked a b c d [] = []
masked a b c d (x ∷ xs) = bit_xor x a ∷ masked b c d a xs

length-masked_self : (a b c d : ℕ) (xs : List ℕ) → length (masked a b c d xs) ≡ length xs
unfolding masked
length-masked_self a b c d [] = refl
length-masked_self a b c d (x ∷ xs) = ap suc (length-masked_self b c d a xs)

-- The server reads the mask from an index on, the client has turned it so far.
unmask-masked :
    (mask : List ℕ) (i a b c d : ℕ) (xs : List ℕ)
    → byte_at mask (i % 4) ≡ a
    → byte_at mask ((i + 1) % 4) ≡ b
    → byte_at mask ((i + 1 + 1) % 4) ≡ c
    → byte_at mask ((i + 1 + 1 + 1) % 4) ≡ d
    → All (λ x. x < 256) (a ∷ b ∷ c ∷ d ∷ [])
    → All (λ x. x < 256) xs
    → unmask mask i (masked a b c d xs) ≡ xs
unfolding unmask masked
unmask-masked mask i a b c d [] p q r s hm hx = refl
unmask-masked mask i a b c d (x ∷ xs) p q r s hm (h, hx) =
    let turn : (i + 1 + 1 + 1 + 1) % 4 ≡ i % 4 = omega arith in
    ap₂ ◌∷◌ (ap (bit_xor (bit_xor x a)) p ∙ mask_twice x a h hm.0) (
      unmask-masked mask (i + 1) b c d a xs q r s (ap (byte_at mask) turn ∙ p)
        (hm.1.0, (hm.1.1.0, (hm.1.1.1.0, (hm.0, tt)))) hx)

-- The length field of a client's frame by RFC 6455, the mask bit set, and the whole frame.
abbrev pub client_length : ℕ → List ℕ
client_length len =
    if ltb len 126
    then (128 + len) ∷ []
    else if ltb len 65536
    then (128 + 126) ∷ be16 len
    else (128 + 127) ∷ be64 len

pub client_frame : ℕ → ℕ → ℕ → ℕ → ℕ → List ℕ → List ℕ
client_frame opcode a b c d payload =
    (128 + opcode) ∷ (client_length (length payload) ++ (a ∷ b ∷ c ∷ d ∷ masked a b c d payload))

module _ (a b c d : ℕ) (payload rest : List ℕ) (hm : All (λ x. x < 256) (a ∷ b ∷ c ∷ d ∷ [])) where
  abbrev mask : List ℕ
  mask = a ∷ b ∷ c ∷ d ∷ []

  abbrev body : List ℕ
  body = a ∷ b ∷ c ∷ d ∷ (masked a b c d payload ++ rest)

  length-masked : length (masked a b c d payload ++ rest) ≡ length payload + length rest
  length-masked =
      length-append (masked a b c d payload) rest
      ∙ ap (λ n. n + length rest) (length-masked_self a b c d payload)

  take-masked : take (length payload) (masked a b c d payload ++ rest) ≡ masked a b c d payload
  take-masked =
      ap (λ n. take n (masked a b c d payload ++ rest)) (sym (length-masked_self a b c d payload))
      ∙ take-append (masked a b c d payload) rest

  -- Below the length field, wherever that ends.
  decode_payload_lem :
      (buffer : List ℕ) (offset : ℕ)
      → All (λ x. x < 256) payload
      → length payload ≤ max_frame_payload_bytes
      → take 4 (drop offset buffer) ≡ mask
      → drop (offset + 4) buffer ≡ masked a b c d payload ++ rest
      → length buffer ≡ offset + 4 + (length payload + length rest)
      → decode_payload buffer (length payload) offset
        ≡ frame (bit_and (byte_at buffer 0) 0x0F) payload (offset + 4 + length payload)
  unfolding decode_payload
  decode_payload_lem buffer offset hp small e f l =
      let fits : ltb max_frame_payload_bytes (length payload) ≡ false = ground arith in
      let there : ltb (length buffer) (offset + 4 + length payload) ≡ false = ground arith in
      rw (
        fits,
        there,
        e,
        f,
        take-masked,
        unmask-masked mask 0 a b c d payload refl refl refl refl hm hp,
      )

  module _ (opcode : ℕ) (hp : All (λ x. x < 256) payload)
      (small : length payload ≤ max_frame_payload_bytes) where
    abbrev got : ℕ → Decoded
    got offset = frame (bit_and (128 + opcode) 0x0F) payload (offset + 4 + length payload)

    decode_short :
        length payload < 126 → decode_frame ((128 + opcode) ∷ (128 + length payload) ∷ body) ≡ got 2
    unfolding decode_frame
    decode_short h =
        let (len, bit, _) = length_bits (length payload) (omega arith) in
        let enough : ltb (length ((128 + opcode) ∷ (128 + length payload) ∷ body)) 2 ≡ false =
          ground arith in
        let not126 : eqb (length payload) 126 ≡ false = ground arith in
        let not127 : eqb (length payload) 127 ≡ false = ground arith in
        rw (enough, bit, len, not126, not127)
          (decode_payload_lem ((128 + opcode) ∷ (128 + length payload) ∷ body) 2 hp small refl refl
            (omega (arith, length-masked)))

    read16_lem :
        length payload < 65536
        → length payload / 256 % 256 * 256 + length payload % 256 ≡ length payload
    read16_lem h = omega arith

    abbrev buffer16 : List ℕ
    buffer16 =
        (128 + opcode) ∷ (128 + 126) ∷ (length payload / 256 % 256) ∷ (length payload % 256) ∷ body

    decode_medium : length payload < 65536 → decode_frame buffer16 ≡ got 4
    unfolding decode_frame
    decode_medium h =
        let enough : ltb (length buffer16) 2 ≡ false = ground arith in
        let more : ltb (length buffer16) 4 ≡ false = ground arith in
        rw (enough, more, read16_lem h)
          (decode_payload_lem buffer16 4 hp small refl refl (omega (arith, length-masked)))

    abbrev buffer64 : List ℕ
    buffer64 = (128 + opcode) ∷ (128 + 127) ∷ (be64 (length payload) ++ body)

    read64_lem : read64 buffer64 ≡ length payload
    read64_lem = omega arith

    decode_long : decode_frame buffer64 ≡ got 10
    unfolding decode_frame
    decode_long =
        let enough : ltb (length buffer64) 2 ≡ false = ground arith in
        let more : ltb (length buffer64) 10 ≡ false = ground arith in
        let fits : ltb max_frame_payload_bytes (length payload) ≡ false = ground arith in
        rw (enough, more, read64_lem, fits)
          (decode_payload_lem buffer64 10 hp small refl refl (omega (arith, length-masked)))

frame_eq :
    (opcode n m : ℕ) (payload : List ℕ) (buffer : List ℕ)
    → opcode < 16
    → decode_frame buffer ≡ frame (bit_and (128 + opcode) 0x0F) payload n
    → n ≡ m
    → decode_frame buffer ≡ frame opcode payload m
frame_eq opcode n m payload buffer ho e h =
    e ∙ ap₂ (λ o k. frame o payload k) (opcode_bits opcode ho) h

-- For every opcode below 16, mask, payload of bytes up to 10 MiB and bytes behind it, decoding the
-- masked frame of RFC 6455 gives back opcode and payload and consumes exactly the frame, in all three
-- length encodings.
pub decode-client_frame :
    (opcode a b c d : ℕ) (payload rest : List ℕ)
    → opcode < 16
    → All (λ x. x < 256) (a ∷ b ∷ c ∷ d ∷ [])
    → All (λ x. x < 256) payload
    → length payload ≤ max_frame_payload_bytes
    → decode_frame (client_frame opcode a b c d payload ++ rest)
      ≡ frame opcode payload (length (client_frame opcode a b c d payload))
unfolding client_frame
decode-client_frame opcode a b c d payload rest ho hm hp small =
    elim (Bool-cases (ltb (length payload) 126)) [
      | inl p ↦ rw p (
          frame_eq opcode _ _ payload _ ho
            (decode_short a b c d payload rest hm opcode hp small (ground arith))
            (omega (arith, length-masked_self a b c d payload)))
      | inr p ↦ rw p (elim (Bool-cases (ltb (length payload) 65536)) [
        | inl q ↦ rw q (
            frame_eq opcode _ _ payload _ ho
              (decode_medium a b c d payload rest hm opcode hp small (ground arith))
              (omega (arith, length-masked_self a b c d payload)))
        | inr q ↦ rw q (
            frame_eq opcode _ _ payload _ ho (decode_long a b c d payload rest hm opcode hp small)
              (omega (arith, length-masked_self a b c d payload)))
      ])
    ]

-- A frame that the server itself sends is refused as unmasked, whatever follows it.
pub decode-encode_frame :
    (opcode : ℕ) (payload rest : List ℕ)
    → decode_frame (encode_frame opcode payload ++ rest) ≡ not_masked
unfolding encode_frame decode_frame
decode-encode_frame opcode payload rest = elim (Bool-cases (ltb (length payload) 126)) [
  | inl p ↦
      let (_, _, bit) = length_bits (length payload) (ground arith) in rw (p, bit) (ground arith)
  | inr p ↦ rw p (elim (Bool-cases (ltb (length payload) 65536)) [
    | inl q ↦ rw q (ground arith)
    | inr q ↦ rw q (ground arith)
  ])
]
