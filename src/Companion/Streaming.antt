-- ===== src/Companion/Streaming.antt =====
-- server.cjs: decoding from a buffer that grows as bytes arrive.
use next_level_agent.Base.{
  ℕ, ◌+◌, ◌≤◌, ◌<◌, ◌≡◌, refl, ap, ◌∙◌, false, List, ◌++◌, length, take, drop, eqb, ltb, inl, inr,
  Bool-cases, arith, length-append, take-append_le, drop-append_le, length-drop_add,
  get_elem?-append,
}
use Prim.Native.Nat.{bit_and}
use next_level_agent.Companion.Frames.{
  max_frame_payload_bytes, Decoded, incomplete, byte_at, read16, read64, decode_payload,
  decode_medium, decode_long, decode_masked, decode_frame,
}

-- One reading where the other cannot tell yet, the same where it can.
abbrev pub IfComplete : Decoded → Decoded → Type 0
IfComplete incomplete e = Unit
IfComplete d e = e ≡ d

module _ (buffer more : List ℕ) where
  byte_at-append : (i : ℕ) → i < length buffer → byte_at (buffer ++ more) i ≡ byte_at buffer i
  byte_at-append i h = ground (arith, get_elem?-append buffer more i h)

  payload_at-append :
      (n k : ℕ) → n + k ≤ length buffer → take k (drop n (buffer ++ more)) ≡ take k (drop n buffer)
  payload_at-append n k h =
      ap (take k) (drop-append_le n buffer more (omega arith))
      ∙ take-append_le k (drop n buffer) more
          (omega (arith, length-drop_add n buffer (omega arith)))

  decode_payload-append :
      (payload_len offset : ℕ)
      → 2 ≤ offset
      → IfComplete
          (decode_payload buffer payload_len offset)
          (decode_payload (buffer ++ more) payload_len offset)
  unfolding decode_payload
  decode_payload-append payload_len offset ho =
      elim (Bool-cases (ltb max_frame_payload_bytes payload_len)) [
        | inl p ↦ rw p refl
        | inr p ↦ rw p (elim (Bool-cases (ltb (length buffer) (offset + 4 + payload_len))) [
          | inl q ↦ rw q tt
          | inr q ↦
              let r : ltb (length (buffer ++ more)) (offset + 4 + payload_len) ≡ false =
                ground (arith, length-append buffer more) in
              rw
                (
                  q,
                  r,
                  byte_at-append 0 (ground arith),
                  payload_at-append offset 4 (ground arith),
                  payload_at-append (offset + 4) payload_len (ground arith),
                )
                refl
        ])
      ]

  decode_medium-append : IfComplete (decode_medium buffer) (decode_medium (buffer ++ more))
  decode_medium-append = elim (Bool-cases (ltb (length buffer) 4)) [
    | inl q ↦ rw q tt
    | inr q ↦
        let r : ltb (length (buffer ++ more)) 4 ≡ false =
          ground (arith, length-append buffer more) in
        rw (q, r, byte_at-append 2 (ground arith), byte_at-append 3 (ground arith))
          (decode_payload-append (read16 buffer) 4 (omega arith))
  ]

  read64-append : 10 ≤ length buffer → read64 (buffer ++ more) ≡ read64 buffer
  read64-append h = rw (
    byte_at-append 2 (omega arith),
    byte_at-append 3 (omega arith),
    byte_at-append 4 (omega arith),
    byte_at-append 5 (omega arith),
    byte_at-append 6 (omega arith),
    byte_at-append 7 (omega arith),
    byte_at-append 8 (omega arith),
    byte_at-append 9 (omega arith),
  )

  decode_long-append : IfComplete (decode_long buffer) (decode_long (buffer ++ more))
  decode_long-append = elim (Bool-cases (ltb (length buffer) 10)) [
    | inl q ↦ rw q tt
    | inr q ↦
        let r : ltb (length (buffer ++ more)) 10 ≡ false =
          ground (arith, length-append buffer more) in
        rw (q, r, read64-append (ground arith))
          (elim (Bool-cases (ltb max_frame_payload_bytes (read64 buffer))) [
            | inl t ↦ rw t refl
            | inr t ↦ rw t (decode_payload-append (read64 buffer) 10 (omega arith))
          ])
  ]

  decode_masked-append :
      (n : ℕ) → IfComplete (decode_masked buffer n) (decode_masked (buffer ++ more) n)
  decode_masked-append n = elim (Bool-cases (eqb n 126)) [
    | inl p ↦ rw p decode_medium-append
    | inr p ↦ rw p (elim (Bool-cases (eqb n 127)) [
      | inl q ↦ rw q decode_long-append
      | inr q ↦ rw q (decode_payload-append n 2 (omega arith))
    ])
  ]

  -- If the decoder does not ask for more bytes, then more bytes behind the buffer change neither the
  -- decoded frame nor the error.
  pub decode_frame-append : IfComplete (decode_frame buffer) (decode_frame (buffer ++ more))
  unfolding decode_frame
  decode_frame-append = elim (Bool-cases (ltb (length buffer) 2)) [
    | inl p ↦ rw p tt
    | inr p ↦
        let long : ltb (length (buffer ++ more)) 2 ≡ false =
          ground (arith, length-append buffer more) in
        rw (p, long, byte_at-append 1 (ground arith))
          (elim (Bool-cases (eqb (bit_and (byte_at buffer 1) 0x80) 0)) [
            | inl q ↦ rw q refl
            | inr q ↦ rw q (decode_masked-append (bit_and (byte_at buffer 1) 0x7F))
          ])
  ]
