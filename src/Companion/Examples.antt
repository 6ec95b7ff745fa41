-- ===== src/Companion/Examples.antt =====
-- The theorems about WebSocket frames at concrete inputs.
use next_level_agent.Base.{ℕ, ◌≡◌, List, [], ◌∷◌, ◌++◌, length, arith}
use next_level_agent.Companion.Frames.{decode_frame, frame}
use next_level_agent.Companion.Masking.{client_frame, decode-client_frame}
use next_level_agent.Companion.Streaming.{IfComplete, decode_frame-append}

abbrev hello : List ℕ
hello = 72 ∷ 101 ∷ 108 ∷ 108 ∷ 111 ∷ []

decode-client_frame_example :
    decode_frame (client_frame 1 7 8 9 250 hello ++ 5 ∷ 6 ∷ [])
    ≡ frame 1 hello (length (client_frame 1 7 8 9 250 hello))
decode-client_frame_example =
    decode-client_frame 1 7 8 9 250 hello (5 ∷ 6 ∷ []) (omega arith) (omega arith) (omega arith)
      (omega arith)

decode_frame-append_example :
    IfComplete
      (decode_frame (client_frame 1 7 8 9 250 hello))
      (decode_frame (client_frame 1 7 8 9 250 hello ++ 5 ∷ []))
decode_frame-append_example = decode_frame-append (client_frame 1 7 8 9 250 hello) (5 ∷ [])
