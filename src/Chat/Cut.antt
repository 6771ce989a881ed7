-- ===== src/Chat/Cut.antt =====
-- What the peer of linux/socket/client.py gets if `send` takes less than a whole message.
use til.Prelude.{
  ℕ, zero, suc, ◌+◌, ◌≡◌, refl, ap, ◌∙◌, true, false, List, [], ◌∷◌, ◌++◌, ◌==◌, All, map, take,
  length, leb, if◌then◌else◌, append_assoc, sym, arith,
}
use til.Chat.{
  message_of, exit_line, same_text, takes, Input, typed, after_send, send_message, message_loop,
}
use til.Chat.Pieces.{bytes_of, scalars-message_of}
use til.Chat.Spoken.{has_zero}
use til.Chat.Utf8.{Text, Bytes, encode_char}
use til.Chat.Utf8.RoundTrip.{wire, are_scalars, encode-wire}

-- A line that can be encoded, ends where its message ends, and is not `exit`; of any length.
pub record IsLine (line : Text) : Type 0 where
  pub scalars : are_scalars line ≡ true
  pub no_zero : has_zero line ≡ false
  pub goes_on : same_text (message_of line) (message_of exit_line) ≡ false

-- How many messages end in these bytes.
abbrev pub terminators : Bytes → ℕ
terminators [] = 0
terminators (b ∷ rest) = if b == 0 then suc (terminators rest) else terminators rest

abbrev pub stream : List Bytes → Bytes
stream [] = []
stream (piece ∷ rest) = piece ++ stream rest

-- The line is typed, and `send` takes so many bytes of its message, or all if there are fewer.
abbrev pub sends_some : Text × ℕ → Input
sends_some (line, n) = typed line (takes n)

-- How many of the messages `send` took whole.
abbrev pub sent_whole : List (Text × ℕ) → ℕ
sent_whole [] = 0
sent_whole ((line, n) ∷ rest) =
    if leb (length (bytes_of line)) n then suc (sent_whole rest) else sent_whole rest

terminators-append : (a b : Bytes) → terminators (a ++ b) ≡ terminators a + terminators b
terminators-append [] b = omega arith
terminators-append (x ∷ a) b = ground (arith, terminators-append a b)

terminators-encode_char : (c : ℕ) → (c == 0) ≡ false → terminators (encode_char c) ≡ 0
unfolding encode_char
terminators-encode_char c h = ground arith

terminators-wire : (t : Text) → has_zero t ≡ false → terminators (wire t) ≡ 0
unfolding wire has_zero
terminators-wire [] h = refl
terminators-wire (c ∷ t) h =
    let here : (c == 0) ≡ false = ground arith in
    let later : has_zero t ≡ false = ground arith in
    terminators-append (encode_char c) (wire t)
    ∙ omega (arith, terminators-encode_char c here, terminators-wire t later)

bytes_of-wire : (t : Text) → bytes_of t ≡ wire t ++ 0 ∷ []
unfolding wire encode_char
bytes_of-wire [] = refl
bytes_of-wire (c ∷ t) =
    ap (λ b. encode_char c ++ b) (bytes_of-wire t)
    ∙ sym (append_assoc (encode_char c) (wire t) (0 ∷ []))

-- The terminator is the last byte.
terminators-take :
    (n : ℕ) (bytes : Bytes)
    → terminators bytes ≡ 0
    → terminators (take n (bytes ++ 0 ∷ [])) ≡ (if leb (length (bytes ++ 0 ∷ [])) n then 1 else 0)
terminators-take zero [] h = ground arith
terminators-take zero (b ∷ bytes) h = ground arith
terminators-take (suc zero) [] h = ground arith
terminators-take (suc (suc n)) [] h = ground arith
terminators-take (suc n) (b ∷ bytes) h = ground (arith, terminators-take n bytes)

message_loop-piece :
    (line : Text) (n : ℕ) (rest : List Input)
    → IsLine line
    → (message_loop (sends_some (line, n) ∷ rest)).pieces
      ≡ take n (bytes_of line) ∷ (message_loop rest).pieces
unfolding message_loop send_message after_send
message_loop-piece line n rest p =
    rw (encode-wire (message_of line) (scalars-message_of line p.scalars), p.goes_on) refl

one_piece :
    (line : Text) (n : ℕ)
    → IsLine line
    → terminators (take n (bytes_of line)) ≡ (if leb (length (bytes_of line)) n then 1 else 0)
one_piece line n p =
    rw (bytes_of-wire line) (terminators-take n (wire line) (terminators-wire line p.no_zero))

-- Lines other than `exit` are typed, and each `send` takes some part of its message. Then as many
-- messages end in what the peer gets as were taken whole: each `send` that takes less leaves its
-- message without an end, and the next one runs into it.
pub message_loop-terminators :
    (lines : List (Text × ℕ))
    → All (λ x. IsLine x.0) lines
    → terminators (stream (message_loop (map sends_some lines)).pieces) ≡ sent_whole lines
message_loop-terminators [] p = unfold message_loop in refl
message_loop-terminators ((line, n) ∷ lines) p =
    ap (λ l. terminators (stream l)) (message_loop-piece line n (map sends_some lines) p.0)
    ∙ terminators-append (take n (bytes_of line)) _
    ∙ ground (arith, one_piece line n p.0, message_loop-terminators lines p.1)
