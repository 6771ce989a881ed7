-- ===== src/Chat/Pieces.antt =====
-- One `recv` of linux/socket/client.py, and the bytes of a message.
use til.Prelude.{
  ℕ, ◌≡◌, ◌≤◌, ◌<◌, refl, ap, true, none, List, [], ◌∷◌, ◌++◌, length, take-length, drop-length,
  arith,
}
use til.Chat.{recv_size, Arrival, arrives, Received, recv_data, on_data, show, message_of}
use til.Chat.Utf8.{Text, Bytes, is_scalar, encode_char, decode_from, finished, decode}
use til.Chat.Utf8.RoundTrip.{wire, are_scalars, are_scalars-append}

abbrev pub bytes_of : Text → Bytes
bytes_of line = wire (message_of line)

pub scalars-message_of : (t : Text) → are_scalars t ≡ true → are_scalars (message_of t) ≡ true
unfolding are_scalars is_scalar
scalars-message_of t e = are_scalars-append t (0 ∷ []) e refl

encode_char-nonempty : (c : ℕ) → 0 < length (encode_char c)
unfolding encode_char
encode_char-nonempty c = ground arith

pub nonempty-append : (xs ys : Bytes) → 0 < length xs → 0 < length (xs ++ ys)
nonempty-append [] ys h = ground arith
nonempty-append (x ∷ xs) ys h = omega arith

pub wire-nonempty : (t : Text) → 0 < length (bytes_of t)
unfolding wire
wire-nonempty [] = nonempty-append (encode_char 0) (wire []) (encode_char-nonempty 0)
wire-nonempty (c ∷ t) =
    nonempty-append (encode_char c) (wire (message_of t)) (encode_char-nonempty c)

on_data-decode :
    (bytes : Bytes) (later : Received)
    → 0 < length bytes
    → on_data bytes later ≡ show (decode bytes) later
unfolding on_data
on_data-decode [] later h = ground arith
on_data-decode (b ∷ rest) later h = refl

pub on_data-none :
    (bytes : Bytes) (later : Received) → decode bytes ≡ none → on_data bytes later ≡ show none later
unfolding on_data decode decode_from finished
on_data-none [] later e = ground arith
on_data-none (b ∷ rest) later e = ap (λ o. show o later) e

-- A piece that one `recv` reads whole.
pub recv_data-piece :
    (bytes : Bytes) (rest : List Arrival)
    → 0 < length bytes
    → length bytes ≤ recv_size
    → recv_data [] (arrives bytes ∷ rest) ≡ show (decode bytes) (recv_data [] rest)
unfolding recv_data
recv_data-piece bytes rest l h =
    rw (take-length recv_size bytes h, drop-length recv_size bytes h)
      (on_data-decode bytes (recv_data [] rest) l)
