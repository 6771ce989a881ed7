-- ===== src/Examples/Messages.antt =====
-- What is typed and read at linux/socket/client.py.
use til.Prelude.{
  ◌≡◌, ◌≤◌, ◌<◌, ℕ, List, map, refl, true, [], ◌∷◌, ◌++◌, length, take, replicate, arith,
}
use til.Chat.{
  recv_size, arrives, peer_closed, end_of_input, recv_data, failed, exit_line, same_text,
  message_loop, client,
}
use til.Chat.Utf8.{Text, Bytes, is_scalar, encode_char}
use til.Chat.Utf8.RoundTrip.{wire, are_scalars}
use til.Chat.Pieces.{bytes_of}
use til.Chat.Cut.{IsLine, terminators, stream, sends_some, sent_whole, message_loop-terminators}
use til.Chat.Misread.{recv_data-cut, recv_data-two_messages}
use til.Chat.Spoken.{has_zero, IsPlain, sends, echoes, client-lines}

-- '안녕', of three bytes each, and 'hi'.
abbrev korean : Text
korean = 0xc548 ∷ 0xb155 ∷ []

abbrev hi : Text
hi = b'h' ∷ b'i' ∷ []

test_wire : bytes_of korean ≡ 0xec ∷ 0x95 ∷ 0x88 ∷ 0xeb ∷ 0x85 ∷ 0x95 ∷ 0 ∷ []
unfolding wire encode_char
test_wire = refl

korean-IsPlain : IsPlain korean
unfolding wire encode_char are_scalars is_scalar has_zero same_text
korean-IsPlain = record { scalars = refl; no_zero = refl; fits = omega arith; goes_on = refl }

hi-IsPlain : IsPlain hi
unfolding wire encode_char are_scalars is_scalar has_zero same_text
hi-IsPlain = record { scalars = refl; no_zero = refl; fits = omega arith; goes_on = refl }

client-lines_example :
    client
      (sends korean ∷ sends hi ∷ sends exit_line ∷ end_of_input ∷ [])
      (echoes korean ∷ echoes hi ∷ echoes exit_line ∷ peer_closed ∷ [])
    ≡ record {
      pieces = bytes_of korean ∷ bytes_of hi ∷ bytes_of exit_line ∷ [];
      printed = korean ∷ hi ∷ exit_line ∷ [];
      closed = true;
    }
client-lines_example =
    client-lines (korean ∷ hi ∷ []) (end_of_input ∷ []) (korean-IsPlain, (hi-IsPlain, tt))

two-fit : length (bytes_of hi ++ bytes_of korean) ≤ recv_size
unfolding wire encode_char
two-fit = omega arith

recv_data-two_messages_example :
    recv_data [] (arrives (bytes_of hi ++ bytes_of korean) ∷ peer_closed ∷ [])
    ≡ recv_data [] (arrives (bytes_of hi) ∷ peer_closed ∷ [])
recv_data-two_messages_example =
    recv_data-two_messages hi korean (peer_closed ∷ []) hi-IsPlain.scalars korean-IsPlain.scalars
      two-fit

-- 29 letters and then a letter of three bytes.
abbrev letters : Text
letters = replicate 20 b'a'

letters-scalars : (are_scalars letters ≡ true) × (is_scalar 0xc548 ≡ true)
unfolding are_scalars is_scalar
letters-scalars = (refl, refl)

-- The letters and the first two bytes of a character of three, less than one `recv` could read.
abbrev partly : Bytes
partly = wire letters ++ take 2 (encode_char 0xc548)

partly-read : take recv_size ([] ++ partly) ≡ partly
unfolding wire encode_char
partly-read = refl

inside : 2 < length (encode_char 0xc548)
unfolding encode_char
inside = omega arith

recv_data-cut_example :
    recv_data [] (arrives partly ∷ arrives (bytes_of hi) ∷ [])
    ≡ record { printed = []; thread = failed }
recv_data-cut_example =
    recv_data-cut [] partly letters 0xc548 2 (arrives (bytes_of hi) ∷ []) partly-read
      letters-scalars.0 letters-scalars.1 (omega arith) inside

korean-IsLine : IsLine korean
korean-IsLine = record {
  scalars = korean-IsPlain.scalars;
  no_zero = korean-IsPlain.no_zero;
  goes_on = korean-IsPlain.goes_on;
}

hi-IsLine : IsLine hi
hi-IsLine = record {
  scalars = hi-IsPlain.scalars;
  no_zero = hi-IsPlain.no_zero;
  goes_on = hi-IsPlain.goes_on;
}

-- Four of the seven bytes of the first message, and all three of the second.
abbrev cut_lines : List (Text × ℕ)
cut_lines = (korean, 4) ∷ (hi, 3) ∷ []

test_sent_whole : sent_whole cut_lines ≡ 1
unfolding wire encode_char
test_sent_whole = refl

message_loop-terminators_example :
    terminators (stream (message_loop (map sends_some cut_lines)).pieces) ≡ sent_whole cut_lines
message_loop-terminators_example =
    message_loop-terminators cut_lines (korean-IsLine, (hi-IsLine, tt))
