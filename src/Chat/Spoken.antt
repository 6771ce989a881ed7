-- ===== src/Chat/Spoken.antt =====
-- A conversation of linux/socket/client.py in which each message comes back by itself.
use til.Prelude.{
  ◌≡◌, ◌≤◌, refl, ap, ◌∙◌, Bool, true, false, ◌||◌, List, [], ◌∷◌, ◌++◌, ◌==◌, All, map, length,
  take-length, arith,
}
use til.Chat.{
  recv_size, Arrival, arrives, peer_closed, Received, returned, recv_data, on_data, on_closed, show,
  first_part, message_of, exit_line, same_text, takes, Input, typed, Sent, left, after_send,
  send_message, message_loop, is_closed, client,
}
use til.Chat.Pieces.{bytes_of, scalars-message_of, wire-nonempty, recv_data-piece}
use til.Chat.Utf8.{Text, Bytes, encode_char, decode, decode_from, feed, feed_first, finished}
use til.Chat.Utf8.RoundTrip.{wire, are_scalars, encode-wire, decode-wire}

unfoldable pub has_zero : Text → Bool
has_zero [] = false
has_zero (c ∷ rest) = c == 0 || has_zero rest

-- A line that can be encoded, ends where its message ends, fits one `recv`, and is not `exit`.
pub record IsPlain (line : Text) : Type 0 where
  pub scalars : are_scalars line ≡ true
  pub no_zero : has_zero line ≡ false
  pub fits : length (bytes_of line) ≤ recv_size
  pub goes_on : same_text (message_of line) (message_of exit_line) ≡ false

-- The line is typed, and `send` takes its whole message; later it arrives.
abbrev pub sends : Text → Input
sends line = typed line (takes (length (bytes_of line)))

abbrev pub echoes : Text → Arrival
echoes line = arrives (bytes_of line)

first_part-message_of : (t : Text) → has_zero t ≡ false → first_part (message_of t) ≡ t
unfolding has_zero first_part
first_part-message_of [] e = refl
first_part-message_of (c ∷ t) e = ground (arith, first_part-message_of t)

recv_data-echoes :
    (line : Text) (rest : List Arrival)
    → are_scalars line ≡ true
    → has_zero line ≡ false
    → length (bytes_of line) ≤ recv_size
    → recv_data [] (echoes line ∷ rest) ≡ (
        let later = recv_data [] rest in
        record { printed = line ∷ later.printed; thread = later.thread })
unfolding show
recv_data-echoes line rest s z f =
    recv_data-piece (bytes_of line) rest (wire-nonempty line) f
    ∙ rw (decode-wire (message_of line) (scalars-message_of line s), first_part-message_of line z)
        refl

-- What is sent for a line that is not `exit`, and for `exit`.
message_loop-sends :
    (line : Text) (rest : List Input)
    → IsPlain line
    → message_loop (sends line ∷ rest) ≡ (
        let later = message_loop rest in
        record { pieces = bytes_of line ∷ later.pieces; loop = later.loop })
unfolding message_loop send_message after_send
message_loop-sends line rest p =
    rw
      (
        encode-wire (message_of line) (scalars-message_of line p.scalars),
        p.goes_on,
        take-length (length (bytes_of line)) (bytes_of line) (omega arith),
      )
      refl

message_loop-exit :
    (rest : List Input)
    → message_loop (sends exit_line ∷ rest)
      ≡ record { pieces = bytes_of exit_line ∷ []; loop = left }
unfolding message_loop wire
message_loop-exit rest =
    ap (λ (z : Bytes). record { pieces = z ∷ []; loop = left })
      (take-length (length (bytes_of exit_line)) (bytes_of exit_line) (omega arith))

message_loop-lines :
    (lines : List Text) (later : List Input)
    → All IsPlain lines
    → message_loop (map sends lines ++ (sends exit_line ∷ later))
      ≡ record { pieces = map bytes_of lines ++ bytes_of exit_line ∷ []; loop = left }
message_loop-lines [] later p = message_loop-exit later
message_loop-lines (line ∷ lines) later p =
    message_loop-sends line (map sends lines ++ (sends exit_line ∷ later)) p.0
    ∙ ap (λ (s : Sent). record { pieces = bytes_of line ∷ s.pieces; loop = s.loop })
        (message_loop-lines lines later p.1)

recv_data-lines :
    (lines : List Text)
    → All IsPlain lines
    → recv_data [] (map echoes lines ++ (echoes exit_line ∷ peer_closed ∷ []))
      ≡ record { printed = lines ++ exit_line ∷ []; thread = returned }
unfolding recv_data on_data on_closed show first_part wire encode_char decode decode_from feed
    feed_first finished
recv_data-lines [] p = refl
recv_data-lines (line ∷ lines) p =
    recv_data-echoes line (map echoes lines ++ (echoes exit_line ∷ peer_closed ∷ [])) (p.0).scalars
      (p.0).no_zero (p.0).fits
    ∙ ap (λ (r : Received). record { printed = line ∷ r.printed; thread = r.thread })
        (recv_data-lines lines p.1)

-- Plain lines are typed, then `exit`, and maybe more; each message is sent whole and comes back by
-- itself, and then the peer closes. Then the client has sent exactly the messages up to that of
-- `exit`, has printed exactly the lines up to `exit`, in their order, and has closed the socket.
pub client-lines :
    (lines : List Text) (later : List Input)
    → All IsPlain lines
    → client
        (map sends lines ++ (sends exit_line ∷ later))
        (map echoes lines ++ (echoes exit_line ∷ peer_closed ∷ []))
      ≡ record {
        pieces = map bytes_of lines ++ bytes_of exit_line ∷ [];
        printed = lines ++ exit_line ∷ [];
        closed = true;
      }
unfolding client is_closed
client-lines lines later p = rw (message_loop-lines lines later p, recv_data-lines lines p) refl
