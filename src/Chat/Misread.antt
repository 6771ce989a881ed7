-- ===== src/Chat/Misread.antt =====
-- What `recv_data` of linux/socket/client.py does where the pieces that `recv` returns are not the
-- messages.
use til.Prelude.{
  ℕ, ◌+◌, ◌-◌, ◌≡◌, ◌≤◌, ◌<◌, refl, sym, ap, ◌∙◌, true, none, some, List, [], ◌∷◌, ◌++◌, take, drop,
  length, append_assoc, length-append, take-append, take-prefix, arith,
}
use til.Chat.{
  recv_size, Arrival, Received, arrives, recv_data, show, first_part, failed, message_of,
}
use til.Chat.Pieces.{
  bytes_of, scalars-message_of, wire-nonempty, nonempty-append, on_data-none, recv_data-piece,
}
use til.Chat.Utf8.{Text, Bytes, is_scalar, encode_char, decode}
use til.Chat.Utf8.Characters.{decode_from-take}
use til.Chat.Utf8.RoundTrip.{
  wire, decode-wires, are_scalars, prepend_all, prepend_all-none, decode-wire, decode_from-wire,
}

first_part-zero : (t u : Text) → first_part (t ++ 0 ∷ u) ≡ first_part (t ++ 0 ∷ [])
unfolding first_part
first_part-zero [] u = refl
first_part-zero (c ∷ t) u = ground (arith, first_part-zero t u)

show-message_of :
    (t u : Text) (later : Received)
    → show (some (message_of t ++ u)) later ≡ show (some (message_of t)) later
unfolding show
show-message_of t u later = rw (append_assoc t (0 ∷ []) u, first_part-zero t u) refl

decode-cut :
    (t : Text) (c k : ℕ)
    → are_scalars t ≡ true
    → is_scalar c ≡ true
    → 0 < k
    → k < length (encode_char c)
    → decode (wire t ++ take k (encode_char c)) ≡ none
unfolding decode
decode-cut t c k e s p h =
    decode_from-wire t (take k (encode_char c)) e
    ∙ ap (prepend_all t) (decode_from-take c k s p h)
    ∙ prepend_all-none t

-- If what a `recv` returns ends inside a character, whatever text stands before it, the thread ends by
-- an exception, and prints nothing of that piece nor of what comes after it.
pub recv_data-cut :
    (buffer bytes : Bytes) (t : Text) (c k : ℕ) (rest : List Arrival)
    → take recv_size (buffer ++ bytes) ≡ wire t ++ take k (encode_char c)
    → are_scalars t ≡ true
    → is_scalar c ≡ true
    → 0 < k
    → k < length (encode_char c)
    → recv_data buffer (arrives bytes ∷ rest) ≡ record { printed = []; thread = failed }
unfolding recv_data show
recv_data-cut buffer bytes t c k rest q e s p h =
    on_data-none (take recv_size (buffer ++ bytes))
      (recv_data (drop recv_size (buffer ++ bytes)) rest) (ap decode q ∙ decode-cut t c k e s p h)

-- `recv` returns 30 bytes at most, so this happens whenever a character stands across that bound in
-- what has arrived.
recv_data-bound :
    (buffer bytes : Bytes) (t : Text) (c : ℕ) (more : Bytes) (rest : List Arrival)
    → buffer ++ bytes ≡ wire t ++ (encode_char c ++ more)
    → are_scalars t ≡ true
    → is_scalar c ≡ true
    → length (wire t) < recv_size
    → recv_size < length (wire t) + length (encode_char c)
    → recv_data buffer (arrives bytes ∷ rest) ≡ record { printed = []; thread = failed }
recv_data-bound buffer bytes t c more rest q e s l h =
    let k = recv_size - length (wire t) in
    let piece : take recv_size (buffer ++ bytes) ≡ wire t ++ take k (encode_char c) =
      ap (take recv_size) q
      ∙ take-append recv_size k (wire t) (encode_char c ++ more) (omega arith)
      ∙ ap (λ z. wire t ++ z) (take-prefix k (encode_char c) more (omega arith)) in
    recv_data-cut buffer bytes t c k rest piece e s (omega arith) (omega arith)

-- Of two messages that come in one piece, which one `recv` reads whole, only the first is printed:
-- what the thread does is what it does if only the first has come.
pub recv_data-two_messages :
    (t u : Text) (rest : List Arrival)
    → are_scalars t ≡ true
    → are_scalars u ≡ true
    → length (bytes_of t ++ bytes_of u) ≤ recv_size
    → recv_data [] (arrives (bytes_of t ++ bytes_of u) ∷ rest)
      ≡ recv_data [] (arrives (bytes_of t) ∷ rest)
recv_data-two_messages t u rest e f h =
    let s = scalars-message_of t e in
    recv_data-piece (bytes_of t ++ bytes_of u) rest
      (nonempty-append (bytes_of t) (bytes_of u) (wire-nonempty t)) h
    ∙ ap (λ o. show o (recv_data [] rest))
        (decode-wires (message_of t) (message_of u) s (scalars-message_of u f))
    ∙ show-message_of t (message_of u) (recv_data [] rest)
    ∙ ap (λ o. show o (recv_data [] rest)) (sym (decode-wire (message_of t) s))
    ∙ sym (
        recv_data-piece (bytes_of t) rest (wire-nonempty t)
          (omega (arith, length-append {0} (bytes_of t) (bytes_of u))))
