-- ===== src/Chat/Utf8.antt =====
-- What linux/socket/client.py uses of Python's UTF-8: `str.encode()` and `bytes.decode('utf-8')`. A
-- text is a list of code points. Neither function takes a surrogate.
use til.Prelude.{
  ℕ, zero, suc, ◌+◌, ◌-◌, ◌*◌, ◌/◌, ◌%◌, Bool, ◌&&◌, ◌||◌, Option, none, some, List, [], ◌∷◌, ◌++◌,
  ltb, leb, if◌then◌else◌,
}
pub mod Characters
pub mod RoundTrip

abbrev pub Text : Type 0
Text = List ℕ

abbrev pub Bytes : Type 0
Bytes = List ℕ

unfoldable pub is_scalar : ℕ → Bool
is_scalar c = ltb c 0xd800 || (leb 0xe000 c && ltb c 0x11_0000)

unfoldable pub encode_char : ℕ → Bytes
encode_char c =
    if ltb c 0x80
    then c ∷ []
    else if ltb c 0x800
    then (0xc0 + c / 64) ∷ (0x80 + c % 64) ∷ []
    else if ltb c 0x1_0000
    then (0xe0 + c / 4096) ∷ (0x80 + c / 64 % 64) ∷ (0x80 + c % 64) ∷ []
    else (0xf0 + c / 262144) ∷ (0x80 + c / 4096 % 64) ∷ (0x80 + c / 64 % 64) ∷ (0x80 + c % 64) ∷ []

-- `none` is a UnicodeEncodeError.
unfoldable pub encode : Text → Option Bytes
unfolding is_scalar encode_char
encode [] = some []
encode (c ∷ rest) = elim (encode rest) [
  | none ↦ none
  | some bytes ↦ if is_scalar c then some (encode_char c ++ bytes) else none
]

-- In the middle of a character: the bytes to come, the bits so far, and the least code point that
-- needs so many bytes. Between two characters no byte is to come.
pub record Partial : Type 0 where
  pub to_come : ℕ
  pub bits : ℕ
  pub least : ℕ

abbrev pub between : Partial
between = record { to_come = 0; bits = 0; least = 0 }

-- After a byte: what is open, and the character that it completes.
pub data Fed : Type 0 where
  bad : Fed
  open_char : Partial → Fed
  char : ℕ → Fed

unfoldable pub feed_first : ℕ → Fed
feed_first b =
    if ltb b 0x80
    then char b
    else if ltb b 0xc0
    then bad
    else if ltb b 0xe0
    then open_char (record { to_come = 1; bits = b - 0xc0; least = 0x80 })
    else if ltb b 0xf0
    then open_char (record { to_come = 2; bits = b - 0xe0; least = 0x800 })
    else if ltb b 0xf8
    then open_char (record { to_come = 3; bits = b - 0xf0; least = 0x1_0000 })
    else bad

unfoldable pub feed_last : ℕ → ℕ → Fed
unfolding is_scalar
feed_last least c = if leb least c && is_scalar c then char c else bad

unfoldable pub feed_next : ℕ → ℕ → ℕ → ℕ → Fed
unfolding feed_last
feed_next zero bits least b = feed_last least (64 * bits + (b - 0x80))
feed_next (suc k) bits least b =
    open_char (record { to_come = suc k; bits = 64 * bits + (b - 0x80); least = least })

unfoldable pub feed : ℕ → ℕ → ℕ → ℕ → Fed
unfolding feed_first feed_next
feed zero bits least b = feed_first b
feed (suc k) bits least b = if leb 0x80 b && ltb b 0xc0 then feed_next k bits least b else bad

unfoldable pub finished : ℕ → Option Text
finished zero = some []
finished (suc k) = none

abbrev pub prepend : ℕ → Option Text → Option Text
prepend c none = none
prepend c (some text) = some (c ∷ text)

unfoldable pub decode_from : Partial → Bytes → Option Text
unfolding finished feed
decode_from p [] = finished p.to_come
decode_from p (b ∷ rest) = elim (feed p.to_come p.bits p.least b) [
  | bad ↦ none
  | open_char q ↦ decode_from q rest
  | char c ↦ prepend c (decode_from between rest)
]

-- `none` is a UnicodeDecodeError.
unfoldable pub decode : Bytes → Option Text
unfolding decode_from
decode bytes = decode_from between bytes
