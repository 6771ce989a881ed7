-- ===== src/Chat/Utf8/Characters.antt =====
-- The bytes of one character, whole and cut.
use til.Prelude.{
  ℕ, zero, suc, ◌+◌, ◌-◌, ◌*◌, ◌/◌, ◌%◌, ◌<◌, ◌≤◌, ◌≡◌, ap, ◌∙◌, true, none, [], ◌∷◌, ◌++◌, arith,
  length, take,
}
use til.Chat.Utf8.{
  Bytes, is_scalar, encode_char, between, feed_first, feed_last, feed_next, feed, finished, prepend,
  decode_from,
}

first_byte :
    (b : ℕ) (rest : Bytes)
    → b < 0x80
    → decode_from between (b ∷ rest) ≡ prepend b (decode_from between rest)
unfolding decode_from feed feed_first
first_byte b rest h = ground arith

two :
    (b : ℕ)
    → 0xc0 ≤ b
    → b < 0xe0
    → (rest : Bytes)
    → decode_from between (b ∷ rest)
      ≡ decode_from (record { to_come = 1; bits = b - 0xc0; least = 0x80 }) rest
unfolding decode_from feed feed_first
two b h k rest = ground arith

three :
    (b : ℕ)
    → 0xe0 ≤ b
    → b < 0xf0
    → (rest : Bytes)
    → decode_from between (b ∷ rest)
      ≡ decode_from (record { to_come = 2; bits = b - 0xe0; least = 0x800 }) rest
unfolding decode_from feed feed_first
three b h k rest = ground arith

four :
    (b : ℕ)
    → 0xf0 ≤ b
    → b < 0xf8
    → (rest : Bytes)
    → decode_from between (b ∷ rest)
      ≡ decode_from (record { to_come = 3; bits = b - 0xf0; least = 0x1_0000 }) rest
unfolding decode_from feed feed_first
four b h k rest = ground arith

-- A byte inside a character, and the last one of it. `g` is the group of six bits that it holds.
next_byte :
    (k bits least g : ℕ) (rest : Bytes)
    → g < 64
    → decode_from (record { to_come = suc (suc k); bits = bits; least = least }) ((0x80 + g) ∷ rest)
      ≡ decode_from (record { to_come = suc k; bits = 64 * bits + g; least = least }) rest
unfolding decode_from feed feed_next
next_byte k bits least g rest h = ground arith

last_byte :
    (bits least g : ℕ) (rest : Bytes)
    → g < 64
    → least ≤ 64 * bits + g
    → is_scalar (64 * bits + g) ≡ true
    → decode_from (record { to_come = 1; bits = bits; least = least }) ((0x80 + g) ∷ rest)
      ≡ prepend (64 * bits + g) (decode_from between rest)
unfolding decode_from feed feed_next feed_last
last_byte bits least g rest h m s = ground arith

two_bytes :
    (c : ℕ) (rest : Bytes)
    → 0x80 ≤ c
    → c < 0x800
    → is_scalar c ≡ true
    → decode_from between ((0xc0 + c / 64) ∷ (0x80 + c % 64) ∷ rest)
      ≡ prepend c (decode_from between rest)
two_bytes c rest l h s =
    let e : 64 * (0xc0 + c / 64 - 0xc0) + c % 64 ≡ c = omega arith in
    two (0xc0 + c / 64) (omega arith) (omega arith) ((0x80 + c % 64) ∷ rest)
    ∙ last_byte (0xc0 + c / 64 - 0xc0) 0x80 (c % 64) rest (omega arith) (omega arith) (rw e s)
    ∙ ap (λ d. prepend d (decode_from between rest)) e

three_bytes :
    (c : ℕ) (rest : Bytes)
    → 0x800 ≤ c
    → c < 0x1_0000
    → is_scalar c ≡ true
    → decode_from between ((0xe0 + c / 4096) ∷ (0x80 + c / 64 % 64) ∷ (0x80 + c % 64) ∷ rest)
      ≡ prepend c (decode_from between rest)
three_bytes c rest l h s =
    let top = 0xe0 + c / 4096 - 0xe0 in
    let e : 64 * (64 * (0xe0 + c / 4096 - 0xe0) + c / 64 % 64) + c % 64 ≡ c = omega arith in
    three (0xe0 + c / 4096) (omega arith) (omega arith)
      ((0x80 + c / 64 % 64) ∷ (0x80 + c % 64) ∷ rest)
    ∙ next_byte 0 top 0x800 (c / 64 % 64) ((0x80 + c % 64) ∷ rest) (omega arith)
    ∙ last_byte (64 * top + c / 64 % 64) 0x800 (c % 64) rest (omega arith) (omega arith) (rw e s)
    ∙ ap (λ d. prepend d (decode_from between rest)) e

four_bytes :
    (c : ℕ) (rest : Bytes)
    → 0x1_0000 ≤ c
    → c < 0x11_0000
    → is_scalar c ≡ true
    → decode_from between (
        (0xf0 + c / 262144)
        ∷ (0x80 + c / 4096 % 64)
        ∷ (0x80 + c / 64 % 64)
        ∷ (0x80 + c % 64)
        ∷ rest)
      ≡ prepend c (decode_from between rest)
four_bytes c rest l h s =
    let top = 0xf0 + c / 262144 - 0xf0 in
    let mid = 64 * top + c / 4096 % 64 in
    let e : 64 * (64 * (64 * (0xf0 + c / 262144 - 0xf0) + c / 4096 % 64) + c / 64 % 64) + c % 64
        ≡ c =
      omega arith in
    four (0xf0 + c / 262144) (omega arith) (omega arith)
      ((0x80 + c / 4096 % 64) ∷ (0x80 + c / 64 % 64) ∷ (0x80 + c % 64) ∷ rest)
    ∙ next_byte 1 top 0x1_0000 (c / 4096 % 64) ((0x80 + c / 64 % 64) ∷ (0x80 + c % 64) ∷ rest)
        (omega arith)
    ∙ next_byte 0 mid 0x1_0000 (c / 64 % 64) ((0x80 + c % 64) ∷ rest) (omega arith)
    ∙ last_byte (64 * mid + c / 64 % 64) 0x1_0000 (c % 64) rest (omega arith) (omega arith) (rw e s)
    ∙ ap (λ d. prepend d (decode_from between rest)) e

scalar-bound : (c : ℕ) → is_scalar c ≡ true → c < 0x11_0000
unfolding is_scalar
scalar-bound c s = ground arith

pub decode-encode_char :
    (c : ℕ) (rest : Bytes)
    → is_scalar c ≡ true
    → decode_from between (encode_char c ++ rest) ≡ prepend c (decode_from between rest)
unfolding encode_char
decode-encode_char c rest s = ground (
  arith,
  first_byte c rest,
  two_bytes c rest,
  three_bytes c rest,
  four_bytes c rest,
  scalar-bound c,
)

-- A character that begins and does not end.
open_first : (b : ℕ) → 0xc0 ≤ b → b < 0xf8 → decode_from between (b ∷ []) ≡ none
unfolding decode_from feed feed_first finished
open_first b l h = ground arith

open_second :
    (b g : ℕ) → 0xe0 ≤ b → b < 0xf8 → g < 64 → decode_from between (b ∷ (0x80 + g) ∷ []) ≡ none
unfolding decode_from feed feed_first feed_next finished
open_second b g l h k = ground arith

open_third :
    (b g i : ℕ)
    → 0xf0 ≤ b
    → b < 0xf8
    → g < 64
    → i < 64
    → decode_from between (b ∷ (0x80 + g) ∷ (0x80 + i) ∷ []) ≡ none
unfolding decode_from feed feed_first feed_next finished
open_third b g i l h k m = ground arith

pub decode_from-take :
    (c k : ℕ)
    → is_scalar c ≡ true
    → 0 < k
    → k < length (encode_char c)
    → decode_from between (take k (encode_char c)) ≡ none
unfolding encode_char
decode_from-take c zero s l h = ground arith
decode_from-take c (suc zero) s l h = ground (
  arith,
  open_first (0xc0 + c / 64),
  open_first (0xe0 + c / 4096),
  open_first (0xf0 + c / 262144),
  scalar-bound c,
)
decode_from-take c (suc (suc zero)) s l h = ground (
  arith,
  open_second (0xe0 + c / 4096) (c / 64 % 64),
  open_second (0xf0 + c / 262144) (c / 4096 % 64),
  scalar-bound c,
)
decode_from-take c (suc (suc (suc zero))) s l h =
    ground (arith, open_third (0xf0 + c / 262144) (c / 4096 % 64) (c / 64 % 64), scalar-bound c)
decode_from-take c (suc (suc (suc (suc k)))) s l h = ground arith
