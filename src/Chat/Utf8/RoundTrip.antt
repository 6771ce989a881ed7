-- ===== src/Chat/Utf8/RoundTrip.antt =====
-- Encoding and decoding of texts.
use mathlib.Core.Option.{some-injective}
use til.Prelude.{
  ◌≡◌, refl, sym, ap, ◌∙◌, Bool, true, ◌&&◌, Option, none, some, [], ◌∷◌, ◌++◌, arith, Option-cases,
  inl, inr, append_assoc, append-nil,
}
use til.Chat.Utf8.{
  Text, Bytes, is_scalar, encode_char, encode, between, finished, prepend, decode_from, decode,
}
use til.Chat.Utf8.Characters.{decode-encode_char}

-- The bytes of a text that can be encoded.
unfoldable pub wire : Text → Bytes
wire [] = []
wire (c ∷ rest) = encode_char c ++ wire rest

unfoldable pub are_scalars : Text → Bool
are_scalars [] = true
are_scalars (c ∷ rest) = is_scalar c && are_scalars rest

unfoldable pub prepend_all : Text → Option Text → Option Text
prepend_all [] o = o
prepend_all (c ∷ rest) o = prepend c (prepend_all rest o)

prepend_all-some : (t u : Text) → prepend_all t (some u) ≡ some (t ++ u)
unfolding prepend_all
prepend_all-some [] u = refl
prepend_all-some (c ∷ t) u = rw (prepend_all-some t u) refl

pub prepend_all-none : (t : Text) → prepend_all t none ≡ none
unfolding prepend_all
prepend_all-none [] = refl
prepend_all-none (c ∷ t) = rw (prepend_all-none t) refl

pub encode-wire : (t : Text) → are_scalars t ≡ true → encode t ≡ some (wire t)
unfolding encode wire are_scalars
encode-wire [] e = refl
encode-wire (c ∷ t) e = ground (arith, encode-wire t)

pub decode_from-wire :
    (t : Text) (rest : Bytes)
    → are_scalars t ≡ true
    → decode_from between (wire t ++ rest) ≡ prepend_all t (decode_from between rest)
unfolding wire are_scalars prepend_all
decode_from-wire [] rest e = refl
decode_from-wire (c ∷ t) rest e =
    let both : (is_scalar c ≡ true) × (are_scalars t ≡ true) = ground arith in
    rw (append_assoc (encode_char c) (wire t) rest) (
      decode-encode_char c (wire t ++ rest) both.0
      ∙ ap (prepend c) (decode_from-wire t rest both.1))

pub decode-wire : (t : Text) → are_scalars t ≡ true → decode (wire t) ≡ some t
unfolding decode decode_from finished
decode-wire t e =
    rw (← append-nil (wire t))
      (decode_from-wire t [] e ∙ prepend_all-some t [] ∙ ap some (append-nil t))

pub are_scalars-append :
    (t u : Text) → are_scalars t ≡ true → are_scalars u ≡ true → are_scalars (t ++ u) ≡ true
unfolding are_scalars
are_scalars-append [] u e f = f
are_scalars-append (c ∷ t) u e f = ground (arith, are_scalars-append t u)

pub decode-wires :
    (t u : Text)
    → are_scalars t ≡ true
    → are_scalars u ≡ true
    → decode (wire t ++ wire u) ≡ some (t ++ u)
unfolding decode
decode-wires t u e f =
    decode_from-wire t (wire u) e ∙ ap (prepend_all t) (decode-wire u f) ∙ prepend_all-some t u

encode-scalars : (t : Text) (bytes : Bytes) → encode t ≡ some bytes → are_scalars t ≡ true
unfolding encode are_scalars
encode-scalars [] bytes e = refl
encode-scalars (c ∷ t) bytes e = elim (Option-cases (encode t)) [
  | inl q ↦ ground arith
  | inr (tail, q) ↦ ground (arith, encode-scalars t tail q)
]

-- What `encode` makes of a text, `decode` turns back into the text.
decode-encode : (t : Text) (bytes : Bytes) → encode t ≡ some bytes → decode bytes ≡ some t
decode-encode t bytes e =
    let s = encode-scalars t bytes e in
    let q : wire t ≡ bytes = some-injective _ _ (sym (encode-wire t s) ∙ e) in
    rw (← q) (decode-wire t s)
