-- ===== src/NetLoad/Fmt.antt =====
-- `fmt` of linux/nethogs/main.py. The first division makes a float of the count: the nearest one, a
-- tie to the even one. The other divisions by 1024 are exact, so the value is kept as the fraction of
-- that float and a scale. `:.1f` rounds the exact value to tenths, a tie to the even one.
use til.Prelude.{
  ℕ, ◌+◌, ◌*◌, ◌/◌, ◌%◌, ◌≤◌, ◌<◌, ◌≡◌, ◌⊎◌, inl, inr, List, [], ◌∷◌, ltb, if◌then◌else◌, arith,
  ◌^◌, zero, suc, true, Option, none, some, refl, ap, ◌∙◌, sym,
}
use mathlib.Core.Option
use native.Mathlib.Decide.{ℕ_discrete}
use native.Mathlib.Nat.{div-add-mod', mod-lt}

pub data SizeUnit : Type 0 where
  b kb mb gb tb : SizeUnit

abbrev pub scale_of : SizeUnit → ℕ
scale_of b = 1
scale_of kb = 1024
scale_of mb = 1024 * 1024
scale_of gb = 1024 * 1024 * 1024
scale_of tb = 1024 * 1024 * 1024 * 1024

-- The loop over ("B", "KB", "MB", "GB"). A turn divides by 1024.
unfoldable pub pick : List SizeUnit → ℕ → ℕ → SizeUnit × ℕ
pick [] n scale = (tb, scale)
pick (unit ∷ rest) n scale =
    if ltb n (1024 * scale) then (unit, scale) else pick rest n (scale * 1024)

-- The nearest number to m / s, and of two the even one.
unfoldable pub nearest : ℕ → ℕ → ℕ
nearest m s =
    let q = m / s in
    let r = m % s in if ltb (2 * r) s then q else if ltb s (2 * r) then q + 1 else q + q % 2

-- The float next to n, where the floats are `unit` apart or more. It has 53 binary digits. From
-- 2 ^ 1034 on the quotient by 1024 is no float, and Python raises OverflowError; until there, `unit`
-- doubles 981 times.
unfoldable pub float_of : ℕ → ℕ → ℕ → Option ℕ
unfolding nearest
float_of zero n unit = none
float_of (suc doublings) n unit =
    let rest = float_of doublings n (2 * unit) in
    let x = nearest n unit * unit in
    if ltb n (2 ^ 53 * unit) then (if ltb x (2 ^ 1034) then some x else none) else rest

unfoldable pub round_tenths : ℕ → ℕ → ℕ
unfolding nearest
round_tenths x scale = nearest (10 * x) scale

unfoldable pub show_float : ℕ → ℕ × SizeUnit
unfolding pick round_tenths
show_float x = let (unit, scale) = pick (b ∷ kb ∷ mb ∷ gb ∷ []) x 1 in (round_tenths x scale, unit)

-- The number that is printed, in tenths, and its unit; `none` is OverflowError. The padding to seven
-- places is left out.
unfoldable pub fmt : ℕ → Option (ℕ × SizeUnit)
unfolding float_of show_float
fmt n = Option.map show_float (float_of 982 n 1)

pick_lem :
    (n : ℕ)
    → let (unit, scale) = pick (b ∷ kb ∷ mb ∷ gb ∷ []) n 1 in
      (scale ≡ scale_of unit) × ((unit ≡ b) ⊎ (scale ≤ n)) × ((unit ≡ tb) ⊎ (n < 1024 * scale))
unfolding pick
pick_lem n = ground arith

abbrev Close : ℕ → ℕ → ℕ → Type 0
Close v s m = (2 * (v * s) ≤ 2 * m + s) × (2 * m ≤ 2 * (v * s) + s)

under_half : (q r s m : ℕ) → m ≡ q * s + r → 2 * r ≤ s → Close q s m
under_half q r s m e h = (omega arith, omega arith)

over_half : (q r s m : ℕ) → m ≡ q * s + r → r < s → s ≤ 2 * r → Close (q + 1) s m
over_half q r s m e k h = (omega arith, omega arith)

parity : (q : ℕ) → (q + q % 2 ≡ q) ⊎ (q + q % 2 ≡ q + 1)
parity q = elim (ℕ_discrete (q % 2) 0) [ yes even ↦ inl (omega arith) | no odd ↦ inr (omega arith) ]

tie_even : (q r s m : ℕ) → m ≡ q * s + r → r < s → 2 * r ≡ s → Close (q + q % 2) s m
tie_even q r s m e k h = elim (parity q) [
  | inl even ↦ rw even (under_half q r s m e (omega arith))
  | inr odd ↦ rw odd (over_half q r s m e k (omega arith))
]

round_tenths-Close : (n s : ℕ) → 0 < s → Close (round_tenths n s) s (10 * n)
unfolding round_tenths nearest
round_tenths-Close n s h =
    let q = 10 * n / s in
    let r = 10 * n % s in
    let e : 10 * n ≡ q * s + r = sym (div-add-mod' (10 * n) s) in
    let k : r < s = mod-lt (10 * n) h in
    ground (
      arith,
      under_half q r s (10 * n) e,
      over_half q r s (10 * n) e k,
      tie_even q r s (10 * n) e k,
    )

scale_pos : (u : SizeUnit) → 0 < scale_of u
scale_pos b = omega arith
scale_pos kb = omega arith
scale_pos mb = omega arith
scale_pos gb = omega arith
scale_pos tb = omega arith

nearest_one : (n : ℕ) → nearest n 1 * 1 ≡ n
unfolding nearest
nearest_one n = grind arith

lt-ltb : (n m : ℕ) → n < m → ltb n m ≡ true
lt-ltb n m h = ground arith

float_of-exact : (doublings n : ℕ) → n < 2 ^ 53 → float_of (suc doublings) n 1 ≡ some n
unfolding float_of
float_of-exact doublings n h =
    let small : ltb n (2 ^ 53 * 1) ≡ true = lt-ltb n (2 ^ 53 * 1) (omega arith) in
    let fits : ltb n (2 ^ 1034) ≡ true = lt-ltb n (2 ^ 1034) (omega arith) in
    rw small (rw (nearest_one n, fits) refl)

-- A count below 2 ^ 53 is shown, in the largest unit of which it holds one, and the number shown
-- differs from the true quotient by half a tenth at most.
pub fmt_lem :
    (n : ℕ)
    → n < 2 ^ 53
    → (tenths : ℕ) × (unit : SizeUnit) × (fmt n ≡ some (tenths, unit))
      × ((unit ≡ b) ⊎ (scale_of unit ≤ n))
      × ((unit ≡ tb) ⊎ (n < 1024 * scale_of unit))
      × (2 * (tenths * scale_of unit) ≤ 2 * (10 * n) + scale_of unit)
      × (2 * (10 * n) ≤ 2 * (tenths * scale_of unit) + scale_of unit)
unfolding fmt show_float
fmt_lem n h =
    let (unit, scale) = pick (b ∷ kb ∷ mb ∷ gb ∷ []) n 1 in
    let (same, low, high) = pick_lem n in
    let (le, ge) = round_tenths-Close n (scale_of unit) (scale_pos unit) in
    (
      round_tenths n (scale_of unit),
      unit,
      ap (Option.map show_float) (float_of-exact 981 n h) ∙ rw same refl,
      rw same at low,
      rw same at high,
      le,
      ge,
    )
