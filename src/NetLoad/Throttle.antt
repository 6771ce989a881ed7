-- ===== src/NetLoad/Throttle.antt =====
-- The class `Throttle` of linux/nethogs/main.py. Times are readings of `time.monotonic()` in
-- nanoseconds, and the quotient `total / bps` is kept as an exact fraction in place of a float.
use til.Prelude.{
  ℕ, zero, suc, ◌+◌, ◌-◌, ◌*◌, ◌≤◌, ◌≡◌, Option, none, some, ltb, if◌then◌else◌, arith,
}
use til.Prelude.Int.{ℤ, pos, negsuc}

-- Nanoseconds in a second.
abbrev pub second : ℕ
second = 1_000_000_000

pub record Throttle : Type 0 where
  pub bps : ℤ
  pub start : ℕ
  pub total : ℕ

unfoldable pub new_throttle : ℤ → ℕ → Throttle
new_throttle bps now = record { bps = bps; start = now; total = 0 }

-- A call of `time.sleep` for num / den nanoseconds.
pub record Sleep : Type 0 where
  pub num : ℕ
  pub den : ℕ

-- `bps == 0` returns at once. For a negative `bps` the quotient is not positive, so `ahead` is not.
unfoldable pub wait_at : ℤ → Throttle → ℕ → ℕ → Throttle × Option Sleep
wait_at (pos zero) self n now = (self, none)
wait_at (pos (suc b)) self n now =
    let total = self.total + n in
    let elapsed = now - self.start in
    (
      record self { total = total },
      if ltb (suc b * elapsed) (total * second)
          then some (record { num = total * second - suc b * elapsed; den = suc b })
          else none,
    )
wait_at (negsuc b) self n now = (record self { total = self.total + n }, none)

unfoldable pub wait : Throttle → ℕ → ℕ → Throttle × Option Sleep
unfolding wait_at
wait self n now = wait_at self.bps self n now

-- What `time.sleep` promises: it returns no earlier than asked. `woke` is the clock afterwards.
abbrev pub Slept : Option Sleep → ℕ → ℕ → Type 0
Slept none now woke = now ≤ woke
Slept (some s) now woke = (now ≤ woke) × (s.num ≤ s.den * (woke - now))

split_time : (b a c d : ℕ) → a ≤ c → c ≤ d → b * (d - c) + b * (c - a) ≡ b * (d - a)
split_time b a c d h k = grind arith

rate_at :
    (b : ℕ) (self : Throttle) (n now woke : ℕ)
    → self.start ≤ now
    → Slept (wait_at (pos (suc b)) self n now).1 now woke
    → (wait_at (pos (suc b)) self n now).0.total * second ≤ suc b * (woke - self.start)
unfolding wait_at
rate_at b self n now woke h s = ground (arith, split_time (suc b) self.start now woke)

-- For a positive `bps` and a clock that has not fallen behind the start: if `time.sleep` returns no
-- earlier than asked, then at the return of `wait` the bytes counted since the start are at most
-- `bps` times the time passed.
pub wait_rate :
    (b : ℕ) (self : Throttle) (n now woke : ℕ)
    → self.bps ≡ pos (suc b)
    → self.start ≤ now
    → Slept (wait self n now).1 now woke
    → (wait self n now).0.total * second ≤ suc b * (woke - self.start)
unfolding wait
wait_rate b self n now woke e h s = rw e (rate_at b self n now woke h (rw e at s))
