-- ===== src/NetLoad/Report/Ending.antt =====
-- What `report` prints, and when it ends.
use til.Prelude.{ℕ, suc, ◌+◌, ◌*◌, ◌≤◌, ◌≡◌, true, List, [], ◌∷◌, ◌++◌, arith}
use til.Prelude.Int.{ℤ, pos}
use til.NetLoad.Throttle.{second}
use til.NetLoad.Report.{Tick, Line, is_over, report_loop, report}

-- The snapshots never fall: see `Stats`.
abbrev pub IsRising : ℕ → ℕ → List Tick → Type 0
IsRising s r [] = Unit
IsRising s r (t ∷ rest) = (s ≤ t.s) × (r ≤ t.r) × IsRising t.s t.r rest

abbrev pub sent_sum : List Line → ℕ
sent_sum [] = 0
sent_sum (l ∷ rest) = l.sent_now + sent_sum rest

abbrev pub recv_sum : List Line → ℕ
recv_sum [] = 0
recv_sum (l ∷ rest) = l.recv_now + recv_sum rest

-- The totals on the last line.
abbrev pub sent_last : ℕ → List Line → ℕ
sent_last s [] = s
sent_last s (l ∷ rest) = sent_last l.sent_all rest

abbrev pub recv_last : ℕ → List Line → ℕ
recv_last r [] = r
recv_last r (l ∷ rest) = recv_last l.recv_all rest

loop-sums :
    (duration : ℤ) (ticks : List Tick) (s r : ℕ)
    → IsRising s r ticks
    → (sent_sum (report_loop duration ticks s r).0 + s
        ≡ sent_last s (report_loop duration ticks s r).0)
      × (recv_sum (report_loop duration ticks s r).0 + r
          ≡ recv_last r (report_loop duration ticks s r).0)
unfolding report_loop
loop-sums duration [] s r h = omega arith
loop-sums duration (t ∷ rest) s r h = ground (arith, loop-sums duration rest t.s t.r)

-- If the snapshots never fall, the rates on the lines add up to the totals on the last of them.
report-sums :
    (duration : ℤ) (ticks : List Tick)
    → IsRising 0 0 ticks
    → (sent_sum (report duration ticks).0 ≡ sent_last 0 (report duration ticks).0)
      × (recv_sum (report duration ticks).0 ≡ recv_last 0 (report duration ticks).0)
unfolding report
report-sums duration ticks h =
    let (s, r) = loop-sums duration ticks 0 0 h in (omega arith, omega arith)

loop-ends :
    (d : ℕ) (before : List Tick) (t : Tick) (after : List Tick) (s r : ℕ)
    → suc d * second ≤ t.elapsed
    → (report_loop (pos (suc d)) (before ++ t ∷ after) s r).1 ≡ true
unfolding report_loop is_over
loop-ends d [] t after s r h = ground arith
loop-ends d (b ∷ before) t after s r h = ground (arith, loop-ends d before t after b.s b.r h)

-- With a positive duration the report ends, and sets the stop event, by the turn at which the time
-- is over, whatever the turns before it and after it bring.
pub report-ends :
    (d : ℕ) (before : List Tick) (t : Tick) (after : List Tick)
    → suc d * second ≤ t.elapsed
    → (report (pos (suc d)) (before ++ t ∷ after)).1 ≡ true
unfolding report
report-ends d before t after h = loop-ends d before t after 0 0 h
