-- ===== src/NetLoad/Report/Accounted.antt =====
-- `report` beside the workers: its snapshots are calls on counters that other threads add to.
use til.Prelude.{
  ℕ, ◌+◌, ◌≤◌, ◌≡◌, subst, sym, some, List, [], ◌∷◌, if◌then◌else◌, arith, Bool-cases, inl, inr,
}
use til.Prelude.Int.{ℤ}
use til.NetLoad.Stats.{Call, System, run, start}
use til.NetLoad.Stats.Locked.{start-IsLocked}
use til.NetLoad.Stats.Reads.{reads, reads-Climbs, IsClimbing, last_pair, Climbs}
use til.NetLoad.Report.{Tick, is_over, report_loop, report}
use til.NetLoad.Report.Ending.{sent_sum, recv_sum, sent_last, recv_last}

-- The snapshots that the loop takes: none in a turn that the stop event or an interrupt ends, and
-- none after the time is over.
unfoldable pub taken : ℤ → List Tick → List (ℕ × ℕ)
unfolding is_over
taken duration [] = []
taken duration (t ∷ rest) =
    let more = taken duration rest in
    if t.stop
    then []
    else if t.interrupted
    then []
    else if is_over duration t.elapsed
    then (t.s, t.r) ∷ []
    else (t.s, t.r) ∷ more

-- What is printed from `s` and `r` on adds up to the last snapshot.
abbrev AddsUp : ℤ → List Tick → ℕ → ℕ → Type 0
AddsUp duration ticks s r =
    (sent_sum (report_loop duration ticks s r).0 + s ≡ (last_pair s r (taken duration ticks)).0)
    × (recv_sum (report_loop duration ticks s r).0 + r ≡ (last_pair s r (taken duration ticks)).1)
    × (sent_last s (report_loop duration ticks s r).0 ≡ (last_pair s r (taken duration ticks)).0)
    × (recv_last r (report_loop duration ticks s r).0 ≡ (last_pair s r (taken duration ticks)).1)

loop-AddsUp :
    (duration : ℤ) (ticks : List Tick) (s r : ℕ)
    → IsClimbing s r (taken duration ticks)
    → AddsUp duration ticks s r
unfolding report_loop taken
loop-AddsUp duration [] s r h = omega arith
loop-AddsUp duration (t ∷ rest) s r h = elim (Bool-cases t.stop) [
  | inl stopped ↦ rw stopped (omega arith)
  | inr on ↦ elim (Bool-cases t.interrupted) [
    | inl cut ↦ rw (on, cut) (omega arith)
    | inr whole ↦ elim (Bool-cases (is_over duration t.elapsed)) [
      | inl over ↦ let (ls, lr, u) = rw (on, whole, over) at h in rw (on, whole, over) (omega arith)
      | inr more ↦
          let (ls, lr, later) = rw (on, whole, more) at h in
          let (s_sum, r_sum, s_last, r_last) = loop-AddsUp duration rest t.s t.r later in
          rw (on, whole, more) (omega arith)
    ]
  ]
]

-- While other threads add to the counters, in any interleaving, one thread reports: each snapshot
-- that the loop takes is what the thread's next call returned. Then the rates on the printed lines
-- add up to the totals on the last of them, and those are at most the sums of the `add` calls that
-- have returned by then.
pub report-accounted :
    (duration : ℤ) (ticks : List Tick) (schedule : List (ℕ × Call)) (i : ℕ) {sys : System}
    → run schedule start ≡ some sys
    → taken duration ticks ≡ reads i schedule start
    → (sent_sum (report duration ticks).0 ≡ sent_last 0 (report duration ticks).0)
      × (recv_sum (report duration ticks).0 ≡ recv_last 0 (report duration ticks).0)
      × (sent_last 0 (report duration ticks).0 ≤ sys.finished.sent)
      × (recv_last 0 (report duration ticks).0 ≤ sys.finished.recv)
unfolding report start
report-accounted duration ticks schedule i {sys} e same =
    let climbs : Climbs 0 0 (taken duration ticks) sys.finished =
      subst (λ l. Climbs 0 0 l sys.finished) (sym same)
        (reads-Climbs i schedule start 0 0 start-IsLocked e (omega arith) (omega arith)) in
    let (rising, s_bound, r_bound) = climbs in
    let (s_sum, r_sum, s_last, r_last) = loop-AddsUp duration ticks 0 0 rising in
    (omega arith, omega arith, omega arith, omega arith)
