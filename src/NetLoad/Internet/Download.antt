-- ===== src/NetLoad/Internet/Download.antt =====
-- The counters that a download keeps.
use til.Prelude.{
  ℕ, suc, ◌+◌, ◌≤◌, Bool, true, false, ◌≡◌, ◌∙◌, refl, Bool-cases, inl, inr, List, [], ◌∷◌, ◌==◌,
  arith,
}
use til.Prelude.Int.{pos}
use til.NetLoad.Stats.{add}
use til.NetLoad.Throttle.{Throttle, wait, wait_at}
use til.NetLoad.Internet.{
  Io, returned, os_error, other_error, Round, Ended, stopped, finished, failed, crashed, running,
  Worker, Attempt, received, download_turn, download_rounds, report_error, finish, after_rounds,
  attempt_download, download_worker,
}

-- Going from `w` to `w'`, the bytes that the statistics gain are those that the throttle was told
-- of, and nothing is counted as sent.
pub record Counted (w w' : Worker) : Type 0 where
  pub same_bps : w'.th.bps ≡ w.th.bps
  pub same_start : w'.th.start ≡ w.th.start
  pub told : w'.stats.recv + w.th.total ≡ w'.th.total + w.stats.recv
  pub sent_kept : w'.stats.sent ≡ w.stats.sent
  pub recv_grows : w.stats.recv ≤ w'.stats.recv

pub Counted-refl : (w : Worker) → Counted w w
Counted-refl w = record {
  same_bps = refl;
  same_start = refl;
  told = omega arith;
  sent_kept = refl;
  recv_grows = omega arith;
}

pub Counted-trans : (u v w : Worker) → Counted u v → Counted v w → Counted u w
Counted-trans u v w a b = record {
  same_bps = b.same_bps ∙ a.same_bps;
  same_start = b.same_start ∙ a.same_start;
  told = omega arith;
  sent_kept = omega arith;
  recv_grows = omega arith;
}

pub tally : (w : Worker) (o c r : ℕ) → Counted w (record w { opened = o; closed = c; reported = r })
tally w o c r = record {
  same_bps = refl;
  same_start = refl;
  told = omega arith;
  sent_kept = refl;
  recv_grows = omega arith;
}

-- With a positive rate `wait` adds what it is told to its total.
pub wait-total :
    (b : ℕ) (th : Throttle) (n now : ℕ)
    → th.bps ≡ pos (suc b)
    → ((wait th n now).0.total ≡ th.total + n)
      × ((wait th n now).0.bps ≡ th.bps)
      × ((wait th n now).0.start ≡ th.start)
unfolding wait wait_at
wait-total b th n now e = rw e (refl, refl, refl)

module _ (b : ℕ) where
  abbrev Keeps : (Worker → Ended × Worker) → Type 0
  Keeps run = (w : Worker) → w.th.bps ≡ pos (suc b) → Counted w (run w).1

  received-Counted :
      (w : Worker) (n now : ℕ) → w.th.bps ≡ pos (suc b) → Counted w (received w n now)
  unfolding received add
  received-Counted w n now e =
      let t = wait-total b w.th n now e in
      record {
        same_bps = t.1;
        same_start = t.2;
        told = omega arith;
        sent_kept = omega arith;
        recv_grows = omega arith;
      }

  turn-Counted :
      (s : Bool) (io : Io) (now : ℕ) (next : Worker → Ended × Worker)
      → Keeps next
      → Keeps (λ w. download_turn s io now w next)
  unfolding download_turn
  turn-Counted true io now next k w e = Counted-refl w
  turn-Counted false (returned n) now next k w e = elim (Bool-cases (n == 0)) [
    | inl none_left ↦ rw none_left (Counted-refl w)
    | inr some_left ↦
        let c = received-Counted w n now e in
        rw some_left (Counted-trans w (received w n now) _ c (k _ (c.same_bps ∙ e)))
  ]
  turn-Counted false os_error now next k w e = Counted-refl w
  turn-Counted false other_error now next k w e = Counted-refl w

  rounds-Counted : (rounds : List Round) → Keeps (download_rounds rounds)
  unfolding download_rounds
  rounds-Counted [] w e = Counted-refl w
  rounds-Counted (r ∷ rest) w e =
      turn-Counted r.stop r.io r.now (download_rounds rest) (rounds-Counted rest) w e

  -- `next` runs from a worker that differs in the tallies of connections only.
  pub after-Counted :
      (ended : Ended) (closing : Io) (next : Worker → Ended × Worker)
      → Keeps next
      → Keeps (λ w. after_rounds ended closing w next)
  unfolding after_rounds finish report_error
  after-Counted stopped (returned n) next k w e =
      Counted-trans w (record w { closed = w.closed + 1 }) _ (tally w _ _ _)
        (k (record w { closed = w.closed + 1 }) e)
  after-Counted stopped os_error next k w e =
      Counted-trans w (record w { reported = w.reported + 1 }) _ (tally w _ _ _)
        (k (record w { reported = w.reported + 1 }) e)
  after-Counted stopped other_error next k w e = Counted-refl w
  after-Counted finished (returned n) next k w e =
      Counted-trans w (record w { closed = w.closed + 1 }) _ (tally w _ _ _)
        (k (record w { closed = w.closed + 1 }) e)
  after-Counted finished os_error next k w e =
      Counted-trans w (record w { reported = w.reported + 1 }) _ (tally w _ _ _)
        (k (record w { reported = w.reported + 1 }) e)
  after-Counted finished other_error next k w e = Counted-refl w
  after-Counted failed closing next k w e =
      Counted-trans w (record w { reported = w.reported + 1 }) _ (tally w _ _ _)
        (k (record w { reported = w.reported + 1 }) e)
  after-Counted crashed closing next k w e = Counted-refl w
  after-Counted running closing next k w e = Counted-refl w

  attempt-Counted :
      (connect : Io) (rounds : List Round) (closing : Io) (next : Worker → Ended × Worker)
      → Keeps next
      → Keeps (λ w. attempt_download connect rounds closing w next)
  unfolding attempt_download report_error
  attempt-Counted (returned n) rounds closing next k w e =
      let w₁ : Worker = record w { opened = w.opened + 1 } in
      let c = rounds-Counted rounds w₁ e in
      Counted-trans w w₁ _ (tally w _ _ _) (
        Counted-trans w₁ _ _ c
          (after-Counted (download_rounds rounds w₁).0 closing next k _ (c.same_bps ∙ e)))
  attempt-Counted os_error rounds closing next k w e =
      Counted-trans w _ _ (tally w _ _ _) (k (record w { reported = w.reported + 1 }) e)
  attempt-Counted other_error rounds closing next k w e = Counted-refl w

  worker-Counted : (attempts : List Attempt) → Keeps (download_worker attempts)
  unfolding download_worker
  worker-Counted [] w e = Counted-refl w
  worker-Counted (a ∷ rest) w e = elim (Bool-cases a.stop) [
    | inl stop ↦ rw stop (Counted-refl w)
    | inr on ↦ rw on (
        attempt-Counted a.connect a.rounds a.closing (download_worker rest) (worker-Counted rest) w
          e)
  ]

-- However a download with a positive rate ends, through any errors and retries: what the statistics
-- gained as received is what the throttle was told of, and nothing is counted as sent.
pub download_worker-Counted :
    (b : ℕ) (attempts : List Attempt) (w : Worker)
    → w.th.bps ≡ pos (suc b)
    → Counted w (download_worker attempts w).1
download_worker-Counted b attempts w e = worker-Counted b attempts w e
