-- ===== src/NetLoad/Internet/Rate.antt =====
-- The rate of a download over its whole life, through errors and retries.
use til.Prelude.{
  ℕ, zero, suc, ◌+◌, ◌-◌, ◌*◌, ◌≤◌, ◌≡◌, refl, ap, ◌∙◌, Bool, true, false, Bool-cases, inl, inr,
  Option, none, some, List, [], ◌∷◌, ◌==◌, arith,
}
use til.Prelude.Int.{pos}
use til.NetLoad.Throttle.{second, Throttle, new_throttle, Sleep, Slept, wait, wait_rate}
use til.NetLoad.Internet.{
  Io, returned, os_error, other_error, Round, Ended, stopped, finished, failed, crashed, running,
  Worker, Attempt, received, download_turn, download_rounds, report_error, finish, after_rounds,
  attempt_download, download_worker,
}
use til.NetLoad.Internet.Download.{wait-total, download_worker-Counted}

-- The clock at the next round, or `last` if there is none.
abbrev first : List Round → ℕ → ℕ
first [] last = last
first (r ∷ rest) last = r.now

abbrev pub first_all : List Attempt → ℕ → ℕ
first_all [] last = last
first_all (a ∷ rest) last = first a.rounds (first_all rest last)

-- The clock never goes back.
abbrev IsRising : List Round → ℕ → Type 0
IsRising [] last = Unit
IsRising (r ∷ rest) last = (r.now ≤ first rest last) × IsRising rest last

abbrev pub AllRising : List Attempt → ℕ → Type 0
AllRising [] last = Unit
AllRising (a ∷ rest) last = IsRising a.rounds (first_all rest last) × AllRising rest last

-- The throttle after a turn, after a loop.
abbrev waited_turn : Bool → Io → ℕ → (Throttle → Throttle) → Throttle → Throttle
waited_turn false (returned (suc n)) now next th = next (wait th (suc n) now).0
waited_turn _ _ now next th = th

abbrev waited : List Round → Throttle → Throttle
waited [] th = th
waited (r ∷ rest) th = waited_turn r.stop r.io r.now (waited rest) th

-- `time.sleep` keeps its promise: the next round comes no earlier than asked.
abbrev TurnSleeps : Bool → Io → ℕ → ℕ → (Throttle → Type 0) → Throttle → Type 0
TurnSleeps false (returned (suc n)) now next rest th =
    Slept (wait th (suc n) now).1 now next × rest (wait th (suc n) now).0
TurnSleeps _ _ now next rest th = Unit

abbrev Sleeps : List Round → ℕ → Throttle → Type 0
Sleeps [] last th = Unit
Sleeps (r ∷ rest) last th = TurnSleeps r.stop r.io r.now (first rest last) (Sleeps rest last) th

abbrev AttemptSleeps : Io → List Round → ℕ → (Throttle → Type 0) → Throttle → Type 0
AttemptSleeps (returned n) rounds last rest th = Sleeps rounds last th × rest (waited rounds th)
AttemptSleeps _ rounds last rest th = rest th

abbrev pub AllSleep : List Attempt → ℕ → Throttle → Type 0
AllSleep [] last th = Unit
AllSleep (a ∷ rest) last th =
    AttemptSleeps a.connect a.rounds (first_all rest last) (AllSleep rest last) th

first-le : (rounds : List Round) (last : ℕ) → IsRising rounds last → first rounds last ≤ last
first-le [] last h = omega arith
first-le (r ∷ rest) last h = omega (arith, first-le rest last h.1)

first_all-le :
    (attempts : List Attempt) (last : ℕ) → AllRising attempts last → first_all attempts last ≤ last
first_all-le [] last h = omega arith
first_all-le (a ∷ rest) last h =
    omega (arith, first-le a.rounds (first_all rest last) h.0, first_all-le rest last h.1)

Slept-le : (s : Option Sleep) (now woke : ℕ) → Slept s now woke → now ≤ woke
Slept-le none now woke h = h
Slept-le (some s) now woke h = h.0

slower : (r s t t' m : ℕ) → t ≤ t' → s ≤ t → m ≤ r * (t - s) → m ≤ r * (t' - s)
slower r s t t' m h k w = grind arith

module _ (b : ℕ) where
  -- At time `t` the bytes told to the throttle are within the rate.
  pub record Within (th : Throttle) (t : ℕ) : Type 0 where
    rate : th.bps ≡ pos (suc b)
    since : th.start ≤ t
    slow : th.total * second ≤ suc b * (t - th.start)

  Within-later : (th : Throttle) (t t' : ℕ) → t ≤ t' → Within th t → Within th t'
  Within-later th t t' h w = record {
    rate = w.rate;
    since = omega arith;
    slow = slower (suc b) th.start t t' (th.total * second) h w.since w.slow;
  }

  Within-wait :
      (th : Throttle) (n now woke : ℕ)
      → Within th now
      → Slept (wait th n now).1 now woke
      → Within (wait th n now).0 woke
  Within-wait th n now woke w s =
      let (t, r, st) = wait-total b th n now w.rate in
      record {
        rate = r ∙ w.rate;
        since = rw st (omega (arith, Slept-le (wait th n now).1 now woke s));
        slow = rw st (wait_rate b th n now woke w.rate w.since s);
      }

  turn-waited :
      (s : Bool) (io : Io) (now : ℕ) (next : Worker → Ended × Worker) (after : Throttle → Throttle)
      → ((w : Worker) → (next w).1.th ≡ after w.th)
      → (w : Worker) → (download_turn s io now w next).1.th ≡ waited_turn s io now after w.th
  unfolding download_turn received
  turn-waited true io now next after k w = refl
  turn-waited false (returned zero) now next after k w = refl
  turn-waited false (returned (suc n)) now next after k w =
      let some_left : (suc n == 0) ≡ false = ground arith in
      rw some_left (k (received w (suc n) now))
  turn-waited false os_error now next after k w = refl
  turn-waited false other_error now next after k w = refl

  rounds-waited :
      (rounds : List Round) (w : Worker) → (download_rounds rounds w).1.th ≡ waited rounds w.th
  unfolding download_rounds download_turn received
  rounds-waited [] w = refl
  rounds-waited (r ∷ rest) w =
      turn-waited r.stop r.io r.now (download_rounds rest) (waited rest) (rounds-waited rest) w

  turn-Within :
      (x : Bool) (io : Io) (now next last : ℕ) (rest : Throttle → Type 0)
      (after : Throttle → Throttle) (th : Throttle)
      → ((th' : Throttle) → rest th' → Within th' next → Within (after th') last)
      → now ≤ last
      → TurnSleeps x io now next rest th
      → Within th now
      → Within (waited_turn x io now after th) last
  turn-Within true io now next last rest after th k h s w = Within-later th now last h w
  turn-Within false (returned zero) now next last rest after th k h s w =
      Within-later th now last h w
  turn-Within false (returned (suc n)) now next last rest after th k h s w =
      k (wait th (suc n) now).0 s.1 (Within-wait th (suc n) now next w s.0)
  turn-Within false os_error now next last rest after th k h s w = Within-later th now last h w
  turn-Within false other_error now next last rest after th k h s w = Within-later th now last h w

  waited-Within :
      (rounds : List Round) (last : ℕ) (th : Throttle)
      → IsRising rounds last
      → Sleeps rounds last th
      → Within th (first rounds last)
      → Within (waited rounds th) last
  waited-Within [] last th h s w = w
  waited-Within (r ∷ rest) last th h s w =
      turn-Within r.stop r.io r.now (first rest last) last (Sleeps rest last) (waited rest) th
        (λ th' s' w'. waited-Within rest last th' h.1 s' w') (first-le (r ∷ rest) last h) s w

  -- `next` runs from a worker with the same throttle.
  abbrev Paces : (Worker → Ended × Worker) → Throttle → ℕ → Type 0
  Paces next th last = (w : Worker) → w.th ≡ th → Within (next w).1.th last

  after-Within :
      (ended : Ended) (closing : Io) (next : Worker → Ended × Worker) (last : ℕ) (w : Worker)
      → Paces next w.th last
      → Within w.th last
      → Within (after_rounds ended closing w next).1.th last
  unfolding after_rounds finish report_error
  after-Within stopped (returned n) next last w k h = k _ refl
  after-Within stopped os_error next last w k h = k _ refl
  after-Within stopped other_error next last w k h = h
  after-Within finished (returned n) next last w k h = k _ refl
  after-Within finished os_error next last w k h = k _ refl
  after-Within finished other_error next last w k h = h
  after-Within failed closing next last w k h = k _ refl
  after-Within crashed closing next last w k h = h
  after-Within running closing next last w k h = h

  attempt-Within :
      (connect : Io) (rounds : List Round) (closing : Io) (next : Worker → Ended × Worker)
      (rest : Throttle → Type 0) (mid last : ℕ) (w : Worker)
      → ((th : Throttle) → rest th → Within th mid → Paces next th last)
      → mid ≤ last
      → IsRising rounds mid
      → AttemptSleeps connect rounds mid rest w.th
      → Within w.th (first rounds mid)
      → Within (attempt_download connect rounds closing w next).1.th last
  unfolding attempt_download report_error
  attempt-Within (returned n) rounds closing next rest mid last w k m h s v =
      let w₁ : Worker = record w { opened = w.opened + 1 } in
      let e : (download_rounds rounds w₁).1.th ≡ waited rounds w.th = rounds-waited rounds w₁ in
      let v' = waited-Within rounds mid w.th h s.0 v in
      after-Within (download_rounds rounds w₁).0 closing next last (download_rounds rounds w₁).1
        (λ x q. k (waited rounds w.th) s.1 v' x (q ∙ e)) (rw e (Within-later _ mid last m v'))
  attempt-Within os_error rounds closing next rest mid last w k m h s v =
      k w.th s (Within-later w.th _ mid (first-le rounds mid h) v) _ refl
  attempt-Within other_error rounds closing next rest mid last w k m h s v =
      Within-later w.th mid last m (Within-later w.th _ mid (first-le rounds mid h) v)

  worker-Within :
      (attempts : List Attempt) (last : ℕ) (th : Throttle)
      → AllRising attempts last
      → AllSleep attempts last th
      → Within th (first_all attempts last)
      → Paces (download_worker attempts) th last
  unfolding download_worker
  worker-Within [] last th h s v w q = rw q v
  worker-Within (a ∷ rest) last th h s v w q = elim (Bool-cases a.stop) [
    | inl stop ↦ rw (stop, q) (Within-later th _ last (first_all-le (a ∷ rest) last h) v)
    | inr on ↦ rw on (
        attempt-Within a.connect a.rounds a.closing (download_worker rest) (AllSleep rest last)
          (first_all rest last) last w (λ th' s' v'. worker-Within rest last th' h.1 s' v')
          (first_all-le rest last h.1) h.0 (rw q s) (rw q v))
  ]

-- A download starts with a positive rate, the clock never goes back, and `time.sleep` never returns
-- early. Then through any errors and retries, whenever one looks (after a `wait`), the bytes that it
-- added to what the statistics count as received are at most `bps` times the time since its start.
pub download_worker-rate :
    (b : ℕ) (attempts : List Attempt) (w : Worker) (start last : ℕ)
    → w.th ≡ new_throttle (pos (suc b)) start
    → start ≤ first_all attempts last
    → AllRising attempts last
    → AllSleep attempts last w.th
    → ((download_worker attempts w).1.stats.recv - w.stats.recv) * second ≤ suc b * (last - start)
unfolding new_throttle
download_worker-rate b attempts w start last e since rising sleeps =
    let rate : w.th.bps ≡ pos (suc b) = ap (λ (t : Throttle). t.bps) e in
    let began : w.th.start ≡ start = ap (λ (t : Throttle). t.start) e in
    let empty : w.th.total ≡ 0 = ap (λ (t : Throttle). t.total) e in
    let fresh : Within b w.th (first_all attempts last) = record {
      rate = rate;
      since = omega arith;
      slow = omega arith;
    } in
    let v = worker-Within b attempts last w.th rising sleeps fresh w refl in
    let c = download_worker-Counted b attempts w rate in
    let w' = (download_worker attempts w).1 in
    let gain : w'.stats.recv - w.stats.recv ≡ w'.th.total = omega (arith, c.told, c.recv_grows) in
    let same : w'.th.start ≡ start = c.same_start ∙ began in rw gain (rw same at v.slow)
