-- ===== src/NetLoad/Stats/Locked.antt =====
-- What the lock of `Stats` guards, in any interleaving of the threads.
use mathlib.Core.Option.{some-injective, none-ne-some}
use til.Prelude.{
  ℕ, ◌+◌, ◌≡◌, ◌≢◌, refl, sym, subst, ap, ◌∙◌, Option, none, some, List, [], ◌∷◌, arith,
  Option-cases, inl, inr,
}
use native.Mathlib.Decide.{ℕ_discrete}
use til.NetLoad.Stats.{
  Stats, add, Call, adding, reading, Phase, idle, add_entered, sent_loaded, sent_stored,
  recv_loaded, recv_stored, read_entered, read_sent, read_both, System, at, advance, run, start,
}

-- What a phase says of the counters, given the sum `done` of the calls that have returned.
abbrev pub Matches : Phase → Stats → Stats → Type 0
Matches idle stats done = (stats.sent ≡ done.sent) × (stats.recv ≡ done.recv)
Matches (add_entered s r) stats done = (stats.sent ≡ done.sent) × (stats.recv ≡ done.recv)
Matches (sent_loaded s r v) stats done =
    (stats.sent ≡ done.sent) × (stats.recv ≡ done.recv) × (v ≡ done.sent)
Matches (sent_stored s r) stats done = (stats.sent ≡ done.sent + s) × (stats.recv ≡ done.recv)
Matches (recv_loaded s r v) stats done =
    (stats.sent ≡ done.sent + s) × (stats.recv ≡ done.recv) × (v ≡ done.recv)
Matches (recv_stored s r) stats done = (stats.sent ≡ done.sent + s) × (stats.recv ≡ done.recv + r)
Matches read_entered stats done = (stats.sent ≡ done.sent) × (stats.recv ≡ done.recv)
Matches (read_sent v) stats done =
    (stats.sent ≡ done.sent) × (stats.recv ≡ done.recv) × (v ≡ done.sent)
Matches (read_both v w) stats done =
    (stats.sent ≡ done.sent) × (stats.recv ≡ done.recv) × (v ≡ done.sent) × (w ≡ done.recv)

abbrev holder_phase : Option ℕ → (ℕ → Phase) → Phase
holder_phase none phase = idle
holder_phase (some i) phase = phase i

-- Every thread is idle, but for the one that holds the lock; and the counters fit its phase.
pub record IsLocked (sys : System) : Type 0 where
  outside : (j : ℕ) → sys.lock ≢ some j → sys.phase j ≡ idle
  counters : Matches (holder_phase sys.lock sys.phase) sys.stats sys.finished

at_self : (f : ℕ → Phase) (i : ℕ) (p : Phase) → at f i p i ≡ p
at_self f i p = ground arith

at_other : (f : ℕ → Phase) (i j : ℕ) (p : Phase) → i ≢ j → at f i p j ≡ f j
at_other f i j p n = ground arith

module _ (sys : System) (h : IsLocked sys) (i : ℕ) where
  owns : (p : Phase) → sys.phase i ≡ p → p ≢ idle → sys.lock ≡ some i
  owns p e n = elim (Option-cases sys.lock) [
    | inl free ↦ absurd (n (sym e ∙ h.outside i (λ taken. cc)))
    | inr (j, taken) ↦ elim (ℕ_discrete j i) [
      | yes same ↦ taken ∙ ap some same
      | no other ↦ absurd (n (sym e ∙ h.outside i (λ taken'. other (cc))))
    ]
  ]

  pub holding : (p : Phase) → sys.phase i ≡ p → p ≢ idle → Matches p sys.stats sys.finished
  holding p e n =
      subst (λ q. Matches q sys.stats sys.finished) e
        (subst (λ o. Matches (holder_phase o sys.phase) sys.stats sys.finished) (owns p e n)
          h.counters)

  free-counters : sys.lock ≡ none → Matches idle sys.stats sys.finished
  free-counters e =
      subst (λ o. Matches (holder_phase o sys.phase) sys.stats sys.finished) e h.counters

  enter :
      (p : Phase)
      → sys.lock ≡ none
      → Matches p sys.stats sys.finished
      → IsLocked (record sys { lock = some i; phase = at sys.phase i p })
  enter p e m = record {
    outside = λ j n. at_other sys.phase i j p (λ same. n (ap some same)) ∙ h.outside j (λ t. cc);
    counters = rw (at_self sys.phase i p) m;
  }

  move :
      (p : Phase) (stats : Stats)
      → sys.lock ≡ some i
      → Matches p stats sys.finished
      → IsLocked (record sys { stats = stats; phase = at sys.phase i p })
  move p stats e m = record {
    outside = λ j n. at_other sys.phase i j p (λ same. n (e ∙ ap some same)) ∙ h.outside j n;
    counters = rw e (rw (at_self sys.phase i p) m);
  }

  leave :
      (done : Stats)
      → sys.lock ≡ some i
      → Matches idle sys.stats done
      → IsLocked (record sys { lock = none; phase = at sys.phase i idle; finished = done })
  leave done e m = record {
    outside = λ j n. elim (ℕ_discrete i j) [
      | yes same ↦ rw (← same) (at_self sys.phase i idle)
      | no other ↦
          at_other sys.phase i j idle other
          ∙ h.outside j (λ t. other (some-injective _ _ (sym e ∙ t)))
    ];
    counters = m;
  }

  idle_step : (c : Call) {sys' : System} → advance i c idle sys ≡ some sys' → IsLocked sys'
  unfolding advance
  idle_step (adding s r) e = elim (Option-cases sys.lock) [
    | inl free ↦
        subst IsLocked (some-injective _ _ (rw free at e))
          (enter (add_entered s r) free (free-counters free))
    | inr (j, taken) ↦ absurd (none-ne-some _ (rw taken at e))
  ]
  idle_step reading e = elim (Option-cases sys.lock) [
    | inl free ↦
        subst IsLocked (some-injective _ _ (rw free at e))
          (enter read_entered free (free-counters free))
    | inr (j, taken) ↦ absurd (none-ne-some _ (rw taken at e))
  ]

  pub advance-IsLocked :
      (c : Call) (p : Phase) {sys' : System}
      → sys.phase i ≡ p
      → advance i c p sys ≡ some sys'
      → IsLocked sys'
  unfolding advance add
  advance-IsLocked c idle q e = idle_step c e
  advance-IsLocked c (add_entered s r) q e =
      let m = holding (add_entered s r) q (λ t. cc) in
      subst IsLocked (some-injective _ _ e)
        (move (sent_loaded s r sys.stats.sent) sys.stats (owns _ q (λ t. cc)) (m.0, m.1, m.0))
  advance-IsLocked c (sent_loaded s r v) q e =
      let m = holding (sent_loaded s r v) q (λ t. cc) in
      subst IsLocked (some-injective _ _ e)
        (move (sent_stored s r) _ (owns _ q (λ t. cc)) (omega arith))
  advance-IsLocked c (sent_stored s r) q e =
      let m = holding (sent_stored s r) q (λ t. cc) in
      subst IsLocked (some-injective _ _ e)
        (move (recv_loaded s r sys.stats.recv) sys.stats (owns _ q (λ t. cc)) (m.0, m.1, m.1))
  advance-IsLocked c (recv_loaded s r v) q e =
      let m = holding (recv_loaded s r v) q (λ t. cc) in
      subst IsLocked (some-injective _ _ e)
        (move (recv_stored s r) _ (owns _ q (λ t. cc)) (omega arith))
  advance-IsLocked c (recv_stored s r) q e =
      let m = holding (recv_stored s r) q (λ t. cc) in
      subst IsLocked (some-injective _ _ e) (leave _ (owns _ q (λ t. cc)) m)
  advance-IsLocked c read_entered q e =
      let m = holding read_entered q (λ t. cc) in
      subst IsLocked (some-injective _ _ e)
        (move (read_sent sys.stats.sent) sys.stats (owns _ q (λ t. cc)) (m.0, m.1, m.0))
  advance-IsLocked c (read_sent v) q e =
      let m = holding (read_sent v) q (λ t. cc) in
      subst IsLocked (some-injective _ _ e)
        (move (read_both v sys.stats.recv) sys.stats (owns _ q (λ t. cc)) (m.0, m.1, m.2, m.1))
  advance-IsLocked c (read_both v w) q e =
      let m = holding (read_both v w) q (λ t. cc) in
      subst IsLocked (some-injective _ _ e) (leave sys.finished (owns _ q (λ t. cc)) (m.0, m.1))

run-IsLocked :
    (schedule : List (ℕ × Call)) (sys : System) {sys' : System}
    → IsLocked sys
    → run schedule sys ≡ some sys'
    → IsLocked sys'
unfolding run
run-IsLocked [] sys h e = subst IsLocked (some-injective _ _ e) h
run-IsLocked ((i, c) ∷ rest) sys h e = elim (Option-cases (advance i c (sys.phase i) sys)) [
  | inl stuck ↦ absurd (none-ne-some _ (rw (stuck, run) at e))
  | inr (next, moved) ↦
      run-IsLocked rest next (advance-IsLocked sys h i c (sys.phase i) refl moved)
        (rw (moved, run) at e)
]

pub start-IsLocked : IsLocked start
unfolding start
start-IsLocked = record { outside = λ j n. refl; counters = (refl, refl) }

-- After any interleaving of `add` and `snapshot` calls of any threads, counted load by load and
-- store by store: when the lock is free, the counters are the sums of the `add` calls that have
-- returned.
pub run-counters :
    (schedule : List (ℕ × Call)) {sys : System}
    → run schedule start ≡ some sys
    → sys.lock ≡ none
    → (sys.stats.sent ≡ sys.finished.sent) × (sys.stats.recv ≡ sys.finished.recv)
run-counters schedule {sys} e free =
    free-counters sys (run-IsLocked schedule start start-IsLocked e) 0 free

-- In any interleaving a thread that has read both fields in `snapshot` holds the sums of the `add`
-- calls that have returned, never half of a call.
pub run-snapshot :
    (schedule : List (ℕ × Call)) {sys : System} (i v w : ℕ)
    → run schedule start ≡ some sys
    → sys.phase i ≡ read_both v w
    → (v ≡ sys.finished.sent) × (w ≡ sys.finished.recv)
run-snapshot schedule {sys} i v w e q =
    let m =
      holding sys (run-IsLocked schedule start start-IsLocked e) i (read_both v w) q (λ t. cc) in
    (m.2, m.3)

-- Two threads never hold the lock: while one stands inside a method, any other is outside.
run-exclusive :
    (schedule : List (ℕ × Call)) {sys : System} (i j : ℕ)
    → run schedule start ≡ some sys
    → sys.phase i ≢ idle
    → sys.phase j ≢ idle
    → i ≡ j
run-exclusive schedule {sys} i j e p q =
    let h = run-IsLocked schedule start start-IsLocked e in
    some-injective _ _ (sym (owns sys h i _ refl p) ∙ owns sys h j _ refl q)
