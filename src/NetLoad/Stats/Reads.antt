-- ===== src/NetLoad/Stats/Reads.antt =====
-- The snapshots that one thread takes while the others add: what each call returns, in their order.
use mathlib.Core.Option.{some-injective, none-ne-some}
use til.Prelude.{
  ℕ, ◌≤◌, ◌≡◌, refl, Bool, true, false, none, some, List, [], ◌∷◌, ◌++◌, ◌==◌, if◌then◌else◌, arith,
  Option-cases, ◌⊎◌, inl, inr, subst,
}
use til.NetLoad.Stats.{
  Stats, add, Call, adding, reading, Phase, idle, add_entered, sent_loaded, sent_stored,
  recv_loaded, recv_stored, read_entered, read_sent, read_both, System, advance, run,
}
use til.NetLoad.Stats.Locked.{IsLocked, advance-IsLocked, holding}

-- What the call in progress returns with the thread's next step.
unfoldable pub returned : Phase → List (ℕ × ℕ)
returned (read_both v w) = (v, w) ∷ []
returned _ = []

-- What the `snapshot` calls of thread `i` return along a schedule.
unfoldable pub reads : ℕ → List (ℕ × Call) → System → List (ℕ × ℕ)
unfolding returned
reads i [] sys = []
reads i ((j, c) ∷ rest) sys = elim (advance j c (sys.phase j) sys) [
  | none ↦ []
  | some sys' ↦ (if j == i then returned (sys.phase j) else []) ++ reads i rest sys'
]

-- Pairs that never fall, from `s` and `r` on.
abbrev pub IsClimbing : ℕ → ℕ → List (ℕ × ℕ) → Type 0
IsClimbing s r [] = Unit {0}
IsClimbing s r ((v, w) ∷ rest) = (s ≤ v) × (r ≤ w) × IsClimbing v w rest

abbrev pub last_pair : ℕ → ℕ → List (ℕ × ℕ) → ℕ × ℕ
last_pair s r [] = (s, r)
last_pair s r ((v, w) ∷ rest) = last_pair v w rest

-- The sum of the `add` calls that have returned is no less in the second state.
abbrev NotLess : System → System → Type 0
NotLess sys sys' =
    (sys.finished.sent ≤ sys'.finished.sent) × (sys.finished.recv ≤ sys'.finished.recv)

module _ (sys : System) (j : ℕ) where
  advance-NotLess :
      (c : Call) (p : Phase) {sys' : System} → advance j c p sys ≡ some sys' → NotLess sys sys'
  unfolding advance add
  advance-NotLess (adding s r) idle e = ground arith
  advance-NotLess reading idle e = ground arith
  advance-NotLess c (add_entered s r) e = subst (NotLess sys) (some-injective _ _ e) (omega arith)
  advance-NotLess c (sent_loaded s r v) e = subst (NotLess sys) (some-injective _ _ e) (omega arith)
  advance-NotLess c (sent_stored s r) e = subst (NotLess sys) (some-injective _ _ e) (omega arith)
  advance-NotLess c (recv_loaded s r v) e = subst (NotLess sys) (some-injective _ _ e) (omega arith)
  advance-NotLess c (recv_stored s r) e = subst (NotLess sys) (some-injective _ _ e) (omega arith)
  advance-NotLess c read_entered e = subst (NotLess sys) (some-injective _ _ e) (omega arith)
  advance-NotLess c (read_sent v) e = subst (NotLess sys) (some-injective _ _ e) (omega arith)
  advance-NotLess c (read_both v w) e = subst (NotLess sys) (some-injective _ _ e) (omega arith)

  -- What a call returns is the sum of the `add` calls that have returned.
  returned_cases :
      (p : Phase)
      → IsLocked sys
      → sys.phase j ≡ p
      → (returned p ≡ []) ⊎ (returned p ≡ (sys.finished.sent, sys.finished.recv) ∷ [])
  unfolding returned
  returned_cases idle h e = inl refl
  returned_cases (add_entered s r) h e = inl refl
  returned_cases (sent_loaded s r v) h e = inl refl
  returned_cases (sent_stored s r) h e = inl refl
  returned_cases (recv_loaded s r v) h e = inl refl
  returned_cases (recv_stored s r) h e = inl refl
  returned_cases read_entered h e = inl refl
  returned_cases (read_sent v) h e = inl refl
  returned_cases (read_both v w) h e =
      let m = holding sys h j (read_both v w) e (λ t. cc) in inr (rw (m.2, m.3) refl)

-- The pairs climb from `s` and `r`, to `done` at most.
abbrev pub Climbs : ℕ → ℕ → List (ℕ × ℕ) → Stats → Type 0
Climbs s r l done =
    IsClimbing s r l × ((last_pair s r l).0 ≤ done.sent) × ((last_pair s r l).1 ≤ done.recv)

prepend :
    (here l : List (ℕ × ℕ)) (s r v w : ℕ) (done : Stats)
    → s ≤ v
    → r ≤ w
    → (here ≡ []) ⊎ (here ≡ (v, w) ∷ [])
    → Climbs s r l done
    → Climbs v w l done
    → Climbs s r (here ++ l) done
prepend here l s r v w done ls lr (inl e) a b = rw e a
prepend here l s r v w done ls lr (inr e) a b = rw e ((ls, lr, b.0), b.1, b.2)

only_if :
    (b : Bool) (l : List (ℕ × ℕ)) (x : ℕ × ℕ)
    → (l ≡ []) ⊎ (l ≡ x ∷ [])
    → ((if b then l else []) ≡ []) ⊎ ((if b then l else []) ≡ x ∷ [])
only_if true l x h = h
only_if false l x h = inl refl

-- From any state on, what a thread reads never falls, and never exceeds the sums at the end.
pub reads-Climbs :
    (i : ℕ) (schedule : List (ℕ × Call)) (sys : System) {sys' : System} (s r : ℕ)
    → IsLocked sys
    → run schedule sys ≡ some sys'
    → s ≤ sys.finished.sent
    → r ≤ sys.finished.recv
    → Climbs s r (reads i schedule sys) sys'.finished
unfolding run reads
reads-Climbs i [] sys s r h e ls lr =
    let same : sys ≡ _ = some-injective _ _ e in (tt, rw (← same) ls, rw (← same) lr)
reads-Climbs i ((j, c) ∷ rest) sys {sys'} s r h e ls lr =
    elim (Option-cases (advance j c (sys.phase j) sys)) [
      | inl stuck ↦ absurd (none-ne-some _ (rw (stuck, run) at e))
      | inr (next, moved) ↦
          let (up_s, up_r) = advance-NotLess sys j c (sys.phase j) moved in
          let locked = advance-IsLocked sys h j c (sys.phase j) refl moved in
          let e' : run rest next ≡ some sys' = rw (moved, run) at e in
          let here =
            only_if (j == i) _ (sys.finished.sent, sys.finished.recv)
              (returned_cases sys j (sys.phase j) h refl) in
          rw (moved, reads)
            (prepend _ (reads i rest next) s r sys.finished.sent sys.finished.recv sys'.finished ls
              lr here (reads-Climbs i rest next s r locked e' (omega arith) (omega arith))
              (reads-Climbs i rest next sys.finished.sent sys.finished.recv locked e' up_s up_r))
    ]
