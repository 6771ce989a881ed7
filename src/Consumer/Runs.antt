-- ===== src/Consumer/Runs.antt =====
-- How a run of `consume_messages` of kafka/pyfka.py ends.
use til.Prelude.{
  ℕ, ◌+◌, ◌≡◌, ◌≢◌, refl, sym, ap, subst, ◌∙◌, true, none, some, List, [], ◌∷◌, ◌++◌, arith,
}
use til.Consumer.{
  partition_eof, other_code, Polled, nothing, message, interrupt, poll_failed, Committed, committed,
  commit_failed, Turn, Left, polling, unbound_local, Run, close, commit_then, count_error,
  on_polled, consume, consume_messages, fresh,
}

-- A turn that neither ends the loop nor counts an error.
abbrev pub IsQuiet : Polled → Committed → Type 0
IsQuiet nothing c = Unit
IsQuiet (message none) committed = Unit
IsQuiet (message (some partition_eof)) committed = Unit
IsQuiet _ _ = ⊥

abbrev pub AllQuiet : List Turn → Type 0
AllQuiet [] = Unit
AllQuiet (t ∷ rest) = IsQuiet t.polled t.commit × AllQuiet rest

abbrev pub one_if_message : Polled → ℕ
one_if_message (message c) = 1
one_if_message _ = 0

-- How many messages the turns bring, with an error or without.
abbrev pub messages : List Turn → ℕ
messages [] = 0
messages (t ∷ rest) = one_if_message t.polled + messages rest

add_commits : ℕ → Run → Run
add_commits n run = record run { commits = run.commits + n }

quiet_turn :
    (p : Polled) (c : Committed) (run : Run) (next : Run → Left × Run)
    → IsQuiet p c
    → on_polled p c run next ≡ next (add_commits (one_if_message p) run)
unfolding on_polled commit_then add_commits
quiet_turn nothing c run next q = ap next (ground arith)
quiet_turn (message none) committed run next q = refl
quiet_turn (message none) commit_failed run next q = absurd q
quiet_turn (message (some partition_eof)) committed run next q = refl
quiet_turn (message (some partition_eof)) commit_failed run next q = absurd q
quiet_turn (message (some other_code)) c run next q = absurd q
quiet_turn interrupt c run next q = absurd q
quiet_turn poll_failed c run next q = absurd q

add_commits_twice :
    (m n : ℕ) (run : Run) → add_commits n (add_commits m run) ≡ add_commits (m + n) run
unfolding add_commits
add_commits_twice m n run = ground arith

quiet :
    (before rest : List Turn) (run : Run)
    → AllQuiet before
    → consume (before ++ rest) run ≡ consume rest (add_commits (messages before) run)
unfolding consume
quiet [] rest run q = ap (consume rest) (unfold add_commits in ground arith)
quiet (t ∷ before) rest run q =
    quiet_turn t.polled t.commit run (consume (before ++ rest)) q.0
    ∙ quiet before rest (add_commits (one_if_message t.polled) run) q.1
    ∙ ap (consume rest) (add_commits_twice (one_if_message t.polled) (messages before) run)

error_turn :
    (n : ℕ) (rest : List Turn) (c : Committed)
    → consume
        (record { polled = message (some other_code); commit = c } ∷ rest)
        (add_commits n fresh)
      ≡ (unbound_local, record { cnt = none; printed = []; commits = n; closed = true })
unfolding consume on_polled count_error add_commits fresh close
error_turn n rest c = ground arith

-- After turns that bring no such error, the first message with an error that is no end of a
-- partition ends the program by an UnboundLocalError, and not by the count of errors that the code
-- means to print. The consumer is closed; each message before it was committed, and it was not.
pub consume_messages-error :
    (before rest : List Turn) (c : Committed)
    → AllQuiet before
    → consume_messages (before ++ record { polled = message (some other_code); commit = c } ∷ rest)
      ≡ (
        unbound_local,
        record { cnt = none; printed = []; commits = messages before; closed = true },
      )
unfolding consume_messages
consume_messages-error before rest c q =
    quiet before (record { polled = message (some other_code); commit = c } ∷ rest) fresh q
    ∙ error_turn (messages before) rest c

-- What every run keeps: the counter has no value, nothing was printed, and a run that is over has
-- closed the consumer.
abbrev IsSound : Left × Run → Type 0
IsSound (left, run) = (run.cnt ≡ none) × (run.printed ≡ []) × (left ≢ polling → run.closed ≡ true)

abbrev Sound : (Run → Left × Run) → Type 0
Sound next = (run : Run) → run.cnt ≡ none → run.printed ≡ [] → IsSound (next run)

commit-Sound :
    (c : Committed) (next : Run → Left × Run) → Sound next → Sound (λ r. commit_then c r next)
unfolding commit_then close
commit-Sound committed next k run e p = k (record run { commits = run.commits + 1 }) e p
commit-Sound commit_failed next k run e p = (e, p, λ n. refl)

polled-Sound :
    (p : Polled) (c : Committed) (next : Run → Left × Run)
    → Sound next
    → Sound (λ r. on_polled p c r next)
unfolding on_polled count_error close
polled-Sound nothing c next k run e p = k run e p
polled-Sound (message none) c next k run e p = commit-Sound c next k run e p
polled-Sound (message (some partition_eof)) c next k run e p = commit-Sound c next k run e p
polled-Sound (message (some other_code)) c next k run e p =
    subst (λ o. IsSound (count_error o c run next)) (sym e) (e, p, λ n. refl)
polled-Sound interrupt c next k run e p = (e, p, λ n. refl)
polled-Sound poll_failed c next k run e p = (e, p, λ n. refl)

consume-Sound : (turns : List Turn) → Sound (consume turns)
unfolding consume
consume-Sound [] run e p = (e, p, λ n. absurd (n refl))
consume-Sound (t ∷ rest) run e p =
    polled-Sound t.polled t.commit (consume rest) (consume-Sound rest) run e p

-- No run ever prints a count of errors.
consume_messages-printed : (turns : List Turn) → (consume_messages turns).1.printed ≡ []
unfolding consume_messages fresh
consume_messages-printed turns = (consume-Sound turns fresh refl refl).1

-- However the loop is left, by the user's interrupt or by any exception, the consumer is closed.
consume_messages-closed :
    (turns : List Turn)
    → (consume_messages turns).0 ≢ polling
    → (consume_messages turns).1.closed ≡ true
unfolding consume_messages fresh
consume_messages-closed turns n = (consume-Sound turns fresh refl refl).2 n
