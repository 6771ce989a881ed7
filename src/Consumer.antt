-- ===== src/Consumer.antt =====
-- kafka/pyfka.py: the loop of `consume_messages`. The Kafka client is a script of what `poll` and
-- `commit` answer, in order.
use til.Prelude.{ℕ, ◌+◌, Bool, true, false, Option, none, some, List, [], ◌∷◌}
pub mod Runs

-- The code of a message's error: the end of a partition, or another.
pub data Code : Type 0 where
  partition_eof other_code : Code

-- What `consumer.poll` does: no message, a message with or without an error, the user's interrupt,
-- or an exception of the client.
pub data Polled : Type 0 where
  nothing : Polled
  message : Option Code → Polled
  interrupt : Polled
  poll_failed : Polled

-- What `consumer.commit()` does.
pub data Committed : Type 0 where
  committed : Committed
  commit_failed : Committed

pub record Turn : Type 0 where
  pub polled : Polled
  pub commit : Committed

-- How the loop is left. `unbound_local` is Python's UnboundLocalError.
pub data Left : Type 0 where
  polling : Left
  ended : Left
  unbound_local : Left
  kafka_error : Left

-- The consumer, and what was printed. `cnt` is the function's own variable: `cnt += 1` assigns it,
-- so that it is local and the module's `cnt = 0` does not bind it.
pub record Run : Type 0 where
  pub cnt : Option ℕ
  pub printed : List ℕ
  pub commits : ℕ
  pub closed : Bool

unfoldable pub fresh : Run
fresh = record { cnt = none; printed = []; commits = 0; closed = false }

-- `finally: consumer.close()`
unfoldable pub close : Run → Run
close run = record run { closed = true }

-- `consumer.commit()`, then the next turn.
unfoldable pub commit_then : Committed → Run → (Run → Left × Run) → Left × Run
unfolding close
commit_then committed run next = next (record run { commits = run.commits + 1 })
commit_then commit_failed run next = (kafka_error, close run)

-- `cnt += 1; print(cnt)`
unfoldable pub count_error : Option ℕ → Committed → Run → (Run → Left × Run) → Left × Run
unfolding commit_then close
count_error none commit run next = (unbound_local, close run)
count_error (some n) commit run next =
    commit_then commit (record run { cnt = some (n + 1); printed = (n + 1) ∷ run.printed }) next

unfoldable pub on_polled : Polled → Committed → Run → (Run → Left × Run) → Left × Run
unfolding count_error
on_polled nothing commit run next = next run
on_polled (message none) commit run next = commit_then commit run next
on_polled (message (some partition_eof)) commit run next = commit_then commit run next
on_polled (message (some other_code)) commit run next = count_error run.cnt commit run next
on_polled interrupt commit run next = (ended, close run)
on_polled poll_failed commit run next = (kafka_error, close run)

unfoldable pub consume : List Turn → Run → Left × Run
unfolding on_polled
consume [] run = (polling, run)
consume (t ∷ rest) run = on_polled t.polled t.commit run (consume rest)

unfoldable pub consume_messages : List Turn → Left × Run
unfolding consume fresh
consume_messages turns = consume turns fresh
