-- ===== src/NetLoad/Stats.antt =====
-- The class `Stats` of linux/nethogs/main.py. `add` and `snapshot` are what a thread computes while
-- it holds the lock; `System` runs the same methods one load or store at a time, in any
-- interleaving of any number of threads.
use til.Prelude.{ℕ, ◌+◌, Option, none, some, List, [], ◌∷◌, ◌==◌, if◌then◌else◌}
pub mod Locked
pub mod Reads

pub record Stats : Type 0 where
  pub sent : ℕ
  pub recv : ℕ

unfoldable pub new_stats : Stats
new_stats = record { sent = 0; recv = 0 }

unfoldable pub add : Stats → ℕ → ℕ → Stats
add self sent recv = record { sent = self.sent + sent; recv = self.recv + recv }

unfoldable pub snapshot : Stats → ℕ × ℕ
snapshot self = (self.sent, self.recv)

-- What a thread may call.
pub data Call : Type 0 where
  adding : (sent recv : ℕ) → Call
  reading : Call

-- Where a thread stands inside a method: `with self.lock:` taken, then each load and each store.
pub data Phase : Type 0 where
  idle : Phase
  add_entered : (sent recv : ℕ) → Phase
  sent_loaded : (sent recv value : ℕ) → Phase
  sent_stored : (sent recv : ℕ) → Phase
  recv_loaded : (sent recv value : ℕ) → Phase
  recv_stored : (sent recv : ℕ) → Phase
  read_entered : Phase
  read_sent : ℕ → Phase
  read_both : ℕ → ℕ → Phase

-- `finished` is a record of the proof: the sum of the `add` calls that have returned.
pub record System : Type 0 where
  pub lock : Option ℕ
  pub stats : Stats
  pub phase : ℕ → Phase
  pub finished : Stats

abbrev pub at : (ℕ → Phase) → ℕ → Phase → ℕ → Phase
at phases i p j = if j == i then p else phases j

-- The next step of a thread at a phase. A thread waits (`none`) while another holds the lock.
unfoldable pub advance : ℕ → Call → Phase → System → Option System
unfolding add
advance i (adding s r) idle sys = elim sys.lock [
  | none ↦ some (record sys { lock = some i; phase = at sys.phase i (add_entered s r) })
  | some _ ↦ none
]
advance i reading idle sys = elim sys.lock [
  | none ↦ some (record sys { lock = some i; phase = at sys.phase i read_entered })
  | some _ ↦ none
]
advance i c (add_entered s r) sys =
    some (record sys { phase = at sys.phase i (sent_loaded s r sys.stats.sent) })
advance i c (sent_loaded s r v) sys = some (record sys {
  stats = record { sent = v + s; recv = sys.stats.recv };
  phase = at sys.phase i (sent_stored s r);
})
advance i c (sent_stored s r) sys =
    some (record sys { phase = at sys.phase i (recv_loaded s r sys.stats.recv) })
advance i c (recv_loaded s r v) sys = some (record sys {
  stats = record { sent = sys.stats.sent; recv = v + r };
  phase = at sys.phase i (recv_stored s r);
})
advance i c (recv_stored s r) sys =
    some (record sys { lock = none; phase = at sys.phase i idle; finished = add sys.finished s r })
advance i c read_entered sys =
    some (record sys { phase = at sys.phase i (read_sent sys.stats.sent) })
advance i c (read_sent v) sys =
    some (record sys { phase = at sys.phase i (read_both v sys.stats.recv) })
advance i c (read_both v w) sys = some (record sys { lock = none; phase = at sys.phase i idle })

-- A schedule names the thread that moves, and the call that it makes if it is idle.
unfoldable pub run : List (ℕ × Call) → System → Option System
unfolding advance
run [] sys = some sys
run ((i, c) ∷ rest) sys = elim (advance i c (sys.phase i) sys) [
  | none ↦ none
  | some sys' ↦ run rest sys'
]

unfoldable pub start : System
unfolding new_stats
start = record { lock = none; stats = new_stats; phase = λ i. idle; finished = new_stats }
