-- ===== src/NetLoad/Report.antt =====
-- `report` and `main` of linux/nethogs/main.py.
use til.Prelude.{
  ℕ, zero, suc, ◌-◌, ◌*◌, ◌/◌, Bool, true, false, ◌&&◌, Option, none, some, Result, ok, raised,
  List, [], ◌∷◌, ◌++◌, replicate, leb, if◌then◌else◌,
}
use til.Prelude.Int.{ℤ, pos, negsuc}
use til.NetLoad.Throttle.{second}
pub mod Ending
pub mod Targets
pub mod Accounted

-- One turn of the loop of `report`: the stop event, a KeyboardInterrupt during the sleep, the
-- snapshot, and the nanoseconds since the start.
pub record Tick : Type 0 where
  pub stop : Bool
  pub interrupted : Bool
  pub s : ℕ
  pub r : ℕ
  pub elapsed : ℕ

-- What a turn prints, before formatting.
pub record Line : Type 0 where
  pub at : ℕ
  pub sent_now : ℕ
  pub sent_all : ℕ
  pub recv_now : ℕ
  pub recv_all : ℕ

-- `duration and elapsed >= duration`, the duration in seconds.
unfoldable pub is_over : ℤ → ℕ → Bool
is_over (pos zero) elapsed = false
is_over (pos (suc d)) elapsed = leb (suc d * second) elapsed
is_over (negsuc d) elapsed = true

-- The counters never fall, so the subtraction is that of the source. The result says whether
-- `stop.set()` was reached; a script that runs out leaves the loop at work.
unfoldable pub report_loop : ℤ → List Tick → ℕ → ℕ → List Line × Bool
unfolding is_over
report_loop duration [] prev_s prev_r = ([], false)
report_loop duration (t ∷ rest) prev_s prev_r =
    let line : Line = record {
      at = t.elapsed;
      sent_now = t.s - prev_s;
      sent_all = t.s;
      recv_now = t.r - prev_r;
      recv_all = t.r;
    } in
    let (lines, done) = report_loop duration rest t.s t.r in
    if t.stop
    then ([], true)
    else if t.interrupted
    then ([], true)
    else if is_over duration t.elapsed
    then (line ∷ [], true)
    else (line ∷ lines, done)

unfoldable pub report : ℤ → List Tick → List Line × Bool
unfolding report_loop
report duration ticks = report_loop duration ticks 0 0

pub data Mode : Type 0 where
  download upload both server client : Mode

-- A rate given on the command line, as a fraction.
pub record Rate : Type 0 where
  pub num : ℤ
  pub den : ℕ

-- `int(args.rate * 1024 * 1024)` rounds towards zero.
abbrev pub negate : ℕ → ℤ
negate zero = pos 0
negate (suc n) = negsuc n

unfoldable pub bps_of : ℤ → ℕ → ℤ
bps_of (pos n) den = pos (n * 1024 * 1024 / den)
bps_of (negsuc n) den = negate (suc n * 1024 * 1024 / den)

pub record Args : Type 0 where
  pub mode : Mode
  pub host : Option (List ℕ)
  pub rate : Rate
  pub threads : ℤ

pub data Target : Type 0 where
  download_worker upload_worker server_main client_worker : Target

pub data Exit : Type 0 where
  usage_error : Exit

-- `not args.host`
unfoldable pub is_missing : Option (List ℕ) → Bool
is_missing none = true
is_missing (some []) = true
is_missing (some (c ∷ rest)) = false

-- `[target] * n`
unfoldable pub repeat : Target → ℤ → List Target
repeat target (pos n) = replicate n target
repeat target (negsuc n) = []

unfoldable pub is_client : Mode → Bool
is_client client = true
is_client _ = false

unfoldable pub targets : Mode → ℤ → List Target
unfolding repeat
targets download threads = repeat download_worker threads
targets upload threads = repeat upload_worker threads
targets both threads = repeat download_worker threads ++ repeat upload_worker threads
targets server threads = server_main ∷ []
targets client threads = repeat client_worker threads

-- The rate and the threads that are started, after the command line was parsed.
unfoldable pub main : Args → Result Exit (ℤ × List Target)
unfolding bps_of is_missing is_client targets
main args =
    if is_client args.mode && is_missing args.host
    then raised usage_error
    else ok (bps_of args.rate.num args.rate.den, targets args.mode args.threads)
