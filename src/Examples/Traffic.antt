-- ===== src/Examples/Traffic.antt =====
-- Counters, rates and reports: linux/nethogs/main.py.
use til.Prelude.{
  ◌^◌, ℕ, ◌+◌, ◌-◌, ◌*◌, ◌≤◌, ◌<◌, ◌≡◌, ◌≢◌, ◌⊎◌, refl, true, false, Option, none, some, List, [],
  ◌∷◌, ◌++◌, arith,
}
use til.Prelude.Int.{pos}
use til.NetLoad.Stats.{
  Call, adding, reading, idle, read_both, System, new_stats, add, advance, run, start,
}
use til.NetLoad.Stats.Locked.{run-counters, run-snapshot}
use til.NetLoad.Throttle.{second, Throttle, Slept, new_throttle, wait, wait_at}
use til.NetLoad.Internet.{
  returned, os_error, Round, finished, Worker, Attempt, received, download_turn, download_rounds,
  report_error, finish, after_rounds, attempt_download, download_worker, upload_rounds,
}
use til.NetLoad.Internet.Download.{Counted, download_worker-Counted}
use til.NetLoad.Internet.Rate.{AllSleep, download_worker-rate}
use til.NetLoad.Internet.Upload.{upload_rounds-enough}
use til.NetLoad.Fmt.{
  SizeUnit, b, kb, tb, scale_of, pick, nearest, float_of, round_tenths, show_float, fmt, fmt_lem,
}
use til.NetLoad.Report.{Tick, is_over, report}
use til.NetLoad.Report.Accounted.{taken, report-accounted}
use til.NetLoad.Stats.Reads.{reads}
use til.NetLoad.Report.Ending.{sent_sum, recv_sum, sent_last, recv_last, report-ends}

-- Thread 0 adds 7 sent and 2 received bytes while thread 1 waits; then thread 1 takes a snapshot.
abbrev adds : List (ℕ × Call)
adds =
    (0, adding 7 2) ∷ (0, reading) ∷ (0, reading) ∷ (0, reading) ∷ (0, reading) ∷ (0, reading) ∷ []

abbrev snaps : List (ℕ × Call)
snaps = adds ++ (1, reading) ∷ (1, reading) ∷ (1, reading) ∷ []

abbrev reached : Option System → System
reached none = start
reached (some sys) = sys

abbrev after_adds : System
after_adds = reached (run adds start)

abbrev after_snaps : System
after_snaps = reached (run snaps start)

adds_end : run adds start ≡ some after_adds
unfolding run advance start new_stats
adds_end = refl

adds_free : after_adds.lock ≡ none
unfolding run advance start new_stats
adds_free = refl

run-counters_example :
    (after_adds.stats.sent ≡ after_adds.finished.sent)
    × (after_adds.stats.recv ≡ after_adds.finished.recv)
run-counters_example = run-counters adds adds_end adds_free

snaps_end : run snaps start ≡ some after_snaps
unfolding run advance start new_stats
snaps_end = refl

snaps_read : after_snaps.phase 1 ≡ read_both 7 2
unfolding run advance start new_stats add
snaps_read = refl

run-snapshot_example : (7 ≡ after_snaps.finished.sent) × (2 ≡ after_snaps.finished.recv)
run-snapshot_example = run-snapshot snaps 1 7 2 snaps_end snaps_read

snaps_busy : after_snaps.phase 1 ≢ idle
unfolding run advance start new_stats add
snaps_busy e = absurd (cc)

-- 1000 bytes a second, and 1500 bytes in half a second: one second of sleep.
abbrev slow : Throttle
slow = record { bps = pos 1000; start = 2; total = 500 }

slept : Slept (wait slow 1000 500_000_002).1 500_000_002 1_500_000_002
unfolding wait wait_at
slept = omega arith

abbrev worker : Worker
worker = record { stats = new_stats; th = slow; opened = 0; closed = 0; reported = 0 }

-- A download of two pieces that is then reset, and one that ends.
abbrev attempts : List Attempt
attempts =
    record {
      stop = false;
      connect = returned 0;
      rounds =
          record { stop = false; io = returned 900; now = 5 }
          ∷ record { stop = false; io = returned 80; now = 6 }
          ∷ record { stop = false; io = os_error; now = 7 }
          ∷ [];
      response = returned 0;
      closing = returned 0;
    }
    ∷ record {
      stop = false;
      connect = returned 0;
      rounds = record { stop = false; io = returned 0; now = 8 } ∷ [];
      response = returned 0;
      closing = returned 0;
    }
    ∷ []

test_download_worker : (download_worker attempts worker).1.stats.recv ≡ 980
unfolding download_worker attempt_download download_rounds download_turn received after_rounds
    report_error finish wait wait_at add new_stats
test_download_worker = refl

download_worker-Counted_example : Counted worker (download_worker attempts worker).1
download_worker-Counted_example = download_worker-Counted 999 attempts worker refl

abbrev sends : List Round
sends =
    record { stop = false; io = returned 0; now = 5 }
    ∷ record { stop = false; io = returned 0; now = 6 }
    ∷ []

-- 1000 bytes a second: a second of sleep, then half a second.
abbrev slow_attempts : List Attempt
slow_attempts =
    record {
      stop = false;
      connect = returned 0;
      rounds =
          record { stop = false; io = returned 1000; now = 5 }
          ∷ record { stop = false; io = returned 500; now = 1_000_000_005 }
          ∷ record { stop = false; io = os_error; now = 1_500_000_005 }
          ∷ [];
      response = returned 0;
      closing = returned 0;
    }
    ∷ []

abbrev fresh_worker : Worker
fresh_worker = record {
  stats = new_stats;
  th = new_throttle (pos 1000) 5;
  opened = 0;
  closed = 0;
  reported = 0;
}

all_sleep : AllSleep slow_attempts 1_500_000_005 fresh_worker.th
unfolding wait wait_at new_throttle
all_sleep = omega arith

download_worker-rate_example :
    ((download_worker slow_attempts fresh_worker).1.stats.recv - fresh_worker.stats.recv) * second
    ≤ 1000 * (1_500_000_005 - 5)
download_worker-rate_example =
    download_worker-rate 999 slow_attempts fresh_worker 5 1_500_000_005 refl (omega arith)
      (omega arith) all_sleep

upload_rounds-enough_example :
    let (rest, ended, w') = upload_rounds sends 100_000 worker in
    (rest ≡ 0) × (ended ≡ finished) × (w'.stats.sent ≡ worker.stats.sent + 100_000)
upload_rounds-enough_example =
    upload_rounds-enough sends 100_000 worker (refl, refl, (refl, refl, tt)) (omega arith)

test_fmt : fmt 1536 ≡ some (15, kb)
unfolding fmt float_of show_float pick round_tenths nearest
test_fmt = refl

-- Here the float next to the count is smaller, and 8192.2 is shown instead of 8192.3.
test_fmt_rounds : fmt (2 ^ 53 + 2 ^ 38 + 1) ≡ some (81_922, tb)
unfolding fmt float_of show_float pick round_tenths nearest
test_fmt_rounds = refl

fmt_lem_example :
    (tenths : ℕ) × (unit : SizeUnit) × (fmt 1536 ≡ some (tenths, unit))
    × ((unit ≡ b) ⊎ (scale_of unit ≤ 1536))
    × ((unit ≡ tb) ⊎ (1536 < 1024 * scale_of unit))
    × (2 * (tenths * scale_of unit) ≤ 2 * (10 * 1536) + scale_of unit)
    × (2 * (10 * 1536) ≤ 2 * (tenths * scale_of unit) + scale_of unit)
fmt_lem_example = fmt_lem 1536 (omega arith)

abbrev tick : ℕ → ℕ → ℕ → Tick
tick s r elapsed = record { stop = false; interrupted = false; s = s; r = r; elapsed = elapsed }

abbrev ticks : List Tick
ticks = tick 5 7 second ∷ tick 9 7 (2 * second) ∷ []

-- Thread 1 reports what it read; thread 0 adds again after that.
abbrev watched : List (ℕ × Call)
watched = snaps ++ (1, reading) ∷ adds

abbrev seen : List Tick
seen = tick 7 2 second ∷ []

abbrev after_watched : System
after_watched = reached (run watched start)

watched_end : run watched start ≡ some after_watched
unfolding run advance start new_stats
watched_end = refl

seen_read : taken (pos 0) seen ≡ reads 1 watched start
unfolding taken reads run advance start new_stats add is_over
seen_read = refl

report-accounted_example :
    (sent_sum (report (pos 0) seen).0 ≡ sent_last 0 (report (pos 0) seen).0)
    × (recv_sum (report (pos 0) seen).0 ≡ recv_last 0 (report (pos 0) seen).0)
    × (sent_last 0 (report (pos 0) seen).0 ≤ after_watched.finished.sent)
    × (recv_last 0 (report (pos 0) seen).0 ≤ after_watched.finished.recv)
report-accounted_example = report-accounted (pos 0) seen watched 1 watched_end seen_read

report-ends_example : (report (pos 3) (ticks ++ tick 9 9 (3 * second) ∷ ticks)).1 ≡ true
report-ends_example = report-ends 2 ticks (tick 9 9 (3 * second)) ticks (omega arith)
