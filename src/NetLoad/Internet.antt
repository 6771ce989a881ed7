-- ===== src/NetLoad/Internet.antt =====
-- `download_worker` and `upload_worker` of linux/nethogs/main.py. The network, the stop event and
-- the clock are a script: what each call answers, in order. A run that comes to the end of its
-- script is `running`.
use til.Prelude.{
  ℕ, zero, suc, ◌+◌, ◌-◌, ◌*◌, min, Bool, true, false, List, [], ◌∷◌, ◌==◌, if◌then◌else◌,
}
use til.NetLoad.Stats.{Stats, add}
use til.NetLoad.Throttle.{Throttle, wait}
pub mod Download
pub mod Upload
pub mod Rate

abbrev pub chunk : ℕ
chunk = 64 * 1024

abbrev pub ul_bytes : ℕ
ul_bytes = 10 * 1024 * 1024

-- What a call on a connection does. `other_error` is an exception that is no `OSError`.
pub data Io : Type 0 where
  returned : ℕ → Io
  os_error : Io
  other_error : Io

-- One turn of an inner loop: `stop.is_set()`, the call, and the clock that `th.wait` reads.
pub record Round : Type 0 where
  pub stop : Bool
  pub io : Io
  pub now : ℕ

-- Why a loop ended.
pub data Ended : Type 0 where
  stopped finished failed crashed running : Ended

pub record Worker : Type 0 where
  pub stats : Stats
  pub th : Throttle
  pub opened : ℕ
  pub closed : ℕ
  pub reported : ℕ

unfoldable pub received : Worker → ℕ → ℕ → Worker
unfolding add wait
received w n now = record w { stats = add w.stats 0 n; th = (wait w.th n now).0 }

-- `while not stop.is_set(): data = resp.read(CHUNK) …`; no data ends the loop.
unfoldable pub download_turn : Bool → Io → ℕ → Worker → (Worker → Ended × Worker) → Ended × Worker
unfolding received
download_turn true io now w next = (stopped, w)
download_turn false (returned n) now w next =
    if n == 0 then (finished, w) else next (received w n now)
download_turn false os_error now w next = (failed, w)
download_turn false other_error now w next = (crashed, w)

unfoldable pub download_rounds : List Round → Worker → Ended × Worker
unfolding download_turn
download_rounds [] w = (running, w)
download_rounds (r ∷ rest) w = download_turn r.stop r.io r.now w (download_rounds rest)

-- One turn of the outer loop. `connect` stands for the calls before the inner loop, `response`
-- for `getresponse().read()` of an upload, and `closing` for the other calls behind the loop.
pub record Attempt : Type 0 where
  pub stop : Bool
  pub connect : Io
  pub rounds : List Round
  pub response : Io
  pub closing : Io

-- The handler of `OSError`, before `stop.wait(1)` and the next turn.
unfoldable pub report_error : Worker → Worker
report_error w = record w { reported = w.reported + 1 }

-- The calls behind the inner loop, then the next turn.
unfoldable pub finish : Io → Worker → (Worker → Ended × Worker) → Ended × Worker
unfolding report_error
finish (returned n) w next = next (record w { closed = w.closed + 1 })
finish os_error w next = next (report_error w)
finish other_error w next = (crashed, w)

unfoldable pub after_rounds : Ended → Io → Worker → (Worker → Ended × Worker) → Ended × Worker
unfolding finish
after_rounds stopped closing w next = finish closing w next
after_rounds finished closing w next = finish closing w next
after_rounds failed closing w next = next (report_error w)
after_rounds crashed closing w next = (crashed, w)
after_rounds running closing w next = (running, w)

unfoldable pub attempt_download :
    Io → List Round → Io → Worker → (Worker → Ended × Worker) → Ended × Worker
unfolding download_rounds after_rounds
attempt_download (returned n) rounds closing w next =
    let (ended, w') = download_rounds rounds (record w { opened = w.opened + 1 }) in
    after_rounds ended closing w' next
attempt_download os_error rounds closing w next = next (report_error w)
attempt_download other_error rounds closing w next = (crashed, w)

unfoldable pub download_worker : List Attempt → Worker → Ended × Worker
unfolding attempt_download
download_worker [] w = (running, w)
download_worker (a ∷ rest) w =
    if a.stop
    then (stopped, w)
    else attempt_download a.connect a.rounds a.closing w (download_worker rest)

unfoldable pub sent_piece : Worker → ℕ → ℕ → Worker
unfolding add wait
sent_piece w n now = record w { stats = add w.stats n 0; th = (wait w.th n now).0 }

-- `while left > 0 and not stop.is_set(): …`. The first result is `left`.
unfoldable pub upload_turn :
    Bool → Io → ℕ → ℕ → Worker → (ℕ → Worker → ℕ × Ended × Worker) → ℕ × Ended × Worker
unfolding sent_piece
upload_turn true io now left w next = (left, stopped, w)
upload_turn false (returned k) now left w next =
    let n = min chunk left in next (left - n) (sent_piece w n now)
upload_turn false os_error now left w next = (left, failed, w)
upload_turn false other_error now left w next = (left, crashed, w)

unfoldable pub upload_rounds : List Round → ℕ → Worker → ℕ × Ended × Worker
unfolding upload_turn
upload_rounds rounds zero w = (0, finished, w)
upload_rounds [] (suc left) w = (suc left, running, w)
upload_rounds (r ∷ rest) (suc left) w =
    upload_turn r.stop r.io r.now (suc left) w (upload_rounds rest)

-- `if left == 0: conn.getresponse().read()`, then `conn.close()`.
unfoldable pub after_upload : ℕ → Io → Io → Io
after_upload zero (returned n) closing = closing
after_upload zero os_error closing = os_error
after_upload zero other_error closing = other_error
after_upload (suc left) response closing = closing

unfoldable pub attempt_upload :
    Io → List Round → Io → Io → Worker → (Worker → Ended × Worker) → Ended × Worker
unfolding upload_rounds after_rounds after_upload
attempt_upload (returned n) rounds response closing w next =
    let (left, ended, w') = upload_rounds rounds ul_bytes (record w { opened = w.opened + 1 }) in
    after_rounds ended (after_upload left response closing) w' next
attempt_upload os_error rounds response closing w next = next (report_error w)
attempt_upload other_error rounds response closing w next = (crashed, w)

unfoldable pub upload_worker : List Attempt → Worker → Ended × Worker
unfolding attempt_upload
upload_worker [] w = (running, w)
upload_worker (a ∷ rest) w =
    if a.stop
    then (stopped, w)
    else attempt_upload a.connect a.rounds a.response a.closing w (upload_worker rest)
