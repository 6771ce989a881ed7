-- ===== src/NetLoad/Internet/Upload.antt =====
-- How much an upload sends.
use til.Prelude.{
  ℕ, zero, suc, ◌+◌, ◌-◌, ◌*◌, ◌≤◌, ◌≡◌, refl, min, Bool, true, false, List, [], ◌∷◌, length, arith,
}
use til.NetLoad.Stats.{add}
use til.NetLoad.Internet.{
  chunk, Io, returned, os_error, other_error, Round, Ended, finished, Worker, sent_piece,
  upload_turn, upload_rounds,
}

-- `left` bytes were to be sent, and `rest` are still to be sent: the statistics hold the others.
abbrev Sent : Worker → ℕ → ℕ × Ended × Worker → Type 0
Sent w left (rest, ended, w') =
    (w'.stats.sent + rest ≡ w.stats.sent + left) × (w'.stats.recv ≡ w.stats.recv)

abbrev Reports : (ℕ → Worker → ℕ × Ended × Worker) → Type 0
Reports run = (left : ℕ) (w : Worker) → Sent w left (run left w)

turn-Sent :
    (s : Bool) (io : Io) (now : ℕ) (next : ℕ → Worker → ℕ × Ended × Worker)
    → Reports next
    → Reports (λ left w. upload_turn s io now left w next)
unfolding upload_turn sent_piece add
turn-Sent true io now next k left w = (refl, refl)
turn-Sent false (returned n) now next k left w =
    let m = min chunk left in
    let (p, q) = k (left - m) (sent_piece w m now) in (omega arith, omega arith)
turn-Sent false os_error now next k left w = (refl, refl)
turn-Sent false other_error now next k left w = (refl, refl)

-- However the loop of an upload ends, the bytes counted as sent and the bytes left add up to those
-- there were, and nothing is counted as received.
upload_rounds-Sent :
    (rounds : List Round) (left : ℕ) (w : Worker)
    → let (rest, ended, w') = upload_rounds rounds left w in
      (w'.stats.sent + rest ≡ w.stats.sent + left) × (w'.stats.recv ≡ w.stats.recv)
unfolding upload_rounds
upload_rounds-Sent rounds zero w = (refl, refl)
upload_rounds-Sent [] (suc left) w = (refl, refl)
upload_rounds-Sent (r ∷ rest) (suc left) w =
    turn-Sent r.stop r.io r.now (upload_rounds rest) (upload_rounds-Sent rest) (suc left) w

-- No stop and no error. (`conn.send` returns nothing of use.)
abbrev pub AllWell : List Round → Type 0
AllWell [] = Unit
AllWell (r ∷ rest) = (r.stop ≡ false) × (r.io ≡ returned 0) × AllWell rest

enough :
    (rounds : List Round) (left : ℕ) (w : Worker)
    → AllWell rounds
    → left ≤ length rounds * chunk
    → ((upload_rounds rounds left w).0 ≡ 0) × ((upload_rounds rounds left w).1 ≡ finished)
unfolding upload_rounds upload_turn
enough rounds zero w a h = (refl, refl)
enough [] (suc left) w a h = absurd (omega arith)
enough (r ∷ rest) (suc left) w a h =
    let m = min chunk (suc left) in
    rw (a.0, a.1) (enough rest (suc left - m) (sent_piece w m r.now) a.2 (omega arith))

-- The upload loop ends: with no stop and no error, one turn for each chunk sends the body whole.
pub upload_rounds-enough :
    (rounds : List Round) (left : ℕ) (w : Worker)
    → AllWell rounds
    → left ≤ length rounds * chunk
    → let (rest, ended, w') = upload_rounds rounds left w in
      (rest ≡ 0) × (ended ≡ finished) × (w'.stats.sent ≡ w.stats.sent + left)
upload_rounds-enough rounds left w a h =
    let (done, ends) = enough rounds left w a h in
    let (total, _) = upload_rounds-Sent rounds left w in (done, ends, omega arith)
