-- ===== src/NetLoad/Report/Targets.antt =====
-- The threads that `main` starts.
use til.Prelude.{
  ℕ, zero, suc, ◌+◌, ◌*◌, ◌≡◌, ◌↔◌, refl, true, List, [], ◌∷◌, ◌++◌, replicate, raised, arith,
}
use til.Prelude.Int.{ℤ, pos, negsuc, pos_part}
use til.NetLoad.Report.{
  Mode, download, upload, both, server, client, Args, Target, download_worker, upload_worker,
  server_main, client_worker, usage_error, is_missing, is_client, repeat, targets, main,
}

abbrev pub sends : Target → ℕ
sends download_worker = 0
sends upload_worker = 1
sends server_main = 0
sends client_worker = 0

abbrev pub receives : Target → ℕ
receives download_worker = 1
receives upload_worker = 0
receives server_main = 0
receives client_worker = 0

-- How many threads of a list are counted by `f`.
abbrev pub tally : (Target → ℕ) → List Target → ℕ
tally f [] = 0
tally f (t ∷ rest) = f t + tally f rest

tally-append : (f : Target → ℕ) (xs ys : List Target) → tally f (xs ++ ys) ≡ tally f xs + tally f ys
tally-append f [] ys = omega arith
tally-append f (x ∷ xs) ys = omega (arith, tally-append f xs ys)

tally-repeat : (f : Target → ℕ) (t : Target) (n : ℕ) → tally f (replicate n t) ≡ n * f t
tally-repeat f t zero = omega arith
tally-repeat f t (suc n) = omega (arith, tally-repeat f t n)

-- Which modes send to, and receive from, the internet.
abbrev pub uploads : Mode → ℕ
uploads upload = 1
uploads both = 1
uploads _ = 0

abbrev pub downloads : Mode → ℕ
downloads download = 1
downloads both = 1
downloads _ = 0

-- `--threads` counts the threads for each direction: a mode that sends starts so many uploads, a
-- mode that receives so many downloads, and no thread else does either. A negative count starts none.
targets-tally :
    (mode : Mode) (threads : ℤ)
    → (tally sends (targets mode threads) ≡ pos_part threads * uploads mode)
      × (tally receives (targets mode threads) ≡ pos_part threads * downloads mode)
unfolding targets repeat
targets-tally download (pos n) = (
  omega (arith, tally-repeat sends download_worker n),
  omega (arith, tally-repeat receives download_worker n),
)
targets-tally upload (pos n) = (
  omega (arith, tally-repeat sends upload_worker n),
  omega (arith, tally-repeat receives upload_worker n),
)
targets-tally both (pos n) =
    let d = replicate n download_worker in
    let u = replicate n upload_worker in
    (
      omega (
        arith,
        tally-append sends d u,
        tally-repeat sends download_worker n,
        tally-repeat sends upload_worker n,
      ),
      omega (
        arith,
        tally-append receives d u,
        tally-repeat receives download_worker n,
        tally-repeat receives upload_worker n,
      ),
    )
targets-tally server (pos n) = omega arith
targets-tally client (pos n) = (
  omega (arith, tally-repeat sends client_worker n),
  omega (arith, tally-repeat receives client_worker n),
)
targets-tally download (negsuc n) = omega arith
targets-tally upload (negsuc n) = omega arith
targets-tally both (negsuc n) = omega arith
targets-tally server (negsuc n) = omega arith
targets-tally client (negsuc n) = omega arith

-- The program stops with a usage error exactly if it is to be a client and has no host.
main-usage_error :
    (args : Args)
    → (main args ≡ raised usage_error) ↔ ((args.mode ≡ client) × (is_missing args.host ≡ true))
unfolding main is_client
main-usage_error args = go args.mode refl
  where
    go :
        (m : Mode)
        → args.mode ≡ m
        → (main args ≡ raised usage_error) ↔ ((args.mode ≡ client) × (is_missing args.host ≡ true))
    go client e = ground arith
    go _ e = ground arith
