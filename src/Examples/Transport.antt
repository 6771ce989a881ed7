-- ===== src/Examples/Transport.antt =====
-- Messages and files: kafka/pyfka.py and linux/libpq-fe/pg_con.py.
use til.Prelude.{
  ℕ, ◌≡◌, ◌≢◌, refl, true, false, Option, none, some, List, [], ◌∷◌, ◌++◌, ok, ◌==◌, if◌then◌else◌,
  arith,
}
use til.Consumer.{
  partition_eof, other_code, nothing, message, interrupt, committed, Turn, polling, unbound_local,
  commit_then, on_polled, consume, consume_messages, fresh,
}
use til.Consumer.Runs.{messages, consume_messages-error}
use til.BlobStore.{
  LogTable, Conn, connect, WriteScript, write_blob, try_write, insert_steps, MainScript, main,
}
use til.BlobStore.Transfers.{IsAtomic, main-write_blob, write_blob-IsAtomic}

abbrev quiet_turns : List Turn
quiet_turns =
    record { polled = message none; commit = committed }
    ∷ record { polled = nothing; commit = committed }
    ∷ record { polled = message (some partition_eof); commit = committed }
    ∷ []

consume_messages-error_example :
    consume_messages
      (quiet_turns ++ record { polled = message (some other_code); commit = committed } ∷ [])
    ≡ (
      unbound_local,
      record { cnt = none; printed = []; commits = messages quiet_turns; closed = true },
    )
consume_messages-error_example =
    consume_messages-error quiet_turns [] committed (tt, (tt, (tt, tt)))

abbrev interrupted : List Turn
interrupted =
    record { polled = message none; commit = committed }
    ∷ record { polled = interrupt; commit = committed }
    ∷ []

interrupted_ends : (consume_messages interrupted).0 ≢ polling
unfolding consume_messages consume on_polled commit_then fresh
interrupted_ends e = absurd (cc)

-- A table of numbered files.
abbrev Files : Type 0
Files = List (ℕ × ℕ)

fetch : ℕ → Files → Option (ℕ × ℕ)
fetch name [] = none
fetch name ((n, c) ∷ rest) = if n == name then some (n, c) else fetch name rest

fetch-cons :
    (name content : ℕ) (files : Files)
    → fetch name files ≡ none
    → (row : ℕ × ℕ) × (fetch name ((name, content) ∷ files) ≡ some row) × (row.1 ≡ content)
unfolding fetch
fetch-cons name content files e = ((name, content), ground arith, refl)

fetch-cons_ne :
    (name other content : ℕ) (files : Files)
    → name ≢ other
    → fetch other ((name, content) ∷ files) ≡ fetch other files
unfolding fetch
fetch-cons_ne name other content files n = ground arith

abbrev numbered : LogTable ℕ ℕ
numbered = record {
  Rows = Files;
  Row = ℕ × ℕ;
  insert = λ name content files. (name, content) ∷ files;
  fetchone = fetch;
  third = λ row. row.1;
  fetchone-insert = fetch-cons;
  fetchone-insert_ne = λ name other content. fetch-cons_ne name other content;
}

abbrev one_file : Files
one_file = (1, 10) ∷ []

free_name : fetch 2 one_file ≡ none
unfolding fetch
free_name = refl

abbrev runs : MainScript numbered
runs = record {
  connected = true;
  read = record { cursor = true; execute = true; fetch = true; cursor_close = true };
  opened = true;
  written = true;
}

abbrev writes : WriteScript numbered
writes = record {
  file = some 20;
  cursor = true;
  execute = true;
  commit = true;
  cursor_close = true;
}

write_blob-IsAtomic_example :
    (conn : Conn numbered) × ((write_blob numbered (some (connect numbered one_file)) 2 writes).0
      ≡ some conn)
    × (conn.is_open ≡ false)
    × IsAtomic numbered one_file 2 writes conn
write_blob-IsAtomic_example = write_blob-IsAtomic numbered one_file 2 writes

nothing_printed : (write_blob numbered (some (connect numbered one_file)) 2 writes).1 ≡ false
unfolding write_blob try_write insert_steps
nothing_printed = refl

main-write_blob_example :
    (conn : Conn numbered) × ((write_blob numbered (some (connect numbered one_file)) 2 writes).0
      ≡ some conn)
    × (conn.is_open ≡ false)
    × (main numbered conn.committed 2 runs ≡ ok 20)
main-write_blob_example =
    main-write_blob numbered one_file 2 20 writes runs free_name refl nothing_printed
      (refl, refl, refl, refl, refl, refl)
