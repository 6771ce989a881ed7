-- ===== src/BlobStore/Transfers.antt =====
-- What a transfer of linux/libpq-fe/pg_con.py leaves in the table and on the connection.
use mathlib.Core.Option.{some-injective}
use til.Prelude.{
  ◌≡◌, ◌⊎◌, inl, inr, Bool, true, false, Option, none, some, ok, refl, ap, ◌∙◌, arith,
}
use til.BlobStore.{
  LogTable, Conn, connect, close, WriteScript, insert_steps, try_write, write_blob, MainScript,
  try_read, read_blob, write_file, main,
}

module _ {Name Bytes : Type 0} (logs : LogTable Name Bytes) where
  open logs use {Rows, Row, insert, fetchone, third, fetchone-insert}

  -- The table after a call of `write_blob`: as before, or with the one row.
  abbrev pub IsAtomic : Rows → Name → WriteScript logs → Conn logs → Type 0
  IsAtomic rows name script conn =
      (conn.committed ≡ rows)
      ⊎ ((content : Bytes) × (script.file ≡ some content)
          × (conn.committed ≡ insert name content rows))

  steps-IsAtomic :
      (execute commit cursor_close : Bool) (name : Name) (content : Bytes)
      (script : WriteScript logs) (rows : Rows)
      → script.file ≡ some content
      → IsAtomic rows name script
          (insert_steps logs execute commit cursor_close name content (connect logs rows)).0
  unfolding insert_steps connect
  steps-IsAtomic false commit cursor_close name content script rows e = inl refl
  steps-IsAtomic true false cursor_close name content script rows e = inl refl
  steps-IsAtomic true true cursor_close name content script rows e = inr (content, e, refl)

  try_write-IsAtomic :
      (file : Option Bytes) (cursor : Bool) (name : Name) (script : WriteScript logs) (rows : Rows)
      → script.file ≡ file
      → IsAtomic rows name script (try_write logs file cursor script name (connect logs rows)).0
  unfolding try_write connect
  try_write-IsAtomic none cursor name script rows e = inl refl
  try_write-IsAtomic (some content) false name script rows e = inl refl
  try_write-IsAtomic (some content) true name script rows e =
      steps-IsAtomic script.execute script.commit script.cursor_close name content script rows e

  -- A run of the program whose calls succeed, but perhaps `cur.close()`.
  abbrev pub RunsWell : MainScript logs → Type 0
  RunsWell script =
      (script.connected ≡ true)
      × (script.read.cursor ≡ true)
      × (script.read.execute ≡ true)
      × (script.read.fetch ≡ true)
      × (script.opened ≡ true)
      × (script.written ≡ true)

  -- With no error printed, the row is committed.
  wrote_steps :
      (execute commit cursor_close : Bool) (name : Name) (content : Bytes) (rows : Rows)
      → (insert_steps logs execute commit cursor_close name content (connect logs rows)).1 ≡ false
      → (insert_steps logs execute commit cursor_close name content (connect logs rows)).0.committed
        ≡ insert name content rows
  unfolding insert_steps connect
  wrote_steps false commit cursor_close name content rows e = absurd (cc)
  wrote_steps true false cursor_close name content rows e = absurd (cc)
  wrote_steps true true cursor_close name content rows e = refl

  wrote_from :
      (file : Option Bytes) (cursor : Bool) (rows : Rows) (name : Name) (content : Bytes)
      (write : WriteScript logs)
      → file ≡ some content
      → (try_write logs file cursor write name (connect logs rows)).1 ≡ false
      → (try_write logs file cursor write name (connect logs rows)).0.committed
        ≡ insert name content rows
  unfolding try_write
  wrote_from none cursor rows name content write e q = absurd (cc)
  wrote_from (some c) false rows name content write e q = absurd (cc)
  wrote_from (some c) true rows name content write e q =
      wrote_steps write.execute write.commit write.cursor_close name c rows q
      ∙ ap (λ x. insert name x rows) (some-injective _ _ e)

  wrote :
      (rows : Rows) (name : Name) (content : Bytes) (write : WriteScript logs)
      → write.file ≡ some content
      → (write_blob logs (some (connect logs rows)) name write).1 ≡ false
      → (try_write logs write.file write.cursor write name (connect logs rows)).0.committed
        ≡ insert name content rows
  unfolding write_blob
  wrote rows name content write file quiet =
      wrote_from write.file write.cursor rows name content write file quiet

  read_found :
      (rows : Rows) (name : Name) (script : MainScript logs) (row : Row)
      → fetchone name rows ≡ some row
      → RunsWell script
      → main logs rows name script ≡ ok (third row)
  unfolding main read_blob try_read write_file connect
  read_found rows name script row e w = ground arith

  -- A file that `write_blob` stores, on a new connection and with no error, is what the program then
  -- reads back under its name and writes, if the name was free and the calls of the program
  -- succeed. (Where only `cur.close()` fails, an error is printed and the file is stored all the same.)
  pub main-write_blob :
      (rows : Rows) (name : Name) (content : Bytes) (write : WriteScript logs)
      (run : MainScript logs)
      → fetchone name rows ≡ none
      → write.file ≡ some content
      → (write_blob logs (some (connect logs rows)) name write).1 ≡ false
      → RunsWell run
      → (conn : Conn logs) × ((write_blob logs (some (connect logs rows)) name write).0 ≡ some conn)
        × (conn.is_open ≡ false)
        × (main logs conn.committed name run ≡ ok content)
  unfolding write_blob close
  main-write_blob rows name content write run free file quiet well =
      let (row, found, same) = fetchone-insert name content rows free in
      let (conn, _) = try_write logs write.file write.cursor write name (connect logs rows) in
      (
        record { committed = conn.committed; pending = conn.committed; is_open = false },
        refl,
        refl,
        rw (wrote rows name content write file quiet, read_found _ name run row found well)
            (ap ok same),
      )

  -- On every path `write_blob` closes the connection, and the table holds one row more or is as
  -- before.
  pub write_blob-IsAtomic :
      (rows : Rows) (name : Name) (script : WriteScript logs)
      → (conn : Conn logs) × ((write_blob logs (some (connect logs rows)) name script).0
          ≡ some conn)
        × (conn.is_open ≡ false)
        × IsAtomic rows name script conn
  unfolding write_blob close
  write_blob-IsAtomic rows name script =
      let (conn, _) = try_write logs script.file script.cursor script name (connect logs rows) in
      (
        record { committed = conn.committed; pending = conn.committed; is_open = false },
        refl,
        refl,
        try_write-IsAtomic script.file script.cursor name script rows refl,
      )
