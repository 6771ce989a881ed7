-- ===== src/BlobStore.antt =====
-- linux/libpq-fe/pg_con.py: files stored in the PostgreSQL table `logs`. The database and psycopg2
-- are parameters; which of their calls fail is a script.
use til.Prelude.{
  ◌≡◌, ◌≢◌, Bool, true, false, not, ◌&&◌, Option, none, some, Result, ok, raised, if◌then◌else◌,
}
pub mod Transfers

-- The table `logs`: what the two statements do, and `row[2]` of a row that `fetchone` returns.
pub record LogTable (Name Bytes : Type 0) : Type 1 where
  pub Rows : Type 0
  pub Row : Type 0
  pub insert : Name → Bytes → Rows → Rows
  pub fetchone : Name → Rows → Option Row
  pub third : Row → Bytes
  pub fetchone-insert :
      (name : Name) (content : Bytes) (rows : Rows)
      → fetchone name rows ≡ none
      → (row : Row) × (fetchone name (insert name content rows) ≡ some row) × (third row ≡ content)
  pub fetchone-insert_ne :
      (name other : Name) (content : Bytes) (rows : Rows)
      → name ≢ other
      → fetchone other (insert name content rows) ≡ fetchone other rows

module _ {Name Bytes : Type 0} (logs : LogTable Name Bytes) where
  open logs use {Rows, Row, insert, fetchone, third}

  -- A connection sees its own pending rows; others see the committed ones.
  pub record Conn : Type 0 where
    pub committed : Rows
    pub pending : Rows
    pub is_open : Bool

  unfoldable pub connect : Rows → Conn
  connect rows = record { committed = rows; pending = rows; is_open = true }

  -- `finally: if conn is not None: conn.close()`. What was not committed is gone.
  unfoldable pub close : Option Conn → Option Conn
  close none = none
  close (some conn) = some (record conn { pending = conn.committed; is_open = false })

  -- What the calls of `write_blob` do: the bytes of the file (`none` if it cannot be read), and
  -- whether each call on the database succeeds.
  pub record WriteScript : Type 0 where
    pub file : Option Bytes
    pub cursor : Bool
    pub execute : Bool
    pub commit : Bool
    pub cursor_close : Bool

  -- The INSERT, `conn.commit()` and `cur.close()`. The second result says that an error was printed.
  unfoldable pub insert_steps : Bool → Bool → Bool → Name → Bytes → Conn → Conn × Bool
  insert_steps false commit cursor_close name content conn = (conn, true)
  insert_steps true false cursor_close name content conn =
      (record conn { pending = insert name content conn.pending }, true)
  insert_steps true true cursor_close name content conn =
      let rows = insert name content conn.pending in
      (record conn { committed = rows; pending = rows }, not cursor_close)

  unfoldable pub try_write : Option Bytes → Bool → WriteScript → Name → Conn → Conn × Bool
  unfolding insert_steps
  try_write none cursor script name conn = (conn, true)
  try_write (some content) false script name conn = (conn, true)
  try_write (some content) true script name conn =
      insert_steps script.execute script.commit script.cursor_close name content conn

  -- On `conn = None` the call `conn.cursor()` raises, and the error is printed.
  unfoldable pub write_blob : Option Conn → Name → WriteScript → Option Conn × Bool
  unfolding try_write close
  write_blob none name script = (none, true)
  write_blob (some conn) name script =
      let (conn', printed) = try_write script.file script.cursor script name conn in
      (close (some conn'), printed)

  pub record ReadScript : Type 0 where
    pub cursor : Bool
    pub execute : Bool
    pub fetch : Bool
    pub cursor_close : Bool

  -- `blob` keeps its value if only `cur.close()` fails.
  unfoldable pub try_read : ReadScript → Name → Conn → Option Row × Bool
  try_read script name conn =
      if script.cursor && script.execute && script.fetch
      then (fetchone name conn.pending, not script.cursor_close)
      else (none, true)

  unfoldable pub read_blob : Option Conn → Name → ReadScript → Option Row × Option Conn × Bool
  unfolding try_read close
  read_blob none name script = (none, none, true)
  read_blob (some conn) name script =
      let (blob, printed) = try_read script name conn in (blob, close (some conn), printed)

  -- An error of `connect`, of `open` or `write` on the file, and of `None[2]`.
  pub data MainError : Type 0 where
    operational_error os_error type_error : MainError

  -- What the calls of the program itself do: whether `connect` succeeds, what those of `read_blob` do,
  -- and whether `read/3d_modeling.ply` is opened and written.
  pub record MainScript : Type 0 where
    pub connected : Bool
    pub read : ReadScript
    pub opened : Bool
    pub written : Bool

  -- `file.write(blob[2])`, which is `None[2]` if nothing was read.
  unfoldable pub write_file : Bool → Option Row → Result MainError Bytes
  write_file written none = raised type_error
  write_file written (some row) = if written then ok (third row) else raised os_error

  -- The script at the end of the file: the bytes that it writes to `read/3d_modeling.ply`.
  unfoldable pub main : Rows → Name → MainScript → Result MainError Bytes
  unfolding connect read_blob write_file
  main rows name script =
      if script.connected
      then (if script.opened
          then write_file script.written (read_blob (some (connect rows)) name script.read).0
          else raised os_error)
      else raised operational_error
