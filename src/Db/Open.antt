-- ===== src/Db/Open.antt =====
-- `db_open`, `_db_alloc` and `_db_free` of c_code/apue/mydb/db.c.
pub mod Empty
use somenote.Common.{
  ℕ, zero, suc, ◌+◌, Bool, true, false, ◌&&◌, Option, none, some, List, [], ◌∷◌, ◌++◌, ◌==◌,
  if◌then◌else◌, length,
}
use somenote.Libc.Int.{ℤ, pos}
use somenote.Libc.File
use somenote.Libc.File.{File}
use somenote.Libc.Text.{codes}
use somenote.Libc.Decimal.{padded}
use somenote.Db.State.{
  ptr_sz, nhash_def, hash_off, newline, index_file, write_lock, un_lock, Counts, Db, Run, ok, Cmd,
  pure, ◌>>=◌, ◌>>◌, get, modify, lock_reg, write_idx,
}
use somenote.Db.Index.{db_rewind}

abbrev no_counts : Counts
no_counts = record {
  delok = 0;
  delerr = 0;
  fetchok = 0;
  fetcherr = 0;
  nextrec = 0;
  stor1 = 0;
  stor2 = 0;
  stor3 = 0;
  stor4 = 0;
  storerr = 0;
}

-- `calloc` clears the structure; the buffers are allocated and empty.
unfoldable pub db_alloc : List ℕ → List ℕ → List ℕ → Db
db_alloc pathname idx dat = record {
  idx = record { bytes = idx; offset = 0 };
  dat = record { bytes = dat; offset = 0 };
  idxbuf = [];
  datbuf = [];
  name = pathname ++ codes ".dat";
  idxoff = 0;
  idxlen = 0;
  datoff = 0;
  datlen = 0;
  ptrval = pos 0;
  ptroff = pos 0;
  chainoff = 0;
  hashoff = hash_off;
  nhash = nhash_def;
  counts = no_counts;
  errno = 0;
  locks = [];
}

-- NHASH_DEF + 1 pointers 0 and a newline: the `strcat` loop
pub zero_pointers : ℕ → List ℕ
zero_pointers zero = newline ∷ []
zero_pointers (suc n) = padded ptr_sz 0 ++ zero_pointers n

-- An index file that is created gets its pointers, if it is empty.
pub init_index : Cmd (Unit {0})
init_index = do
  lock_reg index_file write_lock 0 0
  db ← get
  (if length db.idx.bytes == 0 then write_idx (zero_pointers (nhash_def + 1)) else pure tt)
  lock_reg index_file un_lock 0 0

-- `creat` and `trunc` are O_CREAT and O_TRUNC in the flags, `idx` and `dat` the bytes of the files
-- as the two calls of `open` find them (`none` where one fails). The result is the handle or NULL.
pub db_open : List ℕ → (creat trunc : Bool) (idx dat : Option (List ℕ)) → Option (Run (Unit {0}))
db_open pathname creat trunc none dat = none
db_open pathname creat trunc (some idx) none = none
db_open pathname creat trunc (some idx) (some dat) =
    some
      ((do (if creat && trunc then init_index else pure tt); db_rewind) (db_alloc pathname idx dat))
