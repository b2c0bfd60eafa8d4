-- ===== src/Db/Update.antt =====
-- `db_delete` and `db_store` of c_code/apue/mydb/db.c, with `_db_dodelete`.
pub mod Blank
pub mod Dodelete
pub mod Deleted
pub mod Forget
pub mod Delete
pub mod Inserts
pub mod Append
pub mod Reuse
pub mod Over
pub mod Stored
pub mod Old
pub mod Store
use somenote.Common.{
  ℕ, zero, suc, ◌+◌, ◌-◌, Bool, true, false, ◌&&◌, List, [], ◌∷◌, ◌++◌, ◌==◌, leb, if◌then◌else◌,
  replicate, drop,
}
use somenote.Libc.Int.{ℤ, pos, negsuc}
use somenote.Libc.Text.{strlen}
use somenote.Db.State.{
  space, free_off, datlen_min, datlen_max, index_file, write_lock, un_lock, Db, ok, Cmd, pure,
  ◌>>=◌, ◌>>◌, get, modify, require, lock_reg, count, Whence, seek_set, seek_end,
}
use somenote.Db.Index.{readptr, writeptr, writeidx}
use somenote.Db.Data.{writedat}
use somenote.Db.Search.{find_and_lock, findfree}

-- The buffers of a record that is deleted: spaces for its data and for its key.
abbrev pub blank_buffers : Db → Db
blank_buffers db = record db {
  datbuf = replicate (db.datlen - 1) space ++ 0 ∷ drop db.datlen db.datbuf;
  idxbuf = replicate (strlen db.idxbuf) space ++ drop (strlen db.idxbuf) db.idxbuf;
}

-- The record that was found last becomes the first of the free list. The key that is written is the
-- text of `idxbuf`, which the `sprintf` of `_db_writeidx` copies onto itself.
pub dodelete : Cmd (Unit {0})
dodelete = do
  modify blank_buffers
  lock_reg index_file write_lock free_off 1
  db ← get
  writedat db.datbuf (seek_set db.datoff)
  freeptr ← readptr (pos free_off)
  db₁ ← get
  let saveptr = db₁.ptrval
  writeidx db₁.idxbuf (seek_set db₁.idxoff) freeptr
  db₂ ← get
  writeptr (pos free_off) (pos db₂.idxoff)
  writeptr db₂.ptroff saveptr
  lock_reg index_file un_lock free_off 1

pub delete_found : Cmd ℤ
delete_found = do dodelete; count (λ c. record c { delok = c.delok + 1 }); pure (pos 0)

pub delete_missing : Cmd ℤ
delete_missing = do count (λ c. record c { delerr = c.delerr + 1 }); pure (negsuc 0)

-- 0, or -1 where the key has no record.
pub db_delete : ℕ → List ℕ → Cmd ℤ
db_delete f key = do
  found ← find_and_lock f key true
  rc ← if found then delete_found else delete_missing
  db ← get
  lock_reg index_file un_lock db.chainoff 1
  pure rc

-- The flags of `db_store`. Any other value is refused.
pub data Flag : Type 0 where
  db_insert db_replace db_store_either : Flag
  other : ℕ → Flag

-- A record behind the last one, at the head of the chain: the data, the index record, the pointer.
pub append_record : List ℕ → List ℕ → ℤ → Cmd (Unit {0})
append_record key line ptrval = do
  writedat line seek_end
  writeidx key seek_end ptrval
  db ← get
  writeptr (pos db.chainoff) (pos db.idxoff)

-- The free record that was found, at the head of the chain.
unfoldable pub reuse_record : List ℕ → List ℕ → ℤ → Cmd (Unit {0})
reuse_record key line ptrval = do
  db ← get
  writedat line (seek_set db.datoff)
  db₁ ← get
  writeidx key (seek_set db₁.idxoff) ptrval
  db₂ ← get
  writeptr (pos db₂.chainoff) (pos db₂.idxoff)

-- `rc = -1` or `rc = 1` of a store that changes nothing, with `errno`.
pub store_missing : Cmd ℤ
store_missing = do
  count (λ c. record c { storerr = c.storerr + 1 })
  modify (λ db. record db { errno = 2 })
  pure (negsuc 0)

pub store_exists : Cmd ℤ
store_exists = do count (λ c. record c { storerr = c.storerr + 1 }); pure (pos 1)

pub store_append : List ℕ → List ℕ → ℤ → Cmd (Unit {0})
store_append key line ptrval = do
  append_record key line ptrval
  count (λ c. record c { stor1 = c.stor1 + 1 })

pub store_reuse : List ℕ → List ℕ → ℤ → Cmd (Unit {0})
store_reuse key line ptrval = do
  reuse_record key line ptrval
  count (λ c. record c { stor2 = c.stor2 + 1 })

-- The key has no record yet: a free record of the same lengths, or a new one.
pub store_new : ℕ → List ℕ → List ℕ → Cmd ℤ
store_new f key line = do
  db ← get
  ptrval ← readptr (pos db.chainoff)
  free ← findfree f (strlen key) (strlen line + 1)
  (if free then store_reuse key line ptrval else store_append key line ptrval)
  pure (pos 0)

-- The record is freed, and the data goes into a new one.
pub store_longer : List ℕ → List ℕ → Cmd (Unit {0})
store_longer key line = do
  dodelete
  db ← get
  ptrval ← readptr (pos db.chainoff)
  append_record key line ptrval
  count (λ c. record c { stor3 = c.stor3 + 1 })

pub store_over : List ℕ → Cmd (Unit {0})
store_over line = do
  db ← get
  writedat line (seek_set db.datoff)
  count (λ c. record c { stor4 = c.stor4 + 1 })

-- The key has the record that was found.
pub store_old : List ℕ → List ℕ → Cmd ℤ
store_old key line = do
  db ← get
  (if strlen line + 1 == db.datlen then store_over line else store_longer key line)
  pure (pos 0)

-- What follows the search, by the flag.
pub store_found : ℕ → List ℕ → List ℕ → Flag → Bool → Cmd ℤ
store_found f key line db_replace false = store_missing
store_found f key line db_insert false = store_new f key line
store_found f key line db_store_either false = store_new f key line
store_found f key line (other n) false = store_new f key line
store_found f key line db_insert true = store_exists
store_found f key line db_replace true = store_old key line
store_found f key line db_store_either true = store_old key line
store_found f key line (other n) true = store_old key line

abbrev pub is_other : Flag → Bool
is_other (other n) = true
is_other db_insert = false
is_other db_replace = false
is_other db_store_either = false

-- A store behind the test of the flag.
pub store_checked : ℕ → List ℕ → List ℕ → Flag → Cmd ℤ
store_checked f key line flag = do
  require (leb datlen_min (strlen line + 1) && leb (strlen line + 1) datlen_max)
      "db_store:invalid length of data"
  found ← find_and_lock f key true
  rc ← store_found f key line flag found
  db ← get
  lock_reg index_file un_lock db.chainoff 1
  pure rc

-- 0; 1 where an insertion finds the key; -1 for a wrong flag, or where a replacement does not.
pub db_store : ℕ → List ℕ → List ℕ → Flag → Cmd ℤ
db_store f key line flag =
    if is_other flag
    then (do modify (λ db. record db { errno = 22 }); pure (negsuc 0))
    else store_checked f key line flag
