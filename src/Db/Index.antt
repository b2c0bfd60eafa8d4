-- ===== src/Db/Index.antt =====
-- Pointers and records of the index file: `_db_readptr`, `_db_writeptr`, `_db_readidx` and
-- `_db_writeidx` of c_code/apue/mydb/db.c, and `db_rewind`.
pub mod Pointer
pub mod Entry
pub mod Record
pub mod Write
use Prim.Native.String.{String}
use somenote.Common.{
  ℕ, suc, ◌+◌, ◌-◌, ◌*◌, Bool, true, false, ◌&&◌, not, Option, none, some, List, [], ◌∷◌, ◌++◌,
  ◌==◌, leb, if◌then◌else◌, length, get_or, set, take, drop,
}
use somenote.Libc.Int.{ℤ, pos, negsuc, is_zero}
use somenote.Libc.File
use somenote.Libc.Text.{text, strlen, strchr}
use somenote.Libc.Decimal.{decimal, padded, atol}
use somenote.Db.State.{
  ptr_sz, ptr_max, idxlen_sz, idxlen_min, idxlen_max, datlen_max, sep, newline, index_file,
  write_lock, un_lock, Db, Run, ok, dump, quit, overflow, Cmd, pure, ◌>>=◌, ◌>>◌, get, modify,
  require, require_some, lock_reg, seek_idx, read_idx, write_idx, Whence, seek_set, seek_end,
}

pub readptr : ℤ → Cmd ℤ
readptr offset = do
  _ ← seek_idx offset "_db_readptr:lseek error"
  asciiptr ← read_idx ptr_sz
  require (length asciiptr == ptr_sz) "_db_readptr:read error"
  pure (atol asciiptr)

-- A pointer that may be written: from 0 to PTR_MAX.
abbrev check_ptr : String → ℤ → Cmd ℕ
check_ptr m (pos n) db = if leb n ptr_max then pure n db else quit m
check_ptr m (negsuc n) db = quit m

pub writeptr : ℤ → ℤ → Cmd (Unit {0})
writeptr offset ptrval = do
  n ← check_ptr "_db_writeptr:ptrval invalid" ptrval
  _ ← seek_idx offset "_db_writeptr:lseek error"
  write_idx (padded ptr_sz n)

-- A length that `_db_readidx` accepts. A negative one is a huge `size_t`.
abbrev check_idxlen : ℤ → Cmd ℕ
check_idxlen (pos n) db =
    if leb idxlen_min n && leb n idxlen_max then pure n db else dump "_db_readidx:invalid length"
check_idxlen (negsuc n) db = dump "_db_readidx:invalid length"

abbrev check_datoff : ℤ → Cmd ℕ
check_datoff (pos n) db = pure n db
check_datoff (negsuc n) db = dump "_db_readidx:starting offset < 0"

abbrev check_datlen : ℤ → Cmd ℕ
check_datlen (pos n) db =
    if leb 1 n && leb n datlen_max then pure n db else dump "_db_readidx:invalid length"
check_datlen (negsuc n) db = dump "_db_readidx:invalid length"

abbrev is_none : {A : Type 0} → Option A → Bool
is_none none = true
is_none (some a) = false

-- The text of a record, its newline already replaced by a null byte: the two separators become null
-- bytes too, `ptr1` and `ptr2` are the texts behind them.
pub parse_record : List ℕ → Cmd (Unit {0})
parse_record buf = do
  i ← require_some (strchr buf sep) "_db_readidx:missing first separator"
  let ptr1 = drop (suc i) buf
  j ← require_some (strchr ptr1 sep) "_db_readidx:missing second separator"
  let ptr2 = drop (suc j) ptr1
  require (is_none (strchr ptr2 sep)) "_db_readidx:too many separator"
  datoff ← check_datoff (atol (set ptr1 j 0))
  datlen ← check_datlen (atol ptr2)
  modify
      λ db. record db { idxbuf = set (set buf i 0) (suc i + j) 0; datoff = datoff; datlen = datlen }

-- The record behind a pointer and a length that were read in full.
pub readidx_body : List ℕ → Cmd ℤ
readidx_body header = do
  modify λ db. record db { ptrval = atol (take ptr_sz header) }
  n ← check_idxlen (atol (drop ptr_sz header))
  modify λ db. record db { idxlen = n }
  buf ← read_idx n
  require (length buf == n) "_db_readidx:readerror of index record"
  require (get_or buf (n - 1) 0 == newline) "_db_readidx:missing newline"
  parse_record (set buf (n - 1) 0)
  db ← get
  pure db.ptrval

-- `lseek` to the record; at offset 0, from where the file stands
abbrev seek_record : ℤ → Cmd (Unit {0})
seek_record offset = do
  db ← get
  idxoff ← seek_idx (if is_zero offset then pos db.idx.offset else offset) "_db_readidx:lseek error"
  modify λ db'. record db' { idxoff = idxoff }

-- The record at an offset; at 0, the record where the file stands, or -1 at the end of the file.
pub readidx : ℤ → Cmd ℤ
readidx offset = do
  seek_record offset
  header ← read_idx (ptr_sz + idxlen_sz)
  if length header == ptr_sz + idxlen_sz
      then readidx_body header
      else if length header == 0 && is_zero offset
      then pure (negsuc 0)
      else (λ _. dump "_db_readidx:readv error of index record")

-- `sprintf(db->idxbuf, "%s%c%lld%c%ld\n", ...)`: the text of a record
unfoldable pub record_text : List ℕ → ℕ → ℕ → List ℕ
record_text key datoff datlen =
    text key ++ sep ∷ (decimal datoff ++ sep ∷ (decimal datlen ++ newline ∷ []))

-- The buffer has IDXLEN_MAX + 2 bytes, and `sprintf` also writes the null byte.
pub fill_idxbuf : List ℕ → Cmd ℕ
fill_idxbuf line db =
    if leb (length line) (idxlen_max + 1)
    then pure (length line) (record db { idxbuf = line ++ 0 ∷ [] })
    else overflow

-- The region behind the pointers and the newline is locked while a record is appended.
abbrev lock_records : Whence → Bool → Cmd (Unit {0})
lock_records (seek_set off) locking = pure tt
lock_records seek_end locking = do
  db ← get
  lock_reg index_file (if locking then write_lock else un_lock) ((db.nhash + 1) * ptr_sz + 1) 0

abbrev seek_for_write : Whence → Cmd (Unit {0})
seek_for_write (seek_set off) =
    modify λ db. record db { idx = File.seek_set off db.idx; idxoff = off }
seek_for_write seek_end =
    modify λ db. record db { idx = File.seek_end db.idx; idxoff = length db.idx.bytes }

pub writeidx : List ℕ → Whence → ℤ → Cmd (Unit {0})
writeidx key whence ptrval = do
  modify λ db. record db { ptrval = ptrval }
  next ← check_ptr "_db_writeidx:invalid ptr" ptrval
  db ← get
  let line = record_text key db.datoff db.datlen
  len ← fill_idxbuf line
  require (leb idxlen_min len && leb len idxlen_max) "_db_writeidx:invalid length"
  lock_records whence true
  seek_for_write whence
  write_idx (padded ptr_sz next ++ padded idxlen_sz len ++ line)
  lock_records whence false

-- The file offset of the index file goes to the first record.
unfoldable pub db_rewind : Cmd (Unit {0})
db_rewind db =
    let first = (db.nhash + 1) * ptr_sz + 1 in
    ok tt (record db { idx = File.seek_set first db.idx; idxoff = first })
