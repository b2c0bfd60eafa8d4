-- ===== src/Db/Data.antt =====
-- Records of the data file: `_db_readdat` and `_db_writedat` of c_code/apue/mydb/db.c.
pub mod RoundTrip
use somenote.Common.{
  ℕ, suc, ◌+◌, ◌-◌, Bool, true, false, List, [], ◌∷◌, ◌++◌, ◌==◌, leb, if◌then◌else◌, length,
  get_or, set,
}
use somenote.Libc.File
use somenote.Libc.Text.{text, strlen}
use somenote.Db.State.{
  newline, data_file, write_lock, un_lock, Db, ok, Cmd, pure, ◌>>=◌, ◌>>◌, get, modify, require,
  fits, datlen_max, lock_reg, Whence, seek_set, seek_end,
}

abbrev read_dat : ℕ → Cmd (List ℕ)
read_dat n db = let (got, f) = File.read n db.dat in ok got (record db { dat = f })

-- The data of the record that `datoff` and `datlen` describe, its newline made a null byte. `datbuf`
-- has DATLEN_MAX + 2 bytes, and what is read beyond them overflows it.
pub readdat : Cmd (List ℕ)
readdat = do
  modify λ db. record db { dat = File.seek_set db.datoff db.dat }
  db ← get
  got ← read_dat db.datlen
  fits (leb (length got) (datlen_max + 2))
  require (length got == db.datlen) "_db_readdat:read error"
  require (get_or got (db.datlen - 1) 0 == newline) "_db_readdat:missing newline"
  modify λ db'. record db' { datbuf = set got (db.datlen - 1) 0 }
  pure (set got (db.datlen - 1) 0)

-- The data file is locked while a record is appended.
abbrev lock_data : Whence → Bool → Cmd (Unit {0})
lock_data (seek_set off) locking = pure tt
lock_data seek_end locking = lock_reg data_file (if locking then write_lock else un_lock) 0 0

abbrev seek_dat : Whence → Cmd (Unit {0})
seek_dat (seek_set off) = modify λ db. record db { dat = File.seek_set off db.dat; datoff = off }
seek_dat seek_end =
    modify λ db. record db { dat = File.seek_end db.dat; datoff = length db.dat.bytes }

pub writedat : List ℕ → Whence → Cmd (Unit {0})
writedat line whence = do
  lock_data whence true
  seek_dat whence
  modify λ db. record db {
    datlen = strlen line + 1;
    dat = File.write (text line ++ newline ∷ []) db.dat;
  }
  lock_data whence false
