-- ===== src/Db/Data/RoundTrip.antt =====
-- Writing a record of the data file, and reading it back.
use somenote.Common.{
  ℕ, ◌+◌, ◌-◌, ◌≡◌, ◌≤◌, le→leb, refl, ap, ◌∙◌, List, [], ◌∷◌, ◌++◌, arith, eq→==, length,
  length-append, get_or-append, set-append,
}
use somenote.Libc.File
use somenote.Libc.File.{slice, overwrite, slice-overwrite}
use somenote.Libc.Text.{text, strlen, NoNull, text_self}
use somenote.Db.State.{
  newline, data_file, write_lock, un_lock, Db, ok, datlen_max, LockCall, ◌>>=◌, Whence, seek_set,
  seek_end,
}
use somenote.Db.Data.{readdat, writedat}

abbrev dat_place : Whence → Db → ℕ
dat_place (seek_set off) db = off
dat_place seek_end db = length db.dat.bytes

abbrev pub dat_locks : Whence → Db → List LockCall
dat_locks (seek_set off) db = db.locks
dat_locks seek_end db =
    record { file = data_file; type = un_lock; start = 0; len = 0 }
    ∷ record { file = data_file; type = write_lock; start = 0; len = 0 }
    ∷ db.locks

abbrev pub after_writedat : List ℕ → Whence → Db → Db
after_writedat line whence db = record db {
  dat = record {
    bytes = overwrite db.dat.bytes (dat_place whence db) (text line ++ newline ∷ []);
    offset = dat_place whence db + length (text line ++ newline ∷ []);
  };
  datoff = dat_place whence db;
  datlen = strlen line + 1;
  locks = dat_locks whence db;
}

writedat_lem :
    (line : List ℕ) (whence : Whence) (db : Db)
    → writedat line whence db ≡ ok tt (after_writedat line whence db)
unfolding writedat File.write File.seek_set File.seek_end
writedat_lem line (seek_set off) db = refl
writedat_lem line seek_end db = refl

-- The text stands in the data file, with its newline.
abbrev pub DataAt : List ℕ → ℕ → List ℕ → Type 0
DataAt f off line = slice f off (length line + 1) ≡ line ++ newline ∷ []

pub DataAt-overwrite :
    (f : List ℕ) (off : ℕ) (line : List ℕ)
    → DataAt (overwrite f off (line ++ newline ∷ [])) off line
DataAt-overwrite f off line =
    let n : length line + 1 ≡ length (line ++ newline ∷ []) =
      omega (arith, length-append line (newline ∷ [])) in
    rw n (slice-overwrite f off (line ++ newline ∷ []))

abbrev pub after_readdat : List ℕ → Db → Db
after_readdat line db = record db {
  dat = record { bytes = db.dat.bytes; offset = db.datoff + db.datlen };
  datbuf = line ++ 0 ∷ [];
}

-- `_db_readdat` at a record that stands in the file.
pub readdat-DataAt :
    (line : List ℕ) (db : Db)
    → DataAt db.dat.bytes db.datoff line
    → db.datlen ≡ length line + 1
    → length line + 1 ≤ datlen_max + 2
    → readdat db ≡ ok (line ++ 0 ∷ []) (after_readdat line db)
unfolding readdat File.seek_set File.read
readdat-DataAt line db at n small =
    let last : length line + 1 - 1 ≡ length line = omega arith in
    let len : length (line ++ newline ∷ []) ≡ length line + 1 =
      omega (arith, length-append line (newline ∷ [])) in
    rw (
      n,
      at,
      len,
      le→leb (length line + 1) (datlen_max + 2) small,
      last,
      eq→== (length line + 1) (length line + 1) refl,
      get_or-append line [] newline 0,
      set-append line [] newline 0,
    )

strlen_self : (line : List ℕ) → NoNull line → strlen line + 1 ≡ length line + 1
unfolding strlen
strlen_self line h = ap (λ t. length t + 1) (text_self line h)

-- What `_db_writedat` wrote stands there.
DataAt-writedat :
    (line : List ℕ) (whence : Whence) (db : Db)
    → NoNull line
    → DataAt (after_writedat line whence db).dat.bytes (dat_place whence db) line
DataAt-writedat line whence db h =
    rw (text_self line h) (DataAt-overwrite db.dat.bytes (dat_place whence db) line)

-- For a text without null bytes of no more than DATLEN_MAX + 1 bytes, _db_readdat behind
-- _db_writedat, at an offset or at the end of the file, returns the text and a null byte.
pub readdat-writedat :
    (line : List ℕ) (whence : Whence) (db : Db)
    → NoNull line
    → length line + 1 ≤ datlen_max + 2
    → (writedat line whence >>= λ _. readdat) db
      ≡ ok (line ++ 0 ∷ []) (after_readdat line (after_writedat line whence db))
readdat-writedat line whence db h small = rw (writedat_lem line whence db) (
    readdat-DataAt line (after_writedat line whence db) (DataAt-writedat line whence db h)
      (strlen_self line h) small)

-- `_db_writedat`, in the words of the text that it writes.
pub writedat_as :
    (buf line : List ℕ) (n : ℕ) (whence : Whence) (db : Db)
    → text buf ≡ line
    → length line + 1 ≡ n
    → writedat buf whence db
      ≡ ok tt (record db {
        dat = record {
          bytes = overwrite db.dat.bytes (dat_place whence db) (line ++ newline ∷ []);
          offset = dat_place whence db + length (line ++ newline ∷ []);
        };
        datoff = dat_place whence db;
        datlen = n;
        locks = dat_locks whence db;
      })
unfolding strlen
writedat_as buf line n whence db h g = writedat_lem buf whence db ∙ rw (h, g)
