-- ===== src/Db/State.antt =====
-- The `DB` structure of c_code/apue/mydb/db.c with the two files that it has open, and the effects
-- of its functions: they change it, and may end the process by `err_dump` or `err_quit`.
use Prim.Native.String.{String}
use somenote.Common.{ℕ, Bool, true, false, List, ◌∷◌, Option, none, some}
use somenote.Libc.Int.{ℤ}
use somenote.Libc.File
use somenote.Libc.File.{File}

-- The sizes of db.c and apue_db.h.
abbrev pub idxlen_sz : ℕ
idxlen_sz = 4

abbrev pub sep : ℕ
sep = b':'

abbrev pub space : ℕ
space = b' '

abbrev pub newline : ℕ
newline = 10

abbrev pub ptr_sz : ℕ
ptr_sz = 7

abbrev pub ptr_max : ℕ
ptr_max = 99999

abbrev pub nhash_def : ℕ
nhash_def = 137

abbrev pub free_off : ℕ
free_off = 0

abbrev pub hash_off : ℕ
hash_off = ptr_sz

abbrev pub idxlen_min : ℕ
idxlen_min = 6

abbrev pub idxlen_max : ℕ
idxlen_max = 1024

abbrev pub datlen_min : ℕ
datlen_min = 2

abbrev pub datlen_max : ℕ
datlen_max = 1024

-- The `fcntl` calls of `lock_reg`, which wait until the region is free. `len` 0 is to the end.
pub data Which : Type 0 where
  index_file data_file : Which

pub data LockType : Type 0 where
  read_lock write_lock un_lock : LockType

pub record LockCall : Type 0 where
  pub file : Which
  pub type : LockType
  pub start : ℕ
  pub len : ℕ

-- `cnt_delok` to `cnt_storerr`
pub record Counts : Type 0 where
  pub delok : ℕ
  pub delerr : ℕ
  pub fetchok : ℕ
  pub fetcherr : ℕ
  pub nextrec : ℕ
  pub stor1 : ℕ
  pub stor2 : ℕ
  pub stor3 : ℕ
  pub stor4 : ℕ
  pub storerr : ℕ

-- The buffers hold the bytes that were put there; what lies behind is never read. `locks` lists the
-- calls of `lock_reg`, the last one first.
pub record Db : Type 0 where
  pub idx : File
  pub dat : File
  pub idxbuf : List ℕ
  pub datbuf : List ℕ
  pub name : List ℕ
  pub idxoff : ℕ
  pub idxlen : ℕ
  pub datoff : ℕ
  pub datlen : ℕ
  pub ptrval : ℤ
  pub ptroff : ℤ
  pub chainoff : ℕ
  pub hashoff : ℕ
  pub nhash : ℕ
  pub counts : Counts
  pub errno : ℕ
  pub locks : List LockCall

-- How a call ends: it returns, `err_dump` or `err_quit` ends the process with a message, a buffer
-- overflows, or a loop uses up the rounds that the model gives it.
pub data Run (A : Type 0) : Type 0 where
  ok : A → Db → Run A
  dump : String → Run A
  quit : String → Run A
  overflow : Run A
  out_of_fuel : Run A

abbrev pub Cmd : Type 0 → Type 0
Cmd A = Db → Run A

abbrev pub pure : {A : Type 0} → A → Cmd A
pure a db = ok a db

abbrev pub and_then : {A B : Type 0} → Run A → (A → Cmd B) → Run B
and_then (ok a db) f = f a db
and_then (dump m) f = dump m
and_then (quit m) f = quit m
and_then overflow f = overflow
and_then out_of_fuel f = out_of_fuel

infixl 5 ◌>>=◌ ◌>>◌
abbrev pub ◌>>=◌ : {A B : Type 0} → Cmd A → (A → Cmd B) → Cmd B
◌>>=◌ m f db = and_then (m db) f

abbrev pub ◌>>◌ : {B : Type 0} → Cmd (Unit {0}) → Cmd B → Cmd B
◌>>◌ m k db = and_then (m db) (λ _. k)

abbrev pub get : Cmd Db
get db = ok db db

abbrev pub modify : (Db → Db) → Cmd (Unit {0})
modify f db = ok tt (f db)

-- `if(!b) err_dump(m)`
abbrev pub require : Bool → String → Cmd (Unit {0})
require true m db = ok tt db
require false m db = dump m

-- Bytes that a buffer has room for.
abbrev pub fits : Bool → Cmd (Unit {0})
fits true db = ok tt db
fits false db = overflow

-- A pointer that must not be NULL.
abbrev pub require_some : {A : Type 0} → Option A → String → Cmd A
require_some none m db = dump m
require_some (some a) m db = ok a db

abbrev pub lock_reg : Which → LockType → ℕ → ℕ → Cmd (Unit {0})
lock_reg w t start len =
    modify
      λ db. record db { locks = record { file = w; type = t; start = start; len = len } ∷ db.locks }

abbrev pub count : (Counts → Counts) → Cmd (Unit {0})
count f = modify λ db. record db { counts = f db.counts }

-- `lseek(fd, offset, SEEK_SET)`, which fails at a negative offset
abbrev pub seek_idx : ℤ → String → Cmd ℕ
seek_idx (ℤ.pos off) m db = ok off (record db { idx = File.seek_set off db.idx })
seek_idx (ℤ.negsuc n) m db = dump m

abbrev pub read_idx : ℕ → Cmd (List ℕ)
read_idx n db = let (got, f) = File.read n db.idx in ok got (record db { idx = f })

abbrev pub write_idx : List ℕ → Cmd (Unit {0})
write_idx bs = modify λ db. record db { idx = File.write bs db.idx }

-- Where a record is written: at an offset, or at the end of the file.
pub data Whence : Type 0 where
  seek_set : ℕ → Whence
  seek_end : Whence
