-- ===== src/Db/Update/Dodelete.antt =====
-- A run of `_db_dodelete`.
use somenote.Common.{ℕ, ◌+◌, ◌-◌, ◌≤◌, ◌≡◌, List, [], ◌∷◌, ◌++◌, length, replicate, drop}
use somenote.Libc.Int.{pos}
use somenote.Libc.File.{overwrite}
use somenote.Libc.Text.{strlen}
use somenote.Libc.Decimal.{padded}
use somenote.Db.State.{
  ptr_sz, ptr_max, free_off, newline, space, index_file, write_lock, un_lock, Db, ok, LockCall,
  seek_set,
}
use somenote.Db.Index.Entry.{Entry, IsEntry, encode, line, split_text}
use somenote.Db.Index.Pointer.{PtrAt, with_idx, readptr-PtrAt, writeptr-ok}
use somenote.Db.Index.Write.{writeidx_as, after_entry}
use somenote.Db.Data.RoundTrip.{writedat_as}
use somenote.Db.Search.Found.{at_link}
use somenote.Db.Update.{dodelete, blank_buffers}
use somenote.Db.Update.Blank.{
  blank, blank_line, blank-IsEntry, text-blank_data, text-blank_key, length-blank_line,
}

-- The three writes into the index file: the blank record, the head of the free list, and the
-- pointer that led to the record.
abbrev pub idx_deleted : List ℕ → (o q free : ℕ) → Entry → List ℕ
idx_deleted f o q free d =
    overwrite (overwrite (overwrite f o (encode (blank d free))) free_off (padded ptr_sz o)) q
      (padded ptr_sz d.next)

abbrev pub dat_deleted : List ℕ → Entry → List ℕ
dat_deleted dat d = overwrite dat d.datoff (blank_line d.datlen ++ newline ∷ [])

abbrev free_lock : LockCall
free_lock = record { file = index_file; type = write_lock; start = free_off; len = 1 }

abbrev free_unlock : LockCall
free_unlock = record { file = index_file; type = un_lock; start = free_off; len = 1 }

abbrev pub after_dodelete : (o q free : ℕ) → Entry → Db → Db
after_dodelete o q free d s = record s {
  idx = record { bytes = idx_deleted s.idx.bytes o q free d; offset = q + ptr_sz };
  dat = record {
    bytes = dat_deleted s.dat.bytes d;
    offset = d.datoff + length (blank_line d.datlen ++ newline ∷ []);
  };
  idxbuf = line (blank d free) ++ 0 ∷ [];
  datbuf = replicate (d.datlen - 1) space ++ 0 ∷ drop d.datlen s.datbuf;
  idxoff = o;
  ptrval = pos free;
  locks = free_unlock ∷ free_lock ∷ s.locks;
}

-- At a valid record that has been read, at an offset up to PTR_MAX and with a free list whose
-- first pointer can be read, _db_dodelete returns; it has written spaces over the data and
-- the key, linked the record in front of the free list, led the pointer that led to the
-- record to its successor, and locked and unlocked the free list.
pub dodelete_lem :
    (s : Db) (o q free : ℕ) (d : Entry)
    → IsEntry d
    → o ≤ ptr_max
    → PtrAt s.idx.bytes free_off free
    → dodelete (at_link s (pos q) (o, d))
      ≡ ok tt (after_dodelete o q free d (at_link s (pos q) (o, d)))
unfolding dodelete
dodelete_lem s o q free d v om fp = rw (
  writedat_as (replicate (d.datlen - 1) space ++ 0 ∷ drop d.datlen s.datbuf) (blank_line d.datlen)
      d.datlen (seek_set d.datoff) _ (text-blank_data d.datlen (drop d.datlen s.datbuf))
      (length-blank_line d.datlen v.datlen_min),
  readptr-PtrAt free_off free s₁ fp,
  writeidx_as
      (replicate (strlen (split_text d)) space ++ drop (strlen (split_text d)) (split_text d))
      (replicate (length d.key) space) free (seek_set o) s₂ (text-blank_key d v.key_null)
      (blank-IsEntry d free fp.0 v),
  writeptr-ok free_off o (after_entry (blank d free) (seek_set o) s₂) om,
  writeptr-ok q d.next s₃ v.next_max,
)
  where
    s₁ : Db
    s₁ = record (blank_buffers (at_link s (pos q) (o, d))) {
      dat = record {
        bytes = dat_deleted s.dat.bytes d;
        offset = d.datoff + length (blank_line d.datlen ++ newline ∷ []);
      };
      datoff = d.datoff;
      datlen = d.datlen;
      locks = free_lock ∷ s.locks;
    }

    s₂ : Db
    s₂ = with_idx s.idx.bytes (free_off + ptr_sz) s₁

    s₃ : Db
    s₃ =
        with_idx
          (overwrite (overwrite s.idx.bytes o (encode (blank d free))) free_off (padded ptr_sz o))
          (free_off + ptr_sz) (after_entry (blank d free) (seek_set o) s₂)
