-- ===== src/Db/Index/Write.antt =====
-- Writing a record of the index file.
use somenote.Common.{
  ℕ, ◌+◌, ◌*◌, ◌≤◌, ◌<◌, ◌≡◌, ap, ◌∙◌, List, [], ◌∷◌, ◌++◌, arith, le→leb, length,
}
use somenote.Libc.Int.{pos}
use somenote.Libc.File
use somenote.Libc.File.{overwrite}
use somenote.Db.State.{
  ptr_sz, ptr_max, idxlen_sz, idxlen_min, idxlen_max, index_file, write_lock, un_lock, Db, ok,
  LockCall, ◌>>=◌, Whence, seek_set, seek_end,
}
use somenote.Libc.Text.{text, NoNull, text_self}
use somenote.Libc.Decimal.{padded}
use somenote.Db.Index.{writeidx, readidx, fill_idxbuf, record_text}
use somenote.Db.Index.Entry.{Entry, IsEntry, line, encode, EntryAt-overwrite}
use somenote.Db.Index.Record.{readidx-EntryAt, after_readidx}

-- The record that `_db_writeidx` writes.
abbrev pub new_entry : List ℕ → ℕ → Db → Entry
new_entry key next db = record { next = next; key = key; datoff = db.datoff; datlen = db.datlen }

-- Where it is written.
abbrev idx_place : Whence → Db → ℕ
idx_place (seek_set off) db = off
idx_place seek_end db = length db.idx.bytes

-- The calls of `lock_reg` around an appended record.
abbrev append_locks : Whence → Db → List LockCall
append_locks (seek_set off) db = db.locks
append_locks seek_end db =
    record { file = index_file; type = un_lock; start = (db.nhash + 1) * ptr_sz + 1; len = 0 }
    ∷ record { file = index_file; type = write_lock; start = (db.nhash + 1) * ptr_sz + 1; len = 0 }
    ∷ db.locks

abbrev pub after_writeidx : List ℕ → Whence → ℕ → Db → Db
after_writeidx key whence next db = record db {
  idx = record {
    bytes = overwrite db.idx.bytes (idx_place whence db) (encode (new_entry key next db));
    offset = idx_place whence db + length (encode (new_entry key next db));
  };
  idxbuf = line (new_entry key next db) ++ 0 ∷ [];
  idxoff = idx_place whence db;
  ptrval = pos next;
  locks = append_locks whence db;
}

-- A record that fits is written.
writeidx-ok :
    (key : List ℕ) (whence : Whence) (next : ℕ) (db : Db)
    → next ≤ ptr_max
    → idxlen_min ≤ length (line (new_entry key next db))
    → length (line (new_entry key next db)) ≤ idxlen_max
    → writeidx key whence (pos next) db ≡ ok tt (after_writeidx key whence next db)
unfolding writeidx fill_idxbuf File.write File.seek_set File.seek_end
writeidx-ok key (seek_set off) next db h lo hi = rw (
  le→leb next ptr_max h,
  le→leb (length (line (new_entry key next db))) (idxlen_max + 1) (omega arith),
  le→leb idxlen_min (length (line (new_entry key next db))) lo,
  le→leb (length (line (new_entry key next db))) idxlen_max hi,
)
writeidx-ok key seek_end next db h lo hi = rw (
  le→leb next ptr_max h,
  le→leb (length (line (new_entry key next db))) (idxlen_max + 1) (omega arith),
  le→leb idxlen_min (length (line (new_entry key next db))) lo,
  le→leb (length (line (new_entry key next db))) idxlen_max hi,
)

-- For a record that is valid and written at an offset that is not 0, _db_readidx behind
-- _db_writeidx returns the pointer that was written and finds the key, the data offset and
-- the data length.
pub readidx-writeidx :
    (key : List ℕ) (whence : Whence) (next : ℕ) (db : Db)
    → IsEntry (new_entry key next db)
    → 0 < idx_place whence db
    → (writeidx key whence (pos next) >>= λ _. readidx (pos (idx_place whence db))) db
      ≡ ok (pos next) (
          after_readidx
            (idx_place whence db)
            (new_entry key next db)
            (after_writeidx key whence next db))
readidx-writeidx key whence next db v h =
    rw (writeidx-ok key whence next db v.next_max v.line_min v.line_max) (
      readidx-EntryAt (idx_place whence db) (new_entry key next db)
        (after_writeidx key whence next db) h
        (EntryAt-overwrite db.idx.bytes (idx_place whence db) (new_entry key next db) v))

-- The record with a text for its key.
abbrev entry_of : List ℕ → ℕ → Db → Entry
entry_of key next db = record { next = next; key = key; datoff = db.datoff; datlen = db.datlen }

-- The state after a record is written.
abbrev pub after_entry : Entry → Whence → Db → Db
after_entry e whence db = record db {
  idx = record {
    bytes = overwrite db.idx.bytes (idx_place whence db) (encode e);
    offset = idx_place whence db + length (encode e);
  };
  idxbuf = line e ++ 0 ∷ [];
  idxoff = idx_place whence db;
  ptrval = pos e.next;
  locks = append_locks whence db;
}

line-entry_of :
    (buf key : List ℕ) (next : ℕ) (db : Db)
    → text buf ≡ key
    → NoNull key
    → line (new_entry buf next db) ≡ line (entry_of key next db)
unfolding record_text
line-entry_of buf key next db h n = rw (h, text_self key n)

-- `_db_writeidx`, in the words of the record that it writes.
pub writeidx_as :
    (buf key : List ℕ) (next : ℕ) (whence : Whence) (db : Db)
    → text buf ≡ key
    → IsEntry (entry_of key next db)
    → writeidx buf whence (pos next) db ≡ ok tt (after_entry (entry_of key next db) whence db)
writeidx_as buf key next whence db h v =
    let same : line (new_entry buf next db) ≡ line (entry_of key next db) =
      line-entry_of buf key next db h v.key_null in
    writeidx-ok buf whence next db v.next_max (rw same v.line_min) (rw same v.line_max)
    ∙ ap (λ l. ok tt (with_line l)) same
  where
    with_line : List ℕ → Db
    with_line l = record db {
      idx = record {
        bytes =
            overwrite db.idx.bytes (idx_place whence db)
              (padded ptr_sz next ++ padded idxlen_sz (length l) ++ l);
        offset =
            idx_place whence db + length (padded ptr_sz next ++ padded idxlen_sz (length l) ++ l);
      };
      idxbuf = l ++ 0 ∷ [];
      idxoff = idx_place whence db;
      ptrval = pos next;
      locks = append_locks whence db;
    }
