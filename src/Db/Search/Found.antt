-- ===== src/Db/Search/Found.antt =====
-- What a search of `_db_find_and_lock` leaves behind.
use somenote.Common.{
  ℕ, ◌+◌, ◌*◌, ◌<◌, ◌≡◌, refl, ap, ◌∙◌, Bool, true, false, none, some, some-injective, List, [],
  ◌∷◌, Bool-cases, inl, inr, length, if◌then◌else◌,
}
use somenote.Libc.Int.{ℤ, pos, is_zero}
use somenote.Libc.Text.{text, same_text}
use somenote.Db.State.{ptr_sz, index_file, read_lock, write_lock, Db, ok, dump}
use somenote.Db.Index.Entry.{Entry}
use somenote.Db.Index.Pointer.{PtrAt, with_idx, readptr-PtrAt, readptr-empty}
use somenote.Db.Index.Record.{after_readidx}
use somenote.Db.Search.{hash, find_and_lock}
use somenote.Db.Search.Chain.{
  Links, first, Chain, walk, has_key, link_of, link_before, is_zero-pos, find_loop-Chain,
}

-- A search changes the buffer, the fields that describe a record, and the file offset, nothing else.
abbrev pub searched : Db → Db → Db
searched db w = record db {
  idx = record { bytes = db.idx.bytes; offset = w.idx.offset };
  idxbuf = w.idxbuf;
  idxoff = w.idxoff;
  idxlen = w.idxlen;
  datoff = w.datoff;
  datlen = w.datlen;
  ptrval = w.ptrval;
  ptroff = w.ptroff;
}

walk-frame :
    (key : List ℕ) (xs : Links) (db : Db) → (walk key xs db).1 ≡ searched db (walk key xs db).1
walk-frame key [] db = refl
walk-frame key ((off, e) ∷ xs) db = elim (Bool-cases (same_text e.key (text key))) [
  | inl found ↦ rw found
  | inr other ↦ rw other (walk-frame key xs (record (after_readidx off e db) { ptroff = pos off }))
]

-- The state at the record that is found.
abbrev pub at_link : Db → ℤ → ℕ × Entry → Db
at_link db p (off, e) = record (after_readidx off e db) { ptroff = p }

walk_found :
    (key : List ℕ) (xs : Links) (db : Db) (off : ℕ) (e : Entry)
    → link_of (has_key key) xs ≡ some (off, e)
    → walk key xs db ≡ (off, at_link db (link_before (has_key key) xs db.ptroff) (off, e))
walk_found key [] db o d h = cc
walk_found key ((off, e) ∷ xs) db o d h = elim (Bool-cases (same_text e.key (text key))) [
  | inl found ↦
      let h' : some (off, e) ≡ some (o, d) = rw found at h in
      rw found
        (ap (λ (t : ℕ × Entry). (t.0, at_link db db.ptroff t)) (some-injective (off, e) (o, d) h'))
  | inr other ↦
      let h' : link_of (has_key key) xs ≡ some (o, d) = rw other at h in
      rw other (walk_found key xs (record (after_readidx off e db) { ptroff = pos off }) o d h')
]

walk_missing :
    (key : List ℕ) (xs : Links) (db : Db) → link_of (has_key key) xs ≡ none → (walk key xs db).0 ≡ 0
walk_missing key [] db h = refl
walk_missing key ((off, e) ∷ xs) db h = elim (Bool-cases (same_text e.key (text key))) [
  | inl found ↦ cc
  | inr other ↦
      let h' : link_of (has_key key) xs ≡ none = rw other at h in
      rw other (walk_missing key xs (record (after_readidx off e db) { ptroff = pos off }) h')
]

-- The state in which the search starts: the chain of the key is chosen and locked, and its first
-- pointer is read.
abbrev pub chain_of : List ℕ → Db → ℕ
chain_of key db = hash key * ptr_sz + db.hashoff

abbrev search_lock : List ℕ → Bool → Db → Db
search_lock key writelock db = record db {
  chainoff = chain_of key db;
  ptroff = pos (chain_of key db);
  locks =
      record {
        file = index_file;
        type = if writelock then write_lock else read_lock;
        start = chain_of key db;
        len = 1;
      }
      ∷ db.locks;
}

abbrev pub search_start : List ℕ → Bool → Db → Db
search_start key writelock db =
    with_idx db.idx.bytes (chain_of key db + ptr_sz) (search_lock key writelock db)

-- The chain of a key stands in the file.
abbrev pub ChainAt : List ℕ → Db → Links → Type 0
ChainAt key db xs = PtrAt db.idx.bytes (chain_of key db) (first xs) × Chain db.idx.bytes xs

-- `_db_find_and_lock` with more rounds than the chain has records.
find_and_lock-walk :
    (f : ℕ) (key : List ℕ) (w : Bool) (db : Db) (xs : Links)
    → ChainAt key db xs
    → length xs < f
    → find_and_lock f key w db
      ≡ ok
          (if is_zero (pos (walk key xs (search_start key w db)).0) then false else true)
          (walk key xs (search_start key w db)).1
unfolding find_and_lock
find_and_lock-walk f key w db xs c h = rw (
  readptr-PtrAt (chain_of key db) (first xs) (search_lock key w db) c.0,
  find_loop-Chain f key xs (search_start key w db) c.1 h,
)

-- In an empty index file there is no chain.
pub find_and_lock-empty :
    (f : ℕ) (key : List ℕ) (w : Bool) (db : Db)
    → db.idx.bytes ≡ []
    → find_and_lock f key w db ≡ dump "_db_readptr:read error"
unfolding find_and_lock
find_and_lock-empty f key w db h = rw (readptr-empty (chain_of key db) (search_lock key w db) h)

-- The key has a record: it is found, and the state describes it.
pub find_and_lock-found :
    (f : ℕ) (key : List ℕ) (w : Bool) (db : Db) (xs : Links) (off : ℕ) (e : Entry)
    → ChainAt key db xs
    → length xs < f
    → 0 < off
    → link_of (has_key key) xs ≡ some (off, e)
    → find_and_lock f key w db
      ≡ ok true (
          at_link
            (search_start key w db)
            (link_before (has_key key) xs (pos (chain_of key db)))
            (off, e))
find_and_lock-found f key w db xs off e c h o found =
    find_and_lock-walk f key w db xs c h
    ∙ rw (walk_found key xs (search_start key w db) off e found, is_zero-pos off o)

-- The key has no record.
pub find_and_lock-missing :
    (f : ℕ) (key : List ℕ) (w : Bool) (db : Db) (xs : Links)
    → ChainAt key db xs
    → length xs < f
    → link_of (has_key key) xs ≡ none
    → (d : Db) × (find_and_lock f key w db ≡ ok false d) × (d ≡ searched (search_start key w db) d)
find_and_lock-missing f key w db xs c h missing = (
  (walk key xs (search_start key w db)).1,
  find_and_lock-walk f key w db xs c h ∙ rw (walk_missing key xs (search_start key w db) missing),
  walk-frame key xs (search_start key w db),
)
