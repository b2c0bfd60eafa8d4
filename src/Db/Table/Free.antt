-- ===== src/Db/Table/Free.antt =====
-- `_db_findfree` in files that hold a table.
use somenote.Common.{
  ℕ, ◌+◌, ◌≤◌, ◌<◌, ◌≡◌, refl, ap, none, some, some-injective, Bool, true, false, [], ◌∷◌,
  Bool-cases, inl, inr, length, if◌then◌else◌,
}
use somenote.Libc.File.{overwrite}
use somenote.Libc.Decimal.{padded}
use somenote.Db.State.{ptr_sz, ptr_max, free_off, index_file, write_lock, un_lock, Db, ok, LockCall}
use somenote.Db.Index.Entry.{Entry}
use somenote.Db.Index.Pointer.{PtrAt, readptr-PtrAt, writeptr-ok}
use somenote.Db.Index.Record.{after_readidx}
use somenote.Db.Search.{findfree}
use somenote.Db.Search.Chain.{Links, first, Chain, link_of, is_zero-pos}
use somenote.Db.Search.Found.{searched}
use somenote.Db.Search.Free.{has_lengths, free_walk, findfree_loop-Chain}
use somenote.Db.Table.Unlink.{link_place}

free_walk-found :
    (p : Entry → Bool) (xs : Links) (save : ℕ) (db : Db) (o : ℕ) (d : Entry)
    → link_of p xs ≡ some (o, d)
    → free_walk p xs save db ≡ ((o, link_place p xs save), after_readidx o d db)
free_walk-found p [] save db o d h = cc
free_walk-found p ((off, e) ∷ xs) save db o d h = elim (Bool-cases (p e)) [
  | inl found ↦
      let h' : some (off, e) ≡ some (o, d) = rw found at h in
      rw found (
        ap {B = (ℕ × ℕ) × Db} (λ (t : ℕ × Entry). ((t.0, save), after_readidx t.0 t.1 db))
          (some-injective (off, e) (o, d) h'))
  | inr other ↦
      let h' : link_of p xs ≡ some (o, d) = rw other at h in
      rw other (free_walk-found p xs off (after_readidx off e db) o d h')
]

free_walk-missing :
    (p : Entry → Bool) (xs : Links) (save : ℕ) (db : Db)
    → link_of p xs ≡ none
    → ((free_walk p xs save db).0.0 ≡ 0)
      × ((free_walk p xs save db).1
          ≡ record (searched db (free_walk p xs save db).1) { ptroff = db.ptroff })
free_walk-missing p [] save db h = (refl, refl)
free_walk-missing p ((off, e) ∷ xs) save db h = elim (Bool-cases (p e)) [
  | inl found ↦ let h' : some (off, e) ≡ none = rw found at h in absurd (some_ne_none (off, e) h')
  | inr other ↦
      let h' : link_of p xs ≡ none = rw other at h in
      rw other (free_walk-missing p xs off (after_readidx off e db) h')
]
  where
    some_ne_none : (l : ℕ × Entry) → some l ≡ none → ⊥
    some_ne_none l q = cc

abbrev pub free_call : (unlocking : Bool) → LockCall
free_call unlocking = record {
  file = index_file;
  type = if unlocking then un_lock else write_lock;
  start = free_off;
  len = 1;
}

-- The state after a free record has been taken off its list.
abbrev pub after_findfree : (o q : ℕ) → Entry → Db → Db
after_findfree o q d db = record (after_readidx o d db) {
  idx = record { bytes = overwrite db.idx.bytes q (padded ptr_sz d.next); offset = q + ptr_sz };
  locks = free_call true ∷ free_call false ∷ db.locks;
}

abbrev free_start : Db → Db
free_start db = record db {
  idx = record { bytes = db.idx.bytes; offset = free_off + ptr_sz };
  locks = free_call false ∷ db.locks;
}

module _ (f keylen datlen : ℕ) (db : Db) (xs : Links)
    (head : PtrAt db.idx.bytes free_off (first xs)) (chain : Chain db.idx.bytes xs)
    (enough : length xs < f) where
  -- With a free list that stands in the index file, more rounds than it has records, and a
  -- first record on it with a key and data of these lengths, not at offset 0 and with a
  -- pointer up to PTR_MAX, _db_findfree finds that record: it is read, and the pointer that
  -- led to it leads to its successor.
  pub findfree-found :
      (o : ℕ) (d : Entry)
      → 0 < o
      → d.next ≤ ptr_max
      → link_of (has_lengths keylen datlen) xs ≡ some (o, d)
      → findfree f keylen datlen db
        ≡ ok true (after_findfree o (link_place (has_lengths keylen datlen) xs free_off) d db)
  unfolding findfree
  findfree-found o d h m found = rw (
    readptr-PtrAt free_off (first xs) (record db { locks = free_call false ∷ db.locks }) head,
    findfree_loop-Chain f keylen datlen xs free_off (free_start db) chain enough,
    free_walk-found (has_lengths keylen datlen) xs free_off (free_start db) o d found,
    is_zero-pos o h,
    writeptr-ok (link_place (has_lengths keylen datlen) xs free_off) d.next
        (after_readidx o d (free_start db)) m,
  )

  -- There is none: only the buffer and the fields that describe a record change.
  pub findfree-missing :
      link_of (has_lengths keylen datlen) xs ≡ none
      → (d : Db) × (findfree f keylen datlen db ≡ ok false d)
        × (d ≡ record (searched db d) {
          ptroff = db.ptroff;
          locks = free_call true ∷ free_call false ∷ db.locks;
        })
  unfolding findfree
  findfree-missing missing =
      let w : Db = (free_walk (has_lengths keylen datlen) xs free_off (free_start db)).1 in
      (
        record w { locks = free_call true ∷ w.locks },
        rw (
          readptr-PtrAt free_off (first xs) (record db { locks = free_call false ∷ db.locks }) head,
          findfree_loop-Chain f keylen datlen xs free_off (free_start db) chain enough,
          (free_walk-missing (has_lengths keylen datlen) xs free_off (free_start db) missing).0,
        ),
        ap (λ (r : Db). record r { locks = free_call true ∷ r.locks })
            (free_walk-missing (has_lengths keylen datlen) xs free_off (free_start db) missing).1,
      )
