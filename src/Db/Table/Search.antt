-- ===== src/Db/Table/Search.antt =====
-- The search for a key in files that hold a table.
use somenote.Common.{ℕ, ◌*◌, ◌<◌, ◌≡◌, ap, ◌∙◌, none, some, Bool, true, false, List, arith, length}
use somenote.Libc.Int.{pos}
use somenote.Db.State.{ptr_sz, nhash_def, Db, ok}
use somenote.Db.Index.Entry.{Entry, EntryAt}
use somenote.Db.Search.{hash, find_and_lock}
use somenote.Db.Search.Chain.{link_of, has_key}
use somenote.Db.Search.Found.{
  chain_of, search_start, at_link, searched, ChainAt, find_and_lock-found, find_and_lock-missing,
}
use somenote.Db.Table.{Table, slot_of, Holds, chains, bucket}
use somenote.Db.Table.Unlink.{link_place, link_before-pos, link_of-slot}

-- The chain of a key is one of those in the index file.
hash-lt : (key : List ℕ) → hash key < nhash_def
unfolding hash
hash-lt key = omega arith

pub bucket-lt : (key : List ℕ) → bucket key < chains
bucket-lt key = omega (arith, hash-lt key)

module _ (db : Db) (t : Table) (v : Holds db t) (key : List ℕ) where
  pub chain_place : chain_of key db ≡ bucket key * ptr_sz
  chain_place = omega (arith, v.hashoff)

  chain_at : ChainAt key db (t.chain (bucket key))
  chain_at = (
    rw chain_place (v.table.heads (bucket key) (bucket-lt key)),
    v.table.linked (bucket key) (bucket-lt key),
  )

  pub found_slot :
      (o : ℕ) (d : Entry)
      → link_of (has_key key) (t.chain (bucket key)) ≡ some (o, d)
      → (t.slot o ≡ some (slot_of d))
        × (t.owner o ≡ bucket key)
        × (0 < o)
        × EntryAt db.idx.bytes o d
        × (has_key key d ≡ true)
  found_slot o d = λ h.
      link_of-slot db.idx.bytes db.dat.bytes t v.table (has_key key) (bucket key)
        (t.chain (bucket key)) o d h (v.table.linked (bucket key) (bucket-lt key))
        (v.table.owned (bucket key) (bucket-lt key))

  -- The state in which the record of the key has been read.
  abbrev pub found_state : Bool → ℕ → Entry → Db
  found_state w o d =
      at_link (search_start key w db)
        (pos (link_place (has_key key) (t.chain (bucket key)) (chain_of key db))) (o, d)

  pub search_found :
      (f : ℕ) (w : Bool) (o : ℕ) (d : Entry)
      → length (t.chain (bucket key)) < f
      → link_of (has_key key) (t.chain (bucket key)) ≡ some (o, d)
      → find_and_lock f key w db ≡ ok true (found_state w o d)
  search_found f w o d h found =
      find_and_lock-found f key w db (t.chain (bucket key)) o d chain_at h (found_slot o d found).2
        found
      ∙ ap (λ q. ok true (at_link (search_start key w db) q (o, d)))
          (link_before-pos (has_key key) (t.chain (bucket key)) (chain_of key db))

  pub search_missing :
      (f : ℕ) (w : Bool)
      → length (t.chain (bucket key)) < f
      → link_of (has_key key) (t.chain (bucket key)) ≡ none
      → (d : Db) × (find_and_lock f key w db ≡ ok false d)
        × (d ≡ searched (search_start key w db) d)
  search_missing f w h missing =
      find_and_lock-missing f key w db (t.chain (bucket key)) chain_at h missing
