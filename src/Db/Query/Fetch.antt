-- ===== src/Db/Query/Fetch.antt =====
-- `db_fetch` looks a key up in the table that the files hold.
use mathlib.Core.Option
use somenote.Common.{
  ℕ, ◌+◌, ◌≤◌, ◌<◌, ◌≡◌, arith, refl, sym, ap, inl, inr, none, some, false, List, [], ◌∷◌, ◌++◌,
  length, subst, Option-cases,
}
use somenote.Db.State.{Db, datlen_max, ok, dump, LockCall, index_file, read_lock, un_lock}
use somenote.Db.Index.Entry.{Entry}
use somenote.Db.Data.RoundTrip.{DataAt, readdat-DataAt, after_readdat}
use somenote.Libc.Text.{NoNull}
use somenote.Db.Search.Chain.{link_of, has_key}
use somenote.Db.Search.Found.{chain_of, find_and_lock-empty, searched, search_start}
use somenote.Db.Table.{Table, slot_of, Holds, bucket, lookup}
use somenote.Db.Table.Search.{found_slot, found_state, search_found, search_missing}
use somenote.Db.Table.Lookup.{offset_of_link, offset_of-none}
use somenote.Db.Query.{db_fetch}

-- The two calls of `lock_reg` of an operation on a chain, the last one first.
abbrev chain_locks : Db → List ℕ → List LockCall
chain_locks db key =
    record { file = index_file; type = un_lock; start = chain_of key db; len = 1 }
    ∷ record { file = index_file; type = read_lock; start = chain_of key db; len = 1 }
    ∷ db.locks

-- A call of `db_fetch` returns the data of the key, behind it a null byte, or NULL, and leaves
-- the table as it was.
pub record Fetched (db : Db) (t : Table) (key : List ℕ) (f : ℕ) : Type 0 where
  pub after : Db
  pub returns : db_fetch f key db ≡ ok (Option.map (λ line. line ++ 0 ∷ []) (lookup t key)) after
  pub holds : Holds after t
  pub locks : after.locks ≡ chain_locks db key

abbrev unlocked : Db → List LockCall
unlocked d = record { file = index_file; type = un_lock; start = d.chainoff; len = 1 } ∷ d.locks

abbrev after_fetch : Db → Db
after_fetch d = record d {
  counts = record d.counts { fetchok = d.counts.fetchok + 1 };
  locks = unlocked d;
}

abbrev after_miss : Db → Db
after_miss d = record d {
  counts = record d.counts { fetcherr = d.counts.fetcherr + 1 };
  locks = unlocked d;
}

module _ (db : Db) (t : Table) (v : Holds db t) (key : List ℕ) (f : ℕ)
    (enough : length (t.chain (bucket key)) < f) where
  fetch_found :
      (o : ℕ) (d : Entry)
      → link_of (has_key key) (t.chain (bucket key)) ≡ some (o, d)
      → Fetched db t key f
  unfolding db_fetch
  fetch_found o d h = record {
    after = after_fetch (after_readdat (t.content o) (found_state db t v key false o d));
    returns = rw (
      search_found db t v key f false o d enough h,
      offset_of_link (has_key key) (t.chain (bucket key)) o d h,
      readdat-DataAt (t.content o) (found_state db t v key false o d) text_at.2 text_at.0 small,
    );
    holds = record { hashoff = v.hashoff; nhash = v.nhash; table = v.table };
    locks = refl;
  }
    where
      text_at :
          (d.datlen ≡ length (t.content o) + 1)
          × NoNull (t.content o)
          × DataAt db.dat.bytes d.datoff (t.content o)
      text_at = v.table.data_at o (slot_of d) (found_slot db t v key o d h).0

      small : length (t.content o) + 1 ≤ datlen_max + 2
      small = omega (arith, text_at.0, (found_slot db t v key o d h).3.valid.datlen_max)

  fetch_missing : link_of (has_key key) (t.chain (bucket key)) ≡ none → Fetched db t key f
  unfolding db_fetch
  fetch_missing h =
      let (d, e, same) = search_missing db t v key f false enough h in
      record {
        after = after_miss d;
        returns = rw (e, offset_of-none (has_key key) (t.chain (bucket key)) h);
        holds = miss_holds d same;
        locks = ap (λ (r : Db). (after_miss r).locks) same;
      }
    where
      miss_holds : (d : Db) → d ≡ searched (search_start key false db) d → Holds (after_miss d) t
      miss_holds d same =
          subst (λ (r : Db). Holds (after_miss r) t) (sym same)
            (record { hashoff = v.hashoff; nhash = v.nhash; table = v.table })

  -- In files that hold a table, with more rounds than the key's chain has records, db_fetch
  -- returns the key's data, behind it a null byte, or NULL where the key has no entry; the
  -- files hold the same table, and the first byte of the key's chain has been locked for
  -- reading and unlocked.
  pub db_fetch_lem : Fetched db t key f
  db_fetch_lem = elim (Option-cases (link_of (has_key key) (t.chain (bucket key)))) [
    | inl missing ↦ fetch_missing missing
    | inr ((o, d), found) ↦ fetch_found o d found
  ]

-- In an empty index file `db_fetch` ends the process.
pub db_fetch-empty :
    (f : ℕ) (key : List ℕ) (db : Db)
    → db.idx.bytes ≡ []
    → db_fetch f key db ≡ dump "_db_readptr:read error"
unfolding db_fetch
db_fetch-empty f key db h = rw (find_and_lock-empty f key false db h)
