-- ===== src/Db/Session/Reopened.antt =====
-- `db_open` of c_code/apue/mydb/db.c on the files that an earlier handle left, and calls behind it.
use mathlib.Core.Option
use somenote.Common.{
  ℕ, suc, ◌+◌, arith, ◌≤◌, ◌<◌, ◌≡◌, refl, Bool, true, false, Option, none, some, List, [], ◌∷◌,
  ◌++◌, length, subst, if◌then◌else◌,
}
use somenote.Db.State.{Db, Run, ok, dump, ptr_max, and_then}
use somenote.Db.Index.Entry.{Entry}
use somenote.Db.Table.{Table, Holds, first_record, bucket, lookup}
use somenote.Db.Table.Dictionary.{updated}
use somenote.Db.Query.{db_fetch}
use somenote.Db.Query.Fetch.{Fetched, db_fetch_lem, db_fetch-empty}
use somenote.Db.Query.Next.{Sequence, HasTexts}
use somenote.Db.Query.Pass.{next_all, live, Passes, next_all-Sequence}
use somenote.Db.Open.{db_open, db_alloc}
use somenote.Db.Open.Empty.{
  Opens, empty_table, db_open-new, db_open-again, db_open-handle, handle, no_trunc,
}
use somenote.Db.Update.{db_store, db_delete, Flag}
use somenote.Db.Update.Inserts.{Fits}
use somenote.Db.Update.Delete.{delete_code, db_delete_lem}
use somenote.Db.Update.Stored.{store_code, store_entry}
use somenote.Db.Update.Store.{db_store_lem}

-- The call of `open` empties a file with O_TRUNC.
abbrev opened : Bool → List ℕ → Option (List ℕ)
opened trunc bytes = some (if trunc then [] else bytes)

-- The files that a call leaves are opened with these flags, and a key is fetched. `none` where
-- `db_open` returns NULL.
abbrev fetch_opened :
    List ℕ → (creat trunc : Bool) → ℕ → List ℕ → Db → Option (Run (Option (List ℕ)))
fetch_opened path creat trunc f key db =
    Option.map (λ r. and_then r (λ _. db_fetch f key))
      (db_open path creat trunc (opened trunc db.idx.bytes) (opened trunc db.dat.bytes))

-- Without O_TRUNC the fetch returns what the files held. With O_CREAT it finds an empty table in
-- emptied files, and without it no pointer of a chain.
abbrev Result : (creat trunc : Bool) → Option (List ℕ) → Option (Run (Option (List ℕ))) → Type 0
Result creat false line r = (d : Db) × (r ≡ some (ok (Option.map (λ l. l ++ 0 ∷ []) line) d))
Result true true line r = (d : Db) × (r ≡ some (ok none d))
Result false true line r = r ≡ some (dump "_db_readptr:read error")

fetch_behind :
    (run : Option (Run (Unit {0}))) (t : Table) (f : ℕ) (key : List ℕ)
    → Opens run t
    → length (t.chain (bucket key)) < f
    → (d : Db) × (Option.map (λ r. and_then r (λ _. db_fetch f key)) run
        ≡ some (ok (Option.map (λ l. l ++ 0 ∷ []) (lookup t key)) d))
fetch_behind run t f key o enough =
    let r : Fetched o.after t key f = db_fetch_lem o.after t o.holds key f enough in
    (r.after, rw (o.returns, r.returns))

-- The files that hold a table, opened again with any flags.
fetch_opened-Holds :
    (path : List ℕ) (creat trunc : Bool) (key : List ℕ) (db : Db) (t : Table) (more : ℕ)
    → Holds db t
    → Result creat trunc
        (lookup t key)
        (fetch_opened path creat trunc (suc (length (t.chain (bucket key))) + more) key db)
unfolding db_alloc
fetch_opened-Holds path creat false key db t more v =
    fetch_behind (db_open path creat false (some db.idx.bytes) (some db.dat.bytes)) t
      (suc (length (t.chain (bucket key))) + more) key
      (db_open-again path db.idx.bytes db.dat.bytes t creat v.table) (omega arith)
fetch_opened-Holds path true true key db t more v =
    fetch_behind (db_open path true true (some []) (some [])) empty_table
      (suc (length (t.chain (bucket key))) + more) key (db_open-new path) (omega arith)
fetch_opened-Holds path false true key db t more v = rw (
  db_open-handle path [] [] false true refl,
  db_fetch-empty (suc (length (t.chain (bucket key))) + more) key (handle path [] []) refl,
)

-- The call returns, and a fetch behind `db_open` on its files has its result, however many rounds
-- more than enough it is given.
abbrev pub ReopensThen :
    {A : Type 0} → Run A → List ℕ → (creat trunc : Bool) → List ℕ → Option (List ℕ) → Type 0
ReopensThen {A} run path creat trunc key line =
    (a : A) × (db : Db) × (run ≡ ok a db)
    × (enough : ℕ) × ((more : ℕ)
        → Result creat trunc line (fetch_opened path creat trunc (enough + more) key db))

reopens_then :
    {A : Type 0} (run : Run A) (a : A) (after : Db) (t : Table) (path key : List ℕ)
    (creat trunc : Bool)
    → run ≡ ok a after
    → Holds after t
    → ReopensThen run path creat trunc key (lookup t key)
reopens_then run a after t path key creat trunc h v = (
  a,
  after,
  h,
  suc (length (t.chain (bucket key))),
  λ more. fetch_opened-Holds path creat trunc key after t more v,
)

module _ (db : Db) (t : Table) (v : Holds db t) (key : List ℕ) (f : ℕ)
    (enough : length (t.chain (bucket key)) < f) (path : List ℕ) (creat trunc : Bool)
    (k : List ℕ) where
  -- In files that hold a table, for a key and data that make a valid record at the end of
  -- the data file, with room in the index file and more rounds than the key's chain and the
  -- free list have records, db_store returns. A db_open on the files that it leaves, for
  -- any path, with O_CREAT and O_TRUNC set or not, and then a db_fetch of any key return,
  -- given enough rounds, the data and a null byte, or NULL, by the dictionary that the
  -- store makes, where O_TRUNC is not set, NULL where O_CREAT and O_TRUNC are, and where
  -- O_TRUNC alone empties the files end the process with the message of _db_readptr.
  pub reopen-store :
      (text' : List ℕ) (flag : Flag)
      → Fits (length db.dat.bytes) key text'
      → length db.idx.bytes ≤ ptr_max
      → length (t.chain 0) < f
      → ReopensThen
          (db_store f key text' flag db)
          path
          creat
          trunc
          k
          (updated (lookup t) key (store_entry flag (lookup t key) text') k)
  reopen-store text' flag fits room enough_free =
      let r = db_store_lem db t v key text' f fits room enough enough_free flag in
      subst (ReopensThen (db_store f key text' flag db) path creat trunc k) (r.entries k) (
        reopens_then (db_store f key text' flag db) (store_code flag (lookup t key)) r.after r.table
          path k creat trunc r.returns r.holds)

  -- In files that hold a table, with more rounds than the key's chain has records,
  -- db_delete returns. A db_open on the files that it leaves, for any path, with O_CREAT
  -- and O_TRUNC set or not, and then a db_fetch of any key return, given enough rounds, the
  -- data and a null byte, or NULL, by the dictionary that the deletion makes, where O_TRUNC
  -- is not set, NULL where O_CREAT and O_TRUNC are, and where O_TRUNC alone empties the
  -- files end the process with the message of _db_readptr.
  pub reopen-delete :
      ReopensThen (db_delete f key db) path creat trunc k (updated (lookup t) key none k)
  reopen-delete =
      let r = db_delete_lem db t v key f enough in
      subst (ReopensThen (db_delete f key db) path creat trunc k) (r.entries k) (
        reopens_then (db_delete f key db) (delete_code (lookup t key)) r.after r.table path k creat
          trunc r.returns r.holds)

-- A handle of the two files, and behind it the calls of `db_nextrec`.
abbrev pub PassesThen :
    Option (Run (Unit {0})) → ℕ → ℕ → (idx dat : List ℕ) → List (List ℕ × List ℕ) → Type 0
PassesThen run n f idx dat what =
    (db : Db) × (run ≡ some (ok tt db))
    × (db.locks ≡ [])
    × (after : Db) × (next_all n f db ≡ ok what after)
    × (after.idx.bytes ≡ idx)
    × (after.dat.bytes ≡ dat)

-- Where valid records stand in the index file from the first byte behind the pointers and
-- their newline to its end, one behind the other, with the data of each in the data file,
-- db_open without O_TRUNC returns a handle, with no call of lock_reg, and calls of db_nextrec
-- behind it until NULL return, in the order of the file, the key and the data, behind it a
-- null byte, of each record whose key is more than spaces; for this, more calls and more
-- rounds in each than there are records are enough, and the files keep their bytes.
pub open-pass :
    (path idx dat : List ℕ) (creat : Bool) (texts : Entry → List ℕ) (es : List Entry) (n f : ℕ)
    → Sequence idx first_record es
    → HasTexts dat texts es
    → length es < f
    → length es < n
    → PassesThen (db_open path creat false (some idx) (some dat)) n f idx dat (live texts es)
unfolding db_alloc
open-pass path idx dat creat texts es n f q h enough calls = (
  handle path idx dat,
  db_open-handle path idx dat creat false (no_trunc creat),
  refl,
  passed.0,
  passed.1,
  passed.2,
  passed.3,
)
  where
    passed : Passes n f (handle path idx dat) (live texts es)
    passed = next_all-Sequence f texts n (handle path idx dat) es q h enough calls
