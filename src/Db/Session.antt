-- ===== src/Db/Session.antt =====
-- Calls of the functions of c_code/apue/mydb/db.c one after the other on one handle.
pub mod Reopened
use mathlib.Core.Option
use somenote.Common.{
  ℕ, suc, ◌+◌, arith, ◌≤◌, ◌<◌, ◌≡◌, ◌≢◌, ◌∙◌, Option, none, List, [], ◌∷◌, ◌++◌, length, subst,
}
use somenote.Libc.Text.{text}
use somenote.Db.State.{Db, Run, ok, ptr_max, and_then}
use somenote.Db.Table.{Table, Holds, bucket, lookup}
use somenote.Db.Table.Dictionary.{updated_self, updated_ne}
use somenote.Db.Query.{db_fetch}
use somenote.Db.Query.Fetch.{Fetched, db_fetch_lem}
use somenote.Db.Update.{db_store, db_delete, Flag}
use somenote.Db.Update.Inserts.{Fits}
use somenote.Db.Update.Delete.{delete_code, db_delete_lem}
use somenote.Db.Update.Stored.{store_code, store_entry}
use somenote.Db.Update.Store.{db_store_lem}

-- A fetch of the key behind the run returns the data and a null byte, or NULL, however many rounds
-- more than enough it is given.
abbrev pub FetchesThen : {A : Type 0} → Run A → List ℕ → Option (List ℕ) → Type 0
FetchesThen {A} run key line =
    (enough : ℕ) × ((more : ℕ)
      → (after : Db) × (and_then run (λ a. db_fetch (enough + more) key)
          ≡ ok (Option.map (λ l. l ++ 0 ∷ []) line) after))

fetches_then :
    {A : Type 0} (run : Run A) (a : A) (after : Db) (t : Table) (key : List ℕ)
    → run ≡ ok a after
    → Holds after t
    → FetchesThen run key (lookup t key)
fetches_then run a after t key h v = (
  suc (length (t.chain (bucket key))),
  λ more.
      let r : Fetched after t key (suc (length (t.chain (bucket key))) + more) =
        db_fetch_lem after t v key (suc (length (t.chain (bucket key))) + more) (omega arith) in
      (r.after, rw h r.returns),
)

module _ (db : Db) (t : Table) (v : Holds db t) (key text' : List ℕ) (f : ℕ)
    (fits : Fits (length db.dat.bytes) key text') (room : length db.idx.bytes ≤ ptr_max)
    (enough : length (t.chain (bucket key)) < f) (enough_free : length (t.chain 0) < f) where
  -- In files that hold a table, for a key and data that make a valid record at the end of
  -- the data file, with room in the index file and more rounds than the key's chain and the
  -- free list have records, a db_fetch of the key behind a db_store returns, given enough
  -- rounds, the data where the flag and the key's entry make the store put it there, and
  -- otherwise what the key had.
  pub fetch-store :
      (flag : Flag)
      → FetchesThen (db_store f key text' flag db) key (store_entry flag (lookup t key) text')
  fetch-store flag =
      let r = db_store_lem db t v key text' f fits room enough enough_free flag in
      subst (FetchesThen (db_store f key text' flag db) key)
        (r.entries key ∙ updated_self (lookup t) key (store_entry flag (lookup t key) text'))
        (fetches_then (db_store f key text' flag db) (store_code flag (lookup t key)) r.after
          r.table key r.returns r.holds)

  -- In files that hold a table, for a key and data that make a valid record at the end of
  -- the data file, with room in the index file and more rounds than the key's chain and the
  -- free list have records, a db_fetch of a key with another text behind a db_store
  -- returns, given enough rounds, what that key had.
  pub fetch-store_ne :
      (flag : Flag) (k : List ℕ)
      → text k ≢ text key
      → FetchesThen (db_store f key text' flag db) k (lookup t k)
  fetch-store_ne flag k ne =
      let r = db_store_lem db t v key text' f fits room enough enough_free flag in
      subst (FetchesThen (db_store f key text' flag db) k)
        (r.entries k ∙ updated_ne (lookup t) key (store_entry flag (lookup t key) text') k ne)
        (fetches_then (db_store f key text' flag db) (store_code flag (lookup t key)) r.after
          r.table k r.returns r.holds)

module _ (db : Db) (t : Table) (v : Holds db t) (key : List ℕ) (f : ℕ)
    (enough : length (t.chain (bucket key)) < f) where
  -- In files that hold a table, with more rounds than the key's chain has records, a
  -- db_fetch of the key behind a db_delete returns NULL, given enough rounds.
  pub fetch-delete : FetchesThen (db_delete f key db) key none
  fetch-delete =
      let r = db_delete_lem db t v key f enough in
      subst (FetchesThen (db_delete f key db) key)
        (r.entries key ∙ updated_self (lookup t) key none)
        (fetches_then (db_delete f key db) (delete_code (lookup t key)) r.after r.table key
          r.returns r.holds)

  -- In files that hold a table, with more rounds than the key's chain has records, a
  -- db_fetch of a key with another text behind a db_delete returns, given enough rounds,
  -- what that key had.
  pub fetch-delete_ne :
      (k : List ℕ) → text k ≢ text key → FetchesThen (db_delete f key db) k (lookup t k)
  fetch-delete_ne k ne =
      let r = db_delete_lem db t v key f enough in
      subst (FetchesThen (db_delete f key db) k) (r.entries k ∙ updated_ne (lookup t) key none k ne)
        (fetches_then (db_delete f key db) (delete_code (lookup t key)) r.after r.table k r.returns
          r.holds)
