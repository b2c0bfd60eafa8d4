-- ===== src/Db/Update/Delete.antt =====
-- `db_delete` takes a key out of the dictionary that the files hold.
use mathlib.Core.Option
use somenote.Common.{
  ℕ, ◌+◌, ◌≤◌, ◌<◌, ◌≡◌, refl, sym, ap, ◌∙◌, inl, inr, Option, none, some, true, List, ◌∷◌, arith,
  length, subst, Option-cases,
}
use somenote.Libc.Int.{ℤ, pos, negsuc}
use somenote.Db.State.{Db, ok, LockCall, index_file, un_lock, ptr_max}
use somenote.Db.Index.Entry.{Entry, IsEntry}
use somenote.Db.Search.{hash}
use somenote.Db.Search.Chain.{link_of, has_key, first}
use somenote.Db.Search.Found.{chain_of, search_start, searched}
use somenote.Db.Table.{Table, slot_of, IsTable, Holds, bucket, lookup}
use somenote.Db.Table.Dictionary.{updated, updated-intro}
use somenote.Db.Table.Unlink.{link_place}
use somenote.Db.Table.Search.{
  bucket-lt, chain_place, found_slot, found_state, search_found, search_missing,
}
use somenote.Db.Table.Lookup.{offset_of_link, offset_of-none, lookup-text}
use somenote.Db.Update.{db_delete, delete_found, delete_missing}
use somenote.Db.Update.Dodelete.{dodelete_lem, after_dodelete, idx_deleted, dat_deleted}
use somenote.Db.Update.Deleted.{deleted, IsTable-deleted}
use somenote.Db.Update.Forget.{lookup-deleted, lookup-deleted_ne}

-- 0 where the key was there, -1 where it was not
abbrev pub delete_code : Option (List ℕ) → ℤ
delete_code none = negsuc 0
delete_code (some line) = pos 0

-- A call of `db_delete` returns; the key is gone, and every other key has the data that it had.
pub record Deletes (db : Db) (t : Table) (key : List ℕ) (f : ℕ) : Type 0 where
  pub after : Db
  pub table : Table
  pub returns : db_delete f key db ≡ ok (delete_code (lookup t key)) after
  pub holds : Holds after table
  pub entries : (k : List ℕ) → lookup table k ≡ updated (lookup t) key none k

abbrev unlocked : Db → List LockCall
unlocked d = record { file = index_file; type = un_lock; start = d.chainoff; len = 1 } ∷ d.locks

abbrev after_delete : Db → Db
after_delete d = record d {
  counts = record d.counts { delok = d.counts.delok + 1 };
  locks = unlocked d;
}

abbrev after_miss : Db → Db
after_miss d = record d {
  counts = record d.counts { delerr = d.counts.delerr + 1 };
  locks = unlocked d;
}

module _ (db : Db) (t : Table) (v : Holds db t) (key : List ℕ) (f : ℕ)
    (enough : length (t.chain (bucket key)) < f) where
  delete_there :
      (o : ℕ) (d : Entry)
      → link_of (has_key key) (t.chain (bucket key)) ≡ some (o, d)
      → Deletes db t key f
  unfolding db_delete delete_found
  delete_there o d h = record {
    after = after_delete (after_dodelete o place free d (found_state db t v key true o d));
    table = deleted (has_key key) (bucket key) o d t;
    returns = rw (
      search_found db t v key f true o d enough h,
      offset_of_link (has_key key) (t.chain (bucket key)) o d h,
      dodelete_lem (search_start key true db) o place free d valid o_max
          (v.table.heads 0 (omega arith)),
    );
    holds = record { hashoff = v.hashoff; nhash = v.nhash; table = now };
    entries =
        updated-intro (lookup t) (lookup (deleted (has_key key) (bucket key) o d t)) key none
          (lookup-deleted db.idx.bytes db.dat.bytes t v.table key o d h)
          (lookup-deleted_ne db.idx.bytes db.dat.bytes t v.table key o d h);
  }
    where
      free : ℕ
      free = first (t.chain 0)

      place : ℕ
      place = link_place (has_key key) (t.chain (bucket key)) (chain_of key db)

      valid : IsEntry d
      valid = (found_slot db t v key o d h).3.valid

      o_max : o ≤ ptr_max
      o_max = (v.table.in_idx o (slot_of d) (found_slot db t v key o d h).0).1

      now :
          IsTable
            (idx_deleted db.idx.bytes o place free d)
            (dat_deleted db.dat.bytes d)
            (deleted (has_key key) (bucket key) o d t)
      now =
          subst
            (λ q.
              IsTable
                (idx_deleted db.idx.bytes o (link_place (has_key key) (t.chain (bucket key)) q) free
                  d)
                (dat_deleted db.dat.bytes d) (deleted (has_key key) (bucket key) o d t))
            (sym (chain_place db t v key))
            (IsTable-deleted db.idx.bytes db.dat.bytes t v.table (has_key key) (hash key) o d
              (bucket-lt key) h)

  delete_absent : link_of (has_key key) (t.chain (bucket key)) ≡ none → Deletes db t key f
  unfolding db_delete delete_missing
  delete_absent h =
      let (d, e, same) = search_missing db t v key f true enough h in
      record {
        after = after_miss d;
        table = t;
        returns = rw (e, offset_of-none (has_key key) (t.chain (bucket key)) h);
        holds = miss_holds d same;
        entries =
            updated-intro (lookup t) (lookup t) key none
              (λ k q.
                lookup-text t k key q
                ∙ ap (Option.map t.content) (offset_of-none (has_key key) (t.chain (bucket key)) h))
              (λ k ne. refl);
      }
    where
      miss_holds : (d : Db) → d ≡ searched (search_start key true db) d → Holds (after_miss d) t
      miss_holds d same =
          subst (λ (r : Db). Holds (after_miss r) t) (sym same)
            (record { hashoff = v.hashoff; nhash = v.nhash; table = v.table })

  -- In files that hold a table, with more rounds than the key's chain has records,
  -- db_delete returns 0 where the key has an entry and -1 where it has none; the files then
  -- hold a table in which the key has no entry and every other key the entry that it had.
  pub db_delete_lem : Deletes db t key f
  db_delete_lem = elim (Option-cases (link_of (has_key key) (t.chain (bucket key)))) [
    | inl missing ↦ delete_absent missing
    | inr ((o, d), found) ↦ delete_there o d found
  ]
