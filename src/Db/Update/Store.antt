-- ===== src/Db/Update/Store.antt =====
-- `db_store` puts a key into the dictionary that the files hold.
use mathlib.Core.Option
use somenote.Common.{
  ℕ, ◌+◌, ◌≤◌, ◌<◌, ◌≡◌, refl, sym, ap, ◌∙◌, Option, none, some, Option-cases, List, ◌∷◌, inl, inr,
  arith, length, subst, Bool, true, false, le→leb,
}
use somenote.Libc.Int.{ℤ, pos, negsuc}
use somenote.Libc.Text.{strlen, NoNull, text_self}
use somenote.Db.State.{ptr_max, Db, ok, LockCall, index_file, un_lock, datlen_max}
use somenote.Db.Index.Entry.{Entry}
use somenote.Db.Search.{find_and_lock}
use somenote.Db.Search.Chain.{link_of, has_key}
use somenote.Db.Search.Found.{searched, search_start}
use somenote.Db.Table.{Table, Holds, bucket, lookup}
use somenote.Db.Table.Dictionary.{updated-intro}
use somenote.Db.Table.Search.{chain_place, found_state, search_found, search_missing}
use somenote.Db.Table.Lookup.{offset_of_link, offset_of-none, lookup-text}
use somenote.Db.Update.{
  Flag, db_insert, db_replace, db_store_either, other, store_missing, store_exists, store_new,
  is_other, store_found, store_checked, db_store,
}
use somenote.Db.Update.Inserts.{Fits}
use somenote.Db.Update.Old.{store_old_lem}
use somenote.Db.Update.Stored.{Stored, store_code, store_entry, store_new_lem}

abbrev unlocked : Db → List LockCall
unlocked d = record { file = index_file; type = un_lock; start = d.chainoff; len = 1 } ∷ d.locks

abbrev after_error : Db → Db
after_error d = record d { counts = record d.counts { storerr = d.counts.storerr + 1 } }

-- What the search has found decides what the store is.
checked :
    (f : ℕ) (key text' : List ℕ) (flag : Flag) (db w : Db) (b : Bool) (t : Table) (code : ℤ)
    (entry : Option (List ℕ))
    → NoNull text'
    → 1 ≤ length text'
    → length text' + 1 ≤ datlen_max
    → find_and_lock f key true db ≡ ok b w
    → Stored (store_found f key text' flag b w) t key code entry
    → Stored (store_checked f key text' flag db) t key code entry
unfolding store_checked strlen
checked f key text' flag db w b t code entry clean low high h v = record {
  after = record v.after { locks = unlocked v.after };
  table = v.table;
  returns = rw (
    text_self text' clean,
    le→leb 2 (length text' + 1) (omega arith),
    le→leb (length text' + 1) datlen_max high,
    h,
    v.returns,
  );
  holds = record { hashoff = v.holds.hashoff; nhash = v.holds.nhash; table = v.holds.table };
  entries = v.entries;
}

module _ (db : Db) (t : Table) (v : Holds db t) (key text' : List ℕ) (f : ℕ)
    (fits : Fits (length db.dat.bytes) key text') (room : length db.idx.bytes ≤ ptr_max)
    (enough : length (t.chain (bucket key)) < f) (enough_free : length (t.chain 0) < f) where
  abbrev Stores : Flag → Option (List ℕ) → Type 0
  Stores flag was =
      Stored (store_checked f key text' flag db) t key (store_code flag was)
        (store_entry flag was text')

  old_entry :
      (o : ℕ) (d : Entry)
      → link_of (has_key key) (t.chain (bucket key)) ≡ some (o, d)
      → lookup t key ≡ some (t.content o)
  old_entry o d h =
      ap (Option.map t.content) (offset_of_link (has_key key) (t.chain (bucket key)) o d h)

  no_entry : link_of (has_key key) (t.chain (bucket key)) ≡ none → lookup t key ≡ none
  no_entry h = ap (Option.map t.content) (offset_of-none (has_key key) (t.chain (bucket key)) h)

  exists :
      (o : ℕ) (d : Entry)
      → link_of (has_key key) (t.chain (bucket key)) ≡ some (o, d)
      → Stored (store_exists (found_state db t v key true o d)) t key (pos 1) (some (t.content o))
  unfolding store_exists
  exists o d h = record {
    after = after_error (found_state db t v key true o d);
    table = t;
    returns = refl;
    holds = record { hashoff = v.hashoff; nhash = v.nhash; table = v.table };
    entries =
        updated-intro (lookup t) (lookup t) key (some (t.content o))
          (λ k q. lookup-text t k key q ∙ old_entry o d h) (λ k q. refl);
  }

  Stored-there :
      (flag : Flag) (o : ℕ) (d : Entry)
      → is_other flag ≡ false
      → link_of (has_key key) (t.chain (bucket key)) ≡ some (o, d)
      → Stored
          (store_found f key text' flag true (found_state db t v key true o d))
          t
          key
          (store_code flag (some (t.content o)))
          (store_entry flag (some (t.content o)) text')
  unfolding store_found
  Stored-there (other n) o d known h = cc
  Stored-there db_insert o d known h = exists o d h
  Stored-there db_replace o d known h = store_old_lem db t v key text' f fits room o d h
  Stored-there db_store_either o d known h = store_old_lem db t v key text' f fits room o d h

  module _ (w : Db) (same : w ≡ searched (search_start key true db) w)
      (h : link_of (has_key key) (t.chain (bucket key)) ≡ none) where
    created : Stored (store_new f key text' w) t key (pos 0) (some text')
    created =
        subst (λ r. Stored (store_new f key text' r) t key (pos 0) (some text')) (sym same)
          (store_new_lem (searched (search_start key true db) w) t
            (record { hashoff = v.hashoff; nhash = v.nhash; table = v.table }) key text'
            (chain_place db t v key) h fits room f enough_free)

    absent : Stored (store_missing w) t key (negsuc 0) none
    unfolding store_missing
    absent = record {
      after = record (after_error w) { errno = 2 };
      table = t;
      returns = refl;
      holds =
          subst (λ r. Holds (record (after_error r) { errno = 2 }) t) (sym same)
            (record { hashoff = v.hashoff; nhash = v.nhash; table = v.table });
      entries =
          updated-intro (lookup t) (lookup t) key none (λ k q. lookup-text t k key q ∙ no_entry h)
            (λ k q. refl);
    }

    Stored-absent :
        (flag : Flag)
        → is_other flag ≡ false
        → Stored
            (store_found f key text' flag false w)
            t
            key
            (store_code flag none)
            (store_entry flag none text')
    unfolding store_found
    Stored-absent (other n) known = cc
    Stored-absent db_insert known = created
    Stored-absent db_replace known = absent
    Stored-absent db_store_either known = created

  store_checked_lem : (flag : Flag) → is_other flag ≡ false → Stores flag (lookup t key)
  store_checked_lem flag known =
      elim (Option-cases (link_of (has_key key) (t.chain (bucket key)))) [
        | inl missing ↦
            let (w, e, same) = search_missing db t v key f true enough missing in
            subst (Stores flag) (sym (no_entry missing)) (
              checked f key text' flag db w false t (store_code flag none)
                (store_entry flag none text') fits.text_null fits.text_some fits.text_max e
                (Stored-absent w same missing flag known))
        | inr ((o, d), found) ↦ subst (Stores flag) (sym (old_entry o d found)) (
            checked f key text' flag db (found_state db t v key true o d) true t
              (store_code flag (some (t.content o))) (store_entry flag (some (t.content o)) text')
              fits.text_null fits.text_some fits.text_max
              (search_found db t v key f true o d enough found) (Stored-there flag o d known found))
      ]

  -- In files that hold a table, for a key and data that make a valid record at the end of
  -- the data file, with room in the index file and more rounds than the key's chain and the
  -- free list have records, db_store returns; the files then hold a table again. The code
  -- is 0, or 1 where an insertion finds the key, or -1 where a replacement does not find it
  -- or the flag is wrong. The key's entry is then the data if the code is 0 and what it was
  -- otherwise, and every other key has the entry that it had.
  pub db_store_lem :
      (flag : Flag)
      → Stored
          (db_store f key text' flag db)
          t
          key
          (store_code flag (lookup t key))
          (store_entry flag (lookup t key) text')
  unfolding db_store
  db_store_lem (other n) = record {
    after = record db { errno = 22 };
    table = t;
    returns = refl;
    holds = record { hashoff = v.hashoff; nhash = v.nhash; table = v.table };
    entries =
        updated-intro (lookup t) (lookup t) key (lookup t key) (λ k q. lookup-text t k key q)
          (λ k q. refl);
  }
  db_store_lem db_insert = store_checked_lem db_insert refl
  db_store_lem db_replace = store_checked_lem db_replace refl
  db_store_lem db_store_either = store_checked_lem db_store_either refl
