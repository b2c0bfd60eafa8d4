-- ===== src/Db/Update/Stored.antt =====
-- What a call of `db_store` promises, and the store of a key that has no record.
use somenote.Common.{
  ℕ, ◌+◌, ◌*◌, ◌≤◌, ◌<◌, ◌≡◌, sym, ap, Option, none, some, Option-cases, List, ◌∷◌, inl, inr, arith,
  length, subst, true, false,
}
use somenote.Libc.Int.{ℤ, pos, negsuc}
use somenote.Libc.Text.{strlen, text_self}
use somenote.Db.State.{
  ptr_sz, ptr_max, free_off, Db, Run, ok, Cmd, pure, and_then, ◌>>◌, Counts, count,
}
use somenote.Db.Index.{readptr}
use somenote.Db.Index.Entry.{Entry, EntryAt}
use somenote.Db.Index.Pointer.{with_idx, readptr-PtrAt}
use somenote.Db.Search.Chain.{first, link_of, has_key}
use somenote.Db.Search.Free.{has_lengths}
use somenote.Db.Search.Found.{searched}
use somenote.Db.Table.{Table, slot_of, Holds, bucket, lookup}
use somenote.Db.Table.Dictionary.{updated, updated-intro}
use somenote.Db.Table.Unlink.{link_place, link_of-slot}
use somenote.Db.Table.Search.{bucket-lt}
use somenote.Db.Table.Free.{findfree-found, findfree-missing, free_call, after_findfree}
use somenote.Db.Update.{
  Flag, db_insert, db_replace, db_store_either, other, append_record, reuse_record, store_append,
  store_reuse, store_new,
}
use somenote.Db.Update.Inserts.{Fits, Inserts}
use somenote.Db.Update.Append.{append_record_lem}
use somenote.Db.Update.Reuse.{reuse_record_lem}

-- The call returns a code, and the files then hold the dictionary with an entry for the key.
pub record Stored (run : Run ℤ) (t : Table) (key : List ℕ) (code : ℤ) (entry : Option (List ℕ))
    : Type 0 where
  pub after : Db
  pub table : Table
  pub returns : run ≡ ok code after
  pub holds : Holds after table
  pub entries : (k : List ℕ) → lookup table k ≡ updated (lookup t) key entry k

-- 1 for an insertion of a key that has data, -1 for a replacement of one that has none and for any
-- other flag
abbrev pub store_code : Flag → Option (List ℕ) → ℤ
store_code (other n) old = negsuc 0
store_code db_insert none = pos 0
store_code db_insert (some line) = pos 1
store_code db_replace none = negsuc 0
store_code db_replace (some line) = pos 0
store_code db_store_either old = pos 0

-- What the key has afterwards.
abbrev pub store_entry : Flag → Option (List ℕ) → List ℕ → Option (List ℕ)
store_entry (other n) old text' = old
store_entry db_insert none text' = some text'
store_entry db_insert (some line) text' = some line
store_entry db_replace none text' = none
store_entry db_replace (some line) text' = some text'
store_entry db_store_either old text' = some text'

Inserts-count :
    (m : Cmd (Unit {0})) (f : Counts → Counts) (s : Db) (t : Table) (key text' : List ℕ)
    → Inserts (m s) t key text'
    → Inserts ((m >> count f) s) t key text'
Inserts-count m f s t key text' h = record {
  after = record h.after { counts = f h.after.counts };
  table = h.table;
  returns = rw h.returns;
  holds = record { hashoff = h.holds.hashoff; nhash = h.holds.nhash; table = h.holds.table };
  there = h.there;
  kept = h.kept;
}

pub Inserts-Stored :
    (run : Run (Unit {0})) (t : Table) (key text' : List ℕ)
    → Inserts run t key text'
    → Stored (and_then run (λ u. pure (pos 0))) t key (pos 0) (some text')
Inserts-Stored run t key text' h = record {
  after = h.after;
  table = h.table;
  returns = rw h.returns;
  holds = h.holds;
  entries = updated-intro (lookup t) (lookup h.table) key (some text') h.there h.kept;
}

-- A run that begins like another ends like it.
pub Stored-run :
    (r₁ r₂ : Run ℤ) (t : Table) (key : List ℕ) (code : ℤ) (entry : Option (List ℕ))
    → r₁ ≡ r₂
    → Stored r₂ t key code entry
    → Stored r₁ t key code entry
Stored-run r₁ r₂ t key code entry h v = subst (λ r. Stored r t key code entry) (sym h) v

module _ (w : Db) (t : Table) (v : Holds w t) (key text' : List ℕ)
    (place : w.chainoff ≡ bucket key * ptr_sz)
    (missing : link_of (has_key key) (t.chain (bucket key)) ≡ none)
    (fits : Fits (length w.dat.bytes) key text') (room : length w.idx.bytes ≤ ptr_max) (f : ℕ)
    (enough : length (t.chain 0) < f) where
  abbrev head : ℕ
  head = first (t.chain (bucket key))

  abbrev w₁ : Db
  w₁ = with_idx w.idx.bytes (w.chainoff + ptr_sz) w

  v₁ : Holds w₁ t
  v₁ = record { hashoff = v.hashoff; nhash = v.nhash; table = v.table }

  keylen : strlen key ≡ length key
  unfolding strlen
  keylen = ap length (text_self key fits.key_null)

  datlen : strlen text' ≡ length text'
  unfolding strlen
  datlen = ap length (text_self text' fits.text_null)

  start : readptr (pos w.chainoff) w ≡ ok (pos head) w₁
  start = readptr-PtrAt w.chainoff head w (rw place (v.table.heads (bucket key) (bucket-lt key)))

  appended :
      (d : Db)
      → d ≡ record (searched w₁ d) {
        ptroff = w.ptroff;
        locks = free_call true ∷ free_call false ∷ w.locks;
      }
      → Inserts (store_append key text' (pos head) d) t key text'
  unfolding store_append
  appended d same =
      Inserts-count (append_record key text' (pos head)) (λ c. record c { stor1 = c.stor1 + 1 }) d t
        key text'
        (subst (λ r. Inserts (append_record key text' (pos head) r) t key text') (sym same)
          (append_record_lem _ t (record { hashoff = v.hashoff; nhash = v.nhash; table = v.table })
            key text' place missing fits room))

  the_slot :
      (o : ℕ) (d : Entry)
      → link_of (has_lengths (length key) (length text' + 1)) (t.chain 0) ≡ some (o, d)
      → (t.slot o ≡ some (slot_of d))
        × (t.owner o ≡ 0)
        × (0 < o)
        × EntryAt w.idx.bytes o d
        × (has_lengths (length key) (length text' + 1) d ≡ true)
  the_slot o d found =
      link_of-slot w.idx.bytes w.dat.bytes t v.table (has_lengths (length key) (length text' + 1)) 0
        (t.chain 0) o d found (v.table.linked 0 (omega arith)) (v.table.owned 0 (omega arith))

  reused :
      (o : ℕ) (d : Entry)
      → link_of (has_lengths (length key) (length text' + 1)) (t.chain 0) ≡ some (o, d)
      → Inserts
          (store_reuse key text' (pos head) (
            after_findfree o
              (link_place (has_lengths (length key) (length text' + 1)) (t.chain 0) free_off)
              d
              w₁))
          t
          key
          text'
  unfolding store_reuse
  reused o d found =
      Inserts-count (reuse_record key text' (pos head)) (λ c. record c { stor2 = c.stor2 + 1 })
        (after_findfree o
          (link_place (has_lengths (length key) (length text' + 1)) (t.chain 0) free_off) d w₁)
        t key text'
        (reuse_record_lem w₁ t v₁ key text' place missing (length w.dat.bytes) fits o d found)

  -- A key without a record gets one: that of a free record of its lengths, or a new one.
  pub store_new_lem : Stored (store_new f key text' w) t key (pos 0) (some text')
  unfolding store_new
  store_new_lem =
      elim (Option-cases (link_of (has_lengths (length key) (length text' + 1)) (t.chain 0))) [
        | inl none_free ↦
            let (d, e, same) =
              findfree-missing f (length key) (length text' + 1) w₁ (t.chain 0)
                (v.table.heads 0 (omega arith)) (v.table.linked 0 (omega arith)) enough none_free in
            Stored-run _ _ t key (pos 0) (some text') (rw (start, keylen, datlen, e))
              (Inserts-Stored _ t key text' (appended d same))
        | inr ((o, d), found) ↦
            Stored-run _ _ t key (pos 0) (some text')
              (rw (
                start,
                keylen,
                datlen,
                findfree-found f (length key) (length text' + 1) w₁ (t.chain 0)
                    (v.table.heads 0 (omega arith)) (v.table.linked 0 (omega arith)) enough o d
                    (the_slot o d found).2 (the_slot o d found).3.valid.next_max found,
              ))
              (Inserts-Stored _ t key text' (reused o d found))
      ]
