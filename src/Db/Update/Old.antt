-- ===== src/Db/Update/Old.antt =====
-- `db_store` of a key that has a record: the data is written over the old, or the record is deleted
-- and a new one appended.
use mathlib.Core.Option
use somenote.Common.{
  ℕ, ◌+◌, ◌≤◌, ◌≡◌, refl, sym, ap, ◌∙◌, none, some, Option-cases, List, [], ◌∷◌, ◌++◌, inl, inr,
  arith, length, subst, Bool, true, Bool-cases, ◌==◌, ==_iff, length-append,
}
use somenote.Libc.Int.{pos}
use somenote.Libc.Text.{strlen, text_self}
use somenote.Libc.File.{length-overwrite}
use somenote.Db.State.{ptr_sz, ptr_max, newline, Db}
use somenote.Db.Index.Entry.{Entry, IsEntry, encode}
use somenote.Db.Index.Pointer.{PtrAt, with_idx, readptr-PtrAt}
use somenote.Db.Search.{hash}
use somenote.Db.Search.Chain.{Links, first, link_of, has_key}
use somenote.Db.Search.Found.{search_start, chain_of}
use somenote.Db.Table.{Table, slot_of, IsTable, Holds, bucket, offset_of}
use somenote.Db.Table.Unlink.{link_place}
use somenote.Db.Table.Search.{bucket-lt, chain_place, found_slot, found_state}
use somenote.Db.Table.Lookup.{offset_of_link}
use somenote.Db.Update.{append_record, store_longer, store_over, store_old}
use somenote.Db.Update.Blank.{blank_line, length-blank_line}
use somenote.Db.Update.Dodelete.{dodelete_lem, after_dodelete, idx_deleted, dat_deleted}
use somenote.Db.Update.Deleted.{deleted, IsTable-deleted, length-idx_deleted}
use somenote.Db.Update.Forget.{lookup-deleted, lookup-deleted_ne}
use somenote.Db.Update.Inserts.{Fits, Inserts}
use somenote.Db.Update.Append.{append_record_lem}
use somenote.Db.Update.Over.{store_over_lem}
use somenote.Db.Update.Stored.{Stored, Inserts-Stored, Stored-run}

link_of-none :
    (p : Entry → Bool) (xs : Links) (content : ℕ → List ℕ)
    → Option.map content (offset_of p xs) ≡ none
    → link_of p xs ≡ none
link_of-none p xs content h = elim (Option-cases (link_of p xs)) [
  | inl missing ↦ missing
  | inr ((o, d), found) ↦
      absurd (
        some_ne_none (content o)
          (sym (ap (Option.map content) (offset_of_link p xs o d found)) ∙ h))
]
  where
    some_ne_none : (l : List ℕ) → some l ≡ none → ⊥
    some_ne_none l q = cc

module _ (db : Db) (t : Table) (v : Holds db t) (key text' : List ℕ) (f : ℕ)
    (fits : Fits (length db.dat.bytes) key text') (room : length db.idx.bytes ≤ ptr_max) (o : ℕ)
    (d : Entry) (found : link_of (has_key key) (t.chain (bucket key)) ≡ some (o, d)) where
  abbrev w : Db
  w = found_state db t v key true o d

  abbrev free : ℕ
  free = first (t.chain 0)

  abbrev place : ℕ
  place = link_place (has_key key) (t.chain (bucket key)) (chain_of key db)

  abbrev w₁ : Db
  w₁ = after_dodelete o place free d w

  abbrev t₁ : Table
  t₁ = deleted (has_key key) (bucket key) o d t

  valid : IsEntry d
  valid = (found_slot db t v key o d found).3.valid

  in_o :
      (o ≤ ptr_max)
      × (o + length (encode d) ≤ length db.idx.bytes)
      × (d.datoff + d.datlen ≤ length db.dat.bytes)
  in_o = let r = v.table.in_idx o (slot_of d) (found_slot db t v key o d found).0 in (r.1, r.3, r.4)

  v₁ : Holds w₁ t₁
  v₁ = record {
    hashoff = v.hashoff;
    nhash = v.nhash;
    table =
        subst
          (λ q.
            IsTable
              (idx_deleted db.idx.bytes o (link_place (has_key key) (t.chain (bucket key)) q) free
                d)
              (dat_deleted db.dat.bytes d) t₁)
          (sym (chain_place db t v key))
          (IsTable-deleted db.idx.bytes db.dat.bytes t v.table (has_key key) (hash key) o d
            (bucket-lt key) found);
  }

  -- The deletion leaves the files as long as they were.
  same_dat : length (dat_deleted db.dat.bytes d) ≡ length db.dat.bytes
  same_dat = omega (
    arith,
    length-overwrite db.dat.bytes d.datoff (blank_line d.datlen ++ newline ∷ []),
    length-append (blank_line d.datlen) (newline ∷ []),
    length-blank_line d.datlen valid.datlen_min,
    in_o.2,
  )

  room₁ : length w₁.idx.bytes ≤ ptr_max
  room₁ =
      subst
        (λ q.
          length
            (idx_deleted db.idx.bytes o (link_place (has_key key) (t.chain (bucket key)) q) free d)
          ≤ ptr_max)
        (sym (chain_place db t v key))
        (rw
          (length-idx_deleted db.idx.bytes db.dat.bytes t v.table (has_key key) (hash key) o d
            (bucket-lt key) found)
          room)

  gone : link_of (has_key key) (t₁.chain (bucket key)) ≡ none
  gone =
      link_of-none (has_key key) (t₁.chain (bucket key)) t₁.content
        (lookup-deleted db.idx.bytes db.dat.bytes t v.table key o d found key refl)

  abbrev head₁ : ℕ
  head₁ = first (t₁.chain (bucket key))

  abbrev w₂ : Db
  w₂ = with_idx w₁.idx.bytes (w₁.chainoff + ptr_sz) w₁

  again : Inserts (append_record key text' (pos head₁) w₂) t₁ key text'
  again =
      append_record_lem w₂ t₁ (record { hashoff = v₁.hashoff; nhash = v₁.nhash; table = v₁.table })
        key text' (chain_place db t v key) gone (rw same_dat fits) room₁

  longer : Inserts (store_longer key text' w) t key text'
  unfolding store_longer
  longer = record {
    after = record again.after {
      counts = record again.after.counts { stor3 = again.after.counts.stor3 + 1 };
    };
    table = again.table;
    returns = rw (
      dodelete_lem (search_start key true db) o place free d valid in_o.0
          (v.table.heads 0 (omega arith)),
      readptr-PtrAt w₁.chainoff head₁ w₁ (
          subst (λ q. PtrAt w₁.idx.bytes q head₁) (sym (chain_place db t v key))
            (v₁.table.heads (bucket key) (bucket-lt key))),
      again.returns,
    );
    holds = record {
      hashoff = again.holds.hashoff;
      nhash = again.holds.nhash;
      table = again.holds.table;
    };
    there = again.there;
    kept = λ k h.
        again.kept k h ∙ lookup-deleted_ne db.idx.bytes db.dat.bytes t v.table key o d found k h;
  }

  -- The key has the record that was found: its data is replaced.
  pub store_old_lem : Stored (store_old key text' w) t key (pos 0) (some text')
  unfolding store_old strlen
  store_old_lem = elim (Bool-cases (length text' + 1 == d.datlen)) [
    | inl same ↦
        Stored-run _ _ t key (pos 0) (some text') (rw (text_self text' fits.text_null, same)) (
          Inserts-Stored (store_over text' w) t key text' (
            store_over_lem (search_start key true db) t
              (record { hashoff = v.hashoff; nhash = v.nhash; table = v.table }) key text' o d found
              (sym ((==_iff (length text' + 1) d.datlen).0 same)) fits.text_null w refl))
    | inr ne ↦
        Stored-run _ _ t key (pos 0) (some text') (rw (text_self text' fits.text_null, ne))
          (Inserts-Stored (store_longer key text' w) t key text' longer)
  ]
