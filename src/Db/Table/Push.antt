-- ===== src/Db/Table/Push.antt =====
-- A record in a slot that is on no chain is written, and becomes the first of a chain.
use somenote.Common.{
  ℕ, suc, ◌+◌, ◌*◌, ◌≤◌, ◌<◌, ◌≡◌, refl, sym, ◌∙◌, inl, inr, some, List, [], ◌∷◌, arith, length,
  subst,
}
use somenote.Libc.File.{overwrite, length-overwrite}
use somenote.Libc.Decimal.{padded}
use somenote.Db.State.{ptr_sz, ptr_max}
use somenote.Db.Index.Entry.{Entry, encode, EntryAt, EntryAt-overwrite_ne}
use somenote.Db.Index.Pointer.{PtrAt, PtrAt-overwrite, PtrAt-overwrite_ne, length-padded_ptr}
use somenote.Db.Search.Chain.{Links, first, Chain}
use somenote.Db.Table.{
  Table, slot_of, Fresh, FreshKey, Owned, UniqueKeys, IsTable, chains, nobody, first_record,
}
use somenote.Db.Table.Bytes.{Chain-overwrite}
use somenote.Db.Table.Unlink.{Fresh-of_owner, Apart-slot, Apart-header}
use somenote.Db.Table.Put.{put, put_all, put_self, put_ne}
use somenote.Db.Table.Removed.{heads_apart}

-- The table with the record of a slot at the head of a chain.
abbrev pub pushed : ℕ → ℕ → Entry → Table → Table
pushed c x e t = record t { chain = put c ((x, e) ∷ t.chain c) t.chain; owner = put x c t.owner }

Owned-pushed :
    (c x j : ℕ) (e : Entry) (t : Table) (xs : Links)
    → Fresh x xs
    → Owned t j xs
    → Owned (pushed c x e t) j xs
Owned-pushed c x j e t [] h w = tt
Owned-pushed c x j e t ((off, e') ∷ xs) h w =
    (w.0, put_ne x c t.owner off h.0 ∙ w.1, w.2, Owned-pushed c x j e t xs h.1 w.3)

module _ (f dat : List ℕ) (t : Table) (v : IsTable f dat t) (x : ℕ) (e : Entry)
    (slot_x : t.slot x ≡ some (slot_of e)) (free_x : t.owner x ≡ nobody) where
  fresh : (j : ℕ) → j < chains → Fresh x (t.chain j)
  fresh j b =
      Fresh-of_owner t j x (t.chain j) (v.owned j b) (λ same. absurd (omega (arith, same, free_x)))

  in_x : (first_record ≤ x) × (x ≤ ptr_max) × (x + length (encode e) ≤ length f)
  in_x = (
    (v.in_idx x (slot_of e) slot_x).0,
    (v.in_idx x (slot_of e) slot_x).1,
    (v.in_idx x (slot_of e) slot_x).3,
  )

  -- Writing the record into its slot changes nothing that the table says.
  pub IsTable-entry : IsTable (overwrite f x (encode e)) dat t
  IsTable-entry = record {
    heads = λ c b.
        PtrAt-overwrite_ne f (c * ptr_sz) (first (t.chain c)) x (encode e) (omega (arith, in_x.2))
          (inl (omega (arith, in_x.0))) (v.heads c b);
    linked = λ c b.
        Chain-overwrite f x (encode e) (t.chain c) (omega (arith, in_x.2))
          (Apart-slot f dat t v c x (length (encode e)) (slot_of e) (t.chain c) slot_x (omega arith)
            (fresh c b) (v.owned c b))
          (v.linked c b);
    owned = v.owned;
    keys = v.keys;
    header = omega (arith, v.header, length-overwrite f x (encode e));
    in_idx = λ a s h.
        let old : (first_record ≤ a)
            × (a ≤ ptr_max)
            × (7 ≤ s.size)
            × (a + s.size ≤ length f)
            × (s.datoff + s.datlen ≤ length dat) =
          v.in_idx a s h in
        (old.0, old.1, old.2, omega (arith, old.3, length-overwrite f x (encode e)), old.4);
    spaced = v.spaced;
    data_at = v.data_at;
  }

  module _ (c : ℕ) (low : c < chains) (at : EntryAt f x e) (next : e.next ≡ first (t.chain c))
      (new : (k : ℕ) → c ≡ suc k → FreshKey e.key (t.chain c)) where
    abbrev head_written : List ℕ
    head_written = overwrite f (c * ptr_sz) (padded ptr_sz x)

    len : length (padded ptr_sz x) ≡ ptr_sz
    len = length-padded_ptr x in_x.1

    kept : (j : ℕ) → j < chains → Chain head_written (t.chain j)
    kept j b =
        Chain-overwrite f (c * ptr_sz) (padded ptr_sz x) (t.chain j) (omega (arith, v.header))
          (rw len
            (Apart-header f dat t v j (c * ptr_sz) ptr_sz (t.chain j) (omega arith) (v.owned j b)))
          (v.linked j b)

    -- The pointer at the head of the chain is made to lead to the record.
    pub IsTable-pushed : IsTable head_written dat (pushed c x e t)
    IsTable-pushed = record {
      heads =
          put_all (λ j xs. j < chains → PtrAt head_written (j * ptr_sz) (first xs)) c
            ((x, e) ∷ t.chain c) t.chain (λ b. PtrAt-overwrite f (c * ptr_sz) x in_x.1)
            (λ j ne b.
              PtrAt-overwrite_ne f (j * ptr_sz) (first (t.chain j)) (c * ptr_sz) (padded ptr_sz x)
                (omega (arith, v.header)) (rw len (heads_apart j c ne)) (v.heads j b));
      linked =
          put_all (λ j xs. j < chains → Chain head_written xs) c ((x, e) ∷ t.chain c) t.chain
            (λ b. (omega (arith, in_x.0), entry_kept, next, kept c b)) (λ j ne b. kept j b);
      owned =
          put_all (λ j xs. j < chains → Owned (pushed c x e t) j xs) c ((x, e) ∷ t.chain c) t.chain
            (λ b. (
              slot_x,
              put_self x c t.owner,
              fresh c b,
              Owned-pushed c x c e t (t.chain c) (fresh c b) (v.owned c b),
            ))
            (λ j ne b. Owned-pushed c x j e t (t.chain j) (fresh j b) (v.owned j b));
      keys = λ k b.
          put_all (λ j xs. (i : ℕ) → j ≡ suc i → suc i < chains → UniqueKeys xs) c
            ((x, e) ∷ t.chain c) t.chain
            (λ i h b'. (new i h, subst (λ j. UniqueKeys (t.chain j)) (sym h) (v.keys i b')))
            (λ j ne i h b'. subst (λ l. UniqueKeys (t.chain l)) (sym h) (v.keys i b')) (suc k) k
            refl b;
      header = omega (arith, v.header, length-overwrite f (c * ptr_sz) (padded ptr_sz x));
      in_idx = λ a s h.
          let old : (first_record ≤ a)
              × (a ≤ ptr_max)
              × (7 ≤ s.size)
              × (a + s.size ≤ length f)
              × (s.datoff + s.datlen ≤ length dat) =
            v.in_idx a s h in
          (
            old.0,
            old.1,
            old.2,
            omega (arith, old.3, length-overwrite f (c * ptr_sz) (padded ptr_sz x)),
            old.4,
          );
      spaced = v.spaced;
      data_at = v.data_at;
    }
      where
        entry_kept : EntryAt head_written x e
        entry_kept =
            EntryAt-overwrite_ne f x e (c * ptr_sz) (padded ptr_sz x) (omega (arith, v.header))
              (inr (omega (arith, len, in_x.0))) at
