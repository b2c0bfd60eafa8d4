-- ===== src/Db/Table/Grow.antt =====
-- A record and its data are appended to the two files: a new slot, on no chain yet.
use somenote.Common.{
  ℕ, ◌+◌, ◌*◌, ◌≤◌, ◌<◌, ◌≡◌, ◌≢◌, sym, ap, ◌∙◌, inl, inr, some, some-injective, List, [], ◌∷◌,
  ◌++◌, arith, length, length-append, subst,
}
use somenote.Libc.File.{overwrite, length-overwrite}
use somenote.Libc.Text.{NoNull}
use somenote.Db.State.{ptr_sz, ptr_max, newline}
use somenote.Db.Index.Entry.{Entry, IsEntry, encode, length-encode}
use somenote.Db.Index.Pointer.{PtrAt-overwrite_ne}
use somenote.Db.Data.RoundTrip.{DataAt, DataAt-overwrite}
use somenote.Db.Search.Chain.{Links, first}
use somenote.Db.Table.{Table, Slot, slot_of, Owned, IsTable, nobody, first_record}
use somenote.Db.Table.Bytes.{Apart, Chain-overwrite}
use somenote.Db.Table.Unlink.{Owned-map}
use somenote.Db.Table.Refill.{DataAt-overwrite_ne}
use somenote.Db.Table.Put.{put, put_all, put_self, put_ne, eq_or_ne}

-- The table with the slot of a record, on no chain.
abbrev pub grown : ℕ → Entry → List ℕ → Table → Table
grown x e line t = record t {
  slot = put x (some (slot_of e)) t.slot;
  owner = put x nobody t.owner;
  content = put x line t.content;
}

module _ (f dat : List ℕ) (t : Table) (v : IsTable f dat t) (e : Entry) (line : List ℕ)
    (valid : IsEntry e) (room : length f ≤ ptr_max) (at_end : e.datoff ≡ length dat)
    (fits : e.datlen ≡ length line + 1) (clean : NoNull line) where
  abbrev x : ℕ
  x = length f

  abbrev idx_grown : List ℕ
  idx_grown = overwrite f x (encode e)

  abbrev dat_grown : List ℕ
  dat_grown = overwrite dat (length dat) (line ++ newline ∷ [])

  len_idx : length idx_grown ≡ x + length (encode e)
  len_idx = omega (arith, length-overwrite f x (encode e))

  len_dat : length dat_grown ≡ length dat + (length line + 1)
  len_dat = omega (
    arith,
    length-overwrite dat (length dat) (line ++ newline ∷ []),
    length-append line (newline ∷ []),
  )

  old_ne : (a : ℕ) (s : Slot) → t.slot a ≡ some s → a ≢ x
  old_ne a s h same = omega (arith, same, (v.in_idx a s h).3, (v.in_idx a s h).2)

  Apart-end : (c : ℕ) (xs : Links) (n : ℕ) → Owned t c xs → Apart x n xs
  Apart-end c [] n w = tt
  Apart-end c ((off, e') ∷ xs) n w = (inl (v.in_idx off (slot_of e') w.0).3, Apart-end c xs n w.3)

  -- Of two slots the first one ends before the second one begins.
  Spaced : ℕ → ℕ → Slot → Slot → Type 0
  Spaced a b s u = a < b → (a + s.size ≤ b) × (s.datoff + s.datlen ≤ u.datoff)

  Spaced-grown :
      (a : ℕ) (s : Slot)
      → (grown x e line t).slot a ≡ some s
      → (b : ℕ) (u : Slot) → (grown x e line t).slot b ≡ some u
      → Spaced a b s u
  unfolding Spaced
  Spaced-grown =
      put_all
        (λ a o.
          (s : Slot)
          → o ≡ some s
          → (b : ℕ) (u : Slot) → (grown x e line t).slot b ≡ some u
          → Spaced a b s u)
        x (some (slot_of e)) t.slot
        (λ s h.
          put_all (λ b o. (u : Slot) → o ≡ some u → Spaced x b s u) x (some (slot_of e)) t.slot
            (λ u g lt. absurd (omega arith))
            (λ b ne u g lt. absurd (omega (arith, (v.in_idx b u g).3))))
        (λ a ne s h.
          put_all (λ b o. (u : Slot) → o ≡ some u → Spaced a b s u) x (some (slot_of e)) t.slot
            (λ u g lt.
              subst (λ (r : Slot). (a + s.size ≤ x) × (s.datoff + s.datlen ≤ r.datoff))
                (some-injective (slot_of e) u g)
                ((v.in_idx a s h).3, omega (arith, (v.in_idx a s h).4, at_end)))
            (λ b ne' u g lt. v.spaced a b s u h g lt))

  DataOf : ℕ → Slot → List ℕ → Type 0
  DataOf a s text = (s.datlen ≡ length text + 1) × NoNull text × DataAt dat_grown s.datoff text

  new_data : (s : Slot) → slot_of e ≡ s → DataOf x s line
  unfolding DataOf
  new_data s h =
      subst
        (λ (r : Slot). (r.datlen ≡ length line + 1) × NoNull line × DataAt dat_grown r.datoff line)
        h (fits, clean, rw at_end (DataAt-overwrite dat (length dat) line))

  old_data : (a : ℕ) (s : Slot) → t.slot a ≡ some s → DataOf a s (t.content a)
  unfolding DataOf
  old_data a s h = (
    (v.data_at a s h).0,
    (v.data_at a s h).1,
    DataAt-overwrite_ne dat s.datoff (t.content a) (length dat) (line ++ newline ∷ []) (omega arith)
        (inl (omega (arith, (v.data_at a s h).0, (v.in_idx a s h).4))) (v.data_at a s h).2,
  )

  data_grown :
      (a : ℕ) (s : Slot)
      → (grown x e line t).slot a ≡ some s
      → DataOf a s ((grown x e line t).content a)
  data_grown a s h = elim (eq_or_ne a x) [
    | inl same ↦
        let h' : some (slot_of e) ≡ some s =
          sym (put_self x (some (slot_of e)) t.slot)
          ∙ ap (put x (some (slot_of e)) t.slot) (sym same)
          ∙ h in
        subst (λ k. DataOf k s (put x line t.content k)) (sym same)
          (subst (DataOf x s) (sym (put_self x line t.content))
            (new_data s (some-injective (slot_of e) s h')))
    | inr ne ↦
        subst (DataOf a s) (sym (put_ne x line t.content a ne))
          (old_data a s (sym (put_ne x (some (slot_of e)) t.slot a ne) ∙ h))
  ]

  pub IsTable-grown : IsTable idx_grown dat_grown (grown x e line t)
  unfolding Spaced DataOf
  IsTable-grown = record {
    heads = λ c b.
        PtrAt-overwrite_ne f (c * ptr_sz) (first (t.chain c)) x (encode e) (omega arith)
          (inl (omega (arith, v.header))) (v.heads c b);
    linked = λ c b.
        Chain-overwrite f x (encode e) (t.chain c) (omega arith)
          (Apart-end c (t.chain c) (length (encode e)) (v.owned c b)) (v.linked c b);
    owned = λ c b.
        Owned-map t (grown x e line t) c (t.chain c)
          (λ a s h o. (
            put_ne x (some (slot_of e)) t.slot a (old_ne a s h) ∙ h,
            put_ne x nobody t.owner a (old_ne a s h) ∙ o,
          ))
          (v.owned c b);
    keys = v.keys;
    header = omega (arith, v.header, len_idx);
    in_idx =
        put_all
          (λ a o.
            (s : Slot)
            → o ≡ some s
            → (first_record ≤ a)
              × (a ≤ ptr_max)
              × (7 ≤ s.size)
              × (a + s.size ≤ length idx_grown)
              × (s.datoff + s.datlen ≤ length dat_grown))
          x (some (slot_of e)) t.slot
          (λ s h.
            subst
              (λ (s' : Slot).
                (first_record ≤ x)
                × (x ≤ ptr_max)
                × (7 ≤ s'.size)
                × (x + s'.size ≤ length idx_grown)
                × (s'.datoff + s'.datlen ≤ length dat_grown))
              (some-injective (slot_of e) s h)
              (
                v.header,
                room,
                omega (arith, length-encode e valid),
                omega (arith, len_idx),
                omega (arith, len_dat, at_end, fits),
              ))
          (λ a ne s h.
            let old : (first_record ≤ a)
                × (a ≤ ptr_max)
                × (7 ≤ s.size)
                × (a + s.size ≤ length f)
                × (s.datoff + s.datlen ≤ length dat) =
              v.in_idx a s h in
            (old.0, old.1, old.2, omega (arith, old.3, len_idx), omega (arith, old.4, len_dat)));
    spaced = λ a b s u h g. Spaced-grown a s h b u g;
    data_at = data_grown;
  }
