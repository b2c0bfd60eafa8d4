-- ===== src/Db/Table/Removed.antt =====
-- The files after a record is taken off its chain hold the table without it.
use somenote.Common.{
  ℕ, suc, ◌+◌, ◌*◌, ◌≤◌, ◌<◌, ◌≡◌, ◌≢◌, ◌⊎◌, refl, sym, ap, ◌∙◌, inl, inr, some, Bool, true, [],
  ◌∷◌, List, arith, length, subst,
}
use somenote.Libc.File.{overwrite, length-overwrite}
use somenote.Libc.Decimal.{padded}
use somenote.Db.State.{ptr_sz, ptr_max}
use somenote.Db.Index.Entry.{Entry, EntryAt}
use somenote.Db.Index.Pointer.{PtrAt, PtrAt-overwrite, PtrAt-overwrite_ne, length-padded_ptr}
use somenote.Db.Search.Chain.{Links, first, Chain, link_of}
use somenote.Db.Table.{
  Table, Slot, slot_of, Fresh, Owned, UniqueKeys, IsTable, chains, first_record,
}
use somenote.Db.Table.Bytes.{Chain-overwrite}
use somenote.Db.Table.Unlink.{
  unlink, link_place, Fresh-of_owner, Apart-slot, Apart-header, link_of-slot, link_place-slot,
  HeadOf, Chain-unlink, lt_or_gt,
}
use somenote.Db.Table.Put.{put_all}
use somenote.Db.Table.Removal.{removed, Owned-other, Owned-unlink, UniqueKeys-unlink}

pub heads_apart :
    (a b : ℕ) → a ≢ b → (a * ptr_sz + ptr_sz ≤ b * ptr_sz) ⊎ (b * ptr_sz + ptr_sz ≤ a * ptr_sz)
heads_apart a b ne = elim (lt_or_gt a b ne) [
  | inl before ↦ inl (omega arith)
  | inr after ↦ inr (omega arith)
]

module _ (f dat : List ℕ) (t : Table) (v : IsTable f dat t) where
  Fresh-header : (j h : ℕ) (xs : Links) → h < first_record → Owned t j xs → Fresh h xs
  Fresh-header j h [] b w = tt
  Fresh-header j h ((off, e) ∷ xs) b w =
      (λ same. absurd (omega (arith, (v.in_idx off (slot_of e) w.0).0)), Fresh-header j h xs b w.3)

module _ (f dat : List ℕ) (t : Table) (v : IsTable f dat t) (p : Entry → Bool) (c o : ℕ) (d : Entry)
    (low : c < chains) (found : link_of p (t.chain c) ≡ some (o, d)) where
  abbrev place : ℕ
  place = link_place p (t.chain c) (c * ptr_sz)

  abbrev after : List ℕ
  after = overwrite f place (padded ptr_sz d.next)

  the_slot :
      (t.slot o ≡ some (slot_of d)) × (t.owner o ≡ c) × (0 < o) × EntryAt f o d × (p d ≡ true)
  the_slot = link_of-slot f dat t v p c (t.chain c) o d found (v.linked c low) (v.owned c low)

  next_max : d.next ≤ ptr_max
  next_max = the_slot.3.valid.next_max

  chain_unlinked : Chain after (unlink p (t.chain c)) × HeadOf p (t.chain c) (c * ptr_sz) d
  chain_unlinked =
      Chain-unlink f dat t v p c o d (t.chain c) (c * ptr_sz) found (v.linked c low) (v.owned c low)
        (omega (arith, v.header))
        (Fresh-header f dat t v c (c * ptr_sz) (t.chain c) (omega arith) (v.owned c low))
        (Apart-header f dat t v c (c * ptr_sz) ptr_sz (t.chain c) (omega arith) (v.owned c low))
        next_max

  -- The place is the head of the chain, or lies in a slot of the chain.
  place_cases : (place ≡ c * ptr_sz) ⊎ ((s : Slot) × (t.slot place ≡ some s) × (t.owner place ≡ c))
  place_cases = link_place-slot f dat t v p c (t.chain c) (c * ptr_sz) (v.owned c low)

  place_in : place ≤ length f
  place_in = elim place_cases [
    | inl head ↦ omega (arith, v.header, head)
    | inr (s, sl, ow) ↦ omega (arith, (v.in_idx place s sl).3)
  ]

  -- The heads of other chains are not touched.
  head_kept :
      (j n : ℕ)
      → j < chains
      → j * ptr_sz ≢ place
      → PtrAt f (j * ptr_sz) n
      → PtrAt after (j * ptr_sz) n
  head_kept j n b ne h =
      PtrAt-overwrite_ne f (j * ptr_sz) n place (padded ptr_sz d.next) place_in
        (elim place_cases [
          | inl head ↦ apart head
          | inr (s, sl, ow) ↦ inl (omega (arith, (v.in_idx place s sl).0))
        ])
        h
    where
      apart :
          place ≡ c * ptr_sz
          → (j * ptr_sz + ptr_sz ≤ place) ⊎ (place + length (padded ptr_sz d.next) ≤ j * ptr_sz)
      apart head =
          rw (length-padded_ptr d.next next_max, head)
            (heads_apart j c (λ same. ne (ap (λ k. k * ptr_sz) same ∙ sym head)))

  chain_kept : (j : ℕ) → j < chains → j ≢ c → Chain after (t.chain j)
  chain_kept j b ne =
      Chain-overwrite f place (padded ptr_sz d.next) (t.chain j) place_in
        (rw (length-padded_ptr d.next next_max) (elim place_cases [
          | inl head ↦
              Apart-header f dat t v j place ptr_sz (t.chain j) (omega (arith, head)) (v.owned j b)
          | inr (s, sl, ow) ↦
              Apart-slot f dat t v j place ptr_sz s (t.chain j) sl (v.in_idx place s sl).2
                (Fresh-of_owner t j place (t.chain j) (v.owned j b) (λ same. ne (sym same ∙ ow)))
                (v.owned j b)
        ]))
        (v.linked j b)

  head_ne : (j : ℕ) → j ≢ c → j < chains → j * ptr_sz ≢ place
  head_ne j ne b = elim place_cases [
    | inl head ↦ λ same. ne (omega (arith, same, head))
    | inr (s, sl, ow) ↦ λ same. absurd (omega (arith, same, (v.in_idx place s sl).0))
  ]

  head_new : PtrAt after (c * ptr_sz) (first (unlink p (t.chain c)))
  head_new = elim chain_unlinked.1 [
    | inl (here, hd) ↦
        subst (λ n. PtrAt after (c * ptr_sz) n) (sym hd)
          (subst (λ q. PtrAt after q d.next) here (PtrAt-overwrite f place d.next next_max))
    | inr (there, hd) ↦
        subst (λ n. PtrAt after (c * ptr_sz) n) (sym hd)
          (head_kept c (first (t.chain c)) low (λ same. there (sym same)) (v.heads c low))
  ]

  pub IsTable-removed : IsTable after dat (removed p c o t)
  IsTable-removed = record {
    heads =
        put_all (λ j xs. j < chains → PtrAt after (j * ptr_sz) (first xs)) c (unlink p (t.chain c))
          t.chain (λ b. head_new)
          (λ j ne b. head_kept j (first (t.chain j)) b (head_ne j ne b) (v.heads j b));
    linked =
        put_all (λ j xs. j < chains → Chain after xs) c (unlink p (t.chain c)) t.chain
          (λ b. chain_unlinked.0) (λ j ne b. chain_kept j b ne);
    owned =
        put_all (λ j xs. j < chains → Owned (removed p c o t) j xs) c (unlink p (t.chain c)) t.chain
          (λ b. Owned-unlink f dat t v p c o d (t.chain c) found (v.linked c low) (v.owned c low))
          (λ j ne b.
            Owned-other p c o j t (t.chain j)
              (Fresh-of_owner t j o (t.chain j) (v.owned j b) (λ same. ne (sym same ∙ the_slot.1)))
              (v.owned j b));
    keys = λ k b.
        put_all (λ j xs. (i : ℕ) → j ≡ suc i → suc i < chains → UniqueKeys xs) c
          (unlink p (t.chain c)) t.chain
          (λ i e b'.
            UniqueKeys-unlink p (t.chain c)
              (subst (λ j. UniqueKeys (t.chain j)) (sym e) (v.keys i b')))
          (λ j ne i e b'. subst (λ l. UniqueKeys (t.chain l)) (sym e) (v.keys i b')) (suc k) k refl
          b;
    header = omega (arith, v.header, length-overwrite f place (padded ptr_sz d.next));
    in_idx = λ a s e.
        let old : (first_record ≤ a)
            × (a ≤ ptr_max)
            × (7 ≤ s.size)
            × (a + s.size ≤ length f)
            × (s.datoff + s.datlen ≤ length dat) =
          v.in_idx a s e in
        (
          old.0,
          old.1,
          old.2,
          omega (arith, old.3, length-overwrite f place (padded ptr_sz d.next)),
          old.4,
        );
    spaced = v.spaced;
    data_at = v.data_at;
  }
