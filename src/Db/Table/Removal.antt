-- ===== src/Db/Table/Removal.antt =====
-- A table stays a table when a record is taken off its chain.
use somenote.Common.{
  ℕ, ◌≤◌, ◌≡◌, ◌≢◌, sym, ap, ◌∙◌, inl, inr, some, some-injective, Bool, Bool-cases, List, [], ◌∷◌,
  arith, length, subst,
}
use somenote.Db.State.{ptr_max}
use somenote.Db.Index.Entry.{Entry, encode}
use somenote.Db.Search.Chain.{Links, first, Chain, link_of}
use somenote.Db.Table.{Table, slot_of, Fresh, FreshKey, Owned, UniqueKeys, IsTable, nobody}
use somenote.Db.Table.Bytes.{with_next, length-encode-with_next}
use somenote.Db.Table.Unlink.{unlink}
use somenote.Db.Table.Put.{put, put_ne}

Fresh-unlink : (p : Entry → Bool) (x : ℕ) (xs : Links) → Fresh x xs → Fresh x (unlink p xs)
Fresh-unlink p x [] h = tt
Fresh-unlink p x ((off, e) ∷ xs) h = elim (Bool-cases (p e)) [
  | inl found ↦ rw found h.1
  | inr other ↦ rw other (h.0, Fresh-unlink p x xs h.1)
]

FreshKey-unlink :
    (p : Entry → Bool) (key : List ℕ) (xs : Links) → FreshKey key xs → FreshKey key (unlink p xs)
FreshKey-unlink p key [] h = tt
FreshKey-unlink p key ((off, e) ∷ xs) h = elim (Bool-cases (p e)) [
  | inl found ↦ rw found h.1
  | inr other ↦ rw other (h.0, FreshKey-unlink p key xs h.1)
]

pub UniqueKeys-unlink : (p : Entry → Bool) (xs : Links) → UniqueKeys xs → UniqueKeys (unlink p xs)
UniqueKeys-unlink p [] h = tt
UniqueKeys-unlink p ((off, e) ∷ xs) h = elim (Bool-cases (p e)) [
  | inl found ↦ rw found h.1
  | inr other ↦ rw other (FreshKey-unlink p e.key xs h.0, UniqueKeys-unlink p xs h.1)
]

pub link_of-ne :
    (p : Entry → Bool) (x : ℕ) (xs : Links) (o : ℕ) (d : Entry)
    → Fresh x xs
    → link_of p xs ≡ some (o, d)
    → o ≢ x
link_of-ne p x [] o d h l = cc
link_of-ne p x ((off, e) ∷ xs) o d h l = elim (Bool-cases (p e)) [
  | inl found ↦
      let l' : some (off, e) ≡ some (o, d) = rw found at l in
      λ same. h.0 (ap (λ (r : ℕ × Entry). r.0) (some-injective (off, e) (o, d) l') ∙ same)
  | inr other ↦ let l' : link_of p xs ≡ some (o, d) = rw other at l in link_of-ne p x xs o d h.1 l'
]

-- The table without that record on its chain.
abbrev pub removed : (Entry → Bool) → ℕ → ℕ → Table → Table
removed p c o t = record t {
  chain = put c (unlink p (t.chain c)) t.chain;
  owner = put o nobody t.owner;
}

-- A chain that the slot is not on does not notice.
pub Owned-other :
    (p : Entry → Bool) (c o j : ℕ) (t : Table) (xs : Links)
    → Fresh o xs
    → Owned t j xs
    → Owned (removed p c o t) j xs
Owned-other p c o j t [] h w = tt
Owned-other p c o j t ((off, e) ∷ xs) h w =
    (w.0, put_ne o nobody t.owner off h.0 ∙ w.1, w.2, Owned-other p c o j t xs h.1 w.3)

module _ (f dat : List ℕ) (t : Table) (v : IsTable f dat t) (p : Entry → Bool) (c o : ℕ)
    (d : Entry) where
  first-le : (j : ℕ) (xs : Links) → Owned t j xs → first xs ≤ ptr_max
  first-le j [] w = omega arith
  first-le j ((off, e) ∷ xs) w = (v.in_idx off (slot_of e) w.0).1

  first-unlink-le : (j : ℕ) (xs : Links) → Owned t j xs → first (unlink p xs) ≤ ptr_max
  first-unlink-le j [] w = omega arith
  first-unlink-le j ((off, e) ∷ xs) w = elim (Bool-cases (p e)) [
    | inl found ↦ rw found (first-le j xs w.3)
    | inr other ↦ rw other (v.in_idx off (slot_of e) w.0).1
  ]

  pub Owned-unlink :
      (xs : Links)
      → link_of p xs ≡ some (o, d)
      → Chain f xs
      → Owned t c xs
      → Owned (removed p c o t) c (unlink p xs)
  Owned-unlink [] l k w = tt
  Owned-unlink ((off, e) ∷ xs) l k w = elim (Bool-cases (p e)) [
    | inl found ↦
        let l' : some (off, e) ≡ some (o, d) = rw found at l in
        let same : off ≡ o = ap (λ (r : ℕ × Entry). r.0) (some-injective (off, e) (o, d) l') in
        rw found (Owned-other p c o c t xs (subst (λ x. Fresh x xs) same w.2) w.3)
    | inr other ↦
        let l' : link_of p xs ≡ some (o, d) = rw other at l in
        let len : length (encode e) ≡ length (encode (with_next e (first (unlink p xs)))) =
          sym (
            length-encode-with_next e (first (unlink p xs)) (first-unlink-le c xs w.3) k.1.valid) in
        rw other (
          w.0
              ∙ ap (λ (n : ℕ). some (record { size = n; datoff = e.datoff; datlen = e.datlen }))
                  len,
          put_ne o nobody t.owner off (λ same. link_of-ne p off xs o d w.2 l' (sym same)) ∙ w.1,
          Fresh-unlink p off xs w.2,
          Owned-unlink xs l' k.3 w.3,
        )
  ]
