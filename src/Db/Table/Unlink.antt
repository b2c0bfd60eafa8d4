-- ===== src/Db/Table/Unlink.antt =====
-- Taking a record off its chain: the pointer that leads to it is made to lead to the next one.
use somenote.Common.{
  ℕ, ◌+◌, ◌≤◌, ◌<◌, ◌≡◌, ◌≢◌, ◌⊎◌, refl, sym, ap, ◌∙◌, inl, inr, some, some-injective, Bool, true,
  Bool-cases, List, [], ◌∷◌, arith, length, subst, if◌then◌else◌,
}
use somenote.Libc.Int.{pos}
use somenote.Libc.File.{overwrite}
use somenote.Libc.Decimal.{padded}
use somenote.Db.State.{ptr_sz, ptr_max}
use somenote.Db.Index.Entry.{Entry, encode, EntryAt, EntryAt-overwrite_ne}
use somenote.Db.Index.Pointer.{length-padded_ptr}
use somenote.Db.Search.Chain.{Links, first, Chain, link_of, link_before}
use somenote.Db.Table.{Table, Slot, slot_of, Fresh, Owned, IsTable}
use somenote.Db.Table.Bytes.{Apart, Chain-overwrite, with_next, EntryAt-with_next}

-- The chain without its first record that passes the test.
abbrev pub unlink : (Entry → Bool) → Links → Links
unlink p [] = []
unlink p ((off, e) ∷ xs) =
    if p e then xs else (off, with_next e (first (unlink p xs))) ∷ unlink p xs

-- `link_before`, as an offset
abbrev pub link_place : (Entry → Bool) → Links → ℕ → ℕ
link_place p [] q = q
link_place p ((off, e) ∷ xs) q = if p e then q else link_place p xs off

pub link_before-pos :
    (p : Entry → Bool) (xs : Links) (q : ℕ) → link_before p xs (pos q) ≡ pos (link_place p xs q)
link_before-pos p [] q = refl
link_before-pos p ((off, e) ∷ xs) q = elim (Bool-cases (p e)) [
  | inl found ↦ rw found
  | inr other ↦ rw other (link_before-pos p xs off)
]

pub lt_or_gt : (a b : ℕ) → a ≢ b → (a < b) ⊎ (b < a)
lt_or_gt a b h = grind arith

pub Fresh-of_owner : (t : Table) (c x : ℕ) (xs : Links) → Owned t c xs → t.owner x ≢ c → Fresh x xs
Fresh-of_owner t c x [] o h = tt
Fresh-of_owner t c x ((off, e) ∷ xs) o h =
    (λ same. h (ap t.owner (sym same) ∙ o.1), Fresh-of_owner t c x xs o.3 h)

-- A chain sees of a table its slots alone.
pub Owned-map :
    (t u : Table) (c : ℕ) (xs : Links)
    → ((a : ℕ) (s : Slot)
        → t.slot a ≡ some s
        → t.owner a ≡ c
        → (u.slot a ≡ some s) × (u.owner a ≡ c))
    → Owned t c xs
    → Owned u c xs
Owned-map t u c [] h w = tt
Owned-map t u c ((off, e) ∷ xs) h w =
    let k : (u.slot off ≡ some (slot_of e)) × (u.owner off ≡ c) = h off (slot_of e) w.0 w.1 in
    (k.0, k.1, w.2, Owned-map t u c xs h w.3)

module _ (f dat : List ℕ) (t : Table) (v : IsTable f dat t) where
  -- A write at the beginning of another slot does not meet a chain.
  pub Apart-slot :
      (c x n : ℕ) (s : Slot) (xs : Links)
      → t.slot x ≡ some s
      → n ≤ s.size
      → Fresh x xs
      → Owned t c xs
      → Apart x n xs
  Apart-slot c x n s [] e h fr o = tt
  Apart-slot c x n s ((off, e') ∷ xs) e h fr o = elim (lt_or_gt off x fr.0) [
    | inl before ↦
        (inl (v.spaced off x (slot_of e') s o.0 e before).0, Apart-slot c x n s xs e h fr.1 o.3)
    | inr after ↦
        let g : x + s.size ≤ off = (v.spaced x off s (slot_of e') e o.0 after).0 in
        (inr (omega arith), Apart-slot c x n s xs e h fr.1 o.3)
  ]

  -- Nor does a write before the first record.
  pub Apart-header : (c at n : ℕ) (xs : Links) → at + n ≤ 967 → Owned t c xs → Apart at n xs
  Apart-header c at n [] h o = tt
  Apart-header c at n ((off, e) ∷ xs) h o =
      (inr (omega (arith, (v.in_idx off (slot_of e) o.0).0)), Apart-header c at n xs h o.3)

  -- The slot of a record that is found.
  pub link_of-slot :
      (p : Entry → Bool) (c : ℕ) (xs : Links) (o : ℕ) (d : Entry)
      → link_of p xs ≡ some (o, d)
      → Chain f xs
      → Owned t c xs
      → (t.slot o ≡ some (slot_of d)) × (t.owner o ≡ c) × (0 < o) × EntryAt f o d × (p d ≡ true)
  link_of-slot p c [] o d h k w = cc
  link_of-slot p c ((off, e) ∷ xs) o d h k w = elim (Bool-cases (p e)) [
    | inl found ↦
        let h' : some (off, e) ≡ some (o, d) = rw found at h in
        subst
          (λ (l : ℕ × Entry).
            (t.slot l.0 ≡ some (slot_of l.1))
            × (t.owner l.0 ≡ c)
            × (0 < l.0)
            × EntryAt f l.0 l.1
            × (p l.1 ≡ true))
          (some-injective (off, e) (o, d) h') (w.0, w.1, k.0, k.1, found)
    | inr other ↦
        let h' : link_of p xs ≡ some (o, d) = rw other at h in link_of-slot p c xs o d h' k.3 w.3
  ]

  -- Where the pointer to a record stands: at the head of the chain, or in a slot of the chain.
  pub link_place-slot :
      (p : Entry → Bool) (c : ℕ) (xs : Links) (h : ℕ)
      → Owned t c xs
      → (link_place p xs h ≡ h)
        ⊎ ((s : Slot) × (t.slot (link_place p xs h) ≡ some s) × (t.owner (link_place p xs h) ≡ c))
  link_place-slot p c [] h w = inl refl
  link_place-slot p c ((off, e) ∷ xs) h w = elim (Bool-cases (p e)) [
    | inl found ↦ rw found (inl refl)
    | inr other ↦ rw other (elim (link_place-slot p c xs off w.3) [
      | inl same ↦ inr (slot_of e, ap t.slot same ∙ w.0, ap t.owner same ∙ w.1)
      | inr inner ↦ inr inner
    ])
  ]

link_place-ne :
    (p : Entry → Bool) (xs : Links) (off h : ℕ) → off ≢ h → Fresh h xs → link_place p xs off ≢ h
link_place-ne p [] off h ne fr = ne
link_place-ne p ((o, e) ∷ xs) off h ne fr = elim (Bool-cases (p e)) [
  | inl found ↦ rw found ne
  | inr other ↦ rw other (link_place-ne p xs o h fr.0 fr.1)
]

-- Whether the pointer that changes is the one outside the chain, and the new head.
abbrev pub HeadOf : (Entry → Bool) → Links → ℕ → Entry → Type 0
HeadOf p xs h d =
    ((link_place p xs h ≡ h) × (first (unlink p xs) ≡ d.next))
    ⊎ ((link_place p xs h ≢ h) × (first (unlink p xs) ≡ first xs))

module _ (f dat : List ℕ) (t : Table) (v : IsTable f dat t) (p : Entry → Bool) (c o : ℕ)
    (d : Entry) where
  -- The file with the pointer changed.
  abbrev unlinked : Links → ℕ → List ℕ
  unlinked xs h = overwrite f (link_place p xs h) (padded ptr_sz d.next)

  -- The record before the one that is taken off, or one further up.
  EntryAt-unlinked :
      (off : ℕ) (e : Entry) (xs : Links)
      → EntryAt f off e
      → (t.slot off ≡ some (slot_of e))
      → Owned t c xs
      → (e.next ≡ first xs)
      → d.next ≤ ptr_max
      → HeadOf p xs off d
      → EntryAt (unlinked xs off) off (with_next e (first (unlink p xs)))
  EntryAt-unlinked off e xs at sl w nx m (inl (here, hd)) =
      subst (λ n. EntryAt (unlinked xs off) off (with_next e n)) (sym hd)
        (subst (λ x. EntryAt (overwrite f x (padded ptr_sz d.next)) off (with_next e d.next))
          (sym here) (EntryAt-with_next f off e d.next m at))
  EntryAt-unlinked off e xs at sl w nx m (inr (there, hd)) =
      subst (λ n. EntryAt (unlinked xs off) off (with_next e n)) (nx ∙ sym hd)
        (elim (link_place-slot f dat t v p c xs off w) [
          | inl same ↦ absurd (there same)
          | inr (s, sq, oq) ↦
              let in_q : link_place p xs off + s.size ≤ length f =
                (v.in_idx (link_place p xs off) s sq).3 in
              EntryAt-overwrite_ne f off e (link_place p xs off) (padded ptr_sz d.next)
                (omega arith)
                (elim (lt_or_gt off (link_place p xs off) (λ q. there (sym q))) [
                  | inl before ↦
                      inl (v.spaced off (link_place p xs off) (slot_of e) s sl sq before).0
                  | inr after ↦
                      let g : link_place p xs off + s.size ≤ off =
                        (v.spaced (link_place p xs off) off s (slot_of e) sq sl after).0 in
                      inr (
                        omega (
                          arith,
                          length-padded_ptr d.next m,
                          (v.in_idx (link_place p xs off) s sq).2,
                        ))
                ])
                at
        ])

  pub Chain-unlink :
      (xs : Links) (h : ℕ)
      → link_of p xs ≡ some (o, d)
      → Chain f xs
      → Owned t c xs
      → h ≤ length f
      → Fresh h xs
      → Apart h ptr_sz xs
      → d.next ≤ ptr_max
      → Chain (unlinked xs h) (unlink p xs) × HeadOf p xs h d
  Chain-unlink [] h l k w hl fr a m = cc
  Chain-unlink ((off, e) ∷ xs) h l k w hl fr a m = elim (Bool-cases (p e)) [
    | inl found ↦
        let l' : some (off, e) ≡ some (o, d) = rw found at l in
        let same : e ≡ d = ap (λ (r : ℕ × Entry). r.1) (some-injective (off, e) (o, d) l') in
        rw found (
          Chain-overwrite f h (padded ptr_sz d.next) xs hl (rw (length-padded_ptr d.next m) a.1)
              k.3,
          inl (refl, sym k.2 ∙ ap (λ (r : Entry). r.next) same),
        )
    | inr other ↦
        let l' : link_of p xs ≡ some (o, d) = rw other at l in
        let in_off : off + length (encode e) ≤ length f = (v.in_idx off (slot_of e) w.0).3 in
        let ih : Chain (unlinked xs off) (unlink p xs) × HeadOf p xs off d =
          Chain-unlink xs off l' k.3 w.3 (omega arith) w.2
            (Apart-slot f dat t v c off ptr_sz (slot_of e) xs w.0 (v.in_idx off (slot_of e) w.0).2
              w.2 w.3)
            m in
        rw other (
          (k.0, EntryAt-unlinked off e xs k.1 w.0 w.3 k.2 m ih.1, refl, ih.0),
          inr (link_place-ne p xs off h fr.0 fr.1, refl),
        )
  ]
