-- ===== src/Db/Update/Deleted.antt =====
-- The files after `_db_dodelete` hold a table: the record has gone from its chain to the free list.
use somenote.Common.{
  ℕ, suc, ◌+◌, ◌-◌, ◌*◌, ◌≤◌, ◌<◌, ◌≡◌, ◌≢◌, ◌⊎◌, sym, ap, ◌∙◌, Bool, true, Bool-cases, some, List,
  [], ◌∷◌, arith, length, inl, inr, subst,
}
use somenote.Libc.File.{overwrite, overwrite_comm, length-overwrite}
use somenote.Libc.Text.{Lacks-replicate}
use somenote.Libc.Decimal.{padded}
use somenote.Db.State.{ptr_sz, ptr_max, space, free_off}
use somenote.Db.Index.Entry.{Entry, IsEntry, encode, EntryAt, EntryAt-overwrite}
use somenote.Db.Index.Pointer.{length-padded_ptr}
use somenote.Db.Search.Chain.{Links, first, link_of}
use somenote.Db.Table.{Table, slot_of, IsTable, Owned, chains, nobody}
use somenote.Db.Table.Unlink.{unlink, link_place, link_of-slot, link_place-slot, lt_or_gt}
use somenote.Db.Table.Put.{put_self, put_ne}
use somenote.Db.Table.Removal.{removed, link_of-ne}
use somenote.Db.Table.Removed.{IsTable-removed}
use somenote.Db.Table.Refill.{refilled, IsTable-refilled}
use somenote.Db.Table.Push.{pushed, IsTable-entry, IsTable-pushed}
use somenote.Db.Update.Blank.{
  blank, blank_line, blank-IsEntry, length-encode-blank, length-blank_line,
}
use somenote.Db.Update.Dodelete.{idx_deleted, dat_deleted}

-- The table without a record, which is blank on the free list.
abbrev pub deleted : (Entry → Bool) → ℕ → ℕ → Entry → Table → Table
deleted p c o d t =
    pushed 0 o (blank d (first (t.chain 0))) (refilled o (blank_line d.datlen) (removed p c o t))

link_place-ne_link :
    (t : Table) (c : ℕ) (p : Entry → Bool) (xs : Links) (h o : ℕ) (d : Entry)
    → Owned t c xs
    → link_of p xs ≡ some (o, d)
    → h ≢ o
    → link_place p xs h ≢ o
link_place-ne_link t c p [] h o d w l ne = ne
link_place-ne_link t c p ((off, e) ∷ xs) h o d w l ne = elim (Bool-cases (p e)) [
  | inl found ↦ rw found ne
  | inr other ↦
      let l' : link_of p xs ≡ some (o, d) = rw other at l in
      rw other (
        link_place-ne_link t c p xs off o d w.3 l'
          (λ same. link_of-ne p off xs o d w.2 l' (sym same)))
]

module _ (f dat : List ℕ) (t : Table) (v : IsTable f dat t) (p : Entry → Bool) (k o : ℕ) (d : Entry)
    (low : suc k < chains) (found : link_of p (t.chain (suc k)) ≡ some (o, d)) where
  abbrev free : ℕ
  free = first (t.chain 0)

  abbrev place : ℕ
  place = link_place p (t.chain (suc k)) (suc k * ptr_sz)

  abbrev u : Entry
  u = blank d free

  the_slot :
      (t.slot o ≡ some (slot_of d)) × (t.owner o ≡ suc k) × (0 < o) × EntryAt f o d × (p d ≡ true)
  the_slot =
      link_of-slot f dat t v p (suc k) (t.chain (suc k)) o d found (v.linked (suc k) low)
        (v.owned (suc k) low)

  free_max : free ≤ ptr_max
  free_max = (v.heads 0 (omega arith)).0

  valid_u : IsEntry u
  valid_u = blank-IsEntry d free free_max the_slot.3.valid

  len_u : length (encode u) ≡ length (encode d)
  len_u = length-encode-blank d free free_max the_slot.3.valid

  slot_u : t.slot o ≡ some (slot_of u)
  slot_u =
      the_slot.0
      ∙ ap (λ (n : ℕ). some (record { size = n; datoff = d.datoff; datlen = d.datlen })) (sym len_u)

  len_next : length (padded ptr_sz d.next) ≡ ptr_sz
  len_next = length-padded_ptr d.next the_slot.3.valid.next_max

  in_o : (967 ≤ o) × (o ≤ ptr_max) × (o + length (encode d) ≤ length f)
  in_o = (
    (v.in_idx o (slot_of d) the_slot.0).0,
    (v.in_idx o (slot_of d) the_slot.0).1,
    (v.in_idx o (slot_of d) the_slot.0).3,
  )

  -- The pointer that changes lies before the record or behind it, and behind the free list's.
  place_apart :
      ((place + ptr_sz ≤ o) ⊎ (o + length (encode d) ≤ place))
      × (ptr_sz ≤ place)
      × (place + ptr_sz ≤ length f)
  place_apart =
      elim (link_place-slot f dat t v p (suc k) (t.chain (suc k)) (suc k * ptr_sz)
        (v.owned (suc k) low)) [
          | inl head ↦ (
            inl (omega (arith, head, in_o.0)),
            omega (arith, head),
            omega (arith, head, v.header),
          )
          | inr (s, sl, ow) ↦ (
            elim (lt_or_gt place o (
                link_place-ne_link t (suc k) p (t.chain (suc k)) (suc k * ptr_sz) o d
                  (v.owned (suc k) low) found (omega (arith, in_o.0)))) [
                    | inl before ↦
                        let g : place + s.size ≤ o =
                          (v.spaced place o s (slot_of d) sl the_slot.0 before).0 in
                        inl (omega (arith, g, (v.in_idx place s sl).2))
                    | inr after ↦ inr (v.spaced o place (slot_of d) s the_slot.0 sl after).0
                  ],
            omega (arith, (v.in_idx place s sl).0),
            omega (arith, (v.in_idx place s sl).2, (v.in_idx place s sl).3),
          )
        ]

  -- The writes in the order in which the table is changed.
  writes :
      overwrite
        (overwrite (overwrite f place (padded ptr_sz d.next)) o (encode u))
        free_off
        (padded ptr_sz o)
      ≡ idx_deleted f o place free d
  writes = ap (λ g. overwrite g free_off (padded ptr_sz o)) (swap_entry place_apart.0) ∙ swap_free
    where
      swap_entry :
          ((place + ptr_sz ≤ o) ⊎ (o + length (encode d) ≤ place))
          → overwrite (overwrite f place (padded ptr_sz d.next)) o (encode u)
            ≡ overwrite (overwrite f o (encode u)) place (padded ptr_sz d.next)
      swap_entry (inl before) =
          overwrite_comm f place (padded ptr_sz d.next) o (encode u)
            (omega (arith, before, len_next)) (omega (arith, len_next, place_apart.2))
      swap_entry (inr after) = sym (
          overwrite_comm f o (encode u) place (padded ptr_sz d.next) (omega (arith, after, len_u))
            (omega (arith, len_u, in_o.2)))

      swap_free :
          overwrite
            (overwrite (overwrite f o (encode u)) place (padded ptr_sz d.next))
            free_off
            (padded ptr_sz o)
          ≡ idx_deleted f o place free d
      swap_free = sym (
          overwrite_comm (overwrite f o (encode u)) free_off (padded ptr_sz o) place
            (padded ptr_sz d.next) (omega (arith, length-padded_ptr o in_o.1, place_apart.1))
            (omega (arith, length-padded_ptr o in_o.1, v.header, length-overwrite f o (encode u))))

  -- The writes lie inside the file.
  pub length-idx_deleted : length (idx_deleted f o place free d) ≡ length f
  length-idx_deleted = omega (
    arith,
    length-overwrite (overwrite (overwrite f o (encode u)) free_off (padded ptr_sz o)) place
        (padded ptr_sz d.next),
    length-overwrite (overwrite f o (encode u)) free_off (padded ptr_sz o),
    length-overwrite f o (encode u),
    len_u,
    len_next,
    length-padded_ptr o in_o.1,
    in_o.2,
    in_o.0,
    place_apart.2,
  )

  abbrev t₂ : Table
  t₂ = refilled o (blank_line d.datlen) (removed p (suc k) o t)

  refilled-IsTable : IsTable (overwrite f place (padded ptr_sz d.next)) (dat_deleted dat d) t₂
  refilled-IsTable =
      IsTable-refilled (overwrite f place (padded ptr_sz d.next)) dat (removed p (suc k) o t)
        (IsTable-removed f dat t v p (suc k) o d low found) o (slot_of d) (blank_line d.datlen)
        the_slot.0 (sym (length-blank_line d.datlen the_slot.3.valid.datlen_min))
        (Lacks-replicate 0 (d.datlen - 1) space (omega arith))

  pub IsTable-deleted :
      IsTable (idx_deleted f o place free d) (dat_deleted dat d) (deleted p (suc k) o d t)
  IsTable-deleted =
      subst (λ g. IsTable g (dat_deleted dat d) (deleted p (suc k) o d t)) writes
        (IsTable-pushed (overwrite (overwrite f place (padded ptr_sz d.next)) o (encode u))
          (dat_deleted dat d) t₂
          (IsTable-entry (overwrite f place (padded ptr_sz d.next)) (dat_deleted dat d) t₂
            refilled-IsTable o u slot_u (put_self o nobody t.owner))
          o u slot_u (put_self o nobody t.owner) 0 (omega arith)
          (EntryAt-overwrite (overwrite f place (padded ptr_sz d.next)) o u valid_u)
          (ap first (sym (put_ne (suc k) (unlink p (t.chain (suc k))) t.chain 0 (omega arith))))
          (λ i e. absurd (omega arith)))
