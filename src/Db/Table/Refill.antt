-- ===== src/Db/Table/Refill.antt =====
-- Other data of the same length is written into a slot.
use somenote.Common.{
  ℕ, ◌+◌, ◌≤◌, ◌≡◌, ◌≢◌, ◌⊎◌, sym, ◌∙◌, inl, inr, some, some-injective, List, [], ◌∷◌, ◌++◌, arith,
  length, length-append, subst,
}
use somenote.Libc.File.{overwrite, length-overwrite, slice-overwrite_before, slice-overwrite_after}
use somenote.Libc.Text.{NoNull}
use somenote.Db.State.{newline, ptr_max}
use somenote.Db.Data.RoundTrip.{DataAt, DataAt-overwrite}
use somenote.Db.Table.{Table, Slot, IsTable, first_record}
use somenote.Db.Table.Unlink.{lt_or_gt, Owned-map}
use somenote.Db.Table.Put.{put, put_all}

-- A write elsewhere leaves data alone.
pub DataAt-overwrite_ne :
    (f : List ℕ) (off : ℕ) (line : List ℕ) (at : ℕ) (bs : List ℕ)
    → at ≤ length f
    → (off + (length line + 1) ≤ at) ⊎ (at + length bs ≤ off)
    → DataAt f off line
    → DataAt (overwrite f at bs) off line
DataAt-overwrite_ne f off line at bs g (inl before) h =
    slice-overwrite_before f at bs off (length line + 1) before g ∙ h
DataAt-overwrite_ne f off line at bs g (inr after) h =
    slice-overwrite_after f at bs off (length line + 1) after ∙ h

abbrev pub refilled : ℕ → List ℕ → Table → Table
refilled x line t = record t { content = put x line t.content }

module _ (f dat : List ℕ) (t : Table) (v : IsTable f dat t) (x : ℕ) (s : Slot) (line : List ℕ)
    (slot_x : t.slot x ≡ some s) (fits : s.datlen ≡ length line + 1) (clean : NoNull line) where
  abbrev data_written : List ℕ
  data_written = overwrite dat s.datoff (line ++ newline ∷ [])

  len : length (line ++ newline ∷ []) ≡ length line + 1
  len = omega (arith, length-append line (newline ∷ []))

  apart :
      (a : ℕ) (u : Slot)
      → t.slot a ≡ some u
      → a ≢ x
      → (u.datoff + u.datlen ≤ s.datoff) ⊎ (s.datoff + s.datlen ≤ u.datoff)
  apart a u h ne = elim (lt_or_gt a x ne) [
    | inl before ↦ inl (v.spaced a x u s h slot_x before).1
    | inr after ↦ inr (v.spaced x a s u slot_x h after).1
  ]

  kept : (a : ℕ) (u : Slot) → t.slot a ≡ some u → a ≢ x → DataAt data_written u.datoff (t.content a)
  kept a u h ne =
      DataAt-overwrite_ne dat u.datoff (t.content a) s.datoff (line ++ newline ∷ [])
        (omega (arith, (v.in_idx x s slot_x).4))
        (elim (apart a u h ne) [
          | inl before ↦ inl (omega (arith, (v.data_at a u h).0))
          | inr after ↦ inr (omega (arith, len, fits))
        ])
        (v.data_at a u h).2

  pub IsTable-refilled : IsTable f data_written (refilled x line t)
  IsTable-refilled = record {
    heads = v.heads;
    linked = v.linked;
    owned = λ c b. Owned-map t (refilled x line t) c (t.chain c) (λ a u h o. (h, o)) (v.owned c b);
    keys = v.keys;
    header = v.header;
    in_idx = λ a u h.
        let old : (first_record ≤ a)
            × (a ≤ ptr_max)
            × (7 ≤ u.size)
            × (a + u.size ≤ length f)
            × (u.datoff + u.datlen ≤ length dat) =
          v.in_idx a u h in
        (
          old.0,
          old.1,
          old.2,
          old.3,
          omega (arith, old.4, length-overwrite dat s.datoff (line ++ newline ∷ [])),
        );
    spaced = v.spaced;
    data_at =
        put_all
          (λ a text.
            (u : Slot)
            → t.slot a ≡ some u
            → (u.datlen ≡ length text + 1) × NoNull text × DataAt data_written u.datoff text)
          x line t.content here
          (λ a ne u h. ((v.data_at a u h).0, (v.data_at a u h).1, kept a u h ne));
  }
    where
      here :
          (u : Slot)
          → t.slot x ≡ some u
          → (u.datlen ≡ length line + 1) × NoNull line × DataAt data_written u.datoff line
      here u h =
          subst
            (λ (r : Slot).
              (r.datlen ≡ length line + 1) × NoNull line × DataAt data_written r.datoff line)
            (some-injective s u (sym slot_x ∙ h)) (fits, clean, DataAt-overwrite dat s.datoff line)
