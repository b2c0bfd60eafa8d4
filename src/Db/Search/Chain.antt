-- ===== src/Db/Search/Chain.antt =====
-- A chain of records in the index file, and how `_db_find_and_lock` and `_db_findfree` walk it.
use somenote.Common.{
  ℕ, zero, suc, ◌<◌, ◌≡◌, refl, ap, ◌∙◌, Bool, true, false, Option, none, some, List, [], ◌∷◌,
  arith, Bool-cases, inl, inr, length, if◌then◌else◌,
}
use somenote.Libc.Int.{ℤ, pos, is_zero}
use somenote.Libc.Text.{text, same_text, text_of_NoNull}
use somenote.Db.State.{Db, Run, ok, pure, modify, ◌>>◌}
use somenote.Db.Index.Entry.{Entry, EntryAt, split_text}
use somenote.Db.Index.Record.{readidx-EntryAt, after_readidx}
use somenote.Db.Search.{find_loop}

-- The records of a chain with their offsets.
abbrev pub Links : Type 0
Links = List (ℕ × Entry)

-- The pointer that leads to a chain.
abbrev pub first : Links → ℕ
first [] = 0
first ((off, e) ∷ xs) = off

-- Each record stands in the file and points to the next one, the last one to 0.
abbrev pub Chain : List ℕ → Links → Type 0
Chain f [] = Unit {0}
Chain f ((off, e) ∷ xs) = (0 < off) × EntryAt f off e × (e.next ≡ first xs) × Chain f xs

-- The first record of a chain that passes a test.
abbrev pub link_of : (Entry → Bool) → Links → Option (ℕ × Entry)
link_of p [] = none
link_of p ((off, e) ∷ xs) = if p e then some (off, e) else link_of p xs

-- The place of the pointer that leads to that record: what leads to the chain, or the record before.
abbrev pub link_before : (Entry → Bool) → Links → ℤ → ℤ
link_before p [] q = q
link_before p ((off, e) ∷ xs) q = if p e then q else link_before p xs (pos off)

-- What `strcmp` tests.
abbrev pub has_key : List ℕ → Entry → Bool
has_key key e = same_text e.key (text key)

-- The walk to the record of a key: its offset (0 without one), and the state then.
abbrev pub walk : List ℕ → Links → Db → ℕ × Db
walk key [] db = (0, db)
walk key ((off, e) ∷ xs) db =
    if has_key key e
    then (off, after_readidx off e db)
    else walk key xs (record (after_readidx off e db) { ptroff = pos off })

pub is_zero-pos : (n : ℕ) → 0 < n → is_zero (pos n) ≡ false
is_zero-pos zero h = absurd (omega arith)
is_zero-pos (suc n) h = refl

-- The key is what `strcmp` sees in the buffer.
text-split_text : (off : ℕ) (e : Entry) (f : List ℕ) → EntryAt f off e → text (split_text e) ≡ e.key
text-split_text off e f at = text_of_NoNull e.key _ at.valid.key_null

find_loop-step :
    (f : ℕ) (key : List ℕ) (off : ℕ) (e : Entry) (db : Db)
    → 0 < off
    → EntryAt db.idx.bytes off e
    → find_loop (suc f) key (pos off) db ≡ (
        if same_text e.key (text key)
        then ok (pos off) (after_readidx off e db)
        else find_loop f key (pos e.next) (record (after_readidx off e db) { ptroff = pos off }))
unfolding find_loop
find_loop-step f key zero e db h at = absurd (omega arith)
find_loop-step f key (suc off) e db h at =
    rw (readidx-EntryAt (suc off) e db h at, text-split_text (suc off) e db.idx.bytes at)
      (case (same_text e.key (text key)))
  where
    case :
        (b : Bool)
        → ◌≡◌ {A = Run ℤ}
            ((if b then pure (pos (suc off)) else (do
              modify (λ db'. record db' { ptroff = pos (suc off) })
              find_loop f key (pos e.next)))
              (after_readidx (suc off) e db))
            (if b
              then ok (pos (suc off)) (after_readidx (suc off) e db)
              else find_loop f key
                  (pos e.next)
                  (record (after_readidx (suc off) e db) { ptroff = pos (suc off) }))
    case true = refl
    case false = refl

find_loop-end : (f : ℕ) (key : List ℕ) (db : Db) → find_loop (suc f) key (pos 0) db ≡ ok (pos 0) db
unfolding find_loop
find_loop-end f key db = refl

-- With more rounds than records, the loop walks the chain.
pub find_loop-Chain :
    (f : ℕ) (key : List ℕ) (xs : Links) (db : Db)
    → Chain db.idx.bytes xs
    → length xs < f
    → find_loop f key (pos (first xs)) db ≡ ok (pos (walk key xs db).0) (walk key xs db).1
find_loop-Chain zero key xs db c h = absurd (omega arith)
find_loop-Chain (suc f) key [] db c h = find_loop-end f key db
find_loop-Chain (suc f) key ((off, e) ∷ xs) db c h =
    elim (Bool-cases (same_text e.key (text key))) [
      | inl found ↦ find_loop-step f key off e db c.0 c.1 ∙ rw found
      | inr other ↦
          let db' : Db = record (after_readidx off e db) { ptroff = pos off } in
          find_loop-step f key off e db c.0 c.1
          ∙ rw other (
              ap (λ n. find_loop f key (pos n) db') c.2
              ∙ find_loop-Chain f key xs db' c.3 (omega arith))
    ]
