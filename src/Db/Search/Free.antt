-- ===== src/Db/Search/Free.antt =====
-- How `_db_findfree` walks the free list, and what it does to it.
use somenote.Common.{
  ℕ, zero, suc, ◌<◌, ◌≡◌, refl, ap, ◌∙◌, Bool, true, false, ◌&&◌, List, [], ◌∷◌, arith, ◌==◌,
  Bool-cases, inl, inr, length, if◌then◌else◌,
}
use somenote.Libc.Int.{ℤ, pos}
use somenote.Libc.Text.{strlen, text_of_NoNull}
use somenote.Db.State.{Db, Run, ok, pure}
use somenote.Db.Index.Entry.{Entry, EntryAt, split_text}
use somenote.Db.Index.Record.{readidx-EntryAt, after_readidx}
use somenote.Db.Search.{findfree_loop}
use somenote.Db.Search.Chain.{Links, first, Chain}

-- What `_db_findfree` looks for: a key and data of these lengths.
abbrev pub has_lengths : ℕ → ℕ → Entry → Bool
has_lengths keylen datlen e = length e.key == keylen && e.datlen == datlen

-- The walk to such a record: its offset (0 without one), the place of the pointer to it, the state.
abbrev pub free_walk : (Entry → Bool) → Links → ℕ → Db → (ℕ × ℕ) × Db
free_walk p [] save db = ((0, save), db)
free_walk p ((off, e) ∷ xs) save db =
    if p e
    then ((off, save), after_readidx off e db)
    else free_walk p xs off (after_readidx off e db)

abbrev returned : (ℕ × ℕ) × Db → Run (ℤ × ℤ)
returned ((o, q), db) = ok (pos o, pos q) db

strlen-split_text :
    (off : ℕ) (e : Entry) (f : List ℕ) → EntryAt f off e → strlen (split_text e) ≡ length e.key
unfolding strlen
strlen-split_text off e f at = ap length (text_of_NoNull e.key _ at.valid.key_null)

findfree_loop-step :
    (f keylen datlen save off : ℕ) (e : Entry) (db : Db)
    → 0 < off
    → EntryAt db.idx.bytes off e
    → findfree_loop (suc f) keylen datlen (pos save) (pos off) db ≡ (
        if has_lengths keylen datlen e
        then ok (pos off, pos save) (after_readidx off e db)
        else findfree_loop f keylen datlen (pos off) (pos e.next) (after_readidx off e db))
unfolding findfree_loop
findfree_loop-step f keylen datlen save zero e db h at = absurd (omega arith)
findfree_loop-step f keylen datlen save (suc off) e db h at =
    rw (readidx-EntryAt (suc off) e db h at, strlen-split_text (suc off) e db.idx.bytes at)
      (case (has_lengths keylen datlen e))
  where
    case :
        (b : Bool)
        → ◌≡◌ {A = Run (ℤ × ℤ)}
            ((if b
                then pure (pos (suc off), pos save)
                else findfree_loop f keylen datlen (pos (suc off)) (pos e.next))
              (after_readidx (suc off) e db))
            (if b
              then ok (pos (suc off), pos save) (after_readidx (suc off) e db)
              else findfree_loop f keylen datlen
                  (pos (suc off))
                  (pos e.next)
                  (after_readidx (suc off) e db))
    case true = refl
    case false = refl

findfree_loop-end :
    (f keylen datlen save : ℕ) (db : Db)
    → findfree_loop (suc f) keylen datlen (pos save) (pos 0) db ≡ ok (pos 0, pos save) db
unfolding findfree_loop
findfree_loop-end f keylen datlen save db = refl

pub findfree_loop-Chain :
    (f keylen datlen : ℕ) (xs : Links) (save : ℕ) (db : Db)
    → Chain db.idx.bytes xs
    → length xs < f
    → findfree_loop f keylen datlen (pos save) (pos (first xs)) db
      ≡ returned (free_walk (has_lengths keylen datlen) xs save db)
findfree_loop-Chain zero keylen datlen xs save db c h = absurd (omega arith)
findfree_loop-Chain (suc f) keylen datlen [] save db c h = findfree_loop-end f keylen datlen save db
findfree_loop-Chain (suc f) keylen datlen ((off, e) ∷ xs) save db c h =
    elim (Bool-cases (has_lengths keylen datlen e)) [
      | inl found ↦ findfree_loop-step f keylen datlen save off e db c.0 c.1 ∙ rw found
      | inr other ↦
          findfree_loop-step f keylen datlen save off e db c.0 c.1
          ∙ rw other (
              ap (λ n. findfree_loop f keylen datlen (pos off) (pos n) (after_readidx off e db)) c.2
              ∙ findfree_loop-Chain f keylen datlen xs off (after_readidx off e db) c.3
                  (omega arith))
    ]
