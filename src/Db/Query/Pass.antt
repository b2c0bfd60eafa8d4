-- ===== src/Db/Query/Pass.antt =====
-- Calls of `db_nextrec` of c_code/apue/mydb/db.c until it returns NULL.
use mathlib.Core.Option
use somenote.Common.{
  ℕ, zero, suc, ◌<◌, ◌≡◌, refl, sym, ◌∙◌, Option, none, some, Bool-cases, List, [], ◌∷◌, ◌++◌,
  arith, inl, true, false, inr, length, subst, if◌then◌else◌,
}
use somenote.Db.State.{Db, ok, out_of_fuel, Cmd, pure, ◌>>=◌}
use somenote.Db.Index.Entry.{Entry}
use somenote.Db.Query.{is_blank, db_nextrec}
use somenote.Db.Query.Next.{
  Sequence, HasTexts, next_of, behind, pair_of, Reads, ReadsOn, db_nextrec-behind,
}

-- The records that the calls return, `n` calls at most.
pub next_all : ℕ → ℕ → Cmd (List (List ℕ × List ℕ))
next_all zero f = λ _. out_of_fuel
next_all (suc n) f = do
  next ← db_nextrec f
  elim next [ none ↦ pure [] | some p ↦ do rest ← next_all n f; pure (p ∷ rest) ]

-- The keys and data of the records whose key is more than spaces, in the order of the file.
abbrev pub live : (Entry → List ℕ) → List Entry → List (List ℕ × List ℕ)
live texts [] = []
live texts (e ∷ es) =
    if is_blank e.key then live texts es else (e.key, texts e ++ 0 ∷ []) ∷ live texts es

-- What the first call makes of the records.
abbrev Split : List ℕ → (Entry → List ℕ) → List Entry → Option Entry → Type 0
Split dat texts es none = live texts es ≡ []
Split dat texts es (some e) =
    (live texts es ≡ pair_of texts e ∷ live texts (behind es))
    × (length (behind es) < length es)
    × HasTexts dat texts (behind es)

Split-blank :
    (dat : List ℕ) (texts : Entry → List ℕ) (e : Entry) (es : List Entry) (o : Option Entry)
    → is_blank e.key ≡ true
    → Split dat texts es o
    → Split dat texts (e ∷ es) o
Split-blank dat texts e es none free s = rw free s
Split-blank dat texts e es (some x) free (here, fewer, h) = rw free (here, omega arith, h)

Split-used :
    (dat : List ℕ) (texts : Entry → List ℕ) (e : Entry) (es : List Entry)
    → is_blank e.key ≡ false
    → HasTexts dat texts es
    → Split dat texts (e ∷ es) (some e)
Split-used dat texts e es used h = (rw used, rw used (omega arith), rw used h)

Split-of :
    (dat : List ℕ) (texts : Entry → List ℕ) (es : List Entry)
    → HasTexts dat texts es
    → Split dat texts es (next_of es)
Split-of dat texts [] h = refl
Split-of dat texts (e ∷ es) h = elim (Bool-cases (is_blank e.key)) [
  | inl free ↦
      let s : Split dat texts (e ∷ es) (next_of es) =
        Split-blank dat texts e es (next_of es) free (Split-of dat texts es h.2) in
      rw free s
  | inr used ↦
      let s : Split dat texts (e ∷ es) (some e) = Split-used dat texts e es used h.2 in rw used s
]

-- The calls return the records, and the files keep their bytes.
abbrev pub Passes : ℕ → ℕ → Db → List (List ℕ × List ℕ) → Type 0
Passes n f db what =
    (d : Db) × (next_all n f db ≡ ok what d)
    × (d.idx.bytes ≡ db.idx.bytes)
    × (d.dat.bytes ≡ db.dat.bytes)

module _ (f : ℕ) (texts : Entry → List ℕ) where
  pass_end : (n : ℕ) (db : Db) → Reads f db none → Passes (suc n) f db []
  unfolding next_all
  pass_end n db r = (r.after, rw r.returns, r.idx_kept, r.dat_kept)

  pass_step :
      (n : ℕ) (db : Db) (p : List ℕ × List ℕ) (what : List (List ℕ × List ℕ))
      → (r : Reads f db (some p)) → Passes n f r.after what
      → Passes (suc n) f db (p ∷ what)
  unfolding next_all
  pass_step n db p what r (d, e, i, t) = (d, rw (r.returns, e), i ∙ r.idx_kept, t ∙ r.dat_kept)

  -- What `n` calls return at any records.
  abbrev PassesAll : ℕ → Type 0
  PassesAll n =
      (db : Db) (es : List Entry)
      → Sequence db.idx.bytes db.idx.offset es
      → HasTexts db.dat.bytes texts es
      → length es < f
      → length es < n
      → Passes n f db (live texts es)

  pass_on :
      (n : ℕ) (db : Db) (es : List Entry) (o : Option Entry)
      → PassesAll n
      → ReadsOn f db (behind es) (Option.map (pair_of texts) o)
      → Split db.dat.bytes texts es o
      → length es < f
      → length es < suc n
      → Passes (suc n) f db (live texts es)
  pass_on n db es none more r s enough calls = rw s (pass_end n db r)
  pass_on n db es (some e) more (r, q) (here, fewer, h) enough calls =
      let i : Sequence r.after.idx.bytes r.after.idx.offset (behind es) =
        subst (λ b. Sequence b r.after.idx.offset (behind es)) (sym r.idx_kept) q in
      let t : HasTexts r.after.dat.bytes texts (behind es) =
        subst (λ b. HasTexts b texts (behind es)) (sym r.dat_kept) h in
      rw here (
        pass_step n db (pair_of texts e) (live texts (behind es)) r
          (more r.after (behind es) i t (omega arith) (omega arith)))

  pub next_all-Sequence : (n : ℕ) → PassesAll n
  next_all-Sequence zero db es q h enough calls = absurd (omega arith)
  next_all-Sequence (suc n) db es q h enough calls =
      pass_on n db es (next_of es) (next_all-Sequence n)
        (db_nextrec-behind f db texts es q h enough) (Split-of db.dat.bytes texts es h) enough calls
