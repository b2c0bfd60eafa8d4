-- ===== src/Db/Query/Next.antt =====
-- `db_nextrec` of c_code/apue/mydb/db.c reads the records one behind the other.
use mathlib.Core.Option
use somenote.Common.{
  ℕ, zero, suc, ◌+◌, ◌≤◌, ◌<◌, ◌≡◌, refl, sym, ap, ◌∙◌, Option, none, some, true, false, Bool-cases,
  List, [], ◌∷◌, ◌++◌, arith, inl, inr, length, subst, if◌then◌else◌, ne→==,
}
use somenote.Libc.Text.{NoNull, text_of_NoNull}
use somenote.Db.State.{datlen_max, free_off, index_file, read_lock, un_lock, Db, ok}
use somenote.Db.Index.Entry.{Entry, EntryAt, encode, split_text}
use somenote.Db.Index.Record.{readidx-next, readidx-end, after_readidx}
use somenote.Db.Data.RoundTrip.{DataAt, readdat-DataAt, after_readdat}
use somenote.Db.Search.Found.{searched}
use somenote.Db.Query.{is_blank, nextrec_loop, db_nextrec}

-- The records that stand in the file from an offset to its end, one behind the other.
abbrev pub Sequence : List ℕ → ℕ → List Entry → Type 0
Sequence f off [] = length f ≤ off
Sequence f off (e ∷ es) = EntryAt f off e × Sequence f (off + length (encode e)) es

-- The data of each record stands in the data file.
abbrev pub HasTexts : List ℕ → (Entry → List ℕ) → List Entry → Type 0
HasTexts dat texts [] = Unit {0}
HasTexts dat texts (e ∷ es) =
    DataAt dat e.datoff (texts e) × (e.datlen ≡ length (texts e) + 1) × HasTexts dat texts es

-- The first record whose key is more than spaces.
abbrev pub next_of : List Entry → Option Entry
next_of [] = none
next_of (e ∷ es) = if is_blank e.key then next_of es else some e

-- The records behind it.
abbrev pub behind : List Entry → List Entry
behind [] = []
behind (e ∷ es) = if is_blank e.key then behind es else es

is_blank-append : (s r : List ℕ) → NoNull s → is_blank (s ++ 0 ∷ r) ≡ is_blank s
is_blank-append [] r h = refl
is_blank-append (c ∷ s) r h = rw (ne→== c 0 h.0, is_blank-append s r h.1)

-- What the loop leaves behind, at the records `rest`.
abbrev Ends : ℕ → Db → List Entry → Option Entry → Type 0
Ends f db rest none = (d : Db) × (nextrec_loop f db ≡ ok false d) × (d ≡ searched db d)
Ends f db rest (some e) =
    (d : Db) × (nextrec_loop f db ≡ ok true d)
    × (d ≡ searched db d)
    × (d.idxbuf ≡ split_text e)
    × (d.datoff ≡ e.datoff)
    × (d.datlen ≡ e.datlen)
    × Sequence db.idx.bytes d.idx.offset rest

Ends-step :
    (f : ℕ) (db db' : Db) (rest : List Entry) (o : Option Entry)
    → nextrec_loop (suc f) db ≡ nextrec_loop f db'
    → db'.idx.bytes ≡ db.idx.bytes
    → ((d : Db) → d ≡ searched db' d → d ≡ searched db d)
    → Ends f db' rest o
    → Ends (suc f) db rest o
Ends-step f db db' rest none h k g (d, e, s) = (d, h ∙ e, g d s)
Ends-step f db db' rest (some x) h k g (d, e, s, a, b, c, q) =
    (d, h ∙ e, g d s, a, b, c, subst (λ bytes. Sequence bytes d.idx.offset rest) k q)

nextrec_loop-Sequence :
    (f : ℕ) (es : List Entry) (db : Db)
    → Sequence db.idx.bytes db.idx.offset es
    → length es < f
    → Ends f db (behind es) (next_of es)
unfolding nextrec_loop
nextrec_loop-Sequence zero es db q h = absurd (omega arith)
nextrec_loop-Sequence (suc f) [] db q h = (
  record db {
    idx = record { bytes = db.idx.bytes; offset = db.idx.offset + 0 };
    idxoff = db.idx.offset;
  },
  rw (readidx-end db q),
  refl,
)
nextrec_loop-Sequence (suc f) (e ∷ es) db q h = elim (Bool-cases (is_blank e.key)) [
  | inl free ↦ rw free (
      Ends-step f db (after_readidx db.idx.offset e db) (behind es) (next_of es)
        (rw (readidx-next e db q.0, is_blank-append e.key _ q.0.valid.key_null, free)) refl
        (λ d s. s)
        (nextrec_loop-Sequence f es (after_readidx db.idx.offset e db) q.1 (omega arith)))
  | inr used ↦ rw used (
    after_readidx db.idx.offset e db,
    (rw (readidx-next e db q.0, is_blank-append e.key _ q.0.valid.key_null, used)),
    refl,
    refl,
    refl,
    refl,
    q.1,
  )
]

-- The call returns what it should, and leaves the files as they were.
pub record Reads (f : ℕ) (db : Db) (what : Option (List ℕ × List ℕ)) : Type 0 where
  pub after : Db
  pub returns : db_nextrec f db ≡ ok what after
  pub idx_kept : after.idx.bytes ≡ db.idx.bytes
  pub dat_kept : after.dat.bytes ≡ db.dat.bytes
  pub locks :
      after.locks
      ≡ record { file = index_file; type = un_lock; start = free_off; len = 1 }
        ∷ record { file = index_file; type = read_lock; start = free_off; len = 1 }
        ∷ db.locks

-- Where it returns a record, the file offset is at the records `rest`.
abbrev pub ReadsOn : ℕ → Db → List Entry → Option (List ℕ × List ℕ) → Type 0
ReadsOn f db rest none = Reads f db none
ReadsOn f db rest (some p) =
    (r : Reads f db (some p)) × Sequence db.idx.bytes r.after.idx.offset rest

-- The key of a record, and its data behind which is a null byte.
abbrev pub pair_of : (Entry → List ℕ) → Entry → List ℕ × List ℕ
pair_of texts e = (e.key, texts e ++ 0 ∷ [])

abbrev locked : Db → Db
locked db = record db {
  locks = record { file = index_file; type = read_lock; start = free_off; len = 1 } ∷ db.locks;
}

abbrev unlock : Db → Db
unlock db = record db {
  locks = record { file = index_file; type = un_lock; start = free_off; len = 1 } ∷ db.locks;
}

abbrev counted : Db → Db
counted db = record db { counts = record db.counts { nextrec = db.counts.nextrec + 1 } }

read_end : (f : ℕ) (db : Db) (rest : List Entry) → Ends f (locked db) rest none → Reads f db none
unfolding db_nextrec
read_end f db rest (d, e, s) = record {
  after = unlock d;
  returns = rw e;
  idx_kept = ap (λ (r : Db). r.idx.bytes) s;
  dat_kept = ap (λ (r : Db). r.dat.bytes) s;
  locks = ap (λ (r : Db). (unlock r).locks) s;
}

read_record :
    (f : ℕ) (db : Db) (rest : List Entry) (x : Entry) (line : List ℕ)
    → NoNull x.key
    → DataAt db.dat.bytes x.datoff line
    → x.datlen ≡ length line + 1
    → x.datlen ≤ datlen_max
    → Ends f (locked db) rest (some x)
    → ReadsOn f db rest (some (x.key, line ++ 0 ∷ []))
unfolding db_nextrec
read_record f db rest x line clean at len small (d, e, s, buf, off, n, q) = (
  record {
    after = unlock (counted (after_readdat line d));
    returns =
        rw (
          e,
          readdat-DataAt line d there (n ∙ len) (omega arith),
          buf,
          text_of_NoNull x.key _ clean,
        );
    idx_kept = ap (λ (r : Db). r.idx.bytes) s;
    dat_kept = ap (λ (r : Db). r.dat.bytes) s;
    locks = ap (λ (r : Db). (unlock r).locks) s;
  },
  q,
)
  where
    there : DataAt d.dat.bytes d.datoff line
    there =
        subst (λ (r : List ℕ). DataAt r d.datoff line) (sym (ap (λ (r : Db). r.dat.bytes) s))
          (subst (λ o. DataAt db.dat.bytes o line) (sym off) at)

next_record :
    (f : ℕ) (db : Db) (texts : Entry → List ℕ) (dat_idx : List ℕ) (off : ℕ) (es : List Entry)
    → Sequence dat_idx off es
    → HasTexts db.dat.bytes texts es
    → Ends f (locked db) (behind es) (next_of es)
    → ReadsOn f db (behind es) (Option.map (pair_of texts) (next_of es))
next_record f db texts g off [] q h w = read_end f db [] w
next_record f db texts g off (e ∷ es) q h w = elim (Bool-cases (is_blank e.key)) [
  | inl free ↦
      let w' : Ends f (locked db) (behind es) (next_of es) = rw free at w in
      rw free (next_record f db texts g (off + length (encode e)) es q.1 h.2 w')
  | inr used ↦
      let w' : Ends f (locked db) es (some e) = rw used at w in
      rw used (read_record f db es e (texts e) q.0.valid.key_null h.0 h.1 q.0.valid.datlen_max w')
]

pub db_nextrec-behind :
    (f : ℕ) (db : Db) (texts : Entry → List ℕ) (es : List Entry)
    → Sequence db.idx.bytes db.idx.offset es
    → HasTexts db.dat.bytes texts es
    → length es < f
    → ReadsOn f db (behind es) (Option.map (pair_of texts) (next_of es))
db_nextrec-behind f db texts es q h enough =
    next_record f db texts db.idx.bytes db.idx.offset es q h
      (nextrec_loop-Sequence f es (locked db) q enough)

reads :
    (f : ℕ) (db : Db) (rest : List Entry) (what : Option (List ℕ × List ℕ))
    → ReadsOn f db rest what
    → Reads f db what
reads f db rest none r = r
reads f db rest (some p) r = r.0

-- Where valid records stand in the index file from its file offset to its end, one behind the
-- other, with the data of each in the data file, and with more rounds than there are records,
-- db_nextrec returns the key and the data, behind it a null byte, of the first of them whose
-- key is more than spaces, or NULL where there is none; the files keep their bytes, and the
-- first byte of the index file has been locked for reading and unlocked.
pub db_nextrec_lem :
    (f : ℕ) (db : Db) (texts : Entry → List ℕ) (es : List Entry)
    → Sequence db.idx.bytes db.idx.offset es
    → HasTexts db.dat.bytes texts es
    → length es < f
    → Reads f db (Option.map (pair_of texts) (next_of es))
db_nextrec_lem f db texts es q h enough =
    reads f db (behind es) (Option.map (pair_of texts) (next_of es))
      (db_nextrec-behind f db texts es q h enough)
