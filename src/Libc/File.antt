-- ===== src/Libc/File.antt =====
-- An open file: its bytes and the file offset of its descriptor, with `lseek`, `read` and `write`.
use somenote.Common.{
  ℕ, zero, suc, ◌+◌, ◌≤◌, ◌≡◌, refl, ap, ◌∙◌, List, [], ◌∷◌, ◌++◌, max, arith, length, take, drop,
  take-append, take-drop-append, drop-nil, drop-drop, take-add, take_all, drop-append, ap₂, sym,
  take-drop-take, append-nil, length-append, length-drop,
}

pub record File : Type 0 where
  pub bytes : List ℕ
  pub offset : ℕ

-- The bytes with `bs` written at an offset. A gap behind the end is filled with zeros.
abbrev pub overwrite : List ℕ → ℕ → List ℕ → List ℕ
overwrite f zero bs = bs ++ drop (length bs) f
overwrite [] (suc n) bs = 0 ∷ overwrite [] n bs
overwrite (x ∷ f) (suc n) bs = x ∷ overwrite f n bs

-- `n` bytes from an offset, fewer at the end of the file
abbrev pub slice : List ℕ → ℕ → ℕ → List ℕ
slice f off n = take n (drop off f)

unfoldable pub seek_set : ℕ → File → File
seek_set off f = record f { offset = off }

-- `lseek(fd, 0, SEEK_END)`
unfoldable pub seek_end : File → File
seek_end f = record f { offset = length f.bytes }

-- The bytes that `read` returns, and the file after it.
unfoldable pub read : ℕ → File → List ℕ × File
read n f = let got = slice f.bytes f.offset n in (got, record f { offset = f.offset + length got })

unfoldable pub write : List ℕ → File → File
write bs f = record f { bytes = overwrite f.bytes f.offset bs; offset = f.offset + length bs }

pub length-overwrite :
    (f : List ℕ) (off : ℕ) (bs : List ℕ)
    → length (overwrite f off bs) ≡ max (length f) (off + length bs)
length-overwrite f zero bs =
    omega (arith, length-append bs (drop (length bs) f), length-drop (length bs) f)
length-overwrite [] (suc n) bs = omega (arith, length-overwrite [] n bs)
length-overwrite (x ∷ f) (suc n) bs = omega (arith, length-overwrite f n bs)

-- What was written is read back.
pub slice-overwrite :
    (f : List ℕ) (off : ℕ) (bs : List ℕ) → slice (overwrite f off bs) off (length bs) ≡ bs
slice-overwrite f zero bs = take-append bs (drop (length bs) f)
slice-overwrite [] (suc n) bs = slice-overwrite [] n bs
slice-overwrite (x ∷ f) (suc n) bs = slice-overwrite f n bs

-- Also the bytes inside what was written.
slice-overwrite_inside :
    (f : List ℕ) (off : ℕ) (bs : List ℕ) (i n : ℕ)
    → i + n ≤ length bs
    → slice (overwrite f off bs) (off + i) n ≡ slice bs i n
slice-overwrite_inside f zero bs i n h =
    ap (λ k. slice (bs ++ drop (length bs) f) k n) (omega arith)
    ∙ take-drop-append bs (drop (length bs) f) i n h
slice-overwrite_inside [] (suc off) bs i n h =
    let e : suc off + i ≡ suc (off + i) = omega arith in
    rw e (slice-overwrite_inside [] off bs i n h)
slice-overwrite_inside (x ∷ f) (suc off) bs i n h =
    let e : suc off + i ≡ suc (off + i) = omega arith in
    rw e (slice-overwrite_inside f off bs i n h)

-- What stands before a write is kept.
pub slice-overwrite_before :
    (f : List ℕ) (off : ℕ) (bs : List ℕ) (i n : ℕ)
    → i + n ≤ off
    → off ≤ length f
    → slice (overwrite f off bs) i n ≡ slice f i n
slice-overwrite_before f zero bs zero zero h g = refl
slice-overwrite_before f zero bs zero (suc n) h g = absurd (omega arith)
slice-overwrite_before f zero bs (suc i) n h g = absurd (omega arith)
slice-overwrite_before [] (suc off) bs i n h g = absurd (omega arith)
slice-overwrite_before (x ∷ f) (suc off) bs zero zero h g = refl
slice-overwrite_before (x ∷ f) (suc off) bs zero (suc n) h g =
    ap (λ t. x ∷ t) (slice-overwrite_before f off bs zero n (omega arith) (omega arith))
slice-overwrite_before (x ∷ f) (suc off) bs (suc i) n h g =
    slice-overwrite_before f off bs i n (omega arith) (omega arith)

drop-append_after :
    (bs f : List ℕ) (i : ℕ) → length bs ≤ i → drop i (bs ++ drop (length bs) f) ≡ drop i f
drop-append_after [] f i h = refl
drop-append_after (b ∷ bs) f zero h = absurd (omega arith)
drop-append_after (b ∷ bs) [] (suc i) h = rw append-nil (drop_past bs i (omega arith))
  where
    drop_past : (xs : List ℕ) (j : ℕ) → length xs ≤ j → drop j xs ≡ []
    drop_past [] j g = drop-nil j
    drop_past (x ∷ xs) zero g = absurd (omega arith)
    drop_past (x ∷ xs) (suc j) g = drop_past xs j (omega arith)
drop-append_after (b ∷ bs) (x ∷ f) (suc i) h = drop-append_after bs f i (omega arith)

drop-overwrite_after :
    (f : List ℕ) (off : ℕ) (bs : List ℕ) (i : ℕ)
    → off + length bs ≤ i
    → drop i (overwrite f off bs) ≡ drop i f
drop-overwrite_after f zero bs i h = drop-append_after bs f i (omega arith)
drop-overwrite_after f (suc off) bs zero h = absurd (omega arith)
drop-overwrite_after [] (suc off) bs (suc i) h =
    drop-overwrite_after [] off bs i (omega arith) ∙ drop-nil i
drop-overwrite_after (x ∷ f) (suc off) bs (suc i) h = drop-overwrite_after f off bs i (omega arith)

-- What stands behind a write is kept.
pub slice-overwrite_after :
    (f : List ℕ) (off : ℕ) (bs : List ℕ) (i n : ℕ)
    → off + length bs ≤ i
    → slice (overwrite f off bs) i n ≡ slice f i n
slice-overwrite_after f off bs i n h = ap (take n) (drop-overwrite_after f off bs i h)

-- A part of a part.
pub slice-slice :
    (f : List ℕ) (off n i k : ℕ) → i + k ≤ n → slice (slice f off n) i k ≡ slice f (off + i) k
slice-slice f off n i k h = take-drop-take (drop off f) n i k h ∙ ap (take k) (drop-drop off i f)

-- A part in two pieces.
slice-add : (f : List ℕ) (off m n : ℕ) → slice f off (m + n) ≡ slice f off m ++ slice f (off + m) n
slice-add f off m n =
    take-add m n (drop off f) ∙ ap (λ g. slice f off m ++ take n g) (drop-drop off m f)

-- The beginning of a part is written anew.
pub slice-overwrite_prefix :
    (f : List ℕ) (off : ℕ) (old bs rest : List ℕ)
    → length bs ≡ length old
    → slice f off (length (old ++ rest)) ≡ old ++ rest
    → slice (overwrite f off bs) off (length (bs ++ rest)) ≡ bs ++ rest
slice-overwrite_prefix f off old bs rest same h =
    ap (slice (overwrite f off bs) off) (length-append bs rest)
    ∙ slice-add (overwrite f off bs) off (length bs) (length rest)
    ∙ ap₂ ◌++◌ (slice-overwrite f off bs) (
        slice-overwrite_after f off bs (off + length bs) (length rest) (omega arith)
        ∙ ap (λ k. slice f (off + k) (length rest)) same
        ∙ sym (
            slice-slice f off (length (old ++ rest)) (length old) (length rest)
              (omega (arith, length-append old rest)))
        ∙ ap (λ g. slice g (length old) (length rest)) h
        ∙ ap (take (length rest)) (drop-append old rest)
        ∙ take_all (length rest) rest (omega arith))

overwrite_comm_front :
    (f xs : List ℕ) (b : ℕ) (ys : List ℕ)
    → length xs ≤ b
    → length xs ≤ length f
    → overwrite (xs ++ drop (length xs) f) b ys ≡ xs ++ drop (length xs) (overwrite f b ys)
overwrite_comm_front f [] b ys h g = refl
overwrite_comm_front f (x ∷ xs) zero ys h g = absurd (omega arith)
overwrite_comm_front [] (x ∷ xs) (suc b) ys h g = absurd (omega arith)
overwrite_comm_front (z ∷ f) (x ∷ xs) (suc b) ys h g =
    ap (λ t. x ∷ t) (overwrite_comm_front f xs b ys (omega arith) (omega arith))

-- Two writes that do not meet can be made in either order.
pub overwrite_comm :
    (f : List ℕ) (a : ℕ) (xs : List ℕ) (b : ℕ) (ys : List ℕ)
    → a + length xs ≤ b
    → a + length xs ≤ length f
    → overwrite (overwrite f a xs) b ys ≡ overwrite (overwrite f b ys) a xs
overwrite_comm f zero xs b ys h g = overwrite_comm_front f xs b ys (omega arith) (omega arith)
overwrite_comm [] (suc a) xs b ys h g = absurd (omega arith)
overwrite_comm (z ∷ f) (suc a) xs zero ys h g = absurd (omega arith)
overwrite_comm (z ∷ f) (suc a) xs (suc b) ys h g =
    ap (λ t. z ∷ t) (overwrite_comm f a xs b ys (omega arith) (omega arith))
