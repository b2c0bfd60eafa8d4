-- ===== src/Libc/Scan.antt =====
-- Reading and printing numbers and words: `scanf` and `printf` with %d, %lld and %s; `strstr`,
-- `strrchr` and `fgets`.
pub mod RoundTrip
pub mod Search
pub mod Width
use somenote.Common.{
  ℕ, zero, suc, ◌+◌, ◌-◌, ◌*◌, ◌%◌, ◌^◌, Bool, true, false, ◌||◌, Option, none, some, List, [], ◌∷◌,
  ◌++◌, min, ◌==◌, ltb, leb, if◌then◌else◌,
}
use mathlib.Core.Option
use somenote.Libc.Int.{ℤ, pos, negsuc, neg}
use somenote.Libc.Decimal.{decimal, is_digit, is_space, long_max}

-- `%d` of an integer
unfoldable pub show_int : ℤ → List ℕ
show_int (pos n) = decimal n
show_int (negsuc n) = b'-' ∷ decimal (suc n)

pub skip_space : List ℕ → List ℕ
skip_space [] = []
skip_space (c ∷ s) = if is_space c then skip_space s else c ∷ s

-- The characters before the next white space, and what follows them.
pub word : List ℕ → List ℕ × List ℕ
word [] = ([], [])
word (c ∷ s) = if is_space c then ([], c ∷ s) else let (w, r) = word s in (c ∷ w, r)

-- The value of the digits, and what follows them.
pub number : ℕ → List ℕ → ℕ × List ℕ
number n [] = (n, [])
number n (c ∷ s) = if is_digit c then number (n * 10 + (c - 48)) s else (n, c ∷ s)

-- An optional sign, then digits. A sign with no digit behind it is read and lost.
abbrev unsigned : (ℕ → ℤ) → List ℕ → Option ℤ × List ℕ
unsigned f [] = (none, [])
unsigned f (c ∷ s) =
    if is_digit c then (let (n, r) = number 0 (c ∷ s) in (some (f n), r)) else (none, c ∷ s)

abbrev to_long : ℕ → ℤ
to_long n = pos (min n long_max)

abbrev to_neg_long : ℕ → ℤ
to_neg_long n = neg (min n (long_max + 1))

abbrev signed : List ℕ → Option ℤ × List ℕ
signed [] = (none, [])
signed (c ∷ s) =
    if c == b'-'
    then unsigned to_neg_long s
    else if c == b'+'
    then unsigned to_long s
    else unsigned to_long (c ∷ s)

-- `%lld`: none where there is no number
pub scan_long : List ℕ → Option ℤ × List ℕ
scan_long s = signed (skip_space s)

-- What an `int` keeps of a long.
pub to_int : ℤ → ℤ
to_int (pos n) = let m = n % 2 ^ 32 in if ltb m (2 ^ 31) then pos m else neg (2 ^ 32 - m)
to_int (negsuc n) = let m = n % 2 ^ 32 in if ltb m (2 ^ 31) then negsuc m else pos (2 ^ 32 - m - 1)

-- `%d`
pub scan_int : List ℕ → Option ℤ × List ℕ
scan_int s = let (z, r) = scan_long s in (Option.map to_int z, r)

-- The text begins with another.
unfoldable pub starts : List ℕ → List ℕ → Bool
starts [] s = true
starts (c ∷ p) [] = false
starts (c ∷ p) (d ∷ s) = if c == d then starts p s else false

-- `strstr(s, p)`: where `p` first stands in `s`
unfoldable pub strstr : List ℕ → List ℕ → Option ℕ
strstr [] p = if starts p [] then some 0 else none
strstr (c ∷ s) p = if starts p (c ∷ s) then some 0 else Option.map suc (strstr s p)

-- `strrchr(s, x)`: the last index of `x`
unfoldable pub strrchr : List ℕ → ℕ → Option ℕ
strrchr [] x = none
strrchr (c ∷ s) x = elim (strrchr s x) [
  | some i ↦ some (suc i)
  | none ↦ if c == x then some 0 else none
]

-- `fgets` of at most `n` bytes: what is read, what is left, and whether the end was met.
pub fgets : ℕ → List ℕ → List ℕ × List ℕ × Bool
fgets zero s = ([], s, false)
fgets (suc n) [] = ([], [], true)
fgets (suc n) (c ∷ s) =
    if c == 10 then (c ∷ [], s, false) else let (l, r, e) = fgets n s in (c ∷ l, r, e)
