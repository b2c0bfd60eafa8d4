-- ===== src/Db/Search/Weights.antt =====
-- The sum of `_db_hash` of c_code/apue/mydb/db.c, as it is described in its comment.
use somenote.Common.{ℕ, ◌+◌, ◌*◌, ◌%◌, ◌^◌, ◌≤◌, ◌<◌, ◌≡◌, ◌∙◌, List, [], ◌∷◌, arith, length}
use somenote.Libc.Text.{text}
use somenote.Db.Search.{weigh, hash_from, hash}

-- Characters that are not negative.
abbrev IsAscii : List ℕ → Type 0
IsAscii [] = Unit {0}
IsAscii (c ∷ key) = (c < 128) × IsAscii key

-- Each character times its position, the first of which is `i`.
abbrev weights : ℕ → List ℕ → ℕ
weights i [] = 0
weights i (c ∷ key) = c * i + weights (i + 1) key

times_le : (c i m : ℕ) → c < 128 → i ≤ m → c * i ≤ 127 * m
times_le c i m h k = grind arith

weights-le :
    (i m : ℕ) (key : List ℕ)
    → IsAscii key
    → i + length key ≤ m
    → weights i key ≤ 127 * m * length key
weights-le i m [] h k = omega arith
weights-le i m (c ∷ key) h k =
    let here : c * i ≤ 127 * m = times_le c i m h.0 (omega arith) in
    let rest : weights (i + 1) key ≤ 127 * m * length key =
      weights-le (i + 1) m key h.1 (omega arith) in
    grind arith

weigh-ascii : (c i : ℕ) → c < 128 → weigh c i ≡ c * i
weigh-ascii c i h = ground arith

-- No sum wraps.
hash_from-weights :
    (hval i : ℕ) (key : List ℕ)
    → IsAscii key
    → hval + weights i key < 2 ^ 64
    → hash_from hval i key ≡ hval + weights i key
unfolding hash_from
hash_from-weights hval i [] h k = omega arith
hash_from-weights hval i (c ∷ key) h k =
    let step : (hval + weigh c i) % 2 ^ 64 ≡ hval + c * i =
      rw (weigh-ascii c i h.0) (omega arith) in
    rw step (hash_from-weights (hval + c * i) (i + 1) key h.1 (omega arith) ∙ omega arith)

-- For a key of no more than 2^20 bytes, none of them negative as a char, the hash value is
-- the sum of each byte times its position, counted from 1, divided by 137 with remainder,
-- without an overflow of the unsigned long.
pub hash-weights :
    (key : List ℕ)
    → IsAscii (text key)
    → length (text key) ≤ 2 ^ 20
    → hash key ≡ weights 1 (text key) % 137
unfolding hash
hash-weights key h k =
    let bound : weights 1 (text key) ≤ 127 * (2 ^ 20 + 1) * length (text key) =
      weights-le 1 (2 ^ 20 + 1) (text key) h (omega arith) in
    rw (hash_from-weights 0 1 (text key) h (grind arith)) (omega arith)
