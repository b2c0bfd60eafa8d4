-- ===== src/Libc/Scan/Width.antt =====
-- How long a number is when it is printed.
use somenote.Common.{suc, ◌≤◌, length, arith}
use somenote.Libc.Int.{ℤ, pos, negsuc}
use somenote.Libc.Scan.{show_int}
use somenote.Libc.Scan.RoundTrip.{IsInt}
use somenote.Libc.Decimal.Width.{length-decimal}

pub length-show_int : (z : ℤ) → IsInt z → length (show_int z) ≤ 11
unfolding show_int
length-show_int (pos n) h = let e = length-decimal 9 n (omega (arith, h)) in omega (arith, e)
length-show_int (negsuc n) h =
    let e = length-decimal 9 (suc n) (omega (arith, h)) in omega (arith, e)
