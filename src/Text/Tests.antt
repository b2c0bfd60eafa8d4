-- ===== src/Text/Tests.antt =====
-- The theorems on the programs on text at lines.
use somenote.Common.{◌≡◌, refl, [], ◌∷◌, ◌++◌, arith}
use somenote.Libc.Text.{codes}
use somenote.Libc.Effect.{ok}
use somenote.Text.Reverse.{reverse}
use somenote.Text.Reverse.Turned.{reverse-line, reverse-last_line}

reverse-line_example : reverse 4 (codes "abc" ++ 10 ∷ 0 ∷ []) ≡ ok tt (codes "cba" ++ 10 ∷ 0 ∷ [])
reverse-line_example = reverse-line 4 (codes "abc") [] (grind arith) (omega arith)

reverse-last_line_example : reverse 4 (codes "abc" ++ 0 ∷ []) ≡ ok tt (codes "cba" ++ 0 ∷ [])
reverse-last_line_example = reverse-last_line 4 (codes "ab") 99 [] (grind arith) refl (omega arith)
