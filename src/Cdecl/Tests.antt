-- ===== src/Cdecl/Tests.antt =====
-- The theorems on c_code/expert_c/cdecl2.c at declarations.
use somenote.Common.{ℕ, ◌≡◌, refl, List, [], ◌∷◌, ◌++◌, none, some, arith}
use somenote.Libc.Text.{codes, same_text}
use somenote.Libc.Decimal.{decimal, digits_on}
use somenote.Libc.Effect.{ok, overflow}
use somenote.Cdecl.Token.{Reader, isalnum, one_of, classify_string}
use somenote.Cdecl.States.{main}
use somenote.Cdecl.Phrases.{
  star, marked, arrays, Decl, outer, inner, star_piece, word, declaration, say, IsDecl,
}
use somenote.Cdecl.Runs.{main-says}
use somenote.Cdecl.Unnamed.{main-unnamed}

-- char * const ( * x ) [3][];
abbrev pointed : Decl
pointed =
    inner (arrays []) (star ∷ [])
      (outer (arrays (some 3 ∷ none ∷ [])) (marked (codes "const") ∷ star ∷ []) (codes "char" ∷ []))

abbrev reading : List ℕ → Reader
reading i = record { input = i; output = []; this = record { type = 0; string = [] }; stack = [] }

pointed-IsDecl : IsDecl 20 pointed
unfolding isalnum classify_string same_text one_of
pointed-IsDecl = grind arith

pointed-text :
    declaration pointed (codes "x") (b';' ∷ 10 ∷ []) ≡ codes "char * const ( * x)[3][];" ++ 10 ∷ []
unfolding decimal digits_on
pointed-text = refl

main-says_example :
    (g : ℕ) × (s : Reader) × (main g 20 (reading (declaration pointed (codes "x") (b';' ∷ 10 ∷ [])))
      ≡ ok tt s)
    × (s.output ≡ codes "x" ++ codes " is " ++ say pointed ++ 10 ∷ [])
    × (s.input ≡ 10 ∷ [])
unfolding isalnum classify_string same_text one_of
main-says_example =
    main-says 20 pointed (codes "x") b';' (10 ∷ [])
      (reading (declaration pointed (codes "x") (b';' ∷ 10 ∷ []))) pointed-IsDecl (grind arith)
      ((refl, refl, refl), (refl, refl)) (omega arith) (omega arith) refl refl

main-unnamed_example : main 1 102 (reading (codes "int * ")) ≡ overflow
unfolding isalnum classify_string same_text one_of
main-unnamed_example =
    main-unnamed 0 102 (star_piece ∷ word (codes "int") ∷ []) (reading (codes "int * "))
      (grind arith) (omega arith) (omega arith) refl refl
