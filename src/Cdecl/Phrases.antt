-- ===== src/Cdecl/Phrases.antt =====
-- Declarations, what stands in the input for them, and the English for them.
use somenote.Common.{
  ℕ, suc, ◌<◌, ◌≡◌, true, false, Option, none, some, List, [], ◌∷◌, ◌++◌, ◌==◌, length, map, ◌^◌,
}
use somenote.Libc.Int.{pos}
use somenote.Libc.Text.{codes, text}
use somenote.Libc.Decimal.{decimal}
use somenote.Cdecl.Token.{maxtokenlen, identifier, qualifier, type, isalnum, classify_string}
use somenote.Cdecl.States.{bound_text}

-- A star, or a qualifier.
pub data Mark : Type 0 where
  star : Mark
  marked : List ℕ → Mark

-- Dimensions in brackets, or parameters.
pub data Suffix : Type 0 where
  arrays : List (Option ℕ) → Suffix
  params : List (List ℕ) → Suffix

-- What stands round a name: behind it a suffix, before it marks from the nearest one on, and round
-- these either the words of the type, also from the nearest on, or brackets with a declaration round
-- them.
pub data Decl : Type 0 where
  outer : Suffix → List Mark → List (List ℕ) → Decl
  inner : Suffix → List Mark → Decl → Decl

-- What is pushed: a star, a bracket, or a word.
pub data Piece : Type 0 where
  star_piece bracket : Piece
  word : List ℕ → Piece

abbrev pub mark_piece : Mark → Piece
mark_piece star = star_piece
mark_piece (marked w) = word w

-- The pieces before the name, the nearest first.
abbrev pub pieces : Decl → List Piece
pieces (outer s ms ts) = map mark_piece ms ++ map word ts
pieces (inner s ms d) = map mark_piece ms ++ bracket ∷ pieces d

abbrev pub piece_text : Piece → List ℕ → List ℕ
piece_text star_piece t = b'*' ∷ 32 ∷ t
piece_text bracket t = b'(' ∷ 32 ∷ t
piece_text (word w) t = w ++ 32 ∷ t

-- The pieces, the nearest last, and behind them a text.
abbrev pub before : List Piece → List ℕ → List ℕ
before [] t = t
before (p ∷ ps) t = before ps (piece_text p t)

abbrev pub dimensions : List (Option ℕ) → List ℕ → List ℕ
dimensions [] t = t
dimensions (none ∷ ds) t = b'[' ∷ b']' ∷ dimensions ds t
dimensions (some n ∷ ds) t = b'[' ∷ decimal n ++ b']' ∷ dimensions ds t

abbrev pub words_to : List (List ℕ) → List ℕ → List ℕ
words_to [] t = t
words_to (w ∷ ws) t = w ++ 32 ∷ words_to ws t

abbrev pub suffix_text : Suffix → List ℕ → List ℕ
suffix_text (arrays ds) t = dimensions ds t
suffix_text (params ws) t = b'(' ∷ words_to ws (b')' ∷ t)

-- What stands behind the name.
abbrev pub behind : Decl → List ℕ → List ℕ
behind (outer s ms ts) t = suffix_text s t
behind (inner s ms d) t = suffix_text s (b')' ∷ behind d t)

-- The declaration of a name.
abbrev pub declaration : Decl → List ℕ → List ℕ → List ℕ
declaration d name t = before (pieces d) (name ++ behind d t)

-- The English.
abbrev pub say_dimensions : List (Option ℕ) → List ℕ
say_dimensions [] = []
say_dimensions (none ∷ ds) = codes "array of " ++ say_dimensions ds
say_dimensions (some n ∷ ds) =
    codes "array " ++ bound_text (pos n) ++ codes "of " ++ say_dimensions ds

abbrev pub say_suffix : Suffix → List ℕ
say_suffix (arrays ds) = say_dimensions ds
say_suffix (params ws) = codes "function returning  "

abbrev say_word : List ℕ → List ℕ
say_word w = text (classify_string w).string ++ 32 ∷ []

abbrev pub say_marks : List Mark → List ℕ
say_marks [] = []
say_marks (star ∷ ms) = codes "pointer to " ++ say_marks ms
say_marks (marked w ∷ ms) = say_word w ++ say_marks ms

abbrev pub say_words : List (List ℕ) → List ℕ
say_words [] = []
say_words (w ∷ ws) = say_word w ++ say_words ws

abbrev pub say : Decl → List ℕ
say (outer s ms ts) = say_suffix s ++ say_marks ms ++ say_words ts
say (inner s ms d) = say_suffix s ++ say_marks ms ++ say d

-- Words of letters and digits that fit into a token.
abbrev pub AreAlnum : List ℕ → Type 0
AreAlnum [] = Unit {0}
AreAlnum (c ∷ w) = (isalnum c ≡ true) × AreAlnum w

abbrev pub IsWord : List ℕ → Type 0
IsWord [] = ⊥
IsWord (c ∷ w) = AreAlnum (c ∷ w) × (length (c ∷ w) < maxtokenlen)

abbrev pub IsOf : ℕ → List ℕ → Type 0
IsOf t w = IsWord w × ((classify_string w).type ≡ t)

abbrev pub AreWords : List (List ℕ) → Type 0
AreWords [] = Unit {0}
AreWords (w ∷ ws) = IsWord w × AreWords ws

abbrev pub AreMarks : List Mark → Type 0
AreMarks [] = Unit {0}
AreMarks (star ∷ ms) = AreMarks ms
AreMarks (marked w ∷ ms) = IsOf qualifier w × AreMarks ms

-- Words before a name, of which the nearest is a type.
abbrev pub AreTypes : List (List ℕ) → Type 0
AreTypes [] = Unit {0}
AreTypes (w ∷ ws) = IsWord w × ((classify_string w).type == identifier) ≡ false × AreTypes ws

abbrev pub AreDimensions : List (Option ℕ) → Type 0
AreDimensions [] = Unit {0}
AreDimensions (none ∷ ds) = AreDimensions ds
AreDimensions (some n ∷ ds) = (n < 2 ^ 31) × AreDimensions ds

-- With fewer dimensions and parameters than `f`.
abbrev pub IsSuffix : ℕ → Suffix → Type 0
IsSuffix f (arrays ds) = AreDimensions ds × (length ds < f)
IsSuffix f (params ws) = AreWords ws × (suc (length ws) < f)

abbrev IsTyped : List (List ℕ) → Type 0
IsTyped [] = ⊥
IsTyped (w ∷ ws) = IsOf type w × AreTypes ws

abbrev pub IsDecl : ℕ → Decl → Type 0
IsDecl f (outer s ms ts) = IsSuffix f s × AreMarks ms × IsTyped ts
IsDecl f (inner s ms d) = IsSuffix f s × AreMarks ms × IsDecl f d
