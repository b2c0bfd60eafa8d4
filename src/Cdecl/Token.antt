-- ===== src/Cdecl/Token.antt =====
-- The tokens of c_code/expert_c/cdecl2.c, and `gettoken`.
use somenote.Common.{
  ℕ, Bool, false, ◌&&◌, ◌||◌, List, [], ◌∷◌, ◌==◌, leb, ltb, length, if◌then◌else◌,
}
use somenote.Libc.Text.{codes, same_text}
use somenote.Libc.Effect.{Cmd, ◌>>◌, modify, fit}

abbrev pub maxtokens : ℕ
maxtokens = 100

abbrev pub maxtokenlen : ℕ
maxtokenlen = 64

-- `enum type_tag`, which is kept in a char beside the characters of the other tokens.
abbrev pub identifier : ℕ
identifier = 0

abbrev pub qualifier : ℕ
qualifier = 1

abbrev pub type : ℕ
type = 2

pub record Token : Type 0 where
  pub type : ℕ
  pub string : List ℕ

-- The rest of the input, the output, `this`, and the stack with its top first.
pub record Reader : Type 0 where
  pub input : List ℕ
  pub output : List ℕ
  pub this : Token
  pub stack : List Token

-- `(char)EOF`
abbrev pub end_of_input : ℕ
end_of_input = 255

unfoldable pub isalnum : ℕ → Bool
isalnum c = (leb 48 c && leb c 57) || (leb 65 c && leb c 90) || (leb 97 c && leb c 122)

-- One of the words.
unfoldable pub one_of : List (List ℕ) → List ℕ → Bool
one_of [] w = false
one_of (t ∷ ts) w = same_text w t || one_of ts w

abbrev type_names : List (List ℕ)
type_names =
    codes "void"
    ∷ codes "char"
    ∷ codes "signed"
    ∷ codes "unsigned"
    ∷ codes "short"
    ∷ codes "int"
    ∷ codes "long"
    ∷ codes "float"
    ∷ codes "double"
    ∷ codes "struct"
    ∷ codes "union"
    ∷ codes "enum"
    ∷ []

-- `classify_string`, with what it leaves in `this.string`.
unfoldable pub classify_string : List ℕ → Token
classify_string s =
    if same_text s (codes "const")
    then record { type = qualifier; string = codes " read-only" }
    else if same_text s (codes "static")
    then record { type = qualifier; string = codes " private " }
    else if same_text s (codes "volatile")
    then record { type = qualifier; string = s }
    else if one_of type_names s
    then record { type = type; string = s }
    else record { type = identifier; string = s }

-- The characters up to the first that is no letter or digit, and what follows them: `ungetc` puts
-- that character back, unless it is the one that stands for the end of the input.
unfoldable pub word_at : List ℕ → List ℕ × List ℕ
word_at [] = ([], [])
word_at (c ∷ r) =
    if isalnum c
    then (c ∷ (word_at r).0, (word_at r).1)
    else if c == end_of_input
    then ([], r)
    else ([], c ∷ r)

-- `while((*p = getchar()) == ' ');`: the first character that is no space, and what follows it
unfoldable pub after_spaces : List ℕ → ℕ × List ℕ
after_spaces [] = (end_of_input, [])
after_spaces (c ∷ r) = if c == 32 then after_spaces r else (c, r)

-- A word that fits into `this.string`.
unfoldable pub word_token : List ℕ → List ℕ → Cmd Reader (Unit {0})
word_token w r = do
  fit (ltb (length w) maxtokenlen)
  modify λ s. record s { input = r; this = classify_string w }

-- The token that begins with a character.
unfoldable pub token_from : ℕ → List ℕ → Cmd Reader (Unit {0})
token_from c r =
    if isalnum c
    then word_token (c ∷ (word_at r).0) (word_at r).1
    else modify λ s. record s { input = r; this = record { type = c; string = c ∷ [] } }

unfoldable pub gettoken : Cmd Reader (Unit {0})
gettoken s = token_from (after_spaces s.input).0 (after_spaces s.input).1 s
