-- ===== src/Cdecl/Runs.antt =====
-- Whole runs of c_code/expert_c/cdecl2.c on a declaration.
use somenote.Common.{
  ℕ, suc, ◌+◌, ◌-◌, ◌≤◌, ◌<◌, ◌≡◌, ◌≢◌, refl, sym, ap, ap₂, ◌∙◌, subst, true, false, List, [], ◌∷◌,
  ◌++◌, ◌==◌, length, map, append_assoc, append-nil, arith,
}
use somenote.Libc.Text.{codes, text, NoNull, text_self}
use somenote.Libc.Effect.{ok, and_then}
use somenote.Libc.Returns.{chosen_first}
use somenote.Cdecl.Token.{maxtokens, identifier, Token, Reader, isalnum, classify_string}
use somenote.Cdecl.States.{
  get_array, get_lparen, null, is_null, push_loop, to_name, run_initial, run_state, main,
}
use somenote.Cdecl.Phrases.{
  Mark, star, marked, Suffix, arrays, params, Decl, outer, inner, Piece, word, bracket, mark_piece,
  pieces, before, suffix_text, behind, declaration, say_marks, say, AreAlnum, IsWord, IsOf,
  AreMarks, AreTypes, IsDecl,
}
use somenote.Cdecl.Reads.{IsSymbol, symbol, EndsWord, gettoken-symbol, gettoken-word}
use somenote.Cdecl.Pushes.{token_of, ArePieces, push_all}
use somenote.Cdecl.Suffixes.{first-IsSymbol}
use somenote.Cdecl.Says.{Leads, next, joined, Leads-null, behind_suffix, suffix-Leads}
use somenote.Cdecl.Marks.{stacked, marks-Leads, types-Leads, bracket-top}

-- What may follow a declaration.
abbrev IsEnd : ℕ → Type 0
IsEnd c = IsSymbol c × (((c == b'[') ≡ false) × ((c == b'(') ≡ false))

suffix-IsSymbol :
    (s : Suffix) (y : ℕ) (v : List ℕ)
    → IsSymbol y
    → (x : ℕ) × (u : List ℕ) × (suffix_text s (y ∷ v) ≡ x ∷ u) × IsSymbol x
unfolding isalnum
suffix-IsSymbol (arrays ds) y v h = first-IsSymbol ds y v h
suffix-IsSymbol (params ws) y v h = (b'(', _, refl, (refl, refl, refl))

-- What follows a name begins with a symbol.
behind-IsSymbol :
    (d : Decl) (y : ℕ) (v : List ℕ)
    → IsSymbol y
    → (x : ℕ) × (u : List ℕ) × (behind d (y ∷ v) ≡ x ∷ u) × IsSymbol x
unfolding isalnum
behind-IsSymbol (outer s ms ts) y v h = suffix-IsSymbol s y v h
behind-IsSymbol (inner s ms d) y v h = suffix-IsSymbol s b')' (behind d (y ∷ v)) (refl, refl, refl)

stacked_marks :
    (ms : List Mark) (ps : List Piece)
    → map token_of (map mark_piece ms ++ ps) ≡ map stacked ms ++ map token_of ps
stacked_marks [] ps = refl
stacked_marks (m ∷ ms) ps = ap (λ l. stacked m ∷ l) (stacked_marks ms ps)

stacked_words : (ws : List (List ℕ)) → map token_of (map word ws) ≡ map classify_string ws
stacked_words [] = refl
stacked_words (w ∷ ws) = ap (λ l. classify_string w ∷ l) (stacked_words ws)

-- The state behind a declaration.
abbrev declared : Decl → ℕ → List ℕ → Reader → Reader
declared d y v r = record r {
  this = symbol y;
  input = v;
  stack = [];
  output = r.output ++ say d ++ 10 ∷ [];
}

-- The state behind the marks.
abbrev marked_by : List Mark → List Token → Reader → Reader
marked_by ms ts r = record r { stack = ts; output = r.output ++ say_marks ms }

decl-Leads :
    (f : ℕ) (d : Decl) (y : ℕ) (v : List ℕ) (x : ℕ) (r : Reader)
    → IsDecl f d
    → IsEnd y
    → r.this ≡ symbol x
    → x ∷ r.input ≡ behind d (y ∷ v)
    → r.stack ≡ map token_of (pieces d)
    → Leads f null (declared d y v r) get_array r
unfolding is_null isalnum
decl-Leads f (outer s ms []) y v x r h q k e p = absurd h.2
decl-Leads f (outer s ms (w ∷ ws)) y v x r h q k e p =
    let r₁ = behind_suffix s y v r in
    let ts = map classify_string (w ∷ ws) in
    joined (suffix-Leads f s y v x r h.0 q.0 q.1.0 q.1.1 k e) (
      marks-Leads f ms ts r₁ null _ h.1
        (p
          ∙ stacked_marks ms (map word (w ∷ ws))
          ∙ ap (λ l. map stacked ms ++ l) (stacked_words (w ∷ ws)))
        (subst
          (λ o. Leads f null (record r₁ { stack = []; output = o }) get_lparen (marked_by ms ts r₁))
          (simp append_assoc) (types-Leads f w ws (marked_by ms ts r₁) h.2.0.1 refl)))
decl-Leads f (inner s ms d) y v x r h q k e p =
    let (x', u, e', q') = behind-IsSymbol d y v q.0 in
    let r₁ = behind_suffix s b')' (behind d (y ∷ v)) r in
    let ts = map token_of (pieces d) in
    let r₂ = record (marked_by ms ts r₁) { this = symbol x'; input = u } in
    joined (suffix-Leads f s b')' (behind d (y ∷ v)) x r h.0 (refl, refl, refl) refl refl k e) (
      marks-Leads f ms (symbol b'(' ∷ ts) r₁ null _ h.1 (p ∙ stacked_marks ms (bracket ∷ pieces d))
        (next refl (bracket-top f x' u ts (marked_by ms (symbol b'(' ∷ ts) r₁) q' refl e') (
          subst
            (λ o.
              Leads f null (record r { this = symbol y; input = v; stack = []; output = o })
                get_array r₂)
            (simp append_assoc) (decl-Leads f d y v x' r₂ h.2 q refl (sym e') refl))))

-- What stands before a name is no name.
types-ArePieces : (ws : List (List ℕ)) → AreTypes ws → ArePieces (map word ws)
types-ArePieces [] h = tt
types-ArePieces (w ∷ ws) h = ((h.0, h.1), types-ArePieces ws h.2)

marks-ArePieces :
    (ms : List Mark) (ps : List Piece)
    → AreMarks ms
    → ArePieces ps
    → ArePieces (map mark_piece ms ++ ps)
marks-ArePieces [] ps h g = g
marks-ArePieces (star ∷ ms) ps h g = (tt, marks-ArePieces ms ps h g)
marks-ArePieces (marked w ∷ ms) ps h g =
    ((h.0.0, ap (λ n. n == identifier) h.0.1), marks-ArePieces ms ps h.1 g)

pieces-ArePieces : (f : ℕ) (d : Decl) → IsDecl f d → ArePieces (pieces d)
pieces-ArePieces f (outer s ms []) h = absurd h.2
pieces-ArePieces f (outer s ms (w ∷ ws)) h =
    marks-ArePieces ms (map word (w ∷ ws)) h.1
      ((h.2.0.0, ap (λ n. n == identifier) h.2.0.1), types-ArePieces ws h.2.1)
pieces-ArePieces f (inner s ms d) h =
    marks-ArePieces ms (bracket ∷ pieces d) h.1 (tt, pieces-ArePieces f d h.2)

-- A name is left as it is.
identifier_string :
    (w : List ℕ) → (classify_string w).type ≡ identifier → (classify_string w).string ≡ w
unfolding classify_string
identifier_string w h = ground arith

alnum-no_null : (c : ℕ) → isalnum c ≡ true → c ≢ 0
unfolding isalnum
alnum-no_null c h = ground arith

AreAlnum-NoNull : (w : List ℕ) → AreAlnum w → NoNull w
AreAlnum-NoNull [] h = tt
AreAlnum-NoNull (c ∷ w) h = (alnum-no_null c h.0, AreAlnum-NoNull w h.1)

IsWord-text : (w : List ℕ) → IsWord w → text w ≡ w
IsWord-text [] h = absurd h
IsWord-text (c ∷ w) h = text_self (c ∷ w) (AreAlnum-NoNull (c ∷ w) h.0)

-- The name, behind the pieces.
to_name-word :
    (f : ℕ) (name : List ℕ) (x : ℕ) (u : List ℕ) (r : Reader)
    → IsOf identifier name
    → EndsWord x
    → r.input ≡ name ++ x ∷ u
    → to_name (suc f) r ≡ ok tt (record r { input = x ∷ u; this = classify_string name })
unfolding push_loop
to_name-word f name x u r h q e =
    let r₁ = record r { input = x ∷ u; this = classify_string name } in
    ap (λ m. and_then m (λ _. push_loop (suc f))) (gettoken-word name x u r h.0 q e)
    ∙ chosen_first ((classify_string name).type == identifier) _ _ r₁
        (ap (λ n. n == identifier) h.1)

-- What `initial` leaves.
run_initial-declaration :
    (f : ℕ) (ps : List Piece) (name : List ℕ) (x : ℕ) (u : List ℕ) (r : Reader)
    → ArePieces ps
    → IsOf identifier name
    → IsSymbol x
    → length ps ≤ maxtokens
    → length ps < f
    → r.stack ≡ []
    → r.input ≡ before ps (name ++ x ∷ u)
    → run_initial f r
      ≡ ok get_array (record r {
        input = u;
        this = symbol x;
        stack = map token_of ps;
        output = r.output ++ name ++ codes " is ";
      })
unfolding run_initial
run_initial-declaration f ps name x u r h n q room g k e =
    let (t, p) =
      push_all (suc (f - length ps - 1)) ps (name ++ x ∷ u) r h (omega (arith, room, ap length k))
        e in
    let z : f ≡ length ps + suc (f - length ps - 1) = omega (arith, g) in
    let r₁ = record r { input = name ++ x ∷ u; this = t; stack = map token_of ps ++ r.stack } in
    let r₂ = record r₁ { input = x ∷ u; this = classify_string name } in
    let o = r.output ++ text (classify_string name).string ++ codes " is " in
    let a : to_name f r ≡ ok tt r₂ =
      ap (λ n. to_name n r) z
      ∙ p
      ∙ to_name-word (f - length ps - 1) name x u r₁ n (q.0, q.2) refl in
    rw (a, gettoken-symbol x u (record r₂ { output = o }) q refl)
      (ap₂ (λ o l. ok get_array (record r { input = u; this = symbol x; stack = l; output = o }))
        (ap (λ w. r.output ++ w ++ codes " is ")
          (ap text (identifier_string name n.1) ∙ IsWord-text name n.0))
        (ap (λ l. map token_of ps ++ l) k ∙ append-nil (map token_of ps)))

-- For the text of a declaration: before the name the words of a type, qualifiers and stars, a
-- space behind each, with brackets round any part, and behind the name and behind each
-- bracket the dimensions of an array or words as parameters. Where no more than 100 pieces
-- stand before the name, every word is of letters and digits and fits into a token, the name
-- is no keyword, dimensions are numbers of an int, each inner loop has one or two rounds more
-- than there are pieces, dimensions or parameters, the stack is empty, and a character
-- follows that is a token of its own and no opening bracket: main returns after some number
-- of rounds of its own loop; it has printed the name and the English of the declaration, from
-- the name outwards, and has read the declaration and the character behind it.
pub main-says :
    (f : ℕ) (d : Decl) (name : List ℕ) (y : ℕ) (v : List ℕ) (r : Reader)
    → IsDecl f d
    → IsOf identifier name
    → IsEnd y
    → length (pieces d) ≤ maxtokens
    → length (pieces d) < f
    → r.stack ≡ []
    → r.input ≡ declaration d name (y ∷ v)
    → (g : ℕ) × (s : Reader) × (main g f r ≡ ok tt s)
      × (s.output ≡ r.output ++ name ++ codes " is " ++ say d ++ 10 ∷ [])
      × (s.input ≡ v)
unfolding main run_state is_null
main-says f d name y v r h n q room g k e =
    let (x, u, e', q') = behind-IsSymbol d y v q.0 in
    let r₁ = record r {
      input = u;
      this = symbol x;
      stack = map token_of (pieces d);
      output = r.output ++ name ++ codes " is ";
    } in
    let first =
      run_initial-declaration f (pieces d) name x u r (pieces-ArePieces f d h) n q' room g k
        (e ∙ ap (λ t. before (pieces d) (name ++ t)) e') in
    let (c, l) = Leads-null (next refl first (decl-Leads f d y v x r₁ h q refl (sym e') refl)) in
    (suc c, _, l (suc c) (omega arith), refl, refl)
