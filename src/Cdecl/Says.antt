-- ===== src/Cdecl/Says.antt =====
-- The states of c_code/expert_c/cdecl2.c one behind the other, up to the end of a declaration.
use somenote.Common.{
  ℕ, zero, suc, ◌<◌, ◌≡◌, refl, ap, ◌∙◌, false, List, [], ◌∷◌, ◌++◌, ◌==◌, length, append-nil,
  arith,
}
use somenote.Libc.Text.{codes}
use somenote.Libc.Effect.{ok, Cmd, and_then, pure, ◌>>◌, modify}
use somenote.Libc.Returns.{chosen, chosen_first}
use somenote.Cdecl.Token.{Token, Reader, isalnum, classify_string, gettoken}
use somenote.Cdecl.States.{
  State, get_array, get_params, get_lparen, null, is_null, params_loop, run_params, run_state,
  state_loop,
}
use somenote.Cdecl.Phrases.{
  Suffix, arrays, params, AreWords, words_to, suffix_text, say_suffix, IsSuffix,
}
use somenote.Cdecl.Reads.{IsSymbol, symbol, gettoken-symbol, gettoken-word, gettoken-space}
use somenote.Cdecl.Suffixes.{array_loop-dimensions}

-- The states that follow one another, up to a last one, with `f` rounds for the loops of each.
pub data Leads (f : ℕ) (last : State) (end : Reader) : State → Reader → Type 0 where
  here : Leads f last end last end
  next :
      {st st' : State} {r r' : Reader}
      → is_null st ≡ false
      → run_state f st r ≡ ok st' r'
      → Leads f last end st' r'
      → Leads f last end st r

pub joined :
    {f : ℕ} {b c : State} {s t : Reader} {a : State} {r : Reader}
    → Leads f b s a r
    → Leads f c t b s
    → Leads f c t a r
joined here m = m
joined (next n e l) m = next n e (joined l m)

-- Enough rounds for the loop of `main`.
pub Leads-null :
    {f : ℕ} {s : Reader} {st : State} {r : Reader}
    → Leads f null s st r
    → (k : ℕ) × ((g : ℕ) → k < g → state_loop g f st r ≡ ok tt s)
unfolding state_loop is_null
Leads-null {f = f} {s = s} here = (0, λ g. last_round g)
  where
    last_round : (g : ℕ) → 0 < g → state_loop g f null s ≡ ok tt s
    last_round zero h = absurd (omega arith)
    last_round (suc g) h = refl
Leads-null {f = f} {s = s} {st = st} {r = r} (next {st' = st'} {r' = r'} n e l) =
    let (k, h) = Leads-null l in (suc k, λ g. round g k h)
  where
    round :
        (g k : ℕ)
        → ((g : ℕ) → k < g → state_loop g f st' r' ≡ ok tt s)
        → suc k < g
        → state_loop g f st r ≡ ok tt s
    round zero k h q = absurd (omega arith)
    round (suc g) k h q =
        chosen (is_null st) _ _ r n
        ∙ ap (λ m. and_then m (λ next. state_loop g f next)) e
        ∙ h g (omega arith)

-- The parameters are passed over.
abbrev reading : ℕ → Cmd Reader (Unit {0})
reading f = do gettoken; params_loop f

no_bracket : (w : List ℕ) → ((classify_string w).type == b')') ≡ false
unfolding classify_string
no_bracket w = ground arith

reading-words :
    (f : ℕ) (ws : List (List ℕ)) (t : List ℕ) (r : Reader)
    → AreWords ws
    → length ws < f
    → r.input ≡ words_to ws (b')' ∷ t)
    → reading f r ≡ ok tt (record r { input = t; this = symbol b')' })
unfolding params_loop isalnum
reading-words zero ws t r h g e = absurd (omega arith)
reading-words (suc f) [] t r h g e = rw (gettoken-symbol b')' t r (refl, refl, refl) e) refl
reading-words (suc f) (w ∷ ws) t r h g e =
    let s₁ = record r { input = 32 ∷ words_to ws (b')' ∷ t); this = classify_string w } in
    ap (λ m. and_then m (λ _. params_loop (suc f)))
      (gettoken-word w 32 (words_to ws (b')' ∷ t)) r h.0 (refl, refl) e)
    ∙ chosen ((classify_string w).type == b')') _ _ s₁ (no_bracket w)
    ∙ ap (λ m. and_then m (λ _. params_loop f)) (gettoken-space (words_to ws (b')' ∷ t)) s₁ refl)
    ∙ reading-words f ws t (record s₁ { input = words_to ws (b')' ∷ t) }) h.1 (omega (arith, g))
        refl

run_params-words :
    (f : ℕ) (ws : List (List ℕ)) (y : ℕ) (v : List ℕ) (r : Reader)
    → AreWords ws
    → suc (length ws) < f
    → IsSymbol y
    → r.this ≡ symbol b'('
    → r.input ≡ words_to ws (b')' ∷ y ∷ v)
    → run_params f r
      ≡ ok get_lparen (record r {
        this = symbol y;
        input = v;
        output = r.output ++ codes "function returning  ";
      })
unfolding run_params params_loop
run_params-words zero ws y v r h g q k e = absurd (omega arith)
run_params-words (suc f) ws y v r h g q k e =
    let s₁ = record r { input = y ∷ v; this = symbol b')' } in
    chosen_first (r.this.type == b'(') _ _ r (ap (λ (t : Token). t.type == b'(') k)
    ∙ ap
        (λ m. and_then m (λ _. do
          gettoken
          modify λ r. record r { output = r.output ++ codes "function returning  " }
          pure get_lparen))
        (chosen (r.this.type == b')') _ _ r (ap (λ (t : Token). t.type == b')') k)
          ∙ reading-words f ws (y ∷ v) r h (omega (arith, g)) e)
    ∙ rw (gettoken-symbol y v s₁ q refl) refl

run_params-none :
    (f y : ℕ) (r : Reader)
    → (y == b'(') ≡ false
    → r.this ≡ symbol y
    → run_params f r ≡ ok get_lparen r
unfolding run_params
run_params-none f y r n k =
    chosen (r.this.type == b'(') _ _ r (ap (λ (t : Token). t.type == b'(') k ∙ n)

-- What a suffix leads to.
abbrev pub behind_suffix : Suffix → ℕ → List ℕ → Reader → Reader
behind_suffix s y v r = record r { this = symbol y; input = v; output = r.output ++ say_suffix s }

pub suffix-Leads :
    (f : ℕ) (s : Suffix) (y : ℕ) (v : List ℕ) (x : ℕ) (r : Reader)
    → IsSuffix f s
    → IsSymbol y
    → (y == b'[') ≡ false
    → (y == b'(') ≡ false
    → r.this ≡ symbol x
    → x ∷ r.input ≡ suffix_text s (y ∷ v)
    → Leads f get_lparen (behind_suffix s y v r) get_array r
unfolding run_state is_null isalnum
suffix-Leads f (arrays []) y v x r h q n m k e =
    next refl (array_loop-dimensions f [] y v get_params x r q n h.0 h.1 k e)
      (next refl (run_params-none f y _ m refl) here)
suffix-Leads f (arrays (d ∷ ds)) y v x r h q n m k e =
    next refl (array_loop-dimensions f (d ∷ ds) y v get_params x r q n h.0 h.1 k e) here
suffix-Leads f (params ws) y v x r h q n m k e =
    let z : r.output ++ [] ≡ r.output = append-nil r.output in
    let w = words_to ws (b')' ∷ y ∷ v) in
    next refl
      (array_loop-dimensions f [] b'(' w get_params x r (refl, refl, refl) refl tt
        (omega (arith, h.1)) k e)
      (next refl
        (run_params-words f ws y v
          (record r { this = symbol b'('; input = w; output = r.output ++ [] }) h.0 h.1 q refl refl)
        (rw z here))
