-- ===== src/Cdecl/Marks.antt =====
-- What c_code/expert_c/cdecl2.c takes from its stack.
use somenote.Common.{
  ℕ, ◌≡◌, refl, sym, ap, ap₂, ◌∙◌, subst, false, List, [], ◌∷◌, ◌++◌, ◌==◌, map, append_assoc,
  append-nil,
}
use somenote.Libc.Text.{codes, text}
use somenote.Libc.Effect.{ok, and_then, pure, ◌>>◌, modify}
use somenote.Libc.Returns.{chosen, chosen_first}
use somenote.Cdecl.Token.{qualifier, type, Token, Reader, classify_string}
use somenote.Cdecl.States.{
  State, get_array, get_lparen, get_ptr_part, get_type, null, is_null, print_word, lparen_on,
  ptr_part_on, type_loop, run_state,
}
use somenote.Cdecl.Phrases.{Mark, star, marked, mark_piece, AreMarks, say_marks, say_words}
use somenote.Cdecl.Reads.{IsSymbol, symbol, gettoken-symbol}
use somenote.Cdecl.Pushes.{token_of}
use somenote.Cdecl.Says.{Leads, here, next}

abbrev pub stacked : Mark → Token
stacked m = token_of (mark_piece m)

-- The top of the stack is no bracket.
lparen-Leads :
    (f : ℕ) (t : Token) (ts : List Token) (r : Reader)
    → (t.type == b'(') ≡ false
    → r.stack ≡ t ∷ ts
    → run_state f get_lparen r ≡ ok get_ptr_part r
unfolding run_state lparen_on
lparen-Leads f t ts r n e = ap (λ l. lparen_on l r) e ∙ chosen (t.type == b'(') _ _ r n

star-top :
    (f : ℕ) (ts : List Token) (r : Reader)
    → r.stack ≡ symbol b'*' ∷ ts
    → run_state f get_ptr_part r
      ≡ ok get_lparen (record r { stack = ts; output = r.output ++ codes "pointer to " })
unfolding run_state ptr_part_on
star-top f ts r e = ap (λ l. ptr_part_on l r) e

qualifier-top :
    (f : ℕ) (t : Token) (ts : List Token) (r : Reader)
    → t.type ≡ qualifier
    → r.stack ≡ t ∷ ts
    → run_state f get_ptr_part r
      ≡ ok get_lparen (record r { stack = ts; output = r.output ++ text t.string ++ 32 ∷ [] })
unfolding run_state ptr_part_on print_word
qualifier-top f t ts r q e =
    ap (λ l. ptr_part_on l r) e
    ∙ chosen (t.type == b'*') _ _ r (ap (λ n. n == b'*') q)
    ∙ chosen_first (t.type == qualifier) _ _ r (ap (λ n. n == qualifier) q)

type-top :
    (f : ℕ) (t : Token) (ts : List Token) (r : Reader)
    → t.type ≡ type
    → r.stack ≡ t ∷ ts
    → run_state f get_ptr_part r ≡ ok get_type r
unfolding run_state ptr_part_on
type-top f t ts r q e =
    ap (λ l. ptr_part_on l r) e
    ∙ chosen (t.type == b'*') _ _ r (ap (λ n. n == b'*') q)
    ∙ chosen (t.type == qualifier) _ _ r (ap (λ n. n == qualifier) q)

pub marks-Leads :
    (f : ℕ) (ms : List Mark) (ts : List Token) (r : Reader) (last : State) (end : Reader)
    → AreMarks ms
    → r.stack ≡ map stacked ms ++ ts
    → Leads f last end get_lparen (record r { stack = ts; output = r.output ++ say_marks ms })
    → Leads f last end get_lparen r
unfolding is_null
marks-Leads f [] ts r last end h e l =
    subst (λ s. Leads f last end get_lparen s)
      (ap₂ (λ k o. record r { stack = k; output = o }) (sym e) (append-nil r.output)) l
marks-Leads f (star ∷ ms) ts r last end h e l =
    next refl (lparen-Leads f (symbol b'*') (map stacked ms ++ ts) r refl e) (
      next refl (star-top f (map stacked ms ++ ts) r e) (
        marks-Leads f ms ts _ last end h refl (
          subst (λ o. Leads f last end get_lparen (record r { stack = ts; output = o }))
            (simp append_assoc) l)))
marks-Leads f (marked w ∷ ms) ts r last end h e l =
    next refl
      (lparen-Leads f (classify_string w) (map stacked ms ++ ts) r (ap (λ n. n == b'(') h.0.1) e)
      (next refl (qualifier-top f (classify_string w) (map stacked ms ++ ts) r h.0.1 e) (
        marks-Leads f ms ts _ last end h.1 refl (
          subst (λ o. Leads f last end get_lparen (record r { stack = ts; output = o }))
            (simp append_assoc) l)))

-- The words of the type, and the end of the line.
type_loop-words :
    (ws : List (List ℕ)) (r : Reader)
    → r.stack ≡ map classify_string ws
    → type_loop (map classify_string ws) r
      ≡ ok tt (record r { stack = []; output = r.output ++ say_words ws })
unfolding type_loop print_word
type_loop-words [] r e =
    ap₂ (λ k o. ok tt (record r { stack = k; output = o })) e (sym (append-nil r.output))
type_loop-words (w ∷ ws) r e =
    type_loop-words ws
      (record r {
        stack = map classify_string ws;
        output = r.output ++ text (classify_string w).string ++ 32 ∷ [];
      })
      refl
    ∙ ap (λ o. ok tt (record r { stack = []; output = o })) (simp append_assoc)

-- From the words of the type to the end.
pub types-Leads :
    (f : ℕ) (w : List ℕ) (ws : List (List ℕ)) (r : Reader)
    → (classify_string w).type ≡ type
    → r.stack ≡ map classify_string (w ∷ ws)
    → Leads f null
        (record r { stack = []; output = r.output ++ say_words (w ∷ ws) ++ 10 ∷ [] })
        get_lparen
        r
unfolding is_null run_state
types-Leads f w ws r h e =
    let k = map classify_string ws in
    next refl (lparen-Leads f (classify_string w) k r (ap (λ n. n == b'(') h) e) (
      next refl (type-top f (classify_string w) k r h e) (
        next refl
          (ap
              (λ l.
                and_then (type_loop l r)
                  (λ _. do modify λ r. record r { output = r.output ++ 10 ∷ [] }; pure null))
              e
            ∙ ap
                (λ m.
                  and_then m
                    (λ _. do modify λ r. record r { output = r.output ++ 10 ∷ [] }; pure null))
                (type_loop-words (w ∷ ws) r e))
          here))

-- A bracket on the stack: the text goes on behind the bracket that was read.
pub bracket-top :
    (f x : ℕ) (u : List ℕ) (ts : List Token) (r : Reader)
    → IsSymbol x
    → r.stack ≡ symbol b'(' ∷ ts
    → r.input ≡ x ∷ u
    → run_state f get_lparen r ≡ ok get_array (record r { stack = ts; this = symbol x; input = u })
unfolding run_state lparen_on
bracket-top f x u ts r h k e =
    ap (λ l. lparen_on l r) k ∙ rw (gettoken-symbol x u (record r { stack = ts }) h e) refl
