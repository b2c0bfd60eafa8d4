-- ===== src/Text/Reverse/Turned.antt =====
-- The line that `reverse` of c_code/1-19-reverse.c leaves in its buffer.
use somenote.Common.{
  ℕ, zero, suc, ◌+◌, ◌-◌, ◌≤◌, ◌<◌, ◌≡◌, ◌≢◌, refl, sym, ap, ap₂, ◌∙◌, true, false, List, [], ◌∷◌,
  ◌++◌, ◌==◌, ltb, get_or, set, length, length-append, append_assoc, get_or-append, set-append,
  arith, some,
}
use somenote.Libc.Text.{NoNull, Lacks-append}
use somenote.Libc.Effect.{ok}
use somenote.Text.Reverse.{end_of, swap, swap_loop, reverse}

-- The bytes of a text from the last to the first.
abbrev backward : List ℕ → List ℕ
backward [] = []
backward (c ∷ s) = backward s ++ c ∷ []

backward-snoc : (s : List ℕ) (d : ℕ) → backward (s ++ d ∷ []) ≡ d ∷ backward s
backward-snoc [] d = refl
backward-snoc (c ∷ s) d = ap (λ t. t ++ c ∷ []) (backward-snoc s d)

-- A text that is not empty has a last byte.
last_byte : (c : ℕ) (s : List ℕ) → (t : List ℕ) × (d : ℕ) × (c ∷ s ≡ t ++ d ∷ [])
last_byte c [] = ([], c, refl)
last_byte c (d ∷ s) = let (t, e, p) = last_byte d s in (c ∷ t, e, ap (λ u. c ∷ u) p)

swap-ends :
    (a m b : List ℕ) (c d : ℕ)
    → swap (length a) (length (a ++ c ∷ m)) (a ++ c ∷ (m ++ d ∷ b)) ≡ a ++ d ∷ (m ++ c ∷ b)
unfolding swap
swap-ends a m b c d =
    ap₂ (λ x y. set (set s (length a) x) (length (a ++ c ∷ m)) y) at_end
      (get_or-append a (m ++ d ∷ b) c 0)
    ∙ ap (λ u. set u (length (a ++ c ∷ m)) c) (set-append a (m ++ d ∷ b) c d)
    ∙ ap₂ (λ u n. set u n c) (sym (append_assoc a (d ∷ m) (d ∷ b))) same_length
    ∙ set-append (a ++ d ∷ m) b d c
    ∙ append_assoc a (d ∷ m) (c ∷ b)
  where
    s : List ℕ
    s = a ++ c ∷ (m ++ d ∷ b)

    at_end : get_or s (length (a ++ c ∷ m)) 0 ≡ d
    at_end =
        ap (λ u. get_or u (length (a ++ c ∷ m)) 0) (sym (append_assoc a (c ∷ m) (d ∷ b)))
        ∙ get_or-append (a ++ c ∷ m) b d 0

    same_length : length (a ++ c ∷ m) ≡ length (a ++ d ∷ m)
    same_length = length-append a (c ∷ m) ∙ sym (length-append a (d ∷ m))

loop_stop : (f j e : ℕ) (s : List ℕ) → e ≤ suc j → swap_loop (suc f) j e s ≡ ok tt s
unfolding swap_loop
loop_stop f j e s h = rw (swap_loop, stops j e h) refl
  where
    stops : (j e : ℕ) → e ≤ suc j → ltb (suc j) e ≡ false
    stops j e h = ground arith

loop_step :
    (f j e : ℕ) (s : List ℕ)
    → suc j < e
    → swap_loop (suc f) j e s ≡ swap_loop f (suc j) (e - 1) (swap j (e - 1) s)
unfolding swap_loop
loop_step f j e s h = rw (swap_loop, goes j e h) refl
  where
    goes : (j e : ℕ) → suc j < e → ltb (suc j) e ≡ true
    goes j e h = ground arith

-- One round on a part with two ends.
loop-ends :
    (f : ℕ) (a t b : List ℕ) (c d : ℕ)
    → swap_loop
        (suc f)
        (length a)
        (length a + length (c ∷ (t ++ d ∷ [])))
        (a ++ (c ∷ (t ++ d ∷ [])) ++ b)
      ≡ swap_loop f
          (length (a ++ d ∷ []))
          (length (a ++ d ∷ []) + length t)
          ((a ++ d ∷ []) ++ (t ++ c ∷ b))
loop-ends f a t b c d =
    let l : length (t ++ d ∷ []) ≡ length t + 1 = length-append t (d ∷ []) in
    let l' : length (a ++ d ∷ []) ≡ length a + 1 = length-append a (d ∷ []) in
    let l'' : length (a ++ c ∷ t) ≡ length a + suc (length t) = length-append a (c ∷ t) in
    loop_step f (length a) (length a + length (c ∷ (t ++ d ∷ []))) _ (omega (arith, l))
    ∙ ap₂
        (λ j e. swap_loop f j e (
          swap (length a) (length a + length (c ∷ (t ++ d ∷ [])) - 1)
            (a ++ (c ∷ (t ++ d ∷ [])) ++ b)))
        (omega (arith, l')) (omega (arith, l, l'))
    ∙ ap₂
        (λ e s.
          swap_loop f (length (a ++ d ∷ [])) (length (a ++ d ∷ []) + length t)
            (swap (length a) e s))
        (omega (arith, l, l''))
        (append_assoc a (c ∷ (t ++ d ∷ [])) b ∙ ap (λ u. a ++ c ∷ u) (append_assoc t (d ∷ []) b))
    ∙ ap (swap_loop f (length (a ++ d ∷ [])) (length (a ++ d ∷ []) + length t))
        (swap-ends a t b c d ∙ sym (append_assoc a (d ∷ []) (t ++ c ∷ b)))

-- The loop turns the part between its indices round.
swap_loop-backward :
    (f : ℕ) (a m b : List ℕ)
    → length m < f
    → swap_loop f (length a) (length a + length m) (a ++ m ++ b) ≡ ok tt (a ++ backward m ++ b)
swap_loop-backward zero a m b h = absurd (omega arith)
swap_loop-backward (suc f) a [] b h = loop_stop f (length a) (length a + 0) _ (omega arith)
swap_loop-backward (suc f) a (c ∷ []) b h = loop_stop f (length a) (length a + 1) _ (omega arith)
swap_loop-backward (suc f) a (c ∷ x ∷ s) b h =
    let (t, d, p) = last_byte x s in
    let l : length (x ∷ s) ≡ length t + 1 = ap length p ∙ length-append t (d ∷ []) in
    ap (λ u. swap_loop (suc f) (length a) (length a + length (c ∷ u)) (a ++ (c ∷ u) ++ b)) p
    ∙ loop-ends f a t b c d
    ∙ ap (λ u. swap_loop f (length (a ++ d ∷ [])) (length (a ++ d ∷ []) + length t) u)
        (sym (append_assoc (a ++ d ∷ []) t (c ∷ b)))
    ∙ swap_loop-backward f (a ++ d ∷ []) t (c ∷ b) (omega (arith, l, h))
    ∙ ap (ok tt) (turned a t b c d ∙ ap (λ u. a ++ backward (c ∷ u) ++ b) (sym p))
  where
    turned :
        (a t b : List ℕ) (c d : ℕ)
        → (a ++ d ∷ []) ++ backward t ++ c ∷ b ≡ a ++ backward (c ∷ (t ++ d ∷ [])) ++ b
    turned a t b c d = simp (append_assoc, backward-snoc)

swap_loop-whole :
    (f : ℕ) (w b : List ℕ)
    → length w < f
    → swap_loop f 0 (length w) (w ++ b) ≡ ok tt (backward w ++ b)
swap_loop-whole f w b g =
    let e : length w ≡ 0 + length w = omega arith in
    ap (λ n. swap_loop f 0 n (w ++ b)) e ∙ swap_loop-backward f [] w b g

end_of-NoNull : (w r : List ℕ) → NoNull w → end_of (w ++ 0 ∷ r) ≡ some (length w)
unfolding end_of
end_of-NoNull [] r h = refl
end_of-NoNull (c ∷ w) r h = rw (not_null c h.0, end_of-NoNull w r h.1) refl
  where
    not_null : (c : ℕ) → c ≢ 0 → (c == 0) ≡ false
    not_null c h = ground arith

-- The line ends in a newline.
reverse-at_newline :
    (f i : ℕ) (s : List ℕ)
    → end_of s ≡ some (suc i)
    → get_or s i 0 ≡ 10
    → reverse f s ≡ swap_loop f 0 i s
unfolding reverse
reverse-at_newline f i s h k = rw (reverse, h, k) refl

reverse-at_other :
    (f i : ℕ) (s : List ℕ)
    → end_of s ≡ some (suc i)
    → (get_or s i 0 == 10) ≡ false
    → reverse f s ≡ swap_loop f 0 (suc i) s
unfolding reverse
reverse-at_other f i s h k = rw (reverse, h, k) refl

-- For a buffer that holds a text without null bytes, a newline and a null byte, reverse
-- returns, given more rounds than the text has bytes; the buffer then holds the text from its
-- last byte to its first, and all that is behind it as it was.
pub reverse-line :
    (f : ℕ) (w r : List ℕ)
    → NoNull w
    → length w < f
    → reverse f (w ++ 10 ∷ 0 ∷ r) ≡ ok tt (backward w ++ 10 ∷ 0 ∷ r)
reverse-line f w r h g =
    let e : end_of (w ++ 10 ∷ 0 ∷ r) ≡ some (suc (length w)) =
      ap end_of (sym (append_assoc w (10 ∷ []) (0 ∷ r)))
      ∙ end_of-NoNull (w ++ 10 ∷ []) r (Lacks-append 0 w (10 ∷ []) h ((λ q. omega arith), tt))
      ∙ ap some (length-append w (10 ∷ []) ∙ omega arith) in
    reverse-at_newline f (length w) (w ++ 10 ∷ 0 ∷ r) e (get_or-append w (0 ∷ r) 10 0)
    ∙ swap_loop-whole f w (10 ∷ 0 ∷ r) g

-- For a buffer that holds a text without null bytes that is not empty and does not end in a
-- newline, and a null byte, reverse returns, given more rounds than the text has bytes; the
-- buffer then holds the text from its last byte to its first, and all that is behind it as it
-- was.
pub reverse-last_line :
    (f : ℕ) (v : List ℕ) (d : ℕ) (r : List ℕ)
    → NoNull (v ++ d ∷ [])
    → (d == 10) ≡ false
    → suc (length v) < f
    → reverse f ((v ++ d ∷ []) ++ 0 ∷ r) ≡ ok tt (backward (v ++ d ∷ []) ++ 0 ∷ r)
reverse-last_line f v d r h k g =
    let l : length (v ++ d ∷ []) ≡ suc (length v) = length-append v (d ∷ []) ∙ omega arith in
    let last : (get_or ((v ++ d ∷ []) ++ 0 ∷ r) (length v) 0 == 10) ≡ false =
      ap (λ u. get_or u (length v) 0 == 10) (append_assoc v (d ∷ []) (0 ∷ r))
      ∙ ap (λ c. c == 10) (get_or-append v (0 ∷ r) d 0)
      ∙ k in
    reverse-at_other f (length v) ((v ++ d ∷ []) ++ 0 ∷ r)
      (end_of-NoNull (v ++ d ∷ []) r h ∙ ap some l) last
    ∙ ap (λ n. swap_loop f 0 n ((v ++ d ∷ []) ++ 0 ∷ r)) (sym l)
    ∙ swap_loop-whole f (v ++ d ∷ []) (0 ∷ r) (omega (arith, l, g))
