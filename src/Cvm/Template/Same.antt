-- ===== src/Cvm/Template/Same.antt =====
-- The search for a line of a listing, `os_same` of c_code/cvm/cvm.c.
use somenote.Common.{
  ℕ, zero, suc, ◌+◌, ◌-◌, ◌<◌, ◌≡◌, refl, sym, ap, ap₂, ◌∙◌, Bool, true, false, none, some, List,
  [], ◌∷◌, ◌++◌, length, arith, Bool-cases, not, if◌then◌else◌, Option-cases, inl, inr, ◌==◌,
  get_or, drop, drop-append, length-append, append_assoc,
}
use somenote.Libc.Scan.{starts, strstr}
use somenote.Libc.Scan.Search.{
  NoNewline, at_some_line, ends_line, ends_line-append, ends_line-NoNewline, strstr-none,
  strstr-some, at_some_line-NoNewline, at_some_line-here, starts-append, strstr-newline,
}
use somenote.Libc.Text.{codes}
use somenote.Cvm.Host.Results.{AlwaysLogs, Writes, getresult-Writes, set_cmd-fits}
use somenote.Cvm.State.{Host, Vm, fits, datasysdir}
use somenote.Libc.Effect.{ok, Cmd, pure, ◌>>=◌}
use somenote.Cvm.Template.{same_loop, at_line_start, os_same}

-- The command that lists the templates at the data center.
abbrev list_command : List ℕ → List ℕ
list_command ip = codes "ssh root@" ++ ip ++ codes " ls " ++ datasysdir

start_behind :
    (c : ℕ) (q t : List ℕ) → (get_or ((c ∷ q) ++ t) (length q) 0 == 10) ≡ ends_line (c == 10) q
unfolding ends_line
start_behind c [] t = refl
start_behind c (d ∷ q) t = start_behind d q t

-- The test of the byte before says whether a line begins behind a text.
at_line_start-append : (q t : List ℕ) → at_line_start (q ++ t) (length q) ≡ ends_line true q
unfolding at_line_start ends_line
at_line_start-append [] t = refl
at_line_start-append (c ∷ q) t = rw (not_zero (length q), minus_one (length q)) (start_behind c q t)
  where
    not_zero : (n : ℕ) → (suc n == 0) ≡ false
    not_zero n = ground arith

    minus_one : (n : ℕ) → suc n - 1 ≡ n
    minus_one n = omega arith

module _ {S : Type 0} where
  same-none :
      (f : ℕ) (line s : List ℕ) (p : ℕ) (st : S)
      → strstr (drop p s) line ≡ none
      → same_loop (suc f) line s p st ≡ ok false st
  unfolding same_loop
  same-none f line s p st h = rw (same_loop, h) refl

  same-found :
      (f : ℕ) (line s : List ℕ) (p i : ℕ) (st : S)
      → strstr (drop p s) line ≡ some i
      → at_line_start s (p + i) ≡ true
      → same_loop (suc f) line s p st ≡ ok true st
  unfolding same_loop
  same-found f line s p i st h k = rw (same_loop, h, k) refl

  same-next :
      (f : ℕ) (line s : List ℕ) (p i k : ℕ) (st : S)
      → strstr (drop p s) line ≡ some i
      → at_line_start s (p + i) ≡ false
      → strstr (drop (p + i) s) (10 ∷ []) ≡ some k
      → same_loop (suc f) line s p st ≡ same_loop f line s (p + i + k) st
  unfolding same_loop
  same-next f line s p i k st h e l = rw (same_loop, h, e, l) refl

  -- The first hit, at a place where the listing goes on with the name and a newline.
  same-hit :
      (f : ℕ) (line nn q v s : List ℕ) (p i : ℕ) (st : S)
      → NoNewline nn
      → s ≡ q ++ (nn ++ 10 ∷ v)
      → p + i ≡ length q
      → strstr (drop p s) line ≡ some i
      → at_some_line line true (nn ++ 10 ∷ v) ≡ true
      → same_loop f line ((q ++ nn) ++ 10 ∷ v) (length (q ++ nn)) st
        ≡ ok (at_some_line line (ends_line true (q ++ nn)) (10 ∷ v)) st
      → same_loop (suc f) line s p st ≡ ok (at_some_line line (ends_line true q) (nn ++ 10 ∷ v)) st
  same-hit f line nn q v s p i st h es ep hit here rec =
      let e : at_line_start s (p + i) ≡ ends_line true q =
        ap₂ at_line_start es ep ∙ at_line_start-append q (nn ++ 10 ∷ v) in
      elim (Bool-cases (ends_line true q)) [
        | inl b ↦
            same-found f line s p i st hit (e ∙ b)
            ∙ ap (λ c. ok c st) (sym (ap (λ d. at_some_line line d (nn ++ 10 ∷ v)) b ∙ here))
        | inr b ↦
            same-next f line s p i (length nn) st hit (e ∙ b) (
              ap₂ (λ x y. strstr (drop x y) (10 ∷ [])) ep es
              ∙ ap (λ u. strstr u (10 ∷ [])) (drop-append q (nn ++ 10 ∷ v))
              ∙ strstr-newline nn v h)
            ∙ ap₂ (λ x y. same_loop f line x y st) (es ∙ sym (append_assoc q nn (10 ∷ v)))
                (ap (λ x. x + length nn) ep ∙ sym (length-append q nn))
            ∙ rec
            ∙ ap (λ c. ok c st)
                (ap (λ d. at_some_line line d (10 ∷ v))
                    (ends_line-append true q nn
                      ∙ ap (λ d. ends_line d nn) b
                      ∙ ends_line-NoNewline nn h)
                  ∙ sym (at_some_line-NoNewline line nn (10 ∷ v) h)
                  ∙ ap (λ d. at_some_line line d (nn ++ 10 ∷ v)) (sym b))
      ]

  -- From a place on: the text before it, and what is left to be searched.
  same_loop-from :
      (f : ℕ) (n : ℕ) (name q t : List ℕ) (st : S)
      → NoNewline (n ∷ name)
      → length t < f
      → same_loop f ((n ∷ name) ++ 10 ∷ []) (q ++ t) (length q) st
        ≡ ok (at_some_line ((n ∷ name) ++ 10 ∷ []) (ends_line true q) t) st
  same_loop-from zero n name q t st h g = absurd (omega arith)
  same_loop-from (suc f) n name q t st h g = elim (Option-cases (strstr t line)) [
    | inl nothing ↦
        same-none f line (q ++ t) (length q) st
          (ap (λ u. strstr u line) (drop-append q t) ∙ nothing)
        ∙ ap (λ b. ok b st) (sym (strstr-none line (ends_line true q) t nothing))
    | inr (i, found) ↦
        let (a, u, split, l, here, same) = strstr-some line t i found in
        let (v, eu) = starts-append line u here in
        let ev : u ≡ (n ∷ name) ++ 10 ∷ v = eu ∙ append_assoc (n ∷ name) (10 ∷ []) v in
        same-hit f line (n ∷ name) (q ++ a) v (q ++ t) (length q) i st h
          (ap (λ x. q ++ x) (split ∙ ap (λ x. a ++ x) ev)
            ∙ sym (append_assoc q a ((n ∷ name) ++ 10 ∷ v)))
          (ap (λ x. length q + x) (sym l) ∙ sym (length-append q a))
          (ap (λ x. strstr x line) (drop-append q t) ∙ found)
          (at_some_line-here line n (name ++ 10 ∷ v) (ap (starts line) (sym ev) ∙ here))
          (same_loop-from f n name ((q ++ a) ++ (n ∷ name)) (10 ∷ v) st h (shorter a u v split ev))
        ∙ ap (λ b. ok b st)
            (ap₂ (λ d x. at_some_line line d x) (ends_line-append true q a) (sym ev)
              ∙ sym (same (ends_line true q)))
  ]
    where
      line : List ℕ
      line = (n ∷ name) ++ 10 ∷ []

      shorter : (a u v : List ℕ) → t ≡ a ++ u → u ≡ (n ∷ name) ++ 10 ∷ v → length (10 ∷ v) < f
      shorter a u v split ev =
          let e : length t ≡ length a + length ((n ∷ name) ++ 10 ∷ v) =
            ap length (split ∙ ap (λ x. a ++ x) ev) ∙ length-append a ((n ∷ name) ++ 10 ∷ v) in
          let e' : length ((n ∷ name) ++ 10 ∷ v) ≡ length (n ∷ name) + length (10 ∷ v) =
            length-append (n ∷ name) (10 ∷ v) in
          omega (arith, e, e', g)

  same_loop-at_some_line :
      (f : ℕ) (n : ℕ) (name s : List ℕ) (st : S)
      → NoNewline (n ∷ name)
      → length s < f
      → same_loop f ((n ∷ name) ++ 10 ∷ []) s 0 st
        ≡ ok (at_some_line ((n ∷ name) ++ 10 ∷ []) true s) st
  unfolding ends_line
  same_loop-at_some_line f n name s st h g = same_loop-from f n name [] s st h g

-- The call returns a Boolean; it has touched neither input nor output.
abbrev pub Says : {W : Type 0} → Cmd (Vm W) Bool → Bool → Vm W → Type 0
Says {W} m b s = (s' : Vm W) × (m s ≡ ok b s') × (s'.input ≡ s.input) × (s'.output ≡ s.output)

module _ {W : Type 0} ⦃host : Host W⦄ where
  -- What is left to do behind the reading of the listing.
  searched :
      (f : ℕ) (n : ℕ) (name out : List ℕ) (s : Vm W)
      → NoNewline (n ∷ name)
      → length out < f
      → (if length out == 0
            then pure true
            else (do found ← same_loop f ((n ∷ name) ++ 10 ∷ []) out 0; pure (not found)))
          s
        ≡ ok (not (at_some_line ((n ∷ name) ++ 10 ∷ []) true out)) s
  searched f n name [] s h g = unfold at_some_line in refl
  searched f n name (c ∷ out) s h g =
      rw (not_zero (length out), same_loop-at_some_line f n name (c ∷ out) s h g) refl
    where
      not_zero : (n : ℕ) → (suc n == 0) ≡ false
      not_zero n = ground arith

  -- Where the log can always be written, for a name that is not empty, has no newline and
  -- less than 1023 bytes, an address of less than 1000 bytes, and a listing that the pipe
  -- and the buffer hold and that has no null byte, os_same returns, given more rounds than
  -- the listing has bytes, whether no line of the listing is the name: whether at no start
  -- of a line the listing goes on with the name and a newline. It touches neither input nor
  -- output.
  pub os_same-at_some_line :
      (f : ℕ) (n : ℕ) (name ip out : List ℕ) (s : Vm W)
      → AlwaysLogs host
      → NoNewline (n ∷ name)
      → length (n ∷ name) < 1023
      → length ip < 1000
      → Writes (list_command ip) s.world out
      → length out < f
      → Says (os_same f (n ∷ name) ip) (not (at_some_line ((n ∷ name) ++ 10 ∷ []) true out)) s
  unfolding os_same
  os_same-at_some_line f n name ip out s logs h short short' writes g =
      let s₁ = record s { cmd = list_command ip } in
      let (w, e) = getresult-Writes logs out s₁ writes in
      let s₂ = record s₁ { world = w; result = out } in
      (
        s₂,
        rw
            (
              line_fits (n ∷ name) short,
              set_cmd-fits (list_command ip) s (command_short ip short'),
              e,
            )
            (searched f n name out s₂ h g),
        refl,
        refl,
      )
    where
      line_fits : (t : List ℕ) → length t < 1023 → fits 1024 (t ++ 10 ∷ []) ≡ true
      line_fits t h = let e = length-append t (10 ∷ []) in ground (arith, e)

      command_short : (ip : List ℕ) → length ip < 1000 → length (list_command ip) < 4096
      command_short ip h =
          let e = length-append (ip ++ codes " ls ") datasysdir in
          let e' = length-append ip (codes " ls ") in omega (arith, e, e', h)
