-- ===== src/Cvm/Images/Listing.antt =====
-- The printing of a listing.
use somenote.Common.{
  ℕ, zero, suc, ◌<◌, ◌≡◌, refl, sym, ap, ◌∙◌, true, false, none, some, List, [], ◌∷◌, ◌++◌, length,
  arith, append_assoc, append-nil, ◌==◌, if◌then◌else◌,
}
use somenote.Libc.Scan.{word, skip_space}
use somenote.Libc.Decimal.{is_space}
use somenote.Libc.Scan.RoundTrip.{NoSpace, word-NoSpace, word-end, skip_space-NoSpace}
use somenote.Libc.Effect.{ok, undefined, Cmd, pure}
use somenote.Cvm.Host.Results.{AlwaysLogs, Writes, getresult-Writes, set_cmd-fits}
use somenote.Cvm.State.{Host, Vm, namelen, fits, set_name, print}
use somenote.Cvm.Images.{next_line, first_word, take_name, names_loop, print_listing, end_mark}
use somenote.Cvm.Power.{line_of}

-- A name as it stands in a listing: not empty, no white space, and it fits into the buffer.
abbrev IsName : List ℕ → Type 0
IsName [] = ⊥
IsName (c ∷ w) = NoSpace (c ∷ w) × (length (c ∷ w) < 1024)

abbrev pub AreNames : List (List ℕ) → Type 0
AreNames [] = Unit {0}
AreNames (w ∷ ws) = IsName w × AreNames ws

-- The names, each with a newline behind it.
abbrev pub lines : List (List ℕ) → List ℕ
lines [] = []
lines (w ∷ ws) = w ++ 10 ∷ lines ws

-- The same with a text behind them.
abbrev pub lines_to : List (List ℕ) → List ℕ → List ℕ
lines_to [] t = t
lines_to (w ∷ ws) t = w ++ 10 ∷ lines_to ws t

-- The name that stays in the buffer.
abbrev last_name : List ℕ → List (List ℕ) → List ℕ
last_name n [] = n
last_name n (w ∷ ws) = last_name w ws

no_newline : (c : ℕ) → is_space c ≡ false → (c == 10) ≡ false
no_newline c h = ground arith

next_line-NoSpace : (w r : List ℕ) → NoSpace w → next_line (w ++ 10 ∷ r) ≡ some r
unfolding next_line
next_line-NoSpace [] r h = refl
next_line-NoSpace (c ∷ w) r h = rw (no_newline c h.0) (next_line-NoSpace w r h.1)

first_word-line : (w r : List ℕ) → IsName w → first_word (w ++ 10 ∷ r) ≡ w
unfolding first_word
first_word-line [] r h = absurd h
first_word-line (c ∷ w) r h =
    ap (λ p. (word p).0) (skip_space-NoSpace c w (10 ∷ r) h.0)
    ∙ ap (λ (q : List ℕ × List ℕ). q.0) (word-NoSpace (c ∷ w) 10 r h.0 refl)

not_zero : (n : ℕ) → (suc n == 0) ≡ false
not_zero n = ground arith

fits-lt : (w : List ℕ) → length w < 1024 → fits namelen w ≡ true
fits-lt w h = ground arith

next_line-end : (w : List ℕ) → NoSpace w → next_line w ≡ none
unfolding next_line
next_line-end [] h = refl
next_line-end (c ∷ w) h = rw (no_newline c h.0) (next_line-end w h.1)

first_word-end : (w : List ℕ) → IsName w → first_word w ≡ w
unfolding first_word
first_word-end [] h = absurd h
first_word-end (c ∷ w) h =
    ap (λ p. (word p).0)
      (ap skip_space (sym (append-nil (c ∷ w)))
        ∙ skip_space-NoSpace c w [] h.0
        ∙ append-nil (c ∷ w))
    ∙ ap (λ (q : List ℕ × List ℕ). q.0) (word-end (c ∷ w) h.0)

module _ {W : Type 0} where
  take_name-IsName :
      (w : List ℕ) (s : Vm W) → IsName w → take_name w s ≡ ok tt (record s { name = w })
  unfolding take_name set_name
  take_name-IsName [] s h = absurd h
  take_name-IsName (c ∷ w) s h = rw (not_zero (length w), fits-lt (c ∷ w) h.1) refl

  -- One line.
  names_loop-step :
      (f : ℕ) (w r : List ℕ) (s : Vm W)
      → IsName w
      → names_loop (suc f) first_word (w ++ 10 ∷ r) s
        ≡ names_loop f first_word r (record s { output = s.output ++ line_of w; name = w })
  unfolding names_loop print
  names_loop-step f [] r s h = absurd h
  names_loop-step f (c ∷ w) r s h =
      rw
        (first_word-line (c ∷ w) r h, take_name-IsName (c ∷ w) s h, next_line-NoSpace (c ∷ w) r h.0)
        refl

  names_loop-lines :
      (f : ℕ) (ws : List (List ℕ)) (s : Vm W)
      → AreNames ws
      → length ws < f
      → names_loop f first_word (lines ws) s
        ≡ ok tt (record s { output = s.output ++ lines ws; name = last_name s.name ws })
  names_loop-lines zero ws s h g = absurd (omega arith)
  names_loop-lines (suc f) [] s h g =
      unfold names_loop in
      ap (λ (o : List ℕ). ok tt (record s { output = o })) (sym (append-nil s.output))
  names_loop-lines (suc f) (w ∷ ws) s h g =
      names_loop-step f w (lines ws) s h.0
      ∙ names_loop-lines f ws (record s { output = s.output ++ line_of w; name = w }) h.1
          (omega arith)
      ∙ ap (λ (o : List ℕ). ok tt (record s { output = o; name = last_name w ws }))
          (append_assoc s.output (line_of w) (lines ws)
            ∙ ap (λ t. s.output ++ t) (append_assoc w (10 ∷ []) (lines ws)))

  names_loop-cut :
      (f : ℕ) (w : List ℕ) (s : Vm W) → IsName w → names_loop (suc f) first_word w s ≡ undefined
  unfolding names_loop print
  names_loop-cut f [] s h = absurd h
  names_loop-cut f (c ∷ w) s h =
      rw (first_word-end (c ∷ w) h, take_name-IsName (c ∷ w) s h, next_line-end (c ∷ w) h.0) refl

  -- For names without white space of less than 1024 bytes, with a newline behind each but
  -- the last, and with more rounds than names before it, the loop that prints a listing
  -- goes on behind a null pointer.
  pub names_loop-unended :
      (f : ℕ) (ws : List (List ℕ)) (w : List ℕ) (s : Vm W)
      → AreNames ws
      → IsName w
      → length ws < f
      → names_loop f first_word (lines_to ws w) s ≡ undefined
  names_loop-unended zero ws w s h k g = absurd (omega arith)
  names_loop-unended (suc f) [] w s h k g = names_loop-cut f w s k
  names_loop-unended (suc f) (v ∷ ws) w s h k g =
      names_loop-step f v (lines_to ws w) s h.0
      ∙ names_loop-unended f ws w (record s { output = s.output ++ line_of v; name = v }) h.1 k
          (omega arith)

-- The call returns; it has not touched the input, and the output is a text.
abbrev pub Prints : {W : Type 0} → Cmd (Vm W) (Unit {0}) → List ℕ → Vm W → Type 0
Prints {W} m out s = (s' : Vm W) × (m s ≡ ok tt s') × (s'.output ≡ out) × (s'.input ≡ s.input)

module _ {W : Type 0} ⦃host : Host W⦄ where
  -- The whole command: the names that the shell writes, and -1 behind them.
  printed :
      (f : ℕ) (ws : List (List ℕ)) (s : Vm W)
      → AreNames ws
      → length ws < f
      → (n : List ℕ) × ((if length (lines ws) == 0
              then pure tt
              else names_loop f first_word (lines ws))
            s
          ≡ ok tt (record s { output = s.output ++ lines ws; name = n }))
  printed f [] s h g =
      (s.name, ap (λ (o : List ℕ). ok tt (record s { output = o })) (sym (append-nil s.output)))
  printed f ([] ∷ ws) s h g = absurd h.0
  printed f ((c ∷ w) ∷ ws) s h g = (
    last_name s.name ((c ∷ w) ∷ ws),
    rw (not_zero (length (w ++ 10 ∷ lines ws))) (names_loop-lines f ((c ∷ w) ∷ ws) s h g),
  )

  -- Where the log can always be written and a command of less than 4096 bytes writes, no
  -- more than the pipe and the buffer hold and without null bytes, names without white
  -- space of less than 1024 bytes with a newline behind each, the printing of the listing
  -- returns, given more rounds than names; it has printed these lines and a -1, and has not
  -- touched the input.
  pub print_listing-lines :
      (f : ℕ) (command : List ℕ) (ws : List (List ℕ)) (s : Vm W)
      → AlwaysLogs host
      → length command < 4096
      → Writes command s.world (lines ws)
      → AreNames ws
      → length ws < f
      → Prints (print_listing f command) ((s.output ++ lines ws) ++ end_mark) s
  unfolding print_listing print
  print_listing-lines f command ws s logs short writes h g =
      let s₁ = record s { cmd = command } in
      let (w, e) = getresult-Writes logs (lines ws) s₁ writes in
      let s₂ = record s₁ { world = w; result = lines ws } in
      let (n, e') = printed f ws s₂ h g in
      (
        record s₂ { output = (s.output ++ lines ws) ++ end_mark; name = n },
        rw (set_cmd-fits command s short, e, e') refl,
        refl,
        refl,
      )
