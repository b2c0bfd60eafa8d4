-- ===== src/Cvm/Power/Batch/Answers.antt =====
-- What the commands of c_code/cvm/cvm.c on several machines print.
use somenote.Common.{
  ℕ, zero, suc, ◌<◌, ◌≡◌, refl, sym, ap, ◌∙◌, Bool, true, false, Option, none, some, List, [], ◌∷◌,
  ◌++◌, append_assoc, append-nil, length, arith, not,
}
use somenote.Libc.Int.{ℤ}
use somenote.Libc.Text.{codes}
use somenote.Libc.Scan.RoundTrip.{IsInt}
use somenote.Libc.Decimal.RoundTrip.{Stops}
use somenote.Libc.Effect.{ok, out_of_fuel, Cmd}
use somenote.Cvm.State.{Host, Vm, answer, print}
use somenote.Cvm.Host.Results.{AlwaysLogs}
use somenote.Cvm.Machine.{vmadd, vmdel, image, base_image}
use somenote.Libc.Scan.{show_int}
use somenote.Cvm.Machine.Added.{vmadd-AlwaysLogs}
use somenote.Cvm.Machine.Deleted.{vmdel-AlwaysLogs}
use somenote.Cvm.Power.{each, answered, addvm, delvm}
use somenote.Cvm.Power.Batch.{
  numbers, unended, AreIds, AlwaysReturns, each-end, each-step, each-unended, read_int-line,
  numbers-Stops,
}

abbrev answers : List Bool → List ℕ
answers [] = []
answers (true ∷ bs) = (codes "ok" ++ 10 ∷ []) ++ answers bs
answers (false ∷ bs) = (codes "error" ++ 10 ∷ []) ++ answers bs

joined : (b : Bool) (bs : List Bool) → answers (b ∷ []) ++ answers bs ≡ answers (b ∷ bs)
joined true bs = refl
joined false bs = refl

module _ {W : Type 0} where
  -- The call returns behind the numbers; it has printed ok or error once for each of them.
  abbrev pub AnswersEach : Cmd (Vm W) (Unit {0}) → List ℤ → List ℕ → Vm W → Type 0
  AnswersEach m zs r s =
      (bs : List Bool) × (s' : Vm W) × (m s ≡ ok tt s')
      × (s'.input ≡ r)
      × (length bs ≡ length zs)
      × (s'.output ≡ s.output ++ answers bs)

  -- The operation returns for every number of an int, and touches neither input nor output.
  abbrev IsQuiet : (ℤ → Cmd (Vm W) Bool) → Type 0
  IsQuiet op =
      (z : ℤ) (s : Vm W)
      → IsInt z
      → (b : Bool) × (s' : Vm W) × (op z s ≡ ok b s')
        × (s'.input ≡ s.input)
        × (s'.output ≡ s.output)

  answer_step :
      (b : Bool) (s : Vm W)
      → answer b s ≡ ok tt (record s { output = s.output ++ answers (b ∷ []) })
  unfolding answer print
  answer_step true s = refl
  answer_step false s = refl

  answered-IsQuiet :
      (op : ℤ → Cmd (Vm W) Bool)
      → IsQuiet op
      → (z : ℤ) (s : Vm W) → IsInt z
      → (b : Bool) × (s' : Vm W) × (answered op z s ≡ ok tt s')
        × (s'.input ≡ s.input)
        × (s'.output ≡ s.output ++ answers (b ∷ []))
  unfolding answered
  answered-IsQuiet op h z s int =
      let (b, s', e, i, o) = h z s int in
      (
        b,
        record s' { output = s'.output ++ answers (b ∷ []) },
        rw e (answer_step b s'),
        i,
        ap (λ t. t ++ answers (b ∷ [])) o,
      )

  each-answered :
      (f : ℕ) (op : ℤ → Cmd (Vm W) Bool) (zs : List ℤ) (r : List ℕ) (old : Option ℤ) (s : Vm W)
      → IsQuiet op
      → AreIds zs
      → Stops r
      → length zs < f
      → s.input ≡ numbers zs r
      → (bs : List Bool) × (s' : Vm W) × (each f (answered op) old s ≡ ok tt s')
        × (s'.input ≡ r)
        × (length bs ≡ length zs)
        × (s'.output ≡ s.output ++ answers bs)
  each-answered zero op zs r old s h ids stop g e = absurd (omega arith)
  each-answered (suc f) op [] r old s h ids stop g e = (
    [],
    record s { input = r },
    each-end f (answered op) old r s stop e,
    refl,
    refl,
    sym (append-nil s.output),
  )
  each-answered (suc f) op (z ∷ zs) r old s h ids stop g e =
      let (b, s₁, e₁, i₁, o₁) = answered-IsQuiet op h z (record s { input = numbers zs r }) ids.0 in
      let (bs, s₂, e₂, i₂, l, o₂) =
        each-answered f op zs r (some z) s₁ h ids.2 stop (omega arith) i₁ in
      (
        b ∷ bs,
        s₂,
        each-step f (answered op) old z zs r s ids.0 ids.1 e ∙ rw e₁ e₂,
        i₂,
        ap suc l,
        o₂
            ∙ ap (λ o. o ++ answers bs) o₁
            ∙ append_assoc s.output (answers (b ∷ [])) (answers bs)
            ∙ ap (λ t. s.output ++ t) (joined b bs),
      )

  answered-AlwaysReturns : (op : ℤ → Cmd (Vm W) Bool) → IsQuiet op → AlwaysReturns (answered op)
  answered-AlwaysReturns op h z s int =
      let (b, s', e, i, o) = answered-IsQuiet op h z s int in (s', e, i)

module _ {W : Type 0} ⦃host : Host W⦄ where
  vmdel-IsQuiet : AlwaysLogs host → IsQuiet {W = W} vmdel
  vmdel-IsQuiet logs z s h =
      let (s', e, i, o) = vmdel-AlwaysLogs logs z s h in
      (not (host.exists (base_image z) s'.world), s', e, i, o)

  -- Where the log can always be written, for numbers of an int other than -1 in the input,
  -- each behind a newline and a -1 behind the last, with no digit directly behind it, and
  -- with more rounds than numbers, delvm returns behind the -1 and has printed ok or error
  -- once for each number.
  pub delvm-answers :
      (f : ℕ) (zs : List ℤ) (r : List ℕ) (s : Vm W)
      → AlwaysLogs host
      → AreIds zs
      → Stops r
      → length zs < f
      → s.input ≡ numbers zs r
      → AnswersEach (delvm f) zs r s
  unfolding delvm
  delvm-answers f zs r s logs = each-answered f vmdel zs r none s (vmdel-IsQuiet logs)

  -- Where the log can always be written, for numbers of an int other than -1 in the input,
  -- at least one, with no -1 behind them but the end of the input, delvm uses up every
  -- number of rounds: it never returns.
  pub delvm-endless :
      (f : ℕ) (z : ℤ) (zs : List ℤ) (s : Vm W)
      → AlwaysLogs host
      → AreIds (z ∷ zs)
      → s.input ≡ unended (z ∷ zs)
      → delvm f s ≡ out_of_fuel
  unfolding delvm
  delvm-endless f z zs s logs =
      each-unended f (answered vmdel) none z zs s
        (answered-AlwaysReturns vmdel (vmdel-IsQuiet logs))

  vmadd-IsQuiet : AlwaysLogs host → (type arg : ℤ) → IsInt arg → IsQuiet {W = W} (vmadd type arg)
  vmadd-IsQuiet logs type arg h z s k =
      let (s', e, i, o) = vmadd-AlwaysLogs logs type arg z s h k in
      (host.exists (image z) s'.world, s', e, i, o)

  -- Where the log can always be written, for two numbers of an int in the input and behind
  -- them numbers of an int other than -1, a newline before each and a -1 behind the last,
  -- with no digit directly behind it, and with more rounds than machines, addvm returns
  -- behind the -1 and has printed ok or error once for each machine.
  pub addvm-answers :
      (f : ℕ) (type arg : ℤ) (zs : List ℤ) (r : List ℕ) (s : Vm W)
      → AlwaysLogs host
      → IsInt type
      → IsInt arg
      → AreIds zs
      → Stops r
      → length zs < f
      → s.input ≡ 10 ∷ (show_int type ++ 10 ∷ (show_int arg ++ numbers zs r))
      → AnswersEach (addvm f) zs r s
  unfolding addvm
  addvm-answers f type arg zs r s logs h k ids stop g e =
      let s₁ = record s { input = 10 ∷ (show_int arg ++ numbers zs r) } in
      let s₂ = record s { input = numbers zs r } in
      let (bs, s', e', i, l, o) =
        each-answered f (vmadd type arg) zs r none s₂ (vmadd-IsQuiet logs type arg k) ids stop g
          refl in
      (
        bs,
        s',
        rw
            (
              read_int-line none type (10 ∷ (show_int arg ++ numbers zs r)) s h refl e,
              read_int-line none arg (numbers zs r) s₁ k (numbers-Stops zs r) refl,
            )
            e',
        i,
        l,
        o,
      )
