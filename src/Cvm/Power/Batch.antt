-- ===== src/Cvm/Power/Batch.antt =====
-- The loops of c_code/cvm/cvm.c that take the numbers of machines up to a -1.
pub mod Answers
pub mod Commands
use somenote.Common.{
  ℕ, zero, suc, ◌+◌, ◌<◌, ◌≡◌, refl, sym, ap, ◌∙◌, Bool, true, false, Option, none, some, List, [],
  ◌∷◌, ◌++◌, length, arith, ◌^◌,
}
use somenote.Libc.Int.{ℤ, pos, negsuc}
use somenote.Libc.Scan.{show_int, scan_int}
use somenote.Libc.Scan.RoundTrip.{IsInt, scan_int-show_int, scan_int-space, scan_int-nothing}
use somenote.Libc.Decimal.RoundTrip.{Stops}
use somenote.Libc.Effect.{Run, ok, overflow, undefined, blocked, quit, out_of_fuel, Cmd, and_then}
use somenote.Libc.Returns.{chosen}
use somenote.Cvm.State.{Vm, read_int}
use somenote.Cvm.State.Keeps.{KeepsInput, Keeps}
use somenote.Cvm.Power.{each, is_end}

-- 0 < 2 ^ 31
decided : 0 < 2 ^ 31
decided = omega arith

-- Numbers as they stand in the input: each behind a newline, a -1 behind the last.
abbrev pub numbers : List ℤ → List ℕ → List ℕ
numbers [] r = 10 ∷ show_int (negsuc 0) ++ r
numbers (z ∷ zs) r = 10 ∷ show_int z ++ numbers zs r

pub numbers-Stops : (zs : List ℤ) (r : List ℕ) → Stops (numbers zs r)
numbers-Stops [] r = refl
numbers-Stops (z ∷ zs) r = refl

-- Numbers that an int holds, none of them the end mark.
abbrev pub AreIds : List ℤ → Type 0
AreIds [] = Unit {0}
AreIds (z ∷ zs) = IsInt z × (is_end z ≡ false) × AreIds zs

module _ {W : Type 0} where
  -- The operation for each of the numbers, one behind the other.
  abbrev pub served : (ℤ → Cmd (Vm W) (Unit {0})) → List ℤ → List ℕ → Cmd (Vm W) (Unit {0})
  served op [] r s = ok tt (record s { input = r })
  served op (z ∷ zs) r s =
      and_then (op z (record s { input = numbers zs r })) (λ _ s'. served op zs r s')

  pub read_int-line :
      (old : Option ℤ) (z : ℤ) (t : List ℕ) (s : Vm W)
      → IsInt z
      → Stops t
      → s.input ≡ 10 ∷ show_int z ++ t
      → read_int old s ≡ ok z (record s { input = t })
  unfolding read_int
  read_int-line old z t s h stop e =
      rw (e, scan_int-space 10 (show_int z ++ t) refl, scan_int-show_int z t h stop)

  pub each-end :
      (f : ℕ) (op : ℤ → Cmd (Vm W) (Unit {0})) (old : Option ℤ) (r : List ℕ) (s : Vm W)
      → Stops r
      → s.input ≡ numbers [] r
      → each (suc f) op old s ≡ ok tt (record s { input = r })
  unfolding each is_end
  each-end f op old r s stop e = rw (read_int-line old (negsuc 0) r s decided stop e)

  pub each-step :
      (f : ℕ) (op : ℤ → Cmd (Vm W) (Unit {0})) (old : Option ℤ) (z : ℤ) (zs : List ℤ) (r : List ℕ)
      (s : Vm W)
      → IsInt z
      → is_end z ≡ false
      → s.input ≡ numbers (z ∷ zs) r
      → each (suc f) op old s
        ≡ and_then (op z (record s { input = numbers zs r })) (λ _ s'. each f op (some z) s')
  unfolding each
  each-step f op old z zs r s h k e =
      rw (read_int-line old z (numbers zs r) s h (numbers-Stops zs r) e)
        (chosen (is_end z) _ _ (record s { input = numbers zs r }) k)

  -- What follows a call is the same wherever the call leaves the input that it found.
  and_then-rest :
      {i : List ℕ} (q : Run (Vm W) (Unit {0})) (m n : Cmd (Vm W) (Unit {0}))
      → KeepsInput i q
      → ((s : Vm W) → s.input ≡ i → m s ≡ n s)
      → and_then q (λ _. m) ≡ and_then q (λ _. n)
  and_then-rest (ok a s) m n k h = h s k
  and_then-rest overflow m n k h = refl
  and_then-rest undefined m n k h = refl
  and_then-rest blocked m n k h = refl
  and_then-rest (quit t) m n k h = refl
  and_then-rest out_of_fuel m n k h = refl

  pub each-served :
      (f : ℕ) (op : ℤ → Cmd (Vm W) (Unit {0})) (zs : List ℤ) (r : List ℕ) (old : Option ℤ)
      (s : Vm W)
      → ((z : ℤ) → Keeps (op z))
      → AreIds zs
      → Stops r
      → length zs < f
      → s.input ≡ numbers zs r
      → each f op old s ≡ served op zs r s
  each-served zero op zs r old s keep h stop g e = absurd (omega arith)
  each-served (suc f) op [] r old s keep h stop g e = each-end f op old r s stop e
  each-served (suc f) op (z ∷ zs) r old s keep h stop g e =
      each-step f op old z zs r s h.0 h.1 e
      ∙ and_then-rest (op z (record s { input = numbers zs r })) (each f op (some z))
          (served op zs r) ((keep z).kept (record s { input = numbers zs r }))
          (λ s' k. each-served f op zs r (some z) s' keep h.2 stop (omega arith) k)

-- Numbers as they stand in an input that ends behind them.
abbrev pub unended : List ℤ → List ℕ
unended [] = []
unended (z ∷ zs) = 10 ∷ show_int z ++ unended zs

unended-Stops : (zs : List ℤ) → Stops (unended zs)
unended-Stops [] = tt
unended-Stops (z ∷ zs) = refl

module _ {W : Type 0} where
  -- The operation returns for every number of an int, and does not touch the input.
  abbrev pub AlwaysReturns : (ℤ → Cmd (Vm W) (Unit {0})) → Type 0
  AlwaysReturns op =
      (z : ℤ) (s : Vm W) → IsInt z → (s' : Vm W) × (op z s ≡ ok tt s') × (s'.input ≡ s.input)

  read_int-nothing :
      (z : ℤ) (s : Vm W) → s.input ≡ [] → read_int (some z) s ≡ ok z (record s { input = [] })
  unfolding read_int
  read_int-nothing z s e = rw (e, scan_int-nothing) refl

  -- One round on a number.
  unended-step :
      (f : ℕ) (op : ℤ → Cmd (Vm W) (Unit {0})) (old : Option ℤ) (z : ℤ) (zs : List ℤ) (s : Vm W)
      → AlwaysReturns op
      → AreIds (z ∷ zs)
      → s.input ≡ unended (z ∷ zs)
      → (s' : Vm W) × (each (suc f) op old s ≡ each f op (some z) s') × (s'.input ≡ unended zs)
  unfolding each
  unended-step f op old z zs s h ids e =
      let s₁ = record s { input = unended zs } in
      let (s', r, i) = h z s₁ ids.0 in
      (
        s',
        rw (read_int-line old z (unended zs) s ids.0 (unended-Stops zs) e)
            (chosen (is_end z) _ _ s₁ ids.1 ∙ rw r refl),
        i,
      )

  end_step :
      (f : ℕ) (op : ℤ → Cmd (Vm W) (Unit {0})) (z : ℤ) (s : Vm W)
      → AlwaysReturns op
      → IsInt z
      → is_end z ≡ false
      → s.input ≡ []
      → (s' : Vm W) × (each (suc f) op (some z) s ≡ each f op (some z) s') × (s'.input ≡ [])
  unfolding each
  end_step f op z s h int k e =
      let s₁ = record s { input = [] } in
      let (s', r, i) = h z s₁ int in
      (s', rw (read_int-nothing z s e) (chosen (is_end z) _ _ s₁ k ∙ rw r refl), i)

  kept_endless :
      (f : ℕ) (op : ℤ → Cmd (Vm W) (Unit {0})) (z : ℤ) (zs : List ℤ) (s : Vm W)
      → AlwaysReturns op
      → IsInt z
      → is_end z ≡ false
      → AreIds zs
      → s.input ≡ unended zs
      → each f op (some z) s ≡ out_of_fuel
  kept_endless zero op z zs s h int k ids e = unfold each in refl
  kept_endless (suc f) op z [] s h int k ids e =
      let (s', r, i) = end_step f op z s h int k e in r ∙ kept_endless f op z [] s' h int k tt i
  kept_endless (suc f) op z (y ∷ zs) s h int k ids e =
      let (s', r, i) = unended-step f op (some z) y zs s h ids e in
      r ∙ kept_endless f op y zs s' h ids.0 ids.1 ids.2 i

  pub each-unended :
      (f : ℕ) (op : ℤ → Cmd (Vm W) (Unit {0})) (old : Option ℤ) (z : ℤ) (zs : List ℤ) (s : Vm W)
      → AlwaysReturns op
      → AreIds (z ∷ zs)
      → s.input ≡ unended (z ∷ zs)
      → each f op old s ≡ out_of_fuel
  each-unended zero op old z zs s h ids e = unfold each in refl
  each-unended (suc f) op old z zs s h ids e =
      let (s', r, i) = unended-step f op old z zs s h ids e in
      r ∙ kept_endless f op z zs s' h ids.0 ids.1 ids.2 i
