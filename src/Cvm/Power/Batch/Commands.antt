-- ===== src/Cvm/Power/Batch/Commands.antt =====
-- The commands of c_code/cvm/cvm.c on several machines.
use somenote.Common.{ℕ, ◌<◌, ◌≡◌, Bool, none, List, length, ◌==◌}
use somenote.Libc.Int.{ℤ}
use somenote.Libc.Decimal.RoundTrip.{Stops}
use somenote.Libc.Effect.{Cmd}
use somenote.Cvm.State.{Host, Vm}
use somenote.Cvm.State.Keeps.{Keeps, bind-Keeps, if-Keeps, print-Keeps, answer-Keeps}
use somenote.Cvm.Machine.{vmdel, vmoff, vmhalt, vmreset, vmstop, vmcontinue}
use somenote.Cvm.Machine.Keeps.{
  vmdel-Keeps, vmstatus-Keeps, vmoff-Keeps, vmhalt-Keeps, vmreset-Keeps, vmstop-Keeps,
  vmcontinue-Keeps,
}
use somenote.Cvm.Power.{
  answered, print_status, status_of, delvm, ppower_status, ppower_off, ppower_halt, ppower_reset,
  ppower_stop, ppower_continue,
}
use somenote.Cvm.Power.Batch.{numbers, AreIds, served, each-served}

module _ {W : Type 0} where
  answered-Keeps :
      (op : ℤ → Cmd (Vm W) Bool) → ((z : ℤ) → Keeps (op z)) → (z : ℤ) → Keeps (answered op z)
  unfolding answered
  answered-Keeps op h z = bind-Keeps (h z) λ done. answer-Keeps done

  print_status-Keeps : (ret : ℕ) → Keeps {W = W} (print_status ret)
  unfolding print_status
  print_status-Keeps ret =
      if-Keeps (ret == 0) (print-Keeps _)
        (if-Keeps (ret == 1) (print-Keeps _) (if-Keeps (ret == 2) (print-Keeps _) (print-Keeps _)))

module _ {W : Type 0} ⦃host : Host W⦄ where
  status_of-Keeps : (id : ℤ) → Keeps {W = W} (status_of id)
  unfolding status_of
  status_of-Keeps id = bind-Keeps (vmstatus-Keeps id) λ ret. print_status-Keeps ret

  -- Each command does its operation for each number.
  abbrev pub ServesAll : ℕ → List ℤ → List ℕ → Vm W → Type 0
  ServesAll f zs r s =
      (delvm f s ≡ served (answered vmdel) zs r s)
      × (ppower_status f s ≡ served status_of zs r s)
      × (ppower_off f s ≡ served (answered vmoff) zs r s)
      × (ppower_halt f s ≡ served (answered vmhalt) zs r s)
      × (ppower_reset f s ≡ served (answered vmreset) zs r s)
      × (ppower_stop f s ≡ served (answered vmstop) zs r s)
      × (ppower_continue f s ≡ served (answered vmcontinue) zs r s)

  -- For numbers of an int other than -1 in the input, each behind a newline and a -1 behind
  -- the last, with no digit directly behind it, and with more rounds than numbers, delvm,
  -- ppower_status, ppower_off, ppower_halt, ppower_reset, ppower_stop and ppower_continue
  -- do what their operation does on one machine, once for each number in the order of the
  -- input, and stop where an operation fails; the -1 is read, and what follows it is left.
  pub batches-served :
      (f : ℕ) (zs : List ℤ) (r : List ℕ) (s : Vm W)
      → AreIds zs
      → Stops r
      → length zs < f
      → s.input ≡ numbers zs r
      → ServesAll f zs r s
  unfolding delvm ppower_status ppower_off ppower_halt ppower_reset ppower_stop ppower_continue
  batches-served f zs r s h stop g e = (
    each-served f (answered vmdel) zs r none s (answered-Keeps vmdel vmdel-Keeps) h stop g e,
    each-served f status_of zs r none s status_of-Keeps h stop g e,
    each-served f (answered vmoff) zs r none s (answered-Keeps vmoff vmoff-Keeps) h stop g e,
    each-served f (answered vmhalt) zs r none s (answered-Keeps vmhalt vmhalt-Keeps) h stop g e,
    each-served f (answered vmreset) zs r none s (answered-Keeps vmreset vmreset-Keeps) h stop g e,
    each-served f (answered vmstop) zs r none s (answered-Keeps vmstop vmstop-Keeps) h stop g e,
    each-served f (answered vmcontinue) zs r none s (answered-Keeps vmcontinue vmcontinue-Keeps) h
        stop g e,
  )
