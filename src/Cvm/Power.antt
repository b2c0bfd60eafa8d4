-- ===== src/Cvm/Power.antt =====
-- The commands of c_code/cvm/cvm.c that make, start and stop machines: `addvm`, `delvm`, the
-- `ppower` commands, which take the numbers of machines up to a -1, and the `power` commands.
pub mod Batch
use somenote.Common.{
  ℕ, zero, suc, ◌+◌, ◌-◌, Bool, true, false, Option, none, some, List, [], ◌∷◌, ◌++◌, ◌==◌, ltb,
  if◌then◌else◌,
}
use mathlib.Core.Option
use somenote.Libc.Int.{ℤ, pos, negsuc}
use somenote.Libc.Text.{codes}
use somenote.Libc.Scan.{show_int}
use somenote.Libc.Effect.{Run, ok, out_of_fuel, Cmd, pure, ◌>>=◌, ◌>>◌, get, need}
use somenote.Cvm.State.{
  Host, Vm, set_file, set_cmd, print, answer, read_int, read_word, try_int, try_word, is_num,
}
use somenote.Cvm.Host.{usleep, log_and_run, file_size}
use somenote.Cvm.Machine.{
  quiet, image, vmadd, vmdel, vmstatus, vmon, vmoff, vmhalt, vmreset, vmstop, vmcontinue,
}
use somenote.Cvm.Template.{oson}

-- -1, which ends a list of numbers
unfoldable pub is_end : ℤ → Bool
is_end (pos n) = false
is_end (negsuc n) = n == 0

abbrev pub line_of : List ℕ → List ℕ
line_of t = t ++ 10 ∷ []

-- What `ppower_on` reads for a machine.
pub record Settings : Type 0 where
  pub cpu : ℤ
  pub cpu_type : List ℕ
  pub mem : ℤ
  pub mac : List ℕ

module _ {W : Type 0} where
  -- `while(true) { scanf("%d", &id); if(id == -1) break; ... }`. Without a number, the one before
  -- stays.
  pub each : ℕ → (ℤ → Cmd (Vm W) (Unit {0})) → Option ℤ → Cmd (Vm W) (Unit {0})
  each zero op old = λ _. out_of_fuel
  each (suc f) op old = do
    id ← read_int old
    elim (is_end id) [ true ↦ pure tt | false ↦ do op id; each f op (some id) ]

  -- An answer for each number.
  pub answered : (ℤ → Cmd (Vm W) Bool) → ℤ → Cmd (Vm W) (Unit {0})
  answered op id = do done ← op id; answer done

  -- The word for a status of `vmstatus`.
  pub print_status : ℕ → Cmd (Vm W) (Unit {0})
  print_status ret =
      if ret == 0
      then print (line_of (codes "on"))
      else if ret == 1
      then print (line_of (codes "off"))
      else if ret == 2
      then print (line_of (codes "stop"))
      else print (line_of (codes "unknown"))

  -- `scanf("%d %s %d %s", &cpu, cpu_type, &mem, mac)`: what is not read stays as it was.
  read_settings : Option Settings → Cmd (Vm W) Settings
  read_settings old = do
    c ← try_int
    elim c [
      | none ↦ need old
      | some cpu ↦ do
        t ← try_word 512
        elim t [
          | none ↦ need (Option.map (λ (o : Settings). record o { cpu = cpu }) old)
          | some cpu_type ↦ do
            m ← try_int
            elim m [
              | none ↦
                  need
                    (Option.map (λ (o : Settings). record o { cpu = cpu; cpu_type = cpu_type }) old)
              | some mem ↦ do
                a ← try_word 1024
                elim a [
                  | none ↦ need (
                      Option.map
                        (λ (o : Settings). record o { cpu = cpu; cpu_type = cpu_type; mem = mem })
                        old)
                  | some mac ↦
                      pure (record { cpu = cpu; cpu_type = cpu_type; mem = mem; mac = mac })
                ]
            ]
        ]
    ]

module _ {W : Type 0} ⦃host : Host W⦄ where
  pub addvm : ℕ → Cmd (Vm W) (Unit {0})
  addvm f = do type ← read_int none; arg ← read_int none; each f (answered (vmadd type arg)) none

  pub delvm : ℕ → Cmd (Vm W) (Unit {0})
  delvm f = each f (answered vmdel) none

  pub status_of : ℤ → Cmd (Vm W) (Unit {0})
  status_of id = do ret ← vmstatus id; print_status ret

  pub ppower_status : ℕ → Cmd (Vm W) (Unit {0})
  ppower_status f = each f status_of none

  on_loop : ℕ → Option ℤ → Option Settings → Cmd (Vm W) (Unit {0})
  on_loop zero old kept = λ _. out_of_fuel
  on_loop (suc f) old kept = do
    id ← read_int old
    elim (is_end id) [
      | true ↦ pure tt
      | false ↦ do
        s ← read_settings kept
        done ← vmon f id s.cpu s.cpu_type s.mem s.mac
        answer done
        on_loop f (some id) (some s)
    ]

  pub ppower_on : ℕ → Cmd (Vm W) (Unit {0})
  ppower_on f = on_loop f none none

  pub ppower_off : ℕ → Cmd (Vm W) (Unit {0})
  ppower_off f = each f (answered vmoff) none

  pub ppower_halt : ℕ → Cmd (Vm W) (Unit {0})
  ppower_halt f = each f (answered vmhalt) none

  pub ppower_reset : ℕ → Cmd (Vm W) (Unit {0})
  ppower_reset f = each f (answered vmreset) none

  pub ppower_stop : ℕ → Cmd (Vm W) (Unit {0})
  ppower_stop f = each f (answered vmstop) none

  pub ppower_continue : ℕ → Cmd (Vm W) (Unit {0})
  ppower_continue f = each f (answered vmcontinue) none

  pub power_status : Cmd (Vm W) (Unit {0})
  power_status = do id ← read_int none; status_of id

  pub power_on : ℕ → Cmd (Vm W) (Unit {0})
  power_on f = do
    id ← read_int none
    s ← read_settings none
    done ← vmon f id s.cpu s.cpu_type s.mem s.mac
    answer done

  pub power_off : Cmd (Vm W) (Unit {0})
  power_off = do id ← read_int none; answered vmoff id

  pub power_halt : Cmd (Vm W) (Unit {0})
  power_halt = do id ← read_int none; answered vmhalt id

  pub power_reset : Cmd (Vm W) (Unit {0})
  power_reset = do id ← read_int none; answered vmreset id

  pub power_stop : Cmd (Vm W) (Unit {0})
  power_stop = do id ← read_int none; answered vmstop id

  pub power_continue : Cmd (Vm W) (Unit {0})
  power_continue = do id ← read_int none; answered vmcontinue id

  pub power_commit : Cmd (Vm W) (Unit {0})
  power_commit = do
    id ← read_int none
    set_cmd (codes "qemu-img commit -f qcow2 " ++ image id ++ quiet)
    log_and_run
    answer true

  pub power_drop : Cmd (Vm W) (Unit {0})
  power_drop = do id ← read_int none; _ ← vmadd (pos 1) id id; answer true

  -- A machine is put on a base image again.
  pub rebuild : ℤ → ℤ → Cmd (Vm W) (Unit {0})
  rebuild base id = do _ ← vmadd (pos 1) base id; pure tt

  pub power_rebuild : ℕ → Cmd (Vm W) (Unit {0})
  power_rebuild f = do base ← read_int none; each f (rebuild base) none; answer true

  -- The image of the machine is small.
  pub power_compare : Cmd (Vm W) (Unit {0})
  power_compare = do
    id ← read_int none
    set_file (image id)
    ret ← file_size
    answer (ltb ret 1000000)

  pub os_power_on : Cmd (Vm W) (Unit {0})
  os_power_on = do
    id ← read_int none
    cpu ← read_int none
    cpu_type ← read_word 512 none
    mem ← read_int none
    mac ← read_word 1024 none
    os_iso ← read_word 1024 none
    started ← oson id cpu cpu_type mem mac os_iso
    answer started
    (if started then rebuild id id else pure tt)
