-- ===== src/Cvm/Bridge.antt =====
-- The commands of c_code/cvm/cvm.c on bridges, `brctl`, and on the view of machines, `viewmode`.
use somenote.Common.{ℕ, zero, suc, true, false, Option, none, some, List, [], ◌∷◌, ◌++◌}
use mathlib.Core.Option
use somenote.Libc.Int.{ℤ}
use somenote.Libc.Text.{codes}
use somenote.Libc.Scan.{show_int}
use somenote.Libc.Effect.{out_of_fuel, Cmd, pure, ◌>>=◌, ◌>>◌, get, need}
use somenote.Cvm.State.{
  dir, vnctoken, Host, Vm, add_int, set_cmd, answer, read_int, read_word, try_int, try_word,
}
use somenote.Cvm.Host.{system, log_and_run, monitor, append_to}
use somenote.Cvm.Machine.{quiet}
use somenote.Cvm.Power.{is_end, each}
use somenote.Cvm.Disk.{arg}

module _ {W : Type 0} ⦃host : Host W⦄ where
  pub brctl_addbr : Cmd (Vm W) (Unit {0})
  brctl_addbr = do
    type ← read_int none
    tag ← read_int none
    br ← read_word 32 none
    eth ← read_word 32 none
    ip ← read_word 32 none
    netmask ← read_word 32 none
    gateway ← read_word 32 none
    network ← read_word 32 none
    set_cmd (
        dir
        ++ codes "/addbr.sh"
        ++ arg (show_int type)
        ++ arg (show_int tag)
        ++ arg br
        ++ arg eth
        ++ arg ip
        ++ arg netmask
        ++ arg gateway
        ++ arg network
        ++ quiet)
    log_and_run
    answer true

  -- `scanf("%d%s%s", &type, pre_br, cur_br)`: what is not read stays as it was.
  read_bridges : Option (ℤ × List ℕ × List ℕ) → Cmd (Vm W) (ℤ × List ℕ × List ℕ)
  read_bridges old = do
    t ← try_int
    elim t [
      | none ↦ need old
      | some type ↦ do
        p ← try_word 32
        elim p [
          | none ↦ need (
              Option.map {B = ℤ × List ℕ × List ℕ} (λ (o : ℤ × List ℕ × List ℕ). (type, o.1, o.2))
                old)
          | some pre_br ↦ do
            c ← try_word 32
            elim c [
              | none ↦ need (
                  Option.map {B = ℤ × List ℕ × List ℕ}
                    (λ (o : ℤ × List ℕ × List ℕ). (type, pre_br, o.2)) old)
              | some cur_br ↦ pure (type, pre_br, cur_br)
            ]
        ]
    ]

  addif_loop : ℕ → Option ℤ → Option (ℤ × List ℕ × List ℕ) → Cmd (Vm W) (Unit {0})
  addif_loop zero old kept = λ _. out_of_fuel
  addif_loop (suc f) old kept = do
    id ← read_int old
    elim (is_end id) [
      | true ↦ pure tt
      | false ↦ do
        (type, pre_br, cur_br) ← read_bridges kept
        set_cmd (
            dir
            ++ codes "/addif.sh"
            ++ arg (show_int id)
            ++ arg (show_int type)
            ++ arg pre_br
            ++ arg cur_br
            ++ quiet)
        log_and_run
        answer true
        addif_loop f (some id) (some (type, pre_br, cur_br))
    ]

  pub brctl_addif : ℕ → Cmd (Vm W) (Unit {0})
  brctl_addif f = addif_loop f none none

  -- `scanf("%s%s", br, eth)`: what is not read stays as it was.
  read_bridge : Option (List ℕ × List ℕ) → Cmd (Vm W) (List ℕ × List ℕ)
  read_bridge old = do
    b ← try_word 32
    elim b [
      | none ↦ need old
      | some br ↦ do
        e ← try_word 32
        elim e [
          | none ↦ need (Option.map {B = List ℕ × List ℕ} (λ (o : List ℕ × List ℕ). (br, o.1)) old)
          | some eth ↦ pure (br, eth)
        ]
    ]

  delbr_loop : ℕ → Option ℤ → Option (List ℕ × List ℕ) → Cmd (Vm W) (Unit {0})
  delbr_loop zero old kept = λ _. out_of_fuel
  delbr_loop (suc f) old kept = do
    tag ← read_int old
    elim (is_end tag) [
      | true ↦ pure tt
      | false ↦ do
        (br, eth) ← read_bridge kept
        set_cmd (dir ++ codes "/delbr.sh" ++ arg (show_int tag) ++ arg br ++ arg eth ++ quiet)
        log_and_run
        answer true
        delbr_loop f (some tag) (some (br, eth))
    ]

  pub brctl_delbr : ℕ → Cmd (Vm W) (Unit {0})
  brctl_delbr f = delbr_loop f none none

  -- The token file is opened first; the lines that are printed to it reach it when it is closed.
  view_add_loop : ℕ → Option ℤ → List ℕ → Cmd (Vm W) (List ℕ)
  view_add_loop zero old lines = λ _. out_of_fuel
  view_add_loop (suc f) old lines = do
    id ← read_int old
    elim (is_end id) [
      | true ↦ pure lines
      | false ↦ do
        _ ← monitor id (codes "change vnc password cac028")
        view_add_loop f (some id) (
            lines
            ++ codes "VM"
            ++ show_int id
            ++ codes ": localhost:"
            ++ show_int (add_int id 6000)
            ++ 10 ∷ [])
    ]

  pub add_vm_view : ℕ → Cmd (Vm W) (Unit {0})
  add_vm_view f = do
    append_to vnctoken []
    lines ← view_add_loop f none []
    append_to vnctoken lines
    answer true

  remove_view : ℤ → Cmd (Vm W) (Unit {0})
  remove_view id = do
    set_cmd (codes "sed -i '/VM" ++ show_int id ++ codes ":/d' " ++ vnctoken)
    s ← get
    system s.cmd
    set_cmd (codes "change vnc password \"\"")
    s₁ ← get
    _ ← monitor id s₁.cmd
    pure tt

  pub del_vm_view : ℕ → Cmd (Vm W) (Unit {0})
  del_vm_view f = do each f remove_view none; answer true
