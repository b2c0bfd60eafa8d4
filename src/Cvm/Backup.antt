-- ===== src/Cvm/Backup.antt =====
-- The commands of c_code/cvm/cvm.c that copy images to a backup and back: `backup`, `alter` and
-- `pbackup`.
use somenote.Common.{ℕ, zero, suc, ◌+◌, true, false, Option, none, some, List, ◌++◌}
use mathlib.Core.Option
use somenote.Libc.Int.{ℤ, pos}
use somenote.Libc.Text.{codes}
use somenote.Libc.Scan.{show_int}
use somenote.Libc.Effect.{out_of_fuel, Cmd, pure, ◌>>=◌, ◌>>◌, need}
use somenote.Cvm.State.{
  backupdir, Host, Vm, add_int, set_cmd, print_int, answer, read_int, read_long, read_word, try_int,
  try_word,
}
use somenote.Cvm.Host.{usleep, log_and_run, now}
use somenote.Cvm.Rate.{rate}
use somenote.Cvm.Machine.{quiet, image, base_image}
use somenote.Cvm.Power.{is_end}
use somenote.Cvm.Images.{query}
use somenote.Cvm.Transfer.{at_host, rsync, transfer}

-- An image or a base image of a backup.
abbrev backup_image : List ℕ → ℤ → List ℕ
backup_image kind id = backupdir ++ codes "/" ++ kind ++ show_int id

module _ {W : Type 0} ⦃host : Host W⦄ where
  -- Two transfers: the second one has the next time.
  transfer_two : (from to from' to' : List ℕ) → Cmd (Vm W) (Unit {0})
  transfer_two from to from' to' = do
    t ← now
    set_cmd (rsync from to t)
    log_and_run
    set_cmd (rsync from' to' (t + 1))
    log_and_run
    print_int (pos t)

  pub backup_backup : Cmd (Vm W) (Unit {0})
  backup_backup = do
    vmid ← read_int none
    backid ← read_int none
    ip ← read_word 32 none
    transfer_two (base_image vmid) (at_host ip (backup_image (codes "BACK") backid)) (image vmid)
        (at_host ip (backup_image (codes "VM") backid))

  pub backup_restore : Cmd (Vm W) (Unit {0})
  backup_restore = do
    vmid ← read_int none
    backid ← read_int none
    ip ← read_word 32 none
    transfer_two (at_host ip (backup_image (codes "BACK") backid)) (base_image vmid)
        (at_host ip (backup_image (codes "VM") backid)) (image vmid)

  pub backup_query : Cmd (Vm W) (Unit {0})
  backup_query = do
    t ← read_long
    a ← rate (show_int t)
    b ← rate (show_int (add_int t 1))
    print_int (host.nine_to_one a b)

  -- The image is put on its own base image.
  rebase : ℤ → Cmd (Vm W) (Unit {0})
  rebase id = do
    set_cmd
        (codes "qemu-img rebase -f qcow2 -u -b " ++ base_image id ++ codes " " ++ image id ++ quiet)
    log_and_run

  pub backup_rebase : Cmd (Vm W) (Unit {0})
  backup_rebase = do id ← read_int none; rebase id; answer true

  pub alter_alter : Cmd (Vm W) (Unit {0})
  alter_alter = do
    id ← read_int none
    baseid ← read_int none
    rebase id
    transfer (base_image baseid) (base_image id)

  pub alter_query : Cmd (Vm W) (Unit {0})
  alter_query = query

  pub alter_rebase : Cmd (Vm W) (Unit {0})
  alter_rebase = do id ← read_int none; rebase id; answer true

  -- `scanf("%d%s", &backid, ip)`: what is not read stays as it was.
  read_backup : Option (ℤ × List ℕ) → Cmd (Vm W) (ℤ × List ℕ)
  read_backup old = do
    b ← try_int
    elim b [
      | none ↦ need old
      | some backid ↦ do
        i ← try_word 32
        elim i [
          | none ↦ need (Option.map {B = ℤ × List ℕ} (λ (o : ℤ × List ℕ). (backid, o.1)) old)
          | some ip ↦ pure (backid, ip)
        ]
    ]

  pbackup_loop : ℕ → Option ℤ → Option (ℤ × List ℕ) → Cmd (Vm W) (Unit {0})
  pbackup_loop zero old kept = λ _. out_of_fuel
  pbackup_loop (suc f) old kept = do
    vmid ← read_int old
    elim (is_end vmid) [
      | true ↦ pure tt
      | false ↦ do
        (backid, ip) ← read_backup kept
        transfer_two (base_image vmid) (at_host ip (backup_image (codes "BACK") backid))
            (image vmid) (at_host ip (backup_image (codes "VM") backid))
        usleep 10000000
        pbackup_loop f (some vmid) (some (backid, ip))
    ]

  pub pbackup_backup : ℕ → Cmd (Vm W) (Unit {0})
  pbackup_backup f = pbackup_loop f none none
