-- ===== src/Cvm/Machine/Keeps.antt =====
-- The calls of c_code/cvm/cvm.c on one machine leave the input as it is.
use somenote.Common.{true, not, ◌==◌, length, if◌then◌else◌}
use somenote.Libc.Int.{ℤ}
use somenote.Cvm.State.{Host, is_num}
use somenote.Cvm.State.Keeps.{
  keep_rules, Keeps, bind-Keeps, then-Keeps, if-Keeps, pure-Keeps, set_cmd-Keeps, get-Keeps,
}
use somenote.Cvm.Host.Keeps.{
  xmlog-Keeps, system-Keeps, usleep-Keeps, log_and_run-Keeps, getresult-Keeps, file_exist-Keeps,
  monitor-Keeps,
}
use somenote.Cvm.Machine.{
  vmadd_overlay, vmadd_test, vmadd_new, vmadd, vmdel, vmison, vmstatus, vmoff, kill_machine, vmhalt,
  vmreset, vmstop, vmcontinue,
}

ruleset host_rules = (
  keep_rules, xmlog-Keeps, system-Keeps, usleep-Keeps, log_and_run-Keeps, getresult-Keeps,
  file_exist-Keeps, monitor-Keeps,
)

module _ {W : Type 0} ⦃host : Host W⦄ where
  vmadd_overlay-Keeps : (arg id : ℤ) → Keeps {W = W} (vmadd_overlay arg id)
  unfolding vmadd_overlay
  vmadd_overlay-Keeps arg id = search host_rules

  vmadd_test-Keeps : (id : ℤ) → Keeps {W = W} (vmadd_test id)
  unfolding vmadd_test
  vmadd_test-Keeps id = search host_rules

  vmadd_new-Keeps : (arg id : ℤ) → Keeps {W = W} (vmadd_new arg id)
  unfolding vmadd_new
  vmadd_new-Keeps arg id = search (host_rules, vmadd_overlay-Keeps, vmadd_test-Keeps) depth 10

  vmadd-Keeps : (type arg id : ℤ) → Keeps {W = W} (vmadd type arg id)
  unfolding vmadd
  vmadd-Keeps type arg id =
      if-Keeps (is_num type 1) (then-Keeps (vmadd_overlay-Keeps arg id) (vmadd_test-Keeps id))
        (if-Keeps (is_num type 2) (vmadd_new-Keeps arg id) (vmadd_test-Keeps id))

  pub vmdel-Keeps : (id : ℤ) → Keeps {W = W} (vmdel id)
  unfolding vmdel
  vmdel-Keeps id = search host_rules depth 16

  vmison-Keeps : (id : ℤ) → Keeps {W = W} (vmison id)
  unfolding vmison
  vmison-Keeps id = search host_rules depth 8

  pub vmstatus-Keeps : (id : ℤ) → Keeps {W = W} (vmstatus id)
  unfolding vmstatus
  vmstatus-Keeps id = bind-Keeps (vmison-Keeps id) λ on. pure-Keeps (if on then 0 else 1)

  pub vmoff-Keeps : (id : ℤ) → Keeps {W = W} (vmoff id)
  unfolding vmoff
  vmoff-Keeps id =
      bind-Keeps (vmison-Keeps id) λ on. if-Keeps on (monitor-Keeps id _) (pure-Keeps true)

  kill_machine-Keeps : (id : ℤ) → Keeps {W = W} (kill_machine id)
  unfolding kill_machine
  kill_machine-Keeps id = search (host_rules, vmison-Keeps) depth 10

  pub vmreset-Keeps : (id : ℤ) → Keeps {W = W} (vmreset id)
  unfolding vmreset
  vmreset-Keeps id = monitor-Keeps id _

  pub vmstop-Keeps : (id : ℤ) → Keeps {W = W} (vmstop id)
  unfolding vmstop
  vmstop-Keeps id = monitor-Keeps id _

  pub vmcontinue-Keeps : (id : ℤ) → Keeps {W = W} (vmcontinue id)
  unfolding vmcontinue
  vmcontinue-Keeps id = monitor-Keeps id _

  pub vmhalt-Keeps : (id : ℤ) → Keeps {W = W} (vmhalt id)
  unfolding vmhalt
  vmhalt-Keeps id = bind-Keeps (vmison-Keeps id) λ on. if-Keeps (not on) (pure-Keeps true) (
      then-Keeps (set_cmd-Keeps _) (
        then-Keeps (getresult-Keeps true) (
          bind-Keeps get-Keeps
            λ s. if-Keeps (length s.result == 0) (pure-Keeps true) (kill_machine-Keeps id))))
