-- ===== src/Cvm/Host/Keeps.antt =====
-- The calls of the shell and of a monitor leave the input as it is.
use somenote.Common.{
  ℕ, refl, Bool, true, false, Option, none, some, List, leb, length, if◌then◌else◌, ◌++◌,
}
use somenote.Libc.Int.{ℤ}
use somenote.Libc.Effect.{ok, undefined, blocked, pure, ◌>>◌}
use somenote.Libc.Text.{codes}
use somenote.Libc.Scan.{show_int}
use somenote.Cvm.State.{cldir, Host, Vm}
use somenote.Cvm.State.Keeps.{
  keep_rules, KeepsInput, Keeps, keeps, set_result-Keeps, bind-Keeps, then-Keeps, if-Keeps,
  pure-Keeps, get-Keeps, ask_world-Keeps,
}
use somenote.Cvm.Host.{
  append_to, xmlog, system, usleep, log_and_run, capture, getresult, file_exist, say_monitor,
  monitor,
}

module _ {W : Type 0} ⦃host : Host W⦄ where
  appended :
      (o : Option W) (s : Vm W)
      → KeepsInput {A = Unit {0}} s.input
          (elim o [ none ↦ undefined | some w ↦ ok tt (record s { world = w }) ])
  appended none s = tt
  appended (some w) s = refl

  append_to-Keeps : (path t : List ℕ) → Keeps {W = W} (append_to path t)
  unfolding append_to
  append_to-Keeps path t = keeps λ s. appended (host.append_file path t s.world) s

  pub xmlog-Keeps : (t : List ℕ) → Keeps {W = W} (xmlog t)
  unfolding xmlog
  xmlog-Keeps t = search (keep_rules, append_to-Keeps)

  pub system-Keeps : (t : List ℕ) → Keeps {W = W} (system t)
  unfolding system
  system-Keeps t = keeps λ s. refl

  pub usleep-Keeps : (n : ℕ) → Keeps {W = W} (usleep n)
  unfolding usleep
  usleep-Keeps n = keeps λ s. refl

  pub log_and_run-Keeps : Keeps {W = W} log_and_run
  unfolding log_and_run
  log_and_run-Keeps = search (keep_rules, xmlog-Keeps, system-Keeps)

  read_pipe :
      (b : Bool) (out : List ℕ) (w : W) (s : Vm W)
      → KeepsInput s.input (if b then ok out (record s { world = w }) else blocked)
  read_pipe true out w s = refl
  read_pipe false out w s = tt

  capture-Keeps : (t : List ℕ) → Keeps {W = W} (capture t)
  unfolding capture
  capture-Keeps t = keeps λ s.
      read_pipe (leb (length (host.shell t s.world).0) host.pipe_size) _ (host.shell t s.world).1 s

  logged-Keeps :
      (b : Bool) (c out : List ℕ) → Keeps {W = W} (if b then (do xmlog c; xmlog out) else pure tt)
  logged-Keeps true c out = then-Keeps (xmlog-Keeps c) (xmlog-Keeps out)
  logged-Keeps false c out = pure-Keeps tt

  pub getresult-Keeps : (b : Bool) → Keeps {W = W} (getresult b)
  unfolding getresult
  getresult-Keeps b = bind-Keeps get-Keeps λ s.
      bind-Keeps (capture-Keeps s.cmd)
        λ out. then-Keeps (set_result-Keeps out) (logged-Keeps b s.cmd out)

  pub file_exist-Keeps : Keeps {W = W} file_exist
  unfolding file_exist
  file_exist-Keeps = keeps λ s. refl

  say_monitor-Keeps : (t : List ℕ) → Keeps {W = W} (say_monitor t)
  unfolding say_monitor
  say_monitor-Keeps t = search (keep_rules, usleep-Keeps, xmlog-Keeps) depth 14

  pub monitor-Keeps : (id : ℤ) (t : List ℕ) → Keeps {W = W} (monitor id t)
  unfolding monitor
  monitor-Keeps id t =
      bind-Keeps (ask_world-Keeps (host.join (cldir ++ codes "/CL" ++ show_int id)))
        λ connected. if-Keeps connected (say_monitor-Keeps t) (pure-Keeps false)
