-- ===== src/Cvm/Host.antt =====
-- What c_code/cvm/cvm.c does to the machine it runs on: the shell, the monitor of a machine, the
-- agent, and the log.
pub mod Keeps
pub mod Results
use somenote.Common.{
  ℕ, zero, suc, ◌+◌, ◌-◌, ◌<◌, Bool, true, false, ◌||◌, Option, none, some, List, [], ◌∷◌, ◌++◌,
  ◌==◌, leb, ltb, if◌then◌else◌, length, take, drop, get_or,
}
use somenote.Libc.Int.{ℤ, pos, negsuc}
use somenote.Libc.Text.{text, codes}
use somenote.Libc.Scan.{scan_int, skip_space, word, show_int, strstr, strrchr, fgets}
use somenote.Libc.Effect.{
  Run, ok, overflow, undefined, blocked, out_of_fuel, Cmd, pure, ◌>>=◌, ◌>>◌, get, modify, need,
  fit,
}
use somenote.Cvm.State.{
  log, logdir, cldir, vnctoken, resultlen, filelen, cmdlen, Host, Vm, fits, on_world, ask_world,
  set_file, set_cmd, print,
}

abbrev pub is_some : {A : Type 0} → Option A → Bool
is_some none = false
is_some (some a) = true

module _ {W : Type 0} ⦃host : Host W⦄ where
  -- A file that cannot be opened gives a null pointer.
  pub append_to : List ℕ → List ℕ → Cmd (Vm W) (Unit {0})
  append_to path t s = elim (host.append_file path t s.world) [
    | none ↦ undefined
    | some w ↦ ok tt (record s { world = w })
  ]

  pub xmlog : List ℕ → Cmd (Vm W) (Unit {0})
  xmlog str = do s ← get; append_to log (host.ctime s.world ++ str ++ 10 ∷ [])

  pub system : List ℕ → Cmd (Vm W) (Unit {0})
  system t = on_world (host.system t)

  pub usleep : ℕ → Cmd (Vm W) (Unit {0})
  usleep n = on_world (host.sleep n)

  -- `xmlog(cmd)` and `system(cmd)`
  pub log_and_run : Cmd (Vm W) (Unit {0})
  log_and_run = do s ← get; xmlog s.cmd; system s.cmd

  -- The output of the command is read from the pipe after the command has ended: one that writes
  -- more than the pipe holds waits for ever.
  pub capture : List ℕ → Cmd (Vm W) (List ℕ)
  capture t s =
      let (out, w) = host.shell t s.world in
      if leb (length out) host.pipe_size
      then ok (text (take (resultlen - 1) out)) (record s { world = w })
      else blocked

  -- `getresult(cmd, result)`
  pub getresult : (olog : Bool) → Cmd (Vm W) (Unit {0})
  getresult olog = do
    s ← get
    out ← capture s.cmd
    modify λ s'. record s' { result = out }
    if olog then (do xmlog s.cmd; xmlog out) else pure tt

  -- `getresult(cmd, result2, 0)`
  pub getresult2 : Cmd (Vm W) (Unit {0})
  getresult2 = do s ← get; out ← capture s.cmd; modify λ s'. record s' { result2 = out }

  -- `fileExist(file)`
  unfoldable pub file_exist : Cmd (Vm W) Bool
  file_exist s = ok (host.exists s.file s.world) s

  -- `fileSize(file)`: where `stat` fails the structure is not set.
  pub file_size : Cmd (Vm W) ℕ
  file_size s = need (host.size s.file s.world) s

  -- `time(&t)`
  pub now : Cmd (Vm W) ℕ
  now s = ok (host.clock s.world) s

  -- A command to the monitor of a machine, the answer in `result`; false where no monitor listens.
  pub say_monitor : List ℕ → Cmd (Vm W) Bool
  say_monitor t = do
    usleep 100000
    _ ← ask_world host.hear
    fit (fits resultlen (t ++ 10 ∷ []))
    on_world (host.say (t ++ 10 ∷ []))
    usleep 100000
    got ← ask_world host.hear
    modify λ s. record s { result = text (take (resultlen - 1) got) }
    xmlog t
    xmlog (text (take (resultlen - 1) got))
    pure true

  pub monitor : ℤ → List ℕ → Cmd (Vm W) Bool
  monitor id t = do
    connected ← ask_world (host.join (cldir ++ codes "/CL" ++ show_int id))
    if connected then say_monitor t else pure false

  -- A command to the agent, which runs it.
  pub exec : List ℕ → Cmd (Vm W) Bool
  exec t = do
    connected ← ask_world host.dial
    if connected then ask_world (host.tell t) else pure false

  -- The loop of `viewMode`: whether a line that `fgets` reads holds the text.
  view_loop : ℕ → List ℕ → Option (List ℕ) → List ℕ → Cmd (Vm W) Bool
  view_loop zero tmp buf rest = λ _. out_of_fuel
  view_loop (suc f) tmp buf rest =
      let (got, left, eof) = fgets 1023 rest in
      let now_buf : Option (List ℕ) = if length got == 0 then buf else some (text got) in
      do
        line ← need now_buf
        elim (is_some (strstr line tmp)) [
          | true ↦ pure true
          | false ↦ elim eof [ true ↦ pure false | false ↦ view_loop f tmp now_buf left ]
        ]

  -- The token file names the machine. The name is put into a buffer of ten bytes.
  pub view_mode : ℕ → ℤ → Cmd (Vm W) Bool
  view_mode f id = do
    let tmp = codes "VM" ++ show_int id ++ codes ":"
    fit (fits 10 tmp)
    s ← get
    content ← need (host.read_file vnctoken s.world)
    view_loop f tmp none content

  -- `getpid(arg)`: the number in the second word of the first process found, or 0
  pub getpid : List ℕ → Cmd (Vm W) ℤ
  getpid arg = do
    set_cmd (codes "ps -ef | grep \"" ++ arg ++ codes "\" | grep -v grep")
    getresult true
    s ← get
    if length s.result == 0 then pure (pos 0) else need (scan_int (word (skip_space s.result)).1).0

  pub killpid : ℤ → Cmd (Vm W) (Unit {0})
  killpid pid = do
    set_cmd (codes "kill -9 " ++ show_int pid ++ codes " > /dev/null 2>&1")
    s ← get
    system s.cmd
    xmlog s.cmd
