-- ===== src/Scheduler/Threads.antt =====
-- Suspended threads, the stale thread exception and the end of the run loop of src/vm/vm.cpp.
use mathlib.Core.List.{append_assoc, append-nil}
use charly_vm.Common.{ℕ, ◌+◌, drop, suc, ◌≡◌, ◌≢◌, ◌↔◌, refl, ap, ◌∙◌, arith}
use charly_vm.Common.{true, false, none, some, List, [], ◌∷◌, ◌++◌}
use charly_vm.Value.Word.{Value}
use charly_vm.Machine.{Function, Machine, Outcome}
use charly_vm.Bytecode.Opcode.{Opcode, of_byte, instruction_length}
use charly_vm.Bytecode.MemoryBlock.{read_le}
use charly_vm.Scheduler.{
  VmTask, VmThread, Runtime, Turn, Tickers, init_thread, resume_thread, register_task, save_thread,
  restore_thread, suspend_thread, pop_task, execute, resume_all, check_exit, turn, start_runtime,
  enqueue_timers, enqueue_tickers,
}
use charly_vm.Scheduler.OrderedMap.{lookup, erase, lookup-insert}

abbrev with_tables :
    Runtime → List VmTask → List (ℕ × VmTask) → Tickers → List (ℕ × VmThread) → Runtime
with_tables s q t k p = record s { task_queue = q; timers = t; tickers = k; paused_threads = p }

suspend_thread-saves :
    (s : Runtime) {address : ℕ} {op : Opcode}
    → s.machine.ip ≡ some address
    → of_byte (read_le 1 (drop address s.machine.code)) ≡ some op
    → suspend_thread s ≡ some (save_thread (address + instruction_length op) s)
unfolding suspend_thread
suspend_thread-saves s a b = ground (arith, a, b)

module _ (run : Runtime → Runtime) (throw_exception : Machine → Outcome) (array : Value)
    (get_self : Function → Value) (exception : ℕ → Value) where
  -- A thread that was suspended at an instruction, and whose id was not suspended before, is
  -- resumed by its task with an argument, whatever the runtime has done since, if the entry of
  -- the thread in the map is still the one that the suspension left: it runs under its id, with
  -- its stack and the argument on top, its frames and its catch tables, behind the instruction,
  -- and its entry is gone.
  pub execute-suspend_thread :
      (argument : Value) (s p o : Runtime) {address : ℕ} {op : Opcode}
      → lookup s.uid s.paused_threads ≡ none
      → s.machine.ip ≡ some address
      → of_byte (read_le 1 (drop address s.machine.code)) ≡ some op
      → suspend_thread s ≡ some p
      → lookup s.uid o.paused_threads ≡ lookup s.uid p.paused_threads
      → execute run throw_exception array get_self exception (init_thread s.uid argument) o
        ≡ Turn.again (
            run (record o {
              uid = s.uid;
              paused_threads = erase s.uid o.paused_threads;
              machine = record o.machine {
                stack = argument ∷ s.machine.stack;
                frames = s.machine.frames;
                catchstack = s.machine.catchstack;
                ip = some (address + instruction_length op);
              };
            }))
  unfolding execute init_thread save_thread restore_thread
  execute-suspend_thread argument s p o {address} {op} n a b e f =
      let saved : VmThread = record {
        stack = s.machine.stack;
        frame = s.machine.frames;
        catchstack = s.machine.catchstack;
        resume_address = some (address + instruction_length op);
      } in
      let suspended : suspend_thread s ≡ some (save_thread (address + instruction_length op) s) =
        suspend_thread-saves s a b in
      let same : p ≡ save_thread (address + instruction_length op) s = cc in
      let found : lookup s.uid o.paused_threads ≡ some saved =
        f
        ∙ ap (λ r. lookup s.uid r.paused_threads) same
        ∙ lookup-insert s.uid saved s.paused_threads n in
      rw (found, execute) refl

  -- The tasks that resume the threads
  abbrev pub resumptions : List (ℕ × VmThread) → List VmTask
  resumptions [] = []
  resumptions ((id, saved) ∷ threads) = init_thread id (exception id) ∷ resumptions threads

  resume_all-resumptions :
      (threads : List (ℕ × VmThread)) (s : Runtime)
      → resume_all run throw_exception array get_self exception threads s
        ≡ record s { task_queue = s.task_queue ++ resumptions threads }
  unfolding resume_all resume_thread register_task
  resume_all-resumptions [] s = rw (append-nil s.task_queue) refl
  resume_all-resumptions ((id, saved) ∷ threads) s =
      resume_all-resumptions threads (resume_thread id (exception id) s)
      ∙ ap (λ q. record s { task_queue = q })
          (append_assoc s.task_queue (init_thread id (exception id) ∷ []) (resumptions threads))

  pub check_exit-finished :
      (s : Runtime)
      → (check_exit run throw_exception array get_self exception s ≡ Turn.finished s)
        ↔ ((s.task_queue ≡ []) × ((s.timers ≡ []) × ((s.tickers ≡ []) × (s.paused_threads ≡ []))))
  unfolding check_exit
  check_exit-finished s = go s.task_queue s.timers s.tickers s.paused_threads
    where
      go :
          (q : List VmTask) (t : List (ℕ × VmTask)) (k : Tickers) (p : List (ℕ × VmThread))
          → (check_exit run throw_exception array get_self exception (with_tables s q t k p)
              ≡ Turn.finished (with_tables s q t k p))
            ↔ ((q ≡ []) × ((t ≡ []) × ((k ≡ []) × (p ≡ []))))
      go [] [] [] [] = (λ e. (refl, (refl, (refl, refl))), λ e. refl)
      go [] [] [] (x ∷ p) = (λ e. cc, λ e. cc (e.1.1.1))
      go [] [] (x ∷ k) p = (λ e. cc, λ e. cc (e.1.1.0))
      go [] (x ∷ t) k p = (λ e. cc, λ e. cc (e.1.0))
      go (x ∷ q) t k p = (λ e. cc, λ e. cc (e.0))

  -- When no task, timer or ticker is left, and some threads are suspended, the loop goes on with
  -- one task for each of them, which resumes it with its stale thread exception.
  pub check_exit-stale :
      (s : Runtime)
      → (s.task_queue ≡ []) × ((s.timers ≡ []) × (s.tickers ≡ []))
      → s.paused_threads ≢ []
      → check_exit run throw_exception array get_self exception s
        ≡ Turn.again (record s { task_queue = resumptions s.paused_threads })
  unfolding check_exit
  check_exit-stale s e n = go s.task_queue s.timers s.tickers s.paused_threads e n
    where
      go :
          (q : List VmTask) (t : List (ℕ × VmTask)) (k : Tickers) (p : List (ℕ × VmThread))
          → (q ≡ []) × ((t ≡ []) × (k ≡ []))
          → p ≢ []
          → check_exit run throw_exception array get_self exception (with_tables s q t k p)
            ≡ Turn.again (with_tables s (resumptions p) t k p)
      go [] [] [] [] e n = absurd (n refl)
      go [] [] [] (x ∷ p) e n =
          ap Turn.again (resume_all-resumptions (x ∷ p) (with_tables s [] [] [] (x ∷ p)))
      go [] [] (x ∷ k) p e n = cc (e.1.1)
      go [] (x ∷ t) k p e n = cc (e.1.0)
      go (x ∷ q) t k p e n = cc (e.0)

  -- How a turn may end without an error
  abbrev Ends : Turn → Runtime → Type 0
  Ends (Turn.again t) s = (t.running ≡ s.running) × (t.status_code ≡ s.status_code)
  Ends (Turn.finished t) s = t.status_code ≡ s.status_code
  Ends (Turn.panicked status) s = ⊥
  Ends Turn.raised s = ⊥

  check_exit-Ends :
      (s : Runtime) → Ends (check_exit run throw_exception array get_self exception s) s
  unfolding check_exit
  check_exit-Ends s = go s.task_queue s.timers s.tickers s.paused_threads
    where
      go :
          (q : List VmTask) (t : List (ℕ × VmTask)) (k : Tickers) (p : List (ℕ × VmThread))
          → Ends (check_exit run throw_exception array get_self exception (with_tables s q t k p)) s
      go [] [] [] [] = refl
      go [] [] [] (x ∷ p) =
          rw (resume_all-resumptions (x ∷ p) (with_tables s [] [] [] (x ∷ p))) (refl, refl)
      go [] [] (x ∷ k) p = (refl, refl)
      go [] (x ∷ t) k p = (refl, refl)
      go (x ∷ q) t k p = (refl, refl)

  -- If the task of a turn leaves the runtime not running, as `exit` does, and nothing panics,
  -- the loop ends after this turn, with the status code that was left.
  pub start_runtime-exit :
      (fuel : ℕ) (clock : ℕ → ℕ) (task : VmTask) (s r s' : Runtime)
      → s.running ≡ true
      → pop_task (enqueue_tickers (clock 0) (enqueue_timers (clock 0) s)) ≡ some (task, r)
      → execute run throw_exception array get_self exception task r ≡ Turn.again s'
      → s'.running ≡ false
      → (u : Runtime) × ((start_runtime run throw_exception array get_self exception
              (suc (suc fuel))
              clock
              s
            ≡ Turn.finished u)
          × (u.status_code ≡ s'.status_code))
  unfolding start_runtime turn
  start_runtime-exit fuel clock task s r s' a b c d =
      go (check_exit run throw_exception array get_self exception s') refl (check_exit-Ends s')
    where
      stops :
          (u : Runtime)
          → u.running ≡ false
          → start_runtime run throw_exception array get_self exception
              (suc fuel)
              (λ k. clock (suc k))
              u
            ≡ Turn.finished u
      stops u e = ground (arith, e)

      turns :
          (t : Turn)
          → check_exit run throw_exception array get_self exception s' ≡ t
          → turn run throw_exception array get_self exception (clock 0) s ≡ t
      turns t e = rw (b, c, turn) e

      go :
          (t : Turn)
          → check_exit run throw_exception array get_self exception s' ≡ t
          → Ends t s'
          → (u : Runtime) × ((start_runtime run throw_exception array get_self exception
                  (suc (suc fuel))
                  clock
                  s
                ≡ Turn.finished u)
              × (u.status_code ≡ s'.status_code))
      go (Turn.again u) e k =
          (u, (rw (a, turns (Turn.again u) e, start_runtime) (stops u (k.0 ∙ d)), k.1))
      go (Turn.finished u) e k = (u, (rw (a, turns (Turn.finished u) e, start_runtime) refl, k))
      go (Turn.panicked status) e k = elim k [ ]
      go Turn.raised e k = elim k [ ]
