-- ===== src/Scheduler/Turns.antt =====
-- The turns of the run loop of src/vm/vm.cpp are sequences of the steps of the runtime.
use charly_vm.Common.{ℕ, zero, suc, ◌≡◌, refl}
use charly_vm.Common.{Bool, true, false, Option, none, some, List, [], ◌∷◌}
use charly_vm.Value.Word.{Value}
use charly_vm.Machine.{Function, Machine, Outcome, Status, pop_stack}
use charly_vm.Machine.Call.{call_function}
use charly_vm.Scheduler.{
  VmTask, Work, VmThread, Runtime, Turn, Tickers, outcome_turn, after_throw, get_next_thread_uid,
  resume_thread, restore_thread, pop_task, execute, resume_all, check_exit, turn, start_runtime,
  enqueue_timers, enqueue_tickers,
}
use charly_vm.Scheduler.OrderedMap.{lookup}
use charly_vm.Scheduler.Reachable.{
  Step, pops, counts_thread, interprets, resumes, expires_timers, expires_tickers, restores,
  Reaches, here, then_step, WellFormed, Reaches-WellFormed,
}

Reaches-trans : (s t u : Runtime) → Reaches s t → Reaches t u → Reaches s u
Reaches-trans s t _ r here = r
Reaches-trans s t u r (then_step {t = v} q k) = then_step (Reaches-trans s t v r q) k

-- What the loop leaves, if it does not end with an error, is reached by steps.
abbrev LeadsTo : Runtime → Turn → Type 0
LeadsTo s (Turn.again u) = Reaches s u
LeadsTo s (Turn.finished u) = Reaches s u
LeadsTo s (Turn.panicked status) = Unit
LeadsTo s Turn.raised = Unit

LeadsTo-trans : (s t : Runtime) (r : Turn) → Reaches s t → LeadsTo t r → LeadsTo s r
LeadsTo-trans s t (Turn.again u) a b = Reaches-trans s t u a b
LeadsTo-trans s t (Turn.finished u) a b = Reaches-trans s t u a b
LeadsTo-trans s t (Turn.panicked status) a b = tt
LeadsTo-trans s t Turn.raised a b = tt

-- The tables are in order, if the loop did not end with an error.
abbrev pub LeavesWellFormed : Turn → Type 0
LeavesWellFormed (Turn.again u) = WellFormed u
LeavesWellFormed (Turn.finished u) = WellFormed u
LeavesWellFormed (Turn.panicked status) = Unit
LeavesWellFormed Turn.raised = Unit

module _ (run : Runtime → Runtime) (throw_exception : Machine → Outcome) (array : Value)
    (get_self : Function → Value) (exception : ℕ → Value)
    (runs : (s : Runtime) → Reaches s (run s)) where
  run_behind : (s t : Runtime) → Step s t → Reaches s (run t)
  run_behind s t k = Reaches-trans s t (run t) (then_step here k) (runs t)

  thread-LeadsTo :
      (id : ℕ) (argument : Value) (s : Runtime) (o : Option VmThread)
      → LeadsTo s (elim o as (λ x. Turn) [
        | none ↦ Turn.panicked Status.invalid_thread_id
        | some saved ↦ Turn.again (run (restore_thread id argument saved s))
      ])
  thread-LeadsTo id argument s none = tt
  thread-LeadsTo id argument s (some saved) =
      run_behind s (restore_thread id argument saved s) (restores id argument saved)

  -- The runtime in the body of a callback
  abbrev called : Machine → Runtime → Runtime
  called m s =
      let next = get_next_thread_uid (record s { machine = m }) in record next.1 { uid = next.0 }

  called-Reaches : (m : Machine) (s : Runtime) → Reaches s (run (called m s))
  unfolding get_next_thread_uid
  called-Reaches m s =
      let t = record s { machine = m } in
      let counted = (get_next_thread_uid t).1 in
      Reaches-trans s (called m s) (run (called m s))
        (then_step (then_step (then_step here (interprets m s.uid s.halted)) counts_thread)
          (interprets counted.machine (get_next_thread_uid t).0 counted.halted))
        (runs (called m s))

  outcome_turn-LeadsTo :
      (s : Runtime) (o : Outcome) (k : Machine → Turn)
      → ((m : Machine) → LeadsTo s (k m))
      → LeadsTo s (outcome_turn o k)
  outcome_turn-LeadsTo s (Outcome.ok m) k h = h m
  outcome_turn-LeadsTo s (Outcome.panic status) k h = tt
  outcome_turn-LeadsTo s (Outcome.thrown m) k h = tt
  outcome_turn-LeadsTo s (Outcome.uncaught v m) k h = tt
  outcome_turn-LeadsTo s Outcome.undefined k h = tt

  execute-LeadsTo :
      (task : VmTask) (s : Runtime)
      → LeadsTo s (execute run throw_exception array get_self exception task s)
  unfolding execute
  execute-LeadsTo task s = by_work task.work
    where
      by_call :
          (o : Outcome)
          → LeadsTo s (
              outcome_turn o (λ m.
                let done = run (called m s) in
                outcome_turn
                  (pop_stack done.machine (λ v n. Outcome.ok n))
                  (λ n. Turn.again (record done { machine = n }))))
      by_call o = outcome_turn-LeadsTo s o _ (λ m.
          let done = run (called m s) in
          outcome_turn-LeadsTo s (pop_stack done.machine (λ v n. Outcome.ok n)) _
            (λ n. then_step (called-Reaches m s) (interprets n done.uid done.halted)))

      by_work :
          (w : Work)
          → LeadsTo s
              (execute run throw_exception array get_self exception (record task { work = w }) s)
      by_work (Work.thread id argument) = thread-LeadsTo id argument s (lookup id s.paused_threads)
      by_work (Work.callback none arguments) = tt
      by_work (Work.callback (some f) arguments) = by_call (
          after_throw throw_exception (
            call_function array f arguments (get_self f)
              (record s.machine { ip = none; frames = none; catchstack = none })))

  resume_all-Reaches :
      (threads : List (ℕ × VmThread)) (s : Runtime)
      → Reaches s (resume_all run throw_exception array get_self exception threads s)
  unfolding resume_all
  resume_all-Reaches [] s = here
  resume_all-Reaches ((id, saved) ∷ threads) s =
      Reaches-trans s (resume_thread id (exception id) s) _
        (then_step here (resumes id (exception id)))
        (resume_all-Reaches threads (resume_thread id (exception id) s))

  check_exit-LeadsTo :
      (s : Runtime) → LeadsTo s (check_exit run throw_exception array get_self exception s)
  unfolding check_exit
  check_exit-LeadsTo s = go s.task_queue s.timers s.tickers s.paused_threads
    where
      go :
          (q : List VmTask) (t : List (ℕ × VmTask)) (k : Tickers) (p : List (ℕ × VmThread))
          → (let r = record s { task_queue = q; timers = t; tickers = k; paused_threads = p } in
              LeadsTo r (check_exit run throw_exception array get_self exception r))
      go [] [] [] [] = here
      go [] [] [] (x ∷ p) = resume_all-Reaches (x ∷ p) _
      go [] [] (x ∷ k) p = here
      go [] (x ∷ t) k p = here
      go (x ∷ q) t k p = here

  -- What a turn of the loop does with the task that it popped
  turn-LeadsTo :
      (now : ℕ) (s : Runtime) → LeadsTo s (turn run throw_exception array get_self exception now s)
  unfolding turn
  turn-LeadsTo now s = by_task (pop_task due) refl
    where
      due : Runtime
      due = enqueue_tickers now (enqueue_timers now s)

      expired : Reaches s due
      expired = then_step (then_step here (expires_timers now)) (expires_tickers now)

      by_end :
          (t : Turn)
          → LeadsTo s t
          → LeadsTo s (elim t as (λ x. Turn) [
            | Turn.again s' ↦ check_exit run throw_exception array get_self exception s'
            | Turn.finished s' ↦ Turn.finished s'
            | Turn.panicked status ↦ Turn.panicked status
            | Turn.raised ↦ Turn.raised
          ])
      by_end (Turn.again u) r = LeadsTo-trans s u _ r (check_exit-LeadsTo u)
      by_end (Turn.finished u) r = r
      by_end (Turn.panicked status) r = tt
      by_end Turn.raised r = tt

      by_task :
          (o : Option (VmTask × Runtime))
          → pop_task due ≡ o
          → LeadsTo s (elim o as (λ x. Turn) [
            | none ↦ check_exit run throw_exception array get_self exception due
            | some r ↦
                elim (execute run throw_exception array get_self exception r.0 r.1) as (λ x. Turn) [
                  | Turn.again s' ↦ check_exit run throw_exception array get_self exception s'
                  | Turn.finished s' ↦ Turn.finished s'
                  | Turn.panicked status ↦ Turn.panicked status
                  | Turn.raised ↦ Turn.raised
                ]
          ])
      by_task none e = LeadsTo-trans s due _ expired (check_exit-LeadsTo due)
      by_task (some r) e =
          by_end (execute run throw_exception array get_self exception r.0 r.1)
            (LeadsTo-trans s r.1 _ (then_step expired (pops e)) (execute-LeadsTo r.0 r.1))

  start_runtime-LeadsTo :
      (fuel : ℕ) (clock : ℕ → ℕ) (s : Runtime)
      → LeadsTo s (start_runtime run throw_exception array get_self exception fuel clock s)
  unfolding start_runtime
  start_runtime-LeadsTo zero clock s = here
  start_runtime-LeadsTo (suc fuel) clock s =
      by_running s.running (start_runtime-LeadsTo fuel (λ k. clock (suc k)))
    where
      by_turn :
          ((u : Runtime)
            → LeadsTo u (
                start_runtime run throw_exception array get_self exception fuel
                  (λ k. clock (suc k))
                  u))
          → (t : Turn) → LeadsTo s t
          → LeadsTo s (elim t as (λ x. Turn) [
            | Turn.again s' ↦
                start_runtime run throw_exception array get_self exception fuel
                  (λ k. clock (suc k))
                  s'
            | Turn.finished s' ↦ Turn.finished s'
            | Turn.panicked status ↦ Turn.panicked status
            | Turn.raised ↦ Turn.raised
          ])
      by_turn ih (Turn.again u) r = LeadsTo-trans s u _ r (ih u)
      by_turn ih (Turn.finished u) r = r
      by_turn ih (Turn.panicked status) r = tt
      by_turn ih Turn.raised r = tt

      by_running :
          (b : Bool)
          → ((u : Runtime)
              → LeadsTo u (
                  start_runtime run throw_exception array get_self exception fuel
                    (λ k. clock (suc k))
                    u))
          → LeadsTo s (elim b as (λ x. Turn) [
            | false ↦ Turn.finished s
            | true ↦
                elim (turn run throw_exception array get_self exception (clock 0) s)
                  as (λ x. Turn) [
                    | Turn.again s' ↦
                        start_runtime run throw_exception array get_self exception fuel
                          (λ k. clock (suc k))
                          s'
                    | Turn.finished s' ↦ Turn.finished s'
                    | Turn.panicked status ↦ Turn.panicked status
                    | Turn.raised ↦ Turn.raised
                  ]
          ])
      by_running false ih = here
      by_running true ih =
          by_turn ih (turn run throw_exception array get_self exception (clock 0) s)
            (turn-LeadsTo (clock 0) s)

  -- From a runtime whose timers and tickers are in order and have different ids that were given
  -- out, let any sequence of steps lead to another one: registering, popping, resuming,
  -- suspending, restoring, expiring, clearing, exiting, counting a thread, or changing the
  -- machine, the running thread and the halted flag, without a timer id that wraps around. If
  -- the interpreter does nothing but such steps, then the run loop leaves a runtime of the same
  -- kind after any number of turns from there, unless it ends with an error.
  pub start_runtime-WellFormed :
      (fuel : ℕ) (clock : ℕ → ℕ) (s t : Runtime)
      → WellFormed s
      → Reaches s t
      → LeavesWellFormed (start_runtime run throw_exception array get_self exception fuel clock t)
  start_runtime-WellFormed fuel clock s t w r =
      go (start_runtime run throw_exception array get_self exception fuel clock t)
        (LeadsTo-trans s t _ r (start_runtime-LeadsTo fuel clock t))
    where
      go : (x : Turn) → LeadsTo s x → LeavesWellFormed x
      go (Turn.again u) l = Reaches-WellFormed s u w l
      go (Turn.finished u) l = Reaches-WellFormed s u w l
      go (Turn.panicked status) l = tt
      go Turn.raised l = tt
