-- ===== src/Scheduler/Reachable.antt =====
-- What holds of the tables of the run loop in src/vm/vm.cpp whatever the program does.
use mathlib.Core.Path.{subst}
use charly_vm.Common.{ℕ, suc, ◌+◌, ◌*◌, ◌%◌, ◌^◌, ◌<◌, ◌≤◌, ◌≡◌, refl, sym, ap, arith}
use charly_vm.Common.{Bool, Option, none, some, List, [], ◌∷◌, drop}
use charly_vm.Machine.{Machine}
use charly_vm.Value.Word.{Value}
use charly_vm.Bytecode.Opcode.{Opcode, of_byte, instruction_length}
use charly_vm.Bytecode.MemoryBlock.{read_le}
use charly_vm.Scheduler.{
  VmTask, VmThread, Runtime, pop_task, get_next_thread_uid, get_next_timer_id, register_task,
  resume_thread, register_timer, register_ticker, clear_timer, clear_ticker, clear_task_queue, exit,
  enqueue_timers, expire_tickers, enqueue_tickers, suspend_thread, save_thread, restore_thread,
}
use charly_vm.Scheduler.Timers.{later, enqueue_timers-due}
use charly_vm.Scheduler.Tickers.{later-Ordered, insert_all-Ordered, expire_tickers-later}
use charly_vm.Scheduler.OrderedMap.{Ordered, insert-Ordered}
use charly_vm.Scheduler.Uids.{
  Below, timer_uid, ticker_uid, Below-weaken, insert-Below, clear_entry-Below, later-Below, count,
  count-Below, count-insert, count-clear_entry, count-later, count-insert_all, count-expire_tickers,
  clear_entry-Ordered, expire_tickers-Below, insert_all-Below,
}

-- What the operations of the runtime do to it, whichever of them the program or the loop calls.
-- The instructions of the program change the machine, the running thread and the halted flag by
-- themselves. No step counts the ids of timers past 2 ^ 64.
pub data Step (s : Runtime) : Runtime → Type 0 where
  registers : (task : VmTask) → Step s (register_task task s)
  pops : {task : VmTask} {s' : Runtime} → pop_task s ≡ some (task, s') → Step s s'
  counts_thread : Step s (get_next_thread_uid s).1
  interprets :
      (machine : Machine) (uid : ℕ) (halted : Bool)
      → Step s (record s { machine = machine; uid = uid; halted = halted })
  resumes : (uid : ℕ) (argument : Value) → Step s (resume_thread uid argument s)
  adds_timer :
      (ts : ℕ) (task : VmTask) → s.next_timer_id + 1 < 2 ^ 64 → Step s (register_timer ts task s).1
  adds_ticker :
      (now period : ℕ) (task : VmTask)
      → s.next_timer_id + 1 < 2 ^ 64
      → Step s (register_ticker now period task s).1
  clears_timer : (uid : ℕ) → Step s (clear_timer uid s)
  clears_ticker : (uid : ℕ) → Step s (clear_ticker uid s)
  clears_queue : Step s (clear_task_queue s)
  exits : (status : ℕ) → Step s (exit status s)
  expires_timers : (now : ℕ) → Step s (enqueue_timers now s)
  expires_tickers : (now : ℕ) → Step s (enqueue_tickers now s)
  suspends : {s' : Runtime} → suspend_thread s ≡ some s' → Step s s'
  restores :
      (id : ℕ) (argument : Value) (saved : VmThread) → Step s (restore_thread id argument saved s)

pub data Reaches (s : Runtime) : Runtime → Type 0 where
  here : Reaches s s
  then_step : {t u : Runtime} → Reaches s t → Step t u → Reaches s u

-- The tables are in order, and the ids that are in use were given out and are different.
pub record WellFormed (s : Runtime) : Type 0 where
  pub timers-Ordered : Ordered s.timers
  pub tickers-Ordered : Ordered s.tickers
  pub timers-Below : Below timer_uid s.next_timer_id s.timers
  pub tickers-Below : Below ticker_uid s.next_timer_id s.tickers
  pub once : (uid : ℕ) → count timer_uid uid s.timers + count ticker_uid uid s.tickers ≤ 1

-- The runtimes have the same timers, tickers and next id.
abbrev SameTables : Runtime → Runtime → Type 0
SameTables s t =
    (t.timers ≡ s.timers) × ((t.tickers ≡ s.tickers) × (t.next_timer_id ≡ s.next_timer_id))

pop_task-SameTables :
    (s s' : Runtime) (task : VmTask) → pop_task s ≡ some (task, s') → SameTables s s'
unfolding pop_task
pop_task-SameTables s s' task e = by_queue s.task_queue e
  where
    by_queue :
        (q : List VmTask)
        → (elim q as (λ x. Option (VmTask × Runtime)) [
          | [] ↦ none
          | front ∷ queue ↦ some (front, record s { task_queue = queue })
        ])
          ≡ some (task, s')
        → SameTables s s'
    by_queue [] e = cc
    by_queue (front ∷ queue) e =
        let q : s' ≡ record s { task_queue = queue } = cc in
        (ap (λ r. r.timers) q, (ap (λ r. r.tickers) q, ap (λ r. r.next_timer_id) q))

suspend_thread-SameTables : (s s' : Runtime) → suspend_thread s ≡ some s' → SameTables s s'
unfolding suspend_thread save_thread
suspend_thread-SameTables s s' e = by_address s.machine.ip e
  where
    by_opcode :
        (ip : ℕ) (o : Option Opcode)
        → elim o [ none ↦ none | some op ↦ some (save_thread (ip + instruction_length op) s) ]
          ≡ some s'
        → SameTables s s'
    by_opcode ip none e = cc
    by_opcode ip (some op) e =
        let q : s' ≡ save_thread (ip + instruction_length op) s = cc in
        (ap (λ r. r.timers) q, (ap (λ r. r.tickers) q, ap (λ r. r.next_timer_id) q))

    by_address :
        (o : Option ℕ)
        → elim o [
          | none ↦ none
          | some ip ↦ elim (of_byte (read_le 1 (drop ip s.machine.code))) [
            | none ↦ none
            | some op ↦ some (save_thread (ip + instruction_length op) s)
          ]
        ]
          ≡ some s'
        → SameTables s s'
    by_address none e = cc
    by_address (some ip) e = by_opcode ip (of_byte (read_le 1 (drop ip s.machine.code))) e

WellFormed-SameTables : (s t : Runtime) → SameTables s t → WellFormed s → WellFormed t
WellFormed-SameTables s t (a, (b, c)) w = record {
  timers-Ordered = subst Ordered (sym a) w.timers-Ordered;
  tickers-Ordered = subst Ordered (sym b) w.tickers-Ordered;
  timers-Below = rw (a, c) w.timers-Below;
  tickers-Below = rw (b, c) w.tickers-Below;
  once = λ uid. rw (a, b) (w.once uid);
}

module _ (s : Runtime) (w : WellFormed s) where
  -- The next id has no timer and no ticker.
  once_at :
      (uid : ℕ)
      → s.next_timer_id ≡ uid
      → count timer_uid uid s.timers + count ticker_uid uid s.tickers ≡ 0
  once_at uid e =
      let l : s.next_timer_id ≤ uid = omega (arith, e) in
      let a = count-Below timer_uid uid s.next_timer_id s.timers l w.timers-Below in
      let b = count-Below ticker_uid uid s.next_timer_id s.tickers l w.tickers-Below in
      omega (arith, a, b)

  timer_step :
      (ts : ℕ) (task : VmTask)
      → s.next_timer_id + 1 < 2 ^ 64
      → WellFormed (register_timer ts task s).1
  unfolding register_timer get_next_timer_id
  timer_step ts task l =
      let up : (s.next_timer_id + 1) % 2 ^ 64 ≡ suc s.next_timer_id = omega (arith, l) in
      let t = record task { uid = s.next_timer_id } in
      record {
        timers-Ordered = insert-Ordered ts t s.timers w.timers-Ordered;
        tickers-Ordered = w.tickers-Ordered;
        timers-Below = rw (up) (
            insert-Below timer_uid (suc s.next_timer_id) ts t s.timers (omega arith) (
              Below-weaken timer_uid s.next_timer_id (suc s.next_timer_id) s.timers (omega arith)
                w.timers-Below));
        tickers-Below = rw (up) (
            Below-weaken ticker_uid s.next_timer_id (suc s.next_timer_id) s.tickers (omega arith)
              w.tickers-Below);
        once = λ uid.
            let new = count-insert timer_uid uid ts t s.timers in
            ground (arith, new, once_at uid, w.once uid);
      }

  ticker_step :
      (now period : ℕ) (task : VmTask)
      → s.next_timer_id + 1 < 2 ^ 64
      → WellFormed (register_ticker now period task s).1
  unfolding register_ticker get_next_timer_id
  ticker_step now period task l =
      let up : (s.next_timer_id + 1) % 2 ^ 64 ≡ suc s.next_timer_id = omega (arith, l) in
      let t = record task { uid = s.next_timer_id } in
      record {
        timers-Ordered = w.timers-Ordered;
        tickers-Ordered =
            insert-Ordered (now + period * 10 ^ 6) (t, period) s.tickers w.tickers-Ordered;
        timers-Below = rw (up) (
            Below-weaken timer_uid s.next_timer_id (suc s.next_timer_id) s.timers (omega arith)
              w.timers-Below);
        tickers-Below = rw (up) (
            insert-Below ticker_uid (suc s.next_timer_id) (now + period * 10 ^ 6) (t, period)
              s.tickers (omega arith)
              (Below-weaken ticker_uid s.next_timer_id (suc s.next_timer_id) s.tickers (omega arith)
                w.tickers-Below));
        once = λ uid.
            let new = count-insert ticker_uid uid (now + period * 10 ^ 6) (t, period) s.tickers in
            ground (arith, new, once_at uid, w.once uid);
      }

  expired_timers : (now : ℕ) → WellFormed (enqueue_timers now s)
  unfolding enqueue_timers
  expired_timers now =
      let e = (enqueue_timers-due now s w.timers-Ordered).1 in
      record {
        timers-Ordered = subst Ordered (sym e) (later-Ordered now s.timers w.timers-Ordered);
        tickers-Ordered = w.tickers-Ordered;
        timers-Below =
            subst (Below timer_uid s.next_timer_id) (sym e)
              (later-Below timer_uid s.next_timer_id now s.timers w.timers-Below);
        tickers-Below = w.tickers-Below;
        once = λ uid.
            let kept : count timer_uid uid (enqueue_timers now s).timers
                ≤ count timer_uid uid s.timers =
              rw (e) (count-later timer_uid uid now s.timers) in
            omega (arith, kept, w.once uid);
      }

  expired_tickers : (now : ℕ) → WellFormed (enqueue_tickers now s)
  unfolding enqueue_tickers
  expired_tickers now =
      let n = s.next_timer_id in
      let r = expire_tickers now s.tickers s.task_queue [] in
      let e : r.1.0 ≡ later now s.tickers =
        expire_tickers-later now s.tickers s.task_queue [] w.tickers-Ordered in
      record {
        timers-Ordered = w.timers-Ordered;
        tickers-Ordered =
            insert_all-Ordered r.1.1 r.1.0
              (subst Ordered (sym e) (later-Ordered now s.tickers w.tickers-Ordered));
        timers-Below = w.timers-Below;
        tickers-Below =
            insert_all-Below n r.1.1 r.1.0
              (expire_tickers-Below n now s.tickers s.task_queue [] w.tickers-Below tt)
              (subst (Below ticker_uid n) (sym e)
                (later-Below ticker_uid n now s.tickers w.tickers-Below));
        once = λ uid.
            let moved = count-expire_tickers uid now s.tickers s.task_queue [] in
            let joined = count-insert_all uid r.1.1 r.1.0 in
            omega (arith, moved, joined, w.once uid);
      }

  step-WellFormed : {t : Runtime} → Step s t → WellFormed t
  unfolding register_task resume_thread clear_timer clear_ticker clear_task_queue exit
      restore_thread get_next_thread_uid
  step-WellFormed (registers task) = WellFormed-SameTables s _ (refl, (refl, refl)) w
  step-WellFormed (pops {task} e) = WellFormed-SameTables s _ (pop_task-SameTables s _ task e) w
  step-WellFormed counts_thread = WellFormed-SameTables s _ (refl, (refl, refl)) w
  step-WellFormed (interprets machine uid halted) = WellFormed-SameTables s _ (refl, (refl, refl)) w
  step-WellFormed (resumes uid argument) = WellFormed-SameTables s _ (refl, (refl, refl)) w
  step-WellFormed (adds_timer ts task l) = timer_step ts task l
  step-WellFormed (adds_ticker now period task l) = ticker_step now period task l
  step-WellFormed (clears_timer uid) = record {
    timers-Ordered = clear_entry-Ordered timer_uid uid s.timers w.timers-Ordered;
    tickers-Ordered = w.tickers-Ordered;
    timers-Below = clear_entry-Below timer_uid s.next_timer_id uid s.timers w.timers-Below;
    tickers-Below = w.tickers-Below;
    once = λ id. omega (arith, count-clear_entry timer_uid id uid s.timers, w.once id);
  }
  step-WellFormed (clears_ticker uid) = record {
    timers-Ordered = w.timers-Ordered;
    tickers-Ordered = clear_entry-Ordered ticker_uid uid s.tickers w.tickers-Ordered;
    timers-Below = w.timers-Below;
    tickers-Below = clear_entry-Below ticker_uid s.next_timer_id uid s.tickers w.tickers-Below;
    once = λ id. omega (arith, count-clear_entry ticker_uid id uid s.tickers, w.once id);
  }
  step-WellFormed clears_queue = WellFormed-SameTables s _ (refl, (refl, refl)) w
  step-WellFormed (exits status) = record {
    timers-Ordered = tt;
    tickers-Ordered = w.tickers-Ordered;
    timers-Below = tt;
    tickers-Below = w.tickers-Below;
    once = λ id. omega (arith, w.once id);
  }
  step-WellFormed (expires_timers now) = expired_timers now
  step-WellFormed (expires_tickers now) = expired_tickers now
  step-WellFormed (suspends e) = WellFormed-SameTables s _ (suspend_thread-SameTables s _ e) w
  step-WellFormed (restores id argument saved) = WellFormed-SameTables s _ (refl, (refl, refl)) w

-- From a runtime whose timers and tickers are in order and have different ids that were given
-- out, every sequence of steps, which register, pop, resume, suspend, restore, expire, clear or
-- exit, count a thread, or change the machine, the running thread and the halted flag, leads to
-- one of the same kind, as long as the ids of timers do not wrap around.
pub Reaches-WellFormed : (s t : Runtime) → WellFormed s → Reaches s t → WellFormed t
Reaches-WellFormed s _ w here = w
Reaches-WellFormed s _ w (then_step {t} r k) = step-WellFormed t (Reaches-WellFormed s t w r) k
