-- ===== src/Scheduler.antt =====
-- The run loop of src/vm/vm.cpp and include/vm.h: tasks, timers, tickers and suspended threads.
-- A time is its number of nanoseconds. The mutex and the condition variable that guard the queue
-- are not modelled, since every operation here holds the lock for its whole change of the queue.
pub mod OrderedMap
pub mod Timers
pub mod Tickers
pub mod Uids
pub mod Reachable
pub mod Threads
pub mod Turns
pub mod Wait
mod Tests
use charly_vm.Common.{ℕ, zero, suc, ◌+◌, ◌-◌, ◌*◌, ◌/◌, ◌%◌, ◌^◌, Bool, true, false, ◌==◌, leb}
use charly_vm.Common.{if◌then◌else◌, Option, none, some, List, [], ◌∷◌, ◌++◌, drop}
use Prim.Native.Nat.{min}
use charly_vm.Value.Word.{Value}
use charly_vm.Bytecode.Opcode.{of_byte, instruction_length}
use charly_vm.Bytecode.MemoryBlock.{read_le}
use charly_vm.Machine.{Function, Machine, Outcome, Status, push_stack, pop_stack}
use charly_vm.Machine.Call.{call_function}
use charly_vm.Scheduler.OrderedMap.{insert, erase, lookup}

-- The union of VMTask
pub data Work : Type 0 where
  thread : ℕ → Value → Work
  callback : Option Function → List Value → Work

pub record VmTask : Type 0 where
  pub uid : ℕ
  pub work : Work

-- VMThread, which its map stores under its uid.
pub record VmThread : Type 0 where
  pub stack : List Value
  pub frame : Option ℕ
  pub catchstack : Option ℕ
  pub resume_address : Option ℕ

-- The part of VM that the run loop uses.
pub record Runtime : Type 0 where
  pub machine : Machine
  pub uid : ℕ
  pub halted : Bool
  pub running : Bool
  pub status_code : ℕ
  pub next_thread_id : ℕ
  pub next_timer_id : ℕ
  pub task_queue : List VmTask
  pub timers : List (ℕ × VmTask)
  pub tickers : List (ℕ × (VmTask × ℕ))
  pub paused_threads : List (ℕ × VmThread)

-- VMTask::init_thread
unfoldable pub init_thread : ℕ → Value → VmTask
init_thread id argument = record { uid = 0; work = Work.thread id argument }

-- VM::get_next_thread_uid, with the runtime behind it
unfoldable pub get_next_thread_uid : Runtime → ℕ × Runtime
get_next_thread_uid s =
    (s.next_thread_id, record s { next_thread_id = (s.next_thread_id + 1) % 2 ^ 64 })

-- VM::get_next_timer_id
unfoldable pub get_next_timer_id : Runtime → ℕ × Runtime
get_next_timer_id s = (s.next_timer_id, record s { next_timer_id = (s.next_timer_id + 1) % 2 ^ 64 })

-- VM::register_task
unfoldable pub register_task : VmTask → Runtime → Runtime
register_task task s = record s { task_queue = s.task_queue ++ task ∷ [] }

-- VM::pop_task
unfoldable pub pop_task : Runtime → Option (VmTask × Runtime)
pop_task s = elim s.task_queue [
  | [] ↦ none
  | front ∷ queue ↦ some (front, record s { task_queue = queue })
]

-- VM::clear_task_queue
unfoldable pub clear_task_queue : Runtime → Runtime
clear_task_queue s = record s { task_queue = [] }

-- VM::resume_thread
unfoldable pub resume_thread : ℕ → Value → Runtime → Runtime
resume_thread uid argument s = register_task (init_thread uid argument) s

-- VM::register_timer, with its result
unfoldable pub register_timer : ℕ → VmTask → Runtime → ℕ × Runtime
register_timer ts task s =
    let id = (get_next_timer_id s).0 in
    let s' = (get_next_timer_id s).1 in
    (id, record s' { timers = insert ts (record task { uid = id }) s'.timers })

-- VM::register_ticker at the time `now`, with its result
unfoldable pub register_ticker : ℕ → ℕ → VmTask → Runtime → ℕ × Runtime
register_ticker now period task s =
    let id = (get_next_timer_id s).0 in
    let s' = (get_next_timer_id s).1 in
    (
      id,
      record s' {
        tickers = insert (now + period * 10 ^ 6) (record task { uid = id }, period) s'.tickers;
      },
    )

-- The loop of clear_timer and clear_ticker: the key of the first entry with the uid is erased.
unfoldable pub clear_entry {ℓ} : {A : Type ℓ} → (A → ℕ) → ℕ → List (ℕ × A) → List (ℕ × A)
clear_entry uid_of uid [] = []
clear_entry uid_of uid ((ts, a) ∷ entries) =
    if uid_of a == uid then entries else (ts, a) ∷ clear_entry uid_of uid entries

-- VM::clear_timer
unfoldable pub clear_timer : ℕ → Runtime → Runtime
clear_timer uid s = record s { timers = clear_entry (λ task. task.uid) uid s.timers }

-- VM::clear_ticker
unfoldable pub clear_ticker : ℕ → Runtime → Runtime
clear_ticker uid s = record s { tickers = clear_entry (λ entry. entry.0.uid) uid s.tickers }

-- VM::exit, whose status code is an uint8_t
unfoldable pub exit : ℕ → Runtime → Runtime
exit status_code s = record (clear_task_queue (record s { timers = [] })) {
  halted = true;
  running = false;
  status_code = status_code % 2 ^ 8;
}

-- The first loop of start_runtime: the expired timers, from the earliest on, become tasks.
unfoldable pub expire_timers : ℕ → List (ℕ × VmTask) → List VmTask → List VmTask × List (ℕ × VmTask)
expire_timers now [] queue = (queue, [])
expire_timers now ((ts, task) ∷ timers) queue =
    let rest = expire_timers now timers (queue ++ task ∷ []) in
    if leb ts now then rest else (queue, (ts, task) ∷ timers)

unfoldable pub enqueue_timers : ℕ → Runtime → Runtime
enqueue_timers now s =
    let r = expire_timers now s.timers s.task_queue in record s { task_queue = r.0; timers = r.1 }

abbrev pub Tickers : Type 0
Tickers = List (ℕ × (VmTask × ℕ))

-- The second loop: the queue, the tickers that are left, and newly_scheduled_tickers.
unfoldable pub expire_tickers :
    ℕ → Tickers → List VmTask → Tickers → List VmTask × (Tickers × Tickers)
expire_tickers now [] queue new = (queue, ([], new))
expire_tickers now ((ts, (task, period)) ∷ tickers) queue new =
    let rest =
      expire_tickers now tickers (queue ++ task ∷ [])
        (insert (now + period * 10 ^ 6) (task, period) new) in
    if leb ts now then rest else (queue, ((ts, (task, period)) ∷ tickers, new))

-- The insertion of a range of entries
unfoldable pub insert_all : Tickers → Tickers → Tickers
insert_all [] entries = entries
insert_all ((ts, a) ∷ new) entries = insert_all new (insert ts a entries)

unfoldable pub enqueue_tickers : ℕ → Runtime → Runtime
enqueue_tickers now s =
    let r = expire_tickers now s.tickers s.task_queue [] in
    record s { task_queue = r.0; tickers = insert_all r.1.1 r.1.0 }

abbrev pub first_key {ℓ} : {A : Type ℓ} → List (ℕ × A) → Option ℕ
first_key [] = none
first_key ((ts, a) ∷ entries) = some ts

-- The milliseconds until an entry is due; 0 for a time that has passed, for which the source
-- waits a negative time, that is not at all.
abbrev pub wait_until : ℕ → Option ℕ → ℕ
wait_until now none = 10 * 1000
wait_until now (some ts) = (ts - now) / 10 ^ 6

-- The longest wait for a task, in milliseconds
unfoldable pub wait_time : ℕ → Runtime → ℕ
wait_time now s = min (wait_until now (first_key s.timers)) (wait_until now (first_key s.tickers))

-- What suspend_thread stores and leaves; the stack is moved away whether or not the map has the
-- key.
unfoldable pub save_thread : ℕ → Runtime → Runtime
save_thread resume_address s = record s {
  halted = true;
  machine = record s.machine { stack = [] };
  paused_threads =
      insert s.uid
        (record {
          stack = s.machine.stack;
          frame = s.machine.frames;
          catchstack = s.machine.catchstack;
          resume_address = some resume_address;
        })
        s.paused_threads;
}

-- VM::suspend_thread; `none` is an address that holds no instruction.
unfoldable pub suspend_thread : Runtime → Option Runtime
suspend_thread s = elim s.machine.ip [
  | none ↦ none
  | some ip ↦ elim (of_byte (read_le 1 (drop ip s.machine.code))) [
    | none ↦ none
    | some op ↦ some (save_thread (ip + instruction_length op) s)
  ]
]

-- What a suspended thread gets back when it is resumed with an argument.
unfoldable pub restore_thread : ℕ → Value → VmThread → Runtime → Runtime
restore_thread id argument saved s = record s {
  uid = id;
  paused_threads = erase id s.paused_threads;
  machine = push_stack argument (record s.machine {
    stack = saved.stack;
    frames = saved.frame;
    catchstack = saved.catchstack;
    ip = saved.resume_address;
  });
}

-- How a task or a turn of the loop ends: the runtime goes on, it ends, the machine panics, or what
-- it does is undefined. `raised` also stands for a throw inside `throw_exception` itself.
pub data Turn : Type 0 where
  again : Runtime → Turn
  finished : Runtime → Turn
  panicked : Status → Turn
  raised : Turn

abbrev pub outcome_turn : Outcome → (Machine → Turn) → Turn
outcome_turn (Outcome.ok m) k = k m
outcome_turn (Outcome.panic status) k = Turn.panicked status
outcome_turn (Outcome.thrown m) k = Turn.raised
outcome_turn (Outcome.uncaught v m) k = Turn.raised
outcome_turn Outcome.undefined k = Turn.raised

-- After the call of a callback that has too few arguments, VM::throw_exception has unwound the
-- machine, and the loop goes on.
abbrev pub after_throw : (Machine → Outcome) → Outcome → Outcome
after_throw throw_exception (Outcome.thrown m) = throw_exception m
after_throw throw_exception outcome = outcome

-- `run` is VM::run, `throw_exception` what that method does to the machine, `array` the word of the arguments array of a call, `get_self` the self that
-- Function::get_self gives a callback, `exception` the stale thread exception of a thread.
module _ (run : Runtime → Runtime) (throw_exception : Machine → Outcome) (array : Value)
    (get_self : Function → Value) (exception : ℕ → Value) where
  -- The task that was taken from the queue
  unfoldable pub execute : VmTask → Runtime → Turn
  execute task s = elim task.work [
    | thread id argument ↦ elim (lookup id s.paused_threads) [
      | none ↦ Turn.panicked Status.invalid_thread_id
      | some saved ↦ Turn.again (run (restore_thread id argument saved s))
    ]
    | callback func arguments ↦ elim func [
      | none ↦ Turn.panicked Status.runtime_task_not_callable
      | some f ↦
          outcome_turn
            (after_throw throw_exception (
              call_function array f arguments (get_self f)
                (record s.machine { ip = none; frames = none; catchstack = none })))
            (λ m.
              let next = get_next_thread_uid (record s { machine = m }) in
              let done = run (record next.1 { uid = next.0 }) in
              outcome_turn (pop_stack done.machine (λ v n. Outcome.ok n))
                (λ n. Turn.again (record done { machine = n })))
    ]
  ]

  -- Every suspended thread is resumed, with its exception.
  unfoldable pub resume_all : List (ℕ × VmThread) → Runtime → Runtime
  resume_all [] s = s
  resume_all ((id, saved) ∷ threads) s = resume_all threads (resume_thread id (exception id) s)

  -- The end of the body of the loop
  unfoldable pub check_exit : Runtime → Turn
  check_exit s = elim s.task_queue [
    | t ∷ ts ↦ Turn.again s
    | [] ↦ elim s.timers [
      | t ∷ ts ↦ Turn.again s
      | [] ↦ elim s.tickers [
        | t ∷ ts ↦ Turn.again s
        | [] ↦ elim s.paused_threads [
          | [] ↦ Turn.finished s
          | t ∷ ts ↦ Turn.again (resume_all s.paused_threads s)
        ]
      ]
    ]
  ]

  -- The body of the loop, at the time `now`. Without a task it waits, for at most wait_time.
  unfoldable pub turn : ℕ → Runtime → Turn
  turn now s =
      let due = enqueue_tickers now (enqueue_timers now s) in
      elim (pop_task due) [
        | none ↦ check_exit due
        | some r ↦ elim (execute r.0 r.1) [
          | again s' ↦ check_exit s'
          | finished s' ↦ Turn.finished s'
          | panicked status ↦ Turn.panicked status
          | raised ↦ Turn.raised
        ]
      ]

  -- VM::start_runtime for at most `fuel` turns, of which the k-th begins at the time `clock k`.
  unfoldable pub start_runtime : ℕ → (ℕ → ℕ) → Runtime → Turn
  start_runtime zero clock s = Turn.again s
  start_runtime (suc fuel) clock s = elim s.running [
    | false ↦ Turn.finished s
    | true ↦ elim (turn (clock 0) s) [
      | again s' ↦ start_runtime fuel (λ k. clock (suc k)) s'
      | finished s' ↦ Turn.finished s'
      | panicked status ↦ Turn.panicked status
      | raised ↦ Turn.raised
    ]
  ]
