-- ===== src/Scheduler/Tests.antt =====
-- The theorems of the run loop in src/vm/vm.cpp on a runtime with two timers and two tickers.
use mathlib.Core.List.{Memᴰ}
use charly_vm.Common.{
  ℕ, ◌+◌, ◌*◌, ◌^◌, ◌≤◌, ◌≡◌, inl, refl, arith, true, false, none, some, [], ◌∷◌, ◌++◌,
}
use charly_vm.Value.Word.{Value}
use charly_vm.Machine.{Machine, Function, Outcome}
use charly_vm.Bytecode.Opcode.{Opcode, of_byte, byte_of, instruction_length}
use charly_vm.Bytecode.MemoryBlock.{read_le}
use charly_vm.Scheduler.{
  VmTask, Work, Runtime, Turn, init_thread, register_timer, clear_timer, enqueue_timers,
  enqueue_tickers, expire_timers, expire_tickers, insert_all, pop_task, save_thread, suspend_thread,
  restore_thread, execute, start_runtime, exit, clear_task_queue, wait_time,
}
use charly_vm.Scheduler.OrderedMap.{insert, lookup, erase, Ordered}
use charly_vm.Scheduler.Timers.{
  due, later, enqueue_timers-due, register_timer-fires, register_timer-lost,
  clear_timer-register_timer, enqueue_tickers-two,
}
use charly_vm.Scheduler.Tickers.{enqueue_tickers-first}
use charly_vm.Scheduler.Reachable.{WellFormed, Step, Reaches, here, then_step, adds_timer}
use charly_vm.Scheduler.Turns.{LeavesWellFormed, start_runtime-WellFormed}
use charly_vm.Scheduler.Threads.{execute-suspend_thread, start_runtime-exit}
use charly_vm.Scheduler.Wait.{wait_time-due}

abbrev task_of : ℕ → VmTask
task_of uid = record { uid = uid; work = Work.thread uid 1 }

abbrev machine : Machine
machine = record {
  stack = 7 ∷ [];
  frames = none;
  catchstack = none;
  ip = some 0;
  frame_store = [];
  table_store = [];
  arrays = [];
  code = 0 ∷ [];
}

abbrev two_timers : Runtime
two_timers = record {
  machine = machine;
  uid = 5;
  halted = false;
  running = true;
  status_code = 0;
  next_thread_id = 6;
  next_timer_id = 4;
  task_queue = [];
  timers = (10, task_of 0) ∷ (20, task_of 1) ∷ [];
  tickers = (11, (task_of 2, 3)) ∷ (12, (task_of 3, 3)) ∷ [];
  paused_threads = [];
}

two_Ordered : Ordered two_timers.timers
two_Ordered = (omega arith, tt)

tickers_Ordered : Ordered two_timers.tickers
tickers_Ordered = (omega arith, tt)

has_timer : lookup 20 two_timers.timers ≡ some (task_of 1)
unfolding lookup
has_timer = refl

lacks_timer : lookup 15 two_timers.timers ≡ none
unfolding lookup
lacks_timer = refl

enqueue_timers-due_example :
    ((enqueue_timers 10 two_timers).task_queue ≡ [] ++ due 10 two_timers.timers)
    × ((enqueue_timers 10 two_timers).timers ≡ later 10 two_timers.timers)
enqueue_timers-due_example = enqueue_timers-due 10 two_timers two_Ordered

register_timer-fires_example :
    Memᴰ
      (record (task_of 0) { uid = (register_timer 15 (task_of 0) two_timers).0 })
      (enqueue_timers 16 (register_timer 15 (task_of 0) two_timers).1).task_queue
register_timer-fires_example =
    register_timer-fires 16 15 (task_of 0) two_timers two_Ordered lacks_timer (omega arith)

register_timer-lost_example :
    (register_timer 20 (task_of 0) two_timers).1.timers ≡ two_timers.timers
register_timer-lost_example =
    register_timer-lost 20 (task_of 0) (task_of 1) two_timers two_Ordered has_timer

clear_timer-register_timer_example :
    (clear_timer
      (register_timer 15 (task_of 0) two_timers).0
      (register_timer 15 (task_of 0) two_timers).1).timers
    ≡ two_timers.timers
clear_timer-register_timer_example =
    clear_timer-register_timer 15 (task_of 0) two_timers (omega arith, (omega arith, tt))

abbrev three_tickers : Runtime
three_tickers = record two_timers {
  tickers = (11, (task_of 2, 3)) ∷ (12, (task_of 3, 3)) ∷ (50, (task_of 0, 1)) ∷ [];
}

enqueue_tickers-two_example :
    ((enqueue_tickers 30 three_tickers).task_queue ≡ [] ++ task_of 2 ∷ task_of 3 ∷ [])
    × ((enqueue_tickers 30 three_tickers).tickers
        ≡ insert (30 + 3 * 10 ^ 6) (task_of 2, 3) ((50, (task_of 0, 1)) ∷ []))
enqueue_tickers-two_example =
    enqueue_tickers-two 30 11 12 3 (task_of 2) (task_of 3) ((50, (task_of 0, 1)) ∷ []) three_tickers
      refl (omega arith) (omega arith) (omega arith, tt)

no_later : lookup {A = VmTask × ℕ} (30 + 3 * 10 ^ 6) (later 30 ((12, (task_of 3, 3)) ∷ [])) ≡ none
unfolding lookup
no_later = refl

enqueue_tickers-first_example :
    lookup (30 + 3 * 10 ^ 6) (enqueue_tickers 30 two_timers).tickers ≡ some (task_of 2, 3)
enqueue_tickers-first_example =
    enqueue_tickers-first 30 11 3 (task_of 2) ((12, (task_of 3, 3)) ∷ []) two_timers tickers_Ordered
      refl (omega arith) no_later

abbrev keep : Runtime → Runtime
keep s = s

abbrev no_self : Function → Value
no_self f = 0

abbrev stale : ℕ → Value
stale id = id

not_paused : lookup 5 two_timers.paused_threads ≡ none
unfolding lookup
not_paused = refl

-- What the suspension of the thread leaves
abbrev suspended : Runtime
suspended = save_thread 1 two_timers

nop_at_ip : of_byte (read_le 1 machine.code) ≡ some Opcode.nop
unfolding of_byte read_le
nop_at_ip = refl

suspends : suspend_thread two_timers ≡ some suspended
unfolding suspend_thread of_byte read_le instruction_length byte_of
suspends = refl

-- Another thread has run since.
abbrev later_on : Runtime
later_on = record suspended {
  uid = 6;
  next_thread_id = 7;
  machine = record machine { stack = 4 ∷ 3 ∷ []; frames = some 8; catchstack = some 2; ip = none };
}

execute-suspend_thread_example :
    execute keep Outcome.ok 0 no_self stale (init_thread 5 9) later_on
    ≡ Turn.again (
        keep (record later_on {
          uid = 5;
          paused_threads = erase 5 later_on.paused_threads;
          machine = record later_on.machine {
            stack = 9 ∷ 7 ∷ [];
            frames = none;
            catchstack = none;
            ip = some (0 + instruction_length Opcode.nop);
          };
        }))
execute-suspend_thread_example =
    execute-suspend_thread keep Outcome.ok 0 no_self stale 9 two_timers suspended later_on
      not_paused refl nop_at_ip suspends refl

abbrev one_paused : Runtime
one_paused = record two_timers {
  timers = [];
  tickers = [];
  paused_threads =
      (3, record { stack = []; frame = none; catchstack = none; resume_address = some 1 }) ∷ [];
}

-- A program that calls `exit`
abbrev exits : Runtime → Runtime
exits s = exit 3 s

abbrev ready : Runtime
ready = record one_paused { task_queue = init_thread 3 1 ∷ [] }

abbrev after : Runtime
after = exit 3 (
    restore_thread 3 1
      (record { stack = []; frame = none; catchstack = none; resume_address = some 1 })
      (record ready { task_queue = [] }))

pops :
    pop_task (enqueue_tickers 0 (enqueue_timers 0 ready))
    ≡ some (init_thread 3 1, record ready { task_queue = [] })
unfolding pop_task enqueue_tickers enqueue_timers expire_timers expire_tickers insert_all
pops = refl

executes :
    execute exits Outcome.ok 0 no_self stale (init_thread 3 1) (record ready { task_queue = [] })
    ≡ Turn.again after
unfolding execute init_thread lookup
executes = refl

stopped : after.running ≡ false
unfolding exit clear_task_queue
stopped = refl

start_runtime-exit_example :
    (u : Runtime) × ((start_runtime exits Outcome.ok 0 no_self stale 2 (λ k. k) ready
        ≡ Turn.finished u)
      × (u.status_code ≡ after.status_code))
start_runtime-exit_example =
    start_runtime-exit exits Outcome.ok 0 no_self stale 0 (λ k. k) (init_thread 3 1) ready
      (record ready { task_queue = [] }) after refl pops executes stopped

two_WellFormed : WellFormed two_timers
two_WellFormed = record {
  timers-Ordered = two_Ordered;
  tickers-Ordered = tickers_Ordered;
  timers-Below = (omega arith, (omega arith, tt));
  tickers-Below = (omega arith, (omega arith, tt));
  once = λ uid. ground arith;
}

-- The program exits in its first turn, behind a timer that was registered.
exits-Reaches : (s : Runtime) → Reaches s (exits s)
exits-Reaches s = then_step here (Step.exits 3)

start_runtime-WellFormed_example : LeavesWellFormed (
    start_runtime exits Outcome.ok 0 no_self stale 5
      (λ k. k)
      (register_timer 15 (task_of 9) two_timers).1)
start_runtime-WellFormed_example =
    start_runtime-WellFormed exits Outcome.ok 0 no_self stale exits-Reaches 5 (λ k. k) two_timers
      (register_timer 15 (task_of 9) two_timers).1 two_WellFormed
      (then_step here (adds_timer 15 (task_of 9) (omega arith)))

wait_time-due_example : 5 + wait_time 5 two_timers * 10 ^ 6 ≤ 20
wait_time-due_example =
    wait_time-due 5 20 (task_of 1) (task_of 0, 0) two_timers two_Ordered tickers_Ordered
      (inl has_timer) (omega arith)
