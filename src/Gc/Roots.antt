-- ===== src/Gc/Roots.antt =====
-- The first part of GarbageCollector::collect: the values that the running machine holds on to, in
-- the order in which they are marked (include/vm.h names the fields).
use charly_vm.Common.{ℕ, Bool, if◌then◌else◌, List, [], ◌∷◌, ◌++◌}
use charly_vm.Value.Word.{Value}
use charly_vm.Gc.{pointer_values}

-- VMTask: a thread to resume with an argument, or a callback with four arguments.
pub data VmTask : Type 0 where
  thread : Value → VmTask
  callback : ℕ → Value → Value → Value → Value → VmTask

pub record VmThread : Type 0 where
  pub stack : List Value
  pub frame : ℕ
  pub catchstack : ℕ

pub record HostVm : Type 0 where
  pub running : Bool
  pub frames : ℕ
  pub catchstack : ℕ
  pub uncaught_exception_handler : ℕ
  pub internal_error_class : ℕ
  pub globals : ℕ
  -- primitive_array, boolean, class, function, null, number, object, string, value, frame
  pub primitives : List ℕ
  pub stack : List Value
  pub task_queue : List VmTask
  pub timers : List VmTask
  pub tickers : List VmTask
  pub paused_threads : List VmThread

unfoldable pub task_values : VmTask → List Value
task_values (thread a) = a ∷ []
task_values (callback f a b c d) = pointer_values f ++ (a ∷ b ∷ c ∷ d ∷ [])

abbrev pub flat_map {ℓ} : {A : Type ℓ} → (A → List Value) → List A → List Value
flat_map f [] = []
flat_map f (x ∷ xs) = f x ++ flat_map f xs

unfoldable pub thread_values : VmThread → List Value
thread_values t = t.stack ++ (pointer_values t.frame ++ pointer_values t.catchstack)

unfoldable pub roots : HostVm → List Value
roots vm =
    if vm.running
    then pointer_values vm.frames
      ++ (pointer_values vm.catchstack
          ++ (pointer_values vm.uncaught_exception_handler
              ++ (pointer_values vm.internal_error_class
                  ++ (pointer_values vm.globals
                      ++ (flat_map pointer_values vm.primitives
                          ++ (vm.stack
                              ++ (flat_map task_values vm.task_queue
                                  ++ (flat_map task_values vm.timers
                                      ++ (flat_map task_values vm.tickers
                                          ++ flat_map thread_values vm.paused_threads)))))))))
    else []
