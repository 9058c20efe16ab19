-- ===== src/Scheduler/Wait.antt =====
-- How long the run loop of src/vm/vm.cpp waits for a task.
use charly_vm.Common.{
  ℕ, ◌+◌, ◌*◌, ◌^◌, ◌≤◌, ◌≡◌, ◌⊎◌, inl, inr, refl, arith, Option, some, List, [], ◌∷◌,
}
use charly_vm.Scheduler.{VmTask, Runtime, first_key, wait_until, wait_time}
use charly_vm.Scheduler.OrderedMap.{lookup, Above, Ordered}

Above-lookup {ℓ} :
    {A : Type ℓ} (j k : ℕ) (a : A) (entries : List (ℕ × A))
    → Above j entries
    → lookup k entries ≡ some a
    → j ≤ k
unfolding lookup
Above-lookup j k a [] o h = cc
Above-lookup j k a ((i, b) ∷ entries) o h = ground (arith, o, h, Above-lookup i k a entries)

lookup-first {ℓ} :
    {A : Type ℓ} (k : ℕ) (a : A) (entries : List (ℕ × A))
    → Ordered entries
    → lookup k entries ≡ some a
    → (j : ℕ) × ((first_key entries ≡ some j) × (j ≤ k))
unfolding lookup
lookup-first k a [] o h = cc
lookup-first k a ((j, b) ∷ entries) o h =
    (j, (refl, ground (arith, o, h, Above-lookup j k a entries)))

wait_until-first :
    (now ts : ℕ) (first : Option ℕ)
    → now ≤ ts
    → (j : ℕ) × ((first ≡ some j) × (j ≤ ts))
    → now + wait_until now first * 10 ^ 6 ≤ ts
wait_until-first now ts first l (j, (e, b)) = rw (e) (omega (arith, l, b))

-- With timers and tickers in order, a wait that begins before a timer or ticker is due is over
-- at the time when it is due.
pub wait_time-due :
    (now ts : ℕ) (timer : VmTask) (ticker : VmTask × ℕ) (s : Runtime)
    → Ordered s.timers
    → Ordered s.tickers
    → (lookup ts s.timers ≡ some timer) ⊎ (lookup ts s.tickers ≡ some ticker)
    → now ≤ ts
    → now + wait_time now s * 10 ^ 6 ≤ ts
unfolding wait_time
wait_time-due now ts timer ticker s o p (inl h) l =
    omega
      (arith, wait_until-first now ts (first_key s.timers) l (lookup-first ts timer s.timers o h))
wait_time-due now ts timer ticker s o p (inr h) l =
    omega (
      arith,
      wait_until-first now ts (first_key s.tickers) l (lookup-first ts ticker s.tickers p h),
    )
