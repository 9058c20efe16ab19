-- ===== src/Scheduler/Timers.antt =====
-- Timers and tickers of src/vm/vm.cpp: which of them become tasks, and which are lost.
use mathlib.Core.Path.{subst}
use mathlib.Core.List.{Memᴰ}
use mathlib.Core.List.Memᴰ.{append_right}
use mathlib.Core.List.{append_assoc, append-nil}
use charly_vm.Common.{ℕ, ◌+◌, ◌*◌, ◌^◌, ◌<◌, ◌≤◌, ◌≡◌, ◌≢◌, inl, inr, refl, sym, ap, ◌∙◌, arith}
use charly_vm.Common.{
  Bool, true, false, ◌==◌, ltb, leb, if◌then◌else◌, Bool-cases, none, some, List, [], ◌∷◌, ◌++◌,
}
use charly_vm.Scheduler.{
  VmTask, Runtime, get_next_timer_id, register_timer, clear_entry, clear_timer, expire_timers,
  enqueue_timers, expire_tickers, insert_all, enqueue_tickers, Tickers,
}
use charly_vm.Scheduler.OrderedMap.{
  insert, insert-empty, insert-twice, lookup, Above, Ordered, Above-Ordered, insert-taken,
  insert-Ordered,
}

-- The tasks of the entries that are due at `now`, and the other entries.
abbrev pub due : ℕ → List (ℕ × VmTask) → List VmTask
due now [] = []
due now ((ts, task) ∷ timers) = if leb ts now then task ∷ due now timers else due now timers

abbrev pub later {ℓ} : {A : Type ℓ} → ℕ → List (ℕ × A) → List (ℕ × A)
later now [] = []
later now ((ts, a) ∷ entries) =
    if leb ts now then later now entries else (ts, a) ∷ later now entries

due-Above :
    (now ts : ℕ) (timers : List (ℕ × VmTask)) → now < ts → Above ts timers → due now timers ≡ []
due-Above now ts [] l h = refl
due-Above now ts ((k, task) ∷ timers) l h = ground (arith, l, h, due-Above now k timers)

pub later-Above {ℓ} :
    {A : Type ℓ} (now ts : ℕ) (entries : List (ℕ × A))
    → now < ts
    → Above ts entries
    → later now entries ≡ entries
later-Above now ts [] l h = refl
later-Above now ts ((k, a) ∷ entries) l h = ground (arith, l, h, later-Above now k entries)

expire_timers-due :
    (now : ℕ) (timers : List (ℕ × VmTask)) (queue : List VmTask)
    → Ordered timers
    → expire_timers now timers queue ≡ (queue ++ due now timers, later now timers)
unfolding expire_timers
expire_timers-due now [] queue o = ap (λ q. (q, [])) (sym (append-nil queue))
expire_timers-due now ((ts, task) ∷ timers) queue o = elim (Bool-cases (leb ts now)) [
  | inl h ↦
      rw (h, expire_timers)
        (expire_timers-due now timers (queue ++ task ∷ []) (Above-Ordered ts timers o)
          ∙ ap (λ q. (q, later now timers)) (append_assoc queue (task ∷ []) (due now timers)))
  | inr h ↦
      let l : now < ts = ground (arith, h) in
      rw
        (
          h,
          due-Above now ts timers l o,
          later-Above now ts timers l o,
          append-nil queue,
          expire_timers,
        )
        refl
]

-- With the timers in order, the run loop appends the tasks of exactly the timers that are due to
-- the queue, from the earliest on, and keeps the others.
pub enqueue_timers-due :
    (now : ℕ) (s : Runtime)
    → Ordered s.timers
    → ((enqueue_timers now s).task_queue ≡ s.task_queue ++ due now s.timers)
      × ((enqueue_timers now s).timers ≡ later now s.timers)
unfolding enqueue_timers
enqueue_timers-due now s o =
    let e = expire_timers-due now s.timers s.task_queue o in (ap (λ r. r.0) e, ap (λ r. r.1) e)

-- With the timers in order, a timer that is registered for a time at which there is one already
-- is dropped.
pub register_timer-lost :
    (ts : ℕ) (task other : VmTask) (s : Runtime)
    → Ordered s.timers
    → lookup ts s.timers ≡ some other
    → (register_timer ts task s).1.timers ≡ s.timers
unfolding register_timer get_next_timer_id
register_timer-lost ts task other s o h = insert-taken ts _ other s.timers o h

-- No entry has the uid.
abbrev pub Unused {ℓ} : {A : Type ℓ} → (A → ℕ) → ℕ → List (ℕ × A) → Type 0
Unused uid_of uid [] = Unit
Unused uid_of uid ((ts, a) ∷ entries) = (uid_of a ≢ uid) × Unused uid_of uid entries

clear_entry-Unused {ℓ} :
    {A : Type ℓ} (uid_of : A → ℕ) (uid : ℕ) (entries : List (ℕ × A))
    → Unused uid_of uid entries
    → clear_entry uid_of uid entries ≡ entries
unfolding clear_entry
clear_entry-Unused uid_of uid [] u = refl
clear_entry-Unused uid_of uid ((ts, a) ∷ entries) u =
    ground (arith, u, clear_entry-Unused uid_of uid entries)

clear_entry-insert {ℓ} :
    {A : Type ℓ} (uid_of : A → ℕ) (ts : ℕ) (a : A) (entries : List (ℕ × A))
    → Unused uid_of (uid_of a) entries
    → clear_entry uid_of (uid_of a) (insert ts a entries) ≡ entries
unfolding clear_entry insert
clear_entry-insert uid_of ts a [] u = ground arith
clear_entry-insert uid_of ts a ((k, b) ∷ entries) u =
    ground (
      arith,
      u,
      clear_entry-insert uid_of ts a entries,
      clear_entry-Unused uid_of (uid_of a) entries,
    )

-- To clear a timer by the id that its registration gave leaves the timers as they were before,
-- if the next id was not in use.
pub clear_timer-register_timer :
    (ts : ℕ) (task : VmTask) (s : Runtime)
    → Unused (λ t. t.uid) s.next_timer_id s.timers
    → (clear_timer (register_timer ts task s).0 (register_timer ts task s).1).timers ≡ s.timers
unfolding clear_timer register_timer get_next_timer_id
clear_timer-register_timer ts task s u =
    clear_entry-insert (λ t. t.uid) ts (record task { uid = s.next_timer_id }) s.timers u

Mem-if :
    (b : Bool) (t x : VmTask) (xs : List VmTask) → Memᴰ t xs → Memᴰ t (if b then x ∷ xs else xs)
Mem-if true t x xs m = Memᴰ.tail m
Mem-if false t x xs m = m

due-first :
    (now ts : ℕ) (task : VmTask) (timers : List (ℕ × VmTask))
    → ts ≤ now
    → Memᴰ task (due now ((ts, task) ∷ timers))
due-first now ts task timers l =
    let h : leb ts now ≡ true = ground (arith, l) in rw (h) (Memᴰ.head refl)

due-insert :
    (now ts : ℕ) (task : VmTask) (timers : List (ℕ × VmTask))
    → ts ≤ now
    → lookup ts timers ≡ none
    → Memᴰ task (due now (insert ts task timers))
unfolding insert lookup
due-insert now ts task [] l h = due-first now ts task [] l
due-insert now ts task ((k, b) ∷ timers) l h = elim (Bool-cases (ltb ts k)) [
  | inl c ↦ rw (c, insert) (due-first now ts task ((k, b) ∷ timers) l)
  | inr c ↦
      let d : (ts == k) ≡ false = ground (arith, h) in
      let n : lookup ts timers ≡ none = rw (d) at h in
      rw (c, d, insert) (Mem-if (leb k now) task b _ (due-insert now ts task timers l n))
]

-- With the timers in order, and none at the same time, the task of a timer that is registered is
-- in the queue once the run loop looks at its time or later.
pub register_timer-fires :
    (now ts : ℕ) (task : VmTask) (s : Runtime)
    → Ordered s.timers
    → lookup ts s.timers ≡ none
    → ts ≤ now
    → Memᴰ
        (record task { uid = (register_timer ts task s).0 })
        (enqueue_timers now (register_timer ts task s).1).task_queue
unfolding register_timer get_next_timer_id
register_timer-fires now ts task s o h l =
    let t = record task { uid = s.next_timer_id } in
    let e = enqueue_timers-due now (register_timer ts task s).1 (insert-Ordered ts t s.timers o) in
    subst (Memᴰ t) (sym e.0) (append_right s.task_queue (due-insert now ts t s.timers l h))

expire_tickers-Above :
    (now : ℕ) (tickers : Tickers) (queue : List VmTask) (new : Tickers)
    → Above now tickers
    → expire_tickers now tickers queue new ≡ (queue, (tickers, new))
unfolding expire_tickers
expire_tickers-Above now [] queue new h = refl
expire_tickers-Above now ((ts, (t, p)) ∷ tickers) queue new h =
    let later : leb ts now ≡ false = ground (arith, h.0) in rw (later, expire_tickers) refl

-- Of two tickers with the same period that are due in the same turn, while those behind them are
-- not, both are run in the order of their times, and only the earlier one is scheduled again, at
-- now + period unless a ticker that is left has that time.
pub enqueue_tickers-two :
    (now a b period : ℕ) (t u : VmTask) (rest : Tickers) (s : Runtime)
    → s.tickers ≡ (a, (t, period)) ∷ (b, (u, period)) ∷ rest
    → b ≤ now
    → a < b
    → Above now rest
    → ((enqueue_tickers now s).task_queue ≡ s.task_queue ++ t ∷ u ∷ [])
      × ((enqueue_tickers now s).tickers ≡ insert (now + period * 10 ^ 6) (t, period) rest)
unfolding enqueue_tickers expire_tickers insert_all
enqueue_tickers-two now a b period t u rest s e l m o =
    let p : leb a now ≡ true = ground (arith, l, m) in
    let q : leb b now ≡ true = ground (arith, l) in
    let k = now + period * 10 ^ 6 in
    let queue = (s.task_queue ++ t ∷ []) ++ u ∷ [] in
    let twice : insert {A = VmTask × ℕ} k (u, period) ((k, (t, period)) ∷ [])
        ≡ (k, (t, period)) ∷ [] =
      insert-twice k (t, period) (u, period) in
    let first : insert {A = VmTask × ℕ} k (t, period) [] ≡ (k, (t, period)) ∷ [] =
      insert-empty k (t, period) in
    let r : expire_tickers now s.tickers s.task_queue [] ≡ (queue, (rest, (k, (t, period)) ∷ [])) =
      rw (e, p, q, first, twice, expire_tickers)
        (expire_tickers-Above now rest queue ((k, (t, period)) ∷ []) o) in
    rw (r, enqueue_tickers) (append_assoc s.task_queue (t ∷ []) (u ∷ []), refl)
