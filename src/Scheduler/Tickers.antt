-- ===== src/Scheduler/Tickers.antt =====
-- How the tickers of src/vm/vm.cpp are scheduled again.
use mathlib.Core.Path.{subst}
use charly_vm.Common.{ℕ, ◌+◌, ◌*◌, ◌^◌, ◌<◌, ◌≤◌, ◌≡◌, inl, inr, refl, sym, ap, ◌∙◌, arith}
use charly_vm.Common.{true, ◌==◌, leb, Bool-cases, ==→≡, ==→≢, none, some, List, [], ◌∷◌, ◌++◌}
use charly_vm.Scheduler.{VmTask, Runtime, Tickers, expire_tickers, insert_all, enqueue_tickers}
use charly_vm.Scheduler.Timers.{later, later-Above}
use charly_vm.Scheduler.OrderedMap.{
  insert, lookup, Above, Ordered, Above-Ordered, Above-weaken, insert-Ordered, lookup-insert,
  lookup-insert_kept, lookup-insert_other,
}

pub expire_tickers-later :
    (now : ℕ) (tickers : Tickers) (queue : List VmTask) (new : Tickers)
    → Ordered tickers
    → (expire_tickers now tickers queue new).1.0 ≡ later now tickers
unfolding expire_tickers
expire_tickers-later now [] queue new o = refl
expire_tickers-later now ((ts, (t, p)) ∷ tickers) queue new o = elim (Bool-cases (leb ts now)) [
  | inl h ↦
      rw (h, expire_tickers)
        (expire_tickers-later now tickers (queue ++ t ∷ []) (insert (now + p * 10 ^ 6) (t, p) new)
          (Above-Ordered ts tickers o))
  | inr h ↦
      let l : now < ts = ground (arith, h) in
      rw (h, later-Above now ts tickers l o, expire_tickers) refl
]

pub expire_tickers-Ordered :
    (now : ℕ) (tickers : Tickers) (queue : List VmTask) (new : Tickers)
    → Ordered new
    → Ordered (expire_tickers now tickers queue new).1.1
unfolding expire_tickers
expire_tickers-Ordered now [] queue new o = o
expire_tickers-Ordered now ((ts, (t, p)) ∷ tickers) queue new o = elim (Bool-cases (leb ts now)) [
  | inl h ↦
      rw (h, expire_tickers)
        (expire_tickers-Ordered now tickers (queue ++ t ∷ []) (insert (now + p * 10 ^ 6) (t, p) new)
          (insert-Ordered _ (t, p) new o))
  | inr h ↦ rw (h, expire_tickers) o
]

expire_tickers-kept :
    (now k : ℕ) (a : VmTask × ℕ) (tickers : Tickers) (queue : List VmTask) (new : Tickers)
    → Ordered new
    → lookup k new ≡ some a
    → lookup k (expire_tickers now tickers queue new).1.1 ≡ some a
unfolding expire_tickers
expire_tickers-kept now k a [] queue new o h = h
expire_tickers-kept now k a ((ts, (t, p)) ∷ tickers) queue new o h =
    elim (Bool-cases (leb ts now)) [
      | inl l ↦
          rw (l, expire_tickers)
            (expire_tickers-kept now k a tickers (queue ++ t ∷ [])
              (insert (now + p * 10 ^ 6) (t, p) new) (insert-Ordered _ (t, p) new o)
              (lookup-insert_kept _ k (t, p) a new o h))
      | inr l ↦ rw (l, expire_tickers) h
    ]

insert_all-kept :
    (k : ℕ) (a : VmTask × ℕ) (new entries : Tickers)
    → Ordered entries
    → lookup k entries ≡ some a
    → lookup k (insert_all new entries) ≡ some a
unfolding insert_all
insert_all-kept k a [] entries o h = h
insert_all-kept k a ((ts, b) ∷ new) entries o h =
    insert_all-kept k a new (insert ts b entries) (insert-Ordered ts b entries o)
      (lookup-insert_kept ts k b a entries o h)

insert_all-lookup :
    (k : ℕ) (a : VmTask × ℕ) (new entries : Tickers)
    → Ordered entries
    → lookup k new ≡ some a
    → lookup k entries ≡ none
    → lookup k (insert_all new entries) ≡ some a
unfolding insert_all lookup
insert_all-lookup k a [] entries o h n = cc
insert_all-lookup k a ((ts, b) ∷ new) entries o h n = elim (Bool-cases (k == ts)) [
  | inl e ↦
      let q : k ≡ ts = ==→≡ k ts e in
      insert_all-kept k a new (insert ts b entries) (insert-Ordered ts b entries o) (
        ap (λ x. lookup x (insert ts b entries)) q
        ∙ lookup-insert ts b entries (ap (λ x. lookup x entries) (sym q) ∙ n)
        ∙ (rw (e) at h))
  | inr e ↦
      insert_all-lookup k a new (insert ts b entries) (insert-Ordered ts b entries o) (rw (e) at h)
        (lookup-insert_other ts k b entries (==→≢ k ts e) ∙ n)
]

pub insert_all-Ordered :
    (new entries : Tickers) → Ordered entries → Ordered (insert_all new entries)
unfolding insert_all
insert_all-Ordered [] entries o = o
insert_all-Ordered ((ts, b) ∷ new) entries o =
    insert_all-Ordered new (insert ts b entries) (insert-Ordered ts b entries o)

later-keeps {ℓ} :
    {A : Type ℓ} (now j : ℕ) (entries : List (ℕ × A))
    → Above j entries
    → Above j (later now entries)
later-keeps now j [] o = tt
later-keeps now j ((k, a) ∷ entries) o =
    ground
      (arith, o, later-keeps now k entries, later-keeps now j entries, Above-weaken j k entries)

pub later-Ordered {ℓ} :
    {A : Type ℓ} (now : ℕ) (entries : List (ℕ × A)) → Ordered entries → Ordered (later now entries)
later-Ordered now [] o = tt
later-Ordered now ((k, a) ∷ entries) o =
    ground (arith, later-keeps now k entries o, Above-Ordered k (later now entries))

first_scheduled :
    (now a period : ℕ) (t : VmTask) (rest : Tickers) (queue : List VmTask)
    → a ≤ now
    → lookup (now + period * 10 ^ 6) (expire_tickers now ((a, (t, period)) ∷ rest) queue []).1.1
      ≡ some (t, period)
unfolding expire_tickers lookup
first_scheduled now a period t rest queue l =
    let h : leb a now ≡ true = ground (arith, l) in
    let k = now + period * 10 ^ 6 in
    rw (h, expire_tickers)
      (expire_tickers-kept now k (t, period) rest (queue ++ t ∷ []) (insert k (t, period) [])
        (insert-Ordered k (t, period) [] tt) (lookup-insert k (t, period) [] refl))

-- With the tickers in order, the first one, if it is due, is scheduled again after its period,
-- if no ticker that is not due stands at that time.
pub enqueue_tickers-first :
    (now a period : ℕ) (t : VmTask) (rest : Tickers) (s : Runtime)
    → Ordered s.tickers
    → s.tickers ≡ (a, (t, period)) ∷ rest
    → a ≤ now
    → lookup (now + period * 10 ^ 6) (later now rest) ≡ none
    → lookup (now + period * 10 ^ 6) (enqueue_tickers now s).tickers ≡ some (t, period)
unfolding enqueue_tickers
enqueue_tickers-first now a period t rest s o e l n =
    let k = now + period * 10 ^ 6 in
    let due = expire_tickers now s.tickers s.task_queue [] in
    let left : due.1.0 ≡ later now s.tickers =
      expire_tickers-later now s.tickers s.task_queue [] o in
    let h : leb a now ≡ true = ground (arith, l) in
    let new : lookup k due.1.1 ≡ some (t, period) =
      rw (e) (first_scheduled now a period t rest s.task_queue l) in
    let free : lookup k due.1.0 ≡ none = rw (left, e, h) n in
    insert_all-lookup k (t, period) due.1.1 due.1.0
      (subst Ordered (sym left) (later-Ordered now s.tickers o)) new free
