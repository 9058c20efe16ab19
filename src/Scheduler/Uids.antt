-- ===== src/Scheduler/Uids.antt =====
-- The ids of timers and tickers in src/vm/vm.cpp, and what the operations on the tables keep.
use charly_vm.Common.{ℕ, ◌+◌, ◌*◌, ◌^◌, ◌<◌, ◌≤◌, ◌≡◌, refl, inl, inr, arith, ◌==◌, if◌then◌else◌}
use charly_vm.Common.{leb, Bool-cases, List, [], ◌∷◌, ◌++◌}
use charly_vm.Scheduler.{VmTask, Tickers, clear_entry, expire_tickers, insert_all}
use charly_vm.Scheduler.Timers.{later, Unused}
use charly_vm.Scheduler.OrderedMap.{insert, Above, Ordered, Above-Ordered, Above-weaken}

-- Every uid is below `n`.
abbrev pub Below {ℓ} : {A : Type ℓ} → (A → ℕ) → ℕ → List (ℕ × A) → Type 0
Below uid_of n [] = Unit
Below uid_of n ((ts, a) ∷ entries) = (uid_of a < n) × Below uid_of n entries

module _ {ℓ} {A : Type ℓ} (uid_of : A → ℕ) where
  pub Below-weaken :
      (m n : ℕ) (entries : List (ℕ × A)) → m ≤ n → Below uid_of m entries → Below uid_of n entries
  Below-weaken m n [] l b = tt
  Below-weaken m n ((ts, a) ∷ entries) l b = (omega (arith, l, b.0), Below-weaken m n entries l b.1)

  pub insert-Below :
      (n ts : ℕ) (a : A) (entries : List (ℕ × A))
      → uid_of a < n
      → Below uid_of n entries
      → Below uid_of n (insert ts a entries)
  unfolding insert
  insert-Below n ts a [] l b = (l, tt)
  insert-Below n ts a ((k, c) ∷ entries) l b = ground (arith, l, b, insert-Below n ts a entries)

  pub clear_entry-Below :
      (n uid : ℕ) (entries : List (ℕ × A))
      → Below uid_of n entries
      → Below uid_of n (clear_entry uid_of uid entries)
  unfolding clear_entry
  clear_entry-Below n uid [] b = tt
  clear_entry-Below n uid ((k, c) ∷ entries) b = ground (arith, b, clear_entry-Below n uid entries)

  pub later-Below :
      (n now : ℕ) (entries : List (ℕ × A))
      → Below uid_of n entries
      → Below uid_of n (later now entries)
  later-Below n now [] b = tt
  later-Below n now ((k, c) ∷ entries) b = ground (arith, b, later-Below n now entries)

  clear_entry-Above :
      (j uid : ℕ) (entries : List (ℕ × A))
      → Above j entries
      → Above j (clear_entry uid_of uid entries)
  unfolding clear_entry
  clear_entry-Above j uid [] o = tt
  clear_entry-Above j uid ((k, c) ∷ entries) o =
      ground (arith, o, clear_entry-Above k uid entries, Above-weaken j k entries)

  pub clear_entry-Ordered :
      (uid : ℕ) (entries : List (ℕ × A))
      → Ordered entries
      → Ordered (clear_entry uid_of uid entries)
  unfolding clear_entry
  clear_entry-Ordered uid [] o = tt
  clear_entry-Ordered uid ((k, c) ∷ entries) o =
      ground (arith, o, clear_entry-Above k uid entries, Above-Ordered k entries)

  pub Below-Unused :
      (n : ℕ) (entries : List (ℕ × A)) → Below uid_of n entries → Unused uid_of n entries
  Below-Unused n [] b = tt
  Below-Unused n ((ts, a) ∷ entries) b = (omega (arith, b.0), Below-Unused n entries b.1)

-- How many entries have the uid.
abbrev pub count {ℓ} : {A : Type ℓ} → (A → ℕ) → ℕ → List (ℕ × A) → ℕ
count uid_of uid [] = 0
count uid_of uid ((ts, a) ∷ entries) = (if uid_of a == uid then 1 else 0) + count uid_of uid entries

module _ {ℓ} {A : Type ℓ} (uid_of : A → ℕ) (uid : ℕ) where
  pub count-Below :
      (n : ℕ) (entries : List (ℕ × A))
      → n ≤ uid
      → Below uid_of n entries
      → count uid_of uid entries ≡ 0
  count-Below n [] l b = refl
  count-Below n ((ts, a) ∷ entries) l b = ground (arith, l, b, count-Below n entries l b.1)

  pub count-insert :
      (ts : ℕ) (a : A) (entries : List (ℕ × A))
      → count uid_of uid (insert ts a entries)
        ≤ (if uid_of a == uid then 1 else 0) + count uid_of uid entries
  unfolding insert
  count-insert ts a [] = omega arith
  count-insert ts a ((k, c) ∷ entries) = ground (arith, count-insert ts a entries)

  pub count-clear_entry :
      (id : ℕ) (entries : List (ℕ × A))
      → count uid_of uid (clear_entry uid_of id entries) ≤ count uid_of uid entries
  unfolding clear_entry
  count-clear_entry id [] = omega arith
  count-clear_entry id ((k, c) ∷ entries) = ground (arith, count-clear_entry id entries)

  pub count-later :
      (now : ℕ) (entries : List (ℕ × A))
      → count uid_of uid (later now entries) ≤ count uid_of uid entries
  count-later now [] = omega arith
  count-later now ((k, c) ∷ entries) = ground (arith, count-later now entries)

abbrev pub timer_uid : VmTask → ℕ
timer_uid task = task.uid

abbrev pub ticker_uid : VmTask × ℕ → ℕ
ticker_uid entry = entry.0.uid

pub expire_tickers-Below :
    (n now : ℕ) (tickers : Tickers) (queue : List VmTask) (new : Tickers)
    → Below ticker_uid n tickers
    → Below ticker_uid n new
    → Below ticker_uid n (expire_tickers now tickers queue new).1.1
unfolding expire_tickers
expire_tickers-Below n now [] queue new b c = c
expire_tickers-Below n now ((ts, (t, p)) ∷ tickers) queue new b c = elim (Bool-cases (leb ts now)) [
  | inl h ↦
      rw (h, expire_tickers)
        (expire_tickers-Below n now tickers (queue ++ t ∷ []) (insert (now + p * 10 ^ 6) (t, p) new)
          b.1 (insert-Below ticker_uid n (now + p * 10 ^ 6) (t, p) new b.0 c))
  | inr h ↦ rw (h, expire_tickers) c
]

pub insert_all-Below :
    (n : ℕ) (new entries : Tickers)
    → Below ticker_uid n new
    → Below ticker_uid n entries
    → Below ticker_uid n (insert_all new entries)
unfolding insert_all
insert_all-Below n [] entries b c = c
insert_all-Below n ((ts, a) ∷ new) entries b c =
    insert_all-Below n new (insert ts a entries) b.1 (insert-Below ticker_uid n ts a entries b.0 c)

pub count-insert_all :
    (uid : ℕ) (new entries : Tickers)
    → count ticker_uid uid (insert_all new entries)
      ≤ count ticker_uid uid new + count ticker_uid uid entries
unfolding insert_all
count-insert_all uid [] entries = omega arith
count-insert_all uid ((ts, a) ∷ new) entries =
    let rest = count-insert_all uid new (insert ts a entries) in
    let here = count-insert ticker_uid uid ts a entries in omega (arith, rest, here)

pub count-expire_tickers :
    (uid now : ℕ) (tickers : Tickers) (queue : List VmTask) (new : Tickers)
    → count ticker_uid uid (expire_tickers now tickers queue new).1.1
        + count ticker_uid uid (expire_tickers now tickers queue new).1.0
      ≤ count ticker_uid uid tickers + count ticker_uid uid new
unfolding expire_tickers
count-expire_tickers uid now [] queue new = omega arith
count-expire_tickers uid now ((ts, (t, p)) ∷ tickers) queue new = elim (Bool-cases (leb ts now)) [
  | inl h ↦
      let k = now + p * 10 ^ 6 in
      let rest = count-expire_tickers uid now tickers (queue ++ t ∷ []) (insert k (t, p) new) in
      let here = count-insert ticker_uid uid k (t, p) new in
      rw (h, expire_tickers) (omega (arith, rest, here))
  | inr h ↦ rw (h, expire_tickers) (omega arith)
]
