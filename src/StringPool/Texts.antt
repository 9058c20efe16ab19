-- ===== src/StringPool/Texts.antt =====
-- What the string pool of include/stringpool.h gives back.
use charly_vm.Common.{ℕ, zero, suc, ◌+◌, ◌%◌, ◌^◌, ◌≤◌, ◌<◌, ◌≡◌, refl, sym, ap, arith, ≡→==}
use charly_vm.Common.{none, some, List, [], ◌∷◌, ◌++◌, length, take, drop}
use charly_vm.Bytecode.MemoryBlock.Growth.{write_block_total}
use charly_vm.StringPool.{StringOffsetInfo, Pool, find_hash, text_at, encode_string}

-- What stands behind the bytes of a text does not change it.
text-kept :
    (n k : ℕ) (xs ys : List ℕ) → k + n ≤ length xs → take n (drop k (xs ++ ys)) ≡ take n (drop k xs)
text-kept zero k xs ys h = refl
text-kept (suc n) k [] ys h = absurd (omega (arith, h))
text-kept (suc n) zero (x ∷ xs) ys h = ap (λ r. x ∷ r) (text-kept n 0 xs ys (omega (arith, h)))
text-kept (suc n) (suc k) (x ∷ xs) ys h = text-kept (suc n) k xs ys (omega (arith, h))

take-length : (xs : List ℕ) → take (length xs) xs ≡ xs
take-length [] = refl
take-length (x ∷ xs) = ap (λ r. x ∷ r) (take-length xs)

drop-append : (xs ys : List ℕ) → drop (length xs) (xs ++ ys) ≡ ys
drop-append [] ys = refl
drop-append (x ∷ xs) ys = drop-append xs ys

module _ (hash : List ℕ → ℕ) where
  -- A text whose hash is found is not stored again.
  encode_string-found :
      (str : List ℕ) (pool : Pool) (info : StringOffsetInfo)
      → find_hash (hash str) pool.offset_map ≡ some info
      → encode_string hash str pool ≡ some (info, pool)
  unfolding encode_string
  encode_string-found str pool info e = rw (e, encode_string) refl

  find_hash-first :
      (h k : ℕ) (info : StringOffsetInfo) (entries : List (ℕ × StringOffsetInfo))
      → h ≡ k
      → find_hash h ((k, info) ∷ entries) ≡ some info
  unfolding find_hash
  find_hash-first h k info entries e = rw (≡→== k h (sym e), find_hash) refl

  abbrev stored : List ℕ → Pool → ℕ → Pool
  stored str pool c = record {
    buffer = record { data_bytes = pool.buffer.data_bytes ++ str; capacity = c };
    offset_map =
        (hash str, record { offset = length pool.buffer.data_bytes; length = length str })
        ∷ pool.offset_map;
  }

  abbrev placed : List ℕ → Pool → StringOffsetInfo
  placed str pool = record { offset = length pool.buffer.data_bytes; length = length str }

  -- A text whose hash is not found is stored behind the others.
  encode_string-new :
      (str : List ℕ) (pool : Pool)
      → 1 ≤ pool.buffer.capacity
      → length pool.buffer.data_bytes + length str < 2 ^ 32
      → find_hash (hash str) pool.offset_map ≡ none
      → (c : ℕ) × (encode_string hash str pool ≡ some (placed str pool, stored str pool c))
        × (text_at (stored str pool c) (placed str pool) ≡ str)
  unfolding encode_string text_at
  encode_string-new str pool c s n =
      let w = write_block_total str pool.buffer c in
      let low : length pool.buffer.data_bytes % 2 ^ 32 ≡ length pool.buffer.data_bytes =
        omega (arith, s) in
      let short : length str % 2 ^ 32 ≡ length str = omega (arith, s) in
      (
        w.0,
        rw (n, w.1, low, short, encode_string) refl,
        rw (drop-append pool.buffer.data_bytes str) (take-length str),
      )

  -- A text whose hash is new, in a pool whose buffer has some capacity and stays below 2^32
  -- bytes, is read back from the place that it is given, gets the same place when it is encoded
  -- again, without a change of the pool, and no text that stood in the buffer changes.
  pub encode_string-text :
      (str : List ℕ) (pool : Pool)
      → 1 ≤ pool.buffer.capacity
      → length pool.buffer.data_bytes + length str < 2 ^ 32
      → find_hash (hash str) pool.offset_map ≡ none
      → (info : StringOffsetInfo) × (pool' : Pool) × (encode_string hash str pool
          ≡ some (info, pool'))
        × (text_at pool' info ≡ str)
        × (encode_string hash str pool' ≡ some (info, pool'))
        × ((old : StringOffsetInfo)
            → old.offset + old.length ≤ length pool.buffer.data_bytes
            → text_at pool' old ≡ text_at pool old)
  unfolding text_at
  encode_string-text str pool c s n =
      let (k, e, t) = encode_string-new str pool c s n in
      let p = stored str pool k in
      let info = placed str pool in
      (
        info,
        p,
        e,
        t,
        encode_string-found str p info
            (find_hash-first (hash str) (hash str) info pool.offset_map refl),
        λ old b. text-kept old.length old.offset pool.buffer.data_bytes str b,
      )

  -- Of two texts with the same hash the one that comes second is given the place of the first.
  pub encode_string-collision :
      (str other : List ℕ) (pool : Pool)
      → 1 ≤ pool.buffer.capacity
      → length pool.buffer.data_bytes + length other < 2 ^ 32
      → find_hash (hash other) pool.offset_map ≡ none
      → hash str ≡ hash other
      → (info : StringOffsetInfo) × (pool' : Pool) × (encode_string hash other pool
          ≡ some (info, pool'))
        × (encode_string hash str pool' ≡ some (info, pool'))
        × (text_at pool' info ≡ other)
  encode_string-collision str other pool c s n e =
      let (k, stores, text) = encode_string-new other pool c s n in
      let info = placed other pool in
      (
        info,
        stored other pool k,
        stores,
        encode_string-found str (stored other pool k) info
            (find_hash-first (hash str) (hash other) info pool.offset_map e),
        text,
      )
