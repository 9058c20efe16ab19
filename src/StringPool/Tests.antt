-- ===== src/StringPool/Tests.antt =====
-- The theorems of include/stringpool.h on a pool with one text, and a hash that is the length.
use charly_vm.Common.{ℕ, ◌+◌, ◌≤◌, ◌≡◌, refl, arith, none, some, List, [], ◌∷◌, length}
use charly_vm.StringPool.{StringOffsetInfo, Pool, find_hash, text_at, encode_string}
use charly_vm.StringPool.Texts.{encode_string-text}

abbrev length_hash : List ℕ → ℕ
length_hash str = length str

abbrev one_text : Pool
one_text = record {
  buffer = record { data_bytes = 97 ∷ []; capacity = 64 };
  offset_map = (1, record { offset = 0; length = 1 }) ∷ [];
}

new_hash : find_hash 2 one_text.offset_map ≡ none
unfolding find_hash
new_hash = refl

encode_string-text_example :
    (info : StringOffsetInfo) × (pool' : Pool) × (encode_string length_hash (98 ∷ 99 ∷ []) one_text
      ≡ some (info, pool'))
    × (text_at pool' info ≡ 98 ∷ 99 ∷ [])
    × (encode_string length_hash (98 ∷ 99 ∷ []) pool' ≡ some (info, pool'))
    × ((old : StringOffsetInfo)
        → old.offset + old.length ≤ 1
        → text_at pool' old ≡ text_at one_text old)
encode_string-text_example =
    encode_string-text length_hash (98 ∷ 99 ∷ []) one_text (omega arith) (omega arith) new_hash
