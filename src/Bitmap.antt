-- ===== src/Bitmap.antt =====
-- The bitmap of clusters in use: the macros BMAP_* of libexfat/exfatfs.h and
-- `find_bit_and_set` of libexfat/cluster.c. `bitmap_t` is the `size_t` of a 64-bit little-endian
-- system, so that a word has 64 bits; the array is the list of its words.
mod Tests
pub mod Laws
pub mod Find
pub mod Count
use nuclear_armageddon.Prelude.{
  ℕ, zero, suc, ◌+◌, ◌-◌, ◌*◌, ◌/◌, ◌%◌, ◌^◌, min, max, bit_and, bit_or, Bool, true, false, not,
  Option, none, some, List, ◌==◌, if◌then◌else◌, get_or, set, u32,
}

-- sizeof(bitmap_t) * 8
abbrev pub word_bits : ℕ
word_bits = 64

abbrev pub div_round_up : ℕ → ℕ → ℕ
div_round_up x d = (x + d - 1) / d

abbrev pub bmap_block : ℕ → ℕ
bmap_block index = index / word_bits

abbrev pub bmap_mask : ℕ → ℕ
bmap_mask index = 2 ^ (index % word_bits)

unfoldable pub bmap_get : List ℕ → ℕ → Bool
bmap_get bitmap index = not (bit_and (get_or bitmap (bmap_block index) 0) (bmap_mask index) == 0)

pub bmap_set : List ℕ → ℕ → List ℕ
bmap_set bitmap index =
    set bitmap (bmap_block index) (bit_or (get_or bitmap (bmap_block index) 0) (bmap_mask index))

-- `~mask` in a word.
pub bmap_clr : List ℕ → ℕ → List ℕ
bmap_clr bitmap index =
    set bitmap (bmap_block index)
      (bit_and (get_or bitmap (bmap_block index) 0) (2 ^ word_bits - 1 - bmap_mask index))

abbrev pub first_data_cluster : ℕ
first_data_cluster = 2

abbrev pub cluster_end : ℕ
cluster_end = 0xffffffff

-- The inner loop at bit `c`, with `left` rounds to go: the first bit that is clear.
pub find_clear : List ℕ → ℕ → ℕ → Option ℕ
find_clear bitmap zero c = none
find_clear bitmap (suc left) c =
    let rest = find_clear bitmap left (c + 1) in if bmap_get bitmap c then rest else some c

-- The outer loop at word `i`, with `left` rounds to go.
pub find_word : List ℕ → ℕ → ℕ → ℕ → ℕ → Option ℕ
find_word bitmap start end zero i = none
find_word bitmap start end (suc left) i =
    let rest = find_word bitmap start end left (i + 1) in
    let start_bitindex = max (i * word_bits) start in
    let end_bitindex = min ((i + 1) * word_bits) end in
    if get_or bitmap i 0 == 2 ^ word_bits - 1
    then rest
    else elim (find_clear bitmap (end_bitindex - start_bitindex) start_bitindex) [
      | none ↦ rest
      | some c ↦ some c
    ]

-- What is done with the bit found, and the return value: a cluster, or EXFAT_CLUSTER_END.
unfoldable pub take_bit : List ℕ → Option ℕ → ℕ × List ℕ
take_bit bitmap none = (cluster_end, bitmap)
take_bit bitmap (some c) = (u32 (c + first_data_cluster), bmap_set bitmap c)

pub find_bit_and_set : List ℕ → ℕ → ℕ → ℕ × List ℕ
find_bit_and_set bitmap start end =
    let start_index = start / word_bits in
    let end_index = div_round_up end word_bits in
    take_bit bitmap (find_word bitmap start end (end_index - start_index) start_index)

-- The loop of `exfat_count_free_clusters` at `i`, with `left` rounds to go.
pub count_free : List ℕ → ℕ → ℕ → ℕ
count_free bitmap zero i = 0
count_free bitmap (suc left) i =
    (if bmap_get bitmap i then 0 else 1) + count_free bitmap left (i + 1)
