-- ===== src/Mkfs/Setup.antt =====
-- The parameters of a new volume, in mkfs/main.c. The time is an argument, and so is the device's
-- size.
use nuclear_armageddon.Prelude.{
  ℕ, zero, suc, ◌+◌, ◌-◌, ◌*◌, ◌/◌, ◌^◌, bit_or, not, Option, none, some, List, ◌++◌, ltb, leb,
  ◌==◌, if◌then◌else◌, take, replicate, u32, ◌<<<◌,
}
use nuclear_armageddon.Bitmap.{div_round_up}
use nuclear_armageddon.Result.{ok}
use nuclear_armageddon.Utf.{utf8_to_utf16}
use nuclear_armageddon.Entry.{ename_max}
use nuclear_armageddon.Mkfs.{Param}

abbrev pub last_data_cluster : ℕ
last_data_cluster = 0xfffffff6

-- The loop from `i` on.
unfoldable pub spc_bits_from : ℕ → ℕ → ℕ → ℕ → Option ℕ
spc_bits_from zero sector_bits volume_size i = none
spc_bits_from (suc fuel) sector_bits volume_size i =
    let later = spc_bits_from fuel sector_bits volume_size (i + 1) in
    if leb (div_round_up volume_size (2 ^ i)) last_data_cluster
    then some (i - sector_bits)
    else later

-- `user_defined` is `none` for -1; the result is `none` where the C function returns -1, and where
-- it shifts 1 out of an `int`: in the 15th round of the loop, which no volume up to 2 ^ 61 bytes
-- reaches. The shift by a number that the user gives is not bounded here.
unfoldable pub setup_spc_bits : ℕ → Option ℕ → ℕ → Option ℕ
setup_spc_bits sector_bits (some user_defined) volume_size =
    let cluster_size = 2 ^ sector_bits * 2 ^ user_defined in
    if ltb last_data_cluster (volume_size / cluster_size) then none else some user_defined
setup_spc_bits sector_bits none volume_size =
    if ltb volume_size (256 * 1024 * 1024)
    then some (12 - sector_bits)
    else if ltb volume_size (32 * 1024 * 1024 * 1024)
    then some (15 - sector_bits)
    else spc_bits_from 14 sector_bits volume_size 17

-- A string without its terminator, or the null pointer; `none` is a failure.
unfoldable pub setup_volume_label : Option (List ℕ) → Option (List ℕ)
setup_volume_label none = some (replicate (ename_max + 1) 0)
setup_volume_label (some s) = elim (utf8_to_utf16 s (ename_max + 1)) [
  | ok units ↦ some (take (ename_max + 1) (units ++ replicate (ename_max + 1) 0))
  | _ ↦ none
]

-- `now` gives the seconds and microseconds, unless `gettimeofday` fails.
unfoldable pub setup_volume_serial : ℕ → Option (ℕ × ℕ) → ℕ
setup_volume_serial user_defined now =
    if not (user_defined == 0)
    then user_defined
    else elim now [ none ↦ 0 | some t ↦ u32 (bit_or (t.0 <<< 20) t.1) ]

abbrev pub nonzero : ℕ → Option ℕ
nonzero n = if n == 0 then none else some n

abbrev pub with_all :
    Option ℕ → Option (List ℕ) → Option ℕ → (ℕ → List ℕ → ℕ → Param) → Option Param
with_all (some bits) (some label) (some serial) f = some (f bits label serial)
with_all none label serial f = none
with_all (some bits) none serial f = none
with_all (some bits) (some label) none f = none

-- The parameters that `setup` calls `mkfs` with; `none` where it returns before.
unfoldable pub setup :
    ℕ → Option ℕ → Option (List ℕ) → ℕ → ℕ → ℕ → Option (ℕ × ℕ) → List ℕ → Option Param
setup sector_bits spc_bits volume_label volume_serial first_sector volume_size now upcase_table =
    with_all (setup_spc_bits sector_bits spc_bits volume_size) (setup_volume_label volume_label)
      (nonzero (setup_volume_serial volume_serial now))
      (λ bits label serial. record {
        sector_bits = sector_bits;
        spc_bits = bits;
        volume_size = volume_size;
        volume_label = label;
        volume_serial = serial;
        first_sector = first_sector;
        upcase_table = upcase_table;
      })

-- The loop over the bits of an `int` but the last one.
unfoldable pub logarithm_from : ℕ → ℕ → ℕ → Option ℕ
logarithm_from zero i n = none
logarithm_from (suc left) i n =
    let later = logarithm_from left (i + 1) n in if 2 ^ i == n then some i else later

-- `none` where the C function returns -1.
unfoldable pub logarithm2 : ℕ → Option ℕ
logarithm2 n = logarithm_from 31 0 n
