-- ===== src/Time.antt =====
-- libexfat/time.c: exFAT timestamps (packed date, packed time, centiseconds) and Unix time.
-- `time_t` and `exfat_timezone` are integers; no value that the functions make from a timestamp
-- leaves 64 bits. The timezone is an argument, since `exfat_tzset` takes it from the system.
-- A caller that passes NULL for the centiseconds drops that field of the result.
mod Tests
pub mod Pack
pub mod Months
pub mod RoundTrip
use nuclear_armageddon.Prelude.{
  ℕ, zero, suc, ◌+◌, ◌-◌, ◌*◌, ◌/◌, ◌%◌, ◌^◌, bit_and, bit_or, Bool, true, false, ◌&&◌, ◌||◌,
  Option, none, some, List, [], ◌∷◌, ltb, leb, ◌==◌, if◌then◌else◌, get_or, u16, ◌<<<◌, ◌>>>◌,
}
use nuclear_armageddon.Prelude.Int.{ℤ, pos, negsuc, ◌+ℤ◌, ◌-ℤ◌, ltb_ℤ}

abbrev pub sec_in_min : ℕ
sec_in_min = 60

abbrev pub sec_in_hour : ℕ
sec_in_hour = 60 * sec_in_min

abbrev pub sec_in_day : ℕ
sec_in_day = 24 * sec_in_hour

abbrev pub sec_in_year : ℕ
sec_in_year = 365 * sec_in_day

abbrev pub exfat_epoch_year : ℕ
exfat_epoch_year = 1980

-- 1980 - 1970
abbrev pub epoch_diff_year : ℕ
epoch_diff_year = 10

abbrev pub epoch_diff_days : ℕ
epoch_diff_days = epoch_diff_year * 365 + epoch_diff_year / 4

abbrev pub epoch_diff_sec : ℕ
epoch_diff_sec = epoch_diff_days * sec_in_day

abbrev pub leap_years : ℕ → ℕ
leap_years year = (exfat_epoch_year + year - 1) / 4 - (exfat_epoch_year - 1) / 4

abbrev pub is_leap_year : ℕ → Bool
is_leap_year year = (exfat_epoch_year + year) % 4 == 0

-- The table starts with an entry for month 0.
abbrev pub days_in_year : ℕ → ℕ
days_in_year i =
    get_or (0 ∷ 0 ∷ 31 ∷ 59 ∷ 90 ∷ 120 ∷ 151 ∷ 181 ∷ 212 ∷ 243 ∷ 273 ∷ 304 ∷ 334 ∷ []) i 0

-- A timestamp as a directory entry holds it.
pub record Stamp : Type 0 where
  pub date : ℕ
  pub time : ℕ
  pub centisec : ℕ

pub exfat_exfat2unix : ℤ → Stamp → ℤ
exfat_exfat2unix exfat_timezone s =
    let day = bit_and s.date 0x1f in
    let month = bit_and (s.date >>> 5) 0xf in
    let year = s.date >>> 9 in
    let twosec = bit_and s.time 0x1f in
    let min = bit_and (s.time >>> 5) 0x3f in
    let hour = s.time >>> 11 in
    if (day == 0) || (month == 0) || ltb 12 month
    then pos 0
    else if ltb 23 hour || ltb 59 min || ltb 29 twosec
    then pos 0
    else if ltb 199 s.centisec
    then pos 0
    else pos (
        epoch_diff_sec
        + (year * sec_in_year + leap_years year * sec_in_day)
        + days_in_year month * sec_in_day
        + (if ((exfat_epoch_year + year) % 4 == 0) && ltb 2 month then sec_in_day else 0)
        + (day - 1) * sec_in_day
        + hour * sec_in_hour
        + min * sec_in_min
        + twosec * 2
        + s.centisec / 100)
      +ℤ exfat_timezone

-- The loop over months of `exfat_unix2exfat`, at month `i` with `left` rounds to go; `leap` is
-- IS_LEAP_YEAR(year). It returns the month and the days left.
pub find_month : Bool → ℕ → ℕ → ℕ → ℕ × ℕ
find_month leap zero i days = (0, days)
find_month leap (suc left) i days =
    let leap_day = (if leap && (i == 2) then 1 else 0) in
    let leap_sub = (if leap && leb 3 i then 1 else 0) in
    let later = find_month leap left (i + 1) days in
    if (i == 12) || ltb (days - leap_sub) (days_in_year (i + 1) + leap_day)
    then (i, days - (days_in_year i + leap_sub))
    else later

-- `exfat_unix2exfat` past `unix_time -= shift`, on the seconds since the local epoch.
-- `none` where `4 * days` overflows an `int`, which C leaves undefined. Below that no difference
-- of the code is negative: `year` is at most the quotient, and a later month comes after more days.
pub stamp_since : ℕ → Option Stamp
unfolding find_month
stamp_since since =
    let days = since / sec_in_day in
    let year = u16 (4 * days / (4 * 365 + 1)) in
    let (month, left) =
      find_month (is_leap_year year) 12 1 (days - (year * 365 + leap_years year)) in
    let day = u16 (left + 1) in
    let hour = since % sec_in_day / sec_in_hour in
    let min = since % sec_in_hour / sec_in_min in
    let twosec = since % sec_in_min / 2 in
    if leb (2 ^ 31) (4 * days)
    then none
    else some (record {
      date = u16 (bit_or (bit_or day (month <<< 5)) (year <<< 9));
      time = u16 (bit_or (bit_or twosec (min <<< 5)) (hour <<< 11));
      centisec = since % 2 * 100;
    })

-- -n in 16 bits.
abbrev pub minus16 : ℕ → ℕ
minus16 n = u16 (2 ^ 16 - u16 n)

-- The same on `m` seconds before the local epoch, for `m` from 1 on: quotients and remainders are
-- rounded to 0, so all of them are negative or 0, and each field keeps what its type holds of it.
-- The loop over months stops in its first round, since the days left are below 31.
pub stamp_before : ℕ → Option Stamp
stamp_before m =
    let days = m / sec_in_day in
    let year = minus16 (4 * days / (4 * 365 + 1)) in
    let month : ℕ = 1 in
    let day = u16 (minus16 (days + (year * 365 + leap_years year)) + 1) in
    let hour = minus16 (m % sec_in_day / sec_in_hour) in
    let min = minus16 (m % sec_in_hour / sec_in_min) in
    let twosec = minus16 (m % sec_in_min / 2) in
    if ltb (2 ^ 31) (4 * days)
    then none
    else some (record {
      date = u16 (bit_or (bit_or day (month <<< 5)) (year <<< 9));
      time = u16 (bit_or (bit_or twosec (min <<< 5)) (hour <<< 11));
      centisec = (256 - m % 2 * 100) % 256;
    })

-- `exfat_unix2exfat` past `unix_time -= shift`, whatever the sign is.
abbrev pub stamp_at : ℤ → Option Stamp
stamp_at (pos since) = stamp_since since
stamp_at (negsuc n) = stamp_before (n + 1)

pub exfat_unix2exfat : ℤ → ℤ → Option Stamp
exfat_unix2exfat exfat_timezone unix_time =
    let shift = pos epoch_diff_sec +ℤ exfat_timezone in
    let unix_time' = (if ltb_ℤ unix_time shift then shift else unix_time) in
    stamp_at (unix_time' -ℤ shift)
