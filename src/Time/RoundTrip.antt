-- ===== src/Time/RoundTrip.antt =====
-- The two conversions of libexfat/time.c undo one another.
use nuclear_armageddon.Prelude.{
  ℕ, ◌+◌, ◌-◌, ◌*◌, ◌/◌, ◌%◌, ◌≤◌, ◌<◌, ◌^◌, bit_or, ◌<<<◌, ◌≡◌, refl, ap, ◌∙◌, ◌⊎◌, Bool, true,
  false, leb, some, arith, u16,
}
use nuclear_armageddon.Prelude.Int.{
  ℤ, pos, negsuc, pos_part, neg_part, ◌+ℤ◌, ◌-ℤ◌, ◌≤ℤ◌, ltb_ℤ, int_laws, parts_disjoint,
}
use nuclear_armageddon.Time.{
  Stamp, sec_in_day, sec_in_hour, sec_in_min, epoch_diff_sec, leap_years, is_leap_year,
  exfat_exfat2unix, stamp_since, stamp_at, exfat_unix2exfat, find_month,
}
use nuclear_armageddon.Time.Pack.{
  Fields, InRange, stamp, seconds, day_number, pack_date, pack_time, exfat_exfat2unix-stamp,
}
use nuclear_armageddon.Time.Months.{
  find_month-IsDay, find_month-day, IsDay, year_length, month_length, day_of_year, Found,
}

-- 128 years from 1 January 1980, in the days of this calendar, where each fourth year is leap.
abbrev pub last_day : ℕ
last_day = 46752

-- The year of a day number, as `exfat_unix2exfat` finds it.
abbrev year_of : ℕ → ℕ
year_of days = 4 * days / 1461

abbrev day_of : ℕ → ℕ
day_of days = days - (year_of days * 365 + leap_years (year_of days))

year_of-le : (days : ℕ) → days < last_day → year_of days ≤ 127
year_of-le days h = omega arith

year_of-start : (days : ℕ) → year_of days * 365 + leap_years (year_of days) ≤ days
year_of-start days = omega arith

day_of-lt : (days : ℕ) → day_of days < year_length (is_leap_year (year_of days))
day_of-lt days = ground arith

abbrev month_of : ℕ → ℕ × ℕ
month_of days = find_month (is_leap_year (year_of days)) 12 1 (day_of days)

-- The fields that `exfat_unix2exfat` packs for a number of seconds since the epoch.
abbrev pub fields_of : ℕ → Fields
fields_of since = record {
  year = year_of (since / sec_in_day);
  month = (month_of (since / sec_in_day)).0;
  day = (month_of (since / sec_in_day)).1 + 1;
  hour = since % sec_in_day / sec_in_hour;
  minute = since % sec_in_hour / sec_in_min;
  twosec = since % sec_in_min / 2;
  centisec = since % 2 * 100;
}

month_length_le : (leap : Bool) (m : ℕ) → month_length leap m ≤ 31
month_length_le leap m = ground arith

month_of-IsDay : (days : ℕ) → IsDay (is_leap_year (year_of days)) (day_of days) (month_of days)
month_of-IsDay days = find_month-IsDay _ (day_of days) (day_of-lt days)

fields_of-InRange : (since : ℕ) → since < last_day * sec_in_day → InRange (fields_of since)
fields_of-InRange since h =
    let days = since / sec_in_day in
    let day = month_of-IsDay days in
    record {
      year_in = year_of-le days (omega arith);
      month_in = (day.0, day.1);
      day_in = (
        omega arith,
        omega (arith, day.2, month_length_le (is_leap_year (year_of days)) (month_of days).0),
      );
      hour_in = omega arith;
      minute_in = omega arith;
      twosec_in = omega arith;
      centisec_in = omega arith;
    }

day_number-fields_of : (since : ℕ) → day_number (fields_of since) ≡ since / sec_in_day
day_number-fields_of since =
    let days = since / sec_in_day in omega (arith, (month_of-IsDay days).3, year_of-start days)

split_seconds :
    (since : ℕ)
    → since / sec_in_day * sec_in_day
        + since % sec_in_day / sec_in_hour * sec_in_hour
        + since % sec_in_hour / sec_in_min * sec_in_min
        + since % sec_in_min / 2 * 2
        + since % 2 * 100 / 100
      ≡ since
split_seconds since = omega arith

seconds-fields_of : (since : ℕ) → seconds (fields_of since) ≡ since
seconds-fields_of since = rw (day_number-fields_of since) (split_seconds since)

stamp_since-fields_of :
    (since : ℕ) → since < last_day * sec_in_day → stamp_since since ≡ some (stamp (fields_of since))
unfolding stamp_since
stamp_since-fields_of since h = rw (year_small, int_fits, day_small, date_packed, time_packed) refl
  where
    days : ℕ
    days = since / sec_in_day

    v : InRange (fields_of since)
    v = fields_of-InRange since h

    year_small : u16 (year_of days) ≡ year_of days
    year_small = omega (arith, year_of-le days (omega arith))

    int_fits : leb (2 ^ 31) (4 * days) ≡ false
    int_fits = ground arith

    day_small : u16 ((month_of days).1 + 1) ≡ (month_of days).1 + 1
    day_small = omega (arith, v.day_in)

    date_packed :
        u16
          (bit_or (bit_or ((month_of days).1 + 1) ((month_of days).0 <<< 5)) ((year_of days) <<< 9))
        ≡ (stamp (fields_of since)).date
    date_packed = pack_date _ _ _ v.year_in v.month_in.1 v.day_in.1

    time_packed :
        u16 (
          bit_or
            (bit_or (since % sec_in_min / 2) ((since % sec_in_hour / sec_in_min) <<< 5))
            ((since % sec_in_day / sec_in_hour) <<< 11))
        ≡ (stamp (fields_of since)).time
    time_packed = pack_time _ _ _ v.hour_in v.minute_in v.twosec_in

at_since : (a : ℤ) → neg_part a ≡ 0 → stamp_at a ≡ stamp_since (pos_part a)
at_since (pos n) h = refl
at_since (negsuc n) h = absurd (omega (arith, h))

-- At or after the epoch, nothing is cut off.
after_epoch :
    (zone t : ℤ)
    → pos epoch_diff_sec +ℤ zone ≤ℤ t
    → exfat_unix2exfat zone t ≡ stamp_since (pos_part (t -ℤ (pos epoch_diff_sec +ℤ zone)))
unfolding exfat_unix2exfat
after_epoch zone t lo = rw late (at_since (t -ℤ (pos epoch_diff_sec +ℤ zone)) reached)
  where
    reached : neg_part (t -ℤ (pos epoch_diff_sec +ℤ zone)) ≡ 0
    reached = omega (int_laws, parts_disjoint (t -ℤ (pos epoch_diff_sec +ℤ zone)))

    late : ltb_ℤ t (pos epoch_diff_sec +ℤ zone) ≡ false
    late = ground arith

since_back :
    (zone t : ℤ)
    → pos epoch_diff_sec +ℤ zone ≤ℤ t
    → pos (epoch_diff_sec + pos_part (t -ℤ (pos epoch_diff_sec +ℤ zone))) +ℤ zone ≡ t
since_back zone t lo =
    let since = t -ℤ (pos epoch_diff_sec +ℤ zone) in omega (int_laws, parts_disjoint since)

-- A time that the exFAT calendar holds is encoded, and decodes to itself: for each timezone and
-- each time from the local 1 January 1980 on, up to 46752 days later.
pub exfat_exfat2unix-exfat_unix2exfat :
    (zone t : ℤ)
    → pos epoch_diff_sec +ℤ zone ≤ℤ t
    → t -ℤ (pos epoch_diff_sec +ℤ zone) ≤ℤ pos (last_day * sec_in_day - 1)
    → (s : Stamp) × (exfat_unix2exfat zone t ≡ some s) × (exfat_exfat2unix zone s ≡ t)
exfat_exfat2unix-exfat_unix2exfat zone t lo hi = (
  stamp (fields_of since),
  after_epoch zone t lo ∙ stamp_since-fields_of since small,
  exfat_exfat2unix-stamp zone (fields_of since) (fields_of-InRange since small)
      ∙ (ap (λ n. pos (epoch_diff_sec + n) +ℤ zone) (seconds-fields_of since)
          ∙ since_back zone t lo),
)
  where
    since : ℕ
    since = pos_part (t -ℤ (pos epoch_diff_sec +ℤ zone))

    small : since < last_day * sec_in_day
    small = omega (arith, parts_disjoint (t -ℤ (pos epoch_diff_sec +ℤ zone)))

-- A date that exists, with a time that Unix time tells from others: centiseconds make no
-- difference below a second.
pub record IsReal (f : Fields) : Type 0 where
  pub in_range : InRange f
  pub day_exists : f.day ≤ month_length (is_leap_year f.year) f.month
  pub whole_seconds : (f.centisec ≡ 0) ⊎ (f.centisec ≡ 100)

month-Found :
    (f : Fields)
    → IsReal f
    → Found (is_leap_year f.year) f.month (f.day - 1) (
        find_month
          (is_leap_year f.year)
          12
          1
          (day_of_year (is_leap_year f.year) f.month (f.day - 1)))
month-Found f v =
    find_month-day (is_leap_year f.year) f.month (f.day - 1) v.in_range.month_in.0
      v.in_range.month_in.1 (omega (arith, v.day_exists, v.in_range.day_in))

-- Of the years, the code's quotient finds the one that holds the day.
quotient :
    (year d : ℕ)
    → d < year_length (is_leap_year year)
    → year_of (year * 365 + leap_years year + d) ≡ year
quotient year d h = ground arith

year_end : (y : ℕ) → y ≤ 127 → y * 365 + leap_years y + year_length (is_leap_year y) ≤ last_day
year_end y h = ground arith

module _ (f : Fields) (v : IsReal f) where
  abbrev leap : Bool
  leap = is_leap_year f.year

  abbrev doy : ℕ
  doy = day_of_year leap f.month (f.day - 1)

  day_number-eq : day_number f ≡ f.year * 365 + leap_years f.year + doy
  day_number-eq = omega arith

  seconds_day : seconds f / sec_in_day ≡ f.year * 365 + leap_years f.year + doy
  seconds_day = omega (arith, v.in_range, day_number-eq)

  year_found : year_of (seconds f / sec_in_day) ≡ f.year
  year_found = rw seconds_day (quotient f.year doy (month-Found f v).2)

  day_found : day_of (seconds f / sec_in_day) ≡ doy
  day_found = rw year_found (omega (arith, seconds_day))

  month_pair : month_of (seconds f / sec_in_day) ≡ find_month leap 12 1 doy
  month_pair = rw (day_found, year_found) refl

  month_day : (month_of (seconds f / sec_in_day)).1 + 1 ≡ f.day
  month_day = rw month_pair (omega (arith, (month-Found f v).1, v.in_range.day_in))

  hour_found : seconds f % sec_in_day / sec_in_hour ≡ f.hour
  hour_found = omega (arith, v.in_range)

  minute_found : seconds f % sec_in_hour / sec_in_min ≡ f.minute
  minute_found = omega (arith, v.in_range)

  twosec_found : seconds f % sec_in_min / 2 ≡ f.twosec
  twosec_found = omega (arith, v.in_range)

  centisec_found : seconds f % 2 * 100 ≡ f.centisec
  centisec_found = omega (arith, v.whole_seconds)

  fields_of-seconds : fields_of (seconds f) ≡ f
  fields_of-seconds i = record {
    year = year_found i;
    month = (ap (λ p. p.0) month_pair ∙ (month-Found f v).0) i;
    day = month_day i;
    hour = hour_found i;
    minute = minute_found i;
    twosec = twosec_found i;
    centisec = centisec_found i;
  }

  seconds_lt : seconds f < last_day * sec_in_day
  seconds_lt =
      omega
        (arith, v.in_range, day_number-eq, (month-Found f v).2, year_end f.year v.in_range.year_in)

-- A timestamp of a date that exists, whose hundredths of a second are 0 or 100 (a whole number of
-- seconds), decodes to a Unix time that is encoded by the same timestamp, for each timezone.
pub exfat_unix2exfat-exfat_exfat2unix :
    (zone : ℤ) (f : Fields)
    → IsReal f
    → exfat_unix2exfat zone (exfat_exfat2unix zone (stamp f)) ≡ some (stamp f)
exfat_unix2exfat-exfat_exfat2unix zone f v = rw (exfat_exfat2unix-stamp zone f v.in_range) (
    after_epoch zone t (omega int_laws)
    ∙ (ap stamp_since since_is
        ∙ (stamp_since-fields_of (seconds f) (seconds_lt f v)
            ∙ ap (λ g. some (stamp g)) (fields_of-seconds f v))))
  where
    t : ℤ
    t = pos (epoch_diff_sec + seconds f) +ℤ zone

    since_is : pos_part (t -ℤ (pos epoch_diff_sec +ℤ zone)) ≡ seconds f
    since_is = omega (int_laws, parts_disjoint (t -ℤ (pos epoch_diff_sec +ℤ zone)))

-- A time before the local 1 January 1980 is encoded as that day at midnight.
pub exfat_unix2exfat_early :
    (zone t : ℤ)
    → ltb_ℤ t (pos epoch_diff_sec +ℤ zone) ≡ true
    → exfat_unix2exfat zone t ≡ some (record { date = 33; time = 0; centisec = 0 })
unfolding exfat_unix2exfat
exfat_unix2exfat_early zone t early = rw (early, none_since) (unfold stamp_since find_month in refl)
  where
    shift : ℤ
    shift = pos epoch_diff_sec +ℤ zone

    none_since : shift -ℤ shift ≡ pos 0
    none_since = omega int_laws
