-- ===== src/Time/Pack.antt =====
-- The packed date and time of libexfat/time.c, by their fields.
use nuclear_armageddon.Prelude.{
  ℕ, ◌+◌, ◌-◌, ◌*◌, ◌/◌, ◌%◌, ◌≤◌, bit_or, ◌≡◌, ap, ◌∙◌, inl, inr, false, ◌&&◌, ◌||◌, ltb, ◌==◌,
  if◌then◌else◌, u16, ◌<<<◌, ◌>>>◌, arith, Bool-cases,
}
use nuclear_armageddon.Prelude.Bits.{bit_and-mask, bit_or-low_fields}
use nuclear_armageddon.Prelude.Int.{ℤ, pos, ◌+ℤ◌}
use nuclear_armageddon.Time.{
  Stamp, sec_in_day, sec_in_hour, sec_in_min, sec_in_year, epoch_diff_sec, exfat_epoch_year,
  leap_years, is_leap_year, days_in_year, exfat_exfat2unix,
}

-- A date and a time of day, taken apart.
pub record Fields : Type 0 where
  pub year : ℕ
  pub month : ℕ
  pub day : ℕ
  pub hour : ℕ
  pub minute : ℕ
  pub twosec : ℕ
  pub centisec : ℕ

-- What the packed form has room for and the decoder accepts.
pub record InRange (f : Fields) : Type 0 where
  pub year_in : f.year ≤ 127
  pub month_in : (1 ≤ f.month) × (f.month ≤ 12)
  pub day_in : (1 ≤ f.day) × (f.day ≤ 31)
  pub hour_in : f.hour ≤ 23
  pub minute_in : f.minute ≤ 59
  pub twosec_in : f.twosec ≤ 29
  pub centisec_in : f.centisec ≤ 199

abbrev pub stamp : Fields → Stamp
stamp f = record {
  date = f.year * 512 + f.month * 32 + f.day;
  time = f.hour * 2048 + f.minute * 32 + f.twosec;
  centisec = f.centisec;
}

-- Days from 1 January 1980 to the date.
abbrev pub day_number : Fields → ℕ
day_number f =
    f.year * 365
    + leap_years f.year
    + days_in_year f.month
    + (if is_leap_year f.year && ltb 2 f.month then 1 else 0)
    + (f.day - 1)

-- Seconds from then to the time.
abbrev pub seconds : Fields → ℕ
seconds f =
    day_number f * sec_in_day
    + f.hour * sec_in_hour
    + f.minute * sec_in_min
    + f.twosec * 2
    + f.centisec / 100

pub pack_date :
    (year month day : ℕ)
    → year ≤ 127
    → month ≤ 12
    → day ≤ 31
    → u16 (bit_or (bit_or day (month <<< 5)) (year <<< 9)) ≡ year * 512 + month * 32 + day
pack_date year month day hy hm hd = ground (
  arith,
  bit_or-low_fields month 5 day (omega arith),
  bit_or-low_fields year 9 (month * 32 + day) (omega arith),
)

pub pack_time :
    (hour minute twosec : ℕ)
    → hour ≤ 23
    → minute ≤ 59
    → twosec ≤ 29
    → u16 (bit_or (bit_or twosec (minute <<< 5)) (hour <<< 11)) ≡ hour * 2048 + minute * 32 + twosec
pack_time hour minute twosec hh hm ht = ground (
  arith,
  bit_or-low_fields minute 5 twosec (omega arith),
  bit_or-low_fields hour 11 (minute * 32 + twosec) (omega arith),
)

-- The decoder on values of the fields, its masks and shifts done.
decode : ℤ → Fields → ℤ
decode zone f =
    if (f.day == 0) || (f.month == 0) || ltb 12 f.month
    then pos 0
    else if ltb 23 f.hour || ltb 59 f.minute || ltb 29 f.twosec
    then pos 0
    else if ltb 199 f.centisec
    then pos 0
    else pos (
        epoch_diff_sec
        + (f.year * sec_in_year + leap_years f.year * sec_in_day)
        + days_in_year f.month * sec_in_day
        + (if ((exfat_epoch_year + f.year) % 4 == 0) && ltb 2 f.month then sec_in_day else 0)
        + (f.day - 1) * sec_in_day
        + f.hour * sec_in_hour
        + f.minute * sec_in_min
        + f.twosec * 2
        + f.centisec / 100)
      +ℤ zone

-- What the decoder makes of any packed words.
abbrev pub unpack : Stamp → Fields
unpack s = record {
  year = s.date / 512;
  month = s.date / 32 % 16;
  day = s.date % 32;
  hour = s.time / 2048;
  minute = s.time / 32 % 64;
  twosec = s.time % 32;
  centisec = s.centisec;
}

exfat_exfat2unix-unpack : (zone : ℤ) (s : Stamp) → exfat_exfat2unix zone s ≡ decode zone (unpack s)
unfolding exfat_exfat2unix decode
exfat_exfat2unix-unpack zone s = rw (
  bit_and-mask s.date 5,
  bit_and-mask (s.date >>> 5) 4,
  bit_and-mask s.time 5,
  bit_and-mask (s.time >>> 5) 6,
)

unpack-stamp : (f : Fields) → InRange f → unpack (stamp f) ≡ f
unpack-stamp f v = ground arith

decode-seconds :
    (zone : ℤ) (f : Fields) → InRange f → decode zone f ≡ pos (epoch_diff_sec + seconds f) +ℤ zone
unfolding decode
decode-seconds zone f v = rw (date_ok, time_ok, centisec_ok) (ap (λ n. pos n +ℤ zone) total)
  where
    date_ok : ((f.day == 0) || (f.month == 0) || ltb 12 f.month) ≡ false
    date_ok = ground arith

    time_ok : (ltb 23 f.hour || ltb 59 f.minute || ltb 29 f.twosec) ≡ false
    time_ok = ground arith

    centisec_ok : ltb 199 f.centisec ≡ false
    centisec_ok = ground arith

    total :
        epoch_diff_sec
          + (f.year * sec_in_year + leap_years f.year * sec_in_day)
          + days_in_year f.month * sec_in_day
          + (if ((exfat_epoch_year + f.year) % 4 == 0) && ltb 2 f.month then sec_in_day else 0)
          + (f.day - 1) * sec_in_day
          + f.hour * sec_in_hour
          + f.minute * sec_in_min
          + f.twosec * 2
          + f.centisec / 100
        ≡ epoch_diff_sec + seconds f
    total = elim (Bool-cases (((exfat_epoch_year + f.year) % 4 == 0) && ltb 2 f.month)) [
      | inl late ↦ rw late (omega arith)
      | inr early ↦ rw early (omega arith)
    ]

-- The decoder reads the fields back, and counts the seconds.
pub exfat_exfat2unix-stamp :
    (zone : ℤ) (f : Fields)
    → InRange f
    → exfat_exfat2unix zone (stamp f) ≡ pos (epoch_diff_sec + seconds f) +ℤ zone
exfat_exfat2unix-stamp zone f v =
    exfat_exfat2unix-unpack zone (stamp f)
    ∙ (ap (decode zone) (unpack-stamp f v) ∙ decode-seconds zone f v)
