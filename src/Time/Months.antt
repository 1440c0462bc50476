-- ===== src/Time/Months.antt =====
-- The search for the month in libexfat/time.c, checked on every day of both kinds of year.
use nuclear_armageddon.Prelude.{
  ℕ, zero, suc, ◌+◌, ◌≤◌, ◌<◌, ◌≡◌, refl, Bool, true, false, ◌&&◌, ◌||◌, ltb, leb, ◌==◌,
  if◌then◌else◌, arith,
}
use nuclear_armageddon.Time.{days_in_year, find_month}

all_below : ℕ → (ℕ → Bool) → Bool
all_below zero p = true
all_below (suc n) p = p n && all_below n p

all_below-lt : (n : ℕ) (p : ℕ → Bool) (k : ℕ) → all_below n p ≡ true → k < n → p k ≡ true
unfolding all_below
all_below-lt zero p k h l = absurd (omega arith)
all_below-lt (suc n) p k h l = ground (arith, all_below-lt n p k)

abbrev pub leap_shift : Bool → ℕ → ℕ
leap_shift leap month = if leap && ltb 2 month then 1 else 0

abbrev pub month_length : Bool → ℕ → ℕ
month_length leap month =
    if month == 2
    then (if leap then 29 else 28)
    else if (month == 4) || (month == 6) || (month == 9) || (month == 11)
    then 30
    else 31

-- Day `d` of the year falls on day `r` of month `m`, both days from 0.
abbrev pub IsDay : Bool → ℕ → ℕ × ℕ → Type 0
IsDay leap d (m, r) =
    (1 ≤ m) × (m ≤ 12) × (r < month_length leap m) × (days_in_year m + leap_shift leap m + r ≡ d)

abbrev day_test : Bool → ℕ → ℕ × ℕ → Bool
day_test leap d (m, r) =
    leb 1 m
    && leb m 12
    && ltb r (month_length leap m)
    && (days_in_year m + leap_shift leap m + r == d)

day_test-IsDay : (leap : Bool) (d : ℕ) (p : ℕ × ℕ) → day_test leap d p ≡ true → IsDay leap d p
day_test-IsDay leap d (m, r) h = ground arith

leap_days : all_below 366 (λ d. day_test true d (find_month true 12 1 d)) ≡ true
unfolding all_below find_month
leap_days = refl

common_days : all_below 365 (λ d. day_test false d (find_month false 12 1 d)) ≡ true
unfolding all_below find_month
common_days = refl

abbrev pub year_length : Bool → ℕ
year_length leap = if leap then 366 else 365

-- The search finds the month of each day of the year.
pub find_month-IsDay :
    (leap : Bool) (d : ℕ) → d < year_length leap → IsDay leap d (find_month leap 12 1 d)
find_month-IsDay true d h = day_test-IsDay true d _ (all_below-lt 366 _ d leap_days h)
find_month-IsDay false d h = day_test-IsDay false d _ (all_below-lt 365 _ d common_days h)

-- Day `r` of month `m`, from 0, as a day of the year.
abbrev pub day_of_year : Bool → ℕ → ℕ → ℕ
day_of_year leap m r = days_in_year m + leap_shift leap m + r

abbrev found_test : ℕ → ℕ → ℕ → ℕ → ℕ → ℕ × ℕ → Bool
found_test m r len day top p = (m == 0) || leb len r || ((p.0 == m) && (p.1 == r) && ltb day top)

found_test-holds :
    (m r len day top : ℕ) (p : ℕ × ℕ)
    → 1 ≤ m
    → r < len
    → found_test m r len day top p ≡ true
    → (p.0 ≡ m) × (p.1 ≡ r) × (day < top)
found_test-holds m r len day top p hm hr h = ground arith

abbrev found : Bool → ℕ → ℕ → ℕ × ℕ → Bool
found leap m r p = found_test m r (month_length leap m) (day_of_year leap m r) (year_length leap) p

found_table : Bool → Bool
found_table leap =
    all_below 13
      (λ m. all_below 31 (λ r. found leap m r (find_month leap 12 1 (day_of_year leap m r))))

found_all : (leap : Bool) → found_table leap ≡ true
unfolding found_table all_below find_month
found_all true = refl
found_all false = refl

abbrev pub Found : Bool → ℕ → ℕ → ℕ × ℕ → Type 0
Found leap m r p = (p.0 ≡ m) × (p.1 ≡ r) × (day_of_year leap m r < year_length leap)

found-Found :
    (leap : Bool) (m r : ℕ) (p : ℕ × ℕ)
    → 1 ≤ m
    → r < month_length leap m
    → found leap m r p ≡ true
    → Found leap m r p
found-Found leap m r p hm hr h = found_test-holds m r (month_length leap m) _ _ p hm hr h

-- The search comes back to the day of the month that a day number was made from.
pub find_month-day :
    (leap : Bool) (m r : ℕ)
    → 1 ≤ m
    → m ≤ 12
    → r < month_length leap m
    → Found leap m r (find_month leap 12 1 (day_of_year leap m r))
unfolding found_table
find_month-day leap m r lo hi hr = found-Found leap m r _ lo hr (
    all_below-lt 31 (λ r. found leap m r (find_month leap 12 1 (day_of_year leap m r))) r
      (all_below-lt 13
        (λ m. all_below 31 (λ r. found leap m r (find_month leap 12 1 (day_of_year leap m r)))) m
        (found_all leap) (omega arith))
      (ground arith))
