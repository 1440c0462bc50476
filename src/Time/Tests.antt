-- ===== src/Time/Tests.antt =====
-- Timestamps of libexfat/time.c by hand.
use nuclear_armageddon.Prelude.{◌≡◌, refl, inr, some, arith}
use nuclear_armageddon.Prelude.Int.{pos, negsuc, ◌+ℤ◌, ◌-ℤ◌}
use nuclear_armageddon.Time.{Stamp, find_month, stamp_since, exfat_exfat2unix, exfat_unix2exfat}
use nuclear_armageddon.Time.Pack.{Fields, stamp}
use nuclear_armageddon.Time.RoundTrip.{
  IsReal, exfat_exfat2unix-exfat_unix2exfat, exfat_unix2exfat-exfat_exfat2unix,
  exfat_unix2exfat_early,
}

-- 29 February 2000, 12:34:57.
abbrev leap_noon : Fields
leap_noon = record {
  year = 20;
  month = 2;
  day = 29;
  hour = 12;
  minute = 34;
  twosec = 28;
  centisec = 100;
}

exfat_exfat2unix-leap_noon : exfat_exfat2unix (pos 0) (stamp leap_noon) ≡ pos 951827697
unfolding exfat_exfat2unix ◌+ℤ◌
exfat_exfat2unix-leap_noon = refl

exfat_unix2exfat-leap_noon : exfat_unix2exfat (pos 0) (pos 951827697) ≡ some (stamp leap_noon)
unfolding exfat_unix2exfat stamp_since find_month ◌+ℤ◌ ◌-ℤ◌
exfat_unix2exfat-leap_noon = refl

leap_noon-IsReal : IsReal leap_noon
leap_noon-IsReal = record {
  in_range = omega arith;
  day_exists = omega arith;
  whole_seconds = inr refl;
}

exfat_unix2exfat-exfat_exfat2unix_example :
    exfat_unix2exfat (negsuc 3599) (exfat_exfat2unix (negsuc 3599) (stamp leap_noon))
    ≡ some (stamp leap_noon)
exfat_unix2exfat-exfat_exfat2unix_example =
    exfat_unix2exfat-exfat_exfat2unix (negsuc 3599) leap_noon leap_noon-IsReal

exfat_exfat2unix-exfat_unix2exfat_example :
    (s : Stamp) × (exfat_unix2exfat (pos 0) (pos 951827697) ≡ some s)
    × (exfat_exfat2unix (pos 0) s ≡ pos 951827697)
exfat_exfat2unix-exfat_unix2exfat_example =
    exfat_exfat2unix-exfat_unix2exfat (pos 0) (pos 951827697) (unfold ◌+ℤ◌ in omega arith)
      (unfold ◌+ℤ◌ ◌-ℤ◌ in omega arith)

exfat_unix2exfat_early_example :
    exfat_unix2exfat (pos 0) (negsuc 4) ≡ some (record { date = 33; time = 0; centisec = 0 })
exfat_unix2exfat_early_example = exfat_unix2exfat_early (pos 0) (negsuc 4) (unfold ◌+ℤ◌ in refl)
