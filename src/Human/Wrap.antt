-- ===== src/Human/Wrap.antt =====
-- The largest sizes in `exfat_humanize_bytes` of libexfat/utils.c.
use nuclear_armageddon.Prelude.{
  ℕ, ◌+◌, ◌-◌, ◌*◌, ◌/◌, ◌^◌, ◌≤◌, ◌<◌, ◌≡◌, refl, false, some, ltb, ◌==◌, u64, arith,
}
use nuclear_armageddon.Human.{humanize_from, exfat_humanize_bytes}

-- Each of the 512 largest sizes of 64 bits is given as 0 KB.
pub exfat_humanize_bytes_wraps :
    (value : ℕ) → 2 ^ 64 - 512 ≤ value → value < 2 ^ 64 → exfat_humanize_bytes value ≡ some (0, 1)
unfolding exfat_humanize_bytes humanize_from
exfat_humanize_bytes_wraps value l h = rw (first, positive, odd, large, second) refl
  where
    first : u64 (value + 1 / 2) / 1 ≡ value
    first = omega (arith, h)

    positive : (value == 0) ≡ false
    positive = ground (arith, l)

    odd : (value / 1024 * 1024 == value) ≡ false
    odd = ground (arith, l, h)

    large : ltb value 10240 ≡ false
    large = ground (arith, l)

    second : u64 (value + u64 (1 * 1024) / 2) / u64 (1 * 1024) ≡ 0
    second = omega (arith, l, h)
