-- ===== src/Human/Tests.antt =====
-- Sizes for display.
use nuclear_armageddon.Prelude.{◌-◌, ◌*◌, ◌^◌, ◌≡◌, refl, some, arith}
use nuclear_armageddon.Human.{humanize_from, exfat_humanize_bytes}
use nuclear_armageddon.Human.Wrap.{exfat_humanize_bytes_wraps}

exfat_humanize_bytes-megabytes : exfat_humanize_bytes (300 * 2 ^ 20) ≡ some (300, 2)
unfolding exfat_humanize_bytes humanize_from
exfat_humanize_bytes-megabytes = refl

exfat_humanize_bytes_wraps_example : exfat_humanize_bytes (2 ^ 64 - 1) ≡ some (0, 1)
exfat_humanize_bytes_wraps_example =
    exfat_humanize_bytes_wraps (2 ^ 64 - 1) (omega arith) (omega arith)
