-- ===== src/Human.antt =====
-- `exfat_humanize_bytes` of libexfat/utils.c: sizes for display.
mod Tests
pub mod Wrap
use nuclear_armageddon.Prelude.{
  ℕ, zero, suc, ◌+◌, ◌*◌, ◌/◌, ◌^◌, Option, none, some, ltb, ◌==◌, if◌then◌else◌, u64,
}

-- The loop at unit `i`, with `left` units to go. The result is the value and the index of its
-- unit in the table; `none` where the loop leaves the table, whose units are seven.
pub humanize_from : ℕ → ℕ → ℕ → ℕ → Option (ℕ × ℕ)
humanize_from zero i divisor value = none
humanize_from (suc left) i divisor value =
    let temp = u64 (value + divisor / 2) / divisor in
    let rest = humanize_from left (i + 1) (u64 (divisor * 1024)) value in
    if temp == 0
    then some (temp, i)
    else if temp / 1024 * 1024 == temp
    then rest
    else if ltb temp 10240
    then some (temp, i)
    else rest

pub exfat_humanize_bytes : ℕ → Option (ℕ × ℕ)
exfat_humanize_bytes value = humanize_from 7 0 1 value
