-- ===== src/Mkfs/Layout.antt =====
-- Arithmetic of the layout of a new volume: clusters of `c` sectors of 512 bytes.
use native.Mathlib.Nat.{
  div-div-eq-div-mul, div-mul-le_self, lt-div-mul-add, mul-div_cancel, mul_assoc, mul_comm, add-mul,
  le-div_iff_mul-le, mul-pos,
}
use nuclear_armageddon.Prelude.{ℕ, ◌+◌, ◌-◌, ◌*◌, ◌/◌, ◌≤◌, ◌<◌, ◌≡◌, sym, ap, ◌∙◌, arith}
use nuclear_armageddon.Bitmap.{div_round_up}
use nuclear_armageddon.Mkfs.{round_up}

-- Rounding up does not make less, and adds less than the divisor.
pub le-round_up : (x d : ℕ) → 0 < d → x ≤ round_up x d
le-round_up x d h = omega (arith, h, lt-div-mul-add {a = x + d - 1} {b = d} h)

pub round_up-le : (x d : ℕ) → 0 < d → round_up x d ≤ x + d - 1
round_up-le x d h = div-mul-le_self (x + d - 1) d

module _ (c volume : ℕ) where
  abbrev pub clusters : ℕ
  clusters = volume / (512 * c)

  abbrev pub fat_bytes : ℕ
  fat_bytes = clusters * 4

  abbrev pub sectors : ℕ
  sectors = div_round_up fat_bytes 512

  -- The clusters' worth of space before the heap.
  abbrev pub before_heap : ℕ
  before_heap = div_round_up (128 + sectors) c

module _ (c volume : ℕ) (pos : 0 < c) where
  -- Rounding bytes up to clusters is rounding sectors up to clusters.
  pub heap_position : div_round_up (65536 + (fat_bytes c volume)) (512 * c) ≡ (before_heap c volume)
  heap_position =
      sym (div-div-eq-div-mul (65536 + (fat_bytes c volume) + 512 * c - 1) 512 c)
      ∙ ap (λ x. x / c) (omega (arith, pos))

  pub heap_sector : (before_heap c volume) * (512 * c) / 512 ≡ (before_heap c volume) * c
  heap_sector =
      ap (λ x. x / 512)
        (ap (λ y. (before_heap c volume) * y) (mul_comm 512 c)
          ∙ sym (mul_assoc (before_heap c volume) c 512))
      ∙ mul-div_cancel ((before_heap c volume) * c) (omega arith)

  pub heap_above : 128 + (sectors c volume) ≤ (before_heap c volume) * c
  heap_above = le-round_up (128 + (sectors c volume)) c pos

  pub heap_below : (before_heap c volume) * c ≤ 128 + (sectors c volume) + c - 1
  heap_below = round_up-le (128 + (sectors c volume)) c pos

  -- When the space before the heap fits, so do the clusters behind it.
  pub heap_fits :
      (before_heap c volume) ≤ (clusters c volume)
      → (before_heap c volume) * (512 * c)
          + ((clusters c volume) - (before_heap c volume)) * (512 * c)
        ≤ volume
  heap_fits h = omega (
    arith,
    add-mul (before_heap c volume) ((clusters c volume) - (before_heap c volume)) (512 * c),
    ap (λ n. n * (512 * c)) (whole h),
    div-mul-le_self volume (512 * c),
  )
    where
      whole :
          (before_heap c volume) ≤ (clusters c volume)
          → (before_heap c volume) + ((clusters c volume) - (before_heap c volume))
            ≡ (clusters c volume)
      whole h = omega (arith, h)

  pub before-le :
      (before_heap c volume) * (512 * c) ≤ volume → (before_heap c volume) ≤ (clusters c volume)
  before-le h = (le-div_iff_mul-le (mul-pos {m = 512} (omega arith) pos)).1 h

  -- Small clusters leave more than one cluster's worth of space before the heap.
  pub two_before : c ≤ 128 → 0 < (clusters c volume) → 2 ≤ (before_heap c volume)
  two_before small some_cluster =
      (le-div_iff_mul-le {k = c} pos).1 (omega (arith, small, some_cluster, pos))
