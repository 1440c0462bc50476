-- ===== src/Mkfs/Chosen.antt =====
-- The size of cluster that `setup_spc_bits` chooses, on sectors of 512 bytes.
use native.Mathlib.Nat.{
  one-le-pow, div-le_of_le-mul, mul-le-mul_right, pow-suc, mul_assoc, mul_comm, le_trans,
  pow-le-pow_right,
}
use nuclear_armageddon.Prelude.{
  ℕ, zero, suc, ◌+◌, ◌-◌, ◌*◌, ◌/◌, ◌^◌, ◌≤◌, ◌≡◌, ◌≢◌, refl, sym, ap, ◌∙◌, subst, arith, Bool,
  true, false, Option, some, none, ltb, leb, if◌then◌else◌, Bool-cases, Option-cases, ltb→lt, inl,
  inr, leb→le, ◌==◌,
}
use nuclear_armageddon.Bitmap.{div_round_up}
use nuclear_armageddon.Mkfs.Layout.{le-round_up}
use nuclear_armageddon.Mkfs.Setup.{last_data_cluster, spc_bits_from, setup_spc_bits}

two_pow : (k : ℕ) → 2 ^ 9 * 2 ^ k ≡ 2 ^ (k + 9)
two_pow zero = refl
two_pow (suc k) =
    ap (λ n. 512 * n) (pow-suc 2 k)
    ∙ sym (mul_assoc 512 (2 ^ k) 2)
    ∙ ap (λ n. n * 2) (two_pow k)
    ∙ sym (pow-suc 2 (k + 9))
    ∙ ap (λ n. 2 ^ n) (omega arith)

-- The clusters that are allowed, of 2 ^ `i` bytes each, hold the volume.
abbrev Covers : ℕ → ℕ → Type 0
Covers volume_size i = volume_size ≤ 2 ^ i * last_data_cluster

room_enough :
    (volume_size i : ℕ)
    → div_round_up volume_size (2 ^ i) ≤ last_data_cluster
    → Covers volume_size i
room_enough volume_size i le =
    le_trans (le-round_up volume_size (2 ^ i) (one-le-pow i 2 (omega arith))) (
      subst (λ n. div_round_up volume_size (2 ^ i) * 2 ^ i ≤ n) (mul_comm last_data_cluster (2 ^ i))
        (mul-le-mul_right (2 ^ i) le))

fits_32_mb :
    (volume_size : ℕ)
    → Covers volume_size 25
    → leb (div_round_up volume_size (2 ^ 25)) last_data_cluster ≡ true
fits_32_mb volume_size h = ground arith

fits_of_32_mb :
    (volume_size i : ℕ)
    → i ≡ 25
    → Covers volume_size 25
    → leb (div_round_up volume_size (2 ^ i)) last_data_cluster ≡ true
fits_of_32_mb volume_size i e h = rw e (fits_32_mb volume_size h)

absurd_test :
    (b : Bool) (n : ℕ) (later : Option ℕ) → b ≡ true → (if b then some n else later) ≢ none
absurd_test true n later t e = cc
absurd_test false n later t e = cc

some_inj : {m n : ℕ} → some m ≡ some n → m ≡ n
some_inj e = cc

back : (i bits : ℕ) → 9 ≤ i → some (i - 9) ≡ some bits → i ≡ bits + 9
back i bits h e = omega (arith, h, some_inj e)

-- A round that fails comes before the one for 32 MB, if that one does not.
not_last :
    (volume_size i : ℕ)
    → i ≤ 25
    → Covers volume_size 25
    → leb (div_round_up volume_size (2 ^ i)) last_data_cluster ≡ false
    → i + 1 ≤ 25
not_last volume_size i le c f = elim (Bool-cases (i == 25)) [
  | inl t ↦
      let fits : leb (div_round_up volume_size (2 ^ i)) last_data_cluster ≡ true =
        fits_of_32_mb volume_size i (ground (arith, t)) c in
      absurd (cc)
  | inr n ↦ ground (arith, le, n)
]

from_found :
    (fuel volume_size i bits : ℕ)
    → 9 ≤ i
    → spc_bits_from fuel 9 volume_size i ≡ some bits
    → Covers volume_size (bits + 9)
unfolding spc_bits_from
from_found zero volume_size i bits h e = cc
from_found (suc fuel) volume_size i bits h e =
    elim (Bool-cases (leb (div_round_up volume_size (2 ^ i)) last_data_cluster)) [
      | inl t ↦
          let chosen : some (i - 9) ≡ some bits = cc in
          subst (Covers volume_size) (back i bits h chosen)
            (room_enough volume_size i (leb→le _ _ t))
      | inr f ↦ from_found fuel volume_size (i + 1) bits (omega (arith, h)) (cc)
    ]

from_small :
    (fuel volume_size i bits : ℕ)
    → 9 ≤ i
    → i ≤ 25
    → Covers volume_size 25
    → spc_bits_from fuel 9 volume_size i ≡ some bits
    → bits + 9 ≤ 25
unfolding spc_bits_from
from_small zero volume_size i bits h le c e = cc
from_small (suc fuel) volume_size i bits h le c e =
    elim (Bool-cases (leb (div_round_up volume_size (2 ^ i)) last_data_cluster)) [
      | inl t ↦
          let chosen : some (i - 9) ≡ some bits = cc in omega (arith, back i bits h chosen, le)
      | inr f ↦
          from_small fuel volume_size (i + 1) bits (omega (arith, h))
            (not_last volume_size i le c f) c (cc)
    ]

leb_of : (a : ℕ) → a ≤ 2 ^ 32 - 16 → leb a last_data_cluster ≡ true
leb_of a h = ground arith

power_fits :
    (volume_size i : ℕ)
    → volume_size ≤ 2 ^ i * 2 ^ 31
    → leb (div_round_up volume_size (2 ^ i)) last_data_cluster ≡ true
power_fits volume_size i h =
    leb_of (div_round_up volume_size (2 ^ i))
      (div-le_of_le-mul (2 ^ i) (omega (arith, h, one-le-pow i 2 (omega arith))))

from_finds :
    (fuel volume_size i : ℕ)
    → volume_size ≤ 2 ^ (i + fuel) * 2 ^ 31
    → spc_bits_from (suc fuel) 9 volume_size i ≢ none
unfolding spc_bits_from
from_finds zero volume_size i le e =
    absurd_test (leb (div_round_up volume_size (2 ^ i)) last_data_cluster) (i - 9) none
      (power_fits volume_size i (subst (λ n. volume_size ≤ 2 ^ n * 2 ^ 31) (omega arith) le)) e
from_finds (suc fuel) volume_size i le e =
    elim (Bool-cases (leb (div_round_up volume_size (2 ^ i)) last_data_cluster)) [
      | inl t ↦ absurd_test (leb (div_round_up volume_size (2 ^ i)) last_data_cluster) (i - 9) _ t e
      | inr f ↦
          from_finds fuel volume_size (i + 1)
            (subst (λ n. volume_size ≤ 2 ^ n * 2 ^ 31) (omega arith) le) (cc)
    ]

Chosen : ℕ → Type 0
Chosen volume_size =
    (bits : ℕ) × (setup_spc_bits 9 none volume_size ≡ some bits)
    × (volume_size / (2 ^ 9 * 2 ^ bits) ≤ last_data_cluster)
    × (leb (9 + bits) 25 ≡ leb volume_size (last_data_cluster * 2 ^ 25))

leb_same : (a b c d : ℕ) → (a ≤ b → c ≤ d) → (c ≤ d → a ≤ b) → leb a b ≡ leb c d
leb_same a b c d to from = ground arith

abbrev branches : ℕ → Bool → Bool → Option ℕ
branches volume_size small middle =
    if small then some 3 else if middle then some 6 else spc_bits_from 14 9 volume_size 17

tested :
    (volume_size : ℕ) {small middle : Bool}
    → ltb volume_size (256 * 1024 * 1024) ≡ small
    → ltb volume_size (32 * 1024 * 1024 * 1024) ≡ middle
    → setup_spc_bits 9 none volume_size ≡ branches volume_size small middle
unfolding setup_spc_bits
tested volume_size s m =
    ap (λ b. branches volume_size b (ltb volume_size (32 * 1024 * 1024 * 1024))) s
    ∙ ap (branches volume_size _) m

powers :
    (bits : ℕ) → 9 + bits ≤ 25 → 2 ^ (bits + 9) * last_data_cluster ≤ last_data_cluster * 2 ^ 25
powers bits h =
    mul-le-mul_right last_data_cluster
      (pow-le-pow_right {n = 2} (omega arith) {i = bits + 9} {j = 25} (omega (arith, h)))

by_loop :
    (volume_size bits : ℕ)
    → setup_spc_bits 9 none volume_size ≡ spc_bits_from 14 9 volume_size 17
    → spc_bits_from 14 9 volume_size 17 ≡ some bits
    → Chosen volume_size
unfolding Chosen
by_loop volume_size bits e found =
    let enough : Covers volume_size (bits + 9) =
      from_found 14 volume_size 17 bits (omega arith) found in
    (
      bits,
      e ∙ found,
      div-le_of_le-mul (2 ^ 9 * 2 ^ bits)
          (subst (λ n. volume_size ≤ n * last_data_cluster) (sym (two_pow bits)) enough),
      leb_same (9 + bits) 25 volume_size (last_data_cluster * 2 ^ 25)
          (λ le. le_trans enough (powers bits le))
          (λ le. omega (
            arith,
            from_small 14 volume_size 17 bits (omega arith) (omega arith) (omega (arith, le)) found,
          )),
    )

-- For every volume of at most 2 ^ 61 bytes, with sectors of 512 bytes and no size of cluster given by the
-- user, one is found; it leaves at most 0xfffffff6 clusters; and it is one of the sizes up to 32 MB,
-- which `exfat_mount` accepts, exactly when the volume has at most 0xfffffff6 times 32 MB.
pub setup_spc_bits-last_data_cluster :
    (volume_size : ℕ)
    → volume_size ≤ 2 ^ 61
    → (bits : ℕ) × (setup_spc_bits 9 none volume_size ≡ some bits)
      × (volume_size / (2 ^ 9 * 2 ^ bits) ≤ last_data_cluster)
      × (leb (9 + bits) 25 ≡ leb volume_size (last_data_cluster * 2 ^ 25))
unfolding Chosen
setup_spc_bits-last_data_cluster volume_size h =
    elim (Bool-cases (ltb volume_size (256 * 1024 * 1024))) [
      | inl t ↦ (
        3,
        tested volume_size t refl,
        omega (arith, ltb→lt _ _ t),
        leb_same 12 25 _ _ (λ le. omega (arith, ltb→lt _ _ t)) (λ le. omega arith),
      )
      | inr f ↦ elim (Bool-cases (ltb volume_size (32 * 1024 * 1024 * 1024))) [
        | inl t ↦ (
          6,
          tested volume_size f t,
          omega (arith, ltb→lt _ _ t),
          leb_same 15 25 _ _ (λ le. omega (arith, ltb→lt _ _ t)) (λ le. omega arith),
        )
        | inr g ↦ elim (Option-cases (spc_bits_from 14 9 volume_size 17)) [
          | inl n ↦ elim (from_finds 13 volume_size 17 (omega (arith, h)) n) [ ]
          | inr s ↦ by_loop volume_size s.0 (tested volume_size f g) s.1
        ]
      ]
    ]
