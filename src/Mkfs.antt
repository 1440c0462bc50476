-- ===== src/Mkfs.antt =====
-- mkfs: the objects of a new volume and where they stand. An action on the device stops at the first
-- failure, which is where the C functions return 1.
pub mod Tests
pub mod Setup
pub mod Write
pub mod Create
pub mod Layout
pub mod Room
pub mod Chosen
pub mod Above
pub mod Region
pub mod Formatted
pub mod Safety
use mathlib.Core.Bool.{cond}
use nuclear_armageddon.Prelude.{
  ℕ, ◌+◌, ◌-◌, ◌*◌, ◌/◌, ◌^◌, Bool, true, false, Option, none, some, List, [], ◌∷◌, ltb,
  if◌then◌else◌, length, u32, ◌<<<◌,
}
use nuclear_armageddon.Exfat.{Stream}
use nuclear_armageddon.Bitmap.{div_round_up}

abbrev pub W : Type 0 → Type 0 → Type 0
W D A = D → Option A × D

abbrev pub after : {D A B : Type 0} → Option A → D → (A → W D B) → Option B × D
after none d f = (none, d)
after (some a) d f = f a d

infixl 5 ◌>>=◌ ◌>>◌
abbrev pub ◌>>=◌ : {D A B : Type 0} → W D A → (A → W D B) → W D B
◌>>=◌ m f d = let (r, d') = m d in after r d' f

abbrev pub ◌>>◌ : {D B : Type 0} → W D (Unit {0}) → W D B → W D B
m >> k = m >>= λ _. k

abbrev pub pure : {D A : Type 0} → A → W D A
pure a d = (some a, d)

abbrev pub stop : {D A : Type 0} → W D A
stop d = (none, d)

abbrev pub require : {D : Type 0} → Bool → W D (Unit {0})
require true = pure tt
require false = stop

-- A call of the system that has to succeed.
abbrev pub attempt : {D : Type 0} → (D → Bool × D) → W D (Unit {0})
attempt call d = let (done, d') = call d in require done d'

-- The static `param`, and the table of uctc.c.
pub record Param : Type 0 where
  pub sector_bits : ℕ
  pub spc_bits : ℕ
  pub volume_size : ℕ
  pub volume_label : List ℕ
  pub volume_serial : ℕ
  pub first_sector : ℕ
  pub upcase_table : List ℕ

-- The parameters that main.c sets, which has sectors of 512 bytes only.
abbrev pub on_512 : Param → Param
on_512 p = record p { sector_bits = 9 }

abbrev pub get_sector_size : Param → ℕ
get_sector_size p = 1 <<< p.sector_bits

abbrev pub get_cluster_size : Param → ℕ
get_cluster_size p = get_sector_size p <<< p.spc_bits

abbrev pub round_up : ℕ → ℕ → ℕ
round_up x d = div_round_up x d * d

-- The objects of `objects`.
pub data FsObject : Type 0 where
  vbr fat cbm uct rootdir : FsObject

abbrev pub same_object : FsObject → FsObject → Bool
same_object vbr vbr = true
same_object fat fat = true
same_object cbm cbm = true
same_object uct uct = true
same_object rootdir rootdir = true
same_object a b = false

-- The boot record stands there twice; the clusters heap starts at the third one from the end.
abbrev pub objects : List FsObject
objects = vbr ∷ vbr ∷ fat ∷ cbm ∷ uct ∷ rootdir ∷ []

abbrev pub vbr_alignment : Param → ℕ
vbr_alignment p = get_sector_size p

abbrev pub fat_alignment : Param → ℕ
fat_alignment p = 128 * get_sector_size p

abbrev pub cbm_alignment : Param → ℕ
cbm_alignment p = get_cluster_size p

abbrev pub uct_alignment : Param → ℕ
uct_alignment p = get_cluster_size p

abbrev pub rootdir_alignment : Param → ℕ
rootdir_alignment p = get_cluster_size p

unfoldable pub get_alignment : Param → FsObject → ℕ
get_alignment p vbr = vbr_alignment p
get_alignment p fat = fat_alignment p
get_alignment p cbm = cbm_alignment p
get_alignment p uct = uct_alignment p
get_alignment p rootdir = rootdir_alignment p

unfoldable pub vbr_size : Param → ℕ
vbr_size p = 12 * get_sector_size p

unfoldable pub fat_size : Param → ℕ
fat_size p = p.volume_size / get_cluster_size p * 4

-- The loop of `get_position` with the sizes of the objects; `none` is the call of `exfat_bug`.
unfoldable pub position_from : Param → (FsObject → ℕ) → FsObject → List FsObject → ℕ → Option ℕ
position_from p size object [] position = none
position_from p size object (o ∷ rest) position =
    let here = round_up position (get_alignment p o) in
    let later = position_from p size object rest (here + size o) in
    if same_object o object then some here else later

abbrev pub or_zero : Option ℕ → ℕ
or_zero none = 0
or_zero (some n) = n

-- The sizes of the objects before the clusters heap, which do not depend on positions.
unfoldable pub early_size : Param → FsObject → ℕ
early_size p vbr = vbr_size p
early_size p fat = fat_size p
early_size p cbm = 0
early_size p uct = 0
early_size p rootdir = 0

-- `get_position(&cbm)`, which asks for sizes before the bitmap only.
unfoldable pub cbm_position : Param → ℕ
cbm_position p = or_zero (position_from p (early_size p) cbm objects 0)

unfoldable pub cbm_size : Param → ℕ
cbm_size p = div_round_up ((p.volume_size - cbm_position p) / get_cluster_size p) 8

abbrev pub uct_size : Param → ℕ
uct_size p = length p.upcase_table

-- `rootdir_size`
abbrev pub root_size : Param → ℕ
root_size p = get_cluster_size p

unfoldable pub get_size : Param → FsObject → ℕ
get_size p vbr = vbr_size p
get_size p fat = fat_size p
get_size p cbm = cbm_size p
get_size p uct = uct_size p
get_size p rootdir = root_size p

unfoldable pub get_position : Param → FsObject → Option ℕ
get_position p object = position_from p (get_size p) object objects 0

-- The end of the last object.
unfoldable pub end_from : Param → List FsObject → ℕ → ℕ
end_from p [] position = position
end_from p (o ∷ rest) position =
    end_from p rest (round_up position (get_alignment p o) + get_size p o)

-- Whether the objects fit.
unfoldable pub check_size : Param → ℕ → Bool
check_size p volume_size = if ltb volume_size (end_from p objects 0) then false else true
