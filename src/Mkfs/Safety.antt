-- ===== src/Mkfs/Safety.antt =====
-- Each object of a new volume is written from its place on.
use mathlib.Core.Bool.{cond}
use native.Mathlib.Nat.{le_trans}
use nuclear_armageddon.Prelude.{
  ℕ, zero, suc, ◌+◌, ◌≤◌, arith, Bool, true, false, Option, none, some, List, [], ◌∷◌, ◌==◌, length,
  u32,
}
use nuclear_armageddon.Exfat.{Stream, IsStream}
use nuclear_armageddon.Mkfs.{
  on_512, W, ◌>>=◌, Param, FsObject, vbr, fat, cbm, uct, rootdir, round_up, get_alignment,
}
use nuclear_armageddon.Mkfs.Write.{
  exfat_write, write_sectors, vbr_write, fat_write_entry, fat_write_links, fat_write_entries,
  fat_write, cbm_write, uct_write, write_some, rootdir_write, init_label_entry,
}
use nuclear_armageddon.Mkfs.Create.{write_object, create_from}
use nuclear_armageddon.Mkfs.Layout.{le-round_up}
use nuclear_armageddon.Mkfs.Room.{alignment_pos}
use nuclear_armageddon.Mkfs.Above.{Safe, then-Safe, pure-Safe, stop-Safe, write-Safe, seek-Safe}

from_here :
    {n : ℕ} (p : Param) (o : FsObject) (position : ℕ)
    → n ≤ position
    → n ≤ round_up position (get_alignment (on_512 p) o)
from_here p o position h =
    le_trans h (le-round_up position (get_alignment (on_512 p) o) (alignment_pos p o))

module _ {D : Type 0} ⦃io : Stream D⦄ (view : D → ℕ → ℕ) (place : D → ℕ) (n : ℕ)
    (is : IsStream io view place) where
  keep_writing :
      {B : Type 0} (buffer : List ℕ) (f : Unit {0} → W D B)
      → ((u : Unit {0}) → Safe view place n (f u))
      → Safe view place n (exfat_write buffer >>= f)
  keep_writing buffer f h =
      then-Safe view place n (exfat_write buffer) f (write-Safe view place n io is buffer) h

  pub write_sectors-Safe :
      (left : ℕ) (sector : List ℕ) (checksum : ℕ)
      → Safe view place n (write_sectors left sector checksum)
  unfolding write_sectors
  write_sectors-Safe zero sector checksum = pure-Safe view place n checksum
  write_sectors-Safe (suc left) sector checksum =
      keep_writing sector _ (λ u. write_sectors-Safe left sector _)

  vbr_write-Safe : (p : Param) → Safe view place n (vbr_write p)
  unfolding vbr_write
  vbr_write-Safe p = keep_writing _ _ (λ u.
      then-Safe view place n _ _ (write_sectors-Safe 8 _ _) (λ checksum.
        then-Safe view place n _ _ (write_sectors-Safe 2 _ checksum)
          (λ sum. write-Safe view place n io is _)))

  either-Safe :
      {A : Type 0} (b : Bool) (x y : W D A)
      → Safe view place n x
      → Safe view place n y
      → Safe view place n (cond b x y)
  either-Safe true x y hx hy = hx
  either-Safe false x y hx hy = hy

  fat_write_entry-Safe : (cluster value : ℕ) → Safe view place n (fat_write_entry cluster value)
  unfolding fat_write_entry
  fat_write_entry-Safe cluster value = keep_writing _ _ (λ u.
      either-Safe (u32 (cluster + 1) == 0) _ _ (stop-Safe view place n _)
        (pure-Safe view place n _))

  fat_write_links-Safe : (left cluster : ℕ) → Safe view place n (fat_write_links left cluster)
  unfolding fat_write_links
  fat_write_links-Safe zero cluster = pure-Safe view place n cluster
  fat_write_links-Safe (suc left) cluster =
      then-Safe view place n _ _ (fat_write_entry-Safe cluster _)
        (λ next. fat_write_links-Safe left next)

  fat_write_entries-Safe :
      (p : Param) (cluster length : ℕ) → Safe view place n (fat_write_entries p cluster length)
  unfolding fat_write_entries
  fat_write_entries-Safe p cluster length =
      then-Safe view place n _ _ (fat_write_links-Safe _ cluster)
        (λ last. fat_write_entry-Safe last _)

  fat_write-Safe : (p : Param) → Safe view place n (fat_write p)
  unfolding fat_write
  fat_write-Safe p = then-Safe view place n _ _ (fat_write_entry-Safe 0 _) (λ media.
      then-Safe view place n _ _ (fat_write_entry-Safe media _) (λ first.
        then-Safe view place n _ _ (fat_write_entries-Safe p first _) (λ after_cbm.
          then-Safe view place n _ _ (fat_write_entries-Safe p after_cbm _) (λ after_uct.
            then-Safe view place n _ _ (fat_write_entries-Safe p after_uct _)
              (λ end. pure-Safe view place n tt)))))

  write_some-Safe : (entry : Option (List ℕ)) → Safe view place n (write_some entry)
  write_some-Safe none = stop-Safe view place n _
  write_some-Safe (some entry) = write-Safe view place n io is entry

  rootdir_write-Safe : (p : Param) → Safe view place n (rootdir_write p)
  unfolding rootdir_write
  rootdir_write-Safe p =
      then-Safe view place n _ _ (write_some-Safe (init_label_entry p.volume_label))
        (λ u. keep_writing _ _ (λ v. write-Safe view place n io is _))

  write_object-Safe : (p : Param) (o : FsObject) → Safe view place n (write_object p o)
  unfolding write_object cbm_write uct_write
  write_object-Safe p vbr = vbr_write-Safe p
  write_object-Safe p fat = fat_write-Safe p
  write_object-Safe p cbm = write-Safe view place n io is _
  write_object-Safe p uct = write-Safe view place n io is _
  write_object-Safe p rootdir = rootdir_write-Safe p

  pub create_from-Safe :
      (p : Param) (os : List FsObject) (position : ℕ)
      → n ≤ position
      → Safe view place n (create_from (on_512 p) os position)
  unfolding create_from
  create_from-Safe p [] position h = pure-Safe view place n tt
  create_from-Safe p (o ∷ rest) position h =
      then-Safe view place n _ _ (seek-Safe view place n io is _ (from_here p o position h)) (λ u.
        then-Safe view place n _ _ (write_object-Safe (on_512 p) o)
          (λ v. create_from-Safe p rest _ (omega (arith, from_here p o position h))))
