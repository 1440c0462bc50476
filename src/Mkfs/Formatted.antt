-- ===== src/Mkfs/Formatted.antt =====
-- What `mkfs` leaves at the start of the volume, on sectors of 512 bytes.
use nuclear_armageddon.Prelude.{
  ℕ, ◌+◌, ◌≤◌, ◌≡◌, refl, sym, ap, ◌∙◌, subst, arith, Bool, true, false, some, [], ◌∷◌, length,
}
use nuclear_armageddon.Exfat.{Stream, IsStream, le32_bytes}
use nuclear_armageddon.Mkfs.{
  on_512, require, Param, vbr, fat, cbm, uct, rootdir, check_size, get_alignment, get_size,
  vbr_size,
}
use nuclear_armageddon.Mkfs.Write.{
  exfat_write, write_sectors, vbr_write, init_sb, words, signature_sector, empty_sector,
}
use nuclear_armageddon.Mkfs.Create.{erase, create, create_from, write_object, exfat_seek, mkfs}
use nuclear_armageddon.Mkfs.Above.{Safe, Above, parts, attempted}
use nuclear_armageddon.Mkfs.Safety.{create_from-Safe}
use nuclear_armageddon.Mkfs.Region.{
  Holds, added, region_sum, Region, length-words, length-init_sb, kept-Holds, kept-Sectors,
  exfat_write-Stored, write_sectors-Repeated,
}

pub length-signature_sector : (p : Param) → length (signature_sector (on_512 p)) ≡ 512
unfolding words le32_bytes
length-signature_sector p = refl

pub length-empty_sector : (p : Param) → length (empty_sector (on_512 p)) ≡ 512
length-empty_sector p = length-words 128 0

module _ {D : Type 0} (view : D → ℕ → ℕ) (place : D → ℕ) ⦃io : Stream D⦄
    (is : IsStream io view place) where
  kept-Region :
      (n : ℕ) (d last : D) (start : ℕ) (p : Param)
      → Above view place n d last
      → start + 6144 ≤ n
      → Region (view d) start p
      → Region (view last) start p
  kept-Region n d last start p above h r = record {
    boot = kept-Holds view place n d last start _ above (omega (arith, h, length-init_sb p)) r.boot;
    signed =
        kept-Sectors view place n d last (start + 512) 8 _ (length-signature_sector p) above
          (omega (arith, h)) r.signed;
    blank =
        kept-Sectors view place n d last (start + 4608) 2 _ (length-empty_sector p) above
          (omega (arith, h)) r.blank;
    final =
        kept-Holds view place n d last (start + 5632) _ above
          (omega (arith, h, length-words 128 (region_sum p))) r.final;
  }

  record Written (start : ℕ) (p : Param) (last : D) : Type 0 where
    region : Region (view last) start p
    moves : place last ≡ start + 6144

  vbr_write-Written :
      (p : Param) (start : ℕ) (d last : D)
      → place d ≡ start
      → vbr_write (on_512 p) d ≡ (some tt, last)
      → Written start p last
  unfolding vbr_write region_sum
  vbr_write-Written p start d last at run =
      let sb = init_sb (on_512 p) in
      let sig = signature_sector (on_512 p) in
      let blank = empty_sector (on_512 p) in
      let p1 = parts (exfat_write sb) _ d tt last run in
      let s1 = exfat_write-Stored view place is sb start d p1.middle at p1.first in
      let p2 = parts (write_sectors 8 sig _) _ p1.middle tt last p1.second in
      let s2 =
        write_sectors-Repeated view place is 8 sig _ (start + 512) p2.value p1.middle p2.middle
          (length-signature_sector p) (s1.moves ∙ ap (λ n. start + n) (length-init_sb p))
          p2.first in
      let p3 = parts (write_sectors 2 blank _) _ p2.middle tt last p2.second in
      let s3 =
        write_sectors-Repeated view place is 2 blank p2.value (start + 4608) p3.value p2.middle
          p3.middle (length-empty_sector p) (s2.moves ∙ omega arith) p3.first in
      let s4 =
        exfat_write-Stored view place is (words 128 p3.value) (start + 5632) p3.middle last
          (s3.moves ∙ omega arith) p3.second in
      record {
        region = record {
          boot =
              kept-Holds view place (start + 5632) p3.middle last start sb s4.above
                (omega (arith, length-init_sb p))
                (kept-Holds view place (start + 4608) p2.middle p3.middle start sb s3.above
                  (omega (arith, length-init_sb p))
                  (kept-Holds view place (start + 512) p1.middle p2.middle start sb s2.above
                    (omega (arith, length-init_sb p)) s1.there));
          signed =
              kept-Sectors view place (start + 5632) p3.middle last (start + 512) 8 sig
                (length-signature_sector p) s4.above (omega arith)
                (kept-Sectors view place (start + 4608) p2.middle p3.middle (start + 512) 8 sig
                  (length-signature_sector p) s3.above (omega arith) s2.there);
          blank =
              kept-Sectors view place (start + 5632) p3.middle last (start + 4608) 2 blank
                (length-empty_sector p) s4.above (omega arith) s3.there;
          final =
              subst (λ c. Holds (view last) (start + 5632) (words 128 c))
                (s3.sums ∙ ap (added 2 blank) s2.sums) s4.there;
        };
        moves = s4.moves ∙ omega (arith, length-words 128 p3.value);
      }

  create-Region :
      (p : Param) (d last : D) → create (on_512 p) d ≡ (some tt, last) → Region (view last) 0 p
  unfolding create create_from write_object get_alignment get_size vbr_size Safe
  create-Region p d last run =
      let p1 = parts (exfat_seek 0) _ d tt last run in
      let at = attempted (io.seek 0) d p1.middle p1.first in
      let p2 = parts (vbr_write (on_512 p)) _ p1.middle tt last p1.second in
      let w =
        vbr_write-Written p 0 p1.middle p2.middle (ap place (sym at.ends) ∙ is.sought 0 d at.done)
          p2.first in
      let above =
        create_from-Safe view place 6144 is p (vbr ∷ fat ∷ cbm ∷ uct ∷ rootdir ∷ []) 6144
          (omega arith) p2.middle tt last (omega (arith, w.moves)) p2.second in
      kept-Region 6144 p2.middle last 0 p above (omega arith) w.region

  accepted : (b : Bool) (d middle : D) → require b d ≡ (some tt, middle) → b ≡ true
  accepted true d middle run = refl
  accepted false d middle run = cc

  pub record Formatted (p : Param) (volume_size : ℕ) (last : D) : Type 0 where
    pub fits : check_size (on_512 p) volume_size ≡ true
    pub region : Region (view last) 0 p

  pub mkfs-Formatted :
      (p : Param) (volume_size : ℕ) (d last : D)
      → mkfs (on_512 p) volume_size d ≡ (some tt, last)
      → Formatted p volume_size last
  unfolding mkfs
  mkfs-Formatted p volume_size d last run =
      let p1 = parts (require (check_size (on_512 p) volume_size)) _ d tt last run in
      let p2 = parts (erase (on_512 p)) _ p1.middle tt last p1.second in
      let p3 = parts (create (on_512 p)) _ p2.middle tt last p2.second in
      let at = attempted io.sync p3.middle last p3.second in
      record {
        fits = accepted (check_size (on_512 p) volume_size) d p1.middle p1.first;
        region =
            subst (λ v. Region v 0 p) (sym (is.sync_kept p3.middle) ∙ ap view at.ends)
              (create-Region p p2.middle p3.middle p3.first);
      }
