-- ===== src/Mkfs/Region.antt =====
-- The boot region as `vbr_write` leaves it, on sectors of 512 bytes.
use nuclear_armageddon.Prelude.{
  ℕ, zero, suc, ◌+◌, ◌*◌, ◌≤◌, ◌≡◌, refl, sym, ap, ◌∙◌, arith, some, List, length, length-append,
}
use nuclear_armageddon.Exfat.{le32_bytes, Stream, IsStream, read_bytes, write_bytes}
use nuclear_armageddon.Exfat.Bytes.{length-le32_bytes, read_bytes-write_bytes, read_bytes-eq}
use nuclear_armageddon.Checksum.{exfat_vbr_start_checksum, exfat_vbr_add_checksum}
use nuclear_armageddon.Mkfs.{on_512, Param, or_zero}
use nuclear_armageddon.Mkfs.Write.{
  exfat_write, write_sectors, init_sb, words, signature_sector, empty_sector,
}
use nuclear_armageddon.Mkfs.Above.{Safe, Above, parts, attempted, write-Safe}
use nuclear_armageddon.Mkfs.Safety.{write_sectors-Safe}

-- The bytes at a place are those of a buffer.
unfoldable pub Holds : (ℕ → ℕ) → ℕ → List ℕ → Type 0
Holds bytes offset buffer = read_bytes bytes (length buffer) offset ≡ buffer

-- A number of copies of a sector.
unfoldable pub Sectors : (ℕ → ℕ) → ℕ → ℕ → List ℕ → Type 0
Sectors bytes offset zero sector = Unit
Sectors bytes offset (suc left) sector =
    Holds bytes offset sector × Sectors bytes (offset + 512) left sector

unfoldable pub added : ℕ → List ℕ → ℕ → ℕ
added zero sector checksum = checksum
added (suc left) sector checksum = added left sector (exfat_vbr_add_checksum sector checksum)

unfoldable pub region_sum : Param → ℕ
region_sum p =
    added 2 (empty_sector (on_512 p))
      (added 8 (signature_sector (on_512 p)) (exfat_vbr_start_checksum (init_sb (on_512 p))))

pub record Region (bytes : ℕ → ℕ) (start : ℕ) (p : Param) : Type 0 where
  pub boot : Holds bytes start (init_sb (on_512 p))
  pub signed : Sectors bytes (start + 512) 8 (signature_sector (on_512 p))
  pub blank : Sectors bytes (start + 4608) 2 (empty_sector (on_512 p))
  pub final : Holds bytes (start + 5632) (words 128 (region_sum p))

pub length-words : (n w : ℕ) → length (words n w) ≡ n * 4
unfolding words
length-words zero w = refl
length-words (suc n) w =
    length-append (le32_bytes w) (words n w) ∙ omega (arith, length-words n w, length-le32_bytes w)

pub length-init_sb : (p : Param) → length (init_sb (on_512 p)) ≡ 512
unfolding init_sb le32_bytes
length-init_sb p = refl

module _ {D : Type 0} (view : D → ℕ → ℕ) (place : D → ℕ) where
  pub kept-Holds :
      (n : ℕ) (d last : D) (offset : ℕ) (buffer : List ℕ)
      → Above view place n d last
      → offset + length buffer ≤ n
      → Holds (view d) offset buffer
      → Holds (view last) offset buffer
  unfolding Holds
  kept-Holds n d last offset buffer above h here =
      read_bytes-eq (view last) (view d) (length buffer) offset
        (λ o l u. above.kept o (omega (arith, h, u)))
      ∙ here

  pub kept-Sectors :
      (n : ℕ) (d last : D) (offset left : ℕ) (sector : List ℕ)
      → length sector ≡ 512
      → Above view place n d last
      → offset + left * 512 ≤ n
      → Sectors (view d) offset left sector
      → Sectors (view last) offset left sector
  unfolding Sectors
  kept-Sectors n d last offset zero sector size above h here = tt
  kept-Sectors n d last offset (suc left) sector size above h here = (
    kept-Holds n d last offset sector above (omega (arith, h, size)) here.0,
    kept-Sectors n d last (offset + 512) left sector size above (omega (arith, h)) here.1,
  )

  module _ ⦃io : Stream D⦄ (is : IsStream io view place) where
    -- A buffer that is written stands at the place where the device was.
    pub record Stored (start : ℕ) (buffer : List ℕ) (d last : D) : Type 0 where
      pub there : Holds (view last) start buffer
      pub moves : place last ≡ start + length buffer
      pub above : Above view place start d last

    pub exfat_write-Stored :
        (buffer : List ℕ) (start : ℕ) (d last : D)
        → place d ≡ start
        → exfat_write buffer d ≡ (some tt, last)
        → Stored start buffer d last
    unfolding Holds Safe
    exfat_write-Stored buffer start d last at run =
        let s = attempted (io.write buffer) d last run in
        record {
          there =
              ap (λ x. read_bytes (view x) (length buffer) start) (sym s.ends)
              ∙ ap (λ f. read_bytes f (length buffer) start) (is.stored buffer d s.done)
              ∙ ap (λ o. read_bytes (write_bytes (view d) buffer o) (length buffer) start) at
              ∙ read_bytes-write_bytes buffer (view d) start;
          moves = ap place (sym s.ends) ∙ is.moved buffer d s.done ∙ ap (λ o. o + length buffer) at;
          above = write-Safe view place start io is buffer d tt last (omega (arith, at)) run;
        }

    pub record Repeated (start left : ℕ) (sector : List ℕ) (checksum c : ℕ) (d last : D)
        : Type 0 where
      pub there : Sectors (view last) start left sector
      pub moves : place last ≡ start + left * 512
      pub sums : c ≡ added left sector checksum
      pub above : Above view place start d last

    pub write_sectors-Repeated :
        (left : ℕ) (sector : List ℕ) (checksum start c : ℕ) (d last : D)
        → length sector ≡ 512
        → place d ≡ start
        → write_sectors left sector checksum d ≡ (some c, last)
        → Repeated start left sector checksum c d last
    unfolding write_sectors added Sectors Safe
    write_sectors-Repeated zero sector checksum start c d last size at run = record {
      there = tt;
      moves = ap (λ r. place r.1) (sym run) ∙ at ∙ omega arith;
      sums = ap (λ r. or_zero r.0) (sym run);
      above =
          write_sectors-Safe view place start is zero sector checksum d c last (omega (arith, at))
            run;
    }
    write_sectors-Repeated (suc left) sector checksum start c d last size at run =
        let p = parts (exfat_write sector) _ d c last run in
        let s = exfat_write-Stored sector start d p.middle at p.first in
        let r =
          write_sectors-Repeated left sector (exfat_vbr_add_checksum sector checksum) (start + 512)
            c p.middle last size (s.moves ∙ ap (λ n. start + n) size) p.second in
        record {
          there = (
            kept-Holds (start + 512) p.middle last start sector r.above (omega (arith, size))
                s.there,
            r.there,
          );
          moves = r.moves ∙ omega arith;
          sums = r.sums;
          above =
              write_sectors-Safe view place start is (suc left) sector checksum d c last
                (omega (arith, at)) run;
        }
