-- ===== src/Mkfs/Tests.antt =====
-- The layout of a volume of 128 KiB in clusters of one sector.
use nuclear_armageddon.Prelude.{
  ℕ, ◌+◌, ◌*◌, ◌/◌, ◌^◌, ◌≤◌, ◌≡◌, leb, refl, some, none, [], ◌∷◌, replicate, arith, true,
}
use nuclear_armageddon.Mkfs.{
  Param, on_512, cbm, get_cluster_size, get_position, position_from, early_size, cbm_position,
  get_alignment, get_size, vbr_size, fat_size, cbm_size, end_from, check_size,
}
use nuclear_armageddon.Mkfs.Write.{
  fat_sector_start, fat_sector_count, cluster_sector_start, cluster_count,
}
use nuclear_armageddon.Mkfs.Setup.{setup_spc_bits, last_data_cluster}
use nuclear_armageddon.Mkfs.Room.{
  cluster_sector_start-cluster_count, fat_sector_count-cluster_count,
}
use nuclear_armageddon.Mkfs.Chosen.{setup_spc_bits-last_data_cluster}

abbrev pub small_volume : Param
small_volume = record {
  sector_bits = 9;
  spc_bits = 0;
  volume_size = 131072;
  volume_label = replicate 16 0;
  volume_serial = 7;
  first_sector = 0;
  upcase_table = 65 ∷ 0 ∷ [];
}

pub small_fits : check_size (on_512 small_volume) small_volume.volume_size ≡ true
unfolding check_size end_from position_from early_size cbm_position get_position get_alignment
    get_size vbr_size fat_size cbm_size
small_fits = refl

cluster_sector_start-cluster_count_example :
    (get_position (on_512 small_volume) cbm
      ≡ some (cluster_sector_start (on_512 small_volume) * 512))
    × (cluster_sector_start (on_512 small_volume)
        ≡ fat_sector_start (on_512 small_volume) + fat_sector_count (on_512 small_volume))
    × (cluster_sector_start (on_512 small_volume) * 512
          + cluster_count (on_512 small_volume) * get_cluster_size (on_512 small_volume)
        ≤ small_volume.volume_size)
cluster_sector_start-cluster_count_example =
    cluster_sector_start-cluster_count small_volume (omega arith) (omega arith) small_fits

fat_sector_count-cluster_count_example :
    (cluster_count (on_512 small_volume) + 2) * 4 ≤ fat_sector_count (on_512 small_volume) * 512
fat_sector_count-cluster_count_example =
    fat_sector_count-cluster_count small_volume (omega arith) (omega arith) (omega arith) small_fits

setup_spc_bits-last_data_cluster_example :
    (bits : ℕ) × (setup_spc_bits 9 none 8000000000000 ≡ some bits)
    × (8000000000000 / (2 ^ 9 * 2 ^ bits) ≤ last_data_cluster)
    × (leb (9 + bits) 25 ≡ leb 8000000000000 (last_data_cluster * 2 ^ 25))
setup_spc_bits-last_data_cluster_example =
    setup_spc_bits-last_data_cluster 8000000000000 (omega arith)
