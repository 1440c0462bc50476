-- ===== src/Cluster/Used.antt =====
-- `find_used_clusters` and `exfat_find_used_sectors` of libexfat/cluster.c.
use nuclear_armageddon.Prelude.{
  ℕ, zero, suc, ◌+◌, ◌-◌, ◌/◌, not, ◌&&◌, ◌||◌, Option, none, some, List, leb, ◌==◌, if◌then◌else◌,
  u32, sub32,
}
use nuclear_armageddon.Result.{Result, ok, bug}
use nuclear_armageddon.Bitmap.{bmap_get, first_data_cluster}
use nuclear_armageddon.Exfat.{Exfat, sector_size, cluster_size}
use nuclear_armageddon.Cluster.{c2s, s2c}

-- The first loop at cluster `a` with `left` rounds to go.
pub find_used : List ℕ → ℕ → ℕ → ℕ
find_used bitmap zero a = a
find_used bitmap (suc left) a =
    let rest = find_used bitmap left (a + 1) in
    if bmap_get bitmap (sub32 a first_data_cluster) then a else rest

-- The second loop at cluster `b`.
pub find_unused : List ℕ → ℕ → ℕ → ℕ
find_unused bitmap zero b = b
find_unused bitmap (suc left) b =
    let rest = find_unused bitmap left (b + 1) in
    if bmap_get bitmap (sub32 b first_data_cluster) then rest else sub32 b 1

-- The clusters `*a` and `*b` from the old `*b`; `none` is the result 1.
pub find_used_clusters : {D : Type 0} → Exfat D → ℕ → Option (ℕ × ℕ)
find_used_clusters ef b =
    let end = ef.sb.cluster_count in
    let start = u32 (b + 1) in
    let a' = find_used ef.cmap.chunk (end - start) start in
    if leb end a' then none else some (a', find_unused ef.cmap.chunk (end - a') a')

abbrev sectors : {D : Type 0} → Exfat D → ℕ → ℕ → ℕ → ℕ → Result (Option (ℕ × ℕ))
sectors ef a b ca cb = elim (c2s ef.sb ca) [
  | none ↦ bug
  | some first ↦ elim (c2s ef.sb cb) [
    | none ↦ bug
    | some last ↦ ok (
        some (
          (if not (a == 0) || not (b == 0) then first else a),
          last + (cluster_size ef.sb - 1) / sector_size ef.sb,
        ))
  ]
]

-- The sectors `*a` and `*b` from the old ones; `none` is the result 1.
pub exfat_find_used_sectors : {D : Type 0} → Exfat D → ℕ → ℕ → Result (Option (ℕ × ℕ))
exfat_find_used_sectors ef a b =
    let cb = (if (a == 0) && (b == 0) then first_data_cluster - 1 else s2c ef.sb b) in
    elim (find_used_clusters ef cb) [ none ↦ ok none | some (ca', cb') ↦ sectors ef a b ca' cb' ]
