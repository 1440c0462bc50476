-- ===== src/Mount.antt =====
-- Parts of libexfat/mount.c that need no store of nodes: the size of the root directory and the
-- search for options, which are strings of bytes without the terminator.
use mathlib.Core.Bool.{cond}
use nuclear_armageddon.Prelude.{
  ℕ, zero, suc, ◌+◌, ◌*◌, Bool, true, false, Option, none, some, List, [], ◌∷◌, ◌==◌, if◌then◌else◌,
  u64,
}
use nuclear_armageddon.Bitmap.{cluster_end}
use nuclear_armageddon.Exfat.{Device, cluster_size, cluster_invalid}
use nuclear_armageddon.Cluster.{M, ◌>>=◌, pure, gets, exfat_next_cluster}

module _ {D : Type 0} ⦃io : Device D⦄ where
  -- The loop with `left` clusters to the number of all; the node of the state is the root. The
  -- result is the number of clusters, and `none` where the C function returns 0.
  pub count_chain : ℕ → ℕ → ℕ → M D (Option ℕ)
  count_chain zero clusters rootdir_cluster = pure none
  count_chain (suc left) clusters rootdir_cluster = do
    invalid ← gets (λ s. cluster_invalid s.ef.sb rootdir_cluster)
    cond invalid (pure none) (do
      next ← exfat_next_cluster rootdir_cluster
      cond (next == cluster_end) (pure (some (clusters + 1)))
          (count_chain left (clusters + 1) next))

  pub rootdir_size : ℕ → M D ℕ
  rootdir_size rootdir_cluster = do
    clusters_max ← gets (λ s. s.ef.sb.cluster_count)
    clusters ← count_chain clusters_max 0 rootdir_cluster
    size ← gets (λ s. cluster_size s.ef.sb)
    pure (elim clusters [ none ↦ 0 | some n ↦ u64 (n * size) ])

-- What follows the name at the start of a string.
pub after_name : List ℕ → List ℕ → Option (List ℕ)
after_name [] s = some s
after_name (c ∷ name) [] = none
after_name (c ∷ name) (d ∷ s) = let rest = after_name name s in if c == d then rest else none

abbrev value_of : Option (List ℕ) → Option (List ℕ)
value_of none = none
value_of (some []) = none
value_of (some (c ∷ value)) = if c == 0x3d then some value else none

abbrev pub ends_option : Option (List ℕ) → Bool
ends_option none = false
ends_option (some []) = true
ends_option (some (c ∷ rest)) = c == 0x2c

-- The loop of `get_option` at a place of the string, which may be the start of an option.
pub get_option_from : Bool → List ℕ → List ℕ → Option (List ℕ)
get_option_from start [] option_name = none
get_option_from start (c ∷ options) option_name =
    let rest = get_option_from (c == 0x2c) options option_name in
    let here = (if start then value_of (after_name option_name (c ∷ options)) else none) in
    elim here [ none ↦ rest | some value ↦ some value ]

pub get_option : List ℕ → List ℕ → Option (List ℕ)
get_option options option_name = get_option_from true options option_name

pub match_option_from : Bool → List ℕ → List ℕ → Bool
match_option_from start [] option_name = false
match_option_from start (c ∷ options) option_name =
    let rest = match_option_from (c == 0x2c) options option_name in
    if start
    then (if ends_option (after_name option_name (c ∷ options)) then true else rest)
    else rest

pub match_option : List ℕ → List ℕ → Bool
match_option options option_name = match_option_from true options option_name
