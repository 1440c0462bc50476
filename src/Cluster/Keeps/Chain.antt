-- ===== src/Cluster/Keeps/Chain.antt =====
-- The actions of libexfat/cluster.c on the chain of a node keep the volume well formed: links,
-- single clusters, shrinking and growing.
use nuclear_armageddon.Prelude.{
  ℕ, zero, suc, ◌+◌, ◌-◌, Bool, Option, none, some, List, ltb, leb, u32, sub32,
}
use nuclear_armageddon.Result.{Result, ok, err, bug, out_of_fuel}
use nuclear_armageddon.Bitmap.{first_data_cluster}
use nuclear_armageddon.Bitmap.Laws.{IsBitmap, bmap_set-IsBitmap, bmap_clr-IsBitmap}
use nuclear_armageddon.Exfat.{SuperBlock, Device, le32_bytes, exfat_pread, exfat_pwrite}
use nuclear_armageddon.Cluster.{
  State, M, ◌>>=◌, on_dev, fat_offset, next_read, exfat_next_cluster, advance_round, advance_loop,
  exfat_advance_cluster, set_next_cluster, make_noncontiguous_round, make_noncontiguous_loop,
  make_noncontiguous, allocate_cluster, free_cluster,
}
use nuclear_armageddon.Cluster.Allocate.{
  with_chunk, allocate_cluster-Allocated, Allocated, one, full,
}
use nuclear_armageddon.Cluster.Shrink.{
  or_eio, check_cluster, free_round, free_chain, crop_file, shrink_file,
}
use nuclear_armageddon.Cluster.Grow.{
  give_up, ignore, leave_contiguous, append_cluster, grow_loop, first_previous, grow_file,
}
use nuclear_armageddon.Cluster.Keeps.{
  IsVolume, Ends, Kept, Kept-if, Keeps, keeps_rules, Keeps-if, Keeps-bind, Keeps-on_dev,
}

module _ {D : Type 0} {sb : SuperBlock} where
  pub set_cmap-IsVolume :
      (s : State D) (chunk : List ℕ)
      → IsVolume sb s
      → IsBitmap chunk s.ef.cmap.size
      → IsVolume sb (with_chunk s chunk)
  set_cmap-IsVolume s chunk h bits = record {
    same = h.same;
    cmap = record { whole = h.cmap.whole; small = h.cmap.small; bits = bits };
  }

  pub allocate_cluster-Keeps : (hint : ℕ) → Keeps D sb (allocate_cluster hint)
  allocate_cluster-Keeps hint = record {
    at = λ s h. kept s h (allocate_cluster hint s) (allocate_cluster-Allocated hint s h.cmap);
  }
    where
      kept : (s : State D) → IsVolume sb s → (r : Result ℕ × State D) → Allocated s r → Kept sb r
      kept s h r (one c l clear e) = rw e (
        set_cmap-IsVolume s _ h (bmap_set-IsBitmap s.ef.cmap.chunk s.ef.cmap.size h.cmap.bits c),
        tt,
      )
      kept s h r (full all e) = rw e (h, tt)

  pub free_cluster-Keeps : (c : ℕ) → Keeps D sb (free_cluster c)
  unfolding free_cluster
  free_cluster-Keeps c = record {
    at = λ s h.
        Kept-if (leb s.ef.cmap.size (sub32 c first_data_cluster)) _ _ (h, tt)
          (
            set_cmap-IsVolume s _ h (
                bmap_clr-IsBitmap s.ef.cmap.chunk s.ef.cmap.size h.cmap.bits
                  (sub32 c first_data_cluster)),
            tt,
          );
  }

module _ {D : Type 0} ⦃io : Device D⦄ {sb : SuperBlock} where
  next_read-Keeps : (o : Option (List ℕ)) → Keeps D sb (next_read o)
  next_read-Keeps none = search keeps_rules
  next_read-Keeps (some next) = search keeps_rules

  next_entry : (offset : ℕ) → Keeps D sb (on_dev (exfat_pread 4 offset) >>= next_read)
  next_entry offset = search (keeps_rules, next_read-Keeps)

  pub exfat_next_cluster-Keeps : (c : ℕ) → Keeps D sb (exfat_next_cluster c)
  unfolding exfat_next_cluster
  exfat_next_cluster-Keeps c = record {
    at = λ s h.
        Kept-if (ltb c first_data_cluster) _ _ (h, tt)
          (Kept-if s.node.is_contiguous _ _ (h, tt) ((next_entry (fat_offset s.ef.sb c)).at s h));
  }

  pub set_next_cluster-Keeps : (b : Bool) (c next : ℕ) → Keeps D sb (set_next_cluster b c next)
  unfolding set_next_cluster
  set_next_cluster-Keeps b c next = record {
    at = λ s h.
        Kept-if b _ _ (h, tt)
          ((Keeps-on_dev (exfat_pwrite (le32_bytes next) (fat_offset s.ef.sb c))).at s h);
  }

  advance_round-Keeps : (rest : M D (Unit {0})) → Keeps D sb rest → Keeps D sb (advance_round rest)
  advance_round-Keeps rest k = search (keeps_rules, exfat_next_cluster-Keeps) depth 12

  advance_loop-Keeps : (left : ℕ) → Keeps D sb (advance_loop left)
  unfolding advance_loop
  advance_loop-Keeps zero = search keeps_rules
  advance_loop-Keeps (suc left) = advance_round-Keeps _ (advance_loop-Keeps left)

  pub exfat_advance_cluster-Keeps : (count : ℕ) → Keeps D sb (exfat_advance_cluster count)
  unfolding exfat_advance_cluster
  exfat_advance_cluster-Keeps count = search (keeps_rules, advance_loop-Keeps)

  make_noncontiguous_loop-Keeps : (left c : ℕ) → Keeps D sb (make_noncontiguous_loop left c)
  unfolding make_noncontiguous_loop
  make_noncontiguous_loop-Keeps zero c = search keeps_rules
  make_noncontiguous_loop-Keeps (suc left) c =
      round (make_noncontiguous_loop left) (make_noncontiguous_loop-Keeps left)
    where
      round :
          (rest : ℕ → M D Bool)
          → ((n : ℕ) → Keeps D sb (rest n))
          → Keeps D sb (make_noncontiguous_round rest c)
      round rest k = search (keeps_rules, set_next_cluster-Keeps)

  pub make_noncontiguous-Keeps : (first last : ℕ) → Keeps D sb (make_noncontiguous first last)
  unfolding make_noncontiguous
  make_noncontiguous-Keeps first last = make_noncontiguous_loop-Keeps (last - first) first

  pub or_eio-Keeps : (m : M D Bool) → Keeps D sb m → Keeps D sb (or_eio m)
  or_eio-Keeps m k = search keeps_rules

  pub check_cluster-Keeps : (c : ℕ) → Keeps D sb (check_cluster c)
  check_cluster-Keeps c = search keeps_rules

  free_chain-Keeps : (difference c : ℕ) → Keeps D sb (free_chain difference c)
  unfolding free_chain
  free_chain-Keeps zero c = search keeps_rules
  free_chain-Keeps (suc difference) c = round (free_chain difference) (free_chain-Keeps difference)
    where
      round :
          (rest : ℕ → M D (Unit {0}))
          → ((n : ℕ) → Keeps D sb (rest n))
          → Keeps D sb (free_round rest c)
      round rest k =
          search
            (
              keeps_rules, check_cluster-Keeps, exfat_next_cluster-Keeps, or_eio-Keeps,
              set_next_cluster-Keeps, free_cluster-Keeps,
            )
            depth 12

  pub ruleset chain_rules = (
    keeps_rules, check_cluster-Keeps, exfat_next_cluster-Keeps, or_eio-Keeps,
    set_next_cluster-Keeps, free_cluster-Keeps, exfat_advance_cluster-Keeps, allocate_cluster-Keeps,
    make_noncontiguous-Keeps,
  )

  crop_file-Keeps : (current difference : ℕ) → Keeps D sb (crop_file current difference)
  unfolding crop_file
  crop_file-Keeps current difference =
      Keeps-if (ltb difference current) _ _ (search chain_rules depth 12)
        (search chain_rules depth 12)

  pub shrink_file-Keeps : (current difference : ℕ) → Keeps D sb (shrink_file current difference)
  unfolding shrink_file
  shrink_file-Keeps current difference =
      search (chain_rules, crop_file-Keeps, free_chain-Keeps) depth 12

  -- Also where its return code is not looked at.
  ignore-Keeps : (m : M D (Unit {0})) → Keeps D sb m → Keeps D sb (ignore m)
  ignore-Keeps m k = record { at = λ s h. kept (m s).0 (m s).1 (k.at s h) }
    where
      kept :
          (r : Result (Unit {0})) (s : State D) → Kept sb (r, s) → Kept sb (ignore (λ t. (r, t)) s)
      kept (ok a) s h = (h.0, tt)
      kept (err e) s h = (h.0, tt)
      kept bug s h = h
      kept out_of_fuel s h = absurd h.1

  give_up-Keeps : (current allocated : ℕ) → Keeps D sb (give_up current allocated)
  unfolding give_up
  give_up-Keeps current allocated = search (keeps_rules, ignore-Keeps, shrink_file-Keeps) depth 12

  leave_contiguous-Keeps : (previous next : ℕ) → Keeps D sb (leave_contiguous previous next)
  unfolding leave_contiguous
  leave_contiguous-Keeps previous next = search chain_rules depth 12

  append_cluster-Keeps :
      (current allocated previous : ℕ) → Keeps D sb (append_cluster current allocated previous)
  unfolding append_cluster
  append_cluster-Keeps current allocated previous =
      search (chain_rules, give_up-Keeps, leave_contiguous-Keeps) depth 14

  grow_loop-Keeps :
      (left current allocated previous : ℕ) → Keeps D sb (grow_loop left current allocated previous)
  unfolding grow_loop
  grow_loop-Keeps zero current allocated previous = search keeps_rules
  grow_loop-Keeps (suc left) current allocated previous =
      Keeps-bind (append_cluster current allocated previous) _
        (append_cluster-Keeps current allocated previous)
        (λ next. grow_loop-Keeps left current (u32 (allocated + 1)) next)

  first_previous-Keeps : (current : ℕ) → Keeps D sb (first_previous current)
  unfolding first_previous
  first_previous-Keeps current = search chain_rules depth 16

  pub grow_file-Keeps : (current difference : ℕ) → Keeps D sb (grow_file current difference)
  unfolding grow_file
  grow_file-Keeps current difference =
      search (chain_rules, first_previous-Keeps, grow_loop-Keeps) depth 14
