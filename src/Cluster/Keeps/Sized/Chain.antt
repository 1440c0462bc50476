-- ===== src/Cluster/Keeps/Sized/Chain.antt =====
-- The actions of libexfat/cluster.c on the chain of a node leave its size as it is.
use nuclear_armageddon.Prelude.{
  ℕ, zero, suc, ◌+◌, ◌-◌, ◌≡◌, refl, Bool, true, false, Option, none, some, List, ltb, u32,
  if◌then◌else◌,
}
use nuclear_armageddon.Result.{Result, ok, err, bug, out_of_fuel}
use nuclear_armageddon.Bitmap.{first_data_cluster}
use nuclear_armageddon.Exfat.{Device, Node, exfat_pread}
use nuclear_armageddon.Cluster.{
  State, M, fat_offset, next_read, exfat_next_cluster, advance_round, advance_loop,
  exfat_advance_cluster, set_next_cluster, make_noncontiguous_round, make_noncontiguous_loop,
  make_noncontiguous, allocate_cluster, free_cluster,
}
use nuclear_armageddon.Cluster.Shrink.{
  or_eio, check_cluster, free_round, free_chain, crop_file, shrink_file,
}
use nuclear_armageddon.Cluster.Grow.{
  give_up, ignore, leave_contiguous, append_cluster, grow_loop, first_previous, grow_file,
}
use nuclear_armageddon.Cluster.Keeps.Sized.{
  SizedBy, Sizes, sized_rules, Sizes-pure, Sizes-fail, Sizes-bug, Sizes-gets, Sizes-set_node,
  Sizes-on_dev, Sizes-cond, Sizes-if, Sizes-bind, by_size, size_if,
}

reset_size :
    (b : Bool) (n : Node)
    → (if b then record n { fptr_index = 0; fptr_cluster = n.start_cluster } else n).size ≡ n.size
reset_size true n = refl
reset_size false n = refl

module _ {D : Type 0} {old : ℕ} where
  pub allocate_cluster-Sizes : (hint : ℕ) → Sizes D old old (allocate_cluster hint)
  unfolding allocate_cluster
  allocate_cluster-Sizes hint = by_size (allocate_cluster hint) (λ s h. size_if _ _ _ h h)

  pub free_cluster-Sizes : (c : ℕ) → Sizes D old old (free_cluster c)
  unfolding free_cluster
  free_cluster-Sizes c = by_size (free_cluster c) (λ s h. size_if _ _ _ h h)

module _ {D : Type 0} ⦃io : Device D⦄ {old : ℕ} where
  next_read_size :
      (o : Option (List ℕ)) (s : State D) → s.node.size ≡ old → (next_read o s).1.node.size ≡ old
  next_read_size none s h = h
  next_read_size (some next) s h = h

  pub exfat_next_cluster-Sizes : (c : ℕ) → Sizes D old old (exfat_next_cluster c)
  unfolding exfat_next_cluster
  exfat_next_cluster-Sizes c = by_size (exfat_next_cluster c) (λ s h.
      size_if (ltb c first_data_cluster) _ _ h (
        size_if s.node.is_contiguous _ _ h
          (next_read_size (exfat_pread 4 (fat_offset s.ef.sb c) s.ef.dev).0 _ h)))

  pub set_next_cluster-Sizes : (b : Bool) (c next : ℕ) → Sizes D old old (set_next_cluster b c next)
  unfolding set_next_cluster
  set_next_cluster-Sizes b c next = by_size (set_next_cluster b c next) (λ s h. size_if b _ _ h h)

  advance_round-Sizes :
      (rest : M D (Unit {0})) → Sizes D old old rest → Sizes D old old (advance_round rest)
  advance_round-Sizes rest k = search (sized_rules, exfat_next_cluster-Sizes) depth 12

  advance_loop-Sizes : (left : ℕ) → Sizes D old old (advance_loop left)
  unfolding advance_loop
  advance_loop-Sizes zero = search sized_rules
  advance_loop-Sizes (suc left) = advance_round-Sizes _ (advance_loop-Sizes left)

  pub exfat_advance_cluster-Sizes : (count : ℕ) → Sizes D old old (exfat_advance_cluster count)
  unfolding exfat_advance_cluster
  exfat_advance_cluster-Sizes count =
      search (sized_rules, advance_loop-Sizes, λ (n : Node). reset_size (ltb count n.fptr_index) n)
        depth 12

  make_noncontiguous_loop-Sizes : (left c : ℕ) → Sizes D old old (make_noncontiguous_loop left c)
  unfolding make_noncontiguous_loop
  make_noncontiguous_loop-Sizes zero c = search sized_rules
  make_noncontiguous_loop-Sizes (suc left) c =
      round (make_noncontiguous_loop left) (make_noncontiguous_loop-Sizes left)
    where
      round :
          (rest : ℕ → M D Bool)
          → ((n : ℕ) → Sizes D old old (rest n))
          → Sizes D old old (make_noncontiguous_round rest c)
      round rest k = search (sized_rules, set_next_cluster-Sizes)

  pub make_noncontiguous-Sizes : (first last : ℕ) → Sizes D old old (make_noncontiguous first last)
  unfolding make_noncontiguous
  make_noncontiguous-Sizes first last = make_noncontiguous_loop-Sizes (last - first) first

  pub or_eio-Sizes : (m : M D Bool) → Sizes D old old m → Sizes D old old (or_eio m)
  or_eio-Sizes m k = search sized_rules

  pub check_cluster-Sizes : (c : ℕ) → Sizes D old old (check_cluster c)
  check_cluster-Sizes c = search sized_rules

  pub ruleset sized_chain = (
    sized_rules, check_cluster-Sizes, exfat_next_cluster-Sizes, or_eio-Sizes,
    set_next_cluster-Sizes, free_cluster-Sizes, exfat_advance_cluster-Sizes, allocate_cluster-Sizes,
    make_noncontiguous-Sizes,
  )

  free_chain-Sizes : (difference c : ℕ) → Sizes D old old (free_chain difference c)
  unfolding free_chain
  free_chain-Sizes zero c = search sized_rules
  free_chain-Sizes (suc difference) c = round (free_chain difference) (free_chain-Sizes difference)
    where
      round :
          (rest : ℕ → M D (Unit {0}))
          → ((n : ℕ) → Sizes D old old (rest n))
          → Sizes D old old (free_round rest c)
      round rest k = search sized_chain depth 12

  crop_file-Sizes : (current difference : ℕ) → Sizes D old old (crop_file current difference)
  unfolding crop_file
  crop_file-Sizes current difference =
      Sizes-if (ltb difference current) _ _ (search sized_chain depth 12)
        (search sized_chain depth 12)

  pub shrink_file-Sizes :
      (current difference : ℕ) → Sizes D old old (shrink_file current difference)
  unfolding shrink_file
  shrink_file-Sizes current difference =
      search (sized_chain, crop_file-Sizes, free_chain-Sizes) depth 12

  ignore-Sizes : (m : M D (Unit {0})) → Sizes D old old m → Sizes D old old (ignore m)
  ignore-Sizes m k = record { at = λ s h. sized (m s).0 (m s).1 (k.at s h) }
    where
      sized :
          (r : Result (Unit {0})) (s : State D)
          → SizedBy old old (r, s)
          → SizedBy old old (ignore (λ t. (r, t)) s)
      sized (ok a) s h = h
      sized (err e) s h = h
      sized bug s h = h
      sized out_of_fuel s h = h

  give_up-Sizes : (current allocated : ℕ) → Sizes D old old (give_up current allocated)
  unfolding give_up
  give_up-Sizes current allocated = search (sized_rules, ignore-Sizes, shrink_file-Sizes) depth 12

  leave_contiguous-Sizes : (previous next : ℕ) → Sizes D old old (leave_contiguous previous next)
  unfolding leave_contiguous
  leave_contiguous-Sizes previous next = search sized_chain depth 12

  append_cluster-Sizes :
      (current allocated previous : ℕ) → Sizes D old old (append_cluster current allocated previous)
  unfolding append_cluster
  append_cluster-Sizes current allocated previous =
      search (sized_chain, give_up-Sizes, leave_contiguous-Sizes) depth 14

  grow_loop-Sizes :
      (left current allocated previous : ℕ)
      → Sizes D old old (grow_loop left current allocated previous)
  unfolding grow_loop
  grow_loop-Sizes zero current allocated previous = search sized_rules
  grow_loop-Sizes (suc left) current allocated previous =
      Sizes-bind (append_cluster current allocated previous) _
        (append_cluster-Sizes current allocated previous)
        (λ next. grow_loop-Sizes left current (u32 (allocated + 1)) next)

  first_previous-Sizes : (current : ℕ) → Sizes D old old (first_previous current)
  unfolding first_previous
  first_previous-Sizes current = search sized_chain depth 16

  pub grow_file-Sizes : (current difference : ℕ) → Sizes D old old (grow_file current difference)
  unfolding grow_file
  grow_file-Sizes current difference =
      search (sized_chain, first_previous-Sizes, grow_loop-Sizes) depth 14
