-- ===== src/Dir/Keeps.antt =====
-- What the actions of libexfat/node.c on the entries of a directory do to the volume.
use native.Mathlib.Nat.{mul-suc, mod-lt}
use nuclear_armageddon.Prelude.{
  ℕ, zero, suc, ◌+◌, ◌-◌, ◌*◌, ◌≤◌, u64, true, false, ◌<◌, ◌≡◌, refl, ap, sym, subst, if◌then◌else◌,
  ◌∙◌, Bool, not, Option, none, some, List, leb, ◌==◌, arith,
}
use nuclear_armageddon.Prelude.Int.{ℤ}
use nuclear_armageddon.Result.{
  Result, Errno, ok, err, bug, out_of_fuel, eilseq, enametoolong, eio, enospc, enoent, einval,
  enomem, eperm, eexist, eisdir, enotdir, enotempty,
}
use nuclear_armageddon.Bitmap.{bmap_get}
use nuclear_armageddon.Exfat.{SuperBlock, Device, cluster_size}
use nuclear_armageddon.Cluster.{State, M, ◌>>◌, pure}
use nuclear_armageddon.Cluster.Allocate.{IsCmap}
use nuclear_armageddon.Cluster.Truncate.{exfat_truncate}
use nuclear_armageddon.Cluster.Keeps.{
  Kept, Kept-if, Keeps, keeps_rules, Keeps-bind, Keeps-gets-bind, Keeps-test, Keeps-cond,
}
use nuclear_armageddon.Cluster.Keeps.Size.{
  rounded-Erasable, Erasable, exfat_truncate-Keeps, exfat_generic_pread-Keeps,
}
use nuclear_armageddon.Dir.{entry_size, as_eio, read_entries}
use nuclear_armageddon.Dir.Slot.{
  Place, checked, check_slot, decide, free_entry, slot_round, slot_loop, find_slot, room_for,
  slot_or_extend,
}

module _ {D : Type 0} ⦃io : Device D⦄ {sb : SuperBlock} where
  as_eio-Keeps : {A : Type 0} (m : M D A) → Keeps D sb m → Keeps D sb (as_eio m)
  as_eio-Keeps {A} m k = record { at = λ s h. kept (m s).0 (m s).1 (k.at s h) }
    where
      kept : (r : Result A) (s : State D) → Kept sb (r, s) → Kept sb (as_eio (λ t. (r, t)) s)
      kept (ok a) s h = (h.0, tt)
      kept (err e) s h = (h.0, tt)
      kept bug s h = h
      kept out_of_fuel s h = absurd h.1

  pub read_entries-Keeps : (now : ℤ) (n offset : ℕ) → Keeps D sb (read_entries now n offset)
  unfolding read_entries
  read_entries-Keeps now n offset =
      search (keeps_rules, as_eio-Keeps, exfat_generic_pread-Keeps) depth 12

  pub check_slot-Keeps :
      (now : ℤ) (is_root : Bool) (offset n : ℕ) → Keeps D sb (check_slot now is_root offset n)
  unfolding check_slot
  check_slot-Keeps now is_root offset n = record {
    at = λ s h.
        Kept-if (not is_root) _ _ (h, tt)
          (kept (read_entries now n offset s).0 (read_entries now n offset s).1
            ((read_entries-Keeps now n offset).at s h));
  }
    where
      kept : (r : Result (List ℕ)) (s : State D) → Kept sb (r, s) → Kept sb (checked (r, s))
      kept (ok a) s h = (h.0, tt)
      kept (err e) s h = (h.0, tt)
      kept bug s h = h
      kept out_of_fuel s h = absurd h.1

-- The rounds that may be left when the run of free entries starts at `start`: those up to the end,
-- and less than `n` for each later start.
abbrev rounds : ℕ → ℕ → ℕ → ℕ → ℕ
rounds total n i start = (total - i) + n * (total - start)

later_start : (n total a b : ℕ) → a ≤ b → n * (total - b) ≤ n * (total - a)
later_start n total a b h = grind arith

next_start : (n total a : ℕ) → a < total → n * (total - a) ≡ n * (total - (a + 1)) + n
next_start n total a h = ap (λ t. n * t) one_more ∙ mul-suc n (total - (a + 1))
  where
    one_more : total - a ≡ suc (total - (a + 1))
    one_more = omega (arith, h)

module _ (total n i start contiguous : ℕ) (more : i < total) (run : start + contiguous ≡ i) where
  rounds_taken : rounds total n (i + 1) (i + 1) < rounds total n i start
  rounds_taken = omega (arith, more, run, later_start n total start (i + 1) (omega (arith, run)))

  rounds_free : rounds total n (i + 1) start < rounds total n i start
  rounds_free = omega (arith, more)

  rounds_back :
      contiguous + 1 ≡ n → rounds total n (i - contiguous + 1) (start + 1) < rounds total n i start
  rounds_back e = omega (arith, more, run, e, next_start n total start (omega (arith, more, run)))

enough : (total n : ℕ) → rounds total n 0 0 < (total + 1) * (n + 1)
enough total n = grind arith

abbrev Rest : (D : Type 0) → Type 0
Rest D = ℕ → ℕ → ℕ → M D (Bool × ℕ × ℕ)

module _ {D : Type 0} ⦃io : Device D⦄ (sb : SuperBlock) (total n : ℕ) where
  -- What the rest of the loop keeps, within a number of rounds.
  abbrev RestKeeps : Rest D → ℕ → Type 0
  RestKeeps rest limit =
      (i start contiguous offset : ℕ)
      → start + contiguous ≡ i
      → rounds total n i start < limit
      → Keeps D sb (rest i contiguous offset)

  module _ (rest : Rest D) (i start contiguous : ℕ) (more : i < total)
      (run : start + contiguous ≡ i) (k : RestKeeps rest (rounds total n i start)) where
    goes_on : (offset : ℕ) → Keeps D sb (rest (i + 1) (contiguous + 1) offset)
    goes_on offset =
        k (i + 1) start (contiguous + 1) offset (omega (arith, run))
          (rounds_free total n i start contiguous more run)

    decide-Keeps :
        (offset : ℕ) (rc : Option Errno)
        → contiguous + 1 ≡ n
        → Keeps D sb (decide rest n i contiguous offset rc)
    decide-Keeps offset none e = search keeps_rules
    decide-Keeps offset (some eio) e = search keeps_rules
    decide-Keeps offset (some einval) e =
        k (i - contiguous + 1) (start + 1) 0 offset (omega (arith, run))
          (rounds_back total n i start contiguous more run e)
    decide-Keeps offset (some eilseq) e = goes_on offset
    decide-Keeps offset (some enametoolong) e = goes_on offset
    decide-Keeps offset (some enospc) e = goes_on offset
    decide-Keeps offset (some enoent) e = goes_on offset
    decide-Keeps offset (some enomem) e = goes_on offset
    decide-Keeps offset (some eperm) e = goes_on offset
    decide-Keeps offset (some eexist) e = goes_on offset
    decide-Keeps offset (some eisdir) e = goes_on offset
    decide-Keeps offset (some enotdir) e = goes_on offset
    decide-Keeps offset (some enotempty) e = goes_on offset

    free_entry-Keeps :
        (now : ℤ) (is_root : Bool) (offset : ℕ)
        → Keeps D sb (free_entry rest now is_root n i contiguous offset)
    free_entry-Keeps now is_root offset =
        Keeps-test (contiguous + 1 == n) _ _
          (λ full.
            Keeps-bind (check_slot now is_root offset n) _ (check_slot-Keeps now is_root offset n)
              (λ rc. decide-Keeps offset rc (ground (arith, full))))
          (λ short. goes_on offset)

  slot_round-Keeps :
      (rest : Rest D) (now : ℤ) (is_root : Bool) (dmap : List ℕ) (i start contiguous offset : ℕ)
      → start + contiguous ≡ i
      → RestKeeps rest (rounds total n i start)
      → Keeps D sb (slot_round rest now is_root dmap total n i contiguous offset)
  slot_round-Keeps rest now is_root dmap i start contiguous offset run k =
      Keeps-test (leb total i) _ _ (λ end. search keeps_rules)
        (λ inside.
          let more : i < total = ground (arith, inside) in
          Keeps-cond (bmap_get dmap i) _ _
            (k (i + 1) (i + 1) 0 offset (omega arith)
              (rounds_taken total n i start contiguous more run))
            (free_entry-Keeps rest i start contiguous more run k now is_root _))

  slot_loop-Keeps :
      (now : ℤ) (is_root : Bool) (dmap : List ℕ) (fuel i start contiguous offset : ℕ)
      → start + contiguous ≡ i
      → rounds total n i start < fuel
      → Keeps D sb (slot_loop now is_root dmap total n fuel i contiguous offset)
  unfolding slot_loop
  slot_loop-Keeps now is_root dmap zero i start contiguous offset run h = elim h [ ]
  slot_loop-Keeps now is_root dmap (suc fuel) i start contiguous offset run h =
      slot_round-Keeps (slot_loop now is_root dmap total n fuel) now is_root dmap i start contiguous
        offset run
        (λ i' start' contiguous' offset' run' less.
          slot_loop-Keeps now is_root dmap fuel i' start' contiguous' offset' run'
            (omega (arith, h, less)))

-- The sum that is rounded up.
abbrev size_up : ℕ → ℕ → ℕ → ℕ
size_up size lack cs = u64 (u64 (size + lack * entry_size) + cs - 1)

module _ {D : Type 0} ⦃io : Device D⦄ {sb : SuperBlock} where
  whole_loop-Keeps :
      (now : ℤ) (is_root : Bool) (dmap : List ℕ) (total n : ℕ)
      → Keeps D sb (slot_loop now is_root dmap total n ((total + 1) * (n + 1)) 0 0 0)
  whole_loop-Keeps now is_root dmap total n =
      slot_loop-Keeps sb total n now is_root dmap ((total + 1) * (n + 1)) 0 0 0 0 (omega arith)
        (enough total n)

  room_for-Keeps :
      (now : ℤ) (size lack offset cs : ℕ)
      → cs ≡ cluster_size sb
      → Keeps D sb (do exfat_truncate now (room_for size lack cs) true; pure offset)
  room_for-Keeps now size lack offset cs e =
      search (keeps_rules, exfat_truncate-Keeps now (room_for size lack cs) true room)
    where
      room : Erasable sb (room_for size lack cs)
      room =
          subst (λ c. Erasable sb (room_for size lack c)) (sym e)
            (rounded-Erasable sb (size_up size lack (cluster_size sb)) (mod-lt _ (omega arith)))

  slot_or_extend-Keeps :
      (now : ℤ) (size n : ℕ) (slot : Bool × ℕ × ℕ) → Keeps D sb (slot_or_extend now size n slot)
  slot_or_extend-Keeps now size n (true, contiguous, offset) = search keeps_rules
  slot_or_extend-Keeps now size n (false, contiguous, offset) =
      let start : ℕ = (if contiguous == 0 then size else offset) in
      Keeps-gets-bind (λ s. cluster_size s.ef.sb)
        (λ cs. exfat_truncate now (room_for size (n - contiguous) cs) true >> pure start)
        (λ s h.
          room_for-Keeps now size (n - contiguous) start (cluster_size s.ef.sb)
            (ap cluster_size h.same))

  pub find_slot-Keeps :
      (now : ℤ) (given is_root : Bool) (children : List Place) (n : ℕ)
      → Keeps D sb (find_slot now given is_root children n)
  unfolding find_slot
  find_slot-Keeps now given is_root children n =
      search (keeps_rules, whole_loop-Keeps, slot_or_extend-Keeps) depth 14

module _ {D : Type 0} ⦃io : Device D⦄ where
  -- From a volume whose bitmap of clusters is well formed, whatever the children are and `calloc` and
  -- the device answer, `find_slot` for `n` entries comes to its end, though it goes back when a slot
  -- is taken, and leaves the super block as it is and a well-formed bitmap, with an error and on the
  -- call of `exfat_bug` too.
  pub find_slot-Kept :
      (now : ℤ) (given is_root : Bool) (children : List Place) (n : ℕ) (s : State D)
      → IsCmap s.ef.cmap
      → Kept s.ef.sb (find_slot now given is_root children n s)
  find_slot-Kept now given is_root children n s h =
      (find_slot-Keeps now given is_root children n).at s record { same = refl; cmap = h }
