-- ===== src/Dir/Slot.antt =====
-- `check_slot` and `find_slot` of libexfat/node.c: room for new entries in a directory.
use mathlib.Core.Bool.{cond}
use nuclear_armageddon.Prelude.{
  ℕ, zero, suc, ◌+◌, ◌-◌, ◌*◌, ◌/◌, ◌%◌, bit_and, Bool, true, false, not, ◌&&◌, Option, none, some,
  List, [], ◌∷◌, leb, ◌==◌, if◌then◌else◌, replicate, u64,
}
use nuclear_armageddon.Prelude.Int.{ℤ}
use nuclear_armageddon.Result.{Result, Errno, ok, err, bug, out_of_fuel, eio, einval, enomem}
use nuclear_armageddon.Bitmap.{bmap_get, bmap_set}
use nuclear_armageddon.Exfat.{Device, cluster_size}
use nuclear_armageddon.Cluster.{State, M, ◌>>=◌, ◌>>◌, pure, fail, gets}
use nuclear_armageddon.Cluster.Truncate.{bmap_size, exfat_truncate}
use nuclear_armageddon.Dir.{entry_size, read_entries}

-- A child's place: the offset of its first entry and how many more follow.
pub record Place : Type 0 where
  pub entry_offset : ℕ
  pub continuations : ℕ

-- The types of the entries are the bytes at multiples of their size; `i` counts the bytes.
pub any_valid : ℕ → List ℕ → Bool
any_valid i [] = false
any_valid i (b ∷ bytes) =
    let rest = any_valid (i + 1) bytes in
    if (i % entry_size == 0) && not (bit_and b 0x80 == 0) then true else rest

-- The bits from `index` on, as many as the first argument says.
pub set_run : ℕ → ℕ → List ℕ → List ℕ
set_run zero index dmap = dmap
set_run (suc left) index dmap = set_run left (index + 1) (bmap_set dmap index)

-- The bitmap of valid entries.
pub mark_children : List Place → List ℕ → List ℕ
mark_children [] dmap = dmap
mark_children (p ∷ children) dmap =
    mark_children children (set_run (1 + p.continuations) (p.entry_offset / entry_size) dmap)

-- ROUND_UP(size + sizeof(struct exfat_entry[lack]), CLUSTER_SIZE), in 64 bits.
abbrev pub room_for : ℕ → ℕ → ℕ → ℕ
room_for size lack cs = u64 (u64 (u64 (size + lack * entry_size) + cs - 1) / cs * cs)

module _ {D : Type 0} ⦃io : Device D⦄ where
  abbrev pub checked : Result (List ℕ) × State D → Result (Option Errno) × State D
  checked (ok entries, s) = (ok (if any_valid 0 entries then some einval else none), s)
  checked (err e, s) = (ok (some e), s)
  checked (bug, s) = (bug, s)
  checked (out_of_fuel, s) = (out_of_fuel, s)

  -- The error that is returned, if any.
  unfoldable pub check_slot : ℤ → Bool → ℕ → ℕ → M D (Option Errno)
  check_slot now is_root offset n s =
      if not is_root then (ok none, s) else checked (read_entries now n offset s)

  -- What is done once as many free entries are found as are needed.
  abbrev pub decide :
      (ℕ → ℕ → ℕ → M D (Bool × ℕ × ℕ)) → ℕ → ℕ → ℕ → ℕ → Option Errno → M D (Bool × ℕ × ℕ)
  decide rest n i contiguous start none = pure (true, n, start)
  decide rest n i contiguous start (some eio) = fail eio
  decide rest n i contiguous start (some einval) = rest (i - contiguous + 1) 0 start
  decide rest n i contiguous start (some e) = rest (i + 1) (contiguous + 1) start

  -- A free entry at `i`, which starts a slot or makes it longer.
  abbrev pub free_entry :
      (ℕ → ℕ → ℕ → M D (Bool × ℕ × ℕ)) → ℤ → Bool → ℕ → ℕ → ℕ → ℕ → M D (Bool × ℕ × ℕ)
  free_entry rest now is_root n i contiguous start =
      cond (contiguous + 1 == n)
        (do rc ← check_slot now is_root start n; decide rest n i contiguous start rc)
        (rest (i + 1) (contiguous + 1) start)

  abbrev pub slot_round :
      (ℕ → ℕ → ℕ → M D (Bool × ℕ × ℕ)) → ℤ → Bool → List ℕ → ℕ → ℕ → ℕ → ℕ → ℕ → M D (Bool × ℕ × ℕ)
  slot_round rest now is_root dmap total n i contiguous offset =
      cond (leb total i) (pure (false, contiguous, offset)) (
        cond (bmap_get dmap i) (rest (i + 1) 0 offset) (
          free_entry rest now is_root n i contiguous
            (if contiguous == 0 then i * entry_size else offset)))

  -- The loop at entry `i` of `total`, with the entries free before it and where they start. The
  -- result tells whether a slot is found. It may go back to the entry after a start that is given
  -- up, so that there are less than `n` rounds for each start.
  unfoldable pub slot_loop : ℤ → Bool → List ℕ → ℕ → ℕ → ℕ → ℕ → ℕ → ℕ → M D (Bool × ℕ × ℕ)
  slot_loop now is_root dmap total n zero i contiguous offset = λ s. (out_of_fuel, s)
  slot_loop now is_root dmap total n (suc fuel) i contiguous offset =
      slot_round (slot_loop now is_root dmap total n fuel) now is_root dmap total n i contiguous
        offset

  -- After the loop: the slot that is found, or the directory made longer.
  abbrev pub slot_or_extend : ℤ → ℕ → ℕ → Bool × ℕ × ℕ → M D ℕ
  slot_or_extend now size n (true, contiguous, offset) = pure offset
  slot_or_extend now size n (false, contiguous, offset) = do
    cs ← gets (λ s. cluster_size s.ef.sb)
    exfat_truncate now (room_for size (n - contiguous) cs) true
    pure (if contiguous == 0 then size else offset)

  -- The offset of the slot. The directory is the node of the state, and its children are cached;
  -- `given` is what `calloc` answers.
  unfoldable pub find_slot : ℤ → Bool → Bool → List Place → ℕ → M D ℕ
  find_slot now given is_root children n = do
    cond given (pure tt) (fail enomem)
    size ← gets (λ s. s.node.size)
    let total = size / entry_size
    let dmap = mark_children children (replicate (bmap_size total) 0)
    slot ← slot_loop now is_root dmap total n ((total + 1) * (n + 1)) 0 0 0
    slot_or_extend now size n slot
