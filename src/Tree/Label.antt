-- ===== src/Tree/Label.antt =====
-- The volume's label in libexfat/node.c.
use mathlib.Core.Bool.{cond}
use nuclear_armageddon.Prelude.{
  ℕ, zero, suc, ◌+◌, ◌-◌, ◌/◌, ◌==◌, if◌then◌else◌, List, [], ◌∷◌, ◌++◌,
}
use nuclear_armageddon.Result.{Errno, enoent}
use nuclear_armageddon.Exfat.{Device}
use nuclear_armageddon.Utf.{utf8_to_utf16}
use nuclear_armageddon.Entry.{ename_max}
use nuclear_armageddon.Entry.Codec.{byte, padded, unit_bytes}
use nuclear_armageddon.Dir.{entry_size, read_entries, write_entries}
use nuclear_armageddon.Tree.{
  T, ◌>>=◌, ◌>>◌, pure, fail, handle, asks, change, call, out_of_rounds, fetch, on_node,
}
use nuclear_armageddon.Tree.Cache.{entry_label}
use nuclear_armageddon.Tree.Create.{find_slot_in, name_length_of}

-- The entry of a label; without a character it is not valid.
pub label_entry : ℕ → List ℕ → List ℕ
label_entry length units =
    (if length == 0 then entry_label - 0x80 else entry_label)
    ∷ length
    ∷ unit_bytes (padded ename_max units)

module _ {D : Type 0} ⦃io : Device D⦄ where
  abbrev pub exfat_get_label : T D (List ℕ)
  exfat_get_label = asks (λ t. t.label)

  -- The loop over the root directory's entries from an offset on.
  unfoldable pub find_label : ℕ → ℕ → T D ℕ
  find_label zero offset = out_of_rounds
  find_label (suc fuel) offset = do
    root ← asks (λ t. t.root)
    now ← asks (λ t. t.now)
    entry ← on_node root (read_entries now 1 offset)
    cond (byte 0 entry == entry_label) (pure offset) (find_label fuel (offset + entry_size))

  -- Without a label there yet, a free slot.
  abbrev pub no_label : ℕ → Errno → T D ℕ
  no_label root enoent = find_slot_in root 1
  no_label root e = fail e

  -- The label is a string without its terminator.
  unfoldable pub exfat_set_label : List ℕ → T D (Unit {0})
  exfat_set_label label = do
    units ← call (utf8_to_utf16 label (ename_max + 1))
    root ← asks (λ t. t.root)
    now ← asks (λ t. t.now)
    r ← fetch root
    offset ← handle (find_label (r.core.size / entry_size + 2) 0) (no_label root) pure
    length ← name_length_of units
    on_node root (write_entries now (label_entry length units) offset)
    change (λ t. record t { label = label ++ 0 ∷ [] })
