-- ===== src/Dir/Shrunk.antt =====
-- What `shrink_directory` of libexfat/node.c leaves of a directory.
use nuclear_armageddon.Prelude.{
  ℕ, ◌+◌, ◌*◌, ◌%◌, ◌≤◌, ◌<◌, ◌≡◌, ◌⊎◌, inl, inr, refl, ap, arith, bit_and, Bool, true, false,
  Option, none, List, [], ◌∷◌, ltb, ◌==◌, if◌then◌else◌,
}
use nuclear_armageddon.Prelude.Int.{ℤ}
use nuclear_armageddon.Result.{Result, ok}
use nuclear_armageddon.Bitmap.{div_round_up}
use nuclear_armageddon.Exfat.{Device}
use nuclear_armageddon.Cluster.{State}
use nuclear_armageddon.Dir.{Child, last_child, name_units, shrink_directory}

-- The child is one of these.
abbrev pub IsAmong : Child → List Child → Type 0
IsAmong c [] = ⊥
IsAmong c (x ∷ xs) = (c ≡ x) ⊎ IsAmong c xs

-- Where the entries of a child end: two of them, and one for each 15 units of the name.
abbrev pub end_of : Child → ℕ
end_of c = c.entry_offset + (2 + div_round_up (name_units c.name) 15) * 32

-- Children of a directory of this size: each starts at a whole entry and ends in the directory, and
-- none starts before another and ends behind it.
pub record IsLaidOut (size : ℕ) (children : List Child) : Type 0 where
  pub aligned : (c : Child) → IsAmong c children → c.entry_offset % 32 ≡ 0
  pub inside : (c : Child) → IsAmong c children → end_of c ≤ size
  pub apart :
      (c d : Child)
      → IsAmong c children
      → IsAmong d children
      → c.entry_offset ≤ d.entry_offset
      → end_of c ≤ end_of d

none_or : (b : Bool) (rest : Option Child) → rest ≡ none → (if b then none else rest) ≡ none
none_or true rest e = refl
none_or false rest e = e

last_child-none :
    (deleted_offset : ℕ) (c : Child) (children : List Child) (last : Child)
    → IsAmong c children
    → deleted_offset < c.entry_offset
    → last_child deleted_offset last children ≡ none
unfolding last_child
last_child-none deleted_offset c [] last m h = absurd m
last_child-none deleted_offset c (x ∷ xs) last (inl e) h =
    let here : ltb deleted_offset x.entry_offset ≡ true =
      ground (arith, h, ap (λ (y : Child). y.entry_offset) e) in
    rw here refl
last_child-none deleted_offset c (x ∷ xs) last (inr m) h =
    none_or (ltb deleted_offset x.entry_offset) _ (last_child-none deleted_offset c xs _ m h)

-- Of the first of the children and the rest, this is one that starts last.
abbrev IsLast : Child → Child → List Child → Type 0
IsLast l first children =
    ((c : Child) → IsAmong c (first ∷ children) → c.entry_offset ≤ l.entry_offset)
    × IsAmong l (first ∷ children)

abbrev later : Child → Child → Child
later last x = (if ltb last.entry_offset x.entry_offset then x else last)

module _ {D : Type 0} ⦃io : Device D⦄ where
  -- On a node with the attribute of a directory, `shrink_directory` returns 0 and changes neither the
  -- node nor the volume when the entries of any child start behind the deleted ones.
  pub shrink_directory_later :
      (now : ℤ) (children : List Child) (deleted_offset : ℕ) (s : State D) (c : Child)
      → (bit_and s.node.attrib 0x10 == 0) ≡ false
      → IsAmong c children
      → deleted_offset < c.entry_offset
      → shrink_directory now children deleted_offset s ≡ (ok tt, s)
  unfolding shrink_directory
  shrink_directory_later now [] deleted_offset s c dir m h = absurd m
  shrink_directory_later now (first ∷ children) deleted_offset s c dir m h =
      rw (dir, last_child-none deleted_offset c (first ∷ children) first m h) refl
