-- ===== src/Tree/Walk.antt =====
-- libexfat/lookup.c: the walk over the children of a directory and along a path.
use mathlib.Core.Bool.{cond}
use nuclear_armageddon.Prelude.{
  ℕ, zero, suc, ◌+◌, Bool, not, ◌&&◌, Option, none, some, List, ◌++◌, ◌==◌, take, drop, get_or,
  length, replicate,
}
use nuclear_armageddon.Result.{Errno, enoent}
use nuclear_armageddon.Exfat.{Device}
use nuclear_armageddon.Utf.{utf8_to_utf16}
use nuclear_armageddon.Lookup.{compare_name, nonzero, get_comp, is_last_comp, is_allowed}
use nuclear_armageddon.Tree.{
  T, ◌>>=◌, ◌>>◌, pure, fail, handle, undo, exfat_bug, asks, defined, call, out_of_rounds, fetch,
  exfat_get_node, exfat_put_node,
}
use nuclear_armageddon.Tree.Cache.{exfat_cache_directory}

abbrev pub name_max : ℕ
name_max = 255

abbrev pub is_dot : List ℕ → ℕ → Bool
is_dot p n = (n == 1) && (get_or p 0 0 == 0x2e)

-- The parent, the node if there is one, and the name of the last component in an array of zeros.
abbrev pub Parts : Type 0
Parts = ℕ × Option ℕ × List ℕ

module _ {D : Type 0} where
  -- `compare_name(...) == 0`, by the table of upper case letters that was read.
  unfoldable pub same_name : List ℕ → List ℕ → T D Bool
  same_name a b = do
    upcase ← asks (λ t. t.upcase)
    table ← defined upcase
    rc ← defined (compare_name table a b)
    pure (not (nonzero rc))

  -- The iterator is the pair of `parent` and `current`.
  abbrev pub following : ℕ → Option ℕ → T D (Option ℕ)
  following parent none = do d ← fetch parent; pure d.child
  following parent (some c) = do x ← fetch c; pure x.next

  abbrev pub hold : Option ℕ → T D (Option ℕ)
  hold none = pure none
  hold (some p) = do current ← exfat_get_node p; pure (some current)

  -- The result is the new `current`.
  unfoldable pub exfat_readdir : ℕ → Option ℕ → T D (Option ℕ)
  exfat_readdir parent current = following parent current >>= hold

  unfoldable pub exfat_closedir : ℕ → T D (Unit {0})
  exfat_closedir parent = exfat_put_node parent

  -- What the search does with the node that was read, if any, and what comes after it.
  abbrev pub found_or : (Option ℕ → T D ℕ) → List ℕ → ℕ → Option ℕ → T D ℕ
  found_or rest name parent none = exfat_closedir parent >> fail enoent
  found_or rest name parent (some p) = do
    x ← fetch p
    same ← same_name name x.name
    cond same (exfat_closedir parent >> pure p) (exfat_put_node p >> rest (some p))

  -- The loop over the children. The rounds suffice for a list of siblings that has an end.
  unfoldable pub search_loop : ℕ → List ℕ → ℕ → Option ℕ → T D ℕ
  search_loop zero name parent current = out_of_rounds
  search_loop (suc fuel) name parent current =
      exfat_readdir parent current >>= found_or (search_loop fuel name parent) name parent

module _ {D : Type 0} ⦃io : Device D⦄ where
  unfoldable pub exfat_opendir : ℕ → T D (Unit {0})
  exfat_opendir dir = do
    parent ← exfat_get_node dir
    undo (exfat_cache_directory dir) (exfat_put_node dir)

  -- `name` is the component, of `n` bytes.
  unfoldable pub lookup_name : ℕ → List ℕ → T D ℕ
  lookup_name parent name = do
    buffer ← call (utf8_to_utf16 name (name_max + 1))
    exfat_opendir parent
    fresh ← asks (λ t. t.fresh)
    search_loop (suc fresh) buffer parent none

  -- The step to the child that the component names.
  abbrev pub descend : ℕ → List ℕ → ℕ → T D ℕ
  descend parent p n = do
    node ← undo (lookup_name parent (take n p)) (exfat_put_node parent)
    exfat_put_node parent
    pure node

  abbrev pub lookup_round : (ℕ → List ℕ → T D ℕ) → ℕ → List ℕ → ℕ → T D ℕ
  lookup_round rest parent p n = cond (n == 0) (pure parent) (
      cond (is_dot p n) (rest parent (drop n p))
        (descend parent p n >>= λ node. rest node (drop n p)))

  -- The loop over the components, each of which has a byte at least.
  unfoldable pub lookup_loop : ℕ → ℕ → List ℕ → T D ℕ
  lookup_loop zero parent path = out_of_rounds
  lookup_loop (suc fuel) parent path =
      lookup_round (lookup_loop fuel) parent (get_comp path).1 (get_comp path).0

  unfoldable pub exfat_lookup : List ℕ → T D ℕ
  exfat_lookup path = do
    root ← asks (λ t. t.root)
    parent ← exfat_get_node root
    lookup_loop (suc (length path)) parent path

  abbrev pub missing : ℕ → List ℕ → Errno → T D Parts
  missing parent name enoent = pure (parent, none, name)
  missing parent name e = exfat_put_node parent >> fail e

  abbrev pub split_last : ℕ → List ℕ → ℕ → T D Parts
  split_last parent p n = do
    cond (is_allowed p n) (pure tt) (exfat_put_node parent >> fail enoent)
    units ← undo (call (utf8_to_utf16 (take n p) (name_max + 1))) (exfat_put_node parent)
    let name = take (name_max + 1) (units ++ replicate (name_max + 1) 0)
    handle (lookup_name parent (take n p)) (missing parent name)
        (λ node. pure (parent, some node, name))

  abbrev pub split_round : (ℕ → List ℕ → T D Parts) → ℕ → List ℕ → ℕ → T D Parts
  split_round rest parent p n = cond (n == 0) exfat_bug (
      cond (is_dot p n) (rest parent (drop n p)) (
        cond (is_last_comp p n) (split_last parent p n)
          (descend parent p n >>= λ node. rest node (drop n p))))

  unfoldable pub split_loop : ℕ → ℕ → List ℕ → T D Parts
  split_loop zero parent path = out_of_rounds
  split_loop (suc fuel) parent path =
      split_round (split_loop fuel) parent (get_comp path).1 (get_comp path).0

  unfoldable pub exfat_split : List ℕ → T D Parts
  exfat_split path = do
    root ← asks (λ t. t.root)
    parent ← exfat_get_node root
    split_loop (suc (length path)) parent path
