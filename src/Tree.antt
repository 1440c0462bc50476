-- ===== src/Tree.antt =====
-- The nodes in memory that libexfat/node.c and libexfat/lookup.c link to a tree: a store of nodes
-- by address, with reference counts and lists of siblings. An action has no outcome where C's
-- behaviour is undefined: it follows a null pointer, or one to memory that is not a node's, or reads
-- past the end of an array.
mod Tests
pub mod Steps
pub mod Siblings
pub mod Attach
pub mod Segment
pub mod Detach
pub mod References
pub mod Find
pub mod Named
pub mod Cleanup
pub mod Cache
pub mod Reset
pub mod Walk
pub mod Flush
pub mod Delete
pub mod Create
pub mod Rename
pub mod Label
pub mod Open
pub mod Options
pub mod Super
pub mod Mount
use mathlib.Core.Bool.{cond}
use nuclear_armageddon.Prelude.{
  ℕ, zero, suc, ◌+◌, ◌-◌, Bool, true, false, not, ◌&&◌, Option, none, some, List, [], ◌∷◌, ltb,
  ◌==◌, if◌then◌else◌, replicate,
}
use nuclear_armageddon.Prelude.Int.{ℤ, pos}
use nuclear_armageddon.Result.{Result, Errno, ok, err, bug, out_of_fuel, enomem}
use nuclear_armageddon.Exfat.{Device, Exfat, Node}
use nuclear_armageddon.Cluster.{State, M}
use nuclear_armageddon.Cluster.Truncate.{exfat_truncate}
use nuclear_armageddon.Repair.{Repair, exfat_ask_to_fix}

-- `struct exfat_node`; what clusters and reads need of it is in `core`.
pub record Inode : Type 0 where
  pub core : Node
  pub parent : Option ℕ
  pub child : Option ℕ
  pub next : Option ℕ
  pub prev : Option ℕ
  pub entry_offset : ℕ
  pub continuations : ℕ
  pub is_cached : Bool
  pub is_unlinked : Bool
  pub name : List ℕ

-- `enum exfat_mode`.
pub data Mode : Type 0 where
  mode_ro mode_rw mode_any : Mode

-- The bytes of the super block in memory, the members of `struct exfat_dev` but its descriptor, and
-- the numbers that the options give.
pub record Mounting : Type 0 where
  pub boot : List ℕ
  pub mode : Mode
  pub dev_size : ℕ
  pub dmask : ℤ
  pub fmask : ℤ
  pub uid : ℤ
  pub gid : ℤ

-- `struct exfat` with the nodes that are allocated, what is asked of the system (the time, the
-- timezone, whether the call of `malloc` with this number gives memory) and the terminal's input.
-- The label has its terminator.
pub record Tree (D : Type 0) : Type 0 where
  pub ef : Exfat D
  pub upcase : Option (ℕ → ℕ)
  pub root : ℕ
  pub label : List ℕ
  pub repair : Repair
  pub heap : ℕ → Option Inode
  pub fresh : ℕ
  pub gives : ℕ → Bool
  pub now : ℤ
  pub zone : ℤ
  pub input : List (List ℕ)
  pub errors_fixed : ℕ
  pub mounting : Mounting

abbrev pub T : Type 0 → Type 0 → Type 0
T D A = Tree D → Option (Result A × Tree D)

-- What comes after a call: one way after an error, another after a value.
abbrev pub continue_with :
    {D A B : Type 0}
    → Result A
    → Tree D
    → (Errno → T D B)
    → (A → T D B)
    → Option (Result B × Tree D)
continue_with (ok a) t h f = f a t
continue_with (err e) t h f = h e t
continue_with bug t h f = some (bug, t)
continue_with out_of_fuel t h f = some (out_of_fuel, t)

abbrev pub fail : {D A : Type 0} → Errno → T D A
fail e t = some (err e, t)

abbrev pub handle : {D A B : Type 0} → T D A → (Errno → T D B) → (A → T D B) → T D B
handle m h f t = elim (m t) [ none ↦ none | some p ↦ continue_with p.0 p.1 h f ]

infixl 5 ◌>>=◌ ◌>>◌
abbrev pub ◌>>=◌ : {D A B : Type 0} → T D A → (A → T D B) → T D B
m >>= f = handle m fail f

abbrev pub ◌>>◌ : {D B : Type 0} → T D (Unit {0}) → T D B → T D B
m >> k = m >>= λ _. k

abbrev pub pure : {D A : Type 0} → A → T D A
pure a t = some (ok a, t)

abbrev pub exfat_bug : {D A : Type 0} → T D A
exfat_bug t = some (bug, t)

-- On an error of the first call the second one is made, and the error is returned.
abbrev pub undo : {D A : Type 0} → T D A → T D (Unit {0}) → T D A
undo m clean = handle m (λ e. clean >> fail e) pure

-- The second call is made either way, and the result of the first one is returned.
abbrev pub ending : {D A : Type 0} → T D A → T D (Unit {0}) → T D A
ending m clean = handle m (λ e. clean >> fail e) (λ a. clean >> pure a)

-- A call whose return code is not looked at.
abbrev pub ignore : {D : Type 0} → T D (Unit {0}) → T D (Unit {0})
ignore m = handle m (λ e. pure tt) pure

abbrev pub asks : {D A : Type 0} → (Tree D → A) → T D A
asks f t = some (ok (f t), t)

abbrev pub change : {D : Type 0} → (Tree D → Tree D) → T D (Unit {0})
change f t = some (ok tt, f t)

-- A pointer that is followed.
abbrev pub deref : {D : Type 0} → Option ℕ → T D ℕ
deref none t = none
deref (some p) t = some (ok p, t)

-- What C computes, where that is defined.
abbrev pub defined : {D A : Type 0} → Option A → T D A
defined none t = none
defined (some a) t = some (ok a, t)

-- A call of a function that changes nothing.
abbrev pub call : {D A : Type 0} → Result A → T D A
call r t = some (r, t)

abbrev pub out_of_rounds : {D A : Type 0} → T D A
out_of_rounds t = some (out_of_fuel, t)

abbrev pub fetch : {D : Type 0} → ℕ → T D Inode
fetch p t = elim (t.heap p) [ none ↦ none | some x ↦ some (ok x, t) ]

abbrev pub put : (ℕ → Option Inode) → ℕ → Option Inode → ℕ → Option Inode
put heap p x q = if q == p then x else heap q

abbrev pub write : {D : Type 0} → ℕ → Option Inode → T D (Unit {0})
write p x = change (λ t. record t { heap = put t.heap p x })

abbrev pub modify : {D : Type 0} → ℕ → (Inode → Inode) → T D (Unit {0})
modify p f = do x ← fetch p; write p (some (f x))

abbrev pub modify_core : {D : Type 0} → ℕ → (Node → Node) → T D (Unit {0})
modify_core p f = modify p (λ x. record x { core = f x.core })

abbrev pub with_heap : {D : Type 0} → Tree D → (ℕ → Option Inode) → Tree D
with_heap t heap = record t { heap = heap }

abbrev pub is_some {ℓ} : {A : Type ℓ} → Option A → Bool
is_some none = false
is_some (some a) = true

-- Whether two pointers are the same.
abbrev pub same_pointer : Option ℕ → ℕ → Bool
same_pointer none p = false
same_pointer (some q) p = q == p

abbrev pub loaded : {D : Type 0} → Tree D → Inode → State D
loaded t x = record { ef = t.ef; node = record (x.core) { has_parent = is_some x.parent } }

abbrev pub stored : {D A : Type 0} → Tree D → ℕ → Inode → Result A × State D → Result A × Tree D
stored t p x r =
    (r.0, record t { ef = r.1.ef; heap = put t.heap p (some (record x { core = r.1.node })) })

-- An action on the volume and one node.
abbrev pub on_node : {D A : Type 0} → ℕ → M D A → T D A
on_node p m t = elim (t.heap p) [ none ↦ none | some x ↦ some (stored t p x (m (loaded t x))) ]

abbrev pub empty_core : Node
empty_core = record {
  has_parent = false;
  references = 0;
  fptr_index = 0;
  fptr_cluster = 0;
  start_cluster = 0;
  is_contiguous = false;
  is_dirty = false;
  size = 0;
  mtime = pos 0;
  atime = pos 0;
  attrib = 0;
}

abbrev pub empty_node : Inode
empty_node = record {
  core = empty_core;
  parent = none;
  child = none;
  next = none;
  prev = none;
  entry_offset = 0;
  continuations = 0;
  is_cached = false;
  is_unlinked = false;
  name = replicate 256 0;
}

module _ {D : Type 0} where
  -- Each call has its own answer.
  abbrev pub malloc : T D Bool
  malloc = do
    given ← asks (λ t. t.gives t.fresh)
    change (λ t. record t { fresh = t.fresh + 1 })
    pure given

  -- A new node is at an address that no node has had.
  unfoldable pub allocate_node : T D ℕ
  allocate_node = do
    p ← asks (λ t. t.fresh)
    given ← malloc
    cond given (write p (some empty_node) >> pure p) (fail enomem)

  -- A call of the device.
  abbrev pub on_device : {A : Type 0} → (D → A × D) → T D A
  on_device f t =
      let (a, dev) = f t.ef.dev in some (ok a, record t { ef = record (t.ef) { dev = dev } })

  abbrev pub free : ℕ → T D (Unit {0})
  free p = do x ← fetch p; write p none

  -- The call of EXFAT_REPAIR asks first.
  unfoldable pub ask_to_fix : T D Bool
  ask_to_fix = do
    answer ← asks (λ t. exfat_ask_to_fix t.repair t.input)
    change (λ t. record t { input = answer.1 })
    pure answer.0

  unfoldable pub exfat_get_node : ℕ → T D ℕ
  exfat_get_node p = do modify_core p (λ n. record n { references = n.references + 1 }); pure p

  -- A counter below zero is the call of `exfat_bug`; the warning for a dirty node is not modelled.
  unfoldable pub exfat_put_node : ℕ → T D (Unit {0})
  exfat_put_node p = do
    x ← fetch p
    cond (x.core.references == 0) exfat_bug
        (modify_core p (λ n. record n { references = n.references - 1 }))

  -- The links between a node and the first child so far.
  abbrev pub link_first : ℕ → Option ℕ → T D (Unit {0})
  link_first p none = pure tt
  link_first p (some first) = do
    modify first (λ x. record x { prev = some p })
    modify p (λ x. record x { next = some first })

  -- Becomes the first child.
  unfoldable pub tree_attach : ℕ → ℕ → T D (Unit {0})
  tree_attach dir p = do
    modify p (λ x. record x { parent = some dir })
    d ← fetch dir
    link_first p d.child
    modify dir (λ x. record x { child = some p })

  -- The node before it, or the parent, gets the next one.
  abbrev pub skip_from : Option ℕ → Option ℕ → Option ℕ → T D (Unit {0})
  skip_from parent next none = do dir ← deref parent; modify dir (λ d. record d { child = next })
  skip_from parent next (some prev) = modify prev (λ y. record y { next = next })

  -- The next node, if any, gets the one before it.
  abbrev pub skip_to : Option ℕ → Option ℕ → T D (Unit {0})
  skip_to prev none = pure tt
  skip_to prev (some next) = modify next (λ y. record y { prev = prev })

  unfoldable pub tree_detach : ℕ → T D (Unit {0})
  tree_detach p = do
    x ← fetch p
    skip_from x.parent x.next x.prev
    skip_to x.prev x.next
    modify p (λ y. record y { parent = none; prev = none; next = none })

  unfoldable pub exfat_update_mtime : ℕ → T D (Unit {0})
  exfat_update_mtime p = do
    now ← asks (λ t. t.now)
    modify_core p (λ n. record n { mtime = now; is_dirty = true })

  unfoldable pub exfat_update_atime : ℕ → T D (Unit {0})
  exfat_update_atime p = do
    now ← asks (λ t. t.now)
    modify_core p (λ n. record n { atime = now; is_dirty = true })

  unfoldable pub exfat_utimes : ℕ → ℤ → ℤ → T D (Unit {0})
  exfat_utimes p accessed modified =
      modify_core p (λ n. record n { atime = accessed; mtime = modified; is_dirty = true })

module _ {D : Type 0} ⦃io : Device D⦄ where
  -- An unlinked node's clusters are freed, and its memory even if that fails.
  unfoldable pub exfat_cleanup_node : ℕ → T D (Unit {0})
  exfat_cleanup_node p = do
    x ← fetch p
    cond (x.core.references == 0) (pure tt) exfat_bug
    now ← asks (λ t. t.now)
    cond x.is_unlinked (ending (on_node p (exfat_truncate now 0 true)) (free p)) (pure tt)
