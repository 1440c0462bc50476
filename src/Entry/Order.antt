-- ===== src/Entry/Order.antt =====
-- The sequences of entries that `check_entries` of libexfat/node.c accepts.
use nuclear_armageddon.Prelude.{
  ℕ, suc, ◌≤◌, ◌≡◌, refl, ap, subst, inl, inr, true, Option, none, some, List, [], ◌∷◌, ◌++◌, ◌==◌,
  replicate, All, arith, Bool-cases,
}
use nuclear_armageddon.Entry.{
  check_from, check_entries, valid_after, is_type, entry_file, entry_file_info, entry_file_name,
  entry_file_tail,
}

abbrev pub IsTail : ℕ → Type 0
IsTail t = entry_file_tail ≤ t

-- One file entry, one with its information, one or more with its name, then optional ones.
abbrev pub file_types : ℕ → List ℕ → List ℕ
file_types names tails =
    entry_file ∷ entry_file_info ∷ entry_file_name ∷ (replicate names entry_file_name ++ tails)

after-IsTail :
    (t : ℕ) (types : List ℕ) → IsTail t → check_from (some t) types ≡ true → All IsTail types
unfolding check_from
after-IsTail t [] h e = tt
after-IsTail t (u ∷ types) h e = elim (Bool-cases (valid_after (some t) (some u))) [
  | inl ok_next ↦
      let u_tail : IsTail u = ground (arith, h, ok_next) in
      (u_tail, after-IsTail u types u_tail (rw ok_next at e))
  | inr bad ↦ absurd (cc (rw bad at e))
]

-- Names, then optional entries.
abbrev NamesAndTails : List ℕ → Type 0
NamesAndTails types =
    (names : ℕ) × (tails : List ℕ) × (types ≡ replicate names entry_file_name ++ tails)
    × All IsTail tails

after_name : (types : List ℕ) → check_from (some entry_file_name) types ≡ true → NamesAndTails types
unfolding check_from
after_name [] e = (0, [], refl, tt)
after_name (u ∷ types) e = elim (Bool-cases (u == entry_file_name)) [
  | inl name ↦
      let here : u ≡ entry_file_name = ground (arith, name) in
      let (names, tails, same, all) = after_name types (rw (here) at e) in
      (suc names, tails, rw (here, same) refl, all)
  | inr other ↦ elim (Bool-cases (valid_after (some entry_file_name) (some u))) [
    | inl ok_next ↦
        let u_tail : IsTail u = ground (arith, other, ok_next) in
        (0, u ∷ types, refl, (u_tail, after-IsTail u types u_tail (rw ok_next at e)))
    | inr bad ↦ absurd (cc (rw bad at e))
  ]
]

step :
    (previous : Option ℕ) (t : ℕ) (types : List ℕ)
    → check_from previous (t ∷ types) ≡ true
    → (valid_after previous (some t) ≡ true) × (check_from (some t) types ≡ true)
unfolding check_from
step previous t types e = elim (Bool-cases (valid_after previous (some t))) [
  | inl good ↦ (good, rw good at e)
  | inr bad ↦ absurd (cc (rw bad at e))
]

at_end : (previous : Option ℕ) → check_from previous [] ≡ true → valid_after previous none ≡ true
unfolding check_from
at_end previous e = e

-- Where one type alone may follow, it does.
forced :
    (previous : Option ℕ) (next : ℕ) (types : List ℕ)
    → ((o : Option ℕ) → valid_after previous o ≡ is_type next o)
    → check_from previous types ≡ true
    → (rest : List ℕ) × (types ≡ next ∷ rest) × (check_from (some next) rest ≡ true)
forced previous next [] only e = absurd (cc (only none, at_end previous e))
forced previous next (t ∷ types) only e =
    let (good, rest) = step previous t types e in
    let same : t ≡ next = ground (arith, only (some t), good) in
    (types, ap (λ u. u ∷ types) same, subst (λ u. check_from (some u) types ≡ true) same rest)

-- `check_entries` accepts no other types of entries than one file, one file information, one file
-- name or more, and then any number from 0xe0 up.
pub check_entries-file_types :
    (types : List ℕ)
    → check_entries types ≡ true
    → (names : ℕ) × (tails : List ℕ) × (types ≡ file_types names tails) × All IsTail tails
unfolding check_entries
check_entries-file_types types e =
    let (r1, e1, c1) = forced none entry_file types (λ o. refl) e in
    let (r2, e2, c2) = forced (some entry_file) entry_file_info r1 (λ o. refl) c1 in
    let (r3, e3, c3) = forced (some entry_file_info) entry_file_name r2 (λ o. refl) c2 in
    let (names, tails, e4, all) = after_name r3 c3 in (names, tails, rw (e1, e2, e3, e4) refl, all)
