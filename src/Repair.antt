-- ===== src/Repair.antt =====
-- `exfat_ask_to_fix` of libexfat/repair.c. The terminal is the list of what its calls of `fgets`
-- give, each with its newline, up to the end of the input.
use nuclear_armageddon.Prelude.{
  ℕ, ◌+◌, Bool, true, false, ◌&&◌, ◌||◌, List, [], ◌∷◌, leb, ◌==◌, if◌then◌else◌,
}

-- The member `repair`.
pub data Repair : Type 0 where
  repair_no repair_ask repair_yes : Repair

abbrev pub lower : ℕ → ℕ
lower c = if leb 0x41 c && leb c 0x5a then c + 0x20 else c

-- `strcasecmp(a, b) == 0`
abbrev pub same_word : List ℕ → List ℕ → Bool
same_word [] [] = true
same_word (x ∷ a) (y ∷ b) = (lower x == lower y) && same_word a b
same_word [] (y ∷ b) = false
same_word (x ∷ a) [] = false

-- The loop of questions, and the input that is left.
pub ask : List (List ℕ) → Bool × List (List ℕ)
ask [] = (false, [])
ask (answer ∷ input) =
    let rest = ask input in
    let yeah = same_word answer (0x59 ∷ 0x0a ∷ []) in
    let nope = same_word answer (0x4e ∷ 0x0a ∷ []) in if yeah || nope then (yeah, input) else rest

pub exfat_ask_to_fix : Repair → List (List ℕ) → Bool × List (List ℕ)
exfat_ask_to_fix repair_no input = (false, input)
exfat_ask_to_fix repair_yes input = (true, input)
exfat_ask_to_fix repair_ask input = ask input
