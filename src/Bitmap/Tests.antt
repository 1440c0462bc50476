-- ===== src/Bitmap/Tests.antt =====
-- Bitmaps of two words.
use nuclear_armageddon.Prelude.{
  ℕ, zero, suc, ◌+◌, ◌-◌, ◌^◌, ◌<◌, ◌≡◌, refl, true, false, List, [], ◌∷◌, ◌==◌, if◌then◌else◌,
  get_or, arith,
}
use nuclear_armageddon.Bitmap.{
  bmap_get, bmap_set, bmap_clr, find_clear, find_word, take_bit, find_bit_and_set, count_free,
}
use nuclear_armageddon.Bitmap.Laws.{IsBitmap, bmap_get-bmap_set, bmap_get-bmap_clr}
use nuclear_armageddon.Bitmap.Find.{find_bit_and_set-eq}
use nuclear_armageddon.Bitmap.Count.{count_free-bmap_set, count_free-bmap_clr}

-- A full word, and one in which bits 2 and 4 up are clear.
abbrev pub busy : List ℕ
busy = 0xffffffffffffffff ∷ 0xb ∷ []

busy_words : (i : ℕ) → get_or busy i 0 < 2 ^ 64
busy_words zero = omega arith
busy_words (suc zero) = omega arith
busy_words (suc (suc i)) = omega arith

pub busy-IsBitmap : IsBitmap busy 70
busy-IsBitmap = record { room = omega arith; words = busy_words }

find_bit_and_set-busy : find_bit_and_set busy 3 70 ≡ (68, 0xffffffffffffffff ∷ 0xf ∷ [])
unfolding find_bit_and_set find_word find_clear bmap_get bmap_set take_bit
find_bit_and_set-busy = refl

bmap_get-bmap_set_example :
    bmap_get (bmap_set busy 66) 67 ≡ (if 66 == 67 then true else bmap_get busy 67)
bmap_get-bmap_set_example = bmap_get-bmap_set busy 70 busy-IsBitmap 66 67 (omega arith)

bmap_get-bmap_clr_example :
    bmap_get (bmap_clr busy 65) 65 ≡ (if 65 == 65 then false else bmap_get busy 65)
bmap_get-bmap_clr_example = bmap_get-bmap_clr busy 70 busy-IsBitmap 65 65 (omega arith)

find_bit_and_set-eq_example :
    find_bit_and_set busy 3 70 ≡ take_bit busy (find_clear busy (70 - 3) 3)
find_bit_and_set-eq_example = find_bit_and_set-eq busy 3 70 (omega arith)

count_free-bmap_set_example : count_free (bmap_set busy 66) 70 0 + 1 ≡ count_free busy 70 0
count_free-bmap_set_example =
    count_free-bmap_set busy 70 busy-IsBitmap 66 (omega arith) (unfold bmap_get in refl)

count_free-bmap_clr_example : count_free busy 70 0 + 1 ≡ count_free (bmap_clr busy 5) 70 0
count_free-bmap_clr_example =
    count_free-bmap_clr busy 70 busy-IsBitmap 5 (omega arith) (unfold bmap_get in refl)
