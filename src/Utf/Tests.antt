-- ===== src/Utf/Tests.antt =====
-- Runs of libexfat/utf.c on small texts.
use nuclear_armageddon.Prelude.{ℕ, ◌≡◌, ◌≢◌, refl, List, [], ◌∷◌, arith}
use nuclear_armageddon.Result.{err, eilseq, enametoolong}
use nuclear_armageddon.Utf.{
  wchar_to_utf8, utf16_to_wchar, utf8_to_wchar, wchar_to_utf16, to_utf8_loop, utf16_to_utf8,
  to_utf16_loop, utf8_to_utf16,
}
use nuclear_armageddon.Utf.Scalar.{utf8, utf16}
use nuclear_armageddon.Utf.Convert.{stored, utf16_to_utf8-utf16, utf8_to_utf16-utf8}
use nuclear_armageddon.Utf.Buffer.{Stored, utf16_to_utf8-Stored, utf8_to_utf16-Stored}
use nuclear_armageddon.Utf.Capacity.{utf16_to_utf8_roomy}

-- One, two, three and four bytes.
abbrev text : List ℕ
text = 0x61 ∷ 0xe9 ∷ 0x20ac ∷ 0x1f600 ∷ []

abbrev text8 : List ℕ
text8 = 0x61 ∷ 0xc3 ∷ 0xa9 ∷ 0xe2 ∷ 0x82 ∷ 0xac ∷ 0xf0 ∷ 0x9f ∷ 0x98 ∷ 0x80 ∷ []

abbrev text16 : List ℕ
text16 = 0x61 ∷ 0xe9 ∷ 0x20ac ∷ 0xd83d ∷ 0xde00 ∷ []

utf8-text : utf8 text ≡ text8
utf8-text = refl

utf16-text : utf16 text ≡ text16
utf16-text = refl

-- A high surrogate alone, and a byte that cannot come first.
utf16_to_utf8_lone : utf16_to_utf8 (0x61 ∷ 0xd83d ∷ []) 10 ≡ err eilseq
unfolding utf16_to_utf8 to_utf8_loop utf16_to_wchar wchar_to_utf8
utf16_to_utf8_lone = refl

utf8_to_utf16_tail : utf8_to_utf16 (0x61 ∷ 0x82 ∷ []) 10 ≡ err eilseq
unfolding utf8_to_utf16 to_utf16_loop utf8_to_wchar wchar_to_utf16
utf8_to_utf16_tail = refl

utf16_to_utf8-utf16_example : utf16_to_utf8 (utf16 text) 11 ≡ stored 11 (utf8 text)
utf16_to_utf8-utf16_example = utf16_to_utf8-utf16 text 11 (omega arith)

utf8_to_utf16-utf8_example : utf8_to_utf16 (utf8 text) 5 ≡ stored 5 (utf16 text)
utf8_to_utf16-utf8_example = utf8_to_utf16-utf8 text 5 (omega arith)

utf16_to_utf8-Stored_example : Stored 4 (utf16_to_utf8 (0xe9 ∷ 0xe9 ∷ []) 4)
utf16_to_utf8-Stored_example = utf16_to_utf8-Stored (0xe9 ∷ 0xe9 ∷ []) 4

utf8_to_utf16-Stored_example : Stored 3 (utf8_to_utf16 (0xc3 ∷ 0xa9 ∷ 0 ∷ []) 3)
utf8_to_utf16-Stored_example = utf8_to_utf16-Stored (0xc3 ∷ 0xa9 ∷ 0 ∷ []) 3

utf16_to_utf8_roomy_example : utf16_to_utf8 text16 16 ≢ err enametoolong
utf16_to_utf8_roomy_example = utf16_to_utf8_roomy text16 16 (omega arith) (omega arith)
