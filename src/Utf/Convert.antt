-- ===== src/Utf/Convert.antt =====
-- The two conversions of libexfat/utf.c, on text that the standards allow.
use mathlib.Core.List.{append-nil, append_assoc}
use nuclear_armageddon.Prelude.{
  ℕ, zero, suc, ◌-◌, ◌≤◌, ◌<◌, ◌≡◌, sym, ap, ◌∙◌, inl, inr, some, false, List, [], ◌∷◌, ◌++◌, leb,
  ◌==◌, if◌then◌else◌, length, length-append, All, arith, Bool-cases,
}
use nuclear_armageddon.Result.{Result, ok, err, enametoolong, ◌>>=◌, or_err}
use nuclear_armageddon.Utf.{
  wchar_to_utf8, utf16_to_wchar, utf8_to_wchar, wchar_to_utf16, terminate, to_utf8_loop,
  utf16_to_utf8, to_utf16_loop, utf8_to_utf16,
}
use nuclear_armageddon.Utf.Scalar.{IsScalar, utf8_char, utf16_char, utf8, utf16}
use nuclear_armageddon.Utf.Char.{
  wchar_to_utf8_lem, utf8_to_wchar_lem, wchar_to_utf16_lem, utf16_to_wchar_lem,
}

-- One round of each loop, once the character is read.
pub to_utf8_round :
    (fuel outsize : ℕ) (input out : List ℕ) (wc : ℕ) (inp : List ℕ)
    → utf16_to_wchar input ≡ some (wc, inp)
    → to_utf8_loop (suc fuel) outsize input out ≡ (
        or_err (wchar_to_utf8 wc (outsize - length out)) enametoolong >>= λ bytes.
        if wc == 0 then ok (out ++ bytes) else to_utf8_loop fuel outsize inp (out ++ bytes))
unfolding to_utf8_loop
to_utf8_round fuel outsize [] out wc inp e = unfold utf16_to_wchar in cc
to_utf8_round fuel outsize (unit ∷ input) out wc inp e = rw e

pub to_utf16_round :
    (fuel outsize : ℕ) (input out : List ℕ) (wc : ℕ) (inp : List ℕ)
    → utf8_to_wchar input ≡ some (wc, inp)
    → to_utf16_loop (suc fuel) outsize input out ≡ (
        or_err (wchar_to_utf16 wc (outsize - length out)) enametoolong >>= λ units.
        if wc == 0
        then terminate outsize (out ++ units)
        else to_utf16_loop fuel outsize inp (out ++ units))
unfolding to_utf16_loop
to_utf16_round fuel outsize [] out wc inp e = unfold utf8_to_wchar in cc
to_utf16_round fuel outsize (byte ∷ input) out wc inp e = rw e

-- What both conversions are to return for a text whose code is `code`.
abbrev pub stored : ℕ → List ℕ → Result (List ℕ)
stored outsize code = if leb outsize (length code) then err enametoolong else ok (code ++ (0 ∷ []))

stored_over :
    (outsize : ℕ) (code : List ℕ) → outsize ≤ length code → stored outsize code ≡ err enametoolong
stored_over outsize code h = ground arith

nonzero : (c : ℕ) → IsScalar c → (c == 0) ≡ false
nonzero c s = ground arith

over_lt : (n room : ℕ) → leb n room ≡ false → room < n
over_lt n room h = ground arith

utf16_char_pos : (c : ℕ) → 1 ≤ length (utf16_char c)
utf16_char_pos c = ground arith

utf8_char_pos : (c : ℕ) → 1 ≤ length (utf8_char c)
utf8_char_pos c = ground arith

to_utf8_loop_lem :
    (fuel outsize : ℕ) (cs out : List ℕ)
    → All IsScalar cs
    → length (utf16 cs) < fuel
    → to_utf8_loop fuel outsize (utf16 cs) out ≡ stored outsize (out ++ utf8 cs)
to_utf8_loop_lem zero outsize cs out s h = elim h [ ]
to_utf8_loop_lem (suc fuel) outsize [] out s h = unfold to_utf8_loop terminate in rw append-nil
to_utf8_loop_lem (suc fuel) outsize (c ∷ cs) out s h =
    to_utf8_round fuel outsize _ out c (utf16 cs) (utf16_to_wchar_lem c (utf16 cs) s.0)
    ∙ elim (Bool-cases (leb (length (utf8_char c)) (outsize - length out))) [
      | inl fits ↦
          rw (wchar_to_utf8_lem c (outsize - length out) (omega (arith, s.0)), fits, nonzero c s.0)
            (to_utf8_loop_lem fuel outsize cs (out ++ utf8_char c) s.1
                (omega (arith, h, utf16_char_pos c, length-append (utf16_char c) (utf16 cs)))
              ∙ ap (stored outsize) (append_assoc out (utf8_char c) (utf8 cs)))
      | inr over ↦
          rw (wchar_to_utf8_lem c (outsize - length out) (omega (arith, s.0)), over)
            (sym (
              stored_over outsize _ (
                omega (
                  arith,
                  over_lt _ _ over,
                  length-append out (utf8_char c ++ utf8 cs),
                  length-append (utf8_char c) (utf8 cs),
                ))))
    ]

to_utf16_loop_lem :
    (fuel outsize : ℕ) (cs out : List ℕ)
    → All IsScalar cs
    → length (utf8 cs) < fuel
    → to_utf16_loop fuel outsize (utf8 cs) out ≡ stored outsize (out ++ utf16 cs)
to_utf16_loop_lem zero outsize cs out s h = elim h [ ]
to_utf16_loop_lem (suc fuel) outsize [] out s h = unfold to_utf16_loop terminate in rw append-nil
to_utf16_loop_lem (suc fuel) outsize (c ∷ cs) out s h =
    to_utf16_round fuel outsize _ out c (utf8 cs)
      (utf8_to_wchar_lem c (utf8 cs) (omega (arith, s.0)))
    ∙ elim (Bool-cases (leb (length (utf16_char c)) (outsize - length out))) [
      | inl fits ↦
          rw (wchar_to_utf16_lem c (outsize - length out) (omega (arith, s.0)), fits, nonzero c s.0)
            (to_utf16_loop_lem fuel outsize cs (out ++ utf16_char c) s.1
                (omega (arith, h, utf8_char_pos c, length-append (utf8_char c) (utf8 cs)))
              ∙ ap (stored outsize) (append_assoc out (utf16_char c) (utf16 cs)))
      | inr over ↦
          rw (wchar_to_utf16_lem c (outsize - length out) (omega (arith, s.0)), over)
            (sym (
              stored_over outsize _ (
                omega (
                  arith,
                  over_lt _ _ over,
                  length-append out (utf16_char c ++ utf16 cs),
                  length-append (utf16_char c) (utf16 cs),
                ))))
    ]

-- On the UTF-16 code of any text of scalar values, `utf16_to_utf8` stores the text's UTF-8 code
-- with a terminator if the buffer has room for both, and returns -ENAMETOOLONG if not.
pub utf16_to_utf8-utf16 :
    (cs : List ℕ) (outsize : ℕ)
    → All IsScalar cs
    → utf16_to_utf8 (utf16 cs) outsize ≡ stored outsize (utf8 cs)
unfolding utf16_to_utf8
utf16_to_utf8-utf16 cs outsize s = to_utf8_loop_lem _ outsize cs [] s (omega arith)

-- On the UTF-8 code of any text of scalar values, `utf8_to_utf16` stores the text's UTF-16 code
-- with a terminator if the buffer has room for both, and returns -ENAMETOOLONG if not.
pub utf8_to_utf16-utf8 :
    (cs : List ℕ) (outsize : ℕ)
    → All IsScalar cs
    → utf8_to_utf16 (utf8 cs) outsize ≡ stored outsize (utf16 cs)
unfolding utf8_to_utf16
utf8_to_utf16-utf8 cs outsize s = to_utf16_loop_lem _ outsize cs [] s (omega arith)
