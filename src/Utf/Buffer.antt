-- ===== src/Utf/Buffer.antt =====
-- What libexfat/utf.c does to its buffers on any input, well formed or not.
use nuclear_armageddon.Prelude.{
  ℕ, zero, suc, ◌-◌, ◌≤◌, ◌<◌, ◌≡◌, refl, ap, inl, inr, some, true, List, [], ◌∷◌, ◌++◌, leb, ◌==◌,
  length, length-append, length-drop, arith, Bool-cases, Option-cases,
}
use nuclear_armageddon.Result.{Result, ok, err, bug, out_of_fuel}
use nuclear_armageddon.Utf.{
  wchar_to_utf8, utf16_to_wchar, utf8_to_wchar, wchar_to_utf16, terminate, to_utf8_loop,
  utf16_to_utf8, to_utf16_loop, utf8_to_utf16,
}
use nuclear_armageddon.Utf.Convert.{to_utf8_round, to_utf16_round}

-- The call ended; on success the buffer holds a string and its terminator, within `outsize`.
abbrev pub Stored : ℕ → Result (List ℕ) → Type 0
Stored outsize (ok buffer) =
    (text : List ℕ) × (buffer ≡ text ++ (0 ∷ [])) × (length buffer ≤ outsize)
Stored outsize (err e) = Unit
Stored outsize bug = ⊥
Stored outsize out_of_fuel = ⊥

terminate-Stored : (outsize : ℕ) (out : List ℕ) → Stored outsize (terminate outsize out)
unfolding terminate
terminate-Stored outsize out = elim (Bool-cases (leb outsize (length out))) [
  | inl full ↦ rw full tt
  | inr free ↦ rw free (out, refl, ground (arith, length-append out (0 ∷ [])))
]

wchar_to_utf8_room :
    (wc room : ℕ) (bytes : List ℕ) → wchar_to_utf8 wc room ≡ some bytes → length bytes ≤ room
unfolding wchar_to_utf8
wchar_to_utf8_room wc room bytes h = ground arith

wchar_to_utf16_room :
    (wc room : ℕ) (units : List ℕ) → wchar_to_utf16 wc room ≡ some units → length units ≤ room
unfolding wchar_to_utf16
wchar_to_utf16_room wc room units h = ground arith

utf16_to_wchar_shorter :
    (input : List ℕ) (wc : ℕ) (inp : List ℕ)
    → utf16_to_wchar input ≡ some (wc, inp)
    → length inp < length input
unfolding utf16_to_wchar
utf16_to_wchar_shorter [] wc inp h = cc
utf16_to_wchar_shorter (a ∷ []) wc inp h = ground arith
utf16_to_wchar_shorter (a ∷ b ∷ input) wc inp h = ground arith

utf8_to_wchar_shorter :
    (input : List ℕ) (wc : ℕ) (inp : List ℕ)
    → utf8_to_wchar input ≡ some (wc, inp)
    → length inp < length input
unfolding utf8_to_wchar
utf8_to_wchar_shorter [] wc inp h = cc
utf8_to_wchar_shorter (a ∷ input) wc inp h = ground (
  arith,
  length-drop 1 input,
  length-drop 2 input,
  length-drop 3 input,
  length-drop 4 input,
  length-drop 5 input,
)

-- A zero character is stored as a zero, which is the terminator.
zero_bytes :
    (wc room : ℕ) (bytes : List ℕ)
    → (wc == 0) ≡ true
    → wchar_to_utf8 wc room ≡ some bytes
    → bytes ≡ 0 ∷ []
unfolding wchar_to_utf8
zero_bytes wc room bytes z h = ground arith

append_room :
    (outsize : ℕ) (out code : List ℕ)
    → length out ≤ outsize
    → length code ≤ outsize - length out
    → length (out ++ code) ≤ outsize
append_room outsize out code h k = omega (arith, length-append out code)

-- Each loop ends in such a way, once its bound covers the units left.
to_utf8_loop-Stored :
    (fuel outsize : ℕ) (input out : List ℕ)
    → length input < fuel
    → length out ≤ outsize
    → Stored outsize (to_utf8_loop fuel outsize input out)
to_utf8_loop-Stored zero outsize input out h k = elim h [ ]
to_utf8_loop-Stored (suc fuel) outsize [] out h k =
    unfold to_utf8_loop in terminate-Stored outsize out
to_utf8_loop-Stored (suc fuel) outsize (unit ∷ input) out h k =
    elim (Option-cases (utf16_to_wchar (unit ∷ input))) [
      | inl bad ↦ unfold to_utf8_loop in rw bad tt
      | inr ((wc, inp), good) ↦
          rw (to_utf8_round fuel outsize (unit ∷ input) out wc inp good)
            (elim (Option-cases (wchar_to_utf8 wc (outsize - length out))) [
              | inl over ↦ rw over tt
              | inr (bytes, fits) ↦
                  let room = append_room outsize out bytes k (wchar_to_utf8_room _ _ _ fits) in
                  elim (Bool-cases (wc == 0)) [
                    | inl z ↦
                        rw (fits, z) (out, ap (λ t. out ++ t) (zero_bytes wc _ bytes z fits), room)
                    | inr nz ↦
                        rw (fits, nz)
                          (to_utf8_loop-Stored fuel outsize inp (out ++ bytes)
                            (omega (arith, utf16_to_wchar_shorter _ _ _ good)) room)
                  ]
            ])
    ]

to_utf16_loop-Stored :
    (fuel outsize : ℕ) (input out : List ℕ)
    → length input < fuel
    → length out ≤ outsize
    → Stored outsize (to_utf16_loop fuel outsize input out)
to_utf16_loop-Stored zero outsize input out h k = elim h [ ]
to_utf16_loop-Stored (suc fuel) outsize [] out h k =
    unfold to_utf16_loop in terminate-Stored outsize out
to_utf16_loop-Stored (suc fuel) outsize (byte ∷ input) out h k =
    elim (Option-cases (utf8_to_wchar (byte ∷ input))) [
      | inl bad ↦ unfold to_utf16_loop in rw bad tt
      | inr ((wc, inp), good) ↦
          rw (to_utf16_round fuel outsize (byte ∷ input) out wc inp good)
            (elim (Option-cases (wchar_to_utf16 wc (outsize - length out))) [
              | inl over ↦ rw over tt
              | inr (units, fits) ↦
                  let room = append_room outsize out units k (wchar_to_utf16_room _ _ _ fits) in
                  elim (Bool-cases (wc == 0)) [
                    | inl z ↦ rw (fits, z) (terminate-Stored outsize (out ++ units))
                    | inr nz ↦
                        rw (fits, nz)
                          (to_utf16_loop-Stored fuel outsize inp (out ++ units)
                            (omega (arith, utf8_to_wchar_shorter _ _ _ good)) room)
                  ]
            ])
    ]

-- On any units, `utf16_to_utf8` ends, and when it returns 0 the buffer holds a string with its
-- terminator that stays within `outsize` bytes.
pub utf16_to_utf8-Stored :
    (input : List ℕ) (outsize : ℕ) → Stored outsize (utf16_to_utf8 input outsize)
unfolding utf16_to_utf8
utf16_to_utf8-Stored input outsize =
    to_utf8_loop-Stored _ outsize input [] (omega arith) (omega arith)

-- On any bytes, `utf8_to_utf16` ends, and when it returns 0 the buffer holds a string with its
-- terminator that stays within `outsize` units.
pub utf8_to_utf16-Stored :
    (input : List ℕ) (outsize : ℕ) → Stored outsize (utf8_to_utf16 input outsize)
unfolding utf8_to_utf16
utf8_to_utf16-Stored input outsize =
    to_utf16_loop-Stored _ outsize input [] (omega arith) (omega arith)
