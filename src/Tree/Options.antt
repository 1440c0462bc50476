-- ===== src/Tree/Options.antt =====
-- `parse_options` of libexfat/mount.c: what the options of a mount set.
use nuclear_armageddon.Prelude.{ℕ, none, some, List, [], ◌∷◌, ◌==◌, if◌then◌else◌}
use nuclear_armageddon.Prelude.Int.{ℤ, pos, negsuc}
use nuclear_armageddon.Repair.{Repair, repair_no, repair_ask, repair_yes}
use nuclear_armageddon.Mount.{get_option, match_option}
use nuclear_armageddon.Tree.{T, change, Mode, mode_ro, mode_rw, mode_any}

-- What the options need of the system: `strtol` with its result as an `int`, the user and the group;
-- and the timezone that `exfat_tzset` sets.
pub record Caller : Type 0 where
  pub strtol : List ℕ → ℕ → ℤ
  pub euid : ℤ
  pub egid : ℤ
  pub timezone : ℤ

unfoldable pub get_int_option : Caller → List ℕ → List ℕ → ℕ → ℤ → ℤ
get_int_option who options option_name base default_value = elim (get_option options option_name) [
  | none ↦ default_value
  | some value ↦ who.strtol value base
]

abbrev pub repair_of : ℤ → Repair
repair_of (pos n) = if n == 1 then repair_ask else if n == 2 then repair_yes else repair_no
repair_of (negsuc n) = repair_no

-- The names of the options.
abbrev pub name_umask : List ℕ
name_umask = 117 ∷ 109 ∷ 97 ∷ 115 ∷ 107 ∷ []

abbrev pub name_dmask : List ℕ
name_dmask = 100 ∷ 109 ∷ 97 ∷ 115 ∷ 107 ∷ []

abbrev pub name_fmask : List ℕ
name_fmask = 102 ∷ 109 ∷ 97 ∷ 115 ∷ 107 ∷ []

abbrev pub name_uid : List ℕ
name_uid = 117 ∷ 105 ∷ 100 ∷ []

abbrev pub name_gid : List ℕ
name_gid = 103 ∷ 105 ∷ 100 ∷ []

abbrev pub name_noatime : List ℕ
name_noatime = 110 ∷ 111 ∷ 97 ∷ 116 ∷ 105 ∷ 109 ∷ 101 ∷ []

abbrev pub name_repair : List ℕ
name_repair = 114 ∷ 101 ∷ 112 ∷ 97 ∷ 105 ∷ 114 ∷ []

abbrev pub name_ro : List ℕ
name_ro = 114 ∷ 111 ∷ []

abbrev pub name_ro_fallback : List ℕ
name_ro_fallback = 114 ∷ 111 ∷ 95 ∷ 102 ∷ 97 ∷ 108 ∷ 108 ∷ 98 ∷ 97 ∷ 99 ∷ 107 ∷ []

unfoldable pub mode_of : List ℕ → Mode
mode_of options =
    if match_option options name_ro
    then mode_ro
    else if match_option options name_ro_fallback
    then mode_any
    else mode_rw

module _ {D : Type 0} where
  unfoldable pub parse_options : Caller → List ℕ → T D (Unit {0})
  parse_options who options = do
    let umask = get_int_option who options name_umask 8 (pos 0)
    change (λ t. record t {
      ef = record (t.ef) { noatime = match_option options name_noatime };
      repair = repair_of (get_int_option who options name_repair 10 (pos 0));
      mounting = record (t.mounting) {
        dmask = get_int_option who options name_dmask 8 umask;
        fmask = get_int_option who options name_fmask 8 umask;
        uid = get_int_option who options name_uid 10 who.euid;
        gid = get_int_option who options name_gid 10 who.egid;
      };
    })
