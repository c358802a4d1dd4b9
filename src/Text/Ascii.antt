-- ===== src/Text/Ascii.antt =====
-- The tables of `Unicode` on the ASCII characters, which the examples run with.
use mathlib.Core.List.{map}
use hungrx_agent.Prelude.{
  ℕ, ◌+◌, ◌-◌, ◌≡◌, refl, Bool, ◌&&◌, ◌||◌, [], ◌∷◌, ◌==◌, leb, arith, if◌then◌else◌,
}
use hungrx_agent.Text.{Text, Unicode, IsLawful}

abbrev is_lower : ℕ → Bool
is_lower c = leb b'a' c && leb c b'z'

abbrev is_upper : ℕ → Bool
is_upper c = leb b'A' c && leb c b'Z'

abbrev to_upper : ℕ → ℕ
to_upper c = if is_lower c then c - 32 else c

abbrev to_lower : ℕ → ℕ
to_lower c = if is_upper c then c + 32 else c

abbrev pub ascii : Unicode
ascii = record {
  is_space = λ c. c == 32 || (leb 9 c && leb c 13) || (leb 28 c && leb c 31);
  is_alpha = λ c. is_lower c || is_upper c;
  lower = map to_lower;
  upper = map to_upper;
}

to_upper_idem : (c : ℕ) → to_upper (to_upper c) ≡ to_upper c
to_upper_idem c = ground arith

map-to_upper_idem : (s : Text) → map to_upper (map to_upper s) ≡ map to_upper s
map-to_upper_idem [] = refl
map-to_upper_idem (c ∷ s) = cc (to_upper_idem c, map-to_upper_idem s)

pub ascii-IsLawful : IsLawful ascii
ascii-IsLawful = record { blank_is_space = refl; upper_idem = map-to_upper_idem }
