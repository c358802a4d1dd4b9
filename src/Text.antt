-- ===== src/Text.antt =====
-- The operations on Python's `str` that the program uses, over lists of code points.
--
-- Python's character tables are the record `Unicode`: the program asks them through
-- `str.isspace`, `str.isalpha`, `str.lower` and `str.upper`. Lower and upper casing work on a whole
-- text, since some letters are cased by their neighbours and some casings change the length.
pub mod Words
pub mod Ascii
use Prim.Native.Char.{code}
use hungrx_agent.Prelude.{
  ℕ, ◌≡◌, ◌&&◌, ◌||◌, Bool, true, false, not, String, List, [], ◌∷◌, ◌++◌, ◌==◌, is_empty,
  if◌then◌else◌,
}

abbrev pub Text : Type 0
Text = List ℕ

abbrev pub text : String → Text
text String.[] = []
text (String.◌∷◌ c s) = code c ∷ text s

pub record Unicode : Type 0 where
  pub is_space : ℕ → Bool
  pub is_alpha : ℕ → Bool
  pub lower : Text → Text
  pub upper : Text → Text

-- What the theorems ask of the tables: the blank is a space, and casing twice is casing once.
pub record IsLawful (u : Unicode) : Type 0 where
  pub blank_is_space : u.is_space 32 ≡ true
  pub upper_idem : (s : Text) → u.upper (u.upper s) ≡ u.upper s

-- `a == b` of two texts
unfoldable pub text_eq : Text → Text → Bool
text_eq [] [] = true
text_eq (c ∷ s) (d ∷ t) = c == d && text_eq s t
text_eq _ _ = false

-- `key in seen`, for a set or list of texts
unfoldable pub is_member : Text → List Text → Bool
unfolding text_eq
is_member k [] = false
is_member k (x ∷ xs) = text_eq x k || is_member k xs

unfoldable pub starts_with : Text → Text → Bool
starts_with s [] = true
starts_with [] (p ∷ ps) = false
starts_with (c ∷ s) (p ∷ ps) = c == p && starts_with s ps

-- `keyword in s`
unfoldable pub contains_text : Text → Text → Bool
unfolding starts_with
contains_text [] k = starts_with [] k
contains_text (c ∷ s) k = starts_with (c ∷ s) k || contains_text s k

abbrev keep_word : Text → List Text → List Text
keep_word [] ws = ws
keep_word (c ∷ w) ws = (c ∷ w) ∷ ws

-- `" ".join(words)`
unfoldable pub join_words : List Text → Text
join_words [] = []
join_words (w ∷ []) = w
join_words (w ∷ v ∷ ws) = w ++ (32 ∷ join_words (v ∷ ws))

module _ (u : Unicode) where
  -- The word that a text begins with, up to its first space, and the words after it.
  unfoldable pub split_head : Text → Text × List Text
  split_head [] = ([], [])
  split_head (c ∷ s) =
      let (w, ws) = split_head s in if u.is_space c then ([], keep_word w ws) else (c ∷ w, ws)

  -- `s.split()`: the runs of characters that are no spaces
  unfoldable pub split : Text → List Text
  unfolding split_head
  split s = let (w, ws) = split_head s in keep_word w ws

  -- `s.lstrip()`
  unfoldable pub drop_spaces : Text → Text
  drop_spaces [] = []
  drop_spaces (c ∷ s) = let rest = drop_spaces s in if u.is_space c then rest else c ∷ s

  -- `s.rstrip()`
  unfoldable pub drop_trailing : Text → Text
  drop_trailing [] = []
  drop_trailing (c ∷ s) =
      let rest = drop_trailing s in if is_empty rest && u.is_space c then [] else c ∷ rest

  -- `s.strip()`
  unfoldable pub strip : Text → Text
  unfolding drop_spaces drop_trailing
  strip s = drop_trailing (drop_spaces s)

  -- `" ".join(s.split())`
  unfoldable pub collapse : Text → Text
  unfolding split join_words
  collapse s = join_words (split s)

  -- `" ".join(s.strip().lower().split())`, the key under which names are compared
  unfoldable pub name_key : Text → Text
  unfolding strip collapse
  name_key s = collapse (u.lower (strip s))

  unfoldable pub all_alpha : Text → Bool
  all_alpha [] = true
  all_alpha (c ∷ s) = u.is_alpha c && all_alpha s

  -- `s.isalpha()`: false of the empty text
  unfoldable pub is_alpha : Text → Bool
  unfolding all_alpha
  is_alpha s = not (is_empty s) && all_alpha s
