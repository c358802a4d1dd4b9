-- ===== src/Text/Words.antt =====
-- Equality tests of texts, and splitting into words against joining them.
use hungrx_agent.Prelude.{
  ◌≡◌, refl, ap, sym, ◌↔◌, inl, inr, ◌∙◌, true, false, ◌≢◌, List, [], ◌∷◌, ◌++◌, arith, All,
  append-nil, Bool-cases,
}
use hungrx_agent.Text.{
  Text, Unicode, IsLawful, text_eq, split_head, split, keep_word, join_words, collapse,
}

pub text_eq_sound : (s t : Text) → text_eq s t ≡ true → s ≡ t
unfolding text_eq
text_eq_sound [] [] h = refl
text_eq_sound [] (d ∷ t) h = cc
text_eq_sound (c ∷ s) [] h = cc
text_eq_sound (c ∷ s) (d ∷ t) h = ground (arith, text_eq_sound s t)

pub text_eq_self : (s : Text) → text_eq s s ≡ true
unfolding text_eq
text_eq_self [] = refl
text_eq_self (c ∷ s) = ground (arith, text_eq_self s)

pub text_eq_iff : (s t : Text) → (text_eq s t ≡ true) ↔ (s ≡ t)
text_eq_iff s t = (text_eq_sound s t, λ e. rw e (text_eq_self t))

module _ (u : Unicode) where
  -- A word has a character, and none of its characters is a space.
  abbrev pub IsWord : Text → Type 0
  IsWord w = (w ≢ []) × All (λ c. u.is_space c ≡ false) w

  keep_word-IsWord :
      (w : Text) (ws : List Text)
      → All (λ c. u.is_space c ≡ false) w
      → All IsWord ws
      → All IsWord (keep_word w ws)
  keep_word-IsWord [] ws hw hs = hs
  keep_word-IsWord (c ∷ w) ws hw hs = ((λ e. cc, hw), hs)

  split_head-IsWord :
      (s : Text)
      → All (λ c. u.is_space c ≡ false) (split_head u s).0 × All IsWord (split_head u s).1
  unfolding split_head
  split_head-IsWord [] = (tt, tt)
  split_head-IsWord (c ∷ s) =
      let (hw, hs) = split_head-IsWord s in
      elim (Bool-cases (u.is_space c)) [
        | inl space ↦ rw space (tt, keep_word-IsWord _ _ hw hs)
        | inr letter ↦ rw letter ((letter, hw), hs)
      ]

  pub split-IsWord : (s : Text) → All IsWord (split u s)
  unfolding split
  split-IsWord s = let (hw, hs) = split_head-IsWord s in keep_word-IsWord _ _ hw hs

  split_head-append :
      (w s : Text)
      → All (λ c. u.is_space c ≡ false) w
      → split_head u (w ++ s) ≡ (w ++ (split_head u s).0, (split_head u s).1)
  unfolding split_head
  split_head-append [] s h = refl
  split_head-append (c ∷ w) s h = rw (split_head-append w s h.1, h.0)

  split_head-blank : (s : Text) → u.is_space 32 ≡ true → split_head u (32 ∷ s) ≡ ([], split u s)
  unfolding split split_head
  split_head-blank s blank = rw blank

  keep_word-cons : (w : Text) (ws : List Text) → w ≢ [] → keep_word w ws ≡ w ∷ ws
  keep_word-cons [] ws h = absurd (h refl)
  keep_word-cons (c ∷ w) ws h = refl

  split-append :
      (w s : Text)
      → All (λ c. u.is_space c ≡ false) w
      → split u (w ++ s) ≡ keep_word (w ++ (split_head u s).0) (split_head u s).1
  unfolding split
  split-append w s h = rw (split_head-append w s h)

  split_blank_append :
      (w s : Text) → u.is_space 32 ≡ true → IsWord w → split u (w ++ (32 ∷ s)) ≡ w ∷ split u s
  split_blank_append w s blank h =
      rw (split-append w (32 ∷ s) h.1, split_head-blank s blank, append-nil)
        (keep_word-cons w (split u s) h.0)

  split_word : (w : Text) → IsWord w → split u w ≡ w ∷ []
  unfolding split_head
  split_word w h =
      ap (split u) (sym (append-nil w))
      ∙ rw (split-append w [] h.1, append-nil) (keep_word-cons w [] h.0)

  -- Splitting gives the words back that were joined.
  pub split-join_words :
      (ws : List Text) → u.is_space 32 ≡ true → All IsWord ws → split u (join_words ws) ≡ ws
  unfolding split join_words
  split-join_words [] blank h = refl
  split-join_words (w ∷ []) blank h = split_word w h.0
  split-join_words (w ∷ v ∷ ws) blank h =
      rw (split_blank_append w (join_words (v ∷ ws)) blank h.0)
        (ap (λ r. w ∷ r) (split-join_words (v ∷ ws) blank h.1))

  -- Collapsing white space a second time changes nothing.
  pub collapse_idem : IsLawful u → (s : Text) → collapse u (collapse u s) ≡ collapse u s
  unfolding collapse
  collapse_idem law s =
      ap join_words (split-join_words (split u s) law.blank_is_space (split-IsWord s))

  -- Collapsing white space keeps the words.
  pub split-collapse : IsLawful u → (s : Text) → split u (collapse u s) ≡ split u s
  unfolding collapse
  split-collapse law s = split-join_words (split u s) law.blank_is_space (split-IsWord s)
