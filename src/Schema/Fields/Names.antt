-- ===== src/Schema/Fields/Names.antt =====
-- core/schemas/menu.py and restaurant.py: what the validator of names accepts.
use hungrx_agent.Prelude.{
  ℕ, ◌≡◌, refl, ap, sym, ◌∙◌, ◌≢◌, ◌↔◌, inl, inr, true, false, Option, Option-cases, none, some, [],
  ◌∷◌, All, arith, Bool-cases, is_empty, ◌&&◌, if◌then◌else◌, length, ◌≤◌, ◌⊎◌,
}
use hungrx_agent.Text.{Text, Unicode, drop_spaces, drop_trailing, strip}
use hungrx_agent.Schema.Fields.{name_field, has_length}

module _ (u : Unicode) where
  abbrev pub IsBlank : Text → Type 0
  IsBlank = All (λ c. u.is_space c ≡ true)

  -- The text does not begin with a space.
  abbrev pub IsTrimmed : Text → Type 0
  IsTrimmed [] = Unit
  IsTrimmed (c ∷ s) = u.is_space c ≡ false

  drop_spaces-IsTrimmed : (s : Text) → IsTrimmed (drop_spaces u s)
  unfolding drop_spaces
  drop_spaces-IsTrimmed [] = tt
  drop_spaces-IsTrimmed (c ∷ s) = elim (Bool-cases (u.is_space c)) [
    | inl e ↦ rw e (drop_spaces-IsTrimmed s)
    | inr e ↦ rw e e
  ]

  drop_spaces-eq_self : (s : Text) → IsTrimmed s → drop_spaces u s ≡ s
  unfolding drop_spaces
  drop_spaces-eq_self [] h = refl
  drop_spaces-eq_self (c ∷ s) h = rw h

  drop_spaces-eq-nil : (s : Text) → drop_spaces u s ≡ [] → IsBlank s
  unfolding drop_spaces
  drop_spaces-eq-nil [] h = tt
  drop_spaces-eq-nil (c ∷ s) h = elim (Bool-cases (u.is_space c)) [
    | inl e ↦ (e, drop_spaces-eq-nil s (rw (e, drop_spaces) at h))
    | inr e ↦ absurd (cc (rw (e, drop_spaces) at h))
  ]

  drop_spaces-IsBlank : (s : Text) → IsBlank s → drop_spaces u s ≡ []
  unfolding drop_spaces
  drop_spaces-IsBlank [] h = refl
  drop_spaces-IsBlank (c ∷ s) h = rw h.0 (drop_spaces-IsBlank s h.1)

  -- The text does not end with a space.
  abbrev pub IsTrimmedRight : Text → Type 0
  IsTrimmedRight [] = Unit
  IsTrimmedRight (c ∷ []) = u.is_space c ≡ false
  IsTrimmedRight (c ∷ d ∷ s) = IsTrimmedRight (d ∷ s)

  abbrev pub IsStripped : Text → Type 0
  IsStripped s = IsTrimmed s × IsTrimmedRight s

  IsTrimmedRight-cons : (c : ℕ) (s : Text) → s ≢ [] → IsTrimmedRight s → IsTrimmedRight (c ∷ s)
  IsTrimmedRight-cons c [] n h = absurd (n refl)
  IsTrimmedRight-cons c (d ∷ s) n h = h

  drop_trailing-IsTrimmedRight : (s : Text) → IsTrimmedRight (drop_trailing u s)
  unfolding drop_trailing
  drop_trailing-IsTrimmedRight [] = tt
  drop_trailing-IsTrimmedRight (c ∷ s) = last (drop_trailing u s) (drop_trailing-IsTrimmedRight s)
    where
      last :
          (rest : Text)
          → IsTrimmedRight rest
          → IsTrimmedRight (if is_empty rest && u.is_space c then [] else c ∷ rest)
      last [] h = elim (Bool-cases (u.is_space c)) [ inl e ↦ rw e tt | inr e ↦ rw e e ]
      last (d ∷ rest) h = h

  drop_trailing-IsTrimmed : (s : Text) → IsTrimmed s → IsTrimmed (drop_trailing u s)
  unfolding drop_trailing
  drop_trailing-IsTrimmed [] h = tt
  drop_trailing-IsTrimmed (c ∷ s) h = rw h (first (drop_trailing u s))
    where
      first : (rest : Text) → IsTrimmed (if is_empty rest && false then [] else c ∷ rest)
      first [] = h
      first (d ∷ rest) = h

  drop_trailing-cons :
      (c : ℕ) {d : ℕ} (s : Text) {t : Text}
      → drop_trailing u s ≡ d ∷ t
      → drop_trailing u (c ∷ s) ≡ c ∷ d ∷ t
  unfolding drop_trailing
  drop_trailing-cons c s h = rw (h, drop_trailing)

  drop_trailing-eq_self : (s : Text) → IsTrimmedRight s → drop_trailing u s ≡ s
  unfolding drop_trailing
  drop_trailing-eq_self [] h = refl
  drop_trailing-eq_self (c ∷ []) h = rw h
  drop_trailing-eq_self (c ∷ d ∷ s) h =
      drop_trailing-cons c (d ∷ s) (drop_trailing-eq_self (d ∷ s) h)

  pub strip-IsStripped : (s : Text) → IsStripped (strip u s)
  unfolding strip
  strip-IsStripped s = (
    drop_trailing-IsTrimmed _ (drop_spaces-IsTrimmed s),
    drop_trailing-IsTrimmedRight (drop_spaces u s),
  )

  pub strip-eq_self : (s : Text) → IsStripped s → strip u s ≡ s
  unfolding strip
  strip-eq_self s h = rw (drop_spaces-eq_self s h.0, drop_trailing-eq_self s h.1)

  drop_trailing-eq-nil : (s : Text) → IsTrimmed s → drop_trailing u s ≡ [] → s ≡ []
  unfolding drop_trailing
  drop_trailing-eq-nil [] h e = refl
  drop_trailing-eq-nil (c ∷ s) h e = ground arith

  pub strip-eq-nil_iff : (s : Text) → (strip u s ≡ []) ↔ IsBlank s
  unfolding strip
  strip-eq-nil_iff s = (
    λ e. drop_spaces-eq-nil s (drop_trailing-eq-nil _ (drop_spaces-IsTrimmed s) e),
    λ b. rw (drop_spaces-IsBlank s b),
  )

  length-drop_spaces : (s : Text) → length (drop_spaces u s) ≤ length s
  unfolding drop_spaces
  length-drop_spaces [] = omega arith
  length-drop_spaces (c ∷ s) = ground (arith, length-drop_spaces s)

  length-drop_trailing : (s : Text) → length (drop_trailing u s) ≤ length s
  unfolding drop_trailing
  length-drop_trailing [] = omega arith
  length-drop_trailing (c ∷ s) = ground (arith, length-drop_trailing s)

  length-strip : (s : Text) → length (strip u s) ≤ length s
  unfolding strip
  length-strip s = omega (arith, length-drop_trailing (drop_spaces u s), length-drop_spaces s)

  name_field-eq-some :
      (value : Text) {name : Text}
      → name_field u value ≡ some name
      → (has_length 1 255 value ≡ true) × (name ≡ strip u value) × (name ≢ [])
  unfolding name_field
  name_field-eq-some value h = ground arith

  name_field_of :
      (value : Text)
      → has_length 1 255 value ≡ true
      → strip u value ≢ []
      → name_field u value ≡ some (strip u value)
  unfolding name_field
  name_field_of value h n = ground arith

  has_length_shorter :
      (lo hi : ℕ) (s t : Text)
      → length t ≤ length s
      → lo ≤ length t
      → has_length lo hi s ≡ true
      → has_length lo hi t ≡ true
  unfolding has_length
  has_length_shorter lo hi s t h k e = ground arith

  -- What an accepted name is
  pub name_field-accepted :
      (value name : Text)
      → name_field u value ≡ some name
      → (name ≢ []) × IsStripped name × (name_field u name ≡ some name)
  name_field-accepted value name h =
      let (fits, e, nonempty) = name_field-eq-some value h in
      let stripped : IsStripped name = rw e (strip-IsStripped value) in
      let same = strip-eq_self name stripped in
      let shorter : length name ≤ length value = rw e (length-strip value) in
      (
        nonempty,
        stripped,
        name_field_of name (has_length_shorter 1 255 value name shorter (ground arith) fits)
              (λ k. nonempty (sym same ∙ k))
            ∙ ap some same,
      )

  name_field-none :
      (value : Text)
      → name_field u value ≡ none
      → (has_length 1 255 value ≡ false) ⊎ (strip u value ≡ [])
  unfolding name_field
  name_field-none value h = ground arith

  name_field_of_blank : (value : Text) → strip u value ≡ [] → name_field u value ≡ none
  unfolding name_field
  name_field_of_blank value h = ground arith

  name_field_of_length : (value : Text) → has_length 1 255 value ≡ false → name_field u value ≡ none
  unfolding name_field
  name_field_of_length value h = ground arith

  -- Which names are refused
  pub name_field_rejects :
      (value : Text)
      → (name_field u value ≡ none) ↔ ((has_length 1 255 value ≡ false) ⊎ IsBlank value)
  name_field_rejects value = (
    λ h. elim (name_field-none value h) [
      | inl long ↦ inl long
      | inr blank ↦ inr ((strip-eq-nil_iff value).0 blank)
    ],
    λ h. elim h [
      | inl long ↦ name_field_of_length value long
      | inr blank ↦ name_field_of_blank value ((strip-eq-nil_iff value).1 blank)
    ],
  )

  abbrev pub IsNameField : Text → Option Text → Type 0
  IsNameField value none = (has_length 1 255 value ≡ false) ⊎ IsBlank value
  IsNameField value (some name) =
      (has_length 1 255 value ≡ true)
      × (name ≡ strip u value)
      × (name ≢ [])
      × IsStripped name
      × (name_field u name ≡ some name)

  -- The field refuses a name only if it has no or more than 255 characters or only white space. A name that
  -- it accepts has none of these faults, is stored without the white space at its ends and is not empty, and
  -- the field accepts the stored name again and leaves it as it is.
  pub name_field_lem : (value : Text) → IsNameField value (name_field u value)
  name_field_lem value = elim (Option-cases (name_field u value)) [
    | inl e ↦ rw e ((name_field_rejects value).0 e)
    | inr (name, e) ↦
        let (fits, same, nonempty) = name_field-eq-some value e in
        let (kept, stripped, again) = name_field-accepted value name e in
        rw e (fits, same, nonempty, stripped, again)
  ]
