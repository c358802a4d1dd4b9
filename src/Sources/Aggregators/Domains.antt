-- ===== src/Sources/Aggregators/Domains.antt =====
-- infrastructure/source_authority/aggregator_blocklist.py: which domains are known aggregators.
use hungrx_agent.Prelude.{
  ℕ, ◌≡◌, ◌↔◌, ◌⊎◌, inl, inr, refl, sym, ap, ◌∙◌, Bool, true, false, not, ◌&&◌, ◌||◌, List, [], ◌∷◌,
  ◌++◌, ◌==◌, ==_iff, is_empty, arith, Bool-cases,
}
use hungrx_agent.Text.{Text, Unicode, is_member, text_eq}
use hungrx_agent.Text.Words.{text_eq_iff}
use hungrx_agent.Sources.Aggregators.{
  known_aggregator_domains, split_dots, join_dots, any_parent, has_known_parent,
  is_known_aggregator,
}

-- The text has a dot.
pub has_dot : Text → Bool
has_dot [] = false
has_dot (c ∷ s) = (c == 46) || has_dot s

-- The domain is a known one, or ends with a dot and a known one.
abbrev pub IsUnderKnown : List Text → Text → Type 0
IsUnderKnown known domain =
    (is_member domain known ≡ true)
    ⊎ ((sub : Text) × (parent : Text) × (is_member parent known ≡ true)
        × (domain ≡ sub ++ (46 ∷ parent)))

join_dots-cons :
    (c : ℕ) (part : Text) (parts : List Text)
    → join_dots (c ∷ part) parts ≡ c ∷ join_dots part parts
unfolding join_dots
join_dots-cons c part [] = refl
join_dots-cons c part (next ∷ parts) = refl

join_dots-split_dots : (s : Text) → join_dots (split_dots s).0 (split_dots s).1 ≡ s
unfolding split_dots join_dots
join_dots-split_dots [] = refl
join_dots-split_dots (c ∷ s) = elim (Bool-cases (c == 46)) [
  | inl e ↦ rw e (cc ((==_iff c 46).0 e, join_dots-split_dots s))
  | inr e ↦ rw e (
      join_dots-cons c (split_dots s).0 (split_dots s).1 ∙ ap (λ t. c ∷ t) (join_dots-split_dots s))
]

is_empty-split_dots : (s : Text) → not (is_empty (split_dots s).1) ≡ has_dot s
unfolding split_dots has_dot
is_empty-split_dots [] = refl
is_empty-split_dots (c ∷ s) = elim (Bool-cases (c == 46)) [
  | inl e ↦ rw e refl
  | inr e ↦ rw e (is_empty-split_dots s)
]

module _ (known : List Text)
    (dotted : (k : Text) → is_member k known ≡ true → has_dot k ≡ true) where
  -- What follows a dot of the text is known.
  after_dot : Text → Bool
  after_dot [] = false
  after_dot (c ∷ s) = ((c == 46) && is_member s known) || after_dot s

  later_parents : List Text → Bool
  later_parents [] = false
  later_parents (part ∷ parts) = any_parent known part parts

  any_parent_lem :
      (part : Text) (parts : List Text)
      → any_parent known part parts
        ≡ ((not (is_empty parts) && is_member (join_dots part parts) known) || later_parents parts)
  unfolding any_parent later_parents
  any_parent_lem part [] = refl
  any_parent_lem part (next ∷ parts) = refl

  known_has_dot : (s : Text) → (has_dot s && is_member s known) ≡ is_member s known
  known_has_dot s = ground (arith, dotted s)

  -- Of the parts of a text: the text itself is looked up if it has a dot.
  parents_of_text :
      (s : Text)
      → later_parents (split_dots s).1 ≡ after_dot s
      → any_parent known (split_dots s).0 (split_dots s).1 ≡ (is_member s known || after_dot s)
  parents_of_text s h =
      any_parent_lem (split_dots s).0 (split_dots s).1
      ∙ rw (is_empty-split_dots s, join_dots-split_dots s, h, known_has_dot s)

  later_parents_lem : (s : Text) → later_parents (split_dots s).1 ≡ after_dot s
  unfolding later_parents after_dot split_dots
  later_parents_lem [] = refl
  later_parents_lem (c ∷ s) = elim (Bool-cases (c == 46)) [
    | inl e ↦ rw e (parents_of_text s (later_parents_lem s))
    | inr e ↦ rw e (later_parents_lem s)
  ]

  after_dot_sound :
      (s : Text)
      → after_dot s ≡ true
      → (sub : Text) × (parent : Text) × (is_member parent known ≡ true)
        × (s ≡ sub ++ (46 ∷ parent))
  unfolding after_dot
  after_dot_sound [] h = absurd (cc h)
  after_dot_sound (c ∷ s) h = elim (Bool-cases ((c == 46) && is_member s known)) [
    | inl e ↦ ([], s, ground (arith, e), ap (λ x. x ∷ s) ((==_iff c 46).0 (ground (arith, e))))
    | inr e ↦
        let (sub, parent, m, q) = after_dot_sound s (rw e at h) in
        (c ∷ sub, parent, m, ap (λ t. c ∷ t) q)
  ]

  after_dot_complete :
      (sub parent : Text) → is_member parent known ≡ true → after_dot (sub ++ (46 ∷ parent)) ≡ true
  unfolding after_dot
  after_dot_complete [] parent m = rw m refl
  after_dot_complete (c ∷ sub) parent m = ground (arith, after_dot_complete sub parent m)

  has_known_parent_iff : (s : Text) → (has_known_parent known s ≡ true) ↔ IsUnderKnown known s
  unfolding has_known_parent
  has_known_parent_iff s =
      let e = parents_of_text s (later_parents_lem s) in
      (
        λ h. elim (Bool-cases (is_member s known)) [
          | inl m ↦ inl m
          | inr n ↦ inr (after_dot_sound s (ground (arith, sym e ∙ h, n)))
        ],
        λ h. elim h [
          | inl m ↦ e ∙ rw m refl
          | inr (sub, parent, m, q) ↦
              let under : after_dot s ≡ true = ap after_dot q ∙ after_dot_complete sub parent m in
              e ∙ ground (arith, under)
        ],
      )

-- Every domain of the list has a dot.
abbrev all_dotted : List Text → Bool
all_dotted [] = true
all_dotted (k ∷ known) = has_dot k && all_dotted known

dotted_of_member :
    (known : List Text)
    → all_dotted known ≡ true
    → (k : Text) → is_member k known ≡ true
    → has_dot k ≡ true
unfolding is_member
dotted_of_member [] h k m = absurd (cc m)
dotted_of_member (x ∷ known) h k m = elim (Bool-cases (text_eq x k)) [
  | inl e ↦ ap has_dot (sym ((text_eq_iff x k).0 e)) ∙ ground (arith, h)
  | inr e ↦ dotted_of_member known (ground (arith, h)) k (rw e at m)
]

known_are_dotted : all_dotted known_aggregator_domains ≡ true
unfolding has_dot
known_are_dotted = refl

-- A domain is taken for a known aggregator exactly when it is, in lower case, a domain of the list or ends
-- with a dot and a domain of the list.
pub is_known_aggregator_iff :
    (u : Unicode) (domain : Text)
    → (is_known_aggregator u domain ≡ true) ↔ IsUnderKnown known_aggregator_domains (u.lower domain)
unfolding is_known_aggregator
is_known_aggregator_iff u domain =
    has_known_parent_iff known_aggregator_domains
      (dotted_of_member known_aggregator_domains known_are_dotted) (u.lower domain)
