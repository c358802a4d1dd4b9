-- ===== src/Reviewer/Paths/Dotted.antt =====
-- workflows/reviewer_workflow/nodes/json_delta_generation.py: the paths as DeepDiff writes them, and the dotted
-- form that is made of them.
use hungrx_agent.Prelude.{
  ℕ, ◌≡◌, refl, sym, ap, ◌∙◌, Bool, true, false, not, ◌&&◌, some, List, [], ◌∷◌, ◌++◌, ◌==◌, map,
  is_empty, All, All-map_pred, All-append, append_assoc, append-nil, arith,
}
use hungrx_agent.Text.{Text, text, starts_with}
use hungrx_agent.Reviewer.Paths.{
  ends_with, drop_last, then_parts, outside, inside, dotted_parts, join_part, join_parts,
}

-- A step of a path: a field's name, or the digits of an index
pub data Step : Type 0 where
  name item : Text → Step

abbrev pub step_text : Step → Text
step_text (name k) = k
step_text (item d) = d

-- No quote, dot or bracket
abbrev pub is_plain : ℕ → Bool
is_plain c = not (c == 39) && (not (c == 46) && (not (c == 91) && not (c == 93)))

abbrev pub IsPlain : Text → Type 0
IsPlain [] = ⊥
IsPlain (c ∷ s) = All (λ c. is_plain c ≡ true) (c ∷ s)

-- The steps as DeepDiff writes them, `['menus'][0]`
unfoldable pub steps_text : List Step → Text
steps_text [] = []
steps_text (name k ∷ steps) = 91 ∷ 39 ∷ (k ++ (39 ∷ 93 ∷ steps_text steps))
steps_text (item d ∷ steps) = 91 ∷ (d ++ (93 ∷ steps_text steps))

-- `root['menus'][0]`
unfoldable pub deepdiff_path : List Step → Text
unfolding steps_text
deepdiff_path steps = text "root" ++ steps_text steps

abbrev pub part : Step → Text
part (name k) = k
part (item d) = 91 ∷ (d ++ (93 ∷ []))

-- The steps as they follow others in a dotted path
unfoldable pub tail_text : List Step → Text
tail_text [] = []
tail_text (name k ∷ steps) = 46 ∷ (k ++ tail_text steps)
tail_text (item d ∷ steps) = 91 ∷ (d ++ (93 ∷ tail_text steps))

unfoldable pub head_text : List Step → Text
unfolding tail_text
head_text (name k ∷ steps) = k ++ tail_text steps
head_text steps = tail_text steps

not_closing : (c : ℕ) → is_plain c ≡ true → (c == 93) ≡ false
not_closing c h = ground arith

-- A key is read up to its bracket.
inside-append :
    (token key w s : Text)
    → All (λ c. (c == 93) ≡ false) w
    → dotted_parts (inside token key) (w ++ s) ≡ dotted_parts (inside token (key ++ w)) s
unfolding dotted_parts
inside-append token key [] s h = rw (append-nil key) refl
inside-append token key (c ∷ w) s h =
    rw (h.0, dotted_parts)
      (inside-append token (key ++ (c ∷ [])) w s h.1
        ∙ ap (λ k. dotted_parts (inside token k) s) (append_assoc key (c ∷ []) w))

ends_with-quote : (k : Text) → ends_with (39 ∷ (k ++ (39 ∷ []))) 39 ≡ true
unfolding ends_with
ends_with-quote k = last 39 k
  where
    last : (c : ℕ) (k : Text) → ends_with (c ∷ (k ++ (39 ∷ []))) 39 ≡ true
    last c [] = refl
    last c (d ∷ k) = last d k

drop_last-quote : (k : Text) → drop_last (k ++ (39 ∷ [])) ≡ k
unfolding drop_last
drop_last-quote [] = refl
drop_last-quote (c ∷ []) = refl
drop_last-quote (c ∷ d ∷ k) = ap (λ s. c ∷ s) (drop_last-quote (d ∷ k))

plain_unquoted : (d : Text) → IsPlain d → (starts_with d (39 ∷ []) && ends_with d 39) ≡ false
unfolding starts_with
plain_unquoted [] h = absurd h
plain_unquoted (c ∷ d) h = rw (not_quote c h.0) refl
  where
    not_quote : (c : ℕ) → is_plain c ≡ true → (c == 39) ≡ false
    not_quote c h = ground arith

abbrev pub IsPlainStep : Step → Type 0
IsPlainStep s = IsPlain (step_text s)

pub unclosed : (k : Text) → IsPlain k → All (λ c. (c == 93) ≡ false) k
unclosed [] h = absurd h
unclosed (c ∷ k) h =
    All-map_pred (λ c. is_plain c ≡ true) (λ c. (c == 93) ≡ false) not_closing (c ∷ k) h

inside-close_quoted :
    (k s : Text)
    → dotted_parts (inside [] (39 ∷ (k ++ (39 ∷ [])))) (93 ∷ s)
      ≡ then_parts (λ parts. k ∷ parts) (dotted_parts (outside []) s)
unfolding dotted_parts
inside-close_quoted k s = rw (ends_with-quote k, dotted_parts) (rw (drop_last-quote k) refl)

inside-close_plain :
    (d s : Text)
    → IsPlain d
    → dotted_parts (inside [] d) (93 ∷ s)
      ≡ then_parts (λ parts. part (item d) ∷ parts) (dotted_parts (outside []) s)
unfolding dotted_parts
inside-close_plain d s h = rw (plain_unquoted d h, dotted_parts) refl

-- The parts of what DeepDiff writes
pub dotted_parts-steps_text :
    (steps : List Step)
    → All IsPlainStep steps
    → dotted_parts (outside []) (steps_text steps) ≡ some (map part steps)
unfolding dotted_parts steps_text
dotted_parts-steps_text [] h = refl
dotted_parts-steps_text (name k ∷ steps) h =
    let quoted : dotted_parts (inside [] (39 ∷ [])) (k ++ (39 ∷ 93 ∷ steps_text steps))
        ≡ dotted_parts (inside [] (39 ∷ (k ++ (39 ∷ [])))) (93 ∷ steps_text steps) =
      ap (dotted_parts (inside [] (39 ∷ [])))
        (sym (append_assoc k (39 ∷ []) (93 ∷ steps_text steps)))
      ∙ inside-append [] (39 ∷ []) (k ++ (39 ∷ [])) (93 ∷ steps_text steps)
          (All-append _ k (39 ∷ []) (unclosed k h.0) (refl, tt)) in
    quoted
    ∙ inside-close_quoted k (steps_text steps)
    ∙ ap (then_parts (λ parts. k ∷ parts)) (dotted_parts-steps_text steps h.1)
dotted_parts-steps_text (item d ∷ steps) h =
    inside-append [] [] d (93 ∷ steps_text steps) (unclosed d h.0)
    ∙ inside-close_plain d (steps_text steps) h.0
    ∙ ap (then_parts (λ parts. part (item d) ∷ parts)) (dotted_parts-steps_text steps h.1)

unbracketed : (k : Text) → IsPlain k → starts_with k (91 ∷ []) ≡ false
unfolding starts_with
unbracketed [] h = absurd h
unbracketed (c ∷ k) h = rw (not_bracket c h.0) refl
  where
    not_bracket : (c : ℕ) → is_plain c ≡ true → (c == 91) ≡ false
    not_bracket c h = ground arith

not_empty-append : (r s : Text) → is_empty r ≡ false → is_empty (r ++ s) ≡ false
not_empty-append [] s h = absurd (cc h)
not_empty-append (c ∷ r) s h = refl

not_empty : (k : Text) → IsPlain k → is_empty k ≡ false
not_empty [] h = absurd h
not_empty (c ∷ k) h = refl

join_part_name : (r k : Text) → is_empty r ≡ false → IsPlain k → join_part r k ≡ r ++ (46 ∷ k)
unfolding join_part
join_part_name r k n h = rw (unbracketed k h) (rw n refl)

join_part_first : (k : Text) → IsPlain k → join_part [] k ≡ k
unfolding join_part
join_part_first k h = rw (unbracketed k h) refl

-- The parts after the first
join_parts-tail :
    (r : Text) (steps : List Step)
    → is_empty r ≡ false
    → All IsPlainStep steps
    → join_parts r (map part steps) ≡ r ++ tail_text steps
unfolding join_parts join_part tail_text
join_parts-tail r [] n h = sym (append-nil r)
join_parts-tail r (name k ∷ steps) n h =
    ap (λ x. join_parts x (map part steps)) (join_part_name r k n h.0)
    ∙ join_parts-tail (r ++ (46 ∷ k)) steps (not_empty-append r (46 ∷ k) n) h.1
    ∙ append_assoc r (46 ∷ k) (tail_text steps)
join_parts-tail r (item d ∷ steps) n h =
    join_parts-tail (r ++ part (item d)) steps (not_empty-append r (part (item d)) n) h.1
    ∙ append_assoc r (part (item d)) (tail_text steps)
    ∙ ap (λ x. r ++ (91 ∷ x)) (append_assoc d (93 ∷ []) (tail_text steps))

pub join_parts-head :
    (steps : List Step) → All IsPlainStep steps → join_parts [] (map part steps) ≡ head_text steps
unfolding join_parts join_part head_text tail_text starts_with
join_parts-head [] h = refl
join_parts-head (name k ∷ steps) h =
    ap (λ x. join_parts x (map part steps)) (join_part_first k h.0)
    ∙ join_parts-tail k steps (not_empty k h.0) h.1
join_parts-head (item d ∷ steps) h =
    join_parts-tail (part (item d)) steps refl h.1
    ∙ ap (λ x. 91 ∷ x) (append_assoc d (93 ∷ []) (tail_text steps))
