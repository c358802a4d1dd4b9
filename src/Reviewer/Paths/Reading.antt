-- ===== src/Reviewer/Paths/Reading.antt =====
-- workflows/reviewer_workflow/nodes/json_delta_generation.py: a path that DeepDiff writes is read back.
use hungrx_agent.Prelude.{
  ℕ, ◌≡◌, refl, ap, ◌∙◌, true, false, some, List, [], ◌∷◌, ◌++◌, ◌==◌, map, All, append_assoc,
  append-nil, arith,
}
use hungrx_agent.Text.{Text, starts_with}
use hungrx_agent.Reviewer.Paths.{
  if_token, then_parts, dotted_path, at_token, at_key, lookup_tokens, reference_tokens,
}
use hungrx_agent.Reviewer.Paths.Dotted.{
  Step, name, item, step_text, is_plain, IsPlain, IsPlainStep, unclosed, deepdiff_path, tail_text,
  head_text, dotted_parts-steps_text, join_parts-head,
}

if_token_plain : (k : Text) (parts : List Text) → IsPlain k → if_token k parts ≡ k ∷ parts
if_token_plain [] parts h = absurd h
if_token_plain (c ∷ k) parts h = refl

plain : (k : Text) → IsPlain k → All (λ c. is_plain c ≡ true) k
plain [] h = absurd h
plain (c ∷ k) h = h

-- A plain character is no dot, and opens and closes no bracket.
no_mark :
    (c : ℕ) → is_plain c ≡ true → ((c == 46) ≡ false) × ((c == 91) ≡ false) × ((c == 93) ≡ false)
no_mark c h = ground arith

at_token-append :
    (token w s : Text)
    → All (λ c. is_plain c ≡ true) w
    → lookup_tokens (at_token token) (w ++ s) ≡ lookup_tokens (at_token (token ++ w)) s
unfolding lookup_tokens
at_token-append token [] s h = rw (append-nil token) refl
at_token-append token (c ∷ w) s h =
    let (dot, opening, closing) = no_mark c h.0 in
    rw (dot, lookup_tokens)
      (rw (opening, lookup_tokens)
        (at_token-append (token ++ (c ∷ [])) w s h.1
          ∙ ap (λ t. lookup_tokens (at_token t) s) (append_assoc token (c ∷ []) w)))

at_key-append :
    (k w s : Text)
    → All (λ c. (c == 93) ≡ false) w
    → lookup_tokens (at_key k) (w ++ s) ≡ lookup_tokens (at_key (k ++ w)) s
unfolding lookup_tokens
at_key-append k [] s h = rw (append-nil k) refl
at_key-append k (c ∷ w) s h =
    rw (h.0, lookup_tokens)
      (at_key-append (k ++ (c ∷ [])) w s h.1
        ∙ ap (λ t. lookup_tokens (at_key t) s) (append_assoc k (c ∷ []) w))

reference_tokens-append :
    (token w s : Text)
    → All (λ c. is_plain c ≡ true) w
    → reference_tokens token (w ++ s) ≡ reference_tokens (token ++ w) s
unfolding reference_tokens
reference_tokens-append token [] s h = rw (append-nil token) refl
reference_tokens-append token (c ∷ w) s h =
    let (dot, opening, closing) = no_mark c h.0 in
    rw (closing, reference_tokens)
      (rw (dot, reference_tokens)
        (rw (opening, reference_tokens)
          (reference_tokens-append (token ++ (c ∷ [])) w s h.1
            ∙ ap (λ t. reference_tokens t s) (append_assoc token (c ∷ []) w))))

lookup_tokens-tail :
    (token : Text) (steps : List Step)
    → All IsPlainStep steps
    → lookup_tokens (at_token token) (tail_text steps) ≡ some (if_token token (map step_text steps))
unfolding lookup_tokens tail_text
lookup_tokens-tail token [] h = refl
lookup_tokens-tail token (name k ∷ steps) h = ap (then_parts (if_token token)) (
    at_token-append [] k (tail_text steps) (plain k h.0)
    ∙ lookup_tokens-tail k steps h.1
    ∙ ap some (if_token_plain k (map step_text steps) h.0))
lookup_tokens-tail token (item d ∷ steps) h = ap (then_parts (if_token token)) (
    at_key-append [] d (93 ∷ tail_text steps) (unclosed d h.0)
    ∙ ap (then_parts (λ tokens. d ∷ tokens)) (lookup_tokens-tail [] steps h.1))

reference_tokens-tail :
    (token : Text) (steps : List Step)
    → All IsPlainStep steps
    → reference_tokens token (tail_text steps) ≡ if_token token (map step_text steps)
unfolding reference_tokens tail_text
reference_tokens-tail token [] h = refl
reference_tokens-tail token (name k ∷ steps) h = ap (if_token token) (
    reference_tokens-append [] k (tail_text steps) (plain k h.0)
    ∙ reference_tokens-tail k steps h.1
    ∙ if_token_plain k (map step_text steps) h.0)
reference_tokens-tail token (item d ∷ steps) h = ap (if_token token) (
    reference_tokens-append [] d (93 ∷ tail_text steps) (plain d h.0)
    ∙ reference_tokens-tail d steps h.1
    ∙ if_token_plain d (map step_text steps) h.0)

heads_read :
    (steps : List Step)
    → All IsPlainStep steps
    → (lookup_tokens (at_token []) (head_text steps) ≡ some (map step_text steps))
      × (reference_tokens [] (head_text steps) ≡ map step_text steps)
unfolding head_text
heads_read [] h = (lookup_tokens-tail [] [] h, reference_tokens-tail [] [] h)
heads_read (name k ∷ steps) h = (
  at_token-append [] k (tail_text steps) (plain k h.0)
      ∙ lookup_tokens-tail k steps h.1
      ∙ ap some (if_token_plain k (map step_text steps) h.0),
  reference_tokens-append [] k (tail_text steps) (plain k h.0)
      ∙ reference_tokens-tail k steps h.1
      ∙ if_token_plain k (map step_text steps) h.0,
)
heads_read (item d ∷ steps) h =
    (lookup_tokens-tail [] (item d ∷ steps) h, reference_tokens-tail [] (item d ∷ steps) h)

-- A path that DeepDiff writes, of names and indices that are not empty and have no quote, dot or bracket,
-- has a dotted form, and both of the functions that read the dotted form read the names and indices of
-- the path, in order.
pub dotted_path-deepdiff_path :
    (steps : List Step)
    → All IsPlainStep steps
    → (dotted : Text) × (dotted_path (deepdiff_path steps) ≡ some dotted)
      × (lookup_tokens (at_token []) dotted ≡ some (map step_text steps))
      × (reference_tokens [] dotted ≡ map step_text steps)
unfolding dotted_path deepdiff_path starts_with
dotted_path-deepdiff_path steps h =
    let read = heads_read steps h in
    (
      head_text steps,
      rw (dotted_parts-steps_text steps h) (ap some (join_parts-head steps h)),
      read.0,
      read.1,
    )
