-- ===== src/Sources/Authority/Ranking.antt =====
-- apps/api/app/services/source_authority_service.py: the candidates in order of their confidence.
use hungrx_agent.Prelude.{
  ◌≡◌, ◌⊎◌, inl, inr, Bool, false, Bool-cases, List, [], ◌∷◌, All, All-map_pred,
}
use hungrx_agent.Decimal.{less}
use hungrx_agent.Decimal.Order.{less_trans, less_asymm}
use hungrx_agent.Sources.Results.{EntityCandidate}
use hungrx_agent.Sources.Authority.{insert_ranked, rank}

abbrev pub exceeds : EntityCandidate → EntityCandidate → Bool
exceeds d c = less c.provider_confidence d.provider_confidence

-- The candidate is one of the list.
abbrev pub IsOneOf : EntityCandidate → List EntityCandidate → Type 0
IsOneOf c [] = ⊥
IsOneOf c (d ∷ ds) = (c ≡ d) ⊎ IsOneOf c ds

abbrev pub IsRanked : List EntityCandidate → Type 0
IsRanked [] = Unit
IsRanked (c ∷ cs) = All (λ d. exceeds d c ≡ false) cs × IsRanked cs

-- Of three, if the second does not exceed the first, nor the third the second
exceeds_trans :
    (c d e : EntityCandidate) → exceeds d c ≡ false → exceeds e d ≡ false → exceeds e c ≡ false
exceeds_trans c d e h k = elim (Bool-cases (exceeds e c)) [
  | inl more ↦
      absurd (
        cc (less_trans d.provider_confidence c.provider_confidence e.provider_confidence h more, k))
  | inr less_sure ↦ less_sure
]

module _ (P : EntityCandidate → Type 0) where
  All-insert_ranked :
      (c : EntityCandidate) (ds : List EntityCandidate)
      → P c
      → All P ds
      → All P (insert_ranked c ds)
  unfolding insert_ranked
  All-insert_ranked c [] p h = (p, tt)
  All-insert_ranked c (d ∷ ds) p h = elim (Bool-cases (exceeds d c)) [
    | inl e ↦ rw (e, insert_ranked) (h.0, All-insert_ranked c ds p h.1)
    | inr e ↦ rw (e, insert_ranked) (p, h)
  ]

  -- What holds of all that are inserted into holds of those before.
  All-of_insert :
      (c : EntityCandidate) (ds : List EntityCandidate)
      → All P (insert_ranked c ds)
      → P c × All P ds
  unfolding insert_ranked
  All-of_insert c [] h = h
  All-of_insert c (d ∷ ds) h = elim (Bool-cases (exceeds d c)) [
    | inl e ↦
        let k : P d × All P (insert_ranked c ds) = rw (e, insert_ranked) at h in
        let (first, rest) = All-of_insert c ds k.1 in (first, (k.0, rest))
    | inr e ↦ rw (e, insert_ranked) at h
  ]

  pub All-of_rank : (cs : List EntityCandidate) → All P (rank cs) → All P cs
  unfolding rank
  All-of_rank [] h = tt
  All-of_rank (c ∷ cs) h =
      let (first, rest) = All-of_insert c (rank cs) h in (first, All-of_rank cs rest)

insert_ranked-IsRanked :
    (c : EntityCandidate) (ds : List EntityCandidate) → IsRanked ds → IsRanked (insert_ranked c ds)
unfolding insert_ranked
insert_ranked-IsRanked c [] h = (tt, tt)
insert_ranked-IsRanked c (d ∷ ds) h = elim (Bool-cases (exceeds d c)) [
  | inl e ↦
      rw (e, insert_ranked)
        (
          All-insert_ranked (λ x. exceeds x d ≡ false) c ds
              (less_asymm c.provider_confidence d.provider_confidence e) h.0,
          insert_ranked-IsRanked c ds h.1,
        )
  | inr e ↦
      rw (e, insert_ranked)
        (
          (
            e,
            All-map_pred (λ x. exceeds x d ≡ false) (λ x. exceeds x c ≡ false)
                (λ x k. exceeds_trans c d x e k) ds h.0,
          ),
          h,
        )
]

pub rank-IsRanked : (cs : List EntityCandidate) → IsRanked (rank cs)
unfolding rank
rank-IsRanked [] = tt
rank-IsRanked (c ∷ cs) = insert_ranked-IsRanked c (rank cs) (rank-IsRanked cs)

IsOneOf-of_insert :
    (x c : EntityCandidate) (ds : List EntityCandidate)
    → IsOneOf x (insert_ranked c ds)
    → IsOneOf x (c ∷ ds)
unfolding insert_ranked
IsOneOf-of_insert x c [] h = h
IsOneOf-of_insert x c (d ∷ ds) h = elim (Bool-cases (exceeds d c)) [
  | inl e ↦
      let k : (x ≡ d) ⊎ IsOneOf x (insert_ranked c ds) = rw (e, insert_ranked) at h in
      elim k [
        | inl same ↦ inr (inl same)
        | inr rest ↦ elim (IsOneOf-of_insert x c ds rest) [
          | inl same ↦ inl same
          | inr there ↦ inr (inr there)
        ]
      ]
  | inr e ↦ rw (e, insert_ranked) at h
]

pub IsOneOf-of_rank :
    (x : EntityCandidate) (cs : List EntityCandidate) → IsOneOf x (rank cs) → IsOneOf x cs
unfolding rank
IsOneOf-of_rank x [] h = h
IsOneOf-of_rank x (c ∷ cs) h = elim (IsOneOf-of_insert x c (rank cs) h) [
  | inl same ↦ inl same
  | inr there ↦ inr (IsOneOf-of_rank x cs there)
]
