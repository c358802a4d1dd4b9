-- ===== src/RateLimit/Attempts.antt =====
-- apps/api/app/core/rate_limit.py: how many attempts on one key a window lets through.
use hungrx_agent.Prelude.{
  ℕ, false, ap, ◌+◌, ◌≤◌, ◌<◌, ◌≡◌, refl, ◌∙◌, ◌⊎◌, inl, inr, Option, none, some, List, [], ◌∷◌,
  ◌==◌, ltb, leb, length, arith, Bool-cases, if◌then◌else◌,
}
use hungrx_agent.Text.{Text}
use hungrx_agent.RateLimit.{Redis, increment_and_check}
use hungrx_agent.RateLimit.Throttling.{
  Counter, IsLawful, IsIdle, Lasts, Spent, incremented, checked, checked_lem, entry_of_check,
  gone_later, is_live-Lasts,
}

abbrev pub smaller : ℕ → ℕ → ℕ
smaller a b = if leb a b then a else b

-- Every attempt comes in the window of 60 seconds that begins at a time.
abbrev pub AreInWindow : ℕ → List ℕ → Type 0
AreInWindow start [] = Unit
AreInWindow start (now ∷ times) = (start ≤ now) × (now < start + 60) × AreInWindow start times

-- A key that has counted exactly `n` attempts since a time
abbrev Counted : ℕ → ℕ → Option Counter → Type 0
Counted start n o =
    (n ≡ 0) × IsIdle start o
    ⊎ ((c : Counter) × (o ≡ some c) × (c.count ≡ n) × Lasts (start + 60) c.expires)

Spent-Counted : (start n : ℕ) (o : Option Counter) → Counted start n o → Spent start n o
Spent-Counted start n o s = elim s [ inl z ↦ inl z | inr (c, e, b, l) ↦ inr (c, e, omega arith, l) ]

count-checked : (now : ℕ) (o : Option Counter) → (checked now o).count ≡ (incremented now o).count
count-checked now o = elim (Bool-cases ((incremented now o).count == 1)) [
  | inl e ↦ rw e refl
  | inr e ↦ rw e refl
]

count-incremented :
    (start now n : ℕ) (o : Option Counter)
    → start ≤ now
    → now < start + 60
    → Counted start n o
    → (incremented now o).count ≡ n + 1
count-incremented start now n none h h' s = elim s [
  | inl (z, i) ↦ omega arith
  | inr (c, e, b, l) ↦ absurd (cc e)
]
count-incremented start now n (some d) h h' s = elim s [
  | inl (z, i) ↦ rw (gone_later start now d.expires h i) (omega arith)
  | inr (c, e, b, l) ↦
      let same : d ≡ c = cc e in
      let b' : d.count ≡ n = rw same b in
      let l' : Lasts (start + 60) d.expires = rw same l in
      rw (is_live-Lasts start now d.expires h' l') (omega arith)
]

incremented-IsIdle :
    (now : ℕ) (o : Option Counter)
    → IsIdle now o
    → incremented now o ≡ record { count = 1; expires = none }
incremented-IsIdle now none i = refl
incremented-IsIdle now (some d) i = rw i refl

module _ {R : Type 0} (redis : Redis R) where
  -- Of attempts on a key that come one after the other, the number of those that the limiter lets through
  pub attempts_allowed : Text → ℕ → List ℕ → R → ℕ
  attempts_allowed k max [] r = 0
  attempts_allowed k max (now ∷ times) r =
      let (allowed, after) = increment_and_check redis now k 60 max r in
      let rest = attempts_allowed k max times after in if allowed then rest + 1 else rest

  module _ (entry : Text → R → Option Counter) (lawful : IsLawful redis entry) (start : ℕ) where
    Counted-after_check :
        (now n : ℕ) (k : Text) (max : ℕ) (r : R)
        → start ≤ now
        → now < start + 60
        → Counted start n (entry k r)
        → Counted start (n + 1) (entry k (increment_and_check redis now k 60 max r).1)
    Counted-after_check now n k max r h h' s =
        let o = entry k r in
        let l = (checked_lem start now n o h h' (Spent-Counted start n o s)).1.1 in
        inr (
          checked now o,
          entry_of_check redis entry lawful now k max r,
          count-checked now o ∙ count-incremented start now n o h h' s,
          l,
        )

    allowed_iff_below :
        (now n : ℕ) (k : Text) (max : ℕ) (r : R)
        → start ≤ now
        → now < start + 60
        → Counted start n (entry k r)
        → (increment_and_check redis now k 60 max r).0 ≡ ltb n max
    unfolding increment_and_check
    allowed_iff_below now n k max r h h' s =
        let count = lawful.incr_counts now k r ∙ count-incremented start now n (entry k r) h h' s in
        rw count (ground arith)

    attempts_allowed_after :
        (k : Text) (max : ℕ) (times : List ℕ) (n : ℕ) (r : R)
        → AreInWindow start times
        → Counted start n (entry k r)
        → attempts_allowed k max times r + smaller n max ≡ smaller (n + length times) max
    unfolding attempts_allowed
    attempts_allowed_after k max [] n r w s = ground arith
    attempts_allowed_after k max (now ∷ times) n r (h, h', w) s =
        let (allowed, after) = increment_and_check redis now k 60 max r in
        let rest =
          attempts_allowed_after k max times (n + 1) after w
            (Counted-after_check now n k max r h h' s) in
        rw (allowed_iff_below now n k max r h h' s) (ground (arith, rest))

    -- Of the attempts on one key that come in one window of 60 seconds, the limiter lets as many through as the
    -- limit allows, and all of them if they are not more, if the key's counter is gone when the window begins.
    pub attempts_allowed_lem :
        (k : Text) (max : ℕ) (times : List ℕ) (r : R)
        → AreInWindow start times
        → IsIdle start (entry k r)
        → attempts_allowed k max times r ≡ smaller (length times) max
    attempts_allowed_lem k max times r w i =
        let all = attempts_allowed_after k max times 0 r w (inl (refl, i)) in ground (arith, all)

    -- A key that has counted `n` attempts and never expires
    abbrev IsStuck : ℕ → Option Counter → Type 0
    IsStuck n o = (c : Counter) × (o ≡ some c) × (c.count ≡ n) × (c.expires ≡ none)

    incremented-IsStuck :
        (now n : ℕ) (o : Option Counter)
        → IsStuck n o
        → incremented now o ≡ record { count = n + 1; expires = none }
    incremented-IsStuck now n none (c, e, b, l) = absurd (cc e)
    incremented-IsStuck now n (some d) (c, e, b, l) =
        let same : d ≡ c = cc e in
        let l' : d.expires ≡ none = rw same l in
        let b' : d.count ≡ n = rw same b in rw l' (rw b' refl)

    checked-IsStuck :
        (now n : ℕ) (o : Option Counter)
        → 1 ≤ n
        → IsStuck n o
        → checked now o ≡ record { count = n + 1; expires = none }
    checked-IsStuck now n o h s =
        let more : (n + 1 == 1) ≡ false = ground (arith, h) in
        rw (incremented-IsStuck now n o s) (rw more refl)

    attempts_allowed-IsStuck :
        (k : Text) (max : ℕ) (times : List ℕ) (n : ℕ) (r : R)
        → 1 ≤ n
        → IsStuck n (entry k r)
        → attempts_allowed k max times r + smaller n max ≤ max
    unfolding attempts_allowed increment_and_check
    attempts_allowed-IsStuck k max [] n r h s = ground arith
    attempts_allowed-IsStuck k max (now ∷ times) n r h s =
        let after = (increment_and_check redis now k 60 max r).1 in
        let counted =
          lawful.incr_counts now k r
          ∙ ap (λ c. c.count) (incremented-IsStuck now n (entry k r) s) in
        let stuck =
          entry_of_check redis entry lawful now k max r
          ∙ ap some (checked-IsStuck now n (entry k r) h s) in
        let rest =
          attempts_allowed-IsStuck k max times (n + 1) after (omega arith)
            (record { count = n + 1; expires = none }, stuck, refl, refl) in
        ground (arith, rest, counted)

    -- If the limiter stops between INCR and EXPIRE at the first attempt on a key, then of the attempts on the
    -- key at any times afterwards, however late, no more than the limit are ever let through.
    pub attempts_allowed-incr :
        (k : Text) (max now : ℕ) (times : List ℕ) (r : R)
        → IsIdle now (entry k r)
        → attempts_allowed k max times (redis.incr now k r).1 ≤ max
    attempts_allowed-incr k max now times r i =
        let one : incremented now (entry k r) ≡ record { count = 1; expires = none } =
          incremented-IsIdle now (entry k r) i in
        let rest = attempts_allowed-IsStuck k max times 1 (redis.incr now k r).1 (omega arith) (
          record { count = 1; expires = none },
          lawful.incr_sets now k r ∙ ap some one,
          refl,
          refl,
        ) in
        omega arith
