-- ===== src/RateLimit/Throttling.antt =====
-- apps/api/app/core/rate_limit.py: how many logins a window lets through.
use hungrx_agent.Prelude.{
  ℕ, ◌+◌, ◌≤◌, ◌<◌, ◌≡◌, refl, ◌∙◌, ◌⊎◌, inl, inr, Bool, true, false, Option, none, some, ◌==◌, ltb,
  arith, Bool-cases, if◌then◌else◌,
}
use hungrx_agent.Text.{Text, text_eq}
use hungrx_agent.Text.Words.{text_eq_iff}
use hungrx_agent.RateLimit.{Redis, increment_and_check}

-- What Redis holds under a key: the count, and the time from which the key is gone
pub record Counter : Type 0 where
  pub count : ℕ
  pub expires : Option ℕ

abbrev pub is_live : ℕ → Option ℕ → Bool
is_live now none = true
is_live now (some e) = ltb now e

-- What INCR makes of a key: a key that is missing or gone starts at 1, without an expiry.
abbrev pub incremented : ℕ → Option Counter → Counter
incremented now none = record { count = 1; expires = none }
incremented now (some c) =
    if is_live now c.expires
    then record c { count = c.count + 1 }
    else record { count = 1; expires = none }

-- What Redis documents of INCR and EXPIRE, of what it holds under a key
pub record IsLawful {R : Type 0} (redis : Redis R) (entry : Text → R → Option Counter)
    : Type 0 where
  pub incr_counts :
      (now : ℕ) (k : Text) (r : R) → (redis.incr now k r).0 ≡ (incremented now (entry k r)).count
  pub incr_sets :
      (now : ℕ) (k : Text) (r : R)
      → entry k (redis.incr now k r).1 ≡ some (incremented now (entry k r))
  pub incr_leaves :
      (now : ℕ) (j k : Text) (r : R)
      → text_eq j k ≡ false
      → entry k (redis.incr now j r).1 ≡ entry k r
  pub expire_sets :
      (now : ℕ) (k : Text) (seconds : ℕ) (r : R) (c : Counter)
      → entry k r ≡ some c
      → is_live now c.expires ≡ true
      → entry k (redis.expire now k seconds r) ≡ some (record c { expires = some (now + seconds) })
  pub expire_leaves :
      (now : ℕ) (j k : Text) (seconds : ℕ) (r : R)
      → text_eq j k ≡ false
      → entry k (redis.expire now j seconds r) ≡ entry k r

-- The key is gone at a time.
abbrev pub IsIdle : ℕ → Option Counter → Type 0
IsIdle start none = Unit
IsIdle start (some c) = is_live start c.expires ≡ false

abbrev pub Lasts : ℕ → Option ℕ → Type 0
Lasts end none = Unit
Lasts end (some e) = end ≤ e

-- A key that has let `n` attempts through since a time, and keeps its count for a window
abbrev pub Spent : ℕ → ℕ → Option Counter → Type 0
Spent start n o =
    (n ≡ 0) × IsIdle start o
    ⊎ ((c : Counter) × (o ≡ some c) × (n ≤ c.count) × Lasts (start + 60) c.expires)

-- What a check leaves under its key.
abbrev pub checked : ℕ → Option Counter → Counter
checked now o =
    let c = incremented now o in if c.count == 1 then record c { expires = some (now + 60) } else c

pub is_live-Lasts :
    (start now : ℕ) (e : Option ℕ) → now < start + 60 → Lasts (start + 60) e → is_live now e ≡ true
is_live-Lasts start now none h l = refl
is_live-Lasts start now (some e) h l = ground arith

pub gone_later :
    (start now : ℕ) (e : Option ℕ) → start ≤ now → is_live start e ≡ false → is_live now e ≡ false
gone_later start now none h i = i
gone_later start now (some e) h i = ground arith

live-incremented : (now : ℕ) (o : Option Counter) → is_live now (incremented now o).expires ≡ true
live-incremented now none = refl
live-incremented now (some c) = elim (Bool-cases (is_live now c.expires)) [
  | inl e ↦ rw e e
  | inr e ↦ rw e refl
]

abbrev pub Counts : ℕ → ℕ → Counter → Type 0
Counts start n c = (n ≤ c.count) × Lasts (start + 60) c.expires

fresh-Counts :
    (start now n : ℕ)
    → start ≤ now
    → n ≡ 0
    → Counts start (n + 1) (record { count = 1; expires = some (now + 60) })
fresh-Counts start now n h z = (omega arith, omega arith)

live-Counts :
    (start now n : ℕ) (c : Counter)
    → start ≤ now
    → n ≤ c.count
    → Lasts (start + 60) c.expires
    → Counts start (n + 1) (
        if c.count + 1 == 1
        then record { count = c.count + 1; expires = some (now + 60) }
        else record c { count = c.count + 1 })
live-Counts start now n c h b l = elim (Bool-cases (c.count + 1 == 1)) [
  | inl e ↦ rw e (omega arith, omega arith)
  | inr e ↦ rw e (omega arith, l)
]

pub checked_lem :
    (start now n : ℕ) (o : Option Counter)
    → start ≤ now
    → now < start + 60
    → Spent start n o
    → (n + 1 ≤ (incremented now o).count) × Counts start (n + 1) (checked now o)
checked_lem start now n none h h' s = elim s [
  | inl (z, i) ↦ (omega arith, fresh-Counts start now n h z)
  | inr (c, e, b, l) ↦ absurd (cc e)
]
checked_lem start now n (some d) h h' s = elim s [
  | inl (z, i) ↦ rw (gone_later start now d.expires h i) (omega arith, fresh-Counts start now n h z)
  | inr (c, e, b, l) ↦
      let same : d ≡ c = cc e in
      let b' : n ≤ d.count = rw same b in
      let l' : Lasts (start + 60) d.expires = rw same l in
      rw (is_live-Lasts start now d.expires h' l') (omega arith, live-Counts start now n d h b' l')
]

Spent-Counts :
    (start n : ℕ) (c : Counter) (o : Option Counter)
    → o ≡ some c
    → Counts start n c
    → Spent start n o
Spent-Counts start n c o e s = inr (c, e, s.0, s.1)

Spent-less : (start n : ℕ) (o : Option Counter) → Spent start (n + 1) o → Spent start n o
Spent-less start n o s = elim s [
  | inl (z, i) ↦ absurd (omega arith)
  | inr (c, e, b, l) ↦ inr (c, e, omega arith, l)
]

module _ {R : Type 0} (redis : Redis R) (entry : Text → R → Option Counter)
    (lawful : IsLawful redis entry) where
  pub entry_of_check :
      (now : ℕ) (k : Text) (max : ℕ) (r : R)
      → entry k (increment_and_check redis now k 60 max r).1 ≡ some (checked now (entry k r))
  unfolding increment_and_check
  entry_of_check now k max r =
      let c = incremented now (entry k r) in
      rw (lawful.incr_counts now k r) (elim (Bool-cases (c.count == 1)) [
        | inl e ↦ rw e (
            lawful.expire_sets now k 60 (redis.incr now k r).1 c (lawful.incr_sets now k r)
              (live-incremented now (entry k r)))
        | inr e ↦ rw e (lawful.incr_sets now k r)
      ])

  entry_of_other_check :
      (now : ℕ) (j k : Text) (max : ℕ) (r : R)
      → text_eq j k ≡ false
      → entry k (increment_and_check redis now j 60 max r).1 ≡ entry k r
  unfolding increment_and_check
  entry_of_other_check now j k max r h = elim (Bool-cases ((redis.incr now j r).0 == 1)) [
    | inl e ↦
        rw e (
          lawful.expire_leaves now j k 60 (redis.incr now j r).1 h ∙ lawful.incr_leaves now j k r h)
    | inr e ↦ rw e (lawful.incr_leaves now j k r h)
  ]

  module _ (start : ℕ) where
    pub Spent-after_hit :
        (now n : ℕ) (k : Text) (max : ℕ) (r : R)
        → start ≤ now
        → now < start + 60
        → Spent start n (entry k r)
        → Spent start (n + 1) (entry k (increment_and_check redis now k 60 max r).1)
    Spent-after_hit now n k max r h h' s =
        Spent-Counts start (n + 1) (checked now (entry k r))
          (entry k (increment_and_check redis now k 60 max r).1) (entry_of_check now k max r)
          (checked_lem start now n (entry k r) h h' s).1

    pub allowed_below :
        (now n : ℕ) (k : Text) (max : ℕ) (r : R)
        → start ≤ now
        → now < start + 60
        → Spent start n (entry k r)
        → (increment_and_check redis now k 60 max r).0 ≡ true
        → n + 1 ≤ max
    unfolding increment_and_check
    allowed_below now n k max r h h' s a =
        let (b, _) = checked_lem start now n (entry k r) h h' s in
        let count = lawful.incr_counts now k r in ground (arith, b, count, a)

    pub Spent-after_check :
        (now n : ℕ) (j k : Text) (max : ℕ) (r : R)
        → start ≤ now
        → now < start + 60
        → Spent start n (entry k r)
        → Spent start n (entry k (increment_and_check redis now j 60 max r).1)
    Spent-after_check now n j k max r h h' s = elim (Bool-cases (text_eq j k)) [
      | inl e ↦
          let same : j ≡ k = (text_eq_iff j k).0 e in
          rw same (
            Spent-less start n (entry k (increment_and_check redis now k 60 max r).1)
              (Spent-after_hit now n k max r h h' s))
      | inr e ↦ rw (entry_of_other_check now j k max r e) s
    ]
