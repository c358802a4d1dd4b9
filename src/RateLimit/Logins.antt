-- ===== src/RateLimit/Logins.antt =====
-- apps/api/app/core/rate_limit.py: a window lets a bounded number of logins through for each address and
-- for each email.
use hungrx_agent.Prelude.{
  ℕ, ◌+◌, ◌≤◌, ◌<◌, ◌≡◌, refl, sym, inl, inr, Bool, true, false, ◌&&◌, Option, List, [], ◌∷◌,
  is_empty, arith, Bool-cases, if◌then◌else◌,
}
use hungrx_agent.Text.{Text, Unicode, text_eq}
use hungrx_agent.Text.Words.{text_eq_iff}
use hungrx_agent.RateLimit.{
  Redis, Request, client_ip, identifier, login_ip_key, login_email_key, increment_and_check,
  check_identifier, rate_limit_login, login_max_attempts_per_ip, login_max_attempts_per_identifier,
}
use hungrx_agent.RateLimit.Throttling.{
  Counter, IsLawful, IsIdle, Spent, Spent-after_hit, Spent-after_check, allowed_below,
}

-- Every request comes in the window of 60 seconds that begins at a time.
abbrev pub InWindow : ℕ → List (ℕ × Request) → Type 0
InWindow start [] = Unit
InWindow start ((now, request) ∷ requests) =
    (start ≤ now) × (now < start + 60) × InWindow start requests

module _ {R : Type 0} (redis : Redis R) (u : Unicode) where
  -- Of requests that come one after the other, the number of those that a test picks and the limiter lets
  -- through
  pub logins_passed : (Request → Bool) → List (ℕ × Request) → R → ℕ
  logins_passed picks [] r = 0
  logins_passed picks ((now, request) ∷ requests) r =
      let (allowed, after) = rate_limit_login redis u false now request r in
      let rest = logins_passed picks requests after in
      if allowed && picks request then rest + 1 else rest

  abbrev pub has_ip : Text → Request → Bool
  has_ip ip request = text_eq (client_ip request) ip

  abbrev pub has_identifier : Text → Request → Bool
  has_identifier email request = text_eq (identifier u request) email

  module _ (entry : Text → R → Option Counter) (lawful : IsLawful redis entry) (start : ℕ) where
    -- What one login does to a key that has let `n` attempts through.
    abbrev Step : (Request → Bool) → Text → ℕ → Type 0
    Step picks k max =
        (now n : ℕ) (request : Request) (r : R)
        → start ≤ now
        → now < start + 60
        → Spent start n (entry k r)
        → let (allowed, after) = rate_limit_login redis u false now request r in
          Spent start n (entry k after)
          × (allowed ≡ true
              → picks request ≡ true
              → Spent start (n + 1) (entry k after) × (n + 1 ≤ max))

    passed_below :
        (picks : Request → Bool) (k : Text) (max : ℕ)
        → Step picks k max
        → (requests : List (ℕ × Request)) (n : ℕ) (r : R) → InWindow start requests
        → Spent start n (entry k r)
        → n ≤ max
        → logins_passed picks requests r + n ≤ max
    unfolding logins_passed
    passed_below picks k max step [] n r w s b = omega arith
    passed_below picks k max step ((now, request) ∷ requests) n r (h, h', w) s b =
        let (allowed, after) = rate_limit_login redis u false now request r in
        let (kept, hit) = step now n request r h h' s in
        elim (Bool-cases (allowed && picks request)) [
          | inl e ↦
              let (s', b') = hit (ground (arith, e)) (ground (arith, e)) in
              let rest = passed_below picks k max step requests (n + 1) after w s' b' in
              rw e (omega (arith, rest))
          | inr e ↦ rw e (passed_below picks k max step requests n after w kept b)
        ]

    check_identifier-Spent :
        (now n : ℕ) (email k : Text) (r : R)
        → start ≤ now
        → now < start + 60
        → Spent start n (entry k r)
        → Spent start n (entry k (check_identifier redis now email r).1)
    unfolding check_identifier
    check_identifier-Spent now n email k r h h' s = elim (Bool-cases (is_empty email)) [
      | inl e ↦ rw e s
      | inr e ↦
          rw e
            (Spent-after_check redis entry lawful start now n (login_email_key email) k 5 r h h' s)
    ]

    check_identifier_hit :
        (now n : ℕ) (email : Text) (r : R)
        → start ≤ now
        → now < start + 60
        → is_empty email ≡ false
        → Spent start n (entry (login_email_key email) r)
        → (check_identifier redis now email r).0 ≡ true
        → Spent start (n + 1) (entry (login_email_key email) (check_identifier redis now email r).1)
          × (n + 1 ≤ 5)
    unfolding check_identifier
    check_identifier_hit now n email r h h' i s a =
        let a' : (increment_and_check redis now (login_email_key email) 60 5 r).0 ≡ true =
          rw i at a in
        rw i (
          Spent-after_hit redis entry lawful start now n (login_email_key email) 5 r h h' s,
          allowed_below redis entry lawful start now n (login_email_key email) 5 r h h' s a',
        )

    rate_limit_login-Spent :
        (now n : ℕ) (request : Request) (k : Text) (r : R)
        → start ≤ now
        → now < start + 60
        → Spent start n (entry k r)
        → Spent start n (entry k (rate_limit_login redis u false now request r).1)
    unfolding rate_limit_login
    rate_limit_login-Spent now n request k r h h' s =
        let j = login_ip_key (client_ip request) in
        let after = (increment_and_check redis now j 60 10 r).1 in
        let kept = Spent-after_check redis entry lawful start now n j k 10 r h h' s in
        elim (Bool-cases (increment_and_check redis now j 60 10 r).0) [
          | inl e ↦ rw e (check_identifier-Spent now n (identifier u request) k after h h' kept)
          | inr e ↦ rw e kept
        ]

    ip_hit :
        (now n : ℕ) (request : Request) (r : R)
        → start ≤ now
        → now < start + 60
        → Spent start n (entry (login_ip_key (client_ip request)) r)
        → (rate_limit_login redis u false now request r).0 ≡ true
        → Spent start (n + 1) (
            entry
              (login_ip_key (client_ip request))
              (rate_limit_login redis u false now request r).1)
          × (n + 1 ≤ 10)
    unfolding rate_limit_login
    ip_hit now n request r h h' s a =
        let j = login_ip_key (client_ip request) in
        let after = (increment_and_check redis now j 60 10 r).1 in
        let counted = Spent-after_hit redis entry lawful start now n j 10 r h h' s in
        elim (Bool-cases (increment_and_check redis now j 60 10 r).0) [
          | inl e ↦ rw e (
            check_identifier-Spent now (n + 1) (identifier u request) j after h h' counted,
            allowed_below redis entry lawful start now n j 10 r h h' s e,
          )
          | inr e ↦ absurd (cc (rw e at a))
        ]

    identifier_hit :
        (now n : ℕ) (request : Request) (r : R)
        → start ≤ now
        → now < start + 60
        → is_empty (identifier u request) ≡ false
        → Spent start n (entry (login_email_key (identifier u request)) r)
        → (rate_limit_login redis u false now request r).0 ≡ true
        → Spent start (n + 1) (
            entry
              (login_email_key (identifier u request))
              (rate_limit_login redis u false now request r).1)
          × (n + 1 ≤ 5)
    unfolding rate_limit_login
    identifier_hit now n request r h h' i s a =
        let j = login_ip_key (client_ip request) in
        let email = identifier u request in
        let after = (increment_and_check redis now j 60 10 r).1 in
        let kept =
          Spent-after_check redis entry lawful start now n j (login_email_key email) 10 r h h' s in
        elim (Bool-cases (increment_and_check redis now j 60 10 r).0) [
          | inl e ↦
              let a' : (check_identifier redis now email after).0 ≡ true = rw e at a in
              rw e (check_identifier_hit now n email after h h' i kept a')
          | inr e ↦ absurd (cc (rw e at a))
        ]

    -- Of the logins that come in one window of 60 seconds, from any addresses and for any emails, the limiter
    -- lets at most 10 through from one address, if its counter is gone when the window begins.
    pub logins_passed-has_ip :
        (ip : Text) (requests : List (ℕ × Request)) (r : R)
        → InWindow start requests
        → IsIdle start (entry (login_ip_key ip) r)
        → logins_passed (has_ip ip) requests r ≤ login_max_attempts_per_ip
    logins_passed-has_ip ip requests r w i =
        let step : Step (has_ip ip) (login_ip_key ip) 10 = λ now n request r h h' s. (
          rate_limit_login-Spent now n request (login_ip_key ip) r h h' s,
          λ a p.
              let same = (text_eq_iff (client_ip request) ip).0 p in
              let s' : Spent start n (entry (login_ip_key (client_ip request)) r) = rw same s in
              rw (sym same) (ip_hit now n request r h h' s' a),
        ) in
        let bound =
          passed_below (has_ip ip) (login_ip_key ip) 10 step requests 0 r w (inl (refl, i))
            (omega arith) in
        omega arith

    -- Of the logins that come in one window of 60 seconds, from any addresses and for any emails, the limiter
    -- lets at most 5 through for one identifier that is not empty, if its counter is gone when the window
    -- begins.
    pub logins_passed-has_identifier :
        (email : Text) (requests : List (ℕ × Request)) (r : R)
        → is_empty email ≡ false
        → InWindow start requests
        → IsIdle start (entry (login_email_key email) r)
        → logins_passed (has_identifier email) requests r ≤ login_max_attempts_per_identifier
    logins_passed-has_identifier email requests r f w i =
        let step : Step (has_identifier email) (login_email_key email) 5 = λ now n request r h h' s.
          (
            rate_limit_login-Spent now n request (login_email_key email) r h h' s,
            λ a p.
                let same = (text_eq_iff (identifier u request) email).0 p in
                let s' : Spent start n (entry (login_email_key (identifier u request)) r) =
                  rw same s in
                let f' : is_empty (identifier u request) ≡ false = rw same f in
                rw (sym same) (identifier_hit now n request r h h' f' s' a),
          ) in
        let bound =
          passed_below (has_identifier email) (login_email_key email) 5 step requests 0 r w
            (inl (refl, i)) (omega arith) in
        omega arith
