-- ===== src/Tests/RateLimit.antt =====
-- The rate limiter on concrete requests, with a Redis that keeps its counters in a function.
use hungrx_agent.Prelude.{
  ℕ, arith, ◌+◌, ◌≤◌, ◌≡◌, refl, false, Option, none, some, [], ◌∷◌, List, length, if◌then◌else◌,
}
use hungrx_agent.Text.{Text, text, text_eq}
use hungrx_agent.Text.Words.{text_eq_iff}
use hungrx_agent.Text.Ascii.{ascii}
use hungrx_agent.RateLimit.{Redis, Request}
use hungrx_agent.RateLimit.Throttling.{Counter, IsLawful, incremented}
use hungrx_agent.RateLimit.Attempts.{
  smaller, attempts_allowed, attempts_allowed_lem, attempts_allowed-incr,
}
use hungrx_agent.RateLimit.Logins.{
  logins_passed, has_ip, has_identifier, logins_passed-has_ip, logins_passed-has_identifier,
}

abbrev Store : Type 0
Store = Text → Option Counter

abbrev put : Text → Option Counter → Store → Store
put k c store = λ j. if text_eq k j then c else store j

abbrev expiring : ℕ → Option Counter → Option Counter
expiring end none = none
expiring end (some c) = some (record c { expires = some end })

abbrev redis : Redis Store
redis = record {
  incr = λ now k store.
      ((incremented now (store k)).count, put k (some (incremented now (store k))) store);
  expire = λ now k seconds store. put k (expiring (now + seconds) (store k)) store;
}

abbrev entry : Text → Store → Option Counter
entry k store = store k

put_same : (k : Text) (c : Option Counter) (store : Store) → put k c store k ≡ c
put_same k c store = rw ((text_eq_iff k k).1 refl) refl

put_other :
    (j k : Text) (c : Option Counter) (store : Store)
    → text_eq j k ≡ false
    → put j c store k ≡ store k
put_other j k c store h = rw h refl

redis-IsLawful : IsLawful redis entry
redis-IsLawful = record {
  incr_counts = λ now k r. refl;
  incr_sets = λ now k r. put_same k (some (incremented now (r k))) r;
  incr_leaves = λ now j k r h. put_other j k (some (incremented now (r j))) r h;
  expire_sets =
      λ now k seconds r c e l. rw (put_same k (expiring (now + seconds) (r k)) r) (rw e refl);
  expire_leaves = λ now j k seconds r h. put_other j k (expiring (now + seconds) (r j)) r h;
}

abbrev empty_store : Store
empty_store = λ k. none

abbrev attempt : Request
attempt = record { client = some (text "10.0.0.1"); email = some (text " A@b.co ") }

abbrev three_times : List ℕ
three_times = 100 ∷ 101 ∷ 159 ∷ []

abbrev two_attempts : List (ℕ × Request)
two_attempts = (100, attempt) ∷ (130, attempt) ∷ []

logins_passed-has_ip_example :
    logins_passed redis ascii (has_ip redis ascii (text "10.0.0.1")) two_attempts empty_store ≤ 10
logins_passed-has_ip_example =
    logins_passed-has_ip redis ascii entry redis-IsLawful 100 (text "10.0.0.1") two_attempts
      empty_store (omega arith, omega arith, (omega arith, omega arith, tt)) tt

logins_passed-has_identifier_example :
    logins_passed redis ascii (has_identifier redis ascii (text "a@b.co")) two_attempts empty_store
    ≤ 5
logins_passed-has_identifier_example =
    logins_passed-has_identifier redis ascii entry redis-IsLawful 100 (text "a@b.co") two_attempts
      empty_store refl (omega arith, omega arith, (omega arith, omega arith, tt)) tt

attempts_allowed_lem_example :
    attempts_allowed redis (text "k") 2 three_times empty_store ≡ smaller (length three_times) 2
attempts_allowed_lem_example =
    attempts_allowed_lem redis entry redis-IsLawful 100 (text "k") 2 three_times empty_store
      (omega arith, omega arith, (omega arith, omega arith, (omega arith, omega arith, tt))) tt

attempts_allowed-incr_example :
    attempts_allowed redis (text "k") 2 three_times (redis.incr 7 (text "k") empty_store).1 ≤ 2
attempts_allowed-incr_example =
    attempts_allowed-incr redis entry redis-IsLawful 100 (text "k") 2 7 three_times empty_store tt
