-- ===== src/RateLimit.antt =====
-- apps/api/app/core/rate_limit.py
--
-- Redis is the record `Redis` of the two commands that the limiter sends, at a time in seconds. A request
-- is refused by `false`, where the source raises RateLimitedError; Redis keeps what it has counted.
pub mod Throttling
pub mod Logins
pub mod Attempts
use hungrx_agent.Prelude.{
  ℕ, Bool, true, false, not, Option, none, some, [], ◌++◌, ◌==◌, ltb, is_empty, if◌then◌else◌,
}
use hungrx_agent.Text.{Text, text, Unicode, strip}

pub record Redis (R : Type 0) : Type 0 where
  -- `INCR key` at a time: the new count
  pub incr : ℕ → Text → R → ℕ × R
  -- `EXPIRE key seconds` at a time
  pub expire : ℕ → Text → ℕ → R → R

abbrev pub login_window_seconds : ℕ
login_window_seconds = 60

abbrev pub login_max_attempts_per_ip : ℕ
login_max_attempts_per_ip = 10

abbrev pub login_max_attempts_per_identifier : ℕ
login_max_attempts_per_identifier = 5

abbrev pub refresh_window_seconds : ℕ
refresh_window_seconds = 60

abbrev pub refresh_max_attempts_per_ip : ℕ
refresh_max_attempts_per_ip = 20

-- `request.client`, and what `await request.json()` gives for the key `email`, none when it raises
pub record Request : Type 0 where
  pub client : Option Text
  pub email : Option Text

unfoldable pub client_ip : Request → Text
client_ip request = elim request.client [ none ↦ text "unknown" | some host ↦ host ]

-- The identifier of the attempt, empty when there is none.
unfoldable pub identifier : Unicode → Request → Text
identifier u request = elim request.email [ none ↦ [] | some email ↦ u.lower (strip u email) ]

unfoldable pub login_ip_key : Text → Text
login_ip_key ip = text "hungrx:ratelimit:login:ip:" ++ ip

unfoldable pub login_email_key : Text → Text
login_email_key email = text "hungrx:ratelimit:login:email:" ++ email

unfoldable pub refresh_ip_key : Text → Text
refresh_ip_key ip = text "hungrx:ratelimit:refresh:ip:" ++ ip

module _ {R : Type 0} (redis : Redis R) where
  unfoldable pub increment_and_check : ℕ → Text → ℕ → ℕ → R → Bool × R
  increment_and_check now key window_seconds max_attempts r =
      let (count, counted) = redis.incr now key r in
      let kept = if count == 1 then redis.expire now key window_seconds counted else counted in
      (not (ltb max_attempts count), kept)

  -- The attempt on the identifier, after the one on the address
  unfoldable pub check_identifier : ℕ → Text → R → Bool × R
  unfolding increment_and_check
  check_identifier now email r =
      if is_empty email
      then (true, r)
      else increment_and_check now (login_email_key email) login_window_seconds
          login_max_attempts_per_identifier r

  unfoldable pub rate_limit_login : Unicode → Bool → ℕ → Request → R → Bool × R
  unfolding increment_and_check check_identifier
  rate_limit_login u is_test now request r =
      if is_test
      then (true, r)
      else (let (allowed, counted) =
            increment_and_check now (login_ip_key (client_ip request)) login_window_seconds
              login_max_attempts_per_ip r in
          if allowed then check_identifier now (identifier u request) counted else (false, counted))

  unfoldable pub rate_limit_refresh : Bool → ℕ → Request → R → Bool × R
  unfolding increment_and_check
  rate_limit_refresh is_test now request r =
      if is_test
      then (true, r)
      else increment_and_check now (refresh_ip_key (client_ip request)) refresh_window_seconds
          refresh_max_attempts_per_ip r
