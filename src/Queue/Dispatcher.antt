-- ===== src/Queue/Dispatcher.antt =====
-- apps/worker/app/jobs/ingestion_queue_dispatcher.py: the lock of the dispatcher, and its jobs as steps
-- that interleave in any order. Redis executes `SET key token NX` and the release script atomically; a
-- token is a number that is drawn once.
use hungrx_agent.Prelude.{
  ℕ, suc, ◌+◌, ◌≡◌, ◌≢◌, sym, Option, none, some, List, [], ◌∷◌, ◌++◌, ◌==◌, if◌then◌else◌,
}

-- `connection.set(_DISPATCH_LOCK_KEY, token, nx=True)`: the lock, if it is acquired
unfoldable pub acquire : ℕ → Option ℕ → Option (Option ℕ)
acquire token none = some (some token)
acquire token (some holder) = none

-- The release script: only the holder's token deletes the key.
unfoldable pub release : ℕ → Option ℕ → Option ℕ
release token none = none
release token (some holder) = if holder == token then none else some holder

-- The lock's value, the enqueued dispatch jobs, the tokens of the jobs inside the `with` block, and the
-- next token.
pub record Dispatch : Type 0 where
  pub lock : Option ℕ
  pub jobs : ℕ
  pub workers : List ℕ
  pub next_token : ℕ

abbrev pub initial : Dispatch
initial = record { lock = none; jobs = 0; workers = []; next_token = 0 }

-- What the processes may do next.
--   * `trigger`: `try_trigger_dispatch` enqueues a job. It looks at the lock before, and the lock may have
--     changed since, so the step may come at any time.
--   * `enter` and `skip`: a worker takes a job and acquires the lock, or finds it taken and returns.
--   * `chain`: a job enqueues the next one. The source does so inside the `with` block.
--   * `leave`: a job leaves the block, on return or on an exception.
--   * `crash`: a worker dies inside the block.
pub data Step : Dispatch → Dispatch → Type 0 where
  trigger : (s : Dispatch) → Step s (record s { jobs = s.jobs + 1 })
  enter :
      (s : Dispatch) (n : ℕ) (held : Option ℕ)
      → s.jobs ≡ suc n
      → acquire s.next_token s.lock ≡ some held
      → Step s (record s {
        lock = held;
        jobs = n;
        workers = s.next_token ∷ s.workers;
        next_token = s.next_token + 1;
      })
  skip :
      (s : Dispatch) (n : ℕ)
      → s.jobs ≡ suc n
      → acquire s.next_token s.lock ≡ none
      → Step s (record s { jobs = n })
  chain : (s : Dispatch) → s.workers ≢ [] → Step s (record s { jobs = s.jobs + 1 })
  leave :
      (s : Dispatch) (before after : List ℕ) (token : ℕ)
      → s.workers ≡ before ++ (token ∷ after)
      → Step s (record s { lock = release token s.lock; workers = before ++ after })
  crash :
      (s : Dispatch) (before after : List ℕ) (token : ℕ)
      → s.workers ≡ before ++ (token ∷ after)
      → Step s (record s { workers = before ++ after })

-- Any number of steps.
pub data Steps : Dispatch → Dispatch → Type 0 where
  done : (s : Dispatch) → Steps s s
  next : (s t r : Dispatch) → Steps s t → Step t r → Steps s r

-- One job at most is in the block, and the lock is its.
abbrev pub Exclusive : List ℕ → Option ℕ → Type 0
Exclusive [] lock = Unit
Exclusive (token ∷ []) lock = lock ≡ some token
Exclusive (token ∷ other ∷ rest) lock = ⊥

Exclusive-enter :
    (workers : List ℕ) (token : ℕ) (lock held : Option ℕ)
    → acquire token lock ≡ some held
    → Exclusive workers lock
    → Exclusive (token ∷ workers) held
unfolding acquire
Exclusive-enter [] token none held h x = cc h
Exclusive-enter [] token (some l) held h x = absurd (cc h)
Exclusive-enter (w ∷ []) token none held h x = absurd (cc x)
Exclusive-enter (w ∷ []) token (some l) held h x = absurd (cc h)
Exclusive-enter (w ∷ v ∷ ws) token lock held h x = x

cons_tail : {x y : ℕ} {xs ys : List ℕ} → x ∷ xs ≡ y ∷ ys → xs ≡ ys
cons_tail h = cc h

no_tail : (x : ℕ) (ys xs : List ℕ) → [] ≡ xs ++ (x ∷ ys) → ⊥
no_tail x ys [] h = cc h
no_tail x ys (z ∷ xs) h = cc h

-- The only job in the block is the one that leaves.
nothing_left :
    (workers before after : List ℕ) (token : ℕ) (lock : Option ℕ)
    → workers ≡ before ++ (token ∷ after)
    → Exclusive workers lock
    → before ++ after ≡ []
nothing_left [] [] after token lock h x = absurd (cc h)
nothing_left [] (b ∷ before) after token lock h x = absurd (cc h)
nothing_left (w ∷ []) [] after token lock h x = sym (cons_tail h)
nothing_left (w ∷ []) (b ∷ before) after token lock h x =
    absurd (no_tail token after before (cons_tail h))
nothing_left (w ∷ v ∷ ws) before after token lock h x = absurd x

Step-Exclusive :
    (s r : Dispatch) → Step s r → Exclusive s.workers s.lock → Exclusive r.workers r.lock
Step-Exclusive s r (trigger _) x = x
Step-Exclusive s r (enter _ n held j a) x = Exclusive-enter s.workers s.next_token s.lock held a x
Step-Exclusive s r (skip _ n j a) x = x
Step-Exclusive s r (chain _ n) x = x
Step-Exclusive s r (leave _ before after token h) x =
    rw (nothing_left s.workers before after token s.lock h x) tt
Step-Exclusive s r (crash _ before after token h) x =
    rw (nothing_left s.workers before after token s.lock h x) tt

-- In whatever order the steps come, from the start on, one job of the dispatcher at most is in its block,
-- and if there is one then the lock holds its token.
pub Steps-Exclusive : (s : Dispatch) → Steps initial s → Exclusive s.workers s.lock
Steps-Exclusive s (done _) = tt
Steps-Exclusive s (next _ t _ before last) = Step-Exclusive t s last (Steps-Exclusive t before)

-- A lock that no job in the block holds.
abbrev pub IsOrphaned : ℕ → Dispatch → Type 0
IsOrphaned token s = (s.lock ≡ some token) × (s.workers ≡ [])

no_worker :
    (workers before after : List ℕ) (token : ℕ)
    → workers ≡ []
    → workers ≡ before ++ (token ∷ after)
    → ⊥
no_worker workers [] after token e h = cc (e, h)
no_worker workers (b ∷ before) after token e h = cc (e, h)

held_lock :
    (token holder : ℕ) (lock held : Option ℕ)
    → lock ≡ some holder
    → acquire token lock ≡ some held
    → ⊥
unfolding acquire
held_lock token holder none held e h = cc e
held_lock token holder (some l) held e h = cc h

Step-IsOrphaned : (token : ℕ) (s r : Dispatch) → Step s r → IsOrphaned token s → IsOrphaned token r
Step-IsOrphaned token s r (trigger _) x = x
Step-IsOrphaned token s r (enter _ n held j a) x =
    absurd (held_lock s.next_token token s.lock held x.0 a)
Step-IsOrphaned token s r (skip _ n j a) x = x
Step-IsOrphaned token s r (chain _ n) x = x
Step-IsOrphaned token s r (leave _ before after t h) x =
    absurd (no_worker s.workers before after t x.1 h)
Step-IsOrphaned token s r (crash _ before after t h) x =
    absurd (no_worker s.workers before after t x.1 h)

-- When the lock is held and no job is in the block, as after a crash, then in whatever order further steps
-- come this stays so: no job enters the block again.
pub Steps-IsOrphaned :
    (token : ℕ) (s r : Dispatch) → Steps s r → IsOrphaned token s → IsOrphaned token r
Steps-IsOrphaned token s r (done _) x = x
Steps-IsOrphaned token s r (next _ t _ before last) x =
    Step-IsOrphaned token t r last (Steps-IsOrphaned token s t before x)
