-- ===== src/Queue/Jobs.antt =====
-- The time limit of a job in DynamicQueue.ts, `processJobWithTimeout`, and the wait for jobs that are
-- still active in QueueActivityMonitor.ts.
use startup_api.Base.{
  ℕ, zero, suc, ◌+◌, ◌*◌, ◌≤◌, ◌≡◌, refl, ◌∙◌, Bool, true, false, ◌||◌, List, [], ◌∷◌, ◌++◌, length,
  if◌then◌else◌, arith,
}
use startup_api.Base.Exec.{literal, plain, Result, err}

-- The timer fires, or the job's function ends, which it does once.
pub data Event : Type 0 where
  fires : Event
  ends : Result {0} Unit → Event

-- `settled` are the calls of `resolve` and `reject`.
pub record Job : Type 0 where
  pub timer : Bool
  pub timeout_reached : Bool
  pub ended : Bool
  pub settled : List (Result {0} Unit)

abbrev pub started : Job
started = record { timer = true; timeout_reached = false; ended = false; settled = [] }

abbrev pub timed_out : Result {0} Unit
timed_out = err (plain (literal "TimeoutError"))

unfoldable pub step : Event → Job → Job
step fires s =
    if s.timer
    then record s { timer = false; timeout_reached = true; settled = s.settled ++ timed_out ∷ [] }
    else s
step (ends r) s =
    if s.ended
    then s
    else if s.timeout_reached
    then record s { ended = true }
    else record s { ended = true; timer = false; settled = s.settled ++ r ∷ [] }

abbrev pub run : List Event → Job → Job
run [] s = s
run (e ∷ es) s = run es (step e s)

-- What the first event settles.
abbrev pub outcome : List Event → List (Result {0} Unit)
outcome [] = []
outcome (fires ∷ es) = timed_out ∷ []
outcome (ends r ∷ es) = r ∷ []

-- Nothing can settle the job any more.
abbrev IsOver : Job → Type 0
IsOver s = (s.timer ≡ false) × ((s.ended || s.timeout_reached) ≡ true)

IsOver-step :
    (e : Event) (s : Job) → IsOver s → ((step e s).settled ≡ s.settled) × IsOver (step e s)
unfolding step
IsOver-step fires s (t, o) = ground (arith, t, o)
IsOver-step (ends r) s (t, o) = ground (arith, t, o)

IsOver-run : (es : List Event) (s : Job) → IsOver s → (run es s).settled ≡ s.settled
IsOver-run [] s o = refl
IsOver-run (e ∷ es) s o = let (same, o') = IsOver-step e s o in IsOver-run es (step e s) o' ∙ same

-- Whatever the order of the timer and of the end of the job's function, the job's promise is settled
-- at most once, by the first of the two: with the function's result or error if it ends first, and
-- with the error of the time limit if not, when its later result is dropped.
settled_once : (es : List Event) → (run es started).settled ≡ outcome es
unfolding step
settled_once [] = refl
settled_once (fires ∷ es) = IsOver-run es (step fires started) (refl, refl)
settled_once (ends r ∷ es) = IsOver-run es (step (ends r) started) (refl, refl)

abbrev pub max_tries : ℕ
max_tries = 10

-- The seconds that one job is waited for, with the tries that are left; `active n` says that it is
-- active when asked for the time number `n`.
unfoldable pub wait_job : ℕ → (ℕ → Bool) → ℕ
wait_job zero active = 0
wait_job (suc tries) active =
    let rest = wait_job tries (λ n. active (suc n)) in if active 0 then suc rest else 0

unfoldable pub wait_for_active_jobs : List (ℕ → Bool) → ℕ
unfolding wait_job
wait_for_active_jobs [] = 0
wait_for_active_jobs (job ∷ jobs) = wait_job max_tries job + wait_for_active_jobs jobs

wait_job-bound : (tries : ℕ) (active : ℕ → Bool) → wait_job tries active ≤ tries
unfolding wait_job
wait_job-bound zero active = omega arith
wait_job-bound (suc tries) active = ground (arith, wait_job-bound tries (λ n. active (suc n)))

-- Closing a queue waits for at most ten seconds for each of its active jobs, whether they end or not.
pub wait-bound : (jobs : List (ℕ → Bool)) → wait_for_active_jobs jobs ≤ 10 * length jobs
unfolding wait_for_active_jobs
wait-bound [] = omega arith
wait-bound (job ∷ jobs) = omega (arith, wait-bound jobs, wait_job-bound max_tries job)
