-- ===== src/Host/Backoff.antt =====
-- host_availability.py: `ExponentialBackoffHostAvailabilityStrategy`. Times are in microseconds, the
-- precision of `datetime`, and `now` is what `datetime.now()` gives.
use aws_advanced_python_wrap.Prelude.{
  ℕ, suc, ◌+◌, ◌*◌, ◌^◌, ◌<◌, ◌≡◌, ◌↔◌, Option, none, some, refl, ap, ◌∙◌, List, [], ◌∷◌, length,
  arith, ltb, leb, if◌then◌else◌,
}
use aws_advanced_python_wrap.Host.Role.{HostAvailability, available, unavailable, is_available}

pub record Backoff : Type 0 where
  pub max_retries : ℕ
  pub initial_backoff_time_secs : ℕ
  pub not_available_count : ℕ
  pub last_changed : ℕ

-- `__init__`; `none` is the `ValueError`.
unfoldable pub init : ℕ → ℕ → ℕ → Option Backoff
init max_retries backoff_time now =
    if ltb max_retries 1
    then none
    else if ltb backoff_time 1
    then none
    else some (record {
      max_retries = max_retries;
      initial_backoff_time_secs = backoff_time;
      not_available_count = 0;
      last_changed = now;
    })

abbrev pub retry_delay_ms : Backoff → ℕ
retry_delay_ms b = 2 ^ b.not_available_count * b.initial_backoff_time_secs * 1000

abbrev pub earliest_retry : Backoff → ℕ
earliest_retry b = b.last_changed + retry_delay_ms b * 1000

unfoldable pub get_host_availability : Backoff → ℕ → HostAvailability → HostAvailability
get_host_availability b now raw =
    if is_available raw
    then available
    else if leb b.max_retries b.not_available_count
    then unavailable
    else if ltb (earliest_retry b) now
    then available
    else raw

unfoldable pub set_host_availability : HostAvailability → ℕ → Backoff → Backoff
set_host_availability a now b = record b {
  last_changed = now;
  not_available_count = if is_available a then 0 else suc b.not_available_count;
}

-- A host that is marked available reads as available. One that is marked unavailable reads as
-- available exactly when its retries are not used up and the delay since the last mark has passed.
pub get-available_iff :
    (b : Backoff) (now : ℕ)
    → (get_host_availability b now available ≡ available)
      × ((get_host_availability b now unavailable ≡ available)
          ↔ ((b.not_available_count < b.max_retries) × (earliest_retry b < now)))
unfolding get_host_availability
get-available_iff b now = ground arith

-- Failures in a row, at the times listed, the first one first.
unfoldable pub mark_down : List ℕ → Backoff → Backoff
mark_down [] b = b
mark_down (now ∷ times) b = mark_down times (set_host_availability unavailable now b)

abbrev pub last_of : ℕ → List ℕ → ℕ
last_of t [] = t
last_of t (u ∷ us) = last_of u us

mark_down_lem :
    (times : List ℕ) (b : Backoff)
    → let c = mark_down times b in
      (c.max_retries ≡ b.max_retries)
      × (c.initial_backoff_time_secs ≡ b.initial_backoff_time_secs)
      × (c.not_available_count ≡ b.not_available_count + length times)
      × (c.last_changed ≡ last_of b.last_changed times)
unfolding mark_down set_host_availability
mark_down_lem [] b = (refl, refl, omega arith, refl)
mark_down_lem (now ∷ times) b =
    let (p, q, r, s) = mark_down_lem times (set_host_availability unavailable now b) in
    (p, q, omega arith, s)

init_lem :
    (max_retries secs start : ℕ) (b : Backoff)
    → init max_retries secs start ≡ some b
    → b ≡ record {
      max_retries = max_retries;
      initial_backoff_time_secs = secs;
      not_available_count = 0;
      last_changed = start;
    }
unfolding init
init_lem max_retries secs start b e = ground arith

get-available_of_fields :
    (b : Backoff) (max_retries secs count last now : ℕ)
    → b.max_retries ≡ max_retries
    → b.initial_backoff_time_secs ≡ secs
    → b.not_available_count ≡ count
    → b.last_changed ≡ last
    → (get_host_availability b now unavailable ≡ available)
      ↔ ((count < max_retries) × (last + 2 ^ count * secs * 1000 * 1000 < now))
get-available_of_fields b max_retries secs count last now p q r s =
    rw (← p, ← q, ← r, ← s) (get-available_iff b now).1

-- From a valid configuration: after any number of failures in a row the host may be tried again
-- exactly while the failures are fewer than `max_retries`, and once the initial delay, doubled at
-- each failure, has passed since the last of them. One success makes the count 0 again.
pub mark_down-get :
    (max_retries secs start : ℕ) (times : List ℕ) (now : ℕ) (b : Backoff)
    → init max_retries secs start ≡ some b
    → ((get_host_availability (mark_down times b) now unavailable ≡ available) ↔ (
        (length times < max_retries)
        × (last_of start times + 2 ^ length times * secs * 1000 * 1000 < now)))
      × ((set_host_availability available now (mark_down times b)).not_available_count ≡ 0)
unfolding init set_host_availability
mark_down-get max_retries secs start times now b e =
    let (p, q, r, s) = mark_down_lem times b in
    let i = init_lem max_retries secs start b e in
    (
      get-available_of_fields (mark_down times b) max_retries secs (length times)
          (last_of start times) now (p ∙ ap (λ (x : Backoff). x.max_retries) i)
          (q ∙ ap (λ (x : Backoff). x.initial_backoff_time_secs) i)
          (r ∙ ap (λ (x : Backoff). x.not_available_count + length times) i ∙ omega arith)
          (s ∙ ap (λ (x : Backoff). last_of x.last_changed times) i),
      refl,
    )
