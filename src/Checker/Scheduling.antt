-- ===== src/Checker/Scheduling.antt =====
-- checker/scheduling.py: how long until the next check of a proxy.
use ip_proxy_pool.Base.{ℕ, ◌+◌, ◌≤◌, ◌≡◌, ◌&&◌, leb, ◌==◌, if◌then◌else◌, arith}
use ip_proxy_pool.Models.{
  Floats, ProxyRecord, ProxyState, is_available, is_quarantined, is_candidate, seconds, quarantined,
}

abbrev pub quarantine_interval : ℕ → ℕ × ℕ
quarantine_interval failures =
    if leb failures 1
    then (300, 600)
    else if failures == 2
    then (900, 1800)
    else if leb failures 4
    then (3600, 7200)
    else (21600, 86400)

abbrev pub score_interval : ProxyState → ℕ → ℕ × ℕ
score_interval state score =
    if is_candidate state
    then (30, 60)
    else if leb 90 score
    then (180, 300)
    else if is_available state && leb 80 score
    then (180, 300)
    else if leb 70 score
    then (900, 1800)
    else (1800, 3600)

module _ (fl : Floats) where
  -- The bounds of the delay, in seconds.
  pub check_interval_seconds : ProxyRecord fl → ℕ × ℕ
  check_interval_seconds r =
      if is_quarantined r.state
      then quarantine_interval r.consecutive_failures
      else if leb 3 r.consecutive_failures
      then (3600, 7200)
      else if r.consecutive_failures == 2
      then (900, 1800)
      else if r.consecutive_failures == 1
      then (300, 600)
      else score_interval r.state r.score

  -- `jitter` stands for `random.randint`.
  unfoldable pub next_check_at : (jitter : ℕ → ℕ → ℕ) → ProxyRecord fl → (now : ℕ) → ℕ
  unfolding check_interval_seconds
  next_check_at jitter r now =
      let (lower, upper) = check_interval_seconds r in now + seconds (jitter lower upper)

  interval_bounds :
      (r : ProxyRecord fl)
      → let (lower, upper) = check_interval_seconds r in
        (30 ≤ lower) × (lower ≤ upper) × (upper ≤ 86400)
  unfolding check_interval_seconds
  interval_bounds r = ground arith

  -- With a jitter that stays between its bounds, the next check is due between 30 seconds and a
  -- day from now.
  pub next_check_at_bounds :
      (jitter : ℕ → ℕ → ℕ) (r : ProxyRecord fl) (now : ℕ)
      → ((a b : ℕ) → a ≤ b → (a ≤ jitter a b) × (jitter a b ≤ b))
      → (now + seconds 30 ≤ next_check_at jitter r now)
        × (next_check_at jitter r now ≤ now + seconds 86400)
  unfolding next_check_at
  next_check_at_bounds jitter r now h =
      let (lower, upper) = check_interval_seconds r in
      let i = interval_bounds r in let j = h lower upper i.1 in (omega arith, omega arith)

  -- In quarantine the back-off only grows: with at least as many failures in a row, neither bound
  -- of the delay is smaller.
  pub quarantine_backoff :
      (r r' : ProxyRecord fl)
      → r.state ≡ quarantined
      → r'.state ≡ quarantined
      → r.consecutive_failures ≤ r'.consecutive_failures
      → ((check_interval_seconds r).0 ≤ (check_interval_seconds r').0)
        × ((check_interval_seconds r).1 ≤ (check_interval_seconds r').1)
  unfolding check_interval_seconds
  quarantine_backoff r r' q q' le = ground arith
