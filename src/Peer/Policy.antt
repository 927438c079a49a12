-- ===== src/Peer/Policy.antt =====
-- peer_cache/policy.py: which proxies a peer may have.
use ip_proxy_pool.Base.{
  ℕ, ◌+◌, ◌≡◌, refl, ◌∙◌, min, max, Bool, true, false, not, ◌&&◌, Option, none, some, String,
  str_eq, leb, ltb, if◌then◌else◌, arith, eq_iff,
}
use ip_proxy_pool.Models.{Floats, seconds}
use ip_proxy_pool.Storage.Server.{Result, ok, value_error, ◌>>◌, require}

module _ (fl : Floats) where
  open fl use {Float, zero_ms, leb_float, is_finite, tenths}

  pub record SelectionPolicy : Type 0 where
    pub domain : String
    pub min_score : ℕ
    pub max_latency_ms : Float
    pub max_checked_age_seconds : ℕ
    pub min_consecutive_successes : ℕ

  -- What `accepts` reads of a record; only a cached one expires.
  pub record SelectionEvidence : Type 0 where
    pub domain : String
    pub score : ℕ
    pub latency_ewma_ms : Option Float
    pub last_checked_at : Option ℕ
    pub consecutive_successes : ℕ
    pub expires_at : Option ℕ

  -- The tests of `__post_init__`.
  unfoldable pub is_valid : SelectionPolicy → Bool
  is_valid p =
      (not (str_eq p.domain "") && leb p.min_score 100)
      && ((is_finite p.max_latency_ms && leb_float zero_ms p.max_latency_ms)
          && (ltb 0 p.max_checked_age_seconds && ltb 0 p.min_consecutive_successes))

  -- Python's `min` of two: the second where it is less.
  unfoldable pub min_float : Float → Float → Float
  min_float a b = if leb_float b a && not (leb_float a b) then b else a

  abbrev pub new_policy : SelectionPolicy → Result SelectionPolicy
  new_policy p = if is_valid p then ok p else value_error

  -- The bounds that hold for every peer.
  abbrev pub floor : String → SelectionPolicy
  floor domain = record {
    domain = domain;
    min_score = 90;
    max_latency_ms = tenths 20000;
    max_checked_age_seconds = 600;
    min_consecutive_successes = 2;
  }

  abbrev pub strictest : (request service cache : SelectionPolicy) → SelectionPolicy
  strictest request service cache = record {
    domain = request.domain;
    min_score = max (max (max request.min_score service.min_score) cache.min_score) 90;
    max_latency_ms =
        min_float
          (min_float (min_float request.max_latency_ms service.max_latency_ms) cache.max_latency_ms)
          (tenths 20000);
    max_checked_age_seconds =
        min
          (min (min request.max_checked_age_seconds service.max_checked_age_seconds)
            cache.max_checked_age_seconds)
          600;
    min_consecutive_successes =
        max
          (max (max request.min_consecutive_successes service.min_consecutive_successes)
            cache.min_consecutive_successes)
          2;
  }

  unfoldable pub effective_peer_policy :
      (request service cache : SelectionPolicy) → Result SelectionPolicy
  effective_peer_policy request service cache = do
    require (str_eq request.domain service.domain && str_eq request.domain cache.domain)
    new_policy (strictest request service cache)

  abbrev pub is_fast : Float → Option Float → Bool
  is_fast bound none = false
  is_fast bound (some v) = is_finite v && (leb_float zero_ms v && leb_float v bound)

  -- Checked no more than 5 seconds in the future, and less than the bound ago.
  abbrev pub is_recent : (age now : ℕ) → Option ℕ → Bool
  is_recent age now none = false
  is_recent age now (some t) = leb t (now + seconds 5) && ltb now (t + seconds age)

  abbrev pub is_current : (now : ℕ) → Option ℕ → Bool
  is_current now none = true
  is_current now (some t) = ltb now t

  unfoldable pub accepts : SelectionEvidence → SelectionPolicy → (now : ℕ) → Bool
  accepts r p now =
      (str_eq r.domain p.domain && leb p.min_score r.score)
      && (is_fast p.max_latency_ms r.latency_ewma_ms
          && (is_recent p.max_checked_age_seconds now r.last_checked_at
              && (leb p.min_consecutive_successes r.consecutive_successes
                  && is_current now r.expires_at)))

  -- The bounds of two policies, field by field.
  abbrev both : SelectionPolicy → SelectionPolicy → SelectionPolicy
  both p q = record {
    domain = p.domain;
    min_score = max p.min_score q.min_score;
    max_latency_ms = min_float p.max_latency_ms q.max_latency_ms;
    max_checked_age_seconds = min p.max_checked_age_seconds q.max_checked_age_seconds;
    min_consecutive_successes = max p.min_consecutive_successes q.min_consecutive_successes;
  }

  -- The order of floats, which is total on finite ones.
  module _
      (leb_trans : (x y z : Float)
        → leb_float x y ≡ true
        → leb_float y z ≡ true
        → leb_float x z ≡ true)
      (leb_total : (x y : Float)
        → is_finite x ≡ true
        → is_finite y ≡ true
        → leb_float x y ≡ false
        → leb_float y x ≡ true) where
    leb_float-min_float :
        (v a b : Float)
        → is_finite a ≡ true
        → is_finite b ≡ true
        → leb_float v (min_float a b) ≡ (leb_float v a && leb_float v b)
    unfolding min_float
    leb_float-min_float v a b f g =
        ground (arith, f, g, leb_trans v b a, leb_trans v a b, leb_total b a g f, leb_total a b f g)

    is_finite-min_float :
        (a b : Float) → is_finite a ≡ true → is_finite b ≡ true → is_finite (min_float a b) ≡ true
    unfolding min_float
    is_finite-min_float a b f g = ground (arith, f, g)

    is_fast-min_float :
        (a b : Float) (o : Option Float)
        → is_finite a ≡ true
        → is_finite b ≡ true
        → is_fast (min_float a b) o ≡ (is_fast a o && is_fast b o)
    is_fast-min_float a b none f g = refl
    is_fast-min_float a b (some v) f g = ground (arith, leb_float-min_float v a b f g)

    is_recent-min :
        (a b now : ℕ) (o : Option ℕ)
        → is_recent (min a b) now o ≡ (is_recent a now o && is_recent b now o)
    is_recent-min a b now none = refl
    is_recent-min a b now (some t) = ground arith

    -- A bound of two is a policy of both, field by field.
    accepts-both :
        (r : SelectionEvidence) (p q : SelectionPolicy) (now : ℕ)
        → p.domain ≡ q.domain
        → is_finite p.max_latency_ms ≡ true
        → is_finite q.max_latency_ms ≡ true
        → accepts r (both p q) now ≡ (accepts r p now && accepts r q now)
    unfolding accepts
    accepts-both r p q now same f g =
        let fast = is_fast-min_float p.max_latency_ms q.max_latency_ms r.latency_ewma_ms f g in
        let recent =
          is_recent-min p.max_checked_age_seconds q.max_checked_age_seconds now r.last_checked_at in
        ground (arith, same, fast, recent)

    is_valid-both :
        (p q : SelectionPolicy) → is_valid p ≡ true → is_valid q ≡ true → is_valid (both p q) ≡ true
    unfolding is_valid
    is_valid-both p q f g = ground (
      arith,
      f,
      g,
      is_finite-min_float p.max_latency_ms q.max_latency_ms,
      leb_float-min_float zero_ms p.max_latency_ms q.max_latency_ms,
    )

    is_valid-is_finite :
        (p : SelectionPolicy) → is_valid p ≡ true → is_finite p.max_latency_ms ≡ true
    unfolding is_valid
    is_valid-is_finite p f = ground (arith, f)

    -- For valid policies of one domain, with an order of floats that is transitive and total on
    -- finite ones and in which the fixed bound of 2000 is valid, the effective policy exists, and
    -- it accepts exactly what all of them and the fixed bounds accept: no request, service or
    -- cache can widen it.
    pub effective_peer_policy_is_strictest :
        (request service cache : SelectionPolicy)
        → request.domain ≡ service.domain
        → request.domain ≡ cache.domain
        → is_valid request ≡ true
        → is_valid service ≡ true
        → is_valid cache ≡ true
        → is_valid (floor request.domain) ≡ true
        → (policy : SelectionPolicy) × (effective_peer_policy request service cache ≡ ok policy)
          × ((r : SelectionEvidence) (now : ℕ)
              → accepts r policy now ≡ (
                  ((accepts r request now && accepts r service now) && accepts r cache now)
                  && accepts r (floor request.domain) now))
    unfolding effective_peer_policy
    effective_peer_policy_is_strictest request service cache same same' v₁ v₂ v₃ v₄ =
        let two = both request service in
        let three = both two cache in
        let v = is_valid-both request service v₁ v₂ in
        let v' = is_valid-both two cache v v₃ in
        let f = is_valid-is_finite in
        let valid : is_valid (strictest request service cache) ≡ true =
          is_valid-both three (floor request.domain) v' v₄ in
        (
          strictest request service cache,
          ground (
            arith,
            same,
            same',
            valid,
            eq_iff request.domain service.domain,
            eq_iff request.domain cache.domain,
          ),
          λ r now.
              accepts-both r three (floor request.domain) now refl (f three v')
                (f (floor request.domain) v₄)
              ∙ rw
                  (
                    accepts-both r two cache now same' (f two v) (f cache v₃),
                    accepts-both r request service now same (f request v₁) (f service v₂),
                  )
                  refl,
        )
