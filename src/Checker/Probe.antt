-- ===== src/Checker/Probe.antt =====
-- checker/probe.py: what a request through a proxy, or without one, says.
pub mod Verdict
use ip_proxy_pool.Base.{
  ℕ, ◌≡◌, ◌≢◌, refl, ◌↔◌, Bool, true, false, not, ◌&&◌, ◌||◌, Option, none, some, List, [], ◌∷◌,
  String, leb, ◌==◌, elem, if◌then◌else◌, arith, All, Bool-cases, inl, inr, ◌⊎◌,
}
use ip_proxy_pool.Models.{
  Floats, ProbeResult, ProbeCategory, success, proxy_error, system_error, cancelled,
}
use ip_proxy_pool.Storage.Server.{Result, ok, value_error, ◌>>=◌, ◌>>◌, require}

-- The parts of TestTarget that decide about a response.
pub record TestTarget : Type 0 where
  pub expected_statuses : List ℕ
  pub expected_text : Option String
  pub json_keys : List String

-- A response of httpx: `has_text` searches its text, and `json_object` has the keys of its body,
-- if that is a JSON object.
pub record Response : Type 0 where
  pub status_code : ℕ
  pub has_text : String → Bool
  pub json_object : Option (List String)

-- How a request ends: by the exceptions that `_probe` tells apart, with the name of the type and
-- the message, or with a response.
pub data Reply : Type 0 where
  was_cancelled : String → Reply
  transport_error : String → String → Reply
  other_error : String → String → Reply
  answered : Response → Reply

-- The texts of messages: `_safe_message`, and what is written about a status.
pub record Messages : Type 0 where
  pub safe_message : String → String
  pub returned : ℕ → String
  pub expected : List ℕ → ℕ → String

abbrev pub has_status : List ℕ → ℕ → Bool
has_status [] n = false
has_status (s ∷ ss) n = (s == n) || has_status ss n

abbrev pub has_expected_text : Option String → Response → Bool
has_expected_text none r = true
has_expected_text (some t) r = r.has_text t

abbrev pub all_in : List String → List String → Bool
all_in [] body = true
all_in (k ∷ ks) body = elem k body && all_in ks body

abbrev pub has_keys : List String → Option (List String) → Bool
has_keys [] body = true
has_keys (k ∷ ks) none = false
has_keys (k ∷ ks) (some body) = all_in (k ∷ ks) body

-- The category of a failure that is laid on the proxy, where there is one.
abbrev pub blamed : (through_proxy : Bool) → ProbeCategory
blamed true = proxy_error
blamed false = system_error

module _ (fl : Floats) (texts : Messages) where
  open fl use {Float, zero_ms, leb_float}

  -- `_failure`.
  unfoldable pub failure : ProbeCategory → (error_type message : String) → Option ℕ → ProbeResult fl
  failure category error_type message status_code = record {
    category = category;
    latency_ms = none;
    status_code = status_code;
    error_type = some error_type;
    error_message = some (texts.safe_message message);
  }

  -- `_validate_response`; `through_proxy` is false for a baseline.
  unfoldable pub validate_response :
      Response → TestTarget → (through_proxy : Bool) → (latency_ms : Float) → ProbeResult fl
  unfolding failure
  validate_response r target through_proxy latency_ms =
      if not through_proxy && leb 500 r.status_code
      then failure system_error "unexpected_status" (texts.returned r.status_code)
          (some r.status_code)
      else if not (has_status target.expected_statuses r.status_code)
      then failure (blamed through_proxy) "unexpected_status"
          (texts.expected target.expected_statuses r.status_code) (some r.status_code)
      else if not (has_expected_text target.expected_text r)
      then failure (blamed through_proxy) "response_mismatch" "expected text was not present"
          (some r.status_code)
      else if not (has_keys target.json_keys r.json_object)
      then failure (blamed through_proxy) "response_mismatch" "expected JSON keys were not present"
          (some r.status_code)
      else record {
        category = success;
        latency_ms = some latency_ms;
        status_code = some r.status_code;
        error_type = none;
        error_message = none;
      }

  -- `_probe`, from how the request ended and the time it took.
  unfoldable pub probe : (through_proxy : Bool) → TestTarget → Reply → Float → ProbeResult fl
  unfolding failure validate_response
  probe through_proxy target (was_cancelled m) latency_ms =
      failure cancelled "cancelled" (texts.safe_message m) none
  probe through_proxy target (transport_error t m) latency_ms =
      failure (blamed through_proxy) t (texts.safe_message m) none
  probe through_proxy target (other_error t m) latency_ms =
      failure system_error t (texts.safe_message m) none
  probe through_proxy target (answered r) latency_ms =
      validate_response r target through_proxy latency_ms

  abbrev pub is_success : ProbeCategory → Bool
  is_success success = true
  is_success proxy_error = false
  is_success system_error = false
  is_success cancelled = false

  -- `max(maximum_latency, result.latency_ms)`, where there is a latency.
  abbrev pub max_latency : Float → Option Float → Float
  max_latency m none = m
  max_latency m (some v) = if leb_float m v && not (leb_float v m) then v else m

  -- The loop of `probe_proxy_targets`, over the results of `probe_proxy` for the targets.
  unfoldable pub probe_each : Float → Option ℕ → List (ProbeResult fl) → ProbeResult fl
  probe_each m status [] = record {
    category = success;
    latency_ms = some m;
    status_code = status;
    error_type = none;
    error_message = none;
  }
  probe_each m status (r ∷ rs) =
      let rest = probe_each (max_latency m r.latency_ms) r.status_code rs in
      if is_success r.category then rest else r

  abbrev is_empty : List (ProbeResult fl) → Bool
  is_empty [] = true
  is_empty (r ∷ rs) = false

  unfoldable pub probe_proxy_targets : List (ProbeResult fl) → Result (ProbeResult fl)
  unfolding probe_each
  probe_proxy_targets rs = do require (not (is_empty rs)); ok (probe_each zero_ms none rs)
