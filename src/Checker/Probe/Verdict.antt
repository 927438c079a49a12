-- ===== src/Checker/Probe/Verdict.antt =====
-- What the result of a probe tells.
use ip_proxy_pool.Base.{
  IsIn, ℕ, ◌<◌, ◌≡◌, ◌≢◌, refl, subst, ◌↔◌, ◌⊎◌, inl, inr, Bool, true, false, Option, none, some,
  List, [], ◌∷◌, String, All, map, elem, eq_iff, Bool-cases, arith,
}
use ip_proxy_pool.Models.{
  Floats, ProbeResult, ProbeCategory, success, proxy_error, system_error, cancelled,
}
use ip_proxy_pool.Storage.Server.{ok}
use ip_proxy_pool.Checker.Probe.{
  TestTarget, Response, Reply, was_cancelled, transport_error, other_error, answered, Messages,
  has_status, has_expected_text, has_keys, all_in, is_success, max_latency, validate_response,
  probe, probe_each, probe_proxy_targets,
}

has_status-IsIn : (ss : List ℕ) (n : ℕ) → has_status ss n ≡ true ↔ IsIn n ss
has_status-IsIn [] n = (λ e. cc, λ h. absurd h)
has_status-IsIn (s ∷ ss) n =
    let ih = has_status-IsIn ss n in (λ e. ground (arith, e, ih), λ h. ground (arith, h, ih))

elem-IsIn : (k : String) (xs : List String) → elem k xs ≡ true ↔ IsIn k xs
elem-IsIn k [] = (λ e. cc, λ h. absurd h)
elem-IsIn k (x ∷ xs) =
    let ih = elem-IsIn k xs in
    (λ e. ground (arith, e, ih, eq_iff x k), λ h. ground (arith, h, ih, eq_iff x k))

all_in-IsIn :
    (ks body : List String) → all_in ks body ≡ true ↔ ((k : String) → IsIn k ks → IsIn k body)
all_in-IsIn [] body = (λ e k h. absurd h, λ h. refl)
all_in-IsIn (j ∷ ks) body = (
  λ (e : all_in (j ∷ ks) body ≡ true) (k : String) h. elim h [
    | inl same ↦ rw same ((elem-IsIn j body).0 (ground (arith, e)))
    | inr later ↦ (all_in-IsIn ks body).0 (ground (arith, e)) k later
  ],
  λ h. ground (
    arith,
    (elem-IsIn j body).1 (h j (inl refl)),
    (all_in-IsIn ks body).1 (λ k later. h k (inr later)),
  ),
)

-- What a target asks of a response: of a baseline a status below 500; one of the expected statuses;
-- the expected text, if there is one; and, if keys are expected, a JSON object that has each.
pub record Passes (through_proxy : Bool) (target : TestTarget) (r : Response) : Type 0 where
  pub served : through_proxy ≡ false → r.status_code < 500
  pub expected : IsIn r.status_code target.expected_statuses
  pub texted : (t : String) → target.expected_text ≡ some t → r.has_text t ≡ true
  pub keyed :
      (key : String)
      → IsIn key target.json_keys
      → (body : List String) × (r.json_object ≡ some body) × IsIn key body

has_text-texted :
    (o : Option String) (r : Response)
    → has_expected_text o r ≡ true ↔ ((t : String) → o ≡ some t → r.has_text t ≡ true)
has_text-texted none r = (λ e t h. absurd (ground (arith, h)), λ h. refl)
has_text-texted (some u) r = (λ e t h. ground (arith, e, h), λ h. h u refl)

has_keys-keyed :
    (ks : List String) (o : Option (List String))
    → has_keys ks o ≡ true
      ↔ ((key : String) → IsIn key ks → (body : List String) × (o ≡ some body) × IsIn key body)
has_keys-keyed [] o = (λ e key h. absurd h, λ h. refl)
has_keys-keyed (k ∷ ks) none =
    (λ e. cc, λ h. let (body, there, _) = h k (inl refl) in absurd (ground (arith, there)))
has_keys-keyed (k ∷ ks) (some body) = (
  λ e key h. (body, refl, (all_in-IsIn (k ∷ ks) body).0 e key h),
  λ h. (all_in-IsIn (k ∷ ks) body).1 (λ key asked.
      let (found, there, in_) = h key asked in
      let same : found ≡ body = ground (arith, there) in subst (IsIn key) same in_),
)

module _ (fl : Floats) (texts : Messages) where
  open fl use {Float, zero_ms}

  validate_response-Passes :
      (r : Response) (target : TestTarget) (through_proxy : Bool) (latency_ms : Float)
      → (validate_response fl texts r target through_proxy latency_ms).category ≡ success
      → Passes through_proxy target r
  unfolding validate_response
  validate_response-Passes r target through_proxy latency_ms e = record {
    served = λ (direct : through_proxy ≡ false). ground (arith, e, direct);
    expected = (has_status-IsIn target.expected_statuses r.status_code).0 (ground (arith, e));
    texted = (has_text-texted target.expected_text r).0 (ground (arith, e));
    keyed = (has_keys-keyed target.json_keys r.json_object).0 (ground (arith, e));
  }

  Passes-validate_response :
      (r : Response) (target : TestTarget) (through_proxy : Bool) (latency_ms : Float)
      → Passes through_proxy target r
      → (validate_response fl texts r target through_proxy latency_ms).category ≡ success
  unfolding validate_response
  Passes-validate_response r target through_proxy latency_ms p =
      let served = p.served in
      let a = (has_status-IsIn target.expected_statuses r.status_code).1 p.expected in
      let b = (has_text-texted target.expected_text r).1 p.texted in
      let c = (has_keys-keyed target.json_keys r.json_object).1 p.keyed in
      elim (Bool-cases through_proxy) [
        | inl proxied ↦ ground (arith, proxied, a, b, c)
        | inr direct ↦ let low = served direct in ground (arith, direct, low, a, b, c)
      ]

  abbrev pub ReplyPasses : Bool → TestTarget → Reply → Type 0
  ReplyPasses through_proxy target (was_cancelled m) = ⊥
  ReplyPasses through_proxy target (transport_error t m) = ⊥
  ReplyPasses through_proxy target (other_error t m) = ⊥
  ReplyPasses through_proxy target (answered r) = Passes through_proxy target r

  probe_succeeds_iff :
      (through_proxy : Bool) (target : TestTarget) (reply : Reply) (latency_ms : Float)
      → (probe fl texts through_proxy target reply latency_ms).category ≡ success
        ↔ ReplyPasses through_proxy target reply
  unfolding probe
  probe_succeeds_iff through_proxy target (was_cancelled m) latency_ms = (λ e. cc, λ h. absurd h)
  probe_succeeds_iff true target (transport_error t m) latency_ms = (λ e. cc, λ h. absurd h)
  probe_succeeds_iff false target (transport_error t m) latency_ms = (λ e. cc, λ h. absurd h)
  probe_succeeds_iff through_proxy target (other_error t m) latency_ms = (λ e. cc, λ h. absurd h)
  probe_succeeds_iff through_proxy target (answered r) latency_ms = (
    validate_response-Passes r target through_proxy latency_ms,
    Passes-validate_response r target through_proxy latency_ms,
  )

  -- A baseline never lays a failure on a proxy, and through a proxy the blame is never the
  -- system's when a response came or the transport failed.
  blame_is_fair :
      (target : TestTarget) (reply : Reply) (latency_ms : Float)
      → ((probe fl texts false target reply latency_ms).category ≢ proxy_error)
        × ((r : Response)
            → reply ≡ answered r
            → ((probe fl texts true target reply latency_ms).category ≡ success)
              ⊎ ((probe fl texts true target reply latency_ms).category ≡ proxy_error))
        × ((kind message : String)
            → reply ≡ transport_error kind message
            → (probe fl texts true target reply latency_ms).category ≡ proxy_error)
  unfolding probe validate_response
  blame_is_fair target (was_cancelled m) latency_ms =
      (λ e. cc, λ r e. absurd (cc e), λ kind message e. absurd (cc e))
  blame_is_fair target (transport_error t m) latency_ms =
      (λ e. cc, λ r e. absurd (cc e), λ kind message e. refl)
  blame_is_fair target (other_error t m) latency_ms =
      (λ e. cc, λ r e. absurd (cc e), λ kind message e. absurd (cc e))
  blame_is_fair target (answered a) latency_ms =
      (λ e. ground (arith, e), λ r e. ground arith, λ kind message e. absurd (cc e))

  -- A target, how the request to it through a proxy ends, and the time that takes.
  pub record Attempt : Type 0 where
    pub target : TestTarget
    pub reply : Reply
    pub latency_ms : Float

  abbrev pub result_of : Attempt → ProbeResult fl
  result_of a = probe fl texts true a.target a.reply a.latency_ms

  abbrev pub AttemptPasses : Attempt → Type 0
  AttemptPasses a = ReplyPasses true a.target a.reply

  is_success_iff : (c : ProbeCategory) → is_success fl texts c ≡ true ↔ c ≡ success
  is_success_iff success = (λ e. refl, λ e. refl)
  is_success_iff proxy_error = (λ e. cc, λ e. cc)
  is_success_iff system_error = (λ e. cc, λ e. cc)
  is_success_iff cancelled = (λ e. cc, λ e. cc)

  probe_each_succeeds_iff :
      (m : Float) (status : Option ℕ) (attempts : List Attempt)
      → (probe_each fl texts m status (map result_of attempts)).category ≡ success
        ↔ All AttemptPasses attempts
  unfolding probe_each
  probe_each_succeeds_iff m status [] = (λ e. tt, λ h. refl)
  probe_each_succeeds_iff m status (a ∷ attempts) =
      let r = result_of a in
      let ih =
        probe_each_succeeds_iff (max_latency fl texts m r.latency_ms) r.status_code attempts in
      let one = probe_succeeds_iff true a.target a.reply a.latency_ms in
      let ok_iff = is_success_iff r.category in
      elim (Bool-cases (is_success fl texts r.category)) [
        | inl good ↦ rw good (λ e. (one.0 (ok_iff.0 good), ih.0 e), λ h. ih.1 h.1)
        | inr bad ↦ rw bad (
          λ e. absurd (ground (arith, bad, ok_iff.1 e)),
          λ h. absurd (ground (arith, bad, ok_iff.1 (one.1 h.0))),
        )
      ]

  -- A round over one target or more gives a result, and it is a success exactly when every target
  -- got a response through the proxy with one of its expected statuses, the text that it expects,
  -- if any, and, if it expects keys, a JSON object that has each of them.
  pub round_succeeds_iff :
      (a : Attempt) (attempts : List Attempt)
      → (whole : ProbeResult fl) × (probe_proxy_targets fl texts (map result_of (a ∷ attempts))
          ≡ ok whole)
        × ((whole.category ≡ success) ↔ All AttemptPasses (a ∷ attempts))
  unfolding probe_proxy_targets
  round_succeeds_iff a attempts = (
    probe_each fl texts zero_ms none (map result_of (a ∷ attempts)),
    refl,
    probe_each_succeeds_iff zero_ms none (a ∷ attempts),
  )
