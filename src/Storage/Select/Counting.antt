-- ===== src/Storage/Select/Counting.antt =====
-- What the selection returns, and how it counts.
use ip_proxy_pool.Base.{
  ℕ, zero, suc, ◌+◌, ◌-◌, ◌≤◌, ◌≡◌, refl, subst, inl, inr, min, false, not, ◌||◌, Option, none,
  some, List, [], ◌∷◌, arith, length, ltb, ◌==◌, Bool-cases, Option-cases, All, All-append,
  length-append,
}
use ip_proxy_pool.Models.{Floats, ProxyRecord}
use ip_proxy_pool.Storage.Server.{Server}
use ip_proxy_pool.Storage.Index.{latency_index_score}
use ip_proxy_pool.Storage.Select.Reason.{
  Criteria, SkipReason, skip_reason, is_above, is_old, inconsistent, score, successes, freshness,
}
use ip_proxy_pool.Storage.Select.{
  Replies, Indexed, Tally, decoded, inspect_record, judge, inspect, counted, is_enough, segment,
  both_segments, second_segment,
}

module _ (fl : Floats) (sv : Server fl) where
  open fl use {Float}

  -- A record that a client may have: available, with a latency within the bound, a score and a
  -- streak that are high enough, and checked recently enough.
  pub record IsSelectable (c : Criteria fl) (r : ProxyRecord fl) : Type 0 where
    pub latency : Float
    pub has_latency : latency_index_score fl r ≡ some latency
    pub fast : is_above fl c.max_latency_ms latency ≡ false
    pub scored : c.min_score ≤ r.score
    pub proven : c.min_consecutive_successes ≤ r.consecutive_successes
    pub fresh : is_old c.checked_after r.last_checked_at ≡ false

  skip_reason-IsSelectable :
      (r : ProxyRecord fl) (indexed : Float) (c : Criteria fl)
      → skip_reason fl r indexed c ≡ none
      → IsSelectable c r
  unfolding skip_reason
  skip_reason-IsSelectable r indexed c e = elim (Option-cases (latency_index_score fl r)) [
    | inl nothing ↦ absurd (ground (arith, nothing, e))
    | inr (v, has) ↦ record {
      latency = v;
      has_latency = has;
      fast = ground (arith, has, e);
      scored = ground (arith, has, e);
      proven = ground (arith, has, e);
      fresh = ground (arith, has, e);
    }
  ]

  -- All that were inspected are selected or counted as skipped.
  abbrev pub settled : Tally fl sv → ℕ
  settled t =
      length t.selected
      + t.skipped_score
      + t.skipped_freshness
      + t.skipped_successes
      + t.skipped_inconsistent

  pub record IsTallied (c : Criteria fl) (t : Tally fl sv) : Type 0 where
    pub selectable : All (IsSelectable c) t.selected
    pub sum : t.inspected ≡ settled t
    pub stale : length t.stale_members ≡ t.skipped_inconsistent

  -- One member more than is settled has been counted.
  record IsAhead (c : Criteria fl) (n : ℕ) (t : Tally fl sv) : Type 0 where
    pub selectable : All (IsSelectable c) t.selected
    pub sum : t.inspected ≡ n + settled t
    pub stale : length t.stale_members ≡ t.skipped_inconsistent

  judge-IsAhead :
      (c : Criteria fl) (n : ℕ) (i : Indexed fl sv) (r : ProxyRecord fl)
      (reason : Option SkipReason) (t : Tally fl sv)
      → skip_reason fl r i.latency c ≡ reason
      → IsAhead c (suc n) t
      → IsAhead c n (judge fl sv i.member r reason t)
  judge-IsAhead c n i r none t e a = record {
    selectable =
        All-append (IsSelectable c) t.selected (r ∷ []) a.selectable
          (skip_reason-IsSelectable r i.latency c e, tt);
    sum = omega (arith, a.sum, length-append t.selected (r ∷ []));
    stale = a.stale;
  }
  judge-IsAhead c n i r (some inconsistent) t e a = record {
    selectable = a.selectable;
    sum = omega (arith, a.sum);
    stale = omega (arith, a.stale, length-append t.stale_members (i.member ∷ []));
  }
  judge-IsAhead c n i r (some score) t e a = record {
    selectable = a.selectable;
    sum = omega (arith, a.sum);
    stale = a.stale;
  }
  judge-IsAhead c n i r (some successes) t e a = record {
    selectable = a.selectable;
    sum = omega (arith, a.sum);
    stale = a.stale;
  }
  judge-IsAhead c n i r (some freshness) t e a = record {
    selectable = a.selectable;
    sum = omega (arith, a.sum);
    stale = a.stale;
  }

  inspect_record-IsAhead :
      (c : Criteria fl) (n : ℕ) (i : Indexed fl sv) (o : Option (ProxyRecord fl)) (t : Tally fl sv)
      → IsAhead c (suc n) t
      → IsAhead c n (inspect_record fl sv c i o t)
  inspect_record-IsAhead c n i none t a = record {
    selectable = a.selectable;
    sum = omega (arith, a.sum);
    stale = omega (arith, a.stale, length-append t.stale_members (i.member ∷ []));
  }
  inspect_record-IsAhead c n i (some r) t a =
      judge-IsAhead c n i r (skip_reason fl r i.latency c) t refl a

  inspect-IsAhead :
      (c : Criteria fl) (batch : List (Indexed fl sv)) (t : Tally fl sv)
      → IsAhead c (length batch) t
      → IsAhead c 0 (inspect fl sv c batch t)
  unfolding inspect
  inspect-IsAhead c [] t a = a
  inspect-IsAhead c (i ∷ batch) t a =
      inspect-IsAhead c batch (inspect_record fl sv c i (decoded fl sv i.raw) t)
        (inspect_record-IsAhead c (length batch) i (decoded fl sv i.raw) t a)

  pub round-IsTallied :
      (c : Criteria fl) (batch : List (Indexed fl sv)) (t : Tally fl sv)
      → IsTallied c t
      → IsTallied c (inspect fl sv c batch (counted fl sv batch t))
  round-IsTallied c batch t a =
      let b =
        inspect-IsAhead c batch (counted fl sv batch t)
          (record { selectable = a.selectable; sum = omega (arith, a.sum); stale = a.stale }) in
      record { selectable = b.selectable; sum = omega (arith, b.sum); stale = b.stale }

  -- What every round of the loop keeps holds at its end.
  module _ (replies : Replies fl sv) (c : Criteria fl) (requested : ℕ) (P : Tally fl sv → Type 0)
      (round : (start num : ℕ) (t : Tally fl sv)
        → P t
        → P (inspect fl sv c (replies start num) (counted fl sv (replies start num) t))) where
    segment-keeps :
        (fuel start size consumed : ℕ) (t t' : Tally fl sv)
        → segment fl sv replies c requested fuel start size consumed t ≡ some t'
        → P t
        → P t'
    unfolding segment
    segment-keeps zero start size consumed t t' e h = absurd (ground (arith, e))
    segment-keeps (suc fuel) start size consumed t t' e h =
        let batch = replies (start + consumed) (min 200 (size - consumed)) in
        let u = inspect fl sv c batch (counted fl sv batch t) in
        let k : P u = round (start + consumed) (min 200 (size - consumed)) t h in
        elim (Bool-cases (not (ltb consumed size) || length batch == 0)) [
          | inl over ↦ let same : t ≡ t' = ground (arith, over, e) in subst P same h
          | inr more ↦ elim (Bool-cases (is_enough fl sv replies c requested u)) [
            | inl full ↦ let same : u ≡ t' = ground (arith, more, full, e) in subst P same k
            | inr short ↦
                segment-keeps fuel start size (consumed + length batch) u t'
                  (ground (arith, more, short, e)) k
          ]
        ]

    second_segment-keeps :
        (start : ℕ) (o : Option (Tally fl sv)) (t' : Tally fl sv)
        → second_segment fl sv replies c requested start o ≡ some t'
        → ((t : Tally fl sv) → o ≡ some t → P t)
        → P t'
    second_segment-keeps start none t' e h = absurd (ground (arith, e))
    second_segment-keeps start (some t) t' e h =
        elim (Bool-cases (is_enough fl sv replies c requested t)) [
          | inl full ↦ let same : t ≡ t' = ground (arith, full, e) in subst P same (h t refl)
          | inr short ↦
              segment-keeps (suc start) 0 start 0 t t' (ground (arith, short, e)) (h t refl)
        ]

    pub both_segments-keeps :
        (start candidates : ℕ) (t t' : Tally fl sv)
        → both_segments fl sv replies c requested start candidates t ≡ some t'
        → P t
        → P t'
    unfolding both_segments
    both_segments-keeps start candidates t t' e h =
        second_segment-keeps start _ t' e
          (λ u got. segment-keeps (suc (candidates - start)) start (candidates - start) 0 t u got h)
