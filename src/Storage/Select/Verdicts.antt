-- ===== src/Storage/Select/Verdicts.antt =====
-- What the loop of the selection makes of each member that it inspects.
use mathlib.Core.List.{append-nil, append_assoc}
use ip_proxy_pool.Base.{
  ℕ, suc, ◌+◌, ◌≤◌, ◌<◌, ◌≡◌, refl, sym, ap, subst, ◌∙◌, inl, inr, true, false, Option, none, some,
  List, [], ◌∷◌, ◌++◌, length, ◌==◌, if◌then◌else◌, All, Bool-cases, Option-cases, arith, ltb,
}
use ip_proxy_pool.Models.{Floats, ProxyRecord}
use ip_proxy_pool.Storage.Server.{Server}
use ip_proxy_pool.Storage.Index.{latency_index_score}
use ip_proxy_pool.Storage.Select.Reason.{
  Criteria, SkipReason, skip_reason, is_inconsistent, is_above, is_old, inconsistent, score,
  successes, freshness,
}
use ip_proxy_pool.Storage.Select.{Replies, Indexed, decoded}

abbrev code_of : SkipReason → ℕ
code_of inconsistent = 0
code_of score = 1
code_of successes = 2
code_of freshness = 3

module _ (fl : Floats) (sv : Server fl) where
  open fl use {Float, is_close}

  -- A member that was inspected, and the reason for which it was skipped, if it was.
  pub record Judged : Type 0 where
    pub entry : Indexed fl sv
    pub reason : Option SkipReason

  -- The record's own latency is near the one in the index and within the bound.
  pub record IsBorneOut (c : Criteria fl) (i : Indexed fl sv) (r : ProxyRecord fl) : Type 0 where
    pub latency : Float
    pub has_latency : latency_index_score fl r ≡ some latency
    pub near : is_close latency i.latency ≡ true
    pub fast : is_above fl c.max_latency_ms latency ≡ false

  -- What each verdict tells of the member and of the record that was read for it.
  abbrev pub Explains : Criteria fl → Indexed fl sv → Option SkipReason → Type 0
  Explains c i none =
      (r : ProxyRecord fl) × (decoded fl sv i.raw ≡ some r)
      × IsBorneOut c i r
      × (c.min_score ≤ r.score)
      × (c.min_consecutive_successes ≤ r.consecutive_successes)
      × (is_old c.checked_after r.last_checked_at ≡ false)
  Explains c i (some inconsistent) =
      (r : ProxyRecord fl) → decoded fl sv i.raw ≡ some r → ¬ IsBorneOut c i r
  Explains c i (some score) =
      (r : ProxyRecord fl) × (decoded fl sv i.raw ≡ some r)
      × IsBorneOut c i r
      × (r.score < c.min_score)
  Explains c i (some successes) =
      (r : ProxyRecord fl) × (decoded fl sv i.raw ≡ some r)
      × IsBorneOut c i r
      × (c.min_score ≤ r.score)
      × (r.consecutive_successes < c.min_consecutive_successes)
  Explains c i (some freshness) =
      (r : ProxyRecord fl) × (decoded fl sv i.raw ≡ some r)
      × IsBorneOut c i r
      × (c.min_score ≤ r.score)
      × (c.min_consecutive_successes ≤ r.consecutive_successes)
      × (is_old c.checked_after r.last_checked_at ≡ true)

  -- How many were skipped for the reason.
  abbrev pub skipped_for : SkipReason → List Judged → ℕ
  skipped_for s [] = 0
  skipped_for s (j ∷ js) = elim j.reason [
    | none ↦ skipped_for s js
    | some t ↦ if code_of t == code_of s then suc (skipped_for s js) else skipped_for s js
  ]

  abbrev pub with_record : Option (ProxyRecord fl) → List (ProxyRecord fl) → List (ProxyRecord fl)
  with_record none rs = rs
  with_record (some r) rs = r ∷ rs

  -- The records of those that were not skipped.
  abbrev pub fitting : List Judged → List (ProxyRecord fl)
  fitting [] = []
  fitting (j ∷ js) = elim j.reason [
    | none ↦ with_record (decoded fl sv j.entry.raw) (fitting js)
    | some t ↦ fitting js
  ]

  abbrev pub entries : List Judged → List (Indexed fl sv)
  entries [] = []
  entries (j ∷ js) = j.entry ∷ entries js

  -- What the server replied at the offsets, for so many members at each.
  abbrev pub fetched : Replies fl sv → List (ℕ × ℕ) → List (Indexed fl sv)
  fetched replies [] = []
  fetched replies ((start, num) ∷ offsets) = replies start num ++ fetched replies offsets

  abbrev pub verdict : Criteria fl → Indexed fl sv → Option (ProxyRecord fl) → Option SkipReason
  verdict c i none = some inconsistent
  verdict c i (some r) = skip_reason fl r i.latency c

  abbrev pub judged_one : Criteria fl → Indexed fl sv → Judged
  judged_one c i = record { entry = i; reason = verdict c i (decoded fl sv i.raw) }

  abbrev pub judged_all : Criteria fl → List (Indexed fl sv) → List Judged
  judged_all c [] = []
  judged_all c (i ∷ batch) = judged_one c i ∷ judged_all c batch

  pub entries-judged_all :
      (c : Criteria fl) (is : List (Indexed fl sv)) → entries (judged_all c is) ≡ is
  entries-judged_all c [] = refl
  entries-judged_all c (i ∷ is) = ap (λ t. i ∷ t) (entries-judged_all c is)

  pub length-judged_all :
      (c : Criteria fl) (is : List (Indexed fl sv)) → length (judged_all c is) ≡ length is
  length-judged_all c [] = refl
  length-judged_all c (i ∷ is) = ap suc (length-judged_all c is)

  pub skipped_for-append :
      (s : SkipReason) (xs ys : List Judged)
      → skipped_for s (xs ++ ys) ≡ skipped_for s xs + skipped_for s ys
  skipped_for-append s [] ys = omega arith
  skipped_for-append s (j ∷ xs) ys = ground (arith, skipped_for-append s xs ys)

  pub fitting-append : (xs ys : List Judged) → fitting (xs ++ ys) ≡ fitting xs ++ fitting ys
  fitting-append [] ys = refl
  fitting-append (j ∷ xs) ys = elim (Option-cases j.reason) [
    | inr (t, skipped) ↦ rw skipped (fitting-append xs ys)
    | inl kept ↦ elim (Option-cases (decoded fl sv j.entry.raw)) [
      | inl gone ↦ rw (kept, gone) (fitting-append xs ys)
      | inr (r, there) ↦ rw (kept, there) (ap (λ t. r ∷ t) (fitting-append xs ys))
    ]
  ]

  pub fetched-snoc :
      (replies : Replies fl sv) (offsets : List (ℕ × ℕ)) (start num : ℕ)
      → fetched replies (offsets ++ (start, num) ∷ [])
        ≡ fetched replies offsets ++ replies start num
  fetched-snoc replies [] start num = append-nil (replies start num)
  fetched-snoc replies ((a, n) ∷ offsets) start num =
      ap (λ t. replies a n ++ t) (fetched-snoc replies offsets start num)
      ∙ sym (append_assoc (replies a n) (fetched replies offsets) (replies start num))

  is_inconsistent-IsBorneOut :
      (c : Criteria fl) (i : Indexed fl sv) (r : ProxyRecord fl)
      → is_inconsistent fl c.max_latency_ms i.latency (latency_index_score fl r) ≡ false
      → IsBorneOut c i r
  is_inconsistent-IsBorneOut c i r e = elim (Option-cases (latency_index_score fl r)) [
    | inl nothing ↦ absurd (ground (arith, nothing, e))
    | inr (v, has) ↦ record {
      latency = v;
      has_latency = has;
      near = ground (arith, has, e);
      fast = ground (arith, has, e);
    }
  ]

  IsBorneOut-is_inconsistent :
      (c : Criteria fl) (i : Indexed fl sv) (r : ProxyRecord fl)
      → IsBorneOut c i r
      → is_inconsistent fl c.max_latency_ms i.latency (latency_index_score fl r) ≡ false
  IsBorneOut-is_inconsistent c i r b = rw b.has_latency (ground (arith, b.near, b.fast))

  pub skip_reason-Explains :
      (c : Criteria fl) (i : Indexed fl sv) (r : ProxyRecord fl)
      → decoded fl sv i.raw ≡ some r
      → Explains c i (skip_reason fl r i.latency c)
  unfolding skip_reason
  skip_reason-Explains c i r there =
      let bad = is_inconsistent fl c.max_latency_ms i.latency (latency_index_score fl r) in
      elim (Bool-cases bad) [
        | inl off ↦ rw off (λ r' there' b.
            let same : r' ≡ r = ground (arith, there, there') in
            let fine = IsBorneOut-is_inconsistent c i r (subst (IsBorneOut c i) same b) in
            ground (arith, off, fine))
        | inr fine ↦
            let b = is_inconsistent-IsBorneOut c i r fine in
            elim (Bool-cases (ltb r.score c.min_score)) [
              | inl low ↦ rw (fine, low) (r, there, b, ground (arith, low))
              | inr scored ↦
                  elim (Bool-cases (ltb r.consecutive_successes c.min_consecutive_successes)) [
                    | inl few ↦
                        rw (fine, scored, few)
                          (r, there, b, ground (arith, scored), ground (arith, few))
                    | inr proven ↦ elim (Bool-cases (is_old c.checked_after r.last_checked_at)) [
                      | inl old ↦
                          rw (fine, scored, proven, old)
                            (r, there, b, ground (arith, scored), ground (arith, proven), old)
                      | inr new ↦
                          rw (fine, scored, proven, new)
                            (r, there, b, ground (arith, scored), ground (arith, proven), new)
                    ]
                  ]
            ]
      ]

  verdict-Explains :
      (c : Criteria fl) (i : Indexed fl sv) (o : Option (ProxyRecord fl))
      → decoded fl sv i.raw ≡ o
      → Explains c i (verdict c i o)
  verdict-Explains c i none gone = λ r there. absurd (ground (arith, gone, there))
  verdict-Explains c i (some r) there = skip_reason-Explains c i r there

  abbrev pub IsExplained : Criteria fl → Judged → Type 0
  IsExplained c j = Explains c j.entry j.reason

  pub judged_all-IsExplained :
      (c : Criteria fl) (is : List (Indexed fl sv)) → All (IsExplained c) (judged_all c is)
  judged_all-IsExplained c [] = tt
  judged_all-IsExplained c (i ∷ is) =
      (verdict-Explains c i (decoded fl sv i.raw) refl, judged_all-IsExplained c is)
