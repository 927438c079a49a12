-- ===== src/Storage/Select/Judged.antt =====
-- The loop of the selection keeps count of its verdicts.
use mathlib.Core.List.{append-nil, append_assoc}
use ip_proxy_pool.Base.{
  ℕ, ◌+◌, ◌≡◌, refl, sym, ap, ◌∙◌, inl, inr, Option, none, some, List, [], ◌∷◌, ◌++◌, length,
  length-append, All, All-append, Option-cases, arith,
}
use ip_proxy_pool.Models.{Floats, ProxyRecord}
use ip_proxy_pool.Storage.Server.{Server}
use ip_proxy_pool.Storage.Select.Reason.{
  Criteria, SkipReason, skip_reason, inconsistent, score, successes, freshness,
}
use ip_proxy_pool.Storage.Select.{
  Replies, Indexed, Tally, decoded, inspect, inspect_record, judge, counted, nothing_yet,
}
use ip_proxy_pool.Storage.Select.Verdicts.{
  Judged, IsExplained, skipped_for, fitting, with_record, entries, fetched, judged_one, judged_all,
  entries-judged_all, length-judged_all, skipped_for-append, fitting-append, fetched-snoc,
  judged_all-IsExplained,
}

module _ (fl : Floats) (sv : Server fl) where
  -- The loop's variables after the members of `js`, from `t`.
  record Adds (js : List (Judged fl sv)) (t u : Tally fl sv) : Type 0 where
    selected : u.selected ≡ t.selected ++ fitting fl sv js
    scores : u.skipped_score ≡ t.skipped_score + skipped_for fl sv score js
    ages : u.skipped_freshness ≡ t.skipped_freshness + skipped_for fl sv freshness js
    streaks : u.skipped_successes ≡ t.skipped_successes + skipped_for fl sv successes js
    others : u.skipped_inconsistent ≡ t.skipped_inconsistent + skipped_for fl sv inconsistent js
    inspected : u.inspected ≡ t.inspected

  Adds-trans :
      (xs ys : List (Judged fl sv)) (t u w : Tally fl sv)
      → Adds xs t u
      → Adds ys u w
      → Adds (xs ++ ys) t w
  Adds-trans xs ys t u w a b = record {
    selected =
        b.selected
        ∙ ap (λ rs. rs ++ fitting fl sv ys) a.selected
        ∙ append_assoc t.selected (fitting fl sv xs) (fitting fl sv ys)
        ∙ ap (λ rs. t.selected ++ rs) (sym (fitting-append fl sv xs ys));
    scores = omega (arith, a.scores, b.scores, skipped_for-append fl sv score xs ys);
    ages = omega (arith, a.ages, b.ages, skipped_for-append fl sv freshness xs ys);
    streaks = omega (arith, a.streaks, b.streaks, skipped_for-append fl sv successes xs ys);
    others = omega (arith, a.others, b.others, skipped_for-append fl sv inconsistent xs ys);
    inspected = b.inspected ∙ a.inspected;
  }

  judge-Adds :
      (c : Criteria fl) (i : Indexed fl sv) (r : ProxyRecord fl) (o : Option SkipReason)
      (t : Tally fl sv)
      → decoded fl sv i.raw ≡ some r
      → Adds (record { entry = i; reason = o } ∷ []) t (judge fl sv i.member r o t)
  judge-Adds c i r none t there = record {
    selected = ap (λ o. t.selected ++ with_record fl sv o []) (sym there);
    scores = omega arith;
    ages = omega arith;
    streaks = omega arith;
    others = omega arith;
    inspected = refl;
  }
  judge-Adds c i r (some inconsistent) t there = record {
    selected = sym (append-nil t.selected);
    scores = omega arith;
    ages = omega arith;
    streaks = omega arith;
    others = omega arith;
    inspected = refl;
  }
  judge-Adds c i r (some score) t there = record {
    selected = sym (append-nil t.selected);
    scores = omega arith;
    ages = omega arith;
    streaks = omega arith;
    others = omega arith;
    inspected = refl;
  }
  judge-Adds c i r (some successes) t there = record {
    selected = sym (append-nil t.selected);
    scores = omega arith;
    ages = omega arith;
    streaks = omega arith;
    others = omega arith;
    inspected = refl;
  }
  judge-Adds c i r (some freshness) t there = record {
    selected = sym (append-nil t.selected);
    scores = omega arith;
    ages = omega arith;
    streaks = omega arith;
    others = omega arith;
    inspected = refl;
  }

  Adds-one :
      (c : Criteria fl) (i : Indexed fl sv) (t : Tally fl sv)
      → Adds (judged_one fl sv c i ∷ []) t (inspect_record fl sv c i (decoded fl sv i.raw) t)
  Adds-one c i t = elim (Option-cases (decoded fl sv i.raw)) [
    | inl gone ↦ rw gone (record {
      selected = sym (append-nil t.selected);
      scores = omega arith;
      ages = omega arith;
      streaks = omega arith;
      others = omega arith;
      inspected = refl;
    })
    | inr (r, there) ↦ rw there (judge-Adds c i r (skip_reason fl r i.latency c) t there)
  ]

  inspect-Adds :
      (c : Criteria fl) (batch : List (Indexed fl sv)) (t : Tally fl sv)
      → Adds (judged_all fl sv c batch) t (inspect fl sv c batch t)
  unfolding inspect
  inspect-Adds c [] t = record {
    selected = sym (append-nil t.selected);
    scores = omega arith;
    ages = omega arith;
    streaks = omega arith;
    others = omega arith;
    inspected = refl;
  }
  inspect-Adds c (i ∷ batch) t =
      let u = inspect_record fl sv c i (decoded fl sv i.raw) t in
      Adds-trans (judged_one fl sv c i ∷ []) (judged_all fl sv c batch) t u
        (inspect fl sv c batch u) (Adds-one c i t) (inspect-Adds c batch u)

  -- The loop's variables tell of the members that the server replied at some offsets, each with its
  -- verdict.
  pub record IsJudged (c : Criteria fl) (replies : Replies fl sv) (t : Tally fl sv) : Type 0 where
    pub offsets : List (ℕ × ℕ)
    pub judged : List (Judged fl sv)
    pub read : entries fl sv judged ≡ fetched fl sv replies offsets
    pub explained : All (IsExplained fl sv c) judged
    pub inspected : t.inspected ≡ length judged
    pub selected : t.selected ≡ fitting fl sv judged
    pub scores : t.skipped_score ≡ skipped_for fl sv score judged
    pub ages : t.skipped_freshness ≡ skipped_for fl sv freshness judged
    pub streaks : t.skipped_successes ≡ skipped_for fl sv successes judged
    pub others : t.skipped_inconsistent ≡ skipped_for fl sv inconsistent judged

  entries-append :
      (xs ys : List (Judged fl sv))
      → entries fl sv (xs ++ ys) ≡ entries fl sv xs ++ entries fl sv ys
  entries-append [] ys = refl
  entries-append (x ∷ xs) ys = ap (λ t. x.entry ∷ t) (entries-append xs ys)

  pub round-IsJudged :
      (c : Criteria fl) (replies : Replies fl sv) (start num : ℕ) (t : Tally fl sv)
      → IsJudged c replies t
      → IsJudged c replies
          (inspect fl sv c (replies start num) (counted fl sv (replies start num) t))
  round-IsJudged c replies start num t h =
      let batch = replies start num in
      let js = judged_all fl sv c batch in
      let a = inspect-Adds c batch (counted fl sv batch t) in
      record {
        offsets = h.offsets ++ (start, num) ∷ [];
        judged = h.judged ++ js;
        read =
            entries-append h.judged js
            ∙ ap (λ r. r ++ entries fl sv js) h.read
            ∙ ap (λ r. fetched fl sv replies h.offsets ++ r) (entries-judged_all fl sv c batch)
            ∙ sym (fetched-snoc fl sv replies h.offsets start num);
        explained =
            All-append (IsExplained fl sv c) h.judged js h.explained
              (judged_all-IsExplained fl sv c batch);
        inspected = omega (
          arith,
          h.inspected,
          a.inspected,
          length-append h.judged js,
          length-judged_all fl sv c batch,
        );
        selected =
            a.selected
            ∙ ap (λ rs. rs ++ fitting fl sv js) h.selected
            ∙ sym (fitting-append fl sv h.judged js);
        scores = omega (arith, h.scores, a.scores, skipped_for-append fl sv score h.judged js);
        ages = omega (arith, h.ages, a.ages, skipped_for-append fl sv freshness h.judged js);
        streaks =
            omega (arith, h.streaks, a.streaks, skipped_for-append fl sv successes h.judged js);
        others =
            omega (arith, h.others, a.others, skipped_for-append fl sv inconsistent h.judged js);
      }

  pub nothing_yet-IsJudged :
      (c : Criteria fl) (replies : Replies fl sv) → IsJudged c replies (nothing_yet fl sv)
  nothing_yet-IsJudged c replies = record {
    offsets = [];
    judged = [];
    read = refl;
    explained = tt;
    inspected = refl;
    selected = refl;
    scores = refl;
    ages = refl;
    streaks = refl;
    others = refl;
  }
