-- ===== src/Storage/Select/Sound.antt =====
-- The answers of the selection, and what it does to the pool.
use ip_proxy_pool.Base.{
  ℕ, ◌+◌, ◌≡◌, refl, sym, ap, ◌⊎◌, inl, inr, min, Bool, some, List, [], ◌∷◌, take, arith, length,
  ◌==◌, Bool-cases, Option-cases, All, All-take, length-take,
}
use ip_proxy_pool.Models.{Floats, ProxyRecord}
use ip_proxy_pool.Storage.Server.{Server, Pool}
use ip_proxy_pool.Storage.Select.{
  answer, Replies, Tally, ProxySelection, Request, both_segments, select_random_proxies, selection,
  criteria_of, nothing_yet, no_selection,
}
use ip_proxy_pool.Storage.Select.Reason.{Criteria, inconsistent, score, successes, freshness}
use ip_proxy_pool.Storage.Select.Verdicts.{
  Judged, IsExplained, entries, fetched, fitting, skipped_for,
}
use ip_proxy_pool.Storage.Select.Judged.{IsJudged, round-IsJudged, nothing_yet-IsJudged}
use ip_proxy_pool.Storage.Select.Counting.{
  IsSelectable, IsTallied, round-IsTallied, both_segments-keeps,
}

module _ (fl : Floats) (sv : Server fl)
    (shuffle : List (ProxyRecord fl) → List (ProxyRecord fl)) where
  open sv use {hashes, latencies}

  -- An answer is empty or comes from the loop.
  pub answer-cases :
      (ready : Bool) (members candidates start now : ℕ) (replies : Replies fl sv)
      (q : Request fl sv) (p p' : Pool fl sv) (s : ProxySelection fl sv)
      → select_random_proxies fl sv ready members candidates start now replies shuffle q p
        ≡ some (answer (s, p'))
      → ((s ≡ no_selection fl sv members) × (p' ≡ p))
        ⊎ ((t : Tally fl sv) × (both_segments fl sv replies
                (criteria_of fl sv now q)
                (min q.count 20)
                start
                candidates
                (nothing_yet fl sv)
              ≡ some t)
            × ((s, p') ≡ selection fl sv shuffle members candidates q p t))
  unfolding select_random_proxies
  answer-cases ready members candidates start now replies q p p' s e =
      elim (Option-cases (
        both_segments fl sv replies (criteria_of fl sv now q) (min q.count 20) start candidates
          (nothing_yet fl sv))) [
            | inl out ↦ ground (arith, out, e)
            | inr (t, got) ↦ elim (Bool-cases (candidates == 0)) [
              | inl nothing ↦ inl (ground (arith, got, nothing, e))
              | inr some_ ↦ inr (t, got, ground (arith, got, some_, e))
            ]
          ]

  tally_of :
      (q : Request fl sv) (now start candidates : ℕ) (replies : Replies fl sv) (t : Tally fl sv)
      → both_segments fl sv replies
          (criteria_of fl sv now q)
          (min q.count 20)
          start
          candidates
          (nothing_yet fl sv)
        ≡ some t
      → IsTallied fl sv (criteria_of fl sv now q) t
  tally_of q now start candidates replies t got =
      both_segments-keeps fl sv replies (criteria_of fl sv now q) (min q.count 20)
        (IsTallied fl sv (criteria_of fl sv now q))
        (λ a n u h. round-IsTallied fl sv (criteria_of fl sv now q) (replies a n) u h) start
        candidates (nothing_yet fl sv) t got (record { selectable = tt; sum = refl; stale = refl })

  both_segments-IsJudged :
      (q : Request fl sv) (now start candidates : ℕ) (replies : Replies fl sv) (t : Tally fl sv)
      → both_segments fl sv replies
          (criteria_of fl sv now q)
          (min q.count 20)
          start
          candidates
          (nothing_yet fl sv)
        ≡ some t
      → IsJudged fl sv (criteria_of fl sv now q) replies t
  both_segments-IsJudged q now start candidates replies t got =
      let c = criteria_of fl sv now q in
      both_segments-keeps fl sv replies c (min q.count 20) (IsJudged fl sv c replies)
        (λ a n u h. round-IsJudged fl sv c replies a n u h) start candidates (nothing_yet fl sv) t
        got (nothing_yet-IsJudged fl sv c replies)

  -- What an answer accounts for, by the members that the server replied at some offsets.
  pub record IsAccounted (c : Criteria fl) (replies : Replies fl sv) (limit : ℕ)
      (s : ProxySelection fl sv) : Type 0 where
    pub offsets : List (ℕ × ℕ)
    pub judged : List (Judged fl sv)
    pub read : entries fl sv judged ≡ fetched fl sv replies offsets
    pub explained : All (IsExplained fl sv c) judged
    pub inspected : s.inspected ≡ length judged
    pub records : s.records ≡ take limit (shuffle (fitting fl sv judged))
    pub enough : length s.records ≡ min limit (length (fitting fl sv judged))
    pub scores : s.skipped_score ≡ skipped_for fl sv score judged
    pub ages : s.skipped_freshness ≡ skipped_for fl sv freshness judged
    pub streaks : s.skipped_successes ≡ skipped_for fl sv successes judged
    pub others : s.skipped_inconsistent ≡ skipped_for fl sv inconsistent judged
    pub sum :
        s.inspected
        ≡ length (fitting fl sv judged)
          + s.skipped_score
          + s.skipped_freshness
          + s.skipped_successes
          + s.skipped_inconsistent

  module _
      (shuffled : (P : ProxyRecord fl → Type 0) (rs : List (ProxyRecord fl))
        → All P rs
        → All P (shuffle rs))
      (length-shuffle : (rs : List (ProxyRecord fl)) → length (shuffle rs) ≡ length rs) where
    nil_of_length : (rs : List (ProxyRecord fl)) → length rs ≡ 0 → rs ≡ []
    nil_of_length [] e = refl
    nil_of_length (r ∷ rs) e = absurd (ground (arith, e))

    no_selection-IsAccounted :
        (c : Criteria fl) (replies : Replies fl sv) (limit members : ℕ)
        → IsAccounted c replies limit (no_selection fl sv members)
    no_selection-IsAccounted c replies limit members =
        let nil : shuffle [] ≡ [] = nil_of_length (shuffle []) (length-shuffle []) in
        record {
          offsets = [];
          judged = [];
          read = refl;
          explained = tt;
          inspected = refl;
          records =
              rw nil
                (sym (nil_of_length (take limit []) (omega (arith, length-take {0} limit []))));
          enough = omega arith;
          scores = refl;
          ages = refl;
          streaks = refl;
          others = refl;
          sum = omega arith;
        }

    -- Whatever the server replies, each record of an answer is one that the client may have, and
    -- everything that was inspected is accounted for: there is a verdict on each member that the
    -- server replied at some offsets; the answer has, shuffled, as many of the records that fit as
    -- were asked for, 20 at most, or all; and each of the four counts is the number of members that
    -- were skipped for its reason, where a reason tells what it says. Inconsistent: there is no
    -- record, or its latency does not bear out the index or the bound. Score, successes, freshness:
    -- the latency does, and the score is too low; or it is not, and the successes are too few; or
    -- neither, and the check is too old. The shuffle is assumed to keep the records and their number.
    pub selection_meets_request :
        (ready : Bool) (members candidates start now : ℕ) (replies : Replies fl sv)
        (q : Request fl sv) (p p' : Pool fl sv) (s : ProxySelection fl sv)
        → select_random_proxies fl sv ready members candidates start now replies shuffle q p
          ≡ some (answer (s, p'))
        → All (IsSelectable fl sv (criteria_of fl sv now q)) s.records
          × IsAccounted (criteria_of fl sv now q) replies (min q.count 20) s
    unfolding selection
    selection_meets_request ready members candidates start now replies q p p' s e =
        let c = criteria_of fl sv now q in
        elim (answer-cases ready members candidates start now replies q p p' s e) [
          | inl (none_there, _) ↦
              rw none_there (tt, no_selection-IsAccounted c replies (min q.count 20) members)
          | inr (t, got, made) ↦
              let h = tally_of q now start candidates replies t got in
              let j = both_segments-IsJudged q now start candidates replies t got in
              let same : s ≡ (selection fl sv shuffle members candidates q p t).0 =
                ap (λ x. x.0) made in
              rw same (
                All-take _ (min q.count 20) (shuffle t.selected)
                    (shuffled _ t.selected h.selectable),
                record {
                  offsets = j.offsets;
                  judged = j.judged;
                  read = j.read;
                  explained = j.explained;
                  inspected = j.inspected;
                  records = ap (λ rs. take (min q.count 20) (shuffle rs)) j.selected;
                  enough = omega (
                    arith,
                    length-take (min q.count 20) (shuffle t.selected),
                    length-shuffle t.selected,
                    ap length j.selected,
                  );
                  scores = j.scores;
                  ages = j.ages;
                  streaks = j.streaks;
                  others = j.others;
                  sum = omega (arith, h.sum, ap length j.selected);
                },
              )
        ]
