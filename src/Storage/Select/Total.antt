-- ===== src/Storage/Select/Total.antt =====
-- The loop of the selection ends.
use ip_proxy_pool.Base.{
  ℕ, zero, suc, ◌+◌, ◌-◌, ◌<◌, ◌≢◌, refl, inl, inr, min, Bool, not, ◌||◌, Option, none, some, List,
  arith, length, ltb, ◌==◌, Bool-cases, Option-cases,
}
use ip_proxy_pool.Models.{Floats, ProxyRecord}
use ip_proxy_pool.Storage.Server.{Server, Pool}
use ip_proxy_pool.Storage.Select.Reason.{Criteria}
use ip_proxy_pool.Storage.Select.{
  Replies, Tally, Request, inspect, counted, is_enough, segment, both_segments, second_segment,
  select_random_proxies, criteria_of, nothing_yet,
}

module _ (fl : Floats) (sv : Server fl) (replies : Replies fl sv) where
  segment-ne-none :
      (c : Criteria fl) (requested fuel start size consumed : ℕ) (t : Tally fl sv)
      → size - consumed < fuel
      → segment fl sv replies c requested fuel start size consumed t ≢ none
  unfolding segment
  segment-ne-none c requested zero start size consumed t enough = absurd (omega arith)
  segment-ne-none c requested (suc fuel) start size consumed t enough =
      let batch = replies (start + consumed) (min 200 (size - consumed)) in
      let t' = inspect fl sv c batch (counted fl sv batch t) in
      elim (Bool-cases (not (ltb consumed size) || length batch == 0)) [
        | inl over ↦ rw over (λ e. cc)
        | inr more ↦ rw more (elim (Bool-cases (is_enough fl sv replies c requested t')) [
          | inl full ↦ rw full (λ e. cc)
          | inr short ↦ rw short (
              segment-ne-none c requested fuel start size (consumed + length batch) t'
                (ground (arith, more, enough)))
        ])
      ]

  second_segment-ne-none :
      (c : Criteria fl) (requested start : ℕ) (o : Option (Tally fl sv))
      → o ≢ none
      → second_segment fl sv replies c requested start o ≢ none
  second_segment-ne-none c requested start none h = absurd (h refl)
  second_segment-ne-none c requested start (some t) h =
      let rest = segment-ne-none c requested (suc start) 0 start 0 t (omega arith) in
      ground (arith, rest)

  both_segments-ne-none :
      (c : Criteria fl) (requested start candidates : ℕ) (t : Tally fl sv)
      → both_segments fl sv replies c requested start candidates t ≢ none
  unfolding both_segments
  both_segments-ne-none c requested start candidates t =
      second_segment-ne-none c requested start _ (
        segment-ne-none c requested (suc (candidates - start)) start (candidates - start) 0 t
          (omega arith))

  -- Whatever the server replies, the two loops of the selection end within the fuel that they are
  -- given, which is one round more than there are members: a round that the server answers with no
  -- member is the last, and any other consumes at least one.
  pub selection_ends :
      (ready : Bool) (members candidates start now : ℕ)
      (shuffle : List (ProxyRecord fl) → List (ProxyRecord fl)) (q : Request fl sv) (p : Pool fl sv)
      → select_random_proxies fl sv ready members candidates start now replies shuffle q p ≢ none
  unfolding select_random_proxies
  selection_ends ready members candidates start now shuffle q p =
      let some_tally =
        both_segments-ne-none (criteria_of fl sv now q) (min q.count 20) start candidates
          (nothing_yet fl sv) in
      elim (Option-cases (
        both_segments fl sv replies (criteria_of fl sv now q) (min q.count 20) start candidates
          (nothing_yet fl sv))) [
            | inl out ↦ absurd (some_tally out)
            | inr (t, got) ↦ λ e. ground (arith, got, e)
          ]
