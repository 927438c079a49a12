-- ===== src/Peer/Store/Frames.antt =====
-- What each method does to the cache, and what it leaves as it was.
use ip_proxy_pool.Base.{
  ℕ, ◌≡◌, refl, subst, ◌∙◌, ◌⊎◌, inl, inr, Bool, true, false, ◌&&◌, ◌||◌, Option, none, some, List,
  [], ◌∷◌, String, leb, ◌==◌, str_eq, arith, Bool-cases, Option-cases, eq_iff,
}
use ip_proxy_pool.Models.{Floats}
use ip_proxy_pool.Storage.Server.{Result-cases, ok}
use ip_proxy_pool.Peer.Policy.{SelectionPolicy, effective_peer_policy}
use ip_proxy_pool.Peer.Store.{
  PeerServer, Cache, PeerCacheStore, PeerCacheRecord, SelectionReceipt, suppressed, is_blocked,
}
use ip_proxy_pool.Peer.Store.Sync.{is_held_by}
use ip_proxy_pool.Peer.Store.Replace.{
  ReplaceResult, replace, replace_script, encode_all, accept, accept_all, emptied, finish_sync,
  stale, no_values, add_filtered, keep,
}
use ip_proxy_pool.Peer.Store.Choice.{
  SelectedProxy, PeerRequest, select, choose, candidate, request_of, select_script,
}
use ip_proxy_pool.Peer.Store.Failure.{invalidate, apply_failure, retain}

module _ (fl : Floats) (sv : PeerServer fl) where
  open sv use {Raw, hashes, deadlines, keys}

  abbrev pub OnlyReceipts : Cache fl sv → Cache fl sv → Type 0
  OnlyReceipts s s' = (receipts' : keys.Keys) × (s' ≡ record s { receipts = receipts' })

  choose-OnlyReceipts :
      (q : PeerRequest fl) (is_formal : String → Bool) (clock now : ℕ) (members : List String)
      (tokens : List (String × String)) (selected : List (SelectedProxy fl)) (s : Cache fl sv)
      → OnlyReceipts s (choose fl sv q is_formal clock now members tokens selected s).1
  unfolding choose
  choose-OnlyReceipts q is_formal clock now members [] selected s = (s.receipts, refl)
  choose-OnlyReceipts q is_formal clock now [] (t ∷ tokens) selected s = (s.receipts, refl)
  choose-OnlyReceipts q is_formal clock now (k ∷ members) ((token, digest) ∷ tokens) selected s =
      let skipped =
        choose-OnlyReceipts q is_formal clock now members ((token, digest) ∷ tokens) selected s in
      elim (Option-cases (candidate fl sv q is_formal now k s)) [
        | inl none' ↦ rw (choose, none') skipped
        | inr (v, found) ↦ elim (Option-cases (keys.get clock digest s.receipts)) [
          | inl free ↦
              rw (choose, found, free)
                (choose-OnlyReceipts q is_formal clock now members tokens _ _)
          | inr (raw, used) ↦ rw (choose, found, used) skipped
        ]
      ]

  -- A selection that is made is one of the script, under the effective policy.
  pub select-choose :
      (st : PeerCacheStore fl sv) (policy : SelectionPolicy fl) (tokens : List (String × String))
      (exclusions : List String) (principal : String) (is_formal : String → Bool) (clock now : ℕ)
      (s : Cache fl sv) (r : List (SelectedProxy fl) × Cache fl sv)
      → select fl sv st policy tokens exclusions principal is_formal clock now s ≡ ok r
      → (effective : SelectionPolicy fl) × (effective_peer_policy fl policy st.policy st.policy
          ≡ ok effective)
        × (select_script fl sv
              (request_of fl sv st effective exclusions principal)
              is_formal
              clock
              now
              tokens
              s
            ≡ r)
  unfolding select
  select-choose st policy tokens exclusions principal is_formal clock now s r e =
      elim (Result-cases (effective_peer_policy fl policy st.policy st.policy)) [
        | inl bad ↦ absurd (ground (arith, bad, e))
        | inr (effective, good) ↦ (effective, good, ground (arith, good, e))
      ]

  pub select-domain :
      (st : PeerCacheStore fl sv) (policy : SelectionPolicy fl) (tokens : List (String × String))
      (exclusions : List String) (principal : String) (is_formal : String → Bool) (clock now : ℕ)
      (s : Cache fl sv) (r : List (SelectedProxy fl) × Cache fl sv)
      → select fl sv st policy tokens exclusions principal is_formal clock now s ≡ ok r
      → policy.domain ≡ st.domain
  unfolding select
  select-domain st policy tokens exclusions principal is_formal clock now s r e =
      elim (Bool-cases (str_eq policy.domain st.domain)) [
        | inl same ↦ ground (arith, same, eq_iff policy.domain st.domain)
        | inr other ↦ absurd (ground (arith, other, e))
      ]

  -- A selection changes the receipts only.
  pub select-OnlyReceipts :
      (st : PeerCacheStore fl sv) (policy : SelectionPolicy fl) (tokens : List (String × String))
      (exclusions : List String) (principal : String) (is_formal : String → Bool) (clock now : ℕ)
      (s : Cache fl sv) (proxies : List (SelectedProxy fl)) (s' : Cache fl sv)
      → select fl sv st policy tokens exclusions principal is_formal clock now s ≡ ok (proxies, s')
      → OnlyReceipts s s'
  unfolding select
  select-OnlyReceipts st policy tokens exclusions principal is_formal clock now s proxies s' e =
      let (effective, valid, chosen) =
        select-choose st policy tokens exclusions principal is_formal clock now s (proxies, s') e in
      subst (λ r. OnlyReceipts s r.1) chosen
        (choose-OnlyReceipts (request_of fl sv st effective exclusions principal) is_formal clock
          now (deadlines.zrange_after now s.expiry) tokens [] s)

  -- The parts that the loop of a replacement leaves as they were.
  pub record IsUntouched (s s' : Cache fl sv) : Type 0 where
    pub generation : s'.generation ≡ s.generation
    pub lock : s'.lock ≡ s.lock
    pub suppression : s'.suppression ≡ s.suppression
    pub suppression_expiry : s'.suppression_expiry ≡ s.suppression_expiry

  untouched : (s : Cache fl sv) → IsUntouched s s
  untouched s = record {
    generation = refl;
    lock = refl;
    suppression = refl;
    suppression_expiry = refl;
  }

  IsUntouched-trans :
      {s s' s'' : Cache fl sv} → IsUntouched s s' → IsUntouched s' s'' → IsUntouched s s''
  IsUntouched-trans a b = record {
    generation = b.generation ∙ a.generation;
    lock = b.lock ∙ a.lock;
    suppression = b.suppression ∙ a.suppression;
    suppression_expiry = b.suppression_expiry ∙ a.suppression_expiry;
  }

  -- One value: it is dropped, or kept when it has not expired, is not a formal record's and is not
  -- blocked.
  pub accept-cases :
      (now : ℕ) (is_formal : String → Bool) (raw : Raw) (n : ReplaceResult) (s : Cache fl sv)
      → ((accept fl sv now is_formal raw (n, s)).1 ≡ s)
        ⊎ (((accept fl sv now is_formal raw (n, s)).1 ≡ keep fl sv raw (sv.decode_value raw) s)
            × ((leb (sv.decode_value raw).expires_epoch now ≡ false)
                × ((is_formal (sv.decode_value raw).item.endpoint ≡ false)
                    × (is_blocked now
                          (sv.decode_value raw).checked_epoch
                          (suppressed fl sv (sv.decode_value raw).item.endpoint s)
                        ≡ false))))
  accept-cases now is_formal raw n s =
      let v = sv.decode_value raw in
      elim (Bool-cases (leb v.expires_epoch now || is_formal v.item.endpoint)) [
        | inl out ↦ inl (rw out refl)
        | inr in_ ↦
            elim (Bool-cases
              (is_blocked now v.checked_epoch (suppressed fl sv v.item.endpoint s))) [
                | inl blocked ↦ inl (rw (in_, blocked) refl)
                | inr free ↦
                    inr (rw (in_, free) refl, (ground (arith, in_), (ground (arith, in_), free)))
              ]
      ]

  accept-IsUntouched :
      (now : ℕ) (is_formal : String → Bool) (raw : Raw) (n : ReplaceResult) (s : Cache fl sv)
      → IsUntouched s (accept fl sv now is_formal raw (n, s)).1
  accept-IsUntouched now is_formal raw n s = elim (accept-cases now is_formal raw n s) [
    | inl same ↦ rw same (untouched s)
    | inr (kept, why) ↦
        rw kept
          (record { generation = refl; lock = refl; suppression = refl; suppression_expiry = refl })
  ]

  pub accept_all-IsUntouched :
      (now : ℕ) (is_formal : String → Bool) (raws : List Raw) (n : ReplaceResult) (s : Cache fl sv)
      → IsUntouched s (accept_all fl sv now is_formal raws (n, s)).1
  unfolding accept_all
  accept_all-IsUntouched now is_formal [] n s = record {
    generation = refl;
    lock = refl;
    suppression = refl;
    suppression_expiry = refl;
  }
  accept_all-IsUntouched now is_formal (raw ∷ raws) n s =
      let step = accept fl sv now is_formal raw (n, s) in
      IsUntouched-trans (accept-IsUntouched now is_formal raw n s)
        (accept_all-IsUntouched now is_formal raws step.0 step.1)

  -- A replacement that returns: it was stale and changed nothing, or the lock was held and the
  -- script ran over what was encoded.
  pub replace-cases :
      (st : PeerCacheStore fl sv) (snapshot : List (PeerCacheRecord fl)) (g : Option ℕ)
      (owner : String) (clock now : ℕ) (is_formal : String → Bool) (s : Cache fl sv)
      (n : ReplaceResult) (s' : Cache fl sv)
      → replace fl sv st snapshot g owner clock now is_formal s ≡ ok (n, s')
      → (generation : ℕ) × (raws : List Raw) × (filtered : ℕ) × (g ≡ some generation)
        × (encode_all fl sv st now snapshot ≡ ok (raws, filtered))
        × ((n, s')
            ≡ add_filtered fl sv filtered
                (replace_script fl sv clock generation owner now is_formal raws s))
  unfolding replace
  replace-cases st snapshot none owner clock now is_formal s n s' e = absurd (ground (arith, e))
  replace-cases st snapshot (some generation) owner clock now is_formal s n s' e =
      elim (Result-cases (encode_all fl sv st now snapshot)) [
        | inl bad ↦ absurd (ground (arith, bad, e))
        | inr ((raws, filtered), good) ↦
            (generation, raws, filtered, refl, good, ground (arith, good, e))
      ]

  pub replace_script-cases :
      (clock generation : ℕ) (owner : String) (now : ℕ) (is_formal : String → Bool)
      (raws : List Raw) (s : Cache fl sv)
      → (replace_script fl sv clock generation owner now is_formal raws s ≡ (stale, s))
        ⊎ (((s.generation ≡ generation) × (is_held_by clock s.lock owner generation ≡ true))
            × (replace_script fl sv clock generation owner now is_formal raws s
                ≡ finish_sync fl sv now
                    (accept_all fl sv now is_formal raws (no_values, emptied fl sv now s))))
  unfolding replace_script
  replace_script-cases clock generation owner now is_formal raws s =
      elim (Bool-cases (s.generation == generation && is_held_by clock s.lock owner generation)) [
        | inl held ↦ inr ((ground (arith, held), ground (arith, held)), rw held refl)
        | inr other ↦ inl (rw other refl)
      ]

  -- A report that returns: the receipt was used before and nothing changed, or it was there, was
  -- not used, and the failure is applied.
  pub invalidate-cases :
      (st : PeerCacheStore fl sv) (r : SelectionReceipt fl) (clock now : ℕ) (s : Cache fl sv)
      (b : Bool) (s' : Cache fl sv)
      → invalidate fl sv st r clock now s ≡ ok (b, s')
      → (raw : Raw) × (keys.get clock r.digest s.receipts ≡ some raw)
        × (((b ≡ false) × (s' ≡ s))
            ⊎ (((b ≡ true) × ((sv.decode_receipt raw).failure_applied ≡ false))
                × (s'
                    ≡ apply_failure fl sv clock now st.cooldown
                        (retain fl sv st)
                        (keys.pttl clock r.digest s.receipts)
                        r.digest
                        (sv.decode_receipt raw)
                        s)))
  unfolding invalidate
  invalidate-cases st r clock now s b s' e =
      elim (Option-cases (keys.get clock r.digest s.receipts)) [
        | inl gone ↦ absurd (ground (arith, gone, e))
        | inr (raw, there) ↦ (
          raw,
          there,
          elim (Bool-cases (sv.decode_receipt raw).failure_applied) [
            | inl used ↦ inl (ground (arith, there, used, e), ground (arith, there, used, e))
            | inr fresh ↦
                inr ((ground (arith, there, fresh, e), fresh), ground (arith, there, fresh, e))
          ],
        )
      ]
