-- ===== src/Peer/Store/Counted.antt =====
-- What is counted in the cache is what a selection could return.
use ip_proxy_pool.Base.{
  ℕ, zero, suc, ◌+◌, ◌≡◌, refl, ap, sym, ◌∙◌, inl, inr, Bool, true, false, none, some, List, [],
  ◌∷◌, ◌++◌, String, str_eq, elem, length, length-append, All, IsDistinct, map, arith, Option-cases,
  eq_iff, eq_refl,
}
use ip_proxy_pool.Models.{Floats}
use ip_proxy_pool.Storage.Server.{ok}
use ip_proxy_pool.Peer.Policy.{SelectionPolicy, effective_peer_policy}
use ip_proxy_pool.Peer.Store.{PeerServer, Cache, PeerCacheStore, Value}
use ip_proxy_pool.Peer.Store.Choice.{
  SelectedProxy, PeerRequest, select, choose, candidate, count_members, count_selectable,
  request_of, decode_selected, usable_until, issued, is_eligible,
}
use ip_proxy_pool.Peer.Store.Frames.{select-choose, select-domain, select-OnlyReceipts}

module _ (fl : Floats) (sv : PeerServer fl) where
  open sv use {Raw, hashes, deadlines, keys}

  -- No receipt has one of the digests.
  abbrev pub AreFree : (clock : ℕ) → List String → keys.Keys → Type 0
  AreFree clock ds receipts = All (λ d. keys.get clock d receipts ≡ none) ds

  AreFree-set_px :
      (clock : ℕ) (d : String) (raw : Raw) (ttl : ℕ) (ds : List String) (receipts : keys.Keys)
      → elem d ds ≡ false
      → AreFree clock ds receipts
      → AreFree clock ds (keys.set_px clock d raw ttl receipts)
  AreFree-set_px clock d raw ttl [] receipts other free = tt
  AreFree-set_px clock d raw ttl (x ∷ ds) receipts other (now_, rest) = (
    ground (
      arith,
      keys.get-set_px clock clock x d raw ttl receipts (omega arith),
      other,
      now_,
      eq_iff x d,
      eq_iff d x,
    ),
    AreFree-set_px clock d raw ttl ds receipts (ground (arith, other)) rest,
  )

  -- The same candidates, the same count.
  count_members-same :
      (q q' : PeerRequest fl) (is_formal : String → Bool) (now : ℕ) (members : List String)
      (limit : ℕ) (s s' : Cache fl sv)
      → ((k : String) → candidate fl sv q is_formal now k s ≡ candidate fl sv q' is_formal now k s')
      → count_members fl sv q is_formal now members limit s
        ≡ count_members fl sv q' is_formal now members limit s'
  unfolding count_members
  count_members-same q q' is_formal now members zero s s' same = refl
  count_members-same q q' is_formal now [] (suc limit) s s' same = refl
  count_members-same q q' is_formal now (k ∷ members) (suc limit) s s' same =
      elim (Option-cases (candidate fl sv q is_formal now k s)) [
        | inl none' ↦
            let none'' : candidate fl sv q' is_formal now k s' ≡ none = sym (same k) ∙ none' in
            rw (count_members, none', none'')
              (count_members-same q q' is_formal now members (suc limit) s s' same)
        | inr (v, found) ↦
            let found' : candidate fl sv q' is_formal now k s' ≡ some v = sym (same k) ∙ found in
            rw (count_members, found, found')
              (ap suc (count_members-same q q' is_formal now members limit s s' same))
      ]

  count_members-principal :
      (st : PeerCacheStore fl sv) (p : SelectionPolicy fl) (a b : String)
      (is_formal : String → Bool) (now : ℕ) (members : List String) (limit : ℕ) (s : Cache fl sv)
      → count_members fl sv (request_of fl sv st p [] a) is_formal now members limit s
        ≡ count_members fl sv (request_of fl sv st p [] b) is_formal now members limit s
  unfolding candidate is_eligible
  count_members-principal st p a b is_formal now members limit s =
      count_members-same (request_of fl sv st p [] a) (request_of fl sv st p [] b) is_formal now
        members limit s s (λ k. refl)

  module _ (q : PeerRequest fl) (is_formal : String → Bool) where
    count_members-issued :
        (clock now : ℕ) (digest k : String) (v : Value fl) (members : List String) (limit : ℕ)
        (s : Cache fl sv)
        → count_members fl sv q is_formal now members limit
            (issued fl sv q is_formal clock now digest k v s)
          ≡ count_members fl sv q is_formal now members limit s
    unfolding candidate
    count_members-issued clock now digest k v members limit s =
        count_members-same q q is_formal now members limit
          (issued fl sv q is_formal clock now digest k v s) s (λ j. refl)

    length-choose :
        (clock now : ℕ) (members : List String) (tokens : List (String × String))
        (selected : List (SelectedProxy fl)) (s : Cache fl sv)
        → AreFree clock (map (λ t. t.1) tokens) s.receipts
        → IsDistinct (map (λ t. t.1) tokens)
        → length (choose fl sv q is_formal clock now members tokens selected s).0
          ≡ length selected + count_members fl sv q is_formal now members (length tokens) s
    unfolding choose count_members
    length-choose clock now members [] selected s free distinct = omega arith
    length-choose clock now [] (t ∷ tokens) selected s free distinct = omega arith
    length-choose clock now (k ∷ members) ((token, digest) ∷ tokens) selected s (now_, rest)
          (new, distinct) =
        elim (Option-cases (candidate fl sv q is_formal now k s)) [
          | inl none' ↦
              rw (choose, count_members, none')
                (length-choose clock now members ((token, digest) ∷ tokens) selected s (now_, rest)
                  (new, distinct))
          | inr (v, found) ↦
              let item = decode_selected fl sv token (usable_until fl q now v) v in
              rw (choose, count_members, found, now_)
                (omega (
                  arith,
                  length-choose clock now members tokens (selected ++ (item ∷ [])) _
                      (AreFree-set_px clock digest _ _ _ s.receipts new rest) distinct,
                  count_members-issued clock now digest k v members (length tokens) s,
                  length-append selected (item ∷ []),
                ))
        ]

  count_selectable-ok :
      (st : PeerCacheStore fl sv) (policy effective : SelectionPolicy fl)
      (is_formal : String → Bool) (now : ℕ) (s : Cache fl sv)
      → policy.domain ≡ st.domain
      → effective_peer_policy fl policy st.policy st.policy ≡ ok effective
      → count_selectable fl sv st policy is_formal now s
        ≡ ok (
            count_members fl sv
              (request_of fl sv st effective [] "")
              is_formal
              now
              (deadlines.zrange_after now s.expiry)
              20
              s)
  unfolding count_selectable
  count_selectable-ok st policy effective is_formal now s same valid =
      let named : str_eq policy.domain st.domain ≡ true =
        ground (arith, same, eq_refl policy.domain, eq_iff policy.domain st.domain) in
      rw (named, valid) refl

  count_selectable-receipts :
      (st : PeerCacheStore fl sv) (policy effective : SelectionPolicy fl)
      (is_formal : String → Bool) (now : ℕ) (s : Cache fl sv) (receipts' : keys.Keys)
      → policy.domain ≡ st.domain
      → effective_peer_policy fl policy st.policy st.policy ≡ ok effective
      → count_selectable fl sv st policy is_formal now (record s { receipts = receipts' })
        ≡ count_selectable fl sv st policy is_formal now s
  unfolding candidate
  count_selectable-receipts st policy effective is_formal now s receipts' same valid =
      let q = request_of fl sv st effective [] "" in
      let s'' : Cache fl sv = record s { receipts = receipts' } in
      count_selectable-ok st policy effective is_formal now s'' same valid
      ∙ ap ok (
          count_members-same q q is_formal now (deadlines.zrange_after now s.expiry) 20 s'' s
            (λ k. refl))
      ∙ sym (count_selectable-ok st policy effective is_formal now s same valid)

  -- When a selection with 20 fresh and distinct tokens and no exclusions returns, what `count`
  -- returns at the same time for the same policy is the number of proxies that it selects: the
  -- count is not an estimate, and the receipts that a selection issues do not change it.
  pub count_is_how_many_select :
      (st : PeerCacheStore fl sv) (policy : SelectionPolicy fl) (tokens : List (String × String))
      (principal : String) (is_formal : String → Bool) (clock now : ℕ) (s s' : Cache fl sv)
      (proxies : List (SelectedProxy fl))
      → length tokens ≡ 20
      → AreFree clock (map (λ t. t.1) tokens) s.receipts
      → IsDistinct (map (λ t. t.1) tokens)
      → select fl sv st policy tokens [] principal is_formal clock now s ≡ ok (proxies, s')
      → (count_selectable fl sv st policy is_formal now s ≡ ok (length proxies))
        × (count_selectable fl sv st policy is_formal now s' ≡ ok (length proxies))
  count_is_how_many_select st policy tokens principal is_formal clock now s s' proxies full free
        distinct e =
      let (effective, valid, chosen) =
        select-choose fl sv st policy tokens [] principal is_formal clock now s (proxies, s') e in
      let same =
        select-domain fl sv st policy tokens [] principal is_formal clock now s (proxies, s') e in
      let members = deadlines.zrange_after now s.expiry in
      let q = request_of fl sv st effective [] principal in
      let total : 0 + count_members fl sv q is_formal now members (length tokens) s
          ≡ count_members fl sv q is_formal now members 20 s =
        ap (λ n. 0 + count_members fl sv q is_formal now members n s) full ∙ omega arith in
      let counted : length proxies
          ≡ count_members fl sv (request_of fl sv st effective [] "") is_formal now members 20 s =
        ap (λ r. length r.0) (sym chosen)
        ∙ length-choose q is_formal clock now members tokens [] s free distinct
        ∙ total
        ∙ count_members-principal st effective principal "" is_formal now members 20 s in
      let before : count_selectable fl sv st policy is_formal now s ≡ ok (length proxies) =
        count_selectable-ok st policy effective is_formal now s same valid ∙ ap ok (sym counted) in
      let (receipts', after) =
        select-OnlyReceipts fl sv st policy tokens [] principal is_formal clock now s proxies s'
          e in
      (
        before,
        ap (count_selectable fl sv st policy is_formal now) after
            ∙ count_selectable-receipts st policy effective is_formal now s receipts' same valid
            ∙ before,
      )
