-- ===== src/Peer/Receipts/Once.antt =====
-- A receipt stands for one failure.
use ip_proxy_pool.Base.{
  ℕ, ◌+◌, ◌≤◌, ◌<◌, ◌≡◌, refl, ap, sym, ◌∙◌, ◌⊎◌, inl, inr, Bool, true, false, Option, none, some,
  List, [], ◌∷◌, String, ltb, str_eq, arith, Bool-cases, Option-cases, eq_iff, eq_refl,
}
use ip_proxy_pool.Models.{Floats, seconds}
use ip_proxy_pool.Storage.Server.{ok}
use ip_proxy_pool.Peer.Store.{SelectionReceipt}
use ip_proxy_pool.Peer.Receipts.{
  ReceiptServer, Binding, new_receipt, issue_with, claim_formal_failure,
}

module _ (fl : Floats) (sv : ReceiptServer fl) where
  open sv use {Raw, dump, load, encode, digest_of, keys}

  -- Calls one after the other by the server's clock.
  pub data Calls (c : ℕ) (ks : keys.Keys) : ℕ → keys.Keys → Type 0 where
    here : Calls c ks c ks
    issues :
        {c' : ℕ} {ks' : keys.Keys} (clock now : ℕ) (b : Binding fl) (tokens : List String)
        → Calls c ks c' ks'
        → c' ≤ clock
        → Calls c ks clock (issue_with fl sv clock now b tokens ks').1
    claims :
        {c' : ℕ} {ks' ks'' : keys.Keys} (clock : ℕ) (r : SelectionReceipt fl) (done : Bool)
        → Calls c ks c' ks'
        → c' ≤ clock
        → claim_formal_failure fl sv r clock ks' ≡ ok (done, ks'')
        → Calls c ks clock ks''

  abbrev IsApplied : Option Raw → Type 0
  IsApplied none = ⊥
  IsApplied (some raw) = (load raw).failure_applied ≡ true

  -- From a time on and before another, the receipt is there and used.
  abbrev IsUsed : (digest : String) → (from until : ℕ) → keys.Keys → Type 0
  IsUsed digest from until ks =
      (at : ℕ) → from ≤ at → at < until → IsApplied (keys.get at digest ks)

  -- Another key is set.
  other-IsUsed :
      (d e : String) (from clock until ttl : ℕ) (raw : Raw) (ks : keys.Keys)
      → str_eq e d ≡ false
      → from ≤ clock
      → IsUsed d from until ks
      → IsUsed d clock until (keys.set_px clock e raw ttl ks)
  other-IsUsed d e from clock until ttl raw ks other later used at low high =
      rw (keys.get-set_px at clock d e raw ttl ks low, other)
        (used at (omega (arith, later, low)) high)

  issue_with-IsUsed :
      (d : String) (from clock now until : ℕ) (b : Binding fl) (tokens : List String)
      (ks : keys.Keys)
      → from ≤ clock
      → IsUsed d from until ks
      → IsUsed d clock until (issue_with fl sv clock now b tokens ks).1
  unfolding issue_with
  issue_with-IsUsed d from clock now until b [] ks later used at low high =
      used at (omega (arith, later, low)) high
  issue_with-IsUsed d from clock now until b (token ∷ tokens) ks later used at low high =
      let e = digest_of token in
      elim (Option-cases (keys.get clock e ks)) [
        | inr (raw, taken) ↦
            rw (issue_with, taken)
              (issue_with-IsUsed d from clock now until b tokens ks later used at low high)
        | inl free ↦ elim (Bool-cases (str_eq e d)) [
          | inr other ↦
              rw (issue_with, free)
                (other-IsUsed d e from clock until (seconds 600) (dump (new_receipt fl sv b e now))
                  ks other later used at low high)
          | inl same ↦
              let named : e ≡ d = ground (arith, same, eq_iff e d) in
              let gone : keys.get clock d ks ≡ none =
                ap (λ k. keys.get clock k ks) (sym named) ∙ free in
              let now_used = used clock later (omega (arith, low, high)) in
              absurd (rw gone at now_used)
        ]
      ]

  -- A claim that returns.
  claim-cases :
      (r : SelectionReceipt fl) (clock : ℕ) (ks : keys.Keys) (done : Bool) (ks' : keys.Keys)
      → claim_formal_failure fl sv r clock ks ≡ ok (done, ks')
      → (raw : Raw) × (keys.get clock r.digest ks ≡ some raw)
        × (((done ≡ false) × (ks' ≡ ks))
            ⊎ (((done ≡ true) × ((load raw).failure_applied ≡ false))
                × (ks'
                    ≡ keys.set_px clock r.digest
                        (encode (record (load raw) { failure_applied = true }))
                        (keys.pttl clock r.digest ks)
                        ks)))
  unfolding claim_formal_failure
  claim-cases r clock ks done ks' e = elim (Option-cases (keys.get clock r.digest ks)) [
    | inl gone ↦ absurd (ground (arith, gone, e))
    | inr (raw, there) ↦ (
      raw,
      there,
      elim (Bool-cases (load raw).failure_applied) [
        | inl used ↦ inl (ground (arith, there, used, e), ground (arith, there, used, e))
        | inr fresh ↦
            inr ((ground (arith, there, fresh, e), fresh), ground (arith, there, fresh, e))
      ],
    )
  ]

  claim-IsUsed :
      (d : String) (from clock until : ℕ) (r : SelectionReceipt fl) (ks : keys.Keys) (done : Bool)
      (ks' : keys.Keys)
      → from ≤ clock
      → claim_formal_failure fl sv r clock ks ≡ ok (done, ks')
      → IsUsed d from until ks
      → IsUsed d clock until ks'
  claim-IsUsed d from clock until r ks done ks' later e used at low high =
      let (raw, there, cases) = claim-cases r clock ks done ks' e in
      elim cases [
        | inl (again, same) ↦ rw same (used at (omega (arith, later, low)) high)
        | inr ((first, fresh), set) ↦ elim (Bool-cases (str_eq r.digest d)) [
          | inr other ↦
              rw set (other-IsUsed d r.digest from clock until _ _ ks other later used at low high)
          | inl same ↦
              let named : r.digest ≡ d = ground (arith, same, eq_iff r.digest d) in
              let found : keys.get clock d ks ≡ some raw =
                ap (λ k. keys.get clock k ks) (sym named) ∙ there in
              let now_used = used clock later (omega (arith, low, high)) in
              let applied : (load raw).failure_applied ≡ true = rw found at now_used in
              absurd (ground (arith, fresh, applied))
        ]
      ]

  Calls-IsUsed :
      (d : String) (c until : ℕ) (ks : keys.Keys) (c' : ℕ) (ks' : keys.Keys)
      → Calls c ks c' ks'
      → IsUsed d c until ks
      → IsUsed d c' until ks'
  Calls-IsUsed d c until ks _ _ here used = used
  Calls-IsUsed d c until ks _ _ (issues {c'} {ks'} clock now b tokens calls later) used =
      issue_with-IsUsed d c' clock now until b tokens ks' later
        (Calls-IsUsed d c until ks c' ks' calls used)
  Calls-IsUsed d c until ks _ _ (claims {c'} {ks'} {ks''} clock r done calls later e) used =
      claim-IsUsed d c' clock until r ks' done ks'' later e
        (Calls-IsUsed d c until ks c' ks' calls used)

  set-IsUsed :
      (r : SelectionReceipt fl) (clock : ℕ) (ks : keys.Keys) (raw : Raw) (ks' : keys.Keys)
      → ks'
        ≡ keys.set_px clock r.digest
            (encode (record (load raw) { failure_applied = true }))
            (keys.pttl clock r.digest ks)
            ks
      → IsUsed r.digest clock (clock + keys.pttl clock r.digest ks) ks'
  set-IsUsed r clock ks raw ks' set at low high =
      let used : SelectionReceipt fl = record (load raw) { failure_applied = true } in
      let ttl = keys.pttl clock r.digest ks in
      let here_ : ltb at (clock + ttl) ≡ true = ground (arith, high) in
      let got : keys.get at r.digest ks' ≡ some (encode used) =
        ap (keys.get at r.digest) set
        ∙ keys.get-set_px at clock r.digest r.digest (encode used) ttl ks low
        ∙ rw (eq_refl r.digest, here_) refl in
      rw got (sv.failure_applied-encode used)

  -- When a claim of a formal failure succeeds, then after whatever receipts are issued and whatever
  -- failures are claimed later by the server's clock, a second claim for the same digest, if it
  -- returns at all before the first one's time to live is over, returns false and changes nothing.
  pub failure_is_claimed_once :
      (r r' : SelectionReceipt fl) (clock clock' at : ℕ) (ks ks₁ ks₂ ks₃ : keys.Keys) (done : Bool)
      → claim_formal_failure fl sv r clock ks ≡ ok (true, ks₁)
      → Calls clock ks₁ clock' ks₂
      → r'.digest ≡ r.digest
      → clock' ≤ at
      → at < clock + keys.pttl clock r.digest ks
      → claim_formal_failure fl sv r' at ks₂ ≡ ok (done, ks₃)
      → (done ≡ false) × (ks₃ ≡ ks₂)
  failure_is_claimed_once r r' clock clock' at ks ks₁ ks₂ ks₃ done first calls same later high e =
      let (raw, there, cases) = claim-cases r clock ks true ks₁ first in
      let until = clock + keys.pttl clock r.digest ks in
      let used : IsUsed r.digest clock until ks₁ = elim cases [
        | inl (again, unchanged) ↦ absurd (ground (arith, again))
        | inr (fresh, set) ↦ set-IsUsed r clock ks raw ks₁ set
      ] in
      let used' = Calls-IsUsed r.digest clock until ks₁ clock' ks₂ calls used at later high in
      let (raw', there', cases') = claim-cases r' at ks₂ done ks₃ e in
      let found : keys.get at r.digest ks₂ ≡ some raw' =
        ap (λ k. keys.get at k ks₂) (sym same) ∙ there' in
      let applied : (load raw').failure_applied ≡ true = rw found at used' in
      elim cases' [
        | inl unchanged ↦ unchanged
        | inr ((first', fresh'), set) ↦ absurd (ground (arith, applied, fresh'))
      ]
