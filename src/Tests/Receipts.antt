-- ===== src/Tests/Receipts.antt =====
-- The receipts of formal selections at a concrete input.
use ip_proxy_pool.Base.{ℕ, ◌≡◌, refl, true, false, none, List, [], ◌∷◌, String, arith}
use ip_proxy_pool.Models.{seconds}
use ip_proxy_pool.Peer.Store.{SelectionReceipt}
use ip_proxy_pool.Peer.Receipts.{ReceiptServer, Binding, issue_with, claim_formal_failure}
use ip_proxy_pool.Peer.Receipts.Once.{here, issues, failure_is_claimed_once}
use ip_proxy_pool.Tests.Memory.{whole_ms}
use ip_proxy_pool.Tests.PeerMemory.{keys, proxy, receipt}

abbrev receipts : ReceiptServer whole_ms
receipts = record {
  Raw = SelectionReceipt whole_ms;
  dump = λ r. r;
  load = λ r. r;
  encode = λ r. r;
  digest_of = λ t. t;
  keys = keys;
  failure_applied-encode = λ r. refl;
  selection_source-encode = λ r. refl;
}

abbrev formal : SelectionReceipt whole_ms
formal = record receipt { selection_source = "formal"; peer_name = none }

abbrev applied : SelectionReceipt whole_ms
applied = record formal { failure_applied = true }

-- The receipt `h` at 1000 seconds, and after its failure was claimed at 1010.
abbrev stored : List (String × (SelectionReceipt whole_ms × ℕ))
stored = ("h", (formal, seconds 1600)) ∷ []

abbrev claimed : List (String × (SelectionReceipt whole_ms × ℕ))
claimed = ("h", (applied, seconds 1600)) ∷ []

abbrev binding : Binding whole_ms
binding = record {
  snapshot = proxy;
  principal_fingerprint = "me";
  selection_source = "formal";
  peer_name = none;
}

-- In between, a receipt is issued whose first token has the digest that is taken.
failure_is_claimed_once_example :
    (false ≡ false)
    × ((issue_with whole_ms receipts
          (seconds 1020)
          (seconds 1020)
          binding
          ("h" ∷ "i" ∷ [])
          claimed).1
        ≡ (issue_with whole_ms receipts
            (seconds 1020)
            (seconds 1020)
            binding
            ("h" ∷ "i" ∷ [])
            claimed).1)
unfolding claim_formal_failure issue_with
failure_is_claimed_once_example =
    failure_is_claimed_once whole_ms receipts formal formal (seconds 1010) (seconds 1020)
      (seconds 1030) stored claimed
      (issue_with whole_ms receipts (seconds 1020) (seconds 1020) binding ("h" ∷ "i" ∷ [])
        claimed).1
      (issue_with whole_ms receipts (seconds 1020) (seconds 1020) binding ("h" ∷ "i" ∷ [])
        claimed).1
      false refl (issues (seconds 1020) (seconds 1020) binding ("h" ∷ "i" ∷ []) here (omega arith))
      refl (omega arith) (omega arith) refl
