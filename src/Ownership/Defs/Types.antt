-- ===== src/Ownership/Defs/Types.antt =====
-- The values that the scripts of a case store and compare, and the commands on its keys.
use ip_proxy_pool.Base.{ℕ, Bool, true, false, ◌&&◌, Option, none, some, String, str_eq, leb, ltb}
use Prim.Native.String.{◌++◌}
use ip_proxy_pool.Redis.{HashCommands, SetCommands}

pub data Round : Type 0 where
  first second : Round

pub data CheckResult : Type 0 where
  found absent error : CheckResult

pub data Status : Type 0 where
  pending internal external unconfirmed : Status

-- What the keys of the two rounds hold.
pub record Both (A : Type 0) : Type 0 where
  pub in_first : A
  pub in_second : A

abbrev pub of_round : {A : Type 0} → Round → Both A → A
of_round first b = b.in_first
of_round second b = b.in_second

abbrev pub change : {A : Type 0} → Round → (A → A) → Both A → Both A
change first f b = record b { in_first = f b.in_first }
change second f b = record b { in_second = f b.in_second }

pub record JobLease : Type 0 where
  pub token : String
  pub expires_at : ℕ

pub record Outcome : Type 0 where
  pub result_id : String
  pub result : CheckResult

abbrev round_text : Round → String
round_text first = "1"
round_text second = "2"

abbrev result_text : CheckResult → String
result_text found = "found"
result_text absent = "absent"
result_text error = "error"

-- The text that is stored under a result's identifier.
unfoldable pub signature : (case_id member : String) → Round → CheckResult → String
signature case_id member round result =
    case_id ++ (":" ++ (member ++ (":" ++ (round_text round ++ (":" ++ result_text result)))))

-- The commands on the keys of a case.
pub record CaseServer : Type 1 where
  pub outcomes : HashCommands Outcome
  pub leases : HashCommands JobLease
  pub markers : HashCommands String
  pub jobs : SetCommands ℕ leb

-- The field `status` of the case's hash; `none` where there is no hash.
abbrev pub is_pending : Option Status → Bool
is_pending none = false
is_pending (some s) = elim s [ pending ↦ true | _ ↦ false ]

-- `status and status ~= 'internal'`.
abbrev pub may_confirm : Option Status → Bool
may_confirm none = false
may_confirm (some s) = elim s [ internal ↦ false | _ ↦ true ]

abbrev pub is_absent : Option Outcome → Bool
is_absent none = false
is_absent (some o) = elim o.result [ found ↦ false | absent ↦ true | error ↦ false ]

-- A lease that can be taken by another worker: none, or one that has run out.
abbrev pub is_over : (now : ℕ) → Option JobLease → Bool
is_over now none = true
is_over now (some l) = leb l.expires_at now

-- `HGET lease_key 'token' == token` while the lease runs.
abbrev pub is_current : (now : ℕ) → (token : String) → Option JobLease → Bool
is_current now token none = false
is_current now token (some l) = str_eq l.token token && ltb now l.expires_at
