-- ===== src/Tests/Quota.antt =====
-- The quota at concrete inputs, on a window in memory.
use ip_proxy_pool.Base.{
  ℕ, ◌+◌, ◌≤◌, ◌<◌, ◌≡◌, refl, true, false, Option, none, some, List, [], ◌∷◌, String, eq_iff,
  if◌then◌else◌, leb, min, length, elem, All, is_some, IsDistinct, arith,
}
use ip_proxy_pool.Redis.{WindowCommands}
use ip_proxy_pool.Quota.Defs.{
  QuotaDecision, Quota, acquire, exists, restarted, Run, boots, grants, repeats,
}
use ip_proxy_pool.Quota.Window.{granted_in, at_most_five_a_minute}
use ip_proxy_pool.Tests.Memory.{get, put, drop_key, get-drop_key, get-put, memory}

abbrev Entries : Type 0
Entries = List (String × ℕ)

abbrev drop_older : (age now : ℕ) → Entries → Entries
drop_older age now [] = []
drop_older age now ((k, s) ∷ z) =
    let rest = drop_older age now z in if leb (s + age) now then rest else (k, s) ∷ rest

drop_older_kept :
    (k : String) (s age now : ℕ) (z : Entries)
    → get k z ≡ some s
    → now < s + age
    → get k (drop_older age now z) ≡ some s
drop_older_kept k s age now [] e young = e
drop_older_kept k s age now ((j, v) ∷ z) e young =
    ground (arith, e, young, drop_older_kept k s age now z)

abbrev least : Entries → Option ℕ
least [] = none
least ((k, s) ∷ z) = elim (least z) [ none ↦ some s | some t ↦ some (min s t) ]

least-none : (z : Entries) → least z ≡ none → length z ≡ 0
least-none [] e = refl
least-none ((k, s) ∷ z) e = absurd (ground (arith, e))

length-drop_key-le : (k : String) (z : Entries) → length (drop_key k z) ≤ length z
length-drop_key-le k [] = omega arith
length-drop_key-le k ((i, v) ∷ z) = ground (arith, length-drop_key-le k z)

length-drop_key-lt :
    (k : String) (z : Entries) → is_some (get k z) ≡ true → length (drop_key k z) < length z
length-drop_key-lt k [] e = absurd (ground (arith, e))
length-drop_key-lt k ((i, v) ∷ z) e =
    ground (arith, e, length-drop_key-lt k z, length-drop_key-le k z, eq_iff k i, eq_iff i k)

still_there :
    (k : String) (z : Entries) (ks : List String)
    → elem k ks ≡ false
    → All (λ j. is_some (get j z) ≡ true) ks
    → All (λ j. is_some (get j (drop_key k z)) ≡ true) ks
still_there k z [] e h = tt
still_there k z (j ∷ ks) e (here_, rest) = (
  ground (arith, e, here_, get-drop_key j k z, eq_iff k j, eq_iff j k),
  still_there k z ks (ground (arith, e)) rest,
)

members_fit :
    (ks : List String) (z : Entries)
    → IsDistinct ks
    → All (λ k. is_some (get k z) ≡ true) ks
    → length ks ≤ length z
members_fit [] z d h = omega arith
members_fit (k ∷ ks) z (new, d) (here_, rest) = omega (
  arith,
  members_fit ks (drop_key k z) d (still_there k z ks new rest),
  length-drop_key-lt k z here_,
)

abbrev window : WindowCommands
window = record {
  Window = Entries;
  empty = [];
  zscore = get;
  zadd = put;
  zcard = length;
  zrem_older = drop_older;
  lowest = least;
  zscore-zadd = get-put;
  zrem_older_kept = drop_older_kept;
  zcard_members = members_fit;
  lowest-none = least-none;
}

-- One attempt, and the same again a second later, in the second minute after the start.
abbrev fresh : Quota window memory
fresh = restarted window memory [] 0

abbrev used : Quota window memory
used = record {
  window = ("a", 70000) ∷ [];
  window_until = 190000;
  attempts = ("a", 670000) ∷ [];
  booted_at = 0;
}

abbrev granting : ℕ → QuotaDecision
granting left = record { granted = true; retry_after_ms = 0; remaining = left; unavailable = false }

new_attempt : exists window memory 70000 "a" fresh ≡ false
unfolding exists
new_attempt = refl

old_attempt : exists window memory 71000 "a" used ≡ true
unfolding exists
old_attempt = refl

first_grant : acquire window memory 65 70000 "a" fresh ≡ some (granting 4, used)
unfolding acquire
first_grant = refl

second_grant : acquire window memory 65 71000 "a" used ≡ some (granting 4, used)
unfolding acquire
second_grant = refl

run : Run window memory 65 (("a", 70000) ∷ []) used 71000
run =
    repeats 71000 "a" (granting 4)
      (grants 70000 "a" (granting 4) (boots [] 0) (omega arith) new_attempt first_grant refl)
      (omega arith) old_attempt second_grant

at_most_five_a_minute_example : granted_in 20000 (("a", 70000) ∷ []) ≤ 5
at_most_five_a_minute_example =
    at_most_five_a_minute window memory 65 (omega arith) (("a", 70000) ∷ []) used 71000 20000 run
