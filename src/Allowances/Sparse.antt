-- ===== src/Allowances/Sparse.antt =====
-- What sparse updates leave in the cache, crates/bokkie-gateway/src/usage.rs.
use bokkie.Prelude.{◌≡◌, ◌&&◌, Option, none, List, [], ◌∷◌, ◌==◌, if◌then◌else◌}
use bokkie.Protocol.Routines.{Text}
use bokkie.Protocol.Api.{UserId, RateLimitBucket}
use bokkie.Protocol.Chars.{codes, same}
use bokkie.Allowances.Reported.{RateLimitSnapshot}
use bokkie.Allowances.Buckets.{SubscriptionCache, bucket, replaced, revised, update}

-- A field of the bucket with an identifier.
unfoldable pub held {ℓ} :
    {A : Type ℓ} → (RateLimitBucket → Option A) → Text → List RateLimitBucket → Option A
unfolding same
held field id [] = none
held field id (b ∷ bs) = let rest = held field id bs in if same b.id id then field b else rest

-- The last value that updates of the user have for a bucket, or the one known before.
unfoldable pub newest {ℓ} :
    {A : Type ℓ}
    → (RateLimitBucket → Option A)
    → UserId
    → Text
    → List (UserId × RateLimitSnapshot)
    → (known : Option A) → Option A
unfolding bucket same
newest field user id [] known = known
newest field user id ((u, s) ∷ l) known =
    let b = bucket (codes "codex") s in
    newest field user id l (if (u == user) && same b.id id then replaced known (field b) else known)

unfoldable pub update_all :
    List (UserId × RateLimitSnapshot) → SubscriptionCache → SubscriptionCache
update_all [] m = m
update_all ((u, s) ∷ l) m = update_all l (update u s m).0

-- The fields that an update may leave out.
abbrev Sparse {ℓ} : {A : Type ℓ} → (RateLimitBucket → Option A) → Type ℓ
Sparse field =
    (s : RateLimitSnapshot) (existing updated : RateLimitBucket)
    → field (revised s existing updated) ≡ replaced (field existing) (field updated)
