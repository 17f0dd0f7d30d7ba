-- ===== src/Ingest/Idempotency.antt =====
-- The keys of src/interview_analytics_agent/queue/idempotency.py that the process keeps itself, for
-- the inline mode. Instants are microseconds of the monotonic clock, which is positive.
pub mod Laws
use interview_analytics_agen.Common.{
  ℕ, ◌+◌, ◌*◌, String, Bool, true, false, List, [], ◌∷◌, ◌==◌, ltb, leb, length, format,
  if◌then◌else◌,
}
use interview_analytics_agen.Common.Int.{ℤ, at_least}

-- `_LOCAL_IDEM_KEYS`: each key with the instant of its expiry, in the order of insertion.
abbrev pub Keys : Type 0
Keys = List (String × ℕ)

-- `_LOCAL_IDEM_KEYS.get(key, 0.0)`
unfoldable pub expires_at : Keys → String → ℕ
expires_at [] k = 0
expires_at ((j, e) ∷ t) k = if j == k then e else expires_at t k

unfoldable pub put_key : Keys → String → ℕ → Keys
put_key [] k e = (k, e) ∷ []
put_key ((j, old) ∷ t) k e = if j == k then (j, e) ∷ t else (j, old) ∷ put_key t k e

-- The keys that have not expired.
unfoldable pub drop_expired : ℕ → Keys → Keys
drop_expired now [] = []
drop_expired now ((j, e) ∷ t) =
    let rest = drop_expired now t in if leb e now then rest else (j, e) ∷ rest

abbrev pub expiry : ℕ → ℤ → ℕ
expiry now ttl_sec = now + at_least 1 ttl_sec * 1000000

-- `check_and_set` in the inline mode.
unfoldable pub local_check : ℕ → String → ℤ → Keys → Bool × Keys
unfolding expires_at put_key drop_expired
local_check now key ttl_sec t =
    if ltb now (expires_at t key)
    then (false, t)
    else (let t' = put_key t key (expiry now ttl_sec) in
        (true, if ltb 20000 (length t') then drop_expired now t' else t'))

-- `f"idem:{scope}:{meeting_id}:{idem_key}"`
unfoldable pub key_of : String → String → String → String
unfolding format
key_of scope meeting_id idem_key = format ("idem:" ∷ scope ∷ ":" ∷ meeting_id ∷ ":" ∷ idem_key ∷ [])
