-- ===== src/Ingest/Idempotency/Laws.antt =====
-- How long a key is refused.
use interview_analytics_agen.Common.{
  ℕ, ◌<◌, ◌≡◌, refl, String, true, false, List, [], ◌∷◌, ◌==◌, All, eq_iff, if◌then◌else◌, arith,
}
use interview_analytics_agen.Common.Int.{ℤ}
use interview_analytics_agen.Ingest.Idempotency.{
  Keys, expires_at, put_key, drop_expired, expiry, local_check,
}

expires_at-put_key :
    (t : Keys) (k j : String) (e : ℕ)
    → expires_at (put_key t k e) j ≡ (if k == j then e else expires_at t j)
unfolding expires_at put_key
expires_at-put_key [] k j e = refl
expires_at-put_key ((i, old) ∷ t) k j e =
    ground (arith, expires_at-put_key t k j e, eq_iff i k, eq_iff i j, eq_iff k j)

expires_at-drop_expired :
    (now : ℕ) (t : Keys) (k : String)
    → now < expires_at t k
    → expires_at (drop_expired now t) k ≡ expires_at t k
unfolding expires_at drop_expired
expires_at-drop_expired now [] k h = refl
expires_at-drop_expired now ((i, e) ∷ t) k h = ground (arith, expires_at-drop_expired now t k)

-- A check keeps a key that has not expired.
live_key_kept :
    (now : ℕ) (key : String) (ttl_sec : ℤ) (t : Keys) (k : String) (e : ℕ)
    → expires_at t k ≡ e
    → now < e
    → expires_at (local_check now key ttl_sec t).1 k ≡ e
unfolding local_check
live_key_kept now key ttl_sec t k e h l =
    let t' = put_key t key (expiry now ttl_sec) in
    ground (
      arith,
      expires_at-put_key t key k (expiry now ttl_sec),
      expires_at-drop_expired now t' k,
      eq_iff key k,
    )

accepted_expiry :
    (now : ℕ) (key : String) (ttl_sec : ℤ) (t : Keys)
    → (local_check now key ttl_sec t).0 ≡ true
    → expires_at (local_check now key ttl_sec t).1 key ≡ expiry now ttl_sec
unfolding local_check
accepted_expiry now key ttl_sec t h =
    let t' = put_key t key (expiry now ttl_sec) in
    ground (
      arith,
      expires_at-put_key t key key (expiry now ttl_sec),
      expires_at-drop_expired now t' key,
      eq_iff key key,
    )

-- A check of some key, at an instant, with a time to live.
abbrev pub Check : Type 0
Check = ℕ × String × ℤ

abbrev pub run_checks : List Check → Keys → Keys
run_checks [] t = t
run_checks ((now, key, ttl_sec) ∷ checks) t = run_checks checks (local_check now key ttl_sec t).1

abbrev pub Before : ℕ → Check → Type 0
Before e c = c.0 < e

live_key_survives :
    (checks : List Check) (t : Keys) (k : String) (e : ℕ)
    → expires_at t k ≡ e
    → All (Before e) checks
    → expires_at (run_checks checks t) k ≡ e
live_key_survives [] t k e h before = h
live_key_survives ((now, key, ttl_sec) ∷ checks) t k e h before =
    live_key_survives checks (local_check now key ttl_sec t).1 k e
      (live_key_kept now key ttl_sec t k e h before.0) before.1

-- A key that was accepted is refused at every instant before its expiry, whatever keys were checked
-- in between and however often the expired ones were dropped.
pub accepted_once :
    (now later : ℕ) (key : String) (ttl_sec ttl_later : ℤ) (t : Keys) (checks : List Check)
    → (local_check now key ttl_sec t).0 ≡ true
    → All (Before (expiry now ttl_sec)) checks
    → later < expiry now ttl_sec
    → local_check later key ttl_later (run_checks checks (local_check now key ttl_sec t).1)
      ≡ (false, run_checks checks (local_check now key ttl_sec t).1)
accepted_once now later key ttl_sec ttl_later t checks h before l =
    let t' = run_checks checks (local_check now key ttl_sec t).1 in
    let e =
      live_key_survives checks (local_check now key ttl_sec t).1 key (expiry now ttl_sec)
        (accepted_expiry now key ttl_sec t h) before in
    unfold local_check in ground (arith, e)
