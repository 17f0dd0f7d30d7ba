-- ===== src/Relay.antt =====
-- apps/alert_relay/main.py: an alert is forwarded to the target of its channel and to its shadow,
-- with retries. The environment and HTTP are parameters; what `request.json()` gives is the
-- payload. Integers of the environment are read without underscores between their digits.
pub mod Laws
mod Checks
use interview_analytics_agen.Common.{
  ℕ, zero, suc, ◌+◌, ◌*◌, String, Bool, true, false, ◌&&◌, ◌||◌, not, Option, none, some, List, [],
  ◌∷◌, ◌++◌, ◌==◌, ltb, leb, nat_eq, max, length, is_empty, strip, normalize, split_commas,
  all_digits, number, format, starts_with, drop_prefix, contains, if◌then◌else◌,
}
use mathlib.Core.Option
use interview_analytics_agen.Common.Exec.{Result, ok, raised, Exec}
use interview_analytics_agen.Common.Int.{ℤ, pos, negsuc, pos_part, at_least}

pub data Channel : Type 0 where
  default_channel warning critical : Channel

-- `_channel_name`
unfoldable pub channel_name : String → Channel
unfolding normalize
channel_name raw =
    if normalize raw == "warning"
    then warning
    else if normalize raw == "critical"
    then critical
    else default_channel

-- `os.getenv`
abbrev pub Env : Type 0
Env = String → Option String

abbrev getenv : Env → String → String → String
getenv env name default = elim (env name) [ none ↦ default | some t ↦ t ]

digits_of : String → Option ℕ
unfolding all_digits number
digits_of t = if not (is_empty t) && all_digits t then some (number 0 t) else none

negated : Option ℕ → Option ℤ
negated none = none
negated (some zero) = some (pos 0)
negated (some (suc n)) = some (negsuc n)

-- `int(text)`: `none` where it raises ValueError.
parse_int : String → Option ℤ
unfolding strip digits_of negated
parse_int t =
    let s = strip t in
    if starts_with s "-"
    then negated (digits_of (drop_prefix 1 s))
    else if starts_with s "+"
    then Option.map pos (digits_of (drop_prefix 1 s))
    else Option.map pos (digits_of s)

abbrev or_else : Option ℤ → ℤ → ℤ
or_else none n = n
or_else (some m) n = m

-- `_read_bool`
unfoldable pub read_bool : Env → String → Bool → Bool
unfolding normalize contains
read_bool env name default =
    let raw = normalize (getenv env name "") in
    if is_empty raw then default else contains ("1" ∷ "true" ∷ "yes" ∷ "on" ∷ []) raw

unfoldable pub timeout_sec : Env → ℕ
unfolding parse_int
timeout_sec env =
    at_least 1 (or_else (parse_int (getenv env "ALERT_RELAY_TIMEOUT_SEC" "5")) (pos 5))

unfoldable pub retry_count : Env → ℕ
unfolding parse_int
retry_count env = at_least 0 (or_else (parse_int (getenv env "ALERT_RELAY_RETRIES" "2")) (pos 2))

unfoldable pub retry_backoff_ms : Env → ℕ
unfolding parse_int
retry_backoff_ms env =
    at_least 0 (or_else (parse_int (getenv env "ALERT_RELAY_RETRY_BACKOFF_MS" "300")) (pos 300))

-- The items of a comma separated text that are integers, the negative ones, which no status is, as 0.
integers : List String → List ℕ
unfolding parse_int
integers [] = []
integers (t ∷ ts) =
    let rest = integers ts in elim (parse_int t) [ none ↦ rest | some n ↦ pos_part n ∷ rest ]

unfoldable pub retry_statuses : Env → List ℕ
unfolding integers split_commas
retry_statuses env =
    integers
      (split_commas (getenv env "ALERT_RELAY_RETRY_STATUSES" "408,409,425,429,500,502,503,504"))

unfoldable pub fail_on_error : Env → Bool
unfolding read_bool
fail_on_error env = read_bool env "ALERT_RELAY_FAIL_ON_ERROR" true

abbrev upper_name : Channel → String
upper_name default_channel = "DEFAULT"
upper_name warning = "WARNING"
upper_name critical = "CRITICAL"

-- `_target_url` and `_shadow_url`
url_of : String → Env → Channel → String
unfolding format strip
url_of kind env c = strip (getenv env (format ("ALERT_RELAY_" ∷ upper_name c ∷ kind ∷ [])) "")

pub data Kind : Type 0 where
  target shadow : Kind

targets_of : String → String → List (Kind × String)
targets_of t sh =
    (if is_empty t then [] else (target, t) ∷ [])
    ++ (if not (is_empty sh) && not (sh == t) then (shadow, sh) ∷ [] else [])

unfoldable pub targets : Env → Channel → List (Kind × String)
unfolding targets_of url_of
targets env c = targets_of (url_of "_TARGET_URL" env c) (url_of "_SHADOW_URL" env c)

-- How one POST ended.
pub data Posted : Type 0 where
  response : ℕ → Posted
  timed_out no_connection : Posted
  failed : String → Posted

pub data Exc : Type 0 where
  timeout connection_error : Exc
  http_error : ℕ → Exc
  other_exception : String → Exc

pub record Io : Type 1 where
  pub World : Type 0
  pub Payload : Type 0
  pub post : String → Payload → ℕ → World → Posted × World
  pub sleep_ms : ℕ → World → World

abbrev pub is_in : ℕ → List ℕ → Bool
is_in n [] = false
is_in n (m ∷ ms) = nat_eq m n || is_in n ms

-- `resp.raise_for_status()`
abbrev pub raise_for_status : ℕ → Result Exc (Unit {0})
raise_for_status status =
    if leb 400 status && ltb status 600 then raised (http_error status) else ok tt

-- What an attempt means: `none` where it is worth another one.
unfoldable pub verdict : Env → Posted → Result Exc (Unit {0}) × Bool
verdict env timed_out = (raised timeout, true)
verdict env no_connection = (raised connection_error, true)
verdict env (failed t) = (raised (other_exception t), false)
verdict env (response status) =
    if leb 400 status
    then (raise_for_status status, is_in status (retry_statuses env))
    else (ok tt, false)

module _ (io : Io) (env : Env) where
  abbrev pub back_off : ℕ → io.World → io.World
  back_off attempt w =
      let ms = retry_backoff_ms env in if ltb 0 ms then io.sleep_ms (ms * attempt) w else w

  -- The loop of `_forward`, with the attempts left behind this one.
  pub forward_attempts : String → io.Payload → ℕ → ℕ → io.World → Result Exc (Unit {0}) × io.World
  unfolding verdict
  forward_attempts url payload zero attempt w =
      let (posted, w') = io.post url payload (timeout_sec env) w in ((verdict env posted).0, w')
  forward_attempts url payload (suc left) attempt w =
      let (posted, w') = io.post url payload (timeout_sec env) w in
      let again = forward_attempts url payload left (suc attempt) (back_off attempt w') in
      if (verdict env posted).1 then again else ((verdict env posted).0, w')

  -- `_forward`
  unfoldable pub forward : String → io.Payload → io.World → Result Exc (Unit {0}) × io.World
  unfolding forward_attempts
  forward url payload w = forward_attempts url payload (retry_count env) 1 w

  abbrev pub Counts : Type 0
  Counts = ℕ × List (Kind × String × Exc)

  abbrev pub count_result : Kind × String → Result Exc (Unit {0}) → Counts → Counts
  count_result t (ok u) counts = (counts.0 + 1, counts.1)
  count_result t (raised e) counts = (counts.0, (t.0, t.1, e) ∷ counts.1)

  -- The loop of `webhook`: how many were forwarded, and the errors of the others.
  pub forward_all : List (Kind × String) → io.Payload → io.World → Counts × io.World
  unfolding forward
  forward_all [] payload w = ((0, []), w)
  forward_all (t ∷ ts) payload w =
      let (r, w') = forward t.1 payload w in
      let (counts, w'') = forward_all ts payload w' in (count_result t r counts, w'')

  pub record Answer : Type 0 where
    pub channel : Channel
    pub forwarded : ℕ
    pub errors : ℕ

  -- The HTTPException with status 502.
  pub record BadGateway : Type 0 where
    pub channel : Channel
    pub forwarded : ℕ
    pub errors : List (Kind × String × Exc)

  abbrev pub conclude : Channel → Counts → Result BadGateway Answer
  conclude c counts =
      if ltb 0 (length counts.1) && fail_on_error env
      then raised (record { channel = c; forwarded = counts.0; errors = counts.1 })
      else ok (record { channel = c; forwarded = counts.0; errors = length counts.1 })

  -- `webhook`
  unfoldable pub webhook : String → io.Payload → io.World → Result BadGateway Answer × io.World
  unfolding forward_all channel_name
  webhook channel payload w =
      let c = channel_name channel in
      let (counts, w') = forward_all (targets env c) payload w in (conclude c counts, w')
