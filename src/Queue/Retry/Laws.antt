-- ===== src/Queue/Retry/Laws.antt =====
-- How often a task is tried, and where it goes.
use interview_analytics_agen.Common.{
  ℕ, suc, ◌+◌, ◌≤◌, ◌≡◌, refl, sym, ap, ◌∙◌, String, Bool, true, false, Option, none, some, List,
  [], ◌∷◌, ◌++◌, ltb, if◌then◌else◌, inl, inr, arith,
}
use interview_analytics_agen.Common.Exec.{Result, ok, raised, Result-cases}
use interview_analytics_agen.Queue.Streams.{
  absent, count, unreadable, Task, Payload, object, other_value, Exc, xadd, sleep, StreamClient,
  Session, enqueue, stream_dlq_name,
}
use interview_analytics_agen.Queue.Retry.{next_attempts, stamp, back_off, requeue_with_backoff}

abbrev pub last? {ℓ} : {A : Type ℓ} → List A → Option A
last? [] = none
last? (x ∷ []) = some x
last? (x ∷ y ∷ xs) = last? (y ∷ xs)

last?-snoc {ℓ} : {A : Type ℓ} (xs : List A) (y : A) → last? (xs ++ y ∷ []) ≡ some y
last?-snoc [] y = refl
last?-snoc (x ∷ []) y = refl
last?-snoc (x ∷ z ∷ xs) y = last?-snoc (z ∷ xs) y

-- The attempts that a payload has behind it; a payload that does not say so has none.
abbrev pub tried : Payload → Result Exc ℕ
tried (object t) = elim t.attempts [
  | absent ↦ ok 0
  | count n ↦ ok n
  | unreadable ↦ raised Exc.value_error
]
tried (other_value s) = raised Exc.attribute_error

pub next_attempts-tried : (p : Payload) (n : ℕ) → tried p ≡ ok n → next_attempts p ≡ ok (n + 1)
unfolding next_attempts
next_attempts-tried (object t) n h = ground arith
next_attempts-tried (other_value s) n h = cc

pub tried-stamp : (p : Payload) (n k : ℕ) → tried p ≡ ok n → tried (stamp p k) ≡ ok k
unfolding stamp
tried-stamp (object t) n k h = refl
tried-stamp (other_value s) n k h = cc

module _ (r : StreamClient) where
  -- The stream that a task goes to after a failure.
  abbrev pub destination : String → ℕ → ℕ → String
  destination queue max_attempts attempts =
      if ltb max_attempts attempts then stream_dlq_name queue else queue

  -- A failed task is written once, with one attempt more: to its queue while the attempts do not
  -- exceed the maximum, else to the dead letter queue; the answer says which.
  pub requeue_writes :
      (queue : String) (p : Payload) (max_attempts backoff n : ℕ) (s : Session r) (answer : Bool)
      → tried p ≡ ok n
      → (requeue_with_backoff r queue p max_attempts backoff s).0 ≡ ok answer
      → (answer ≡ (if ltb max_attempts (n + 1) then false else true))
        × (last? (requeue_with_backoff r queue p max_attempts backoff s).1.log
            ≡ some (xadd (destination queue max_attempts (n + 1)) (stamp p (n + 1))))
  unfolding requeue_with_backoff back_off enqueue
  requeue_writes queue p max_attempts backoff n s answer t h = ground (
    arith,
    next_attempts-tried p n t,
    last?-snoc s.log (xadd (stream_dlq_name queue) (stamp p (n + 1))),
    last?-snoc s.log (xadd queue (stamp p (n + 1))),
    last?-snoc (s.log ++ sleep backoff ∷ []) (xadd queue (stamp p (n + 1))),
  )

  -- What is requeued said how often it was tried.
  pub requeue_tried :
      (queue : String) (p : Payload) (max_attempts backoff : ℕ) (s : Session r) (answer : Bool)
      → (requeue_with_backoff r queue p max_attempts backoff s).0 ≡ ok answer
      → (n : ℕ) × (tried p ≡ ok n)
  unfolding requeue_with_backoff next_attempts
  requeue_tried queue (object t) m backoff s answer h = elim (Result-cases (tried (object t))) [
    | inl found ↦ found
    | inr (x, e) ↦ absurd (ground arith)
  ]
  requeue_tried queue (other_value t) m backoff s answer h = absurd (ground arith)

  -- Where requeueing raises nothing the server took the task, in the world of the call.
  pub requeue_accepted :
      (queue : String) (p : Payload) (max_attempts backoff n : ℕ) (s : Session r) (answer : Bool)
      → tried p ≡ ok n
      → (requeue_with_backoff r queue p max_attempts backoff s).0 ≡ ok answer
      → (entry : String) × ((r.add
            (destination queue max_attempts (n + 1))
            (stamp p (n + 1))
            s.world).0
          ≡ ok entry)
        × ((requeue_with_backoff r queue p max_attempts backoff s).1.world
            ≡ (r.add (destination queue max_attempts (n + 1)) (stamp p (n + 1)) s.world).1)
  unfolding requeue_with_backoff back_off enqueue
  requeue_accepted queue p max_attempts backoff n s answer t h =
      let next = next_attempts-tried p n t in
      elim (Result-cases
        (r.add (destination queue max_attempts (n + 1)) (stamp p (n + 1)) s.world).0) [
          | inl (entry, e) ↦ (entry, e, ground (arith, next, e))
          | inr (x, e) ↦ absurd (ground (arith, next, e))
        ]

  -- A payload that a fresh task has become after so many failures that put it back in its queue.
  pub data Requeued (queue : String) (max_attempts : ℕ) : ℕ → Payload → Type 0 where
    fresh : (t : Task) → t.attempts ≡ absent → Requeued queue max_attempts 0 (object t)
    again :
        {n : ℕ} {p p' : Payload} (backoff : ℕ) (s : Session r)
        → Requeued queue max_attempts n p
        → (requeue_with_backoff r queue p max_attempts backoff s).0 ≡ ok true
        → last? (requeue_with_backoff r queue p max_attempts backoff s).1.log ≡ some (xadd queue p')
        → Requeued queue max_attempts (suc n) p'

  xadd-injective : {q q' : String} {p p' : Payload} → some (xadd q p) ≡ some (xadd q' p') → p ≡ p'
  xadd-injective h = cc

  in_bounds : (m n : ℕ) → true ≡ (if ltb m (n + 1) then false else true) → suc n ≤ m
  in_bounds m n h = ground arith

  keep : (queue : String) (m n : ℕ) → suc n ≤ m → destination queue m (n + 1) ≡ queue
  keep queue m n h = ground arith

  pub tried-Requeued :
      {queue : String} {max_attempts n : ℕ} {p : Payload}
      → Requeued queue max_attempts n p
      → (n ≤ max_attempts) × (tried p ≡ ok n)
  tried-Requeued (fresh t a) = (omega arith, ground arith)
  tried-Requeued {queue} {max_attempts = m}
        (again {n = n} {p = p} {p' = p'} backoff s before kept sent) =
      let ih : (n ≤ m) × (tried p ≡ ok n) = tried-Requeued before in
      let w = requeue_writes queue p m backoff n s true ih.1 kept in
      let p'-stamp : stamp p (n + 1) ≡ p' = xadd-injective (sym w.1 ∙ sent) in
      (in_bounds m n w.0, rw (← p'-stamp) (tried-stamp p n (n + 1) ih.1 ∙ ap ok (omega arith)))

  -- A task that always fails is put back exactly `max_attempts` times: while fewer failures lie
  -- behind it the next one puts it back, and after `max_attempts` of them the next one sends it to
  -- the dead letter queue.
  pub attempts_bounded :
      {queue : String} {max_attempts n : ℕ} {p : Payload} (backoff : ℕ) (s : Session r)
      (answer : Bool)
      → Requeued queue max_attempts n p
      → (requeue_with_backoff r queue p max_attempts backoff s).0 ≡ ok answer
      → (n ≤ max_attempts)
        × (answer ≡ ltb n max_attempts)
        × (last? (requeue_with_backoff r queue p max_attempts backoff s).1.log
            ≡ some (
                xadd
                  (if ltb n max_attempts then queue else stream_dlq_name queue)
                  (stamp p (n + 1))))
  attempts_bounded {queue} {max_attempts = m} {n} {p} backoff s answer failures answered =
      let t = tried-Requeued failures in
      ground (arith, requeue_writes queue p m backoff n s answer t.1 answered)
