-- ===== src/Http/Retry/Loop.antt =====
-- The loop of tries (src/http/retry.rs).
use dashplay_rs.Prelude.{
  ℕ, zero, suc, ◌+◌, max, ◌≤◌, ◌<◌, ◌≡◌, refl, sym, ◌∙◌, Bool, true, false, not, ◌&&◌, Option, none,
  some, arith, ltb, ltb→lt, ◌==◌, Result, ok, err, Bool-cases, inl, inr, ◌⊎◌, subst, lt_or_le,
}
use dashplay_rs.Http.Retry.{
  HttpRetryPolicy, Cancels, Run, turn, after_answer, retry_from, with_retry,
}

abbrev pub most : HttpRetryPolicy → ℕ
most p = max p.max_attempts 1

module _ {E T : Type 0} (is_transient : E → Bool) (cancelled : E) (cancels : Cancels)
    (answer : ℕ → Result E T) (p : HttpRetryPolicy) where
  -- The try failed, and its error is transient.
  pub record IsRetried (i : ℕ) : Type 0 where
    pub error : E
    pub is : answer i ≡ err error
    pub transient : is_transient error ≡ true

  -- The try's answer is returned: a value, a permanent error, or the answer of the last try.
  abbrev pub IsFinal : ℕ → Type 0
  IsFinal n =
      ((v : T) × (answer n ≡ ok v))
      ⊎ ((e : E) × (answer n ≡ err e) × (is_transient e ≡ false))
      ⊎ (n + 1 ≡ most p)

  -- A cancellation is seen at the try.
  abbrev pub IsSeen : ℕ → Type 0
  IsSeen n =
      (cancels.before n ≡ true)
      ⊎ (cancels.during n ≡ true)
      ⊎ (cancels.after n ≡ true)
      ⊎ (cancels.asleep n ≡ true)

  -- How a run has ended: with the answer of a try, or by a cancellation.
  pub data IsEnded (run : Run E T) : Type 0 where
    answered :
        (n : ℕ)
        → n < most p
        → ((i : ℕ) → i < n → IsRetried i)
        → run.tries ≡ n + 1
        → run.result ≡ answer n
        → IsFinal n
        → IsEnded run
    stopped :
        (n : ℕ)
        → n < most p
        → ((i : ℕ) → i < n → IsRetried i)
        → run.tries ≤ n + 1
        → run.result ≡ err cancelled
        → IsSeen n
        → IsEnded run

  data Turn (idx : ℕ) (o : Option (Run E T)) : Type 0 where
    returns : (run : Run E T) → o ≡ some run → IsEnded run → Turn idx o
    goes_on : o ≡ none → IsRetried idx → idx + 1 < most p → Turn idx o

  module _ (idx : ℕ) (within : idx < most p) (before : (i : ℕ) → i < idx → IsRetried i) where
    after_answer-Turn :
        (r : Result E T)
        → answer idx ≡ r
        → Turn idx (after_answer is_transient cancelled cancels answer p idx r)
    unfolding after_answer
    after_answer-Turn (ok v) h =
        returns _ refl (answered idx within before refl (sym h) (inl (v, h)))
    after_answer-Turn (err e) h = elim (Bool-cases (cancels.after idx)) [
      | inl seen ↦
          returns (record { result = err cancelled; tries = idx + 1 }) (rw seen)
            (stopped idx within before (omega arith) refl (inr (inr (inl seen))))
      | inr unseen ↦ elim (Bool-cases (is_transient e)) [
        | inr permanent ↦
            returns (record { result = err e; tries = idx + 1 }) (rw (unseen, permanent))
              (answered idx within before refl (sym h) (inr (inl (e, h, permanent))))
        | inl transient ↦ elim (Bool-cases (ltb (idx + 1) (most p))) [
          | inr last ↦
              returns (record { result = err e; tries = idx + 1 }) (rw (unseen, transient, last))
                (answered idx within before refl (sym h) (inr (inr (ground (arith, last)))))
          | inl more ↦ elim (Bool-cases (not (p.interval == 0) && cancels.asleep idx)) [
            | inl woken ↦
                returns (record { result = err cancelled; tries = idx + 1 })
                  (rw (unseen, transient, more, woken))
                  (stopped idx within before (omega arith) refl
                    (inr (inr (inr (ground (arith, woken))))))
            | inr slept ↦
                goes_on (rw (unseen, transient, more, slept))
                  (record { error = e; is = h; transient = transient })
                  (ltb→lt (idx + 1) (most p) more)
          ]
        ]
      ]
    ]

    turn-Turn : Turn idx (turn is_transient cancelled cancels answer p idx)
    unfolding turn
    turn-Turn = elim (Bool-cases (cancels.before idx)) [
      | inl seen ↦
          returns (record { result = err cancelled; tries = idx }) (rw seen)
            (stopped idx within before (omega arith) refl (inl seen))
      | inr unseen ↦ elim (Bool-cases (cancels.during idx)) [
        | inl seen ↦
            returns (record { result = err cancelled; tries = idx + 1 }) (rw (unseen, seen))
              (stopped idx within before (omega arith) refl (inr (inl seen)))
        | inr quiet ↦ subst (Turn idx) (rw (unseen, quiet)) (after_answer-Turn (answer idx) refl)
      ]
    ]

  retry-returns :
      (fuel idx : ℕ) (run : Run E T)
      → turn is_transient cancelled cancels answer p idx ≡ some run
      → retry_from is_transient cancelled cancels answer (suc fuel) p idx ≡ some run
  unfolding retry_from
  retry-returns fuel idx run h = rw (h, retry_from)

  retry-goes_on :
      (fuel idx : ℕ)
      → turn is_transient cancelled cancels answer p idx ≡ none
      → retry_from is_transient cancelled cancels answer (suc fuel) p idx
        ≡ retry_from is_transient cancelled cancels answer fuel p (idx + 1)
  unfolding retry_from
  retry-goes_on fuel idx h = rw (h, retry_from)

  one_more :
      (idx : ℕ)
      → ((i : ℕ) → i < idx → IsRetried i)
      → IsRetried idx
      → (i : ℕ) → i < idx + 1
      → IsRetried i
  one_more idx before this i h = elim (lt_or_le i idx) [
    | inl less ↦ before i less
    | inr least ↦ let same : idx ≡ i = omega arith in subst IsRetried same this
  ]

  retry_from-IsEnded :
      (fuel idx : ℕ)
      → idx < most p
      → most p ≤ idx + fuel
      → ((i : ℕ) → i < idx → IsRetried i)
      → (run : Run E T) × (retry_from is_transient cancelled cancels answer fuel p idx ≡ some run)
        × IsEnded run
  retry_from-IsEnded zero idx within enough before = absurd (omega arith)
  retry_from-IsEnded (suc fuel) idx within enough before = elim (turn-Turn idx within before) [
    | returns run h e ↦ (run, retry-returns fuel idx run h, e)
    | goes_on h this more ↦
        let (run, is, e) =
          retry_from-IsEnded fuel (idx + 1) more (omega arith) (one_more idx before this) in
        (run, retry-goes_on fuel idx h ∙ is, e)
  ]

  -- With as much fuel as the policy has tries the loop returns: with the answer of a try before which
  -- every one failed with a transient error, and which is a value, a permanent error or the last
  -- that the policy allows; or as cancelled, when a cancellation has been seen at a try that the
  -- policy allows and every one before failed with a transient error. It never begins more tries.
  pub with_retry-IsEnded :
      (fuel : ℕ)
      → most p ≤ fuel
      → (run : Run E T) × (with_retry is_transient cancelled cancels answer fuel p ≡ some run)
        × IsEnded run
  unfolding with_retry
  with_retry-IsEnded fuel enough =
      retry_from-IsEnded fuel 0 (omega arith) (omega arith) (λ i h. absurd (omega arith))
