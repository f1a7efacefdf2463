-- ===== src/Connection/Retries.antt =====
-- The attempts to connect end.
use jhaz_imprints.Common.{
  ℕ, zero, suc, ◌+◌, ◌≤◌, String, ◌≡◌, ◌⊎◌, true, Option, some, List, [], ◌∷◌, arith, is_some,
  Result, ok, err, error,
}
use jhaz_imprints.Connection.{
  Link, Attempts, connect_mongodb, retry_delay, disconnect_mongodb, on_timer,
}

-- The waits of the attempts from this one on.
abbrev waits_from : ℕ → ℕ → List ℕ
waits_from zero attempt = []
waits_from (suc n) attempt = retry_delay attempt ∷ waits_from n (suc attempt)

abbrev pub total : List ℕ → ℕ
total [] = 0
total (n ∷ ns) = n + total ns

module _ (outcome : ℕ → Option String) where
  -- It returned: connected, or with the error of an attempt, when every attempt from this one on
  -- to the last failed.
  abbrev Ends : ℕ → Option (Result {0} Unit) → Type 0
  Ends attempt r =
      (r ≡ some (ok tt))
      ⊎ ((e : String) × (r ≡ some (err (error e)))
          × ((k : ℕ) → attempt ≤ k → k ≤ 5 → is_some (outcome k) ≡ true))

  abbrev attempts : ℕ → ℕ → Link → Attempts
  attempts left attempt s = connect_mongodb (suc left) outcome attempt s

  abbrev EndsSoon : ℕ → Link → Attempts → Type 0
  EndsSoon attempt s r =
      Ends attempt r.0 × (total r.1.waits + retry_delay attempt ≤ total s.waits + 32000)

-- After a graceful disconnect the countdown that a lost connection starts is running, so that a
-- process that is still there 30 seconds later exits with an error.
pub disconnect_mongodb_exits :
    (s : Link) (now : ℕ)
    → s.connection ≡ true
    → s.listening ≡ true
    → (on_timer (now + 30000) (disconnect_mongodb now s)).exited ≡ true
unfolding disconnect_mongodb
disconnect_mongodb_exits s now linked listening = ground arith
