-- ===== src/Config/Agent/Dial.antt =====
-- app/forwarder-agent/main.go, the loop that dials the controller. `dial i` is what the `i`-th attempt
-- comes to: a connection, by its number, or an error.
use oes_birger.Prelude.{
  ℕ, zero, suc, ◌+◌, ◌<◌, ◌≡◌, refl, ap, ◌∙◌, ℤ, pos, negsuc, Option, none, some, arith, Result, ok,
  err, Option-cases, inl, inr,
}
use oes_birger.Config.Agent.{Error, not_connected}

-- The connection, if an attempt has made one, and how often the loop has slept.
pub record Dialled : Type 0 where
  pub conn : Option ℕ
  pub sleeps : ℕ

-- There is no sleep behind the last attempt.
abbrev pub sleep_before : ℕ → ℕ
sleep_before zero = 0
sleep_before (suc n) = 1

-- The attempts that are left, the next of them the `i`-th.
unfoldable pub dial_from : (ℕ → Option ℕ) → ℕ → ℕ → Dialled
dial_from dial i zero = record { conn = none; sleeps = 0 }
dial_from dial i (suc n) =
    let rest = dial_from dial (i + 1) n in
    elim (dial i) [
      | some conn ↦ record { conn = some conn; sleeps = 0 }
      | none ↦ record { conn = rest.conn; sleeps = sleep_before n + rest.sleeps }
    ]

abbrev pub connected : Option ℕ → Result Error (Option ℕ)
connected none = err not_connected
connected (some conn) = ok (some conn)

-- Where the number of retries is not positive the loop is not entered, and the program goes on with a
-- connection that is nil, since the error is still that of the call before.
unfoldable pub connect : (ℕ → Option ℕ) → ℤ → Result Error (Option ℕ)
unfolding dial_from
connect dial (pos zero) = ok none
connect dial (pos (suc n)) = connected (dial_from dial 1 (suc n)).conn
connect dial (negsuc n) = ok none

sleep_before_pos : (n k : ℕ) → k < n → sleep_before n ≡ 1
sleep_before_pos zero k lt = absurd (omega arith)
sleep_before_pos (suc n) k lt = refl

earlier_failed :
    (dial : ℕ → Option ℕ) (i k : ℕ)
    → dial i ≡ none
    → ((j : ℕ) → j < k → dial (i + 1 + j) ≡ none)
    → (j : ℕ) → j < suc k
    → dial (i + j) ≡ none
earlier_failed dial i k failed before zero lt = ap dial (omega arith) ∙ failed
earlier_failed dial i k failed before (suc j) lt = ap dial (omega arith) ∙ before j (omega arith)

-- What the loop has done: the first attempt that succeeds has the connection, and there was one sleep
-- for each attempt before it.
pub dial_from-some :
    (dial : ℕ → Option ℕ) (i n conn : ℕ)
    → (dial_from dial i n).conn ≡ some conn
    → (k : ℕ) × (k < n)
      × (dial (i + k) ≡ some conn)
      × ((dial_from dial i n).sleeps ≡ k)
      × ((j : ℕ) → j < k → dial (i + j) ≡ none)
unfolding dial_from
dial_from-some dial i zero conn e = cc e
dial_from-some dial i (suc n) conn e = elim (Option-cases (dial i)) [
  | inr (c, now) ↦ (
    0,
    omega arith,
    ap dial (omega arith) ∙ now ∙ rw (now, dial_from) at e,
    rw (now, dial_from) refl,
    λ j lt. absurd (omega arith),
  )
  | inl failed ↦
      let (k, lt, at, slept, before) =
        dial_from-some dial (i + 1) n conn (rw (failed, dial_from) at e) in
      (
        suc k,
        omega arith,
        ap dial (omega arith) ∙ at,
        rw (failed, dial_from) (omega (arith, sleep_before_pos n k lt, slept)),
        earlier_failed dial i k failed before,
      )
]
