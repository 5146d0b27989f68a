-- ===== src/Terminal/Backoff.antt =====
-- The retries after a loss: their delays, and how they count.
use native.Mathlib.Nat.{pow-suc}
use remote_agent.Common.{
  ℕ, zero, suc, ◌+◌, ◌-◌, ◌*◌, ◌^◌, ◌≤◌, min, ◌≡◌, ap, ◌∙◌, false, List, [], ◌∷◌, any, arith,
  if◌then◌else◌,
}
use remote_agent.Connection.{Status, connecting, ready, disconnected}
use remote_agent.Terminal.{App, retry_after}
use remote_agent.Terminal.Handlers.{is_ready, is_disconnected, retry_delay, on_status}

pow_pos : (n : ℕ) → 1 ≤ 2 ^ n
pow_pos zero = omega arith
pow_pos (suc n) = omega (arith, pow_pos n, pow-suc 2 n)

pow_four : (k : ℕ) → 16 ≤ 2 ^ suc (suc (suc (suc k)))
pow_four k = omega (
  arith,
  pow_pos k,
  pow-suc 2 k,
  pow-suc 2 (suc k),
  pow-suc 2 (suc (suc k)),
  pow-suc 2 (suc (suc (suc k))),
)

retry_delay-suc : (m : ℕ) → retry_delay (suc m) ≡ min (1000 * 2 ^ m) 10000
unfolding retry_delay
retry_delay-suc m =
    let e : suc m - 1 ≡ m = omega arith in ap (λ (k : ℕ). min (1000 * 2 ^ k) 10000) e

retry_delay_late : (n : ℕ) → 5 ≤ n → retry_delay n ≡ 10000
retry_delay_late (suc (suc (suc (suc (suc k))))) h =
    omega (arith, retry_delay-suc (suc (suc (suc (suc k)))), pow_four k)
retry_delay_late zero h = absurd (omega arith)
retry_delay_late (suc zero) h = absurd (omega arith)
retry_delay_late (suc (suc zero)) h = absurd (omega arith)
retry_delay_late (suc (suc (suc zero))) h = absurd (omega arith)
retry_delay_late (suc (suc (suc (suc zero)))) h = absurd (omega arith)

retry_delay_range : (n : ℕ) → (1000 ≤ retry_delay n) × (retry_delay n ≤ 10000)
unfolding retry_delay
retry_delay_range n = omega (arith, pow_pos (n - 1))

-- The delay lies between one and ten seconds, doubles from loss to loss until it meets ten seconds, and
-- is ten seconds from the fifth loss on.
pub retry_delay_bounds :
    (n : ℕ)
    → (1000 ≤ retry_delay n)
      × (retry_delay n ≤ 10000)
      × (retry_delay (suc (suc n)) ≡ min (2 * retry_delay (suc n)) 10000)
      × (5 ≤ n → retry_delay n ≡ 10000)
retry_delay_bounds n = (
  (retry_delay_range n).0,
  (retry_delay_range n).1,
  omega (arith, retry_delay-suc n, retry_delay-suc (suc n), pow-suc 2 n),
  retry_delay_late n,
)

-- The state after a history of status changes.
unfoldable pub statuses : List Status → App → App
statuses [] a = a
statuses (s ∷ ss) a = statuses ss (on_status s a).0

abbrev pub losses : List Status → ℕ
losses [] = 0
losses (s ∷ ss) = (if is_disconnected s then 1 else 0) + losses ss

statuses_attempts :
    (ss : List Status) (a : App)
    → any is_ready ss ≡ false
    → (statuses ss a).attempts ≡ a.attempts + losses ss
unfolding statuses on_status
statuses_attempts [] a h = omega arith
statuses_attempts (connecting ∷ ss) a h = statuses_attempts ss _ h ∙ omega arith
statuses_attempts (ready ∷ ss) a h = cc
statuses_attempts (disconnected ∷ ss) a h = statuses_attempts ss _ h ∙ omega arith

loss_act :
    (a : App) → (on_status disconnected a).1 ≡ retry_after (retry_delay (a.attempts + 1)) ∷ []
unfolding on_status
loss_act a = ground arith

-- Whatever the component was before, a loss is answered by exactly one retry, whose delay is that of
-- the number of losses since the connection was last ready; and being ready starts the count again.
pub loss_after_ready :
    (ss : List Status) (a : App)
    → any is_ready ss ≡ false
    → (on_status disconnected (statuses ss (on_status ready a).0)).1
      ≡ retry_after (retry_delay (losses ss + 1)) ∷ []
unfolding on_status
loss_after_ready ss a h =
    let b = (on_status ready a).0 in
    let e : (statuses ss b).attempts ≡ losses ss = statuses_attempts ss b h ∙ omega arith in
    loss_act (statuses ss b) ∙ ap (λ (n : ℕ). retry_after (retry_delay (n + 1)) ∷ []) e
