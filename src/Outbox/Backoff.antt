-- ===== src/Outbox/Backoff.antt =====
-- `backoffSeconds` of internal/platform/worker/engine.go against the rule of the package's comment.
use yop_pms.Prelude.{ℕ, zero, suc, ◌+◌, ◌^◌, ◌≤◌, ◌≡◌, refl, arith, least, power-2048}
use yop_pms.Outbox.{backoff_seconds}

above : (n k : ℕ) → n ≡ k + 11 → (backoff_seconds n ≡ least (2 ^ n) 1800) × (1 ≤ backoff_seconds n)
unfolding backoff_seconds
above n k h = ground (arith, power-2048 n k h)

-- The backoff is min(2^n, 1800) seconds for every retry count, and so at least one second.
pub backoff_seconds-least :
    (n : ℕ) → (backoff_seconds n ≡ least (2 ^ n) 1800) × (1 ≤ backoff_seconds n)
unfolding backoff_seconds
backoff_seconds-least zero = (refl, omega arith)
backoff_seconds-least (suc zero) = (refl, omega arith)
backoff_seconds-least (suc (suc zero)) = (refl, omega arith)
backoff_seconds-least (suc (suc (suc zero))) = (refl, omega arith)
backoff_seconds-least (suc (suc (suc (suc zero)))) = (refl, omega arith)
backoff_seconds-least (suc (suc (suc (suc (suc zero))))) = (refl, omega arith)
backoff_seconds-least (suc (suc (suc (suc (suc (suc zero)))))) = (refl, omega arith)
backoff_seconds-least (suc (suc (suc (suc (suc (suc (suc zero))))))) = (refl, omega arith)
backoff_seconds-least (suc (suc (suc (suc (suc (suc (suc (suc zero)))))))) = (refl, omega arith)
backoff_seconds-least (suc (suc (suc (suc (suc (suc (suc (suc (suc zero))))))))) =
    (refl, omega arith)
backoff_seconds-least (suc (suc (suc (suc (suc (suc (suc (suc (suc (suc zero)))))))))) =
    (refl, omega arith)
backoff_seconds-least (suc (suc (suc (suc (suc (suc (suc (suc (suc (suc (suc k))))))))))) =
    above (suc (suc (suc (suc (suc (suc (suc (suc (suc (suc (suc k))))))))))) k (omega arith)
