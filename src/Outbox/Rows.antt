-- ===== src/Outbox/Rows.antt =====
-- The retry delay of the relay.
use universal_agent_memory.Prelude.{
  ℕ, zero, suc, ◌+◌, ◌-◌, ◌*◌, ◌^◌, ◌≤◌, ◌≡◌, arith, not, ◌&&◌, leb, ltb,
}
use native.Mathlib.Nat.{pow-suc}
use universal_agent_memory.Text.{is_blank}
use universal_agent_memory.Domain.Errors.{ok, raise_if-eq-ok}
use universal_agent_memory.Outbox.{OutboxRelay, relay_init, retry_delay}

pow_positive : (n : ℕ) → 1 ≤ 2 ^ n
pow_positive zero = omega arith
pow_positive (suc n) = rw pow-suc (omega (arith, pow_positive n))

pow_monotone : (n k : ℕ) → 2 ^ n ≤ 2 ^ (n + k)
pow_monotone n zero = let e : n + 0 ≡ n = omega arith in rw e (omega arith)
pow_monotone n (suc k) =
    let e : n + suc k ≡ suc (n + k) = omega arith in
    rw (e, pow-suc) (omega (arith, pow_monotone n k))

mul_mono : (b x y : ℕ) → x ≤ y → b * x ≤ b * y
mul_mono b x y h = grind arith

relay_init-bounds :
    (self : OutboxRelay)
    → relay_init self ≡ ok self
    → (1 ≤ self.retry_base_seconds) × (self.retry_base_seconds ≤ self.retry_max_seconds)
unfolding relay_init
relay_init-bounds self h =
    let (_, h1) = raise_if-eq-ok (is_blank self.worker_id) _ _ h in
    let (_, h2) = raise_if-eq-ok (not (leb 1 self.batch_size && leb self.batch_size 1000)) _ _ h1 in
    let (_, h3) = raise_if-eq-ok (ltb self.lease_seconds 1) _ _ h2 in
    let (_, h4) = raise_if-eq-ok (ltb self.max_attempts 1) _ _ h3 in
    let (a, h5) = raise_if-eq-ok (ltb self.retry_base_seconds 1) _ _ h4 in
    let (b, _) = raise_if-eq-ok (ltb self.retry_max_seconds self.retry_base_seconds) _ _ h5 in
    (ground (arith, a), ground (arith, b))

-- A relay whose settings `__init__` accepts waits at least its base and at least a second before a
-- retry, at most its cap, and never less as attempts go on.
pub retry_delay_bounds :
    (self : OutboxRelay) (attempts more : ℕ)
    → relay_init self ≡ ok self
    → (1 ≤ self.retry_base_seconds)
      × (self.retry_base_seconds ≤ retry_delay self attempts)
      × (retry_delay self attempts ≤ self.retry_max_seconds)
      × (retry_delay self attempts ≤ retry_delay self (attempts + more))
unfolding retry_delay
retry_delay_bounds self attempts more accepted =
    let (positive, h) = relay_init-bounds self accepted in
    let base = self.retry_base_seconds in
    let k = attempts + more - 1 - (attempts - 1) in
    let e : attempts + more - 1 ≡ attempts - 1 + k = omega arith in
    let least = mul_mono base 1 (2 ^ (attempts - 1)) (pow_positive (attempts - 1)) in
    let grows =
      mul_mono base (2 ^ (attempts - 1)) (2 ^ (attempts - 1 + k)) (pow_monotone (attempts - 1) k) in
    rw e (positive, omega (arith, least), omega arith, omega (arith, grows))
