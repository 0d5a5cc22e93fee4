-- ===== src/Convert/Floats.antt =====
-- storage/_convert.py: the floats of `datetime.fromtimestamp(seconds + nanos / 1_000_000_000)`. A float is
-- a count of the unit 2 ^ -82, of which every float from 2 ^ -30 on, and so every float here, is a multiple.
use z4j_scheduler.Prelude.{
  ℕ, zero, suc, ◌+◌, ◌*◌, ◌/◌, ◌%◌, ◌≤◌, ◌<◌, ◌≡◌, ap, ◌∙◌, ltb, ◌==◌, if◌then◌else◌, arith,
}
use native.Mathlib.Nat.{div-add-mod, mod-lt, mul_comm, mul_assoc, mul-le-mul_left, mul-pos}

-- 2 ^ 82
abbrev pub unit : ℕ
unit = 4835703278458516698824704

-- n / d to the nearest integer, and from the middle to the even one.
unfoldable pub half_even : ℕ → ℕ → ℕ
half_even n d =
    let q = n / d in
    if ltb (n % d + n % d) d
    then q
    else if ltb d (n % d + n % d)
    then q + 1
    else if q % 2 == 0
    then q
    else q + 1

-- The distance of the floats at n / d: the least power of two, from `q` on, of which n / d is less than
-- 2 ^ 53 times.
unfoldable pub quantum : ℕ → ℕ → ℕ → ℕ → ℕ
quantum zero n d q = q
quantum (suc fuel) n d q =
    let rest = quantum fuel n d (q + q) in if ltb n (9007199254740992 * (d * q)) then q else rest

-- The float nearest to n / d.
unfoldable pub nearest : ℕ → ℕ → ℕ
nearest n d = let q = quantum 128 n d 1 in half_even n (d * q) * q

-- The whole seconds and the fraction of the float, which is rounded to microseconds.
unfoldable pub micros_of : ℕ → ℕ
micros_of float = float / unit * 1000000 + half_even (nearest (float % unit * 1000000) 1) unit

-- In microseconds.
unfoldable pub from_timestamp : ℕ → ℕ → ℕ
from_timestamp seconds nanos =
    micros_of (nearest (seconds * unit + nearest (nanos * unit) 1000000000) 1)

doubled : ℕ → ℕ → ℕ
doubled zero q = q
doubled (suc i) q = doubled i (q + q)

doubled_le : (i q : ℕ) → q ≤ doubled i q
unfolding doubled
doubled_le zero q = omega arith
doubled_le (suc i) q = omega (arith, doubled_le i (q + q))

quantum_le :
    (fuel i n d q : ℕ) → n < 9007199254740992 * (d * doubled i q) → quantum fuel n d q ≤ doubled i q
unfolding quantum doubled
quantum_le zero i n d q h = doubled_le i q
quantum_le (suc fuel) zero n d q h = ground arith
quantum_le (suc fuel) (suc i) n d q h =
    ground (arith, quantum_le fuel i n d (q + q) h, doubled_le (suc i) q)

quantum_pos : (fuel n d q : ℕ) → 0 < q → 0 < quantum fuel n d q
unfolding quantum
quantum_pos zero n d q h = h
quantum_pos (suc fuel) n d q h = ground (arith, quantum_pos fuel n d (q + q))

-- A number is near a fraction: at most half of a width away.
abbrev Near : ℕ → ℕ → ℕ → Type 0
Near a b width = (a + a ≤ b + b + width) × (b + b ≤ a + a + width)

half_even-Near : (n d : ℕ) → 0 < d → Near (half_even n d * d) n d
unfolding half_even
half_even-Near n d pos =
    let split : n / d * d + n % d ≡ n =
      ap (λ m. m + n % d) (mul_comm (n / d) d) ∙ div-add-mod n d in
    let low = mod-lt n pos in
    let next : (n / d + 1) * d ≡ n / d * d + d = ground arith in ground (arith, split, low, next)

-- The float nearest to n / d, with the float distance at most 2 ^ i there.
nearest-Near :
    (i n d : ℕ)
    → 0 < d
    → n < 9007199254740992 * (d * doubled i 1)
    → Near (nearest n d * d) n (d * doubled i 1)
unfolding nearest
nearest-Near i n d pos small =
    let q = quantum 128 n d 1 in
    let most : d * q ≤ d * doubled i 1 = mul-le-mul_left d (quantum_le 128 i n d 1 small) in
    let some_q = quantum_pos 128 n d 1 (omega arith) in
    let near = half_even-Near n (d * q) (mul-pos pos some_q) in
    let same : half_even n (d * q) * q * d ≡ half_even n (d * q) * (d * q) =
      mul_assoc (half_even n (d * q)) q d ∙ ap (λ m. half_even n (d * q) * m) (mul_comm q d) in
    (omega (arith, near.0, most, same), omega (arith, near.1, most, same))

-- An instant before the year 2242 that is written as seconds and nanoseconds is read as it was.
pub from_timestamp-exact :
    (s us : ℕ) → s < 8589934592 → us < 1000000 → from_timestamp s (us * 1000) ≡ s * 1000000 + us
unfolding from_timestamp micros_of doubled
from_timestamp-exact s us early small =
    let a = nearest (us * 1000 * unit) 1000000000 in
    let near_a = nearest-Near 29 (us * 1000 * unit) 1000000000 (omega arith) (omega arith) in
    let b = nearest (s * unit + a) 1 in
    let near_b = nearest-Near 62 (s * unit + a) 1 (omega arith) (omega (arith, near_a)) in
    let split : unit * (b / unit) + b % unit ≡ b = div-add-mod b unit in
    let low : b % unit < unit = mod-lt b (omega arith) in
    let c = nearest (b % unit * 1000000) 1 in
    let near_c = nearest-Near 49 (b % unit * 1000000) 1 (omega arith) (omega (arith, low)) in
    let near_m = half_even-Near c unit (omega arith) in
    omega (arith, near_a, near_b, split, low, near_c, near_m)
