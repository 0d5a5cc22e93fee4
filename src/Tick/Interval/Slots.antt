-- ===== src/Tick/Interval/Slots.antt =====
-- tick/interval.py: the closed form of `fires_between` against the loop that counts every slot.
use z4j_scheduler.Prelude.{
  ℕ, zero, suc, ◌+◌, ◌-◌, ◌*◌, ◌/◌, ◌≤◌, ◌<◌, ◌≡◌, refl, ap, sym, ◌∙◌, max, false, List, [], ◌∷◌,
  arith, leb, ◌==◌, if◌then◌else◌, length, le→ltb, le→leb, leb→le, Bool-cases, ◌↔◌, inl, inr,
}
use native.Mathlib.Nat.{le-div_iff_mul-le, div-le_self, le_trans}
use z4j_scheduler.Entry.{Instant}
use z4j_scheduler.Tick.Interval.{fires_in, slots_from}

-- xs[n:]
unfoldable pub drop {ℓ} : {A : Type ℓ} → ℕ → List A → List A
drop zero xs = xs
drop (suc n) [] = []
drop (suc n) (x ∷ xs) = drop n xs

-- The last n elements.
abbrev pub newest : ℕ → List Instant → List Instant
newest n xs = drop (length xs - n) xs

-- Every slot after `at` up to `until`, one interval at a time.
unfoldable pub every_slot : ℕ → ℕ → Instant → Instant → List Instant
every_slot zero interval at until = []
every_slot (suc fuel) interval at until =
    let rest = every_slot fuel interval (at + interval) until in
    if leb (at + interval) until then (at + interval) ∷ rest else []

length-slots : (after interval k n : ℕ) → length (slots_from after interval k n) ≡ n
unfolding slots_from
length-slots after interval k zero = refl
length-slots after interval k (suc n) = ap suc (length-slots after interval (suc k) n)

slots-ap :
    (after interval : ℕ) {k l m n : ℕ}
    → k ≡ l
    → m ≡ n
    → slots_from after interval k m ≡ slots_from after interval l n
slots-ap after interval h i = cc

drop-slots :
    (j after interval k n : ℕ)
    → drop j (slots_from after interval k n) ≡ slots_from after interval (k + j) (n - j)
unfolding drop slots_from
drop-slots zero after interval k n = slots-ap after interval (omega arith) (omega arith)
drop-slots (suc j) after interval k zero =
    ap (slots_from after interval (k + suc j)) {x = 0} (omega arith)
drop-slots (suc j) after interval k (suc n) =
    drop-slots j after interval (suc k) n ∙ slots-ap after interval (omega arith) (omega arith)

-- A slot is in the window when its number is at most the span in intervals.
slot-le :
    (after until interval k : ℕ)
    → 0 < interval
    → (after + suc k * interval ≤ until) ↔ (suc k ≤ (until - after) / interval)
slot-le after until interval k pos =
    let iff = le-div_iff_mul-le {k = interval} {x = suc k} {y = until - after} pos in
    (λ h. iff.1 (omega (arith, h)), λ h. omega (arith, iff.0 h, pos))

module _ (after until interval : ℕ) (pos : 0 < interval) where
  next_slot : (k : ℕ) → after + k * interval + interval ≡ after + suc k * interval
  next_slot k = omega arith

  every_slot-from :
      (fuel k : ℕ)
      → (until - after) / interval ≤ k + fuel
      → every_slot fuel interval (after + k * interval) until
        ≡ slots_from after interval (suc k) ((until - after) / interval - k)
  unfolding every_slot slots_from
  every_slot-from zero k enough = slots-ap after interval {m = 0} refl (omega (arith, enough))
  every_slot-from (suc fuel) k enough =
      let q = (until - after) / interval in
      rw (next_slot k) (elim (Bool-cases (leb (after + suc k * interval) until)) [
        | inl more ↦
            let left : suc k ≤ q = (slot-le after until interval k pos).0 (leb→le _ _ more) in
            rw more (
              ap (λ xs. (after + suc k * interval) ∷ xs)
                (every_slot-from fuel (suc k) (omega (arith, enough)))
              ∙ slots-ap after interval {k = suc k} {m = suc (q - suc k)} refl
                  (omega (arith, left)))
        | inr over ↦ rw over (
            slots-ap after interval {m = 0} refl (
              ground (
                arith,
                (slot-le after until interval k pos).1,
                le→leb (after + suc k * interval) until,
              )))
      ])

  every_slot-eq :
      (fuel : ℕ)
      → (until - after) / interval ≤ fuel
      → every_slot fuel interval after until
        ≡ slots_from after interval 1 ((until - after) / interval)
  every_slot-eq fuel enough =
      ap (λ at. every_slot fuel interval at until) (omega arith)
      ∙ every_slot-from fuel 0 (omega (arith, enough))
      ∙ slots-ap after interval refl (omega arith)

  -- The numbers of the slots: the last `cap` up to the span in intervals.
  first_kept :
      (cap q : ℕ)
      → 1 ≤ q
      → (max 1 (q + 1 - cap) ≡ 1 + (length (slots_from after interval 1 q) - cap))
        × (q + 1 - max 1 (q + 1 - cap) ≡ q - (length (slots_from after interval 1 q) - cap))
  first_kept cap q some_slot = rw (length-slots after interval 1 q) (omega arith, omega arith)

  kept-eq :
      (cap q : ℕ)
      → 1 ≤ q
      → slots_from after interval (max 1 (q + 1 - cap)) (q + 1 - max 1 (q + 1 - cap))
        ≡ newest cap (slots_from after interval 1 q)
  kept-eq cap q some_slot =
      let first = first_kept cap q some_slot in
      slots-ap after interval first.0 first.1
      ∙ sym (drop-slots (length (slots_from after interval 1 q) - cap) after interval 1 q)

  pub fires_in-some :
      (cap : ℕ)
      → 1 ≤ (until - after) / interval
      → fires_in interval after until cap
        ≡ slots_from after interval
            (max 1 ((until - after) / interval + 1 - cap))
            ((until - after) / interval + 1 - max 1 ((until - after) / interval + 1 - cap))
  unfolding fires_in
  fires_in-some cap some_slot =
      let fits : interval ≤ until - after =
        omega
          (arith, (le-div_iff_mul-le {k = interval} {x = 1} {y = until - after} pos).0 some_slot) in
      let positive : (interval == 0) ≡ false = ground (arith, pos) in
      rw
        (
          positive,
          le→ltb (until - after) interval fits,
          le→ltb ((until - after) / interval) 1 some_slot,
        )
        refl

  fires_in-none :
      (cap : ℕ) → (until - after) / interval ≡ 0 → fires_in interval after until cap ≡ []
  unfolding fires_in
  fires_in-none cap empty = ground (arith, empty)

  fires_in-eq :
      (cap q : ℕ)
      → (until - after) / interval ≡ q
      → fires_in interval after until cap ≡ newest cap (slots_from after interval 1 q)
  unfolding slots_from drop
  fires_in-eq cap zero h = fires_in-none cap h ∙ ap (λ n. drop n []) {x = 0} (omega arith)
  fires_in-eq cap (suc q) h =
      fires_in-some cap (omega (arith, h))
      ∙ ap (λ n. slots_from after interval (max 1 (n + 1 - cap)) (n + 1 - max 1 (n + 1 - cap))) h
      ∙ kept-eq cap (suc q) (omega arith)

  -- For a positive interval, the closed form of `fires_between` gives the last `cap` slots of the
  -- loop that steps through every slot of the window, whatever fuel that loop has from the length
  -- of the window on.
  pub fires_in-newest :
      (cap fuel : ℕ)
      → until - after ≤ fuel
      → fires_in interval after until cap ≡ newest cap (every_slot fuel interval after until)
  fires_in-newest cap fuel enough =
      let q = (until - after) / interval in
      fires_in-eq cap q refl
      ∙ ap (newest cap)
          (sym (every_slot-eq fuel (le_trans (div-le_self (until - after) interval) enough)))
