-- ===== src/Cache/Rows/Counts.antt =====
-- storage/cache.py: the counts of the projects and the rows.
use z4j_scheduler.Prelude.{
  ℕ, zero, suc, ◌+◌, ◌-◌, ◌<◌, ◌≡◌, ◌∙◌, refl, ◌⊎◌, inl, inr, Bool, Option, none, some, arith, ◌==◌,
  if◌then◌else◌, Option-cases,
}
use z4j_scheduler.Dict.{Dict, get, put, pop, get_or}
use z4j_scheduler.Dict.Laws.{get-put, get-pop, pop_absent}
use z4j_scheduler.Dict.Distinct.{Distinct, put-Distinct, pop-Distinct, tally, tally-put, tally-pop}
use z4j_scheduler.Entry.{Uuid, ScheduleEntry}
use z4j_scheduler.Cache.State.{Cache, ok}
use z4j_scheduler.Cache.Rows.{
  decremented, incremented, store_entry_locked, remove_entry_locked, count_for_project,
}

abbrev pub in_project : Uuid → ScheduleEntry → Bool
in_project p e = e.project_id == p

-- A count is stored exactly if it is positive.
abbrev pub positive : ℕ → Option ℕ
positive zero = none
positive (suc n) = some (suc n)

pub record IsCounted (entries : Dict ScheduleEntry) (counts : Dict ℕ) : Type 0 where
  pub distinct : Distinct entries
  pub counted : (p : Uuid) → get counts p ≡ positive (tally (in_project p) entries)

abbrev pub counts_with : ScheduleEntry → Cache → Dict ℕ
counts_with e c = (store_entry_locked e c).0.project_counts

abbrev pub counts_without : Uuid → Cache → Dict ℕ
counts_without k c = (remove_entry_locked k c).0.project_counts

-- A row in a project makes the tally of the project positive.
tally_pos :
    (d : Dict ScheduleEntry) (k : Uuid) (e : ScheduleEntry)
    → Distinct d
    → get d k ≡ some e
    → 0 < tally (in_project e.project_id) d
tally_pos d k e h at = ground (arith, tally-pop (in_project e.project_id) d k h)

positive_of_pos : (n : ℕ) → 0 < n → positive n ≡ some n
positive_of_pos zero h = absurd (omega arith)
positive_of_pos (suc n) h = refl

positive_cases : (n : ℕ) → ((n ≡ 0) × (positive n ≡ none)) ⊎ ((0 < n) × (positive n ≡ some n))
positive_cases zero = inl (refl, refl)
positive_cases (suc n) = inr (omega arith, refl)

get-decremented :
    (d : Dict ℕ) (q p : Uuid) (n : ℕ)
    → get (decremented d q n) p ≡ (if q == p then positive (n - 1) else get d p)
unfolding decremented
get-decremented d q p n =
    ground (arith, get-put d q p (n - 1), get-pop d q p, positive_cases (n - 1))

get-incremented :
    (d : Dict ℕ) (q p : Uuid)
    → get (incremented d q) p ≡ (if q == p then some (get_or d p 0 + 1) else get d p)
unfolding incremented
get-incremented d q p = ground (arith, get-put d q p (get_or d q 0 + 1))

module _ (c : Cache) (h : IsCounted c.entries c.project_counts) where
  -- The key that a decrement reads is there.
  pub count_present :
      (k : Uuid) (e : ScheduleEntry)
      → get c.entries k ≡ some e
      → get c.project_counts e.project_id ≡ some (tally (in_project e.project_id) c.entries)
  count_present k e at =
      h.counted e.project_id ∙ positive_of_pos _ (tally_pos c.entries k e h.distinct at)

  pub store-eq :
      (e : ScheduleEntry)
      → store_entry_locked e c
        ≡ (record c { entries = put c.entries e.id e; project_counts = counts_with e c }, ok tt)
  unfolding store_entry_locked
  store-eq e = elim (Option-cases (get c.entries e.id)) [
    | inl new ↦ ground (arith, new)
    | inr (old, at) ↦ ground (arith, at, count_present e.id old at)
  ]

  pub remove-eq :
      (k : Uuid)
      → remove_entry_locked k c ≡ (
        record c { entries = pop c.entries k; project_counts = counts_without k c },
        ok (get c.entries k),
      )
  unfolding remove_entry_locked
  remove-eq k = elim (Option-cases (get c.entries k)) [
    | inl new ↦ ground (arith, pop_absent c.entries k new)
    | inr (old, at) ↦ ground (arith, at, count_present k old at)
  ]

  counts_with_lem :
      (e : ScheduleEntry) (p : Uuid)
      → get (counts_with e c) p ≡ positive (tally (in_project p) (put c.entries e.id e))
  unfolding store_entry_locked get_or
  counts_with_lem e p = elim (Option-cases (get c.entries e.id)) [
    | inl new ↦ ground (
      arith,
      new,
      h.counted p,
      positive_cases (tally (in_project p) c.entries),
      tally-put (in_project p) c.entries e.id e,
      get-incremented c.project_counts e.project_id p,
    )
    | inr (old, at) ↦
        let n = tally (in_project old.project_id) c.entries in
        ground (
          arith,
          at,
          count_present e.id old at,
          tally_pos c.entries e.id old h.distinct at,
          h.counted p,
          positive_cases (tally (in_project p) c.entries),
          tally-put (in_project p) c.entries e.id e,
          get-incremented (decremented c.project_counts old.project_id n) e.project_id p,
          get-decremented c.project_counts old.project_id p n,
        )
  ]

  pub store-IsCounted : (e : ScheduleEntry) → IsCounted (put c.entries e.id e) (counts_with e c)
  store-IsCounted e = record {
    distinct = put-Distinct c.entries e.id e h.distinct;
    counted = counts_with_lem e;
  }

  counts_without_lem :
      (k p : Uuid) → get (counts_without k c) p ≡ positive (tally (in_project p) (pop c.entries k))
  unfolding remove_entry_locked
  counts_without_lem k p = elim (Option-cases (get c.entries k)) [
    | inl new ↦ ground (arith, new, h.counted p, pop_absent c.entries k new)
    | inr (old, at) ↦ ground (
      arith,
      at,
      count_present k old at,
      h.counted p,
      positive_cases (tally (in_project p) c.entries),
      tally-pop (in_project p) c.entries k h.distinct,
      get-decremented c.project_counts old.project_id p
          (tally (in_project old.project_id) c.entries),
    )
  ]

  pub remove-IsCounted : (k : Uuid) → IsCounted (pop c.entries k) (counts_without k c)
  remove-IsCounted k = record {
    distinct = pop-Distinct c.entries k h.distinct;
    counted = counts_without_lem k;
  }

  -- The number that labels a project's metrics is the number of its rows.
  pub count_for_project-eq-tally :
      (p : Uuid) → count_for_project c p ≡ tally (in_project p) c.entries
  unfolding count_for_project
  count_for_project-eq-tally p =
      ground (arith, h.counted p, positive_cases (tally (in_project p) c.entries))
