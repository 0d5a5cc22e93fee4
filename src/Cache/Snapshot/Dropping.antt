-- ===== src/Cache/Snapshot/Dropping.antt =====
-- storage/cache.py: what the loop over the cached rows drops, and what the compaction keeps.
use z4j_scheduler.Prelude.{
  ℕ, Bool-cases, ==_refl, ==_iff, ◌≡◌, refl, Bool, true, false, Option, none, some, [], ◌∷◌, arith,
  ◌==◌, ◌||◌, not, ltb, if◌then◌else◌, inl, inr,
}
use z4j_scheduler.Dict.{Dict, Set, get, get_or, contains}
use z4j_scheduler.Dict.Distinct.{Distinct}
use z4j_scheduler.Dict.Laws.{get-pop}
use z4j_scheduler.Entry.{Uuid, ScheduleEntry}
use z4j_scheduler.Cache.Deletes.{drop_evidence}
use z4j_scheduler.Cache.State.{Cache}
use z4j_scheduler.Cache.Invariant.{IsWellFormed}
use z4j_scheduler.Cache.Invariant.Deleting.{forgotten, forgotten-IsWellFormed}
use z4j_scheduler.Cache.Invariant.Snapshots.{drop-eq}
use z4j_scheduler.Cache.Watch.{known_revision}
use z4j_scheduler.Cache.Snapshot.{ScheduleSnapshot, in_scope, drop_missing, compact}

-- The test by which the loop drops a row.
abbrev pub is_missing : ScheduleSnapshot → Set → Cache → Uuid → ScheduleEntry → Bool
is_missing s seen c k e =
    not (not (in_scope s e.project_id) || contains seen k || ltb s.watermark (known_revision c k))

abbrev pub dropped : ScheduleSnapshot → Set → Cache → Uuid → Option ScheduleEntry → Bool
dropped s seen c k none = false
dropped s seen c k (some e) = is_missing s seen c k e

known-forgotten :
    (j k : Uuid) (c : Cache)
    → (j == k) ≡ false
    → known_revision (forgotten j c) k ≡ known_revision c k
unfolding known_revision get_or
known-forgotten j k c other = ground (arith, get-pop c.id_revisions j k)

dropped-forgotten :
    (s : ScheduleSnapshot) (seen : Set) (j k : Uuid) (c : Cache) (o : Option ScheduleEntry)
    → (j == k) ≡ false
    → dropped s seen (forgotten j c) k o ≡ dropped s seen c k o
dropped-forgotten s seen j k c none other = refl
dropped-forgotten s seen j k c (some e) other = rw (known-forgotten j k c other)

drop_keep :
    (s : ScheduleSnapshot) (seen : Set) (j : Uuid) (e : ScheduleEntry) (items : Dict ScheduleEntry)
    (c : Cache)
    → is_missing s seen c j e ≡ false
    → drop_missing s seen ((j, e) ∷ items) c ≡ drop_missing s seen items c
unfolding drop_missing
drop_keep s seen j e items c kept = ground arith

drop_gone :
    (s : ScheduleSnapshot) (seen : Set) (j : Uuid) (e : ScheduleEntry) (items : Dict ScheduleEntry)
    (c : Cache)
    → IsWellFormed c
    → is_missing s seen c j e ≡ true
    → drop_missing s seen ((j, e) ∷ items) c ≡ drop_missing s seen items (forgotten j c)
unfolding drop_missing
drop_gone s seen j e items c h gone = ground (arith, drop-eq j (drop_missing s seen items) c h)

-- The loop drops exactly the missing rows.
pub drop_missing_lem :
    (s : ScheduleSnapshot) (seen : Set) (items : Dict ScheduleEntry) (c : Cache) (k : Uuid)
    → IsWellFormed c
    → Distinct items
    → get (drop_missing s seen items c).0.entries k
      ≡ (if dropped s seen c k (get items k) then none else get c.entries k)
unfolding get
drop_missing_lem s seen [] c k h d = unfold drop_missing in refl
drop_missing_lem s seen ((j, e) ∷ items) c k h d = elim (Bool-cases (is_missing s seen c j e)) [
  | inr kept ↦
      rw (drop_keep s seen j e items c kept)
        (ground (arith, drop_missing_lem s seen items c k h d.1, d.0, kept, ==_iff j k))
  | inl gone ↦ rw (drop_gone s seen j e items c h gone) (
      ground (
        arith,
        drop_missing_lem s seen items (forgotten j c) k (forgotten-IsWellFormed j c h) d.1,
        d.0,
        gone,
        ==_iff j k,
        get-pop c.entries j k,
        dropped-forgotten s seen j k c (get items k),
      ))
]

known-forgotten_self : (j : Uuid) (c : Cache) → known_revision (forgotten j c) j ≡ 0
unfolding known_revision get_or
known-forgotten_self j c = ground (arith, get-pop c.id_revisions j j, ==_refl j)

-- The loop forgets the revisions of exactly the missing rows.
pub drop_missing-known :
    (s : ScheduleSnapshot) (seen : Set) (items : Dict ScheduleEntry) (c : Cache) (k : Uuid)
    → IsWellFormed c
    → Distinct items
    → dropped s seen c k (get items k) ≡ false
    → known_revision (drop_missing s seen items c).0 k ≡ known_revision c k
unfolding get
drop_missing-known s seen [] c k h d stays = unfold drop_missing in refl
drop_missing-known s seen ((j, e) ∷ items) c k h d stays =
    elim (Bool-cases (is_missing s seen c j e)) [
      | inr kept ↦
          rw (drop_keep s seen j e items c kept)
            (ground (arith, drop_missing-known s seen items c k h d.1, d.0, kept, ==_iff j k))
      | inl gone ↦ rw (drop_gone s seen j e items c h gone) (
          ground (
            arith,
            drop_missing-known s seen items (forgotten j c) k (forgotten-IsWellFormed j c h) d.1,
            d.0,
            gone,
            ==_iff j k,
            known-forgotten j k c,
            dropped-forgotten s seen j k c (get items k),
          ))
    ]

pub compact-entries :
    (s : ScheduleSnapshot) (items : Dict ℕ) (c : Cache) → (compact s items c).entries ≡ c.entries
unfolding compact
compact-entries s [] c = refl
compact-entries s ((j, revision) ∷ items) c =
    ground (arith, compact-entries s items c, compact-entries s items (drop_evidence j c))

known-drop_evidence :
    (j k : Uuid) (c : Cache)
    → (j == k) ≡ false
    → known_revision (drop_evidence j c) k ≡ known_revision c k
unfolding known_revision get_or
known-drop_evidence j k c other = ground (arith, get-pop c.id_revisions j k)

-- The compaction leaves the revision of every id that has a row.
pub compact-known :
    (s : ScheduleSnapshot) (items : Dict ℕ) (c : Cache) (k : Uuid) (x : ScheduleEntry)
    → get c.entries k ≡ some x
    → known_revision (compact s items c) k ≡ known_revision c k
unfolding compact
compact-known s [] c k x at = refl
compact-known s ((j, revision) ∷ items) c k x at = ground (
  arith,
  compact-known s items c k x at,
  compact-known s items (drop_evidence j c) k x at,
  known-drop_evidence j k c,
  ==_iff j k,
)
