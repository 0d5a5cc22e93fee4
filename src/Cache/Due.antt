-- ===== src/Cache/Due.antt =====
-- storage/cache.py: the reads of the tick engine.
pub mod Order
use z4j_scheduler.Prelude.{
  Bool, false, not, ◌&&◌, ◌||◌, Option, none, some, List, [], ◌∷◌, ltb, leb, ◌==◌, if◌then◌else◌,
  is_some,
}
use z4j_scheduler.Dict.{values, contains}
use z4j_scheduler.Entry.{Instant, ScheduleEntry}
use z4j_scheduler.Cache.State.{Cache}

-- The slot of a row that has one.
abbrev pub slot : ScheduleEntry → Instant
slot e = elim e.next_fire_at [ none ↦ 0 | some t ↦ t ]

-- The order of the keys `(next_fire_at, id)`.
abbrev pub key_le : ScheduleEntry → ScheduleEntry → Bool
key_le a b = ltb (slot a) (slot b) || (slot a == slot b && leb a.id b.id)

unfoldable pub is_candidate : Cache → ScheduleEntry → Bool
is_candidate c e =
    not (contains c.snapshot_required_projects e.project_id)
    && e.is_enabled
    && is_some e.next_fire_at

abbrev pub is_by : Instant → ScheduleEntry → Bool
is_by before e = elim e.next_fire_at [ none ↦ false | some t ↦ leb t before ]

-- [e for e in es if p(e)]
unfoldable pub where_true : (ScheduleEntry → Bool) → List ScheduleEntry → List ScheduleEntry
where_true p [] = []
where_true p (e ∷ es) = let rest = where_true p es in if p e then e ∷ rest else rest

-- min(es, key=…): the first of the least rows.
unfoldable pub least : ScheduleEntry → List ScheduleEntry → ScheduleEntry
least e [] = e
least e (x ∷ xs) = least (if key_le e x then e else x) xs

unfoldable pub least_of : List ScheduleEntry → Option ScheduleEntry
least_of [] = none
least_of (e ∷ es) = some (least e es)

unfoldable pub next_due : Option Instant → Cache → Option ScheduleEntry
next_due before c =
    let candidates = where_true (is_candidate c) (values c.entries) in
    elim before [ none ↦ least_of candidates | some t ↦ least_of (where_true (is_by t) candidates) ]

-- sorted(es, key=…), which is stable.
unfoldable pub insert_row : ScheduleEntry → List ScheduleEntry → List ScheduleEntry
insert_row e [] = e ∷ []
insert_row e (x ∷ xs) = if key_le e x then e ∷ x ∷ xs else x ∷ insert_row e xs

unfoldable pub sorted : List ScheduleEntry → List ScheduleEntry
sorted [] = []
sorted (e ∷ es) = insert_row e (sorted es)

unfoldable pub all_due : Instant → Cache → List ScheduleEntry
all_due before c = sorted (where_true (λ e. is_candidate c e && is_by before e) (values c.entries))
