-- ===== src/Cache/Calls/Steps.antt =====
-- storage/cache.py: what each ordered call does to the known revisions.
use z4j_scheduler.Prelude.{
  ℕ, ◌≤◌, ◌<◌, ◌≡◌, Bool, true, Option, some, List, [], ◌∷◌, Text, arith, inl, inr, is_some,
  Option-cases, ==_iff,
}
use z4j_scheduler.Dict.{get, get_or}
use z4j_scheduler.Dict.Laws.{get-put}
use z4j_scheduler.Entry.{Uuid, Instant, ScheduleEntry}
use z4j_scheduler.Cache.State.{Cache, Result, Method, ok, raise, ◌>>=◌, ◌>>◌}
use z4j_scheduler.Cache.Latches.{
  quarantine_locally, latch_current_stop, release_current_stop, update_fire_state,
}
use z4j_scheduler.Cache.Watch.{known_revision, apply_watch_update_locked, for_each, mark_changed}
use z4j_scheduler.Cache.Watch.Order.{watch_update_mono}
use z4j_scheduler.Cache.Cursor.{Transition, apply_cursor_transition}
use z4j_scheduler.Cache.Deletes.{apply_tombstone, apply_observed_absence}
use z4j_scheduler.Cache.Invariant.{IsWellFormed}
use z4j_scheduler.Cache.Invariant.Keep.{known-Agrees}
use z4j_scheduler.Cache.Invariant.Merging.{Keeps-apply_watch_update_locked}
use z4j_scheduler.Cache.Invariant.Advancing.{
  advanced, token_is-some, transition_outcome, transition_absent,
}
use z4j_scheduler.Cache.Invariant.Deleting.{
  absent, tombstone_outcome, absence_outcome, pause_and_report-Agrees,
}
use z4j_scheduler.Cache.Calls.{Call}

-- Calls that keep the evidence of every id: all but a bare upsert, a removal, a reset and the
-- compaction of a snapshot.
abbrev pub IsOrdered : Call → Type 0
IsOrdered (Call.upsert e) = ⊥
IsOrdered (Call.upsert_many es) = ⊥
IsOrdered (Call.remove k) = ⊥
IsOrdered Call.clear = ⊥
IsOrdered (Call.apply_completed_snapshot s) = ⊥
IsOrdered _ = Unit

pub for_each_mono :
    (es : List ScheduleEntry) (c : Cache) (k : Uuid)
    → IsWellFormed c
    → known_revision c k ≤ known_revision (for_each apply_watch_update_locked es c).0 k
unfolding for_each
for_each_mono [] c k h = omega arith
for_each_mono (e ∷ es) c k h = go (apply_watch_update_locked e c).1 (watch_update_mono c e k h) (
    for_each_mono es (apply_watch_update_locked e c).0 k
      ((Keeps-apply_watch_update_locked e).at c h))
  where
    go :
        (r : Result Unit)
        → known_revision c k ≤ known_revision (apply_watch_update_locked e c).0 k
        → known_revision (apply_watch_update_locked e c).0 k
          ≤ known_revision
              (for_each apply_watch_update_locked es (apply_watch_update_locked e c).0).0
              k
        → known_revision c k
          ≤ known_revision
              (◌>>=◌
                (λ _. ((apply_watch_update_locked e c).0, r))
                (λ _. for_each apply_watch_update_locked es)
                c).0
              k
    go (ok a) one more = omega arith
    go (raise x) one more = one

absent-known :
    (k p : Uuid) (revision : ℕ) (c : Cache) (j : Uuid)
    → known_revision c k < revision
    → known_revision c j ≤ known_revision (absent k p revision c) j
unfolding known_revision get_or
absent-known k p revision c j more = ground (arith, get-put c.id_revisions k j revision, ==_iff k j)

pub tombstone_mono :
    (k p : Uuid) (revision : ℕ) (c : Cache) (j : Uuid)
    → IsWellFormed c
    → known_revision c j ≤ known_revision (apply_tombstone k p revision c).0 j
tombstone_mono k p revision c j h = elim (tombstone_outcome k p revision c h) [
  | inl kept ↦ rw kept (omega arith)
  | inr (done, more) ↦
      rw (done, known-Agrees _ _ j (pause_and_report-Agrees p (absent k p revision c)))
        (absent-known k p revision c j more)
]

pub absence_mono :
    (k p : Uuid) (observed : ℕ) (c : Cache) (j : Uuid)
    → IsWellFormed c
    → known_revision c j ≤ known_revision (apply_observed_absence k p observed c).0 j
unfolding known_revision get_or
absence_mono k p observed c j h = elim (absence_outcome k p observed c h) [
  | inl kept ↦ rw kept (omega arith)
  | inr (done, more) ↦ rw done (absent-known k p observed c j more)
]

advanced-known :
    (k : Uuid) (t : Transition) (e : ScheduleEntry) (c : Cache) (j : Uuid)
    → known_revision c k < t.committed_revision
    → known_revision c j ≤ known_revision (advanced k t e c) j
unfolding known_revision get_or
advanced-known k t e c j more =
    ground (arith, get-put c.id_revisions k j t.committed_revision, ==_iff k j)

-- A row of the current protocol stands at the known revision of its id.
pub known-held :
    (c : Cache) (k : Uuid) (e : ScheduleEntry)
    → IsWellFormed c
    → get c.entries k ≡ some e
    → is_some e.control_token ≡ true
    → known_revision c k ≡ e.schedule_revision
unfolding known_revision get_or
known-held c k e h at token = ground (arith, (h.rows k e at).revised token)

pub cursor_mono :
    (k : Uuid) (t : Transition) (c : Cache) (j : Uuid)
    → IsWellFormed c
    → known_revision c j ≤ known_revision (apply_cursor_transition k t c).0 j
cursor_mono k t c j h = elim (Option-cases (get c.entries k)) [
  | inl gone ↦ rw (transition_absent k t c gone) (omega arith)
  | inr (e, at) ↦ elim (transition_outcome k t c e at) [
    | inl kept ↦ rw kept (omega arith)
    | inr (done, ours, same, more) ↦ rw done (
        advanced-known k t e c j
          (omega (arith, known-held c k e h at (token_is-some e.control_token _ ours))))
  ]
]

pub quarantine_keeps_known :
    (c : Cache) (j k : Uuid) (x : ScheduleEntry) (code detail : Text)
    → known_revision (quarantine_locally k x code detail c).0 j ≡ known_revision c j
unfolding known_revision get_or quarantine_locally
quarantine_keeps_known c j k x code detail = ground arith

pub latch_keeps_known :
    (c : Cache) (j k token : Uuid) (refused : ℕ)
    → known_revision (latch_current_stop k token refused c).0 j ≡ known_revision c j
unfolding known_revision get_or latch_current_stop
latch_keeps_known c j k token refused = ground arith

pub release_keeps_known :
    (c : Cache) (j k token : Uuid)
    → known_revision (release_current_stop k token c).0 j ≡ known_revision c j
unfolding known_revision get_or release_current_stop
release_keeps_known c j k token = ground arith

pub fire_state_keeps_known :
    (c : Cache) (j k : Uuid) (last next : Option (Option Instant)) (b : Option Bool)
    (x : Option ScheduleEntry)
    → known_revision (update_fire_state k last next b x c).0 j ≡ known_revision c j
unfolding known_revision get_or update_fire_state
fire_state_keeps_known c j k last next b x = ground arith

pub marked :
    (m : Method Unit) (c : Cache) (j : Uuid)
    → known_revision c j ≤ known_revision (m c).0 j
    → known_revision c j ≤ known_revision ((m >> mark_changed) c).0 j
unfolding known_revision get_or
marked m c j h = ground arith
