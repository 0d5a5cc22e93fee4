-- ===== src/Cache/Invariant/Advancing.antt =====
-- storage/cache.py: the well-formedness of a cache across a committed cursor.
use z4j_scheduler.Prelude.{
  ◌<◌, ◌≡◌, refl, ==_refl, ◌⊎◌, inl, inr, true, Option, none, some, arith, Option-cases, is_some,
}
use z4j_scheduler.Dict.{get, put}
use z4j_scheduler.Dict.Laws.{get-put}
use z4j_scheduler.Entry.{Uuid, ScheduleEntry, schedule_brain_payload}
use z4j_scheduler.Cache.State.{Cache, ok, set_changed}
use z4j_scheduler.Cache.Invariant.{IsWellFormed}
use z4j_scheduler.Cache.Invariant.Keep.{replace-IsCounted}
use z4j_scheduler.Cache.Invariant.Monad.{Keeps}
use z4j_scheduler.Cache.Watch.{well_shaped}
use z4j_scheduler.Cache.Latches.{token_is}
use z4j_scheduler.Cache.Cursor.{Transition, advance_row, apply_cursor_transition}

advance-well_shaped :
    (t : Transition) (e : ScheduleEntry)
    → well_shaped e ≡ true
    → is_some e.control_token ≡ true
    → 0 < t.committed_revision
    → well_shaped (advance_row t e) ≡ true
unfolding well_shaped advance_row
advance-well_shaped t e shape token pos = ground arith

-- The cache after a transition that was accepted.
abbrev pub advanced : Uuid → Transition → ScheduleEntry → Cache → Cache
advanced k t e c = set_changed (record c {
  entries = put c.entries k (advance_row t e);
  id_revisions = put c.id_revisions k t.committed_revision;
  brain_payloads = put c.brain_payloads k (schedule_brain_payload (advance_row t e));
})

advanced-IsWellFormed :
    (k : Uuid) (t : Transition) (e : ScheduleEntry) (c : Cache)
    → IsWellFormed c
    → get c.entries k ≡ some e
    → is_some e.control_token ≡ true
    → 0 < t.committed_revision
    → IsWellFormed (advanced k t e c)
unfolding advance_row
advanced-IsWellFormed k t e c h at token pos = record {
  counted = replace-IsCounted c.entries c.project_counts k e (advance_row t e) h.counted at refl;
  rows = λ j x found. ground (
    arith,
    get-put c.entries k j (advance_row t e),
    get-put c.id_revisions k j t.committed_revision,
    get-put c.brain_payloads k j (schedule_brain_payload (advance_row t e)),
    h.rows k e,
    h.rows j x,
    advance-well_shaped t e,
  );
}

pub token_is-some :
    (token : Option Uuid) (t : Uuid) → token_is token t ≡ true → is_some token ≡ true
token_is-some none t h = cc
token_is-some (some s) t h = refl

-- On a cached row a transition leaves the cache alone, or is the accepted one.
pub transition_outcome :
    (k : Uuid) (t : Transition) (c : Cache) (e : ScheduleEntry)
    → get c.entries k ≡ some e
    → ((apply_cursor_transition k t c).0 ≡ c)
      ⊎ (((apply_cursor_transition k t c) ≡ (advanced k t e c, ok true))
          × (token_is e.control_token t.expected_control_token ≡ true)
          × (e.schedule_revision ≡ t.expected_revision)
          × (t.expected_revision < t.committed_revision))
unfolding apply_cursor_transition
transition_outcome k t c e at = ground arith

transition_stale :
    (k : Uuid) (t : Transition) (c : Cache) (e : ScheduleEntry)
    → get c.entries k ≡ some e
    → t.expected_revision < e.schedule_revision
    → (apply_cursor_transition k t c).0 ≡ c
transition_stale k t c e at late = elim (transition_outcome k t c e at) [
  | inl kept ↦ kept
  | inr (_, _, same, _) ↦ absurd (omega arith)
]

-- Of two cursor transitions of one cached row that expect the same revision, one directly after the
-- other and whatever else they expect and commit, at most one changes the cache.
pub transition_once :
    (k : Uuid) (t t' : Transition) (c : Cache) (e : ScheduleEntry)
    → get c.entries k ≡ some e
    → t'.expected_revision ≡ t.expected_revision
    → ((apply_cursor_transition k t c).0 ≡ c)
      ⊎ ((apply_cursor_transition k t' (apply_cursor_transition k t c).0).0
          ≡ (apply_cursor_transition k t c).0)
unfolding advance_row
transition_once k t t' c e at same = elim (transition_outcome k t c e at) [
  | inl kept ↦ inl kept
  | inr (done, _, _, more) ↦ inr (
      rw done (
        transition_stale k t' (advanced k t e c) (advance_row t e)
          (rw (get-put c.entries k k (advance_row t e), ==_refl k) refl) (omega arith)))
]

pub transition_absent :
    (k : Uuid) (t : Transition) (c : Cache)
    → get c.entries k ≡ none
    → (apply_cursor_transition k t c).0 ≡ c
unfolding apply_cursor_transition
transition_absent k t c gone = ground arith

pub Keeps-apply_cursor_transition :
    (k : Uuid) (t : Transition) → Keeps (apply_cursor_transition k t)
Keeps-apply_cursor_transition k t = record {
  at = λ c h. elim (Option-cases (get c.entries k)) [
    | inl gone ↦ rw (transition_absent k t c gone) h
    | inr (e, at) ↦ elim (transition_outcome k t c e at) [
      | inl kept ↦ rw kept h
      | inr (done, ours, _, more) ↦
          rw done (
            advanced-IsWellFormed k t e c h at (token_is-some e.control_token _ ours) (omega arith))
    ]
  ];
}
