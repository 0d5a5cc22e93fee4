-- ===== src/Cache/Watch/Install.antt =====
-- storage/cache.py: what storing a Brain row does to the cache.
use z4j_scheduler.Prelude.{
  ◌≡◌, refl, sym, subst, ap, ◌∙◌, Bool, true, false, Option, some, is_some, ◌==◌, if◌then◌else◌,
  Bool-cases, inl, inr, arith,
}
use z4j_scheduler.Dict.{Dict, get, put}
use z4j_scheduler.Dict.Laws.{get-put}
use z4j_scheduler.Entry.{Uuid, ScheduleEntry, BrainPayload}
use z4j_scheduler.Cache.State.{Cache, ok}
use z4j_scheduler.Cache.Rows.{store_entry_locked}
use z4j_scheduler.Cache.Rows.Counts.{IsCounted, counts_with, store-eq, store-IsCounted}
use z4j_scheduler.Cache.Latches.{apply_local_quarantine_locked, apply_current_stop_locked}
use z4j_scheduler.Cache.Watch.{remember, install_row, well_shaped}
use z4j_scheduler.Cache.Invariant.{IsWellFormed, IsSent, lasting, payload_lasting}

pub local_quarantine-eq :
    (e : ScheduleEntry) (c : Cache)
    → apply_local_quarantine_locked e c ≡ (
      record c { local_quarantines = (apply_local_quarantine_locked e c).0.local_quarantines },
      record e { is_enabled = (apply_local_quarantine_locked e c).1.is_enabled },
    )
unfolding apply_local_quarantine_locked
local_quarantine-eq e c = ground arith

current_stop-eq :
    (e : ScheduleEntry) (c : Cache)
    → apply_current_stop_locked e c ≡ (
      record c { current_stop_latches = (apply_current_stop_locked e c).0.current_stop_latches },
      record e { is_enabled = (apply_current_stop_locked e c).1.is_enabled },
    )
unfolding apply_current_stop_locked
current_stop-eq e c = ground arith

pub well_shaped-enabled :
    (e : ScheduleEntry) (b : Bool) → well_shaped (record e { is_enabled = b }) ≡ well_shaped e
unfolding well_shaped
well_shaped-enabled e b = refl

-- A current row is stored with its payload.
stored-IsSent :
    (d : Dict BrainPayload) (p : BrainPayload) (e x : ScheduleEntry) (k : Uuid) (b : Bool)
    (o : Option ScheduleEntry)
    → (e.id == k) ≡ b
    → payload_lasting p ≡ lasting e
    → (o ≡ some x → IsSent d k x)
    → (if b then some e else o) ≡ some x
    → IsSent (if is_some e.control_token then put d e.id p else d) k x
stored-IsSent d p e x k true o same sent old found current =
    let stored : e ≡ x = cc in
    let mine : is_some e.control_token ≡ true =
      subst (λ (y : ScheduleEntry). is_some y.control_token ≡ true) (sym stored) current in
    rw (mine, get-put d e.id k p, same) (ap some (sent ∙ ap lasting stored))
stored-IsSent d p e x k false o other sent old found current =
    elim (Bool-cases (is_some e.control_token)) [
      | inl mine ↦ rw (mine, get-put d e.id k p, other) (old found current)
      | inr legacy ↦ rw legacy (old found current)
    ]

module _ (p : BrainPayload) (e : ScheduleEntry) (c : Cache) where
  abbrev quarantined : Cache × ScheduleEntry
  quarantined = apply_local_quarantine_locked e (remember p e c)

  abbrev stopped : Cache × ScheduleEntry
  stopped = apply_current_stop_locked quarantined.1 quarantined.0

  -- The row as it is stored: only its enabled value can differ from the row that was sent.
  abbrev pub clamped : ScheduleEntry
  clamped = record e { is_enabled = stopped.1.is_enabled }

  -- The cache before the row is stored: the evidence and the latches.
  abbrev pub latched : Cache
  latched = record (remember p e c) {
    local_quarantines = quarantined.0.local_quarantines;
    current_stop_latches = stopped.0.current_stop_latches;
  }

  stopped-eq : stopped ≡ (latched, clamped)
  stopped-eq =
      cc (local_quarantine-eq e (remember p e c), current_stop-eq quarantined.1 quarantined.0)

  pub install-eq-store : install_row p e c ≡ store_entry_locked clamped latched
  unfolding install_row
  install-eq-store = ap (λ (r : Cache × ScheduleEntry). store_entry_locked r.1 r.0) stopped-eq

  -- Everything that storing a row does.
  pub install-eq :
      IsCounted c.entries c.project_counts
      → install_row p e c ≡ (
        record latched {
          entries = put c.entries e.id clamped;
          project_counts = counts_with clamped latched;
        },
        ok tt,
      )
  unfolding remember
  install-eq h = install-eq-store ∙ store-eq latched h clamped

  install-IsCounted :
      IsCounted c.entries c.project_counts
      → IsCounted (put c.entries e.id clamped) (counts_with clamped latched)
  unfolding remember
  install-IsCounted h = store-IsCounted latched h clamped

  -- Storing a row that went through the checks keeps the cache well formed.
  pub install-IsWellFormed :
      IsWellFormed c
      → well_shaped e ≡ true
      → payload_lasting p ≡ lasting e
      → IsWellFormed (install_row p e c).0
  unfolding remember
  install-IsWellFormed h shape sent = rw (install-eq h.counted) (record {
    counted = install-IsCounted h.counted;
    rows = λ k x at. record {
      keyed = ground (arith, get-put c.entries e.id k clamped, h.rows k x);
      shaped = ground (
        arith,
        get-put c.entries e.id k clamped,
        well_shaped-enabled e clamped.is_enabled,
        h.rows k x,
      );
      revised = ground (
        arith,
        get-put c.entries e.id k clamped,
        get-put c.id_revisions e.id k e.schedule_revision,
        h.rows k x,
      );
      placed = ground (
        arith,
        get-put c.entries e.id k clamped,
        get-put c.id_projects e.id k e.project_id,
        h.rows k x,
      );
      sent =
          stored-IsSent c.brain_payloads p clamped x k (e.id == k) (get c.entries k) refl sent
            (λ old. (h.rows k x old).sent) (sym (get-put c.entries e.id k clamped) ∙ at);
    };
  })
