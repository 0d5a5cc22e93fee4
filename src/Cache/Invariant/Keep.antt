-- ===== src/Cache/Invariant/Keep.antt =====
-- storage/cache.py: writes to the fields of a cache and its well-formedness.
use z4j_scheduler.Cache.Watch.{known_revision}
use z4j_scheduler.Prelude.{
  ℕ, ◌≡◌, ◌∙◌, refl, sym, subst, ap, Bool, true, false, Option, some, is_some, arith, ◌==◌, ==_iff,
  if◌then◌else◌,
}
use z4j_scheduler.Dict.{Dict, get, put, pop}
use z4j_scheduler.Dict.Laws.{get-put, get-pop}
use z4j_scheduler.Dict.Distinct.{put-Distinct, tally-put}
use z4j_scheduler.Entry.{Uuid, ScheduleEntry, BrainPayload}
use z4j_scheduler.Cache.State.{Cache}
use z4j_scheduler.Cache.Rows.Counts.{IsCounted, in_project, counts_without, remove-IsCounted}
use z4j_scheduler.Cache.Watch.{well_shaped}
use z4j_scheduler.Cache.Invariant.{IsWellFormed, IsSent, Lasting, lasting, sent_lasting}

-- Two caches with the same rows, counts and evidence.
pub record Agrees (c c' : Cache) : Type 0 where
  pub entries : c'.entries ≡ c.entries
  pub project_counts : c'.project_counts ≡ c.project_counts
  pub brain_payloads : c'.brain_payloads ≡ c.brain_payloads
  pub id_revisions : c'.id_revisions ≡ c.id_revisions
  pub id_projects : c'.id_projects ≡ c.id_projects

pub Agrees-IsWellFormed : (c c' : Cache) → Agrees c c' → IsWellFormed c → IsWellFormed c'
Agrees-IsWellFormed c c' a h = record {
  counted = rw (a.entries, a.project_counts) h.counted;
  rows = λ k e at. ground (arith, h.rows k e);
}

-- A row that takes the place of one of the same project leaves the counts as they are.
pub replace-IsCounted :
    (d : Dict ScheduleEntry) (n : Dict ℕ) (k : Uuid) (e e' : ScheduleEntry)
    → IsCounted d n
    → get d k ≡ some e
    → e'.project_id ≡ e.project_id
    → IsCounted (put d k e') n
replace-IsCounted d n k e e' h at same = record {
  distinct = put-Distinct d k e' h.distinct;
  counted = λ p. ground (arith, h.counted p, tally-put (in_project p) d k e');
}

-- What a row may not change when it is written in place.
pub record SameRow (e e' : ScheduleEntry) : Type 0 where
  pub id : e'.id ≡ e.id
  pub project_id : e'.project_id ≡ e.project_id
  pub control_token : e'.control_token ≡ e.control_token
  pub schedule_revision : e'.schedule_revision ≡ e.schedule_revision
  pub shaped : well_shaped e' ≡ well_shaped e
  pub kept : lasting e' ≡ lasting e

replaced-IsSent :
    (d : Dict BrainPayload) (k j : Uuid) (e e' x : ScheduleEntry) (b : Bool)
    → (k == j) ≡ b
    → lasting e' ≡ lasting e
    → IsSent d k e
    → (get_x : Option ScheduleEntry) → (get_x ≡ some x → IsSent d j x)
    → (if b then some e' else get_x) ≡ some x
    → IsSent d j x
replaced-IsSent d k j e e' x true same kept sent o old found current =
    let here : k ≡ j = (==_iff k j).0 same in
    let stored : e' ≡ x = cc in
    let token : x.control_token ≡ e.control_token =
      ap (λ (y : ScheduleEntry). y.control_token) (sym stored) ∙ ap (λ (l : Lasting). l.8) kept in
    ap (λ i. sent_lasting (get d i)) (sym here)
    ∙ sent (subst (λ t. is_some t ≡ true) token current)
    ∙ ap some (sym kept ∙ ap lasting stored)
replaced-IsSent d k j e e' x false other kept sent o old found current = old found current

pub replace-IsWellFormed :
    (c : Cache) (k : Uuid) (e e' : ScheduleEntry)
    → IsWellFormed c
    → get c.entries k ≡ some e
    → SameRow e e'
    → IsWellFormed (record c { entries = put c.entries k e' })
replace-IsWellFormed c k e e' h at same = record {
  counted = replace-IsCounted c.entries c.project_counts k e e' h.counted at same.project_id;
  rows = λ j x found. record {
    keyed = ground (arith, get-put c.entries k j e', h.rows k e at, h.rows j x);
    shaped = ground (arith, get-put c.entries k j e', h.rows k e at, h.rows j x);
    revised = ground (arith, get-put c.entries k j e', h.rows k e at, h.rows j x);
    placed = ground (arith, get-put c.entries k j e', h.rows k e at, h.rows j x);
    sent =
        replaced-IsSent c.brain_payloads k j e e' x (k == j) refl same.kept (h.rows k e at).sent
          (get c.entries j) (λ old. (h.rows j x old).sent) (sym (get-put c.entries k j e') ∙ found);
  };
}

-- The evidence of every other id is left alone.
pub record SameElsewhere (k : Uuid) (c c' : Cache) : Type 0 where
  pub revisions : (j : Uuid) → (k == j) ≡ false → get c'.id_revisions j ≡ get c.id_revisions j
  pub projects : (j : Uuid) → (k == j) ≡ false → get c'.id_projects j ≡ get c.id_projects j
  pub payloads : (j : Uuid) → (k == j) ≡ false → get c'.brain_payloads j ≡ get c.brain_payloads j

pub removed-IsWellFormed :
    (c c' : Cache) (k : Uuid)
    → IsWellFormed c
    → c'.entries ≡ pop c.entries k
    → c'.project_counts ≡ counts_without k c
    → SameElsewhere k c c'
    → IsWellFormed c'
removed-IsWellFormed c c' k h gone counts same = record {
  counted = rw (gone, counts) (remove-IsCounted c h.counted k);
  rows = λ j x at. ground (
    arith,
    ap (λ (d : Dict ScheduleEntry). get d j) gone,
    get-pop c.entries k j,
    h.rows j x,
    same.revisions j,
    same.projects j,
    same.payloads j,
  );
}

pub known-Agrees :
    (c c' : Cache) (k : Uuid) → Agrees c c' → known_revision c' k ≡ known_revision c k
unfolding known_revision
known-Agrees c c' k a = rw (a.id_revisions)
