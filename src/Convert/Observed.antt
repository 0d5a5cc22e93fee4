-- ===== src/Convert/Observed.antt =====
-- storage/_convert.py: what a decoded state and a decoded Watch frame say.
use z4j_scheduler.Prelude.{
  ℕ, ◌≤◌, ◌<◌, ◌≡◌, refl, subst, true, Option, none, some, ◌==◌, ◌&&◌, leb, ltb, arith,
}
use z4j_scheduler.Entry.{Uuid, ScheduleEntry}
use z4j_scheduler.Cache.Watch.{well_shaped}
use z4j_scheduler.Quarantine.{ScheduleStateObservation}
use z4j_scheduler.Convert.{Codec, Decoded, decoded, bad, uuid, entry_from_pb, ◌>>=◌}
use z4j_scheduler.Convert.Messages.{
  StateBody, no_state, row_state, absence_state, StateMessage, state_from, schedule_state_from_pb,
}
use z4j_scheduler.Convert.Shaped.{
  OnDecoded, bind-OnDecoded, require-OnDecoded, Shaped, decoded-Shaped,
}

-- The row of an observation.
abbrev pub RowIs : Uuid → Uuid → Option ScheduleEntry → Type 0
RowIs project id none = Unit
RowIs project id (some e) = (e.project_id ≡ project) × (e.id ≡ id) × (well_shaped e ≡ true)

pub record IsObserved (project id minimum : ℕ) (o : ScheduleStateObservation) : Type 0 where
  pub of_project : o.project_id ≡ project
  pub of_schedule : o.schedule_id ≡ id
  pub recent : minimum ≤ o.observed_revision
  pub positive : 0 < o.observed_revision
  pub row : RowIs project id o.schedule

-- A step that decodes with a property goes on with it.
with-OnDecoded :
    {A B : Type 0} (Q : A → Type 0) (P : B → Type 0) (x : Decoded A) (f : A → Decoded B)
    → OnDecoded Q x
    → ((a : A) → Q a → OnDecoded P (f a))
    → OnDecoded P (x >>= f)
unfolding ◌>>=◌
with-OnDecoded Q P (decoded a) f q h = h a q
with-OnDecoded Q P (bad e) f q h = tt

state_from-Observed :
    (w : Codec) (project id minimum n : ℕ) (b : StateBody)
    → minimum ≤ n
    → 0 < n
    → OnDecoded (IsObserved project id minimum) (state_from w project id n b)
unfolding state_from
state_from-Observed w project id minimum n no_state l z = tt
state_from-Observed w project id minimum n (row_state m) l z =
    with-OnDecoded Shaped (IsObserved project id minimum) (entry_from_pb w m) _ (decoded-Shaped w m)
      (λ e s.
        require-OnDecoded (IsObserved project id minimum) (e.project_id == project && e.id == id) _
          _
          (λ q. record {
            of_project = refl;
            of_schedule = refl;
            recent = l;
            positive = z;
            row = (ground (arith, q), ground (arith, q), s);
          }))
state_from-Observed w project id minimum n (absence_state p s) l z =
    bind-OnDecoded (IsObserved project id minimum) (uuid w p) _ (λ p.
      bind-OnDecoded (IsObserved project id minimum) (uuid w s) _ (λ s.
        require-OnDecoded (IsObserved project id minimum) (p == project && s == id) _ _ (λ q.
          record {
            of_project = ground (arith, q);
            of_schedule = ground (arith, q);
            recent = l;
            positive = z;
            row = tt;
          })))

decoded-Observed :
    (w : Codec) (project id minimum : ℕ) (m : StateMessage)
    → OnDecoded (IsObserved project id minimum) (schedule_state_from_pb w project id minimum m)
unfolding schedule_state_from_pb
decoded-Observed w project id minimum m =
    require-OnDecoded (IsObserved project id minimum)
      (leb minimum m.observed_revision && ltb 0 m.observed_revision) _ _
      (λ q.
        state_from-Observed w project id minimum m.observed_revision m.state (ground (arith, q))
          (ground (arith, q)))

-- A schedule state that decodes is of the project and the schedule that were asked for, at a
-- positive revision that is at least the minimum, and its row, if it has one, has these ids and
-- protocol fields that the cache's check lets pass.
pub schedule_state-IsObserved :
    (w : Codec) (project id minimum : ℕ) (m : StateMessage) (o : ScheduleStateObservation)
    → schedule_state_from_pb w project id minimum m ≡ decoded o
    → IsObserved project id minimum o
schedule_state-IsObserved w project id minimum m o h =
    subst (OnDecoded (IsObserved project id minimum)) h (decoded-Observed w project id minimum m)
