-- ===== src/Cache/Calls/Order.antt =====
-- storage/cache.py: the revisions of ids across ordered calls.
use z4j_scheduler.Cache.Invariant.Keep.{known-Agrees}
use z4j_scheduler.Prelude.{
  ℕ, ◌≤◌, ◌<◌, ◌≡◌, ap, sym, subst, ◌∙◌, Bool, true, List, [], ◌∷◌, Text, arith, All, is_some,
  ==_iff,
}
use z4j_scheduler.Dict.{get_or}
use z4j_scheduler.Dict.Laws.{get-put}
use z4j_scheduler.Entry.{Uuid, ScheduleEntry}
use z4j_scheduler.Cache.State.{Cache, Result, ok}
use z4j_scheduler.Cache.Watch.{
  known_revision, apply_watch_update_locked, apply_watch_update, apply_watch_updates, for_each,
}
use z4j_scheduler.Cache.Watch.Order.{watch_update_mono, stale_update}
use z4j_scheduler.Cache.Deletes.{apply_tombstone, pause_and_report}
use z4j_scheduler.Cache.Snapshot.{ScheduleSnapshot}
use z4j_scheduler.Cache.Invariant.{IsWellFormed}
use z4j_scheduler.Cache.Invariant.Deleting.{
  absent, tombstone_done, Keeps-apply_tombstone, pause_and_report-Agrees,
}
use z4j_scheduler.Cache.Calls.{Call, perform, perform-IsWellFormed, run}
use z4j_scheduler.Cache.Calls.Steps.{
  IsOrdered, for_each_mono, tombstone_mono, absence_mono, cursor_mono, quarantine_keeps_known,
  latch_keeps_known, release_keeps_known, fire_state_keeps_known, marked,
}

module _ (digest : ScheduleSnapshot → Text) where
  pub perform_mono :
      (call : Call) (c : Cache) (j : Uuid)
      → IsOrdered call
      → IsWellFormed c
      → known_revision c j ≤ known_revision (perform digest call c) j
  unfolding perform apply_watch_update apply_watch_updates
  perform_mono (Call.apply_watch_update e) c j o h =
      marked (apply_watch_update_locked e) c j (watch_update_mono c e j h)
  perform_mono (Call.apply_watch_updates []) c j o h = omega arith
  perform_mono (Call.apply_watch_updates (e ∷ es)) c j o h =
      marked (for_each apply_watch_update_locked (e ∷ es)) c j (for_each_mono (e ∷ es) c j h)
  perform_mono (Call.update_fire_state k last next b x) c j o h =
      omega (arith, fire_state_keeps_known c j k last next b x)
  perform_mono (Call.apply_cursor_transition k t) c j o h = cursor_mono k t c j h
  perform_mono (Call.quarantine_locally k x code detail) c j o h =
      omega (arith, quarantine_keeps_known c j k x code detail)
  perform_mono (Call.latch_current_stop k token refused) c j o h =
      omega (arith, latch_keeps_known c j k token refused)
  perform_mono (Call.release_current_stop k token) c j o h =
      omega (arith, release_keeps_known c j k token)
  perform_mono (Call.apply_tombstone k p revision) c j o h = tombstone_mono k p revision c j h
  perform_mono (Call.apply_observed_absence k p revision) c j o h = absence_mono k p revision c j h
  perform_mono _ c j o h = absurd o

  -- On a well-formed cache, any sequence of calls other than a bare upsert, a removal, a reset or a
  -- snapshot never lowers the known revision of any id.
  pub run_mono :
      (calls : List Call) (c : Cache) (j : Uuid)
      → All IsOrdered calls
      → IsWellFormed c
      → known_revision c j ≤ known_revision (run digest calls c) j
  unfolding run
  run_mono [] c j o h = omega arith
  run_mono (call ∷ calls) c j o h = omega (
    arith,
    perform_mono call c j o.0 h,
    run_mono calls (perform digest call c) j o.1 (perform-IsWellFormed digest call c h),
  )

  absent-known_self :
      (k p : Uuid) (revision : ℕ) (c : Cache) → known_revision (absent k p revision c) k ≡ revision
  unfolding known_revision get_or
  absent-known_self k p revision c = ground (arith, get-put c.id_revisions k k revision, ==_iff k k)

  -- After an ordered delete that returned `True` on a well-formed cache, and after any further
  -- calls other than a bare upsert, a removal, a reset or a snapshot, a Watch update of the deleted
  -- id with a control token and a revision below the delete's changes nothing.
  pub tombstone-final :
      (k p : Uuid) (revision : ℕ) (c c' : Cache) (calls : List Call) (e : ScheduleEntry)
      → IsWellFormed c
      → apply_tombstone k p revision c ≡ (c', ok true)
      → All IsOrdered calls
      → e.id ≡ k
      → is_some e.control_token ≡ true
      → e.schedule_revision < revision
      → (apply_watch_update_locked e (run digest calls c')).0 ≡ run digest calls c'
  tombstone-final k p revision c c' calls e h done ordered id token old =
      let landed : c' ≡ (pause_and_report p (absent k p revision c)).0 =
        ap (λ (r : Cache × Result Bool). r.0) (sym done ∙ tombstone_done k p revision c h done) in
      let known : known_revision c' k ≡ revision =
        ap (λ (x : Cache). known_revision x k) landed
        ∙ known-Agrees _ _ k (pause_and_report-Agrees p (absent k p revision c))
        ∙ absent-known_self k p revision c in
      let kept : IsWellFormed c' =
        subst IsWellFormed (ap (λ (r : Cache × Result Bool). r.0) done)
          ((Keeps-apply_tombstone k p revision).at c h) in
      stale_update (run digest calls c') e token
        (rw id (omega (arith, run_mono calls c' k ordered kept)))
