-- ===== src/SnapshotWire/Assembled.antt =====
-- storage/_snapshot_wire.py: what an assembled snapshot has been checked for.
use z4j_scheduler.Prelude.{
  ◌≡◌, ◌≢◌, arith, refl, ap, sym, ◌∙◌, subst, true, false, not, Option, none, some, List, [], ◌∷◌,
  Text, text_eq, length, All, ◌==◌, is_some,
}
use z4j_scheduler.Dict.{Set, add, contains}
use z4j_scheduler.Entry.{Uuid, ScheduleEntry}
use z4j_scheduler.Cache.State.{snapshot_escaped, snapshot_duplicate}
use z4j_scheduler.Cache.Snapshot.{frame_fault, in_scope, ScheduleSnapshot, row_ids}
use z4j_scheduler.SnapshotWire.{
  candidate, ◌>>=◌, row_escaped, duplicate_id, complete_changed_project, row_count_mismatch,
  digest_mismatch, after_completion, malformed_row, ended_early, SnapshotAssembler, SnapshotFrame,
  ScheduleSnapshotComplete, header, row, complete, unknown, Check, pass, fail, new_assembler,
  scope_eq, allows, accept_entry, accept_candidate, accept_header, accept_row, accept_complete,
  accept, accept_all, finish, assemble,
}
use z4j_scheduler.SnapshotWire.Buffer.{
  Fresh, Fresh-append, row_ids-append, allowed-append, IsChecked, IsDone, IsBuffer, scope_eq-eq,
  Passes, Passes-if, Passes-bind, pass-injective, Passes-then, of_not,
}

allows-in_scope :
    (s : ScheduleSnapshot) (p : Option Uuid) (q : Uuid)
    → s.project_id ≡ p
    → allows p q ≡ true
    → in_scope s q ≡ true
allows-in_scope s none q h k = ground (arith, h)
allows-in_scope s (some p) q h k = ground (arith, h, k)

no_fault :
    (s : ScheduleSnapshot) (p : Option Uuid) (seen : Set) (es : List ScheduleEntry)
    → s.project_id ≡ p
    → All (λ x. allows p x.project_id ≡ true) es
    → Fresh seen es
    → (frame_fault s seen es ≢ some snapshot_escaped)
      × (frame_fault s seen es ≢ some snapshot_duplicate)
unfolding frame_fault Fresh
no_fault s p seen [] h k fresh = (λ e. cc, λ e. cc)
no_fault s p seen (x ∷ xs) h k fresh = ground (
  arith,
  allows-in_scope s p x.project_id h k.0,
  fresh.0,
  no_fault s p (add seen x.id) xs h k.1 fresh.1,
)

module _ {W : Type 0} (uuid_of : Text → Option Uuid) (entry_from_pb : W → Option ScheduleEntry)
    (digest : ScheduleSnapshot → Text) (p : Option Uuid) where
  entry_buffered :
      (e : ScheduleEntry) (a : SnapshotAssembler)
      → IsBuffer digest p a
      → Passes (IsBuffer digest p) (accept_entry uuid_of entry_from_pb digest e a)
  unfolding accept_entry
  entry_buffered e a h =
      Passes-if (IsBuffer digest p) (not (allows a.expected_project_id e.project_id)) row_escaped _
        (λ here. Passes-if (IsBuffer digest p) (contains a.seen_ids e.id) duplicate_id _ (λ new.
          record {
            expected = h.expected;
            seen = ap (λ seen. add seen e.id) h.seen ∙ sym (row_ids-append [] a.rows e);
            allowed =
                allowed-append p a.rows e h.allowed
                  (subst (λ q. allows q e.project_id ≡ true) h.expected (of_not _ here));
            fresh =
                Fresh-append [] a.rows e h.fresh
                  (subst (λ seen. contains seen e.id ≡ false) h.seen new);
            done = h.done;
          }))

  candidate_buffered :
      (m : ScheduleSnapshotComplete) (u : Uuid) (q : Option Uuid) (a : SnapshotAssembler)
      → IsBuffer digest p a
      → Passes (IsBuffer digest p) (accept_candidate uuid_of entry_from_pb digest m u q a)
  unfolding accept_candidate
  candidate_buffered m u q a h =
      Passes-if (IsBuffer digest p) (not (scope_eq q a.expected_project_id))
        complete_changed_project _
        (λ here.
          Passes-if (IsBuffer digest p) (not (m.row_count == length a.rows)) row_count_mismatch _
            (λ _.
              Passes-if (IsBuffer digest p) (not (text_eq m.digest (digest (candidate m u q a))))
                digest_mismatch (pass (record a { complete = some (candidate m u q a) }))
                (λ same. record {
                  expected = h.expected;
                  seen = h.seen;
                  allowed = h.allowed;
                  fresh = h.fresh;
                  done = record {
                    scoped = scope_eq-eq q a.expected_project_id (of_not _ here) ∙ h.expected;
                    digested = of_not _ same;
                    allowed = h.allowed;
                    fresh = h.fresh;
                  };
                })))

  accept_buffered :
      (f : SnapshotFrame W) (a : SnapshotAssembler)
      → IsBuffer digest p a
      → Passes (IsBuffer digest p) (accept uuid_of entry_from_pb digest f a)
  unfolding accept accept_header accept_row accept_complete
  accept_buffered (header m) a h =
      Passes-if (IsBuffer digest p) (is_some a.complete) after_completion _ (λ _.
        Passes-bind (IsBuffer digest p) _ _ (λ _. Passes-bind (IsBuffer digest p) _ _ (λ _.
          Passes-bind (IsBuffer digest p) _ _ (λ u. Passes-bind (IsBuffer digest p) _ _ (λ q.
            Passes-bind (IsBuffer digest p) _ (λ _. pass (record a { snapshot_id = some u }))
              (λ _. record {
                expected = h.expected;
                seen = h.seen;
                allowed = h.allowed;
                fresh = h.fresh;
                done = h.done;
              }))))))
  accept_buffered (row m) a h =
      Passes-if (IsBuffer digest p) (is_some a.complete) after_completion _
        (λ _. Passes-bind (IsBuffer digest p) _ _ (λ _. converted (entry_from_pb m.schedule)))
    where
      converted :
          (o : Option ScheduleEntry)
          → Passes (IsBuffer digest p) (elim o [
            | none ↦ fail malformed_row
            | some e ↦ accept_entry uuid_of entry_from_pb digest e a
          ])
      converted none = tt
      converted (some e) = entry_buffered e a h
  accept_buffered (complete m) a h =
      Passes-if (IsBuffer digest p) (is_some a.complete) after_completion _ (λ _.
        Passes-bind (IsBuffer digest p) _ _ (λ _. Passes-bind (IsBuffer digest p) _ _ (λ _.
          Passes-bind (IsBuffer digest p) _ _
            (λ u. Passes-bind (IsBuffer digest p) _ _ (λ q. candidate_buffered m u q a h)))))
  accept_buffered unknown a h =
      Passes-if (IsBuffer digest p) (is_some a.complete) after_completion _ (λ _. tt)

  all_buffered :
      (fs : List (SnapshotFrame W)) (a : SnapshotAssembler)
      → IsBuffer digest p a
      → Passes (IsBuffer digest p) (accept_all uuid_of entry_from_pb digest fs a)
  unfolding accept_all
  all_buffered [] a h = h
  all_buffered (f ∷ fs) a h =
      Passes-then (IsBuffer digest p) (accept uuid_of entry_from_pb digest f a) _
        (accept_buffered f a h) (all_buffered fs)

  finished :
      (r : Check SnapshotAssembler) (s : ScheduleSnapshot)
      → Passes (IsBuffer digest p) r
      → (r >>= finish uuid_of entry_from_pb digest) ≡ pass s
      → IsChecked digest p s
  unfolding finish ◌>>=◌
  finished (fail e) s h k = cc
  finished (pass a) s h k = ended a.complete h.done k
    where
      ended :
          (o : Option ScheduleSnapshot)
          → IsDone digest p o
          → elim o as (λ _. Check ScheduleSnapshot) [ none ↦ fail ended_early | some s ↦ pass s ]
            ≡ pass s
          → IsChecked digest p s
      ended none h k = cc
      ended (some t) h k = subst (IsChecked digest p) (pass-injective k) h

  -- Every snapshot that comes out of an assembler has gone through its checks.
  assemble-IsChecked :
      (fs : List (SnapshotFrame W)) (s : ScheduleSnapshot)
      → assemble uuid_of entry_from_pb digest p fs ≡ pass s
      → IsChecked digest p s
  unfolding assemble Fresh row_ids
  assemble-IsChecked fs s done =
      finished (accept_all uuid_of entry_from_pb digest fs (new_assembler p)) s
        (all_buffered fs (new_assembler p)
          (record { expected = refl; seen = refl; allowed = tt; fresh = tt; done = tt }))
        done

  -- A snapshot that the frames of a stream assemble to has the requested scope and a matching
  -- digest, and the cache's checks for a row outside its scope and for a duplicate id find no fault
  -- in it, whatever the readers of ids and rows and the digest are.
  pub assemble-checks :
      (fs : List (SnapshotFrame W)) (s : ScheduleSnapshot)
      → assemble uuid_of entry_from_pb digest p fs ≡ pass s
      → (s.project_id ≡ p)
        × (text_eq s.digest (digest s) ≡ true)
        × (frame_fault s [] s.rows ≢ some snapshot_escaped)
        × (frame_fault s [] s.rows ≢ some snapshot_duplicate)
  assemble-checks fs s done =
      let h = assemble-IsChecked fs s done in
      let faults = no_fault s p [] s.rows h.scoped h.allowed h.fresh in
      (h.scoped, h.digested, faults.0, faults.1)
