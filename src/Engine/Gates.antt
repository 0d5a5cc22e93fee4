-- ===== src/Engine/Gates.antt =====
-- tick/engine.py: what the loop over the slots sends, and the state of the turns that send.
use z4j_scheduler.Prelude.{
  ℕ, ◌+◌, ◌<◌, ◌≡◌, refl, sym, ap, ◌∙◌, subst, true, false, Option, none, some, is_some, List, [],
  ◌∷◌, ◌++◌, append_nil, append_cons, gt→leb, le→leb, ◌==◌, ==_iff, Bool-cases, inl, inr, arith,
}
use native.Mathlib.Decide.{dec_le}
use z4j_scheduler.Dict.{get}
use z4j_scheduler.Entry.{Uuid, Instant, ScheduleEntry, schedule_definition_changed}
use z4j_scheduler.Dispatch.{PreparedFire}
use z4j_scheduler.Engine.{max_dispatch_per_tick}
use z4j_scheduler.Engine.Drain.{
  turn_starts, slot_read, World, Left, Drain, Turned, next, leave, is_open, on_live, check_slot,
  send_slot, after_check, after_turn, prepared_for, drain, resume_at,
}
use z4j_scheduler.Engine.Turns.{sent_of, advance_prior-sent, send_slot-sent}

module _ (w : World) where
  -- Turn `n` may send, from the state in which it starts: the process, the cache's row and the gates allow
  -- it when the row has been read.
  pub record Open (n : ℕ) (d : Drain) : Type 0 where
    pub live : ScheduleEntry
    pub cached :
        get
          (resume_at w (slot_read n) d).engine.cache.entries
          (resume_at w (slot_read n) d).entry.id
        ≡ some live
    pub enabled : live.is_enabled ≡ true
    pub unchanged : schedule_definition_changed (resume_at w (slot_read n) d).entry live ≡ false
    pub running : w.is_stopped (turn_starts n) ≡ false
    pub few : n < max_dispatch_per_tick
    pub going : w.is_stopped (slot_read n) ≡ false
    pub healthy : w.watch_healthy (slot_read n) ≡ true
    pub leading : w.is_leader (slot_read n) (resume_at w (slot_read n) d).entry.project_id ≡ true

  is_open_parts :
      (n : ℕ) (project : Uuid)
      → is_open w n project ≡ true
      → (w.is_stopped (slot_read n) ≡ false)
        × (w.watch_healthy (slot_read n) ≡ true)
        × (w.is_leader (slot_read n) project ≡ true)
  is_open_parts n project h = ground (arith, h)

  abbrev Checked : ℕ → Drain → Turned → Type 0
  Checked n d (leave l e) = e.sent ≡ d.sent
  Checked n d (next e) = (e ≡ resume_at w (slot_read n) d) × Open n d

  on_live-Checked :
      (n : ℕ) (d : Drain) (o : Option ScheduleEntry)
      → get
          (resume_at w (slot_read n) d).engine.cache.entries
          (resume_at w (slot_read n) d).entry.id
        ≡ o
      → w.is_stopped (turn_starts n) ≡ false
      → n < max_dispatch_per_tick
      → Checked n d (on_live w n o (resume_at w (slot_read n) d))
  unfolding schedule_definition_changed
  on_live-Checked n d none c r f = refl
  on_live-Checked n d (some live) c r f =
      let e = resume_at w (slot_read n) d in
      elim (Bool-cases live.is_enabled) [
        | inr off ↦ rw off refl
        | inl on ↦ elim (Bool-cases (schedule_definition_changed e.entry live)) [
          | inl edited ↦ rw (on, edited) refl
          | inr same ↦ elim (Bool-cases (is_open w n e.entry.project_id)) [
            | inr shut ↦ rw (on, same, shut) refl
            | inl gates ↦
                rw (on, same, gates)
                  (
                    refl,
                    record {
                      live = live;
                      cached = c;
                      enabled = on;
                      unchanged = same;
                      running = r;
                      few = f;
                      going = (is_open_parts n e.entry.project_id gates).0;
                      healthy = (is_open_parts n e.entry.project_id gates).1;
                      leading = (is_open_parts n e.entry.project_id gates).2;
                    },
                  )
          ]
        ]
      ]

  check_slot-Checked : (n : ℕ) (d : Drain) → Checked n d (check_slot w n d)
  unfolding check_slot
  check_slot-Checked n d = elim (Bool-cases (w.is_stopped (turn_starts n))) [
    | inl stopped ↦ rw stopped refl
    | inr running ↦ elim (dec_le max_dispatch_per_tick n) [
      | yes full ↦ rw (running, le→leb max_dispatch_per_tick n full) refl
      | no room ↦
          rw (running, gt→leb max_dispatch_per_tick n (omega arith))
            (on_live-Checked n d _ refl running (omega arith))
    ]
  ]

  abbrev FoundFor : Instant → Option PreparedFire → Type 0
  FoundFor t none = Unit
  FoundFor t (some p) = p.scheduled_for ≡ t

  prepared_for-FoundFor : (ps : List PreparedFire) (t : Instant) → FoundFor t (prepared_for w ps t)
  unfolding prepared_for
  prepared_for-FoundFor [] t = tt
  prepared_for-FoundFor (q ∷ ps) t = elim (Bool-cases (q.scheduled_for == t)) [
    | inl e ↦ rw e ((==_iff q.scheduled_for t).0 e)
    | inr n ↦ rw n (prepared_for-FoundFor ps t)
  ]

  module _ (prepared : List PreparedFire) (token : Option Uuid) where
    -- What a turn sends, where its turn allows it: the prepared transition of its slot.
    pub record Allowed (n : ℕ) (d : Drain) (t : Instant) (p : PreparedFire) : Type 0 where
      pub may_send : Open n d
      pub found : prepared_for w prepared t ≡ some p
      pub slot : p.scheduled_for ≡ t

    -- The slots of a plan that were sent from turn `n` on, which starts in a state. The loop goes on only
    -- where the answer to a slot lets it.
    pub data SentFrom : ℕ → Drain → List Instant → List PreparedFire → Type 0 where
      nothing_sent : {n : ℕ} {d : Drain} {plan : List Instant} → SentFrom n d plan []
      last_sent :
          {n : ℕ} {d : Drain} {t : Instant} {plan : List Instant} {p : PreparedFire}
          → Allowed n d t p
          → SentFrom n d (t ∷ plan) (p ∷ [])
      one_sent :
          {n : ℕ} {d e : Drain} {t : Instant} {plan : List Instant} {p : PreparedFire}
          {ps : List PreparedFire}
          → Allowed n d t p
          → send_slot w n token p (resume_at w (slot_read n) d) ≡ next e
          → SentFrom (n + 1) e plan ps
          → SentFrom n d (t ∷ plan) (p ∷ ps)

    -- What the loop has sent from a turn on, after what was sent before.
    pub record Sends (n : ℕ) (d : Drain) (plan : List Instant) (after : List PreparedFire)
        : Type 0 where
      pub new : List PreparedFire
      pub appended : after ≡ d.sent ++ new
      pub allowed : SentFrom n d plan new

    Sends-none :
        {n : ℕ} {plan : List Instant} (d : Drain) (ys : List PreparedFire)
        → ys ≡ d.sent
        → Sends n d plan ys
    Sends-none d ys h = record {
      new = [];
      appended = h ∙ sym (append_nil d.sent);
      allowed = nothing_sent;
    }

    after_turn-Sends :
        (n : ℕ) (t : Instant) (plan : List Instant) (d : Drain) (p : PreparedFire) (x : Turned)
        (rest : Drain → Left × Drain)
        → Allowed n d t p
        → send_slot w n token p (resume_at w (slot_read n) d) ≡ x
        → sent_of w x ≡ d.sent ++ (p ∷ [])
        → ((e : Drain) → Sends (n + 1) e plan (rest e).1.sent)
        → Sends n d (t ∷ plan) (after_turn w x rest).1.sent
    after_turn-Sends n t plan d p (leave l e) rest o x h k = record {
      new = p ∷ [];
      appended = h;
      allowed = last_sent o;
    }
    after_turn-Sends n t plan d p (next e) rest o x h k =
        let s : Sends (n + 1) e plan (rest e).1.sent = k e in
        record {
          new = p ∷ s.new;
          appended = s.appended ∙ ap (λ zs. zs ++ s.new) h ∙ append_cons d.sent s.new p;
          allowed = one_sent o x s.allowed;
        }

    found-Sends :
        (n : ℕ) (t : Instant) (plan : List Instant) (d : Drain) (q : Option PreparedFire)
        (rest : Drain → Left × Drain)
        → Open n d
        → prepared_for w prepared t ≡ q
        → FoundFor t q
        → ((e : Drain) → Sends (n + 1) e plan (rest e).1.sent)
        → Sends n d
            (t ∷ plan)
            (after_turn w
              (after_check w n token q (next (resume_at w (slot_read n) d)))
              rest).1.sent
    found-Sends n t plan d none rest o h f k =
        Sends-none d _
          (advance_prior-sent w d.last_dispatched (is_some token) (resume_at w (slot_read n) d))
    found-Sends n t plan d (some p) rest o h f k =
        after_turn-Sends n t plan d p _ rest (record { may_send = o; found = h; slot = f }) refl
          (send_slot-sent w n token p (resume_at w (slot_read n) d)) k

    Checked-Sends :
        (n : ℕ) (t : Instant) (plan : List Instant) (d : Drain) (x : Turned)
        (rest : Drain → Left × Drain)
        → Checked n d x
        → ((e : Drain) → Sends (n + 1) e plan (rest e).1.sent)
        → Sends n d
            (t ∷ plan)
            (after_turn w (after_check w n token (prepared_for w prepared t) x) rest).1.sent
    Checked-Sends n t plan d (leave l e) rest c k = Sends-none d e.sent c
    Checked-Sends n t plan d (next e) rest (c, o) k =
        subst
          (λ y.
            Sends n d (t ∷ plan)
              (after_turn w (after_check w n token (prepared_for w prepared t) (next y))
                rest).1.sent)
          (sym c)
          (found-Sends n t plan d (prepared_for w prepared t) rest o refl
            (prepared_for-FoundFor prepared t) k)

    pub drain-Sends :
        (n : ℕ) (plan : List Instant) (d : Drain)
        → Sends n d plan (drain w prepared token n plan d).1.sent
    unfolding drain
    drain-Sends n [] d = Sends-none d d.sent refl
    drain-Sends n (t ∷ plan) d =
        Checked-Sends n t plan d (check_slot w n d) _ (check_slot-Checked n d)
          (λ e. drain-Sends (n + 1) plan e)
