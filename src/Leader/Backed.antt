-- ===== src/Leader/Backed.antt =====
-- leader/postgres.py: what a gate says it leads against the calls that it made of its backend.
use z4j_scheduler.Prelude.{
  ℕ, ◌≤◌, ◌≡◌, ◌⊎◌, inl, inr, refl, sym, ◌∙◌, subst, Bool, true, false, Option, none, some, is_some,
  List, [], ◌∷◌, ◌==◌, ==_iff, if◌then◌else◌, Bool-cases, Option-cases, arith, All,
}
use z4j_scheduler.Dict.{Dict, get, put}
use z4j_scheduler.Dict.Laws.{get-put, get-pop}
use z4j_scheduler.Entry.{Uuid}
use z4j_scheduler.Quarantine.{Answer, answered, failed}
use z4j_scheduler.Leader.{
  Call, checked, check_failed, Backend, Gate, Ending, went_on, raised, is_leader, drop_all,
  close_call, on_acquire, then_on, acquire_one, acquire_missing, on_release, release_one,
  release_dropped, probe, recover, desired_of, cycle_with, cycle, run,
}
use z4j_scheduler.Leader.Locks.{
  unreturned, is_clean, held_under, held_under-put, held_under-pop, held_under-pos,
}

-- A gate as it is built.
abbrev pub started : Gate
started = record { held = []; calls = [] }

module _ (project_key : Uuid → ℕ) where
  abbrev Keyed : ℕ × ℕ → Type 0
  Keyed (p, k) = k ≡ project_key p

  -- Every project that the gate leads is backed by a grant of the project's key, on a connection of
  -- which no call has failed.
  pub record IsBacked (g : Gate) : Type 0 where
    pub backed : (k : ℕ) → held_under g.held k ≤ unreturned g.calls k
    pub keyed : (p k : ℕ) → get g.held p ≡ some k → k ≡ project_key p
    pub clean : is_clean g.calls ≡ true

  abbrev Backed : Gate × Ending → Type 0
  Backed (g, raised) = Unit
  Backed (g, went_on) = IsBacked g

  then_on-Backed :
      (x : Gate × Ending) (rest : Gate → Gate × Ending)
      → Backed x
      → ((g : Gate) → IsBacked g → Backed (rest g))
      → Backed (then_on x rest)
  then_on-Backed (g, raised) rest h k = tt
  then_on-Backed (g, went_on) rest h k = k g h

  drop_all-IsBacked : (b : Backend) (g : Gate) → IsBacked (drop_all b g)
  unfolding drop_all held_under get is_clean
  drop_all-IsBacked b g = record {
    backed = λ k. omega arith;
    keyed = λ p k h. cc;
    clean = elim b.close as (λ a. is_clean (close_call a ∷ g.calls) ≡ true) [
      | failed ↦ refl
      | answered u ↦ refl
    ];
  }

  put-keyed :
      (g : Gate) (p j k q : ℕ)
      → j ≡ project_key p
      → ((q k : ℕ) → get g.held q ≡ some k → k ≡ project_key q)
      → get (put g.held p j) q ≡ some k
      → k ≡ project_key q
  put-keyed g p j k q e h r = chosen (p == q) refl (sym (get-put g.held p q j) ∙ r)
    where
      chosen :
          (b : Bool)
          → (p == q) ≡ b
          → (if b then some j else get g.held q) ≡ some k
          → k ≡ project_key q
      chosen true same c = let z : p ≡ q = (==_iff p q).0 same in cc
      chosen false other c = h q k c

  on_acquire-Backed :
      (p k : ℕ) (a : Answer Bool) (g : Gate)
      → get g.held p ≡ none
      → k ≡ project_key p
      → IsBacked g
      → Backed (on_acquire p k a g)
  unfolding on_acquire unreturned is_clean
  on_acquire-Backed p k failed g absent e h = tt
  on_acquire-Backed p k (answered true) g absent e h = record {
    backed = λ j. ground (arith, held_under-put g.held p k j absent, h.backed j);
    keyed = λ q j r. put-keyed g p k j q e h.keyed r;
    clean = h.clean;
  }
  on_acquire-Backed p k (answered false) g absent e h = record {
    backed = λ j. omega (arith, h.backed j);
    keyed = h.keyed;
    clean = h.clean;
  }

  acquire_one-Backed :
      (b : Backend) (p k : ℕ) (o : Option ℕ) (g : Gate)
      → get g.held p ≡ o
      → k ≡ project_key p
      → IsBacked g
      → Backed (acquire_one b p k o g)
  acquire_one-Backed b p k (some j) g at e h = h
  acquire_one-Backed b p k none g at e h = on_acquire-Backed p k (b.acquire p k) g at e h

  acquire_missing-Backed :
      (b : Backend) (desired : Dict ℕ) (g : Gate)
      → All Keyed desired
      → IsBacked g
      → Backed (acquire_missing b desired g)
  unfolding acquire_missing
  acquire_missing-Backed b [] g all h = h
  acquire_missing-Backed b ((p, k) ∷ desired) g (e, all) h =
      then_on-Backed _ _ (acquire_one-Backed b p k (get g.held p) g refl e h)
        (λ g h. acquire_missing-Backed b desired g all h)

  on_release-Backed :
      (p k : ℕ) (a : Answer (Unit {0})) (g : Gate)
      → get g.held p ≡ some k
      → IsBacked g
      → Backed (on_release p k a g)
  unfolding on_release unreturned is_clean
  on_release-Backed p k failed g at h = tt
  on_release-Backed p k (answered u) g at h = record {
    backed = λ j. ground (arith, held_under-pop g.held p k j at, h.backed j);
    keyed = λ q j r. h.keyed q j (kept q j (p == q) (sym (get-pop g.held p q) ∙ r));
    clean = h.clean;
  }
    where
      kept :
          (q j : ℕ) (b : Bool) → (if b then none else get g.held q) ≡ some j → get g.held q ≡ some j
      kept q j true c = cc
      kept q j false c = c

  release_one-Backed :
      (b : Backend) (p : ℕ) (o held : Option ℕ) (g : Gate)
      → get g.held p ≡ held
      → IsBacked g
      → Backed (release_one b p o held g)
  release_one-Backed b p (some j) held g at h = h
  release_one-Backed b p none none g at h = h
  release_one-Backed b p none (some k) g at h = on_release-Backed p k (b.release p k) g at h

  release_dropped-Backed :
      (b : Backend) (desired copy : Dict ℕ) (g : Gate)
      → IsBacked g
      → Backed (release_dropped b desired copy g)
  unfolding release_dropped
  release_dropped-Backed b desired [] g h = h
  release_dropped-Backed b desired ((p, k) ∷ copy) g h =
      then_on-Backed _ _ (release_one-Backed b p (get desired p) (get g.held p) g refl h)
        (λ g h. release_dropped-Backed b desired copy g h)

  probe-Backed : (b : Backend) (g : Gate) → IsBacked g → Backed (probe b g)
  unfolding probe unreturned is_clean
  probe-Backed b g h =
      elim b.health_check
        as (λ a. Backed (elim a [
          | failed ↦ (record g { calls = check_failed ∷ g.calls }, raised)
          | answered u ↦ (record g { calls = checked ∷ g.calls }, went_on)
        ])) [
          | failed ↦ tt
          | answered u ↦ record {
            backed = λ k. omega (arith, h.backed k);
            keyed = h.keyed;
            clean = h.clean;
          }
        ]

  recover-IsBacked : (b : Backend) (x : Gate × Ending) → Backed x → IsBacked (recover b x)
  recover-IsBacked b (g, went_on) h = h
  recover-IsBacked b (g, raised) h = drop_all-IsBacked b g

  put-All : (d : Dict ℕ) (p : ℕ) → All Keyed d → All Keyed (put d p (project_key p))
  unfolding put
  put-All [] p h = (refl, tt)
  put-All ((q, k) ∷ d) p (e, h) = elim (Bool-cases (q == p)) [
    | inl same ↦ rw same (refl, h)
    | inr other ↦ rw other (e, put-All d p h)
  ]

  desired_of-All :
      (ps : List Uuid) (d : Dict ℕ) → All Keyed d → All Keyed (desired_of project_key ps d)
  unfolding desired_of
  desired_of-All [] d h = h
  desired_of-All (p ∷ ps) d h = desired_of-All ps (put d p (project_key p)) (put-All d p h)

  cycle-IsBacked :
      (source : Answer (List Uuid)) (b : Backend) (g : Gate)
      → IsBacked g
      → IsBacked (cycle project_key source b g)
  unfolding cycle cycle_with
  cycle-IsBacked failed b g h = drop_all-IsBacked b g
  cycle-IsBacked (answered projects) b g h =
      let desired = desired_of project_key projects [] in
      recover-IsBacked b _ (
        then_on-Backed _ _ (acquire_missing-Backed b desired g (desired_of-All projects [] tt) h)
          (λ g h.
            then_on-Backed _ _ (release_dropped-Backed b desired g.held g h)
              (λ g h. probe-Backed b g h)))

  run-IsBacked :
      (cycles : List (Answer (List Uuid) × Backend)) (g : Gate)
      → IsBacked g
      → IsBacked (run project_key cycles g)
  unfolding run
  run-IsBacked [] g h = h
  run-IsBacked ((source, b) ∷ cycles) g h =
      run-IsBacked cycles (cycle project_key source b g) (cycle-IsBacked source b g h)

  -- The gate leads nothing, or the last call that it made is a passed health check.
  abbrev IsChecked : Gate → Type 0
  IsChecked g = (g.held ≡ []) ⊎ ((cs : List Call) × (g.calls ≡ checked ∷ cs))

  abbrev Probed : Gate × Ending → Type 0
  Probed (g, raised) = Unit
  Probed (g, went_on) = (cs : List Call) × (g.calls ≡ checked ∷ cs)

  probe-Probed : (b : Backend) (g : Gate) → Probed (probe b g)
  unfolding probe
  probe-Probed b g =
      elim b.health_check
        as (λ a. Probed (elim a [
          | failed ↦ (record g { calls = check_failed ∷ g.calls }, raised)
          | answered u ↦ (record g { calls = checked ∷ g.calls }, went_on)
        ])) [ failed ↦ tt | answered u ↦ (g.calls, refl) ]

  then_on-Probed :
      (x : Gate × Ending) (rest : Gate → Gate × Ending)
      → ((g : Gate) → Probed (rest g))
      → Probed (then_on x rest)
  then_on-Probed (g, raised) rest k = tt
  then_on-Probed (g, went_on) rest k = k g

  recover-IsChecked : (b : Backend) (x : Gate × Ending) → Probed x → IsChecked (recover b x)
  unfolding drop_all
  recover-IsChecked b (g, went_on) h = inr h
  recover-IsChecked b (g, raised) h = inl refl

  cycle-IsChecked :
      (source : Answer (List Uuid)) (b : Backend) (g : Gate)
      → IsChecked (cycle project_key source b g)
  unfolding cycle cycle_with drop_all
  cycle-IsChecked failed b g = inl refl
  cycle-IsChecked (answered projects) b g =
      let desired = desired_of project_key projects [] in
      let drop_and_probe =
        (λ (g : Gate). then_on (release_dropped b desired g.held g) (λ g. probe b g)) in
      recover-IsChecked b (then_on (acquire_missing b desired g) drop_and_probe) (
        then_on-Probed (acquire_missing b desired g) drop_and_probe (λ g.
          then_on-Probed (release_dropped b desired g.held g) (λ g. probe b g)
            (λ g. probe-Probed b g)))

  run-IsChecked :
      (cycles : List (Answer (List Uuid) × Backend)) (g : Gate)
      → IsChecked g
      → IsChecked (run project_key cycles g)
  unfolding run
  run-IsChecked [] g h = h
  run-IsChecked ((source, b) ∷ cycles) g h =
      run-IsChecked cycles (cycle project_key source b g) (cycle-IsChecked source b g)

  -- A project that a gate leads has a grant.
  leader-granted :
      (g : Gate) (p : Uuid)
      → IsBacked g
      → is_leader p g ≡ true
      → 1 ≤ unreturned g.calls (project_key p)
  leader-granted g p h l = elim (Option-cases (get g.held p)) [
    | inl absent ↦
        let z : is_some {A = ℕ} none ≡ true = subst (λ o. is_some o ≡ true) absent l in cc
    | inr (k, at) ↦
        subst (λ j. 1 ≤ unreturned g.calls j) (h.keyed p k at)
          (omega (arith, held_under-pos g.held p k at, h.backed k))
  ]

  leader-checked :
      (g : Gate) (p : Uuid)
      → IsChecked g
      → is_leader p g ≡ true
      → (cs : List Call) × (g.calls ≡ checked ∷ cs)
  unfolding get
  leader-checked g p (inr h) l = h
  leader-checked g p (inl empty) l =
      let z : is_some (get {V = ℕ} [] p) ≡ true =
        subst (λ (d : Dict ℕ). is_some (get d p) ≡ true) empty l in
      cc

  started-IsBacked : IsBacked started
  unfolding held_under get is_clean
  started-IsBacked = record { backed = λ k. omega arith; keyed = λ p k h. cc; clean = refl }

  -- A per-project gate, after any cycles with any answers of its backend and its source of
  -- projects, says that it leads a project only if the last call that it made is a passed health
  -- check, no call has failed since it last closed its connection, and since then the project's key
  -- was granted more often than its release was tried.
  pub run-backed :
      (cycles : List (Answer (List Uuid) × Backend)) (p : Uuid)
      → is_leader p (run project_key cycles started) ≡ true
      → ((cs : List Call) × ((run project_key cycles started).calls ≡ checked ∷ cs))
        × (is_clean (run project_key cycles started).calls ≡ true)
        × (1 ≤ unreturned (run project_key cycles started).calls (project_key p))
  run-backed cycles p l =
      let h = run-IsBacked cycles started started-IsBacked in
      let g = run project_key cycles started in
      (
        leader-checked g p (run-IsChecked cycles started (inl refl)) l,
        h.clean,
        leader-granted g p h l,
      )
