-- ===== src/Engine/Wake.antt =====
-- tick/engine.py: how long `_sleep_until_next` may sleep, and the supervisor of `run`.
use z4j_scheduler.Prelude.{
  ℕ, ◌+◌, ◌-◌, ◌*◌, ◌^◌, min, Bool, true, false, not, Option, none, some, List, [], ◌∷◌, leb, ltb,
  ◌&&◌, if◌then◌else◌,
}
use z4j_scheduler.Dict.{get, values}
use z4j_scheduler.Entry.{Uuid, Instant, ScheduleEntry}
use z4j_scheduler.Engine.{TickEngine, follower_recheck}
use z4j_scheduler.Engine.Marks.{is_follower_parked}

-- When an entry is ready: at its slot, or at the end of its back-off.
abbrev pub ready_at : Instant → Option Instant → Instant
ready_at t none = t
ready_at t (some deadline) = if ltb t deadline then deadline else t

abbrev pub earlier : Option Instant → Instant → Option Instant
earlier none t = some t
earlier (some u) t = if ltb t u then some t else some u

-- What the scan of the entries has seen.
pub record Scan : Type 0 where
  pub wake_at : Option Instant
  pub has_parked : Bool

abbrev pub scan_slot : ScheduleEntry → Instant → TickEngine × Bool → Scan → TickEngine × Scan
scan_slot e t (s, true) r = (s, record r { has_parked = true })
scan_slot e t (s, false) r =
    (s, record r { wake_at = earlier r.wake_at (ready_at t (get s.fire_backoff_until e.id)) })

abbrev pub scan_next :
    (Uuid → Bool) → ScheduleEntry → Option Instant → TickEngine → Scan → TickEngine × Scan
scan_next leader e none s r = (s, r)
scan_next leader e (some t) s r =
    if not e.is_enabled
    then (s, r)
    else scan_slot e t (is_follower_parked (leader e.project_id) e s) r

abbrev pub scan_then :
    TickEngine × Scan → (TickEngine → Scan → TickEngine × Scan) → TickEngine × Scan
scan_then (s, r) rest = rest s r

unfoldable pub scan_entries :
    (Uuid → Bool) → List ScheduleEntry → TickEngine → Scan → TickEngine × Scan
scan_entries leader [] s r = (s, r)
scan_entries leader (e ∷ es) s r =
    scan_then (scan_next leader e e.next_fire_at s r) (λ s r. scan_entries leader es s r)

abbrev pub bounded_wait : ℕ → Instant → Option Instant → ℕ
bounded_wait max_sleep now none = max_sleep
bounded_wait max_sleep now (some t) = min max_sleep (t - now)

-- The timeout of the wait. A wait that would be negative is 0.
unfoldable pub timeout_of : ℕ → Instant → Scan → ℕ
timeout_of max_sleep now r =
    let timeout = bounded_wait max_sleep now r.wake_at in
    if r.has_parked && ltb follower_recheck timeout then follower_recheck else timeout

unfoldable pub sleep_until_next : (Uuid → Bool) → ℕ → Instant → TickEngine → TickEngine × ℕ
sleep_until_next leader max_sleep now s =
    let (s', r) =
      scan_entries leader (values s.cache.entries) s
        (record { wake_at = none; has_parked = false }) in
    (s', timeout_of max_sleep now r)

-- How the supervisor of `run` goes on after its iterations, whose exceptions it absorbs: the failures in a
-- row with the pauses so far, or the exception let out.
pub data Supervised : Type 0 where
  running : ℕ → List ℕ → Supervised
  gave_up : List ℕ → Supervised

-- min(30, base * 2 ** min(n - 1, 6)) seconds
abbrev pub iteration_pause : ℕ → ℕ → ℕ
iteration_pause base n = min 30000000 (base * 2 ^ min (n - 1) 6)

-- The outcomes of the iterations, the first first: whether one raised.
unfoldable pub supervise : ℕ → ℕ → List Bool → ℕ → List ℕ → Supervised
supervise bound base [] n pauses = running n pauses
supervise bound base (raised ∷ iterations) n pauses = elim raised [
  | false ↦ supervise bound base iterations 0 pauses
  | true ↦ elim (leb bound (n + 1)) [
    | true ↦ gave_up pauses
    | false ↦ supervise bound base iterations (n + 1) (iteration_pause base (n + 1) ∷ pauses)
  ]
]
