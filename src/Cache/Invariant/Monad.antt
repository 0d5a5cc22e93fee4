-- ===== src/Cache/Invariant/Monad.antt =====
-- storage/cache.py: sequences of methods and the well-formedness of a cache.
use z4j_scheduler.Prelude.{List, [], ◌∷◌, refl}
use z4j_scheduler.Entry.{ScheduleEntry}
use z4j_scheduler.Cache.State.{Cache, Method, Result, ok, raise, ◌>>=◌}
use z4j_scheduler.Cache.Invariant.{IsWellFormed}
use z4j_scheduler.Cache.Invariant.Keep.{Agrees-IsWellFormed}
use z4j_scheduler.Cache.Watch.{mark_changed, for_each}

pub record Keeps {A : Type 0} (m : Method A) : Type 0 where
  pub at : (c : Cache) → IsWellFormed c → IsWellFormed (m c).0

bind_result :
    {A B : Type 0} (c : Cache) (r : Result A) (f : A → Method B)
    → ((a : A) → Keeps (f a))
    → IsWellFormed c
    → IsWellFormed (◌>>=◌ (λ _. (c, r)) f c).0
bind_result c (ok a) f kf h = (kf a).at c h
bind_result c (raise e) f kf h = h

pub Keeps-bind :
    {A B : Type 0} (m : Method A) (f : A → Method B)
    → Keeps m
    → ((a : A) → Keeps (f a))
    → Keeps (m >>= f)
Keeps-bind m f km kf = record { at = λ c h. bind_result (m c).0 (m c).1 f kf (km.at c h) }

pub Keeps-mark_changed : Keeps mark_changed
Keeps-mark_changed = record {
  at = λ c h.
      Agrees-IsWellFormed c _
        (record {
          entries = refl;
          project_counts = refl;
          brain_payloads = refl;
          id_revisions = refl;
          id_projects = refl;
        })
        h;
}

pub Keeps-for_each :
    (f : ScheduleEntry → Method Unit)
    → ((e : ScheduleEntry) → Keeps (f e))
    → (es : List ScheduleEntry) → Keeps (for_each f es)
unfolding for_each
Keeps-for_each f kf [] = record { at = λ c h. h }
Keeps-for_each f kf (e ∷ es) = record {
  at = λ c h. (Keeps-bind (f e) (λ _. for_each f es) (kf e) (λ _. Keeps-for_each f kf es)).at c h;
}
