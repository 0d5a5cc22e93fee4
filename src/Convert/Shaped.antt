-- ===== src/Convert/Shaped.antt =====
-- storage/_convert.py: a row that decodes has a shape that the cache accepts.
use z4j_scheduler.Prelude.{◌≡◌, refl, subst, Bool, true, false, ◌||◌, arith}
use z4j_scheduler.Entry.{ScheduleEntry}
use z4j_scheduler.Cache.Watch.{well_shaped}
use z4j_scheduler.Convert.{
  ScheduleMessage, ConvertError, Decoded, decoded, bad, ◌>>=◌, ◌>>◌, require, kind_from,
  catch_up_from, optional_uuid, uuid, current_protocol, legacy_protocol, entry_from_pb, Codec,
}

-- What holds of the value, where there is one.
abbrev pub OnDecoded : {A : Type 0} → (A → Type 0) → Decoded A → Type 0
OnDecoded P (decoded a) = P a
OnDecoded P (bad e) = Unit

pub bind-OnDecoded :
    {A B : Type 0} (P : B → Type 0) (x : Decoded A) (f : A → Decoded B)
    → ((a : A) → OnDecoded P (f a))
    → OnDecoded P (x >>= f)
unfolding ◌>>=◌
bind-OnDecoded P (decoded a) f h = h a
bind-OnDecoded P (bad e) f h = tt

pub require-OnDecoded :
    {B : Type 0} (P : B → Type 0) (c : Bool) (e : ConvertError) (k : Decoded B)
    → (c ≡ true → OnDecoded P k)
    → OnDecoded P (require c e >> k)
unfolding ◌>>=◌
require-OnDecoded P true e k h = h refl
require-OnDecoded P false e k h = tt

abbrev pub Shaped : ScheduleEntry → Type 0
Shaped e = well_shaped e ≡ true

pub decoded-Shaped : (w : Codec) (m : ScheduleMessage) → OnDecoded Shaped (entry_from_pb w m)
unfolding entry_from_pb well_shaped
decoded-Shaped w m = bind-OnDecoded Shaped (kind_from m.kind) _ (λ kind.
    bind-OnDecoded Shaped (catch_up_from m.catch_up) _ (λ catch_up.
      bind-OnDecoded Shaped (optional_uuid w m.control_token) _ (λ token.
        require-OnDecoded Shaped (current_protocol token m || legacy_protocol token m) _ _
          (λ shaped. require-OnDecoded Shaped _ _ _ (λ cursor.
            bind-OnDecoded Shaped (uuid w m.id) _ (λ id.
              bind-OnDecoded Shaped (uuid w m.project_id) _
                (λ project. ground (arith, shaped))))))))

-- A message that converts to a row gives one whose protocol fields the cache's check lets pass.
pub entry_from_pb-shaped :
    (w : Codec) (m : ScheduleMessage) (e : ScheduleEntry)
    → entry_from_pb w m ≡ decoded e
    → well_shaped e ≡ true
entry_from_pb-shaped w m e h = subst (OnDecoded Shaped) h (decoded-Shaped w m)
