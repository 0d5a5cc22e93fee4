-- ===== src/Cache/Due/Order.antt =====
-- storage/cache.py: what the reads of the tick engine return.
use z4j_scheduler.Prelude.{
  ◌≡◌, refl, ap, sym, ◌∙◌, Bool, true, false, Option, none, some, List, [], ◌∷◌, arith, ◌&&◌,
  if◌then◌else◌, All, All-map, Bool-cases, Option-cases, inl, inr, ◌⊎◌, ◌↔◌, ◌<◌, ◌≤◌, le→leb,
}
use native.Mathlib.Decide.{dec_lt}
use z4j_scheduler.Dict.{values, contains}
use z4j_scheduler.Entry.{Instant, ScheduleEntry}
use z4j_scheduler.Cache.State.{Cache}
use z4j_scheduler.Cache.Due.{
  slot, key_le, is_candidate, is_by, where_true, least, least_of, next_due, insert_row, sorted,
  all_due,
}

key_le_total : (a b : ScheduleEntry) → key_le a b ≡ false → key_le b a ≡ true
key_le_total a b h = ground arith

-- A row comes no later than another: its slot is earlier, or the slots are one and its id is not larger.
abbrev pub Precedes : ScheduleEntry → ScheduleEntry → Type 0
Precedes a b = (slot a < slot b) ⊎ ((slot a ≡ slot b) × (a.id ≤ b.id))

key_le-Precedes : (a b : ScheduleEntry) → key_le a b ≡ true → Precedes a b
key_le-Precedes a b h = elim (dec_lt (slot a) (slot b)) [
  | yes l ↦ inl l
  | no n ↦ inr (ground (arith, h), ground (arith, h))
]

Precedes-trans : (a b c : ScheduleEntry) → Precedes a b → Precedes b c → Precedes a c
Precedes-trans a b c (inl h) (inl k) = inl (omega arith)
Precedes-trans a b c (inl h) (inr (k, _)) = inl (omega arith)
Precedes-trans a b c (inr (h, _)) (inl k) = inl (omega arith)
Precedes-trans a b c (inr (h, l)) (inr (k, m)) = inr (omega arith, omega arith)

-- Each row of a list precedes all that follow.
abbrev pub IsSorted : List ScheduleEntry → Type 0
IsSorted [] = Unit
IsSorted (e ∷ es) = All (λ x. Precedes e x) es × IsSorted es

All-insert :
    (a e : ScheduleEntry) (es : List ScheduleEntry)
    → Precedes a e
    → All (λ x. Precedes a x) es
    → All (λ x. Precedes a x) (insert_row e es)
unfolding insert_row
All-insert a e [] h k = (h, tt)
All-insert a e (x ∷ xs) h (p, k) = elim (Bool-cases (key_le e x)) [
  | inl first ↦ rw first (h, (p, k))
  | inr later ↦ rw later (p, All-insert a e xs h k)
]

insert-IsSorted :
    (e : ScheduleEntry) (es : List ScheduleEntry) → IsSorted es → IsSorted (insert_row e es)
unfolding insert_row
insert-IsSorted e [] h = (tt, tt)
insert-IsSorted e (x ∷ xs) (a, h) = elim (Bool-cases (key_le e x)) [
  | inl first ↦
      let p = key_le-Precedes e x first in
      rw first (
        (p, All-map (λ y. Precedes x y) (λ y. Precedes e y) (λ y. Precedes-trans e x y p) xs a),
        (a, h),
      )
  | inr later ↦
      let p = key_le-Precedes x e (key_le_total e x later) in
      rw later (All-insert x e xs p a, insert-IsSorted e xs h)
]

sorted-IsSorted : (es : List ScheduleEntry) → IsSorted (sorted es)
unfolding sorted
sorted-IsSorted [] = tt
sorted-IsSorted (e ∷ es) = insert-IsSorted e (sorted es) (sorted-IsSorted es)

-- A row is one of a list.
abbrev pub Has : ScheduleEntry → List ScheduleEntry → Type 0
Has e [] = ⊥
Has e (x ∷ xs) = (e ≡ x) ⊎ Has e xs

Has-insert :
    (e x : ScheduleEntry) (xs : List ScheduleEntry) → Has e (insert_row x xs) ↔ Has e (x ∷ xs)
unfolding insert_row
Has-insert e x [] = (λ h. h, λ h. h)
Has-insert e x (y ∷ ys) = elim (Bool-cases (key_le x y)) [
  | inl first ↦ rw first (λ h. h, λ h. h)
  | inr later ↦ rw later (swap (Has-insert e x ys))
]
  where
    swap : {A B C D : Type 0} → (D ↔ (A ⊎ C)) → (B ⊎ D) ↔ (A ⊎ (B ⊎ C))
    swap (f, g) = (
      λ h. elim h [
        | inl b ↦ inr (inl b)
        | inr d ↦ elim (f d) [ inl a ↦ inl a | inr c ↦ inr (inr c) ]
      ],
      λ h. elim h [
        | inl a ↦ inr (g (inl a))
        | inr k ↦ elim k [ inl b ↦ inl b | inr c ↦ inr (g (inr c)) ]
      ],
    )

Has-sorted : (e : ScheduleEntry) (es : List ScheduleEntry) → Has e (sorted es) ↔ Has e es
unfolding sorted
Has-sorted e [] = (λ h. h, λ h. h)
Has-sorted e (x ∷ xs) =
    let (f, g) = Has-insert e x (sorted xs) in
    let (f', g') = Has-sorted e xs in
    (
      λ h. elim (f h) [ inl same ↦ inl same | inr k ↦ inr (f' k) ],
      λ h. elim h [ inl same ↦ g (inl same) | inr k ↦ g (inr (g' k)) ],
    )

Has-where_true :
    (p : ScheduleEntry → Bool) (e : ScheduleEntry) (es : List ScheduleEntry)
    → Has e (where_true p es) ↔ (Has e es × (p e ≡ true))
unfolding where_true
Has-where_true p e [] = (λ h. absurd h, λ h. h.0)
Has-where_true p e (x ∷ xs) =
    let (f, g) = Has-where_true p e xs in
    elim (Bool-cases (p x)) [
      | inl taken ↦ rw taken (
        λ h. elim h [
          | inl same ↦ (inl same, ap p same ∙ taken)
          | inr k ↦ let (l, m) = f k in (inr l, m)
        ],
        λ (h, m). elim h [ inl same ↦ inl same | inr k ↦ inr (g (k, m)) ],
      )
      | inr left ↦ rw left (
        λ h. let (l, m) = f h in (inr l, m),
        λ (h, m). elim h [
          | inl same ↦ absurd (clash (sym m ∙ ap p same ∙ left))
          | inr k ↦ g (k, m)
        ],
      )
    ]
  where
    clash : true ≡ false → ⊥
    clash h = cc

-- A row may fire: its project is not paused, it is enabled, and it has a slot that has come.
pub record IsDue (before : Instant) (c : Cache) (e : ScheduleEntry) : Type 0 where
  pub resumed : contains c.snapshot_required_projects e.project_id ≡ false
  pub enabled : e.is_enabled ≡ true
  pub come : (t : Instant) × (e.next_fire_at ≡ some t) × (t ≤ before)

is_by-come :
    (before : Instant) (e : ScheduleEntry)
    → is_by before e ≡ true
    → (t : Instant) × (e.next_fire_at ≡ some t) × (t ≤ before)
is_by-come before e h = elim (Option-cases e.next_fire_at) [
  | inl absent ↦ absurd (ground (arith, h, absent))
  | inr (t, at) ↦ (t, at, ground (arith, h, at))
]

test-IsDue :
    (before : Instant) (c : Cache) (e : ScheduleEntry)
    → ((is_candidate c e && is_by before e) ≡ true) ↔ IsDue before c e
unfolding is_candidate
test-IsDue before c e = (
  λ h. record {
    resumed = ground (arith, h);
    enabled = ground (arith, h);
    come = is_by-come before e (ground (arith, h));
  },
  λ d. let (t, at, l) = d.come in rw (d.resumed, d.enabled, at, le→leb t before l) refl,
)

-- `all_due` returns rows in the order of slot and id, and returns a row exactly if it is a row of
-- the cache whose project is not paused, which is enabled, and which has a slot not after the given
-- instant.
pub all_due-sorts :
    (before : Instant) (c : Cache) (e : ScheduleEntry)
    → IsSorted (all_due before c)
      × (Has e (all_due before c) ↔ (Has e (values c.entries) × IsDue before c e))
unfolding all_due
all_due-sorts before c e =
    let p = λ (x : ScheduleEntry). is_candidate c x && is_by before x in
    let es = where_true p (values c.entries) in
    let (f, g) = Has-sorted e es in
    let (f', g') = Has-where_true p e (values c.entries) in
    let (f'', g'') = test-IsDue before c e in
    (sorted-IsSorted es, (λ h. let (k, t) = f' (f h) in (k, f'' t), λ (k, d). g (g' (k, g'' d))))

abbrev pub pick : ScheduleEntry → Option ScheduleEntry → ScheduleEntry
pick e none = e
pick e (some x) = if key_le e x then e else x

abbrev pub head : List ScheduleEntry → Option ScheduleEntry
head [] = none
head (e ∷ es) = some e

pick_assoc :
    (e x : ScheduleEntry) (o : Option ScheduleEntry)
    → pick (if key_le e x then e else x) o ≡ pick e (some (pick x o))
pick_assoc e x none = refl
pick_assoc e x (some y) = ground arith

head-insert :
    (e : ScheduleEntry) (es : List ScheduleEntry) → head (insert_row e es) ≡ some (pick e (head es))
unfolding insert_row
head-insert e [] = refl
head-insert e (x ∷ xs) = ground arith

least-head : (e : ScheduleEntry) (es : List ScheduleEntry) → least e es ≡ pick e (head (sorted es))
unfolding least sorted
least-head e [] = refl
least-head e (x ∷ xs) =
    least-head (if key_le e x then e else x) xs
    ∙ pick_assoc e x (head (sorted xs))
    ∙ ap (pick e) (sym (head-insert x (sorted xs)))

least_of-head : (es : List ScheduleEntry) → least_of es ≡ head (sorted es)
unfolding least_of sorted
least_of-head [] = refl
least_of-head (e ∷ es) = ap some (least-head e es) ∙ sym (head-insert e (sorted es))

where_true-and :
    (p q : ScheduleEntry → Bool) (es : List ScheduleEntry)
    → where_true q (where_true p es) ≡ where_true (λ e. p e && q e) es
unfolding where_true
where_true-and p q [] = refl
where_true-and p q (e ∷ es) = ground (arith, where_true-and p q es)

-- `next_due` with a bound is the first row of `all_due`, and without one the first, in the order of
-- slot and id, of all the rows that can ever fire.
pub next_due-head :
    (before : Instant) (c : Cache)
    → (next_due (some before) c ≡ head (all_due before c))
      × (next_due none c ≡ head (sorted (where_true (is_candidate c) (values c.entries))))
unfolding next_due all_due
next_due-head before c = (
  least_of-head (where_true (is_by before) (where_true (is_candidate c) (values c.entries)))
      ∙ ap (λ es. head (sorted es))
          (where_true-and (is_candidate c) (is_by before) (values c.entries)),
  least_of-head (where_true (is_candidate c) (values c.entries)),
)
