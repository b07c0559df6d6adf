-- ===== src/Tasks/Recurrence/Weekly.antt =====
-- src/modules/tasks/utils/recurrence.utils.ts: the weekly pattern falls on the days that it lists.
use radha_backend.Prelude.{
  ℕ, ◌+◌, ◌-◌, ◌*◌, ◌/◌, ◌%◌, ◌≤◌, ◌<◌, ◌≡◌, ◌≢◌, refl, sym, subst, ap, inl, inr, Bool, true, false,
  none, some, List, [], ◌∷◌, arith, ◌==◌, ltb, leb, find, select, not, any, All, Bool-cases,
  Option-cases, ltb→lt, ltb-ge, ==_refl, ◌||◌,
}
use radha_backend.Prelude.Table.Laws.{find-holds, All-find, All-select, All-map, All-both}
use radha_backend.Dates.{ms_per_day, week_day}
use radha_backend.Tasks.Recurrence.{unique, sort_numbers, insert_number, weekly_from, next_weekly}

module _ (P : ℕ → Type 0) where
  All-insert_number : (d : ℕ) (ds : List ℕ) → P d → All P ds → All P (insert_number d ds)
  unfolding insert_number
  All-insert_number d [] h u = (h, tt)
  All-insert_number d (e ∷ es) h u = elim (Bool-cases (leb d e)) [
    | inl le ↦ rw le (h, u)
    | inr gt ↦ rw gt (u.0, All-insert_number d es h u.1)
  ]

  All-sort_numbers : (ds : List ℕ) → All P ds → All P (sort_numbers ds)
  unfolding sort_numbers
  All-sort_numbers [] u = tt
  All-sort_numbers (d ∷ ds) u = All-insert_number d (sort_numbers ds) u.0 (All-sort_numbers ds u.1)

  All-unique : (ds : List ℕ) → All P ds → All P (unique ds)
  unfolding unique
  All-unique [] u = tt
  All-unique (d ∷ ds) u = (u.0, All-select P (λ e. not (e == d)) (unique ds) (All-unique ds u.1))

abbrev IsDay : List ℕ → ℕ → Type 0
IsDay days d = (d < 7) × (any (λ e. e == d) days ≡ true)

any_self : (ds : List ℕ) → All (λ d. any (λ e. e == d) ds ≡ true) ds
any_self [] = tt
any_self (d ∷ ds) = (
  rw (==_refl d),
  All-map (λ x. any (λ e. e == x) ds ≡ true) _ ds
      (λ x h. or_right (d == x) (any (λ e. e == x) ds) h) (any_self ds),
)
  where
    or_right : (a b : Bool) → b ≡ true → (a || b) ≡ true
    or_right a b h = ground arith

All-IsDay : (days : List ℕ) → All (λ d. d < 7) days → All (IsDay days) days
All-IsDay days u = All-both (λ d. d < 7) _ days u (any_self days)

find-none-head : (p : ℕ → Bool) (d : ℕ) (ds : List ℕ) → find p (d ∷ ds) ≡ none → p d ≡ false
find-none-head p d ds e = elim (Bool-cases (p d)) [
  | inl hit ↦ absurd (some≢none (rw hit at e))
  | inr miss ↦ miss
]
  where
    some≢none : some d ≢ none
    some≢none h = cc

insert_number-cons :
    (d : ℕ) (ds : List ℕ) → (first : ℕ) × (rest : List ℕ) × (insert_number d ds ≡ first ∷ rest)
unfolding insert_number
insert_number-cons d [] = (d, [], refl)
insert_number-cons d (e ∷ es) = elim (Bool-cases (leb d e)) [
  | inl le ↦ rw le (d, e ∷ es, refl)
  | inr gt ↦ rw gt (e, insert_number d es, refl)
]

-- A date on a listed weekday, at most the interval's weeks ahead.
abbrev pub FallsOn : ℕ → ℕ → List ℕ → ℕ → Type 0
FallsOn interval t days n =
    (any (λ e. e == week_day n) days ≡ true) × (n ≤ t + 7 * interval * ms_per_day)

-- What a step of the weekly pattern gives from the sorted days.
weekly_from-day :
    (interval t : ℕ) (days ds : List ℕ) (first : ℕ)
    → 1 ≤ interval
    → All (IsDay days) (first ∷ ds)
    → (any (λ e. e == week_day (weekly_from interval t (first ∷ ds))) days ≡ true)
      × (weekly_from interval t (first ∷ ds) ≤ t + 7 * interval * ms_per_day)
unfolding week_day
weekly_from-day interval t days ds first h u =
    elim (Option-cases (find (λ dow. ltb (week_day t) dow) (first ∷ ds))) [
      | inl wrapped ↦
          let not_after =
            ltb-ge (week_day t) first (find-none-head (λ d. ltb (week_day t) d) first ds wrapped) in
          let lands : (t + (7 * interval + first - week_day t) * ms_per_day) / ms_per_day
              ≡ t / ms_per_day + (7 * interval + first - week_day t) =
            omega arith in
          let on : ((t / ms_per_day + (7 * interval + first - week_day t)) + 4) % 7 ≡ first =
            omega (arith, u.0.0) in
          rw wrapped (rw (lands, on) (u.0.1), omega (arith, not_after))
      | inr (dow, found) ↦
          let day = All-find (IsDay days) (λ d. ltb (week_day t) d) (first ∷ ds) u found in
          let later =
            ltb→lt (week_day t) dow (find-holds (λ d. ltb (week_day t) d) (first ∷ ds) found) in
          let on : ((t + (dow - week_day t) * ms_per_day) / ms_per_day + 4) % 7 ≡ dow =
            omega (arith, day.0, later) in
          rw found (rw on day.1, omega (arith, day.0, later))
    ]

next_weekly-first :
    (interval t day : ℕ) (others : List ℕ)
    → All (λ d. d < 7) (day ∷ others)
    → (first : ℕ) × (rest : List ℕ) × (next_weekly interval t (day ∷ others)
        ≡ weekly_from interval t (first ∷ rest))
      × All (IsDay (day ∷ others)) (first ∷ rest)
unfolding next_weekly unique sort_numbers
next_weekly-first interval t day others u =
    let days = day ∷ others in
    let listed =
      All-sort_numbers (IsDay days) (unique days)
        (All-unique (IsDay days) days (All-IsDay days u)) in
    let (first, rest, sorted) =
      insert_number-cons day (sort_numbers (select (λ e. not (e == day)) (unique others))) in
    (first, rest, ap (weekly_from interval t) sorted, subst (All (IsDay days)) sorted listed)

-- With an interval of at least one week and a list of weekdays that is not empty, the weekly
-- pattern's next date falls on a weekday of the list, and within the interval's number of weeks.
pub next_weekly-day :
    (interval t day : ℕ) (others : List ℕ)
    → 1 ≤ interval
    → All (λ d. d < 7) (day ∷ others)
    → FallsOn interval t (day ∷ others) (next_weekly interval t (day ∷ others))
next_weekly-day interval t day others h u =
    let days = day ∷ others in
    let (first, rest, same, listed) = next_weekly-first interval t day others u in
    subst (FallsOn interval t days) (sym same) (weekly_from-day interval t days rest first h listed)
