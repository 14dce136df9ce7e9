-- ===== src/Domain/Validators/Budget/Exact.antt =====
-- When `validate_budget` reports nothing.
use multi_agent_based_intell.Prelude.{
  ℕ, suc, ◌+◌, String, ◌≡◌, refl, Bool, true, false, not, ◌&&◌, ◌||◌, Option, none, some, List, [],
  ◌∷◌, arith, leb, ◌==◌, string_eq, is_some, is_empty, is_empty-append, all_of, any_of,
  Option-cases, inl, inr,
}
use multi_agent_based_intell.Domain.Travel.{is_unknown, amount_shape_valid}
use multi_agent_based_intell.Domain.TripRequest.{TripRequest}
use multi_agent_based_intell.Domain.Itinerary.{ItineraryItem, DailyItinerary, ItineraryVersion}
use multi_agent_based_intell.Domain.Validators.{ValidationIssue, report_if}
use multi_agent_based_intell.Domain.Validators.Budget.{
  Tally, tally_items, tally_days, equals, close_plan, fresh_tally, validate_budget, tally_item,
  close_day,
}

abbrev amount : Option ℕ → ℕ
amount none = 0
amount (some n) = n

-- Sums over a day's items and over days.
abbrev pub sum_of {ℓ} : {A : Type ℓ} → (A → ℕ) → List A → ℕ
sum_of f [] = 0
sum_of f (x ∷ xs) = f x + sum_of f xs

abbrev pub items_lower : List ItineraryItem → ℕ
items_lower items = sum_of (λ item. amount item.estimated_cost.lower) items

abbrev pub items_upper : List ItineraryItem → ℕ
items_upper items = sum_of (λ item. amount item.estimated_cost.upper) items

abbrev unknown_cost : ItineraryItem → Bool
unknown_cost item = is_unknown item.estimated_cost.kind

abbrev in_currency : String → ItineraryItem → Bool
in_currency currency item = item.estimated_cost.currency == currency

abbrev pub shaped_item : ItineraryItem → Bool
shaped_item item = amount_shape_valid item.estimated_cost

-- A day whose costs are known, in the currency, and add up to what the day declares.
abbrev pub day_adds_up : String → DailyItinerary → Bool
day_adds_up currency day =
    all_of (in_currency currency) day.items
    && (day.daily_cost.currency == currency)
    && not (any_of unknown_cost day.items)
    && equals day.daily_cost.lower (items_lower day.items)
    && equals day.daily_cost.upper (items_upper day.items)

-- A plan whose days add up, which declares their sum, and whose largest cost is in the budget.
abbrev pub is_within_budget : ItineraryVersion → TripRequest → Bool
is_within_budget plan request =
    let lower = sum_of (λ day. items_lower day.items) plan.days in
    let upper = sum_of (λ day. items_upper day.items) plan.days in
    all_of (day_adds_up request.budget.currency) plan.days
    && (plan.total_cost.currency == request.budget.currency)
    && equals plan.total_cost.lower lower
    && equals plan.total_cost.upper upper
    && leb upper request.budget.total

abbrev day_shaped : DailyItinerary → Bool
day_shaped day = all_of shaped_item day.items

-- The costs of a plan keep to the contract of `CostEstimate`.
abbrev pub costs_shaped : ItineraryVersion → Bool
costs_shaped plan = all_of day_shaped plan.days

is_empty-report_if :
    (b : Bool) (i : ValidationIssue) (is : List ValidationIssue)
    → is_empty (report_if b i is) ≡ (is_empty is && not b)
is_empty-report_if true i is = ground (arith, is_empty-append is (i ∷ []))
is_empty-report_if false i is = ground arith

-- What a loop over `items` makes of the tally `t`.
record IsTallied (currency : String) (items : List ItineraryItem) (t u : Tally) : Type 0 where
  lower : u.lower ≡ t.lower + items_lower items
  upper : u.upper ≡ t.upper + items_upper items
  has_unknown : u.has_unknown ≡ (t.has_unknown || any_of unknown_cost items)
  clean : is_empty u.issues ≡ (is_empty t.issues && all_of (in_currency currency) items)

item-some :
    (c : String) (d i : ℕ) (item : ItineraryItem) (t : Tally)
    → shaped_item item ≡ true
    → is_some (tally_item c d i item t) ≡ true
unfolding amount_shape_valid
item-some c d i item t h = ground arith

item-IsTallied :
    (c : String) (d i : ℕ) (item : ItineraryItem) (t u : Tally)
    → shaped_item item ≡ true
    → tally_item c d i item t ≡ some u
    → IsTallied c (item ∷ []) t u
unfolding amount_shape_valid
item-IsTallied c d i item t u h e = record {
  lower = ground arith;
  upper = ground arith;
  has_unknown = ground arith;
  clean = grind (arith, is_empty-append);
}

append-IsTallied :
    (c : String) (item : ItineraryItem) (items : List ItineraryItem) (t u v : Tally)
    → IsTallied c (item ∷ []) t u
    → IsTallied c items u v
    → IsTallied c (item ∷ items) t v
append-IsTallied c item items t u v f g = record {
  lower = omega (arith, f.lower, g.lower);
  upper = omega (arith, f.upper, g.upper);
  has_unknown = ground (arith, f.has_unknown, g.has_unknown);
  clean = ground (arith, f.clean, g.clean);
}

items-IsTallied :
    (c : String) (d i : ℕ) (items : List ItineraryItem) (t : Tally)
    → all_of shaped_item items ≡ true
    → (u : Tally) × (tally_items c d i items t ≡ some u) × IsTallied c items t u
unfolding tally_items
items-IsTallied c d i [] t h = (
  t,
  refl,
  record {
    lower = omega arith;
    upper = omega arith;
    has_unknown = ground arith;
    clean = ground arith;
  },
)
items-IsTallied c d i (item ∷ items) t h = elim (Option-cases (tally_item c d i item t)) [
  | inl absent ↦ absurd (ground (arith, item-some c d i item t))
  | inr (u, e) ↦
      let (v, e', f) = items-IsTallied c d (suc i) items u (ground arith) in
      rw e (
        v,
        e',
        append-IsTallied c item items t u v (item-IsTallied c d i item t u (ground arith) e) f,
      )
]

-- What the loop over the days makes of the tally `t`.
record IsClosed (currency : String) (days : List DailyItinerary) (t u : Tally) : Type 0 where
  lower : u.lower ≡ t.lower + sum_of (λ day. items_lower day.items) days
  upper : u.upper ≡ t.upper + sum_of (λ day. items_upper day.items) days
  clean :
      (is_empty u.issues && not u.has_unknown)
      ≡ ((is_empty t.issues && not t.has_unknown) && all_of (day_adds_up currency) days)

close_day-IsClosed :
    (c plan_id : String) (d : ℕ) (day : DailyItinerary) (t u : Tally)
    → IsTallied c day.items (fresh_tally t.issues) u
    → IsClosed c (day ∷ []) t (close_day c plan_id d day u t)
close_day-IsClosed c plan_id d day t u f = record {
  lower = omega (arith, f.lower);
  upper = omega (arith, f.upper);
  clean = grind (arith, f.clean, f.has_unknown, f.lower, f.upper, is_empty-append);
}

join-IsClosed :
    (c : String) (day : DailyItinerary) (days : List DailyItinerary) (t u v : Tally)
    → IsClosed c (day ∷ []) t u
    → IsClosed c days u v
    → IsClosed c (day ∷ days) t v
join-IsClosed c day days t u v f g = record {
  lower = omega (arith, f.lower, g.lower);
  upper = omega (arith, f.upper, g.upper);
  clean = ground (arith, f.clean, g.clean);
}

days-IsClosed :
    (c plan_id : String) (d : ℕ) (days : List DailyItinerary) (t : Tally)
    → all_of day_shaped days ≡ true
    → (u : Tally) × (tally_days c plan_id d days t ≡ some u) × IsClosed c days t u
unfolding tally_days
days-IsClosed c plan_id d [] t h =
    (t, refl, record { lower = omega arith; upper = omega arith; clean = ground arith })
days-IsClosed c plan_id d (day ∷ days) t h =
    let (u, e, f) = items-IsTallied c d 0 day.items (fresh_tally t.issues) (ground arith) in
    let (v, e', g) =
      days-IsClosed c plan_id (suc d) days (close_day c plan_id d day u t) (ground arith) in
    rw e (v, e', join-IsClosed c day days t _ v (close_day-IsClosed c plan_id d day t u f) g)

close_plan-is_empty :
    (plan : ItineraryVersion) (request : TripRequest) (u : Tally)
    → IsClosed request.budget.currency plan.days (fresh_tally []) u
    → is_empty (close_plan plan request u) ≡ is_within_budget plan request
close_plan-is_empty plan request u f = grind (arith, f.clean, f.lower, f.upper, is_empty-append)

-- For a plan whose costs keep to the contract of `CostEstimate`, `validate_budget` returns, and it
-- reports nothing exactly when every cost is known and in the request's currency, every day
-- declares the sum of its items, the plan declares the sum of its days, and the plan's upper cost
-- is at most the budget's total.
pub validate_budget-Exact :
    (plan : ItineraryVersion) (request : TripRequest)
    → costs_shaped plan ≡ true
    → (issues : List ValidationIssue) × (validate_budget plan request ≡ some issues)
      × (is_empty issues ≡ is_within_budget plan request)
unfolding validate_budget
validate_budget-Exact plan request h =
    let (u, e, f) =
      days-IsClosed request.budget.currency plan.plan_id 0 plan.days (fresh_tally []) h in
    rw e (close_plan plan request u, refl, close_plan-is_empty plan request u f)
