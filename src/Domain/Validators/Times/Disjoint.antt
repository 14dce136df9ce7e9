-- ===== src/Domain/Validators/Times/Disjoint.antt =====
-- `validate_overlaps` compares neighbours only, and yet it excludes every overlap.
use multi_agent_based_intell.Prelude.{
  ℕ, suc, ◌≤◌, ◌≡◌, ◌≢◌, ◌⊎◌, inl, inr, Bool, true, false, List, [], ◌∷◌, Memᴰ, arith, ltb, All,
  All_mem, is_empty, is_empty-append,
}
use multi_agent_based_intell.Prelude.Sorting.{sort_by, IsSorted, mem-sort_by, sort_by-IsSorted}
use multi_agent_based_intell.Domain.Itinerary.{ItineraryItem, DailyItinerary, ItineraryVersion}
use multi_agent_based_intell.Domain.Validators.Times.{
  starts_before, overlaps_after, ordered_overlaps, days_overlaps, validate_overlaps,
}

-- Every item ends before each later one starts.
abbrev IsApart : List ItineraryItem → Type 0
IsApart [] = Unit
IsApart (x ∷ xs) = All (λ y. x.end_at.instant ≤ y.start_at.instant) xs × IsApart xs

-- An item that starts before it ends: `chronology_and_route_shape_are_valid`.
abbrev pub ends_later : ItineraryItem → Bool
ends_later item = ltb item.start_at.instant item.end_at.instant

All-later :
    (x y : ItineraryItem) (xs : List ItineraryItem)
    → x.end_at.instant ≤ y.start_at.instant
    → All (λ z. starts_before y z ≡ true) xs
    → All (λ z. x.end_at.instant ≤ z.start_at.instant) xs
All-later x y [] le h = tt
All-later x y (z ∷ xs) le h = (ground (arith, h.0), All-later x y xs le h.1)

after-IsApart :
    (d : ℕ) (x : ItineraryItem) (xs : List ItineraryItem)
    → IsSorted starts_before (x ∷ xs)
    → is_empty (overlaps_after d x xs) ≡ true
    → IsApart (x ∷ xs)
unfolding overlaps_after
after-IsApart d x [] s h = (tt, tt)
after-IsApart d x (y ∷ ys) s h =
    let rest = after-IsApart d y ys s.1 (grind (arith, is_empty-append)) in
    let le : x.end_at.instant ≤ y.start_at.instant = grind (arith, is_empty-append) in
    ((le, All-later x y ys le s.1.0), rest)

ordered-IsApart :
    (d : ℕ) (xs : List ItineraryItem)
    → IsSorted starts_before xs
    → is_empty (ordered_overlaps d xs) ≡ true
    → IsApart xs
ordered-IsApart d [] s h = tt
ordered-IsApart d (x ∷ xs) s h = after-IsApart d x xs s h

pair_apart :
    (xs : List ItineraryItem) {x y : ItineraryItem}
    → IsApart xs
    → Memᴰ x xs
    → Memᴰ y xs
    → x ≢ y
    → (x.end_at.instant ≤ y.start_at.instant) ⊎ (y.end_at.instant ≤ x.start_at.instant)
pair_apart [] a m n differ = elim m [ ]
pair_apart (z ∷ xs) a (Memᴰ.head e) (Memᴰ.head e') differ = absurd (differ cc)
pair_apart (z ∷ xs) a (Memᴰ.head e) (Memᴰ.tail n) differ =
    inl (rw e (All_mem (λ w. z.end_at.instant ≤ w.start_at.instant) xs a.0 n))
pair_apart (z ∷ xs) a (Memᴰ.tail m) (Memᴰ.head e) differ =
    inr (rw e (All_mem (λ w. z.end_at.instant ≤ w.start_at.instant) xs a.0 m))
pair_apart (z ∷ xs) a (Memᴰ.tail m) (Memᴰ.tail n) differ = pair_apart xs a.1 m n differ

starts_before-total : (a b : ItineraryItem) → starts_before a b ≡ false → starts_before b a ≡ true
starts_before-total a b h = ground arith

starts_before_trans :
    (a b c : ItineraryItem)
    → starts_before a b ≡ true
    → starts_before b c ≡ true
    → starts_before a c ≡ true
starts_before_trans a b c h k = ground arith

day_clean :
    (d : ℕ) (days : List DailyItinerary) {day : DailyItinerary}
    → is_empty (days_overlaps d days) ≡ true
    → Memᴰ day days
    → (n : ℕ) × (is_empty (ordered_overlaps n (sort_by starts_before day.items)) ≡ true)
unfolding days_overlaps
day_clean d [] h m = elim m [ ]
day_clean d (first ∷ days) h (Memᴰ.head e) = (
  d,
  rw e (
      ground (
        arith,
        is_empty-append (ordered_overlaps d (sort_by starts_before first.items))
            (days_overlaps (suc d) days),
      )),
)
day_clean d (first ∷ days) h (Memᴰ.tail m) =
    day_clean (suc d) days
      (ground (
        arith,
        is_empty-append (ordered_overlaps d (sort_by starts_before first.items))
            (days_overlaps (suc d) days),
      ))
      m

-- When `validate_overlaps` reports nothing, of any two different items of a day one ends before the
-- other starts, although only neighbours in the order of their starts are compared.
pub validate_overlaps-IsDisjoint :
    (plan : ItineraryVersion) (day : DailyItinerary) (x y : ItineraryItem)
    → is_empty (validate_overlaps plan) ≡ true
    → Memᴰ day plan.days
    → Memᴰ x day.items
    → Memᴰ y day.items
    → x ≢ y
    → (x.end_at.instant ≤ y.start_at.instant) ⊎ (y.end_at.instant ≤ x.start_at.instant)
unfolding validate_overlaps
validate_overlaps-IsDisjoint plan day x y h m a b differ =
    let (n, clean) = day_clean 0 plan.days h m in
    pair_apart (sort_by starts_before day.items)
      (ordered-IsApart n (sort_by starts_before day.items)
        (sort_by-IsSorted starts_before starts_before-total starts_before_trans day.items) clean)
      (mem-sort_by starts_before day.items a) (mem-sort_by starts_before day.items b) differ
