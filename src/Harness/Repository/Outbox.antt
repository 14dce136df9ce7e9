-- ===== src/Harness/Repository/Outbox.antt =====
-- The life of one outbox row.
pub mod Untouched
use multi_agent_based_intell.Prelude.{
  pair_eq, ℕ, zero, suc, String, ◌≡◌, refl, sym, ◌∙◌, ap, subst, if_both, ◌⊎◌, inl, inr, Bool, true,
  false, not, ◌||◌, Option, none, some, List, [], ◌∷◌, map, Memᴰ, arith, eq_iff, ltb, ◌==◌,
  string_eq, contains, is_unique, Bool-cases, is_some, select, mem-of-select,
}
use multi_agent_based_intell.Prelude.Dict
use multi_agent_based_intell.Prelude.Dict.{Dict, values, keys, get-put, get_of_value}
use multi_agent_based_intell.Prelude.Sorting.{sort_by, mem-of-sort_by}
use multi_agent_based_intell.Harness.Repository.Records.{
  TaskRecord, EventRecord, OutboxRecord, Repository, Reply,
}
use multi_agent_based_intell.Harness.Repository.Tasks.{is_owner, is_leased}
use multi_agent_based_intell.Harness.Repository.Events.{
  append_event_with_outbox, complete_task_with_event_outbox, complete_with_found, lease_outbox,
  outbox_batch, outbox_before, take, put_items, leased_item, can_lease, mark_outbox_published,
  mark_found, published_item, event_key, names_task,
}
use multi_agent_based_intell.Harness.Repository.Requests.{
  Request, new_run, new_tasks, lease, complete, beat, recover, checkpoint, event, event_with_outbox,
  complete_with_event, lease_batch, mark_published, perform,
}
use multi_agent_based_intell.Harness.Repository.Outbox.Untouched.{
  create_run-outbox, add_tasks-outbox, lease_next_task-outbox, complete_task-outbox,
  heartbeat-outbox, recover-outbox, save_checkpoint-outbox, append_event-outbox,
}

-- How request `r` changes the outbox row of id `i`.
pub data ItemChange (i : String)
    : Request → Option OutboxRecord → Option OutboxRecord → Type 0 where
  kept : (r : Request) (o : Option OutboxRecord) → ItemChange i r o o
  appended :
      (e : EventRecord) (item : OutboxRecord) (o : Option OutboxRecord)
      → item.outbox_id ≡ i
      → ItemChange i (event_with_outbox e item) o (some item)
  appended_with_task :
      (k w : String) (now : ℕ) (e : EventRecord) (item : OutboxRecord) (o : Option OutboxRecord)
      → item.outbox_id ≡ i
      → ItemChange i (complete_with_event k w now e item) o (some item)
  batched :
      (w : String) (now seconds limit : ℕ) (item : OutboxRecord)
      → can_lease now item ≡ true
      → ItemChange i
          (lease_batch w now seconds limit)
          (some item)
          (some (leased_item w now seconds item))
  published :
      (k w : String) (now : ℕ) (item : OutboxRecord)
      → is_owner item.lease_owner w ≡ true
      → is_some item.published_at ≡ false
      → ItemChange i (mark_published k w now) (some item) (some (published_item item now))

-- Rows stand under their own ids, which are distinct.
pub record IsFiled (outbox : Dict String OutboxRecord) : Type 0 where
  pub distinct : is_unique (keys outbox) ≡ true
  pub own_id : (i : String) (o : OutboxRecord) → Dict.get outbox i ≡ some o → o.outbox_id ≡ i

mem-take :
    (n : ℕ) (items : List OutboxRecord) {x : OutboxRecord} → Memᴰ x (take n items) → Memᴰ x items
unfolding take
mem-take zero items m = elim m [ ]
mem-take (suc n) [] m = elim m [ ]
mem-take (suc n) (y ∷ ys) (Memᴰ.head e) = Memᴰ.head e
mem-take (suc n) (y ∷ ys) (Memᴰ.tail m) = Memᴰ.tail (mem-take n ys m)

-- After the batch is written back, an id has its old row or a leased copy of a chosen row.
put_items_cases :
    (d : Dict String OutboxRecord) (w : String) (now seconds : ℕ) (items : List OutboxRecord)
    (i : String)
    → (Dict.get (put_items d (map (leased_item w now seconds) items)) i ≡ Dict.get d i)
      ⊎ ((x : OutboxRecord) × Memᴰ x items
          × (x.outbox_id ≡ i)
          × (Dict.get (put_items d (map (leased_item w now seconds) items)) i
              ≡ some (leased_item w now seconds x)))
unfolding put_items
put_items_cases d w now seconds [] i = inl refl
put_items_cases d w now seconds (x ∷ rest) i =
    elim (put_items_cases (Dict.put d x.outbox_id (leased_item w now seconds x)) w now seconds rest
      i) [
        | inr (y, m, own, e) ↦ inr (y, Memᴰ.tail m, own, e)
        | inl same ↦ elim (Bool-cases (x.outbox_id == i)) [
          | inl here ↦ inr (
            x,
            Memᴰ.head refl,
            (eq_iff x.outbox_id i).0 here,
            ground (arith, get-put d x.outbox_id i (leased_item w now seconds x)),
          )
          | inr other ↦ inl (ground (arith, get-put d x.outbox_id i (leased_item w now seconds x)))
        ]
      ]

module _ (s : Repository) (i : String) (filed : IsFiled s.outbox) where
  batch-ItemChange :
      (w : String) (now seconds limit : ℕ)
      → ItemChange i
          (lease_batch w now seconds limit)
          (Dict.get s.outbox i)
          (Dict.get (put_items s.outbox (outbox_batch s w now seconds limit)) i)
  batch-ItemChange w now seconds limit =
      elim (put_items_cases s.outbox w now seconds
        (take limit (sort_by outbox_before (select (can_lease now) (values s.outbox)))) i) [
          | inl same ↦ rw same (kept _ _)
          | inr (x, m, own, e) ↦
              let (stored, fits) =
                mem-of-select (can_lease now) (values s.outbox)
                  (mem-of-sort_by outbox_before _ (mem-take limit _ m)) in
              let (j, at) = get_of_value s.outbox filed.distinct stored in
              let found : Dict.get s.outbox i ≡ some x =
                subst (λ k. Dict.get s.outbox k ≡ some x) (sym (filed.own_id j x at) ∙ own) at in
              rw (found, e) (batched w now seconds limit x fits)
        ]

  lease_outbox-ItemChange :
      (w : String) (now seconds limit : ℕ)
      → ItemChange i
          (lease_batch w now seconds limit)
          (Dict.get s.outbox i)
          (Dict.get (lease_outbox s w now seconds limit).1.outbox i)
  unfolding lease_outbox
  lease_outbox-ItemChange w now seconds limit =
      if_both
        (λ (q : Reply (List OutboxRecord)).
          ItemChange i (lease_batch w now seconds limit) (Dict.get s.outbox i)
            (Dict.get q.1.outbox i))
        (ltb seconds 1 || ltb limit 1) (λ _. kept _ _) (λ _. batch-ItemChange w now seconds limit)

  put-ItemChange :
      {r : Request} (k : String) (x : OutboxRecord)
      → (k ≡ i → ItemChange i r (Dict.get s.outbox i) (some x))
      → ItemChange i r (Dict.get s.outbox i) (Dict.get (Dict.put s.outbox k x) i)
  put-ItemChange {r} k x c = elim (Bool-cases (k == i)) [
    | inr other ↦ rw (get-put, other) (kept r (Dict.get s.outbox i))
    | inl same ↦ rw (get-put, same) (c ((eq_iff k i).0 same))
  ]

  mark-ItemChange :
      (k w : String) (now : ℕ) (o : Option OutboxRecord)
      → Dict.get s.outbox k ≡ o
      → ItemChange i
          (mark_published k w now)
          (Dict.get s.outbox i)
          (Dict.get (mark_found s k w now o).1.outbox i)
  mark-ItemChange k w now none e = kept _ _
  mark-ItemChange k w now (some x) e =
      if_both
        (λ (q : Bool × Repository).
          ItemChange i (mark_published k w now) (Dict.get s.outbox i) (Dict.get q.1.outbox i))
        (not (is_owner x.lease_owner w) || is_some x.published_at) (λ _. kept _ _)
        λ free. put-ItemChange k (published_item x now) λ here.
          subst (λ o. ItemChange i (mark_published k w now) o (some (published_item x now)))
            (sym e ∙ ap (Dict.get s.outbox) here)
            (published k w now x (ground arith) (ground arith))

  append_with-ItemChange :
      (e : EventRecord) (x : OutboxRecord)
      → ItemChange i
          (event_with_outbox e x)
          (Dict.get s.outbox i)
          (Dict.get (append_event_with_outbox s e x).1.outbox i)
  unfolding append_event_with_outbox
  append_with-ItemChange e x =
      let P = λ (q : Reply Bool).
        ItemChange i (event_with_outbox e x) (Dict.get s.outbox i) (Dict.get q.1.outbox i) in
      if_both P (contains s.event_keys (event_key e)) (λ _. kept _ _)
        λ _.
          if_both P (not (Dict.has s.runs e.run_id)) (λ _. kept _ _)
            λ _.
              if_both P (not (x.event_id == e.event_id)) (λ _. kept _ _)
                λ _. put-ItemChange x.outbox_id x (appended e x (Dict.get s.outbox i))

  complete_with-ItemChange :
      (k w : String) (now : ℕ) (e : EventRecord) (x : OutboxRecord) (o : Option TaskRecord)
      → ItemChange i
          (complete_with_event k w now e x)
          (Dict.get s.outbox i)
          (Dict.get (complete_with_found s k w now e x o).1.outbox i)
  complete_with-ItemChange k w now e x none = kept _ _
  complete_with-ItemChange k w now e x (some t) =
      let P = λ (q : Reply (Unit {0})).
        ItemChange i (complete_with_event k w now e x) (Dict.get s.outbox i)
          (Dict.get q.1.outbox i) in
      if_both P (not (is_leased t.state) || not (is_owner t.lease_owner w)) (λ _. kept _ _)
        λ _.
          if_both P (not (names_task e.task_id k) || not (e.run_id == t.run_id)) (λ _. kept _ _)
            λ _.
              if_both P (not (x.event_id == e.event_id)) (λ _. kept _ _)
                λ _.
                  if_both P (contains s.event_keys (event_key e)) (λ _. kept _ _)
                    λ _.
                      put-ItemChange x.outbox_id x
                        (appended_with_task k w now e x (Dict.get s.outbox i))

-- Every request treats each outbox row as `ItemChange` says.
pub perform-ItemChange :
    (s : Repository) (r : Request) (i : String)
    → IsFiled s.outbox
    → ItemChange i r (Dict.get s.outbox i) (Dict.get (perform s r).outbox i)
unfolding perform
perform-ItemChange s (new_run run) i filed = rw (create_run-outbox s run) (kept _ _)
perform-ItemChange s (new_tasks records) i filed = rw (add_tasks-outbox s records) (kept _ _)
perform-ItemChange s (lease w now seconds run) i filed =
    rw (lease_next_task-outbox s w now seconds run) (kept _ _)
perform-ItemChange s (complete k w now) i filed = rw (complete_task-outbox s k w now) (kept _ _)
perform-ItemChange s (beat k w now seconds) i filed =
    rw (heartbeat-outbox s k w now seconds) (kept _ _)
perform-ItemChange s (recover now) i filed = rw (recover-outbox s now) (kept _ _)
perform-ItemChange s (checkpoint c) i filed = rw (save_checkpoint-outbox s c) (kept _ _)
perform-ItemChange s (event e) i filed = rw (append_event-outbox s e) (kept _ _)
perform-ItemChange s (event_with_outbox e x) i filed = append_with-ItemChange s i filed e x
perform-ItemChange s (complete_with_event k w now e x) i filed =
    unfold complete_task_with_event_outbox in
    complete_with-ItemChange s i filed k w now e x (Dict.get s.tasks k)
perform-ItemChange s (lease_batch w now seconds limit) i filed =
    lease_outbox-ItemChange s i filed w now seconds limit
perform-ItemChange s (mark_published k w now) i filed =
    unfold mark_outbox_published in mark-ItemChange s i filed k w now (Dict.get s.outbox k) refl
