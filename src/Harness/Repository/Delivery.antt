-- ===== src/Harness/Repository/Delivery.antt =====
-- What a publisher of outbox rows may rely on.
use multi_agent_based_intell.Prelude.{
  ℕ, ◌≤◌, String, ◌≡◌, ◌≢◌, refl, true, false, Option, none, some, List, [], ◌∷◌, ok, arith, eq_iff,
  string_eq, pair_eq, All, contains, is_unique, is_some,
}
use multi_agent_based_intell.Prelude.Dict
use multi_agent_based_intell.Prelude.Dict.{Dict, keys, get-put_self, put-is_unique}
use multi_agent_based_intell.Harness.Repository.Records.{
  TaskRecord, EventRecord, OutboxRecord, Repository,
}
use multi_agent_based_intell.Harness.Repository.Events.{
  append_event_with_outbox, complete_task_with_event_outbox, complete_with_found, lease_outbox,
  outbox_batch, put_items, mark_outbox_published, mark_found, published_item, event_key,
}
use multi_agent_based_intell.Harness.Repository.Requests.{
  Request, new_run, new_tasks, lease, complete, beat, recover, checkpoint, event, event_with_outbox,
  complete_with_event, lease_batch, mark_published, perform, perform_all,
}
use multi_agent_based_intell.Harness.Repository.Outbox.{
  ItemChange, kept, appended, appended_with_task, batched, published, IsFiled, perform-ItemChange,
}
use multi_agent_based_intell.Harness.Repository.Outbox.Untouched.{
  create_run-outbox, add_tasks-outbox, lease_next_task-outbox, complete_task-outbox,
  heartbeat-outbox, recover-outbox, save_checkpoint-outbox, append_event-outbox,
}

abbrev IsDistinct : Dict String OutboxRecord → Type 0
IsDistinct d = is_unique (keys d) ≡ true

put_items-IsDistinct :
    (d : Dict String OutboxRecord) (items : List OutboxRecord)
    → IsDistinct d
    → IsDistinct (put_items d items)
unfolding put_items
put_items-IsDistinct d [] h = h
put_items-IsDistinct d (x ∷ rest) h =
    put_items-IsDistinct (Dict.put d x.outbox_id x) rest (put-is_unique d x.outbox_id x h)

module _ (s : Repository) (h : IsDistinct s.outbox) where
  append_with-IsDistinct :
      (e : EventRecord) (x : OutboxRecord) → IsDistinct (append_event_with_outbox s e x).1.outbox
  unfolding append_event_with_outbox
  append_with-IsDistinct e x = ground (arith, put-is_unique s.outbox x.outbox_id x h)

  complete_with-IsDistinct :
      (k w : String) (now : ℕ) (e : EventRecord) (x : OutboxRecord) (o : Option TaskRecord)
      → IsDistinct (complete_with_found s k w now e x o).1.outbox
  complete_with-IsDistinct k w now e x none = h
  complete_with-IsDistinct k w now e x (some t) =
      ground (arith, put-is_unique s.outbox x.outbox_id x h)

  lease_outbox-IsDistinct :
      (w : String) (now seconds limit : ℕ)
      → IsDistinct (lease_outbox s w now seconds limit).1.outbox
  unfolding lease_outbox
  lease_outbox-IsDistinct w now seconds limit =
      ground (arith, put_items-IsDistinct s.outbox (outbox_batch s w now seconds limit) h)

  mark-IsDistinct :
      (k w : String) (now : ℕ) (o : Option OutboxRecord)
      → IsDistinct (mark_found s k w now o).1.outbox
  mark-IsDistinct k w now none = h
  mark-IsDistinct k w now (some x) =
      ground (arith, put-is_unique s.outbox k (published_item x now) h)

perform-IsDistinct :
    (s : Repository) (r : Request) → IsDistinct s.outbox → IsDistinct (perform s r).outbox
unfolding perform
perform-IsDistinct s (new_run run) h = rw (create_run-outbox s run) h
perform-IsDistinct s (new_tasks records) h = rw (add_tasks-outbox s records) h
perform-IsDistinct s (lease w now seconds run) h = rw (lease_next_task-outbox s w now seconds run) h
perform-IsDistinct s (complete k w now) h = rw (complete_task-outbox s k w now) h
perform-IsDistinct s (beat k w now seconds) h = rw (heartbeat-outbox s k w now seconds) h
perform-IsDistinct s (recover now) h = rw (recover-outbox s now) h
perform-IsDistinct s (checkpoint c) h = rw (save_checkpoint-outbox s c) h
perform-IsDistinct s (event e) h = rw (append_event-outbox s e) h
perform-IsDistinct s (event_with_outbox e x) h = append_with-IsDistinct s h e x
perform-IsDistinct s (complete_with_event k w now e x) h =
    unfold complete_task_with_event_outbox in
    complete_with-IsDistinct s h k w now e x (Dict.get s.tasks k)
perform-IsDistinct s (lease_batch w now seconds limit) h =
    lease_outbox-IsDistinct s h w now seconds limit
perform-IsDistinct s (mark_published k w now) h =
    unfold mark_outbox_published in mark-IsDistinct s h k w now (Dict.get s.outbox k)

own-ItemChange :
    {i : String} {r : Request} {o o' : Option OutboxRecord}
    → ItemChange i r o o'
    → ((x : OutboxRecord) → o ≡ some x → x.outbox_id ≡ i)
    → (x : OutboxRecord) → o' ≡ some x
    → x.outbox_id ≡ i
own-ItemChange (kept _ _) h x e = h x e
own-ItemChange (appended ev y o own) h x e = ground arith
own-ItemChange (appended_with_task k w now ev y o own) h x e = ground arith
own-ItemChange (batched w now seconds limit y fits) h x e = ground (arith, h y refl)
own-ItemChange (published k w now y owned unpublished) h x e = ground (arith, h y refl)

-- Every request keeps the outbox filed by distinct ids.
pub perform-IsFiled :
    (s : Repository) (r : Request) → IsFiled s.outbox → IsFiled (perform s r).outbox
perform-IsFiled s r filed = record {
  distinct = perform-IsDistinct s r filed.distinct;
  own_id = λ i. own-ItemChange (perform-ItemChange s r i filed) (filed.own_id i);
}

-- A row that publisher `w` leased until `until`.
pub record IsTaken (x : OutboxRecord) (w : String) (until : ℕ) : Type 0 where
  pub owner : x.lease_owner ≡ some w
  pub end : x.lease_until ≡ some until

-- Requests that neither write a new row under id `i`, nor come from publisher `w`, nor lease rows
-- after `until`.
abbrev pub IsAside : String → String → ℕ → Request → Type 0
IsAside i w until (event_with_outbox e x) = x.outbox_id ≢ i
IsAside i w until (complete_with_event k v now e x) = x.outbox_id ≢ i
IsAside i w until (lease_batch v now seconds limit) = now ≤ until
IsAside i w until (mark_published k v now) = v ≢ w
IsAside i w until _ = Unit

taken-ItemChange :
    {i : String} {r : Request} {o o' : Option OutboxRecord}
    → ItemChange i r o o'
    → (x : OutboxRecord) (w : String) (until : ℕ) → IsTaken x w until
    → IsAside i w until r
    → o ≡ some x
    → o' ≡ some x
taken-ItemChange (kept _ _) x w until h f e = e
taken-ItemChange (appended ev y o own) x w until h f e = absurd (f own)
taken-ItemChange (appended_with_task k v now ev y o own) x w until h f e = absurd (f own)
taken-ItemChange (batched v now seconds limit y fits) x w until h f e =
    absurd (ground (arith, h.end, f))
taken-ItemChange (published k v now y owned unpublished) x w until h f e =
    absurd (f (ground (arith, h.owner, eq_iff w v)))

-- No duplicate delivery: while a publisher's lease lasts, no other publisher is handed the row or
-- can mark it, provided that no new event reuses the row's id.
pub outbox_exclusive :
    (s : Repository) (requests : List Request) (i : String) (x : OutboxRecord) (w : String)
    (until : ℕ)
    → IsFiled s.outbox
    → IsTaken x w until
    → All (IsAside i w until) requests
    → Dict.get s.outbox i ≡ some x
    → Dict.get (perform_all s requests).outbox i ≡ some x
unfolding perform_all
outbox_exclusive s [] i x w until filed h f e = e
outbox_exclusive s (r ∷ rest) i x w until filed h f e =
    outbox_exclusive (perform s r) rest i x w until (perform-IsFiled s r filed) h f.1
      (taken-ItemChange (perform-ItemChange s r i filed) x w until h f.0 e)

-- Requests that write no new row under id `i`.
abbrev pub IsElsewhere : String → Request → Type 0
IsElsewhere i (event_with_outbox e x) = x.outbox_id ≢ i
IsElsewhere i (complete_with_event k v now e x) = x.outbox_id ≢ i
IsElsewhere i _ = Unit

published-ItemChange :
    {i : String} {r : Request} {o o' : Option OutboxRecord}
    → ItemChange i r o o'
    → (x : OutboxRecord) → is_some x.published_at ≡ true
    → IsElsewhere i r
    → o ≡ some x
    → o' ≡ some x
published-ItemChange (kept _ _) x h f e = e
published-ItemChange (appended ev y o own) x h f e = absurd (f own)
published-ItemChange (appended_with_task k v now ev y o own) x h f e = absurd (f own)
published-ItemChange (batched v now seconds limit y fits) x h f e = absurd (ground arith)
published-ItemChange (published k v now y owned unpublished) x h f e = absurd (ground arith)

-- A published row is never leased or published again, provided that no new event reuses its id.
pub published_forever :
    (s : Repository) (requests : List Request) (i : String) (x : OutboxRecord)
    → IsFiled s.outbox
    → is_some x.published_at ≡ true
    → All (IsElsewhere i) requests
    → Dict.get s.outbox i ≡ some x
    → Dict.get (perform_all s requests).outbox i ≡ some x
unfolding perform_all
published_forever s [] i x filed h f e = e
published_forever s (r ∷ rest) i x filed h f e =
    published_forever (perform s r) rest i x (perform-IsFiled s r filed) h f.1
      (published-ItemChange (perform-ItemChange s r i filed) x h f.0 e)

-- Nothing checks that an outbox id is unused: an accepted event whose outbox row reuses an id
-- replaces the row, published or not.
pub append_replaces_row :
    (s : Repository) (e : EventRecord) (x : OutboxRecord)
    → contains s.event_keys (event_key e) ≡ false
    → Dict.has s.runs e.run_id ≡ true
    → x.event_id ≡ e.event_id
    → ((append_event_with_outbox s e x).0 ≡ ok true)
      × (Dict.get (append_event_with_outbox s e x).1.outbox x.outbox_id ≡ some x)
unfolding append_event_with_outbox
append_replaces_row s e x fresh run same =
    ground (arith, get-put_self s.outbox x.outbox_id x, eq_iff x.event_id e.event_id)
