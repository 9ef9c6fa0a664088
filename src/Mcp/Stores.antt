-- ===== src/Mcp/Stores.antt =====
-- crates/epica-mcp/src/tasks.rs: the store on disk against the store in memory, over any sequence of calls.
use epica.Prelude.{
  string_eq, nat_eq, ne_of_test, list_eq, Bool-cases, some_inj, Result, ok_inj, Result-cases, ◌≡◌,
  refl, sym, ap, ◌∙◌, subst, inl, inr, Option, none, some, List, [], ◌∷◌, ok, err,
}
use epica.Quad.Platform.{Platform, id_eq}
use epica.Quad.HashMap.{hash_insert, hash_get-insert_same, hash_get-insert_other}
use epica.Ledger.Defs.{Bytes}
use epica.Mcp.Tasks.{
  TaskStatus, map_status, map_result, serde_error, McpTask, TaskStore, Sled, InMemoryTaskStore,
  memory_get, decoded, sled_get, sled_put, in_memory, sled_update_status, on_disk, StoreError,
  memory_insert, sled_insert, memory_update_status, with_status,
}

pub data Operation ⦃p : Platform⦄ : Type 0 where
  get_task : p.Uuid → Operation
  insert_task : McpTask → Operation
  update_task : p.Uuid → TaskStatus → Operation

module _ ⦃p : Platform⦄ {S : Type 0} where
  abbrev pub no_task : {E : Type 0} → S × Result E (Unit {0}) → S × Result E (Option McpTask)
  no_task (s, ok _) = (s, ok none)
  no_task (s, err e) = (s, err e)

  -- A call with what it answers; the calls that answer nothing answer no task.
  unfoldable pub answer : (ts : TaskStore S) → Operation → S → S × Result ts.Error (Option McpTask)
  answer ts (get_task id) s = (s, ts.get s id)
  answer ts (insert_task t) s = no_task (ts.insert s t)
  answer ts (update_task id u) s = no_task (ts.update_status s id u)

  unfoldable pub answers :
      (ts : TaskStore S) → List Operation → S → List (Result ts.Error (Option McpTask))
  answers ts [] s = []
  answers ts (o ∷ os) s = let (s', r) = answer ts o s in r ∷ answers ts os s'

module _ ⦃p : Platform⦄ ⦃sl : Sled⦄ where
  -- A task as it is after it was printed and parsed once.
  unfoldable pub reread_task : Option McpTask → Result StoreError (Option McpTask)
  reread_task none = ok none
  reread_task (some t) = elim (serde_error (map_result sl.reread t)) [
    | ok t' ↦ ok (some t')
    | err e ↦ err e
  ]

  -- The second list is the first with each task in it reread once, up to its first error.
  unfoldable pub IsFaithful :
      List (Result StoreError (Option McpTask)) → List (Result StoreError (Option McpTask)) → Type 0
  IsFaithful [] [] = Unit
  IsFaithful [] (r ∷ rs) = ⊥
  IsFaithful (a ∷ bs) [] = ⊥
  IsFaithful (a ∷ bs) (err e ∷ rs) = Unit
  IsFaithful (a ∷ bs) (ok b ∷ rs) =
      (o : Option McpTask) × (a ≡ ok o) × (reread_task o ≡ ok b) × IsFaithful bs rs

  abbrev Encodes : Option McpTask → Option Bytes → Type 0
  Encodes none none = Unit
  Encodes none (some b) = ⊥
  Encodes (some t) none = ⊥
  Encodes (some t) (some b) = sl.to_vec t ≡ ok b

  -- The database has the encoding of each task of the map and nothing else under a task's key.
  pub record Same (m : InMemoryTaskStore) (d : sl.Db) : Type 0 where
    pub at : (id : p.Uuid) → Encodes (memory_get m id) (sl.holds d (sl.as_bytes id))

  decoded-Encodes :
      (o : Option McpTask) (b : Option Bytes) → Encodes o b → decoded b ≡ reread_task o
  unfolding decoded reread_task
  decoded-Encodes none none e = refl
  decoded-Encodes none (some b) e = absurd e
  decoded-Encodes (some t) none e = absurd e
  decoded-Encodes (some t) (some b) e = rw (sl.from_slice-to_vec t b e, decoded, reread_task) refl

  sled_get-Same :
      (m : InMemoryTaskStore) (d : sl.Db) (id : p.Uuid) {a : Option McpTask}
      → Same m d
      → sled_get d id ≡ ok a
      → reread_task (memory_get m id) ≡ ok a
  unfolding sled_get
  sled_get-Same m d id {a} s h = elim (Result-cases (sl.db_get d (sl.as_bytes id))) [
    | inr (x, e) ↦ absurd (cc (rw (e, sled_get) at h))
    | inl (o, e) ↦
        let known = sl.db_get-holds d (sl.as_bytes id) e in
        let same =
          decoded-Encodes (memory_get m id) o
            (subst (Encodes (memory_get m id)) (sym known) (s.at id)) in
        sym same ∙ (rw (e, sled_get) at h)
  ]

  -- Rereading changes nothing of a task but its status.
  reread_task-some :
      (o : Option McpTask) (t' : McpTask) (u : TaskStatus)
      → reread_task o ≡ ok (some t')
      → (t : McpTask) × (o ≡ some t) × (with_status t' u ≡ with_status t u)
  unfolding reread_task map_result
  reread_task-some none t' u h = absurd cc
  reread_task-some (some t) t' u h = elim (Result-cases (map_status sl.reread t.status)) [
    | inl (s, e) ↦
        let q : record t { status = s } ≡ t' =
          some_inj (ok_inj (rw (e, reread_task, map_result) at h)) in
        (t, refl, ap (λ x. with_status x u) (sym q))
    | inr (x, e) ↦ absurd (cc (rw (e, reread_task, map_result) at h))
  ]

  reread_task-none : (o : Option McpTask) → reread_task o ≡ ok none → o ≡ none
  unfolding reread_task
  reread_task-none none h = refl
  reread_task-none (some t) h = elim (Result-cases (map_result sl.reread t)) [
    | inl (x, e) ↦ absurd (cc (rw (e, reread_task) at h))
    | inr (x, e) ↦ absurd (cc (rw (e, reread_task) at h))
  ]

  sled_put-Same :
      (m : InMemoryTaskStore) (d : sl.Db) (id : p.Uuid) (t : McpTask)
      → Same m d
      → (sled_put d id t).1 ≡ ok tt
      → Same (hash_insert ⦃e = p.uuid_eq⦄ m id t) (sled_put d id t).0
  unfolding sled_put memory_get
  sled_put-Same m d id t s h = elim (Result-cases (sl.to_vec t)) [
    | inr (x, e) ↦ absurd (cc (rw (e, sled_put) at h))
    | inl (b, e) ↦ elim (Result-cases (sl.db_insert d (sl.as_bytes id) b).1) [
      | inr (x, f) ↦ absurd (cc (rw (e, f, sled_put) at h))
      | inl (u, f) ↦ rw (e, sled_put) (record { at = λ j. at_key b e f j })
    ]
  ]
    where
      at_key :
          (b : Bytes)
          → sl.to_vec t ≡ ok b
          → (sl.db_insert d (sl.as_bytes id) b).1 ≡ ok tt
          → (j : p.Uuid)
          → Encodes
              (memory_get (hash_insert ⦃e = p.uuid_eq⦄ m id t) j)
              (sl.holds (sl.db_insert d (sl.as_bytes id) b).0 (sl.as_bytes j))
      at_key b e f j = elim (Bool-cases (p.uuid_eq.beq id j)) [
        | inl same ↦
            let q : id ≡ j = (p.uuid_eq.beq_iff id j).0 same in
            subst
              (λ k.
                Encodes (memory_get (hash_insert ⦃e = p.uuid_eq⦄ m id t) k)
                  (sl.holds (sl.db_insert d (sl.as_bytes id) b).0 (sl.as_bytes k)))
              q
              (rw
                (
                  hash_get-insert_same ⦃e = p.uuid_eq⦄ m id t,
                  sl.holds-insert_same d (sl.as_bytes id) b f,
                )
                e)
        | inr other ↦
            let n = ne_of_test ⦃e = p.uuid_eq⦄ id j other in
            rw
              (
                hash_get-insert_other ⦃e = p.uuid_eq⦄ m id j t n,
                sl.holds-insert_other d (sl.as_bytes id) b (sl.as_bytes j) f
                    (λ q. n (sl.as_bytes-injective id j q)),
              )
              (s.at j)
      ]

  put_answer :
      (m : InMemoryTaskStore) (d : sl.Db) (id : p.Uuid) (t : McpTask) {a : Option McpTask}
      → Same m d
      → (no_task (sled_put d id t)).1 ≡ ok a
      → (none ≡ a) × Same (hash_insert ⦃e = p.uuid_eq⦄ m id t) (no_task (sled_put d id t)).0
  put_answer m d id t {a} s h = elim (Result-cases (sled_put d id t).1) [
    | inr (x, e) ↦ absurd (cc (rw e at h))
    | inl (u, e) ↦ (ok_inj (rw e at h), rw e (sled_put-Same m d id t s e))
  ]

  update_answer :
      (m : InMemoryTaskStore) (d : sl.Db) (id : p.Uuid) (u : TaskStatus) {a : Option McpTask}
      → Same m d
      → (no_task (sled_update_status d id u)).1 ≡ ok a
      → (none ≡ a) × Same (memory_update_status m id u) (no_task (sled_update_status d id u)).0
  unfolding sled_update_status memory_update_status
  update_answer m d id u {a} s h = elim (Result-cases (sled_get d id)) [
    | inr (x, e) ↦ absurd (cc (rw (e, sled_update_status) at h))
    | inl (none, e) ↦
        rw
          (
            e,
            reread_task-none _ (sled_get-Same m d id s e),
            sled_update_status,
            memory_update_status,
          )
          (ok_inj (rw (e, sled_update_status) at h), s)
    | inl (some t', e) ↦
        let (t, here, same) = reread_task-some _ t' u (sled_get-Same m d id s e) in
        rw (e, here, sled_update_status, memory_update_status, same)
          (put_answer m d id (with_status t u) s (rw (e, sled_update_status, same) at h))
  ]

  step-Same :
      (o : Operation) (m : InMemoryTaskStore) (d : sl.Db) {a : Option McpTask}
      → Same m d
      → (answer on_disk o d).1 ≡ ok a
      → ((b : Option McpTask) × ((answer (in_memory StoreError) o m).1 ≡ ok b)
          × (reread_task b ≡ ok a))
        × Same (answer (in_memory StoreError) o m).0 (answer on_disk o d).0
  unfolding answer memory_insert sled_insert reread_task
  step-Same (get_task id) m d s h = ((memory_get m id, refl, sled_get-Same m d id s h), s)
  step-Same (insert_task t) m d s h =
      let (n, s') = put_answer m d t.task_id t s h in ((none, refl, ap ok n), s')
  step-Same (update_task id u) m d s h =
      let (n, s') = update_answer m d id u s h in ((none, refl, ap ok n), s')

  -- From a database that has the encoding of each task of a map and nothing else under a task's key,
  -- the store on disk answers any sequence of calls as the store in memory does from that map, up to
  -- its first error, with the result of each completed task as printing and parsing it once makes
  -- it, however often the task was rewritten.
  pub answers-IsFaithful :
      (os : List Operation) (m : InMemoryTaskStore) (d : sl.Db)
      → Same m d
      → IsFaithful (answers (in_memory StoreError) os m) (answers on_disk os d)
  unfolding answers IsFaithful
  answers-IsFaithful [] m d s = tt
  answers-IsFaithful (o ∷ os) m d s = elim (Result-cases (answer on_disk o d).1) [
    | inr (x, e) ↦ rw e tt
    | inl (a, e) ↦
        let ((b, same, once), s') = step-Same o m d s e in
        rw e (
          b,
          same,
          once,
          answers-IsFaithful os (answer (in_memory StoreError) o m).0 (answer on_disk o d).0 s',
        )
  ]
