-- ===== src/Mcp/Tasks.antt =====
-- crates/epica-mcp/src/tasks.rs: the trait `TaskStore` and its two implementations. A method on `&self`
-- changes what is behind the lock or in the database, so it returns the store after it. `sled` and
-- `serde_json` are interfaces; `holds` stands for what the database has on disk.
use Prim.Native.String.{String}
use epica.Prelude.{string_eq, nat_eq, list_eq, Result, ◌>>=◌, ℕ, ◌≡◌, Option, none, some, ok, err}
use epica.Quad.Platform.{Platform, id_eq}
use epica.Quad.HashMap.{HashMap, hash_get, hash_insert}
use epica.Ledger.Defs.{Bytes}

pub data TaskStatus ⦃p : Platform⦄ : Type 0 where
  pending running : TaskStatus
  completed : p.Json → TaskStatus
  failed : String → TaskStatus

pub record McpTask ⦃p : Platform⦄ : Type 0 where
  pub task_id : p.Uuid
  pub belief_key : String
  pub status : TaskStatus
  pub created_at_ms : ℕ

pub data TaskStoreError (SerdeError : Type 0) : Type 0 where
  backend : String → TaskStoreError SerdeError
  serde : SerdeError → TaskStoreError SerdeError

pub record TaskStore ⦃p : Platform⦄ (S : Type 0) : Type 1 where
  pub Error : Type 0
  pub get : S → p.Uuid → Result Error (Option McpTask)
  pub insert : S → McpTask → S × Result Error (Unit {0})
  pub update_status : S → p.Uuid → TaskStatus → S × Result Error (Unit {0})

-- A task whose result, if it has one, went through the function.
module _ ⦃p : Platform⦄ {E : Type 0} where
  unfoldable pub map_status : (p.Json → Result E p.Json) → TaskStatus → Result E TaskStatus
  map_status f pending = ok pending
  map_status f running = ok running
  map_status f (completed v) = f v >>= λ v'. ok (completed v')
  map_status f (failed e) = ok (failed e)

  unfoldable pub map_result : (p.Json → Result E p.Json) → McpTask → Result E McpTask
  map_result f t = map_status f t.status >>= λ s. ok (record t { status = s })

-- `sled::Db` and the JSON of a task. A read that succeeds answers what the database has; a write that
-- succeeds changes one key. `reread` is what printing and parsing make of a JSON value: its numbers may
-- change in the last digits, and a value that is nested too deep is refused. The ids, texts, times and
-- tags of a task come back as they are.
pub record Sled ⦃p : Platform⦄ : Type 1 where
  pub Db : Type 0
  pub SledError : Type 0
  pub SerdeError : Type 0
  pub to_string : SledError → String
  pub as_bytes : p.Uuid → Bytes
  pub db_get : Db → Bytes → Result SledError (Option Bytes)
  pub db_insert : Db → Bytes → Bytes → Db × Result SledError (Unit {0})
  pub to_vec : McpTask → Result SerdeError Bytes
  pub from_slice : Bytes → Result SerdeError McpTask
  pub reread : p.Json → Result SerdeError p.Json
  pub from_slice-to_vec :
      (t : McpTask) (b : Bytes) → to_vec t ≡ ok b → from_slice b ≡ map_result reread t
  pub holds : Db → Bytes → Option Bytes
  pub as_bytes-injective : (a b : p.Uuid) → as_bytes a ≡ as_bytes b → a ≡ b
  pub db_get-holds : (d : Db) (k : Bytes) {o : Option Bytes} → db_get d k ≡ ok o → o ≡ holds d k
  pub holds-insert_same :
      (d : Db) (k v : Bytes) → (db_insert d k v).1 ≡ ok tt → holds (db_insert d k v).0 k ≡ some v
  pub holds-insert_other :
      (d : Db) (k v j : Bytes)
      → (db_insert d k v).1 ≡ ok tt
      → ¬ (k ≡ j)
      → holds (db_insert d k v).0 j ≡ holds d j

module _ ⦃p : Platform⦄ where
  abbrev pub with_status : McpTask → TaskStatus → McpTask
  with_status t s = record t { status = s }

  abbrev pub InMemoryTaskStore : Type 0
  InMemoryTaskStore = HashMap p.Uuid McpTask

  unfoldable pub memory_get : InMemoryTaskStore → p.Uuid → Option McpTask
  memory_get m id = hash_get ⦃e = p.uuid_eq⦄ m id

  unfoldable pub memory_insert : InMemoryTaskStore → McpTask → InMemoryTaskStore
  memory_insert m t = hash_insert ⦃e = p.uuid_eq⦄ m t.task_id t

  unfoldable pub memory_update_status : InMemoryTaskStore → p.Uuid → TaskStatus → InMemoryTaskStore
  memory_update_status m id s = elim (memory_get m id) [
    | none ↦ m
    | some t ↦ hash_insert ⦃e = p.uuid_eq⦄ m id (with_status t s)
  ]

  -- No method of the store in memory fails.
  abbrev pub in_memory : Type 0 → TaskStore InMemoryTaskStore
  in_memory E = record {
    Error = E;
    get = λ m id. ok (memory_get m id);
    insert = λ m t. (memory_insert m t, ok tt);
    update_status = λ m id s. (memory_update_status m id s, ok tt);
  }

module _ ⦃p : Platform⦄ ⦃sl : Sled⦄ where
  abbrev pub StoreError : Type 0
  StoreError = TaskStoreError sl.SerdeError

  abbrev pub backend_error : {A : Type 0} → Result sl.SledError A → Result StoreError A
  backend_error (ok a) = ok a
  backend_error (err e) = err (backend (sl.to_string e))

  abbrev pub serde_error : {A : Type 0} → Result sl.SerdeError A → Result StoreError A
  serde_error (ok a) = ok a
  serde_error (err e) = err (serde e)

  unfoldable pub decoded : Option Bytes → Result StoreError (Option McpTask)
  decoded none = ok none
  decoded (some b) = elim (serde_error (sl.from_slice b)) [ ok t ↦ ok (some t) | err e ↦ err e ]

  unfoldable pub sled_get : sl.Db → p.Uuid → Result StoreError (Option McpTask)
  sled_get d id = elim (backend_error (sl.db_get d (sl.as_bytes id))) [
    | err e ↦ err e
    | ok o ↦ decoded o
  ]

  unfoldable pub sled_put : sl.Db → p.Uuid → McpTask → sl.Db × Result StoreError (Unit {0})
  sled_put d id t = elim (serde_error (sl.to_vec t)) [
    | err e ↦ (d, err e)
    | ok b ↦ let (d', r) = sl.db_insert d (sl.as_bytes id) b in (d', backend_error r)
  ]

  unfoldable pub sled_insert : sl.Db → McpTask → sl.Db × Result StoreError (Unit {0})
  sled_insert d t = sled_put d t.task_id t

  unfoldable pub sled_update_status :
      sl.Db → p.Uuid → TaskStatus → sl.Db × Result StoreError (Unit {0})
  sled_update_status d id s = elim (sled_get d id) [
    | err e ↦ (d, err e)
    | ok none ↦ (d, ok tt)
    | ok (some t) ↦ sled_put d id (with_status t s)
  ]

  abbrev pub on_disk : TaskStore sl.Db
  on_disk = record {
    Error = StoreError;
    get = sled_get;
    insert = sled_insert;
    update_status = sled_update_status;
  }
