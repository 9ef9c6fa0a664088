-- ===== src/Quad/Platform.antt =====
-- What the belief quad takes from outside the repository: the types `BeliefId`, `f32`, `serde_json::Value`
-- and `Uuid` with their operations, `slotmap` and `petgraph`. The laws are their documented behaviour.
use epica.Prelude.{
  leb, if◌then◌else◌, Eq, string_eq, nat_eq, list_eq, IsListed, ℕ, ◌+◌, ◌-◌, ◌^◌, ◌≤◌, String, ◌≡◌,
  ◌≢◌, ◌↔◌, Bool, true, false, Option, none, some, List,
}

pub record Platform : Type 1 where
  pub BeliefId : Type 0
  pub F32 : Type 0
  pub Json : Type 0
  pub Uuid : Type 0
  pub belief_id_eq : Eq BeliefId
  pub json_eq : Eq Json
  pub uuid_eq : Eq Uuid
  -- `BeliefId::default()`, a key that no map hands out.
  pub null_id : BeliefId
  pub zero : F32
  pub negative_zero : F32
  pub add : F32 → F32 → F32
  pub mul : F32 → F32 → F32
  pub div : F32 → F32 → F32
  pub sqrt : F32 → F32
  pub le : F32 → F32 → Bool
  pub lt : F32 → F32 → Bool
  pub is_zero : F32 → Bool
  -- `clamp(0.0, 1.0)`
  pub clamp_unit : F32 → F32
  -- `(a - b).abs() > 1e-6`
  pub moved : F32 → F32 → Bool
  pub moved_refl : (a : F32) → moved a a ≡ false
  -- `NotNan::new(x).unwrap_or(0.0)`, and the order on what it gives.
  pub not_nan : F32 → F32
  pub le_refl : (a : F32) → le (not_nan a) (not_nan a) ≡ true
  pub le_trans :
      (a b c : F32)
      → le (not_nan a) (not_nan b) ≡ true
      → le (not_nan b) (not_nan c) ≡ true
      → le (not_nan a) (not_nan c) ≡ true
  pub le_total :
      (a b : F32) → le (not_nan a) (not_nan b) ≡ false → le (not_nan b) (not_nan a) ≡ true
  -- A value that is not a number stays what it is.
  pub clamp_idem : (a : F32) → clamp_unit (clamp_unit a) ≡ clamp_unit a
  pub one : F32
  pub sub : F32 → F32 → F32
  pub abs : F32 → F32
  pub max : F32 → F32 → F32
  pub min : F32 → F32 → F32
  -- `n as f32`, exact up to 2 ^ 24, and `x as u32`.
  pub of_nat : ℕ → F32
  pub to_nat : F32 → ℕ
  pub le-of_nat : (m n : ℕ) → m ≤ 2 ^ 24 → n ≤ 2 ^ 24 → (le (of_nat m) (of_nat n) ≡ true) ↔ (m ≤ n)
  pub sub-of_nat : (m n : ℕ) → m ≤ 2 ^ 24 → n ≤ m → sub (of_nat m) (of_nat n) ≡ of_nat (m - n)
  pub add-of_nat : (m n : ℕ) → m + n ≤ 2 ^ 24 → add (of_nat m) (of_nat n) ≡ of_nat (m + n)
  pub min-of_nat :
      (m n : ℕ)
      → m ≤ 2 ^ 24
      → n ≤ 2 ^ 24
      → min (of_nat m) (of_nat n) ≡ of_nat (if leb m n then m else n)
  -- `f64`, in which the decay and the drift are computed.
  pub F64 : Type 0
  pub f64_of_nat : ℕ → F64
  pub f64_neg : F64 → F64
  pub f64_mul : F64 → F64 → F64
  pub f64_div : F64 → F64 → F64
  pub f64_exp : F64 → F64
  pub to_f32 : F64 → F32
  pub f64_infinity : F64
  pub f64_lt : F64 → F64 → Bool
  pub f64_le : F64 → F64 → Bool
  pub f64_sub : F64 → F64 → F64
  pub f64_min : F64 → F64 → F64
  pub f64_max : F64 → F64 → F64
  pub f64_sqrt : F64 → F64
  -- `trim().to_lowercase()`
  pub normalize : String → String
  pub tece_target : F32
  pub default_reflection_threshold : F32
  pub default_equivalence : F32
  pub default_contradiction : F32

instance abbrev pub id_eq : ⦃p : Platform⦄ → Eq p.BeliefId
id_eq ⦃p⦄ = p.belief_id_eq

-- `slotmap::SlotMap<K, N>`: `update` is a write through `get_mut`.
pub record SlotMap (K : Type 0) : Type 1 where
  pub Map : Type 0 → Type 0
  pub with_key : {N : Type 0} → Map N
  pub insert_with_key : {N : Type 0} → Map N → (K → N) → Map N × K
  pub get : {N : Type 0} → Map N → K → Option N
  pub update : {N : Type 0} → Map N → K → (N → N) → Map N
  pub remove : {N : Type 0} → Map N → K → Map N
  pub iter : {N : Type 0} → Map N → List (K × N)
  pub get-with_key : {N : Type 0} (k : K) → get {N = N} with_key k ≡ none
  pub get-insert_fresh : {N : Type 0} (m : Map N) (f : K → N) → get m (insert_with_key m f).1 ≡ none
  pub get-insert_same :
      {N : Type 0} (m : Map N) (f : K → N)
      → get (insert_with_key m f).0 (insert_with_key m f).1 ≡ some (f (insert_with_key m f).1)
  pub get-insert_other :
      {N : Type 0} (m : Map N) (f : K → N) (k : K)
      → (insert_with_key m f).1 ≢ k
      → get (insert_with_key m f).0 k ≡ get m k
  pub get-update_same :
      {N : Type 0} (m : Map N) (k : K) (f : N → N) {n : N}
      → get m k ≡ some n
      → get (update m k f) k ≡ some (f n)
  pub get-update_none :
      {N : Type 0} (m : Map N) (k : K) (f : N → N) → get m k ≡ none → get (update m k f) k ≡ none
  pub get-update_other :
      {N : Type 0} (m : Map N) (k j : K) (f : N → N) → k ≢ j → get (update m k f) j ≡ get m j
  pub get-remove_same : {N : Type 0} (m : Map N) (k : K) → get (remove m k) k ≡ none
  pub get-remove_other : {N : Type 0} (m : Map N) (k j : K) → k ≢ j → get (remove m k) j ≡ get m j

-- `petgraph::stable_graph::StableDiGraph<K, E>`: `outgoing` and `incoming` list the edges at a node with
-- the node at their other end; `dfs` and `dfs_reversed` list the nodes that `Dfs::next` yields.
pub record Petgraph (K : Type 0) : Type 1 where
  pub NodeIndex : Type 0
  pub index_eq : Eq NodeIndex
  pub Graph : Type 0 → Type 0
  pub empty : {E : Type 0} → Graph E
  pub add_node : {E : Type 0} → Graph E → K → Graph E × NodeIndex
  pub remove_node : {E : Type 0} → Graph E → NodeIndex → Graph E
  pub add_edge : {E : Type 0} → Graph E → NodeIndex → NodeIndex → E → Graph E
  pub weight : {E : Type 0} → Graph E → NodeIndex → Option K
  pub outgoing : {E : Type 0} → Graph E → NodeIndex → List (NodeIndex × E)
  pub incoming : {E : Type 0} → Graph E → NodeIndex → List (NodeIndex × E)
  pub dfs : {E : Type 0} → Graph E → NodeIndex → List NodeIndex
  pub dfs_reversed : {E : Type 0} → Graph E → NodeIndex → List NodeIndex
  pub node_indices : {E : Type 0} → Graph E → List NodeIndex
  pub weight-node_indices :
      {E : Type 0} (g : Graph E) (i : NodeIndex) {k : K}
      → weight g i ≡ some k
      → IsListed i (node_indices g)
  pub weight-empty : {E : Type 0} (i : NodeIndex) → weight (empty {E = E}) i ≡ none
  -- The index of a new node was free before.
  pub weight-add_node_fresh : {E : Type 0} (g : Graph E) (k : K) → weight g (add_node g k).1 ≡ none
  pub weight-add_node_same :
      {E : Type 0} (g : Graph E) (k : K) → weight (add_node g k).0 (add_node g k).1 ≡ some k
  pub weight-add_node_other :
      {E : Type 0} (g : Graph E) (k : K) (i : NodeIndex)
      → (add_node g k).1 ≢ i
      → weight (add_node g k).0 i ≡ weight g i
  pub weight-remove_node_same :
      {E : Type 0} (g : Graph E) (i : NodeIndex) → weight (remove_node g i) i ≡ none
  pub weight-remove_node :
      {E : Type 0} (g : Graph E) (i j : NodeIndex) → i ≢ j → weight (remove_node g i) j ≡ weight g j
  pub weight-add_edge :
      {E : Type 0} (g : Graph E) (i j n : NodeIndex) (e : E)
      → weight (add_edge g i j e) n ≡ weight g n
