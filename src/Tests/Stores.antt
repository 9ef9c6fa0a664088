-- ===== src/Tests/Stores.antt =====
-- Small instances of the platform of the belief quad, the slot map and the graphs.
use epica.Quad.Platform.{Platform, SlotMap, Petgraph}
use epica.Prelude.{
  ltb, leb, nat_beq, if◌then◌else◌, string_eq, nat_eq, list_eq, Bool-cases, Option-cases, IsListed,
  ℕ, suc, ◌+◌, ◌-◌, ◌*◌, ◌/◌, ◌^◌, ◌≤◌, min, ◌≡◌, refl, ap, ◌≢◌, ◌↔◌, inl, inr, true, false, not,
  Option, none, some, List, [], ◌∷◌, map, arith,
}
use Prim.Native.Nat.{max}
use epica.Quad.HashMap.{
  HashMap, hash_get-insert_other, hash_get-insert_same, hash_remove, hash_get-remove_other,
  hash_get, hash_get-remove_same, hash_insert,
}

-- An arena is a counter of the keys handed out and the values.
module _ {N : Type 0} where
  abbrev arena_get : ℕ × HashMap ℕ N → ℕ → Option N
  arena_get (next, m) k = if ltb k next then hash_get m k else none

  abbrev arena_insert : ℕ × HashMap ℕ N → (ℕ → N) → (ℕ × HashMap ℕ N) × ℕ
  arena_insert (next, m) f = ((suc next, hash_insert m next (f next)), next)

  abbrev replaced : HashMap ℕ N → ℕ → (N → N) → Option N → HashMap ℕ N
  replaced m k f none = m
  replaced m k f (some n) = hash_insert m k (f n)

  abbrev arena_update : ℕ × HashMap ℕ N → ℕ → (N → N) → ℕ × HashMap ℕ N
  arena_update (next, m) k f = (next, replaced m k f (hash_get m k))

  abbrev arena_remove : ℕ × HashMap ℕ N → ℕ → ℕ × HashMap ℕ N
  arena_remove (next, m) k = (next, hash_remove m k)

  pub insert_fresh : (a : ℕ × HashMap ℕ N) (f : ℕ → N) → arena_get a (arena_insert a f).1 ≡ none
  insert_fresh (next, m) f = let t : ltb next next ≡ false = ground arith in rw t refl

  pub insert_same :
      (a : ℕ × HashMap ℕ N) (f : ℕ → N)
      → arena_get (arena_insert a f).0 (arena_insert a f).1 ≡ some (f (arena_insert a f).1)
  insert_same (next, m) f =
      let t : ltb next (suc next) ≡ true = ground arith in
      rw t (hash_get-insert_same m next (f next))

  pub insert_other :
      (a : ℕ × HashMap ℕ N) (f : ℕ → N) (k : ℕ)
      → (arena_insert a f).1 ≢ k
      → arena_get (arena_insert a f).0 k ≡ arena_get a k
  insert_other (next, m) f k h =
      let t : ltb k (suc next) ≡ ltb k next = ground (arith, h) in
      rw (t, hash_get-insert_other m next k (f next) h) refl

  pub update_same :
      (a : ℕ × HashMap ℕ N) (k : ℕ) (f : N → N) {n : N}
      → arena_get a k ≡ some n
      → arena_get (arena_update a k f) k ≡ some (f n)
  update_same (next, m) k f {n} h = elim (Bool-cases (ltb k next)) [
    | inr t ↦ absurd (ground (arith, t, h))
    | inl t ↦
        let g : hash_get m k ≡ some n = ground (arith, t, h) in
        rw (g, t) (hash_get-insert_same m k (f n))
  ]

  pub update_none :
      (a : ℕ × HashMap ℕ N) (k : ℕ) (f : N → N)
      → arena_get a k ≡ none
      → arena_get (arena_update a k f) k ≡ none
  update_none (next, m) k f h = elim (Option-cases (hash_get m k)) [
    | inl g ↦ rw g h
    | inr (n, g) ↦ elim (Bool-cases (ltb k next)) [
      | inl t ↦ absurd (ground (arith, t, g, h))
      | inr t ↦ rw (g, t) refl
    ]
  ]

  pub update_other :
      (a : ℕ × HashMap ℕ N) (k j : ℕ) (f : N → N)
      → k ≢ j
      → arena_get (arena_update a k f) j ≡ arena_get a j
  update_other (next, m) k j f h = elim (Option-cases (hash_get m k)) [
    | inl g ↦ rw g refl
    | inr (n, g) ↦ rw (g, hash_get-insert_other m k j (f n) h) refl
  ]

  pub remove_same : (a : ℕ × HashMap ℕ N) (k : ℕ) → arena_get (arena_remove a k) k ≡ none
  remove_same (next, m) k = elim (Bool-cases (ltb k next)) [
    | inl t ↦ rw t (hash_get-remove_same m k)
    | inr t ↦ rw t refl
  ]

  pub remove_other :
      (a : ℕ × HashMap ℕ N) (k j : ℕ) → k ≢ j → arena_get (arena_remove a k) j ≡ arena_get a j
  remove_other (next, m) k j h = rw (hash_get-remove_other m k j h) refl

pub le_own : (a : ℕ) → leb a a ≡ true
le_own a = ground arith

pub le_chain : (a b c : ℕ) → leb a b ≡ true → leb b c ≡ true → leb a c ≡ true
le_chain a b c h k = ground arith

pub le_either : (a b : ℕ) → leb a b ≡ false → leb b a ≡ true
le_either a b h = ground arith

pub unmoved : (a : ℕ) → not (nat_beq a a) ≡ false
unmoved a = ground arith

pub clamp_twice : (a : ℕ) → min (min a 1) 1 ≡ min a 1
clamp_twice a = omega arith

abbrev lesser : ℕ → ℕ → ℕ
lesser a b = if leb a b then a else b

pub le_numbers : (m n : ℕ) → m ≤ 2 ^ 24 → n ≤ 2 ^ 24 → (leb m n ≡ true) ↔ (m ≤ n)
le_numbers m n h k = ground arith

abbrev pub numbers : Platform
numbers = record {
  BeliefId = ℕ;
  F32 = ℕ;
  Json = ℕ;
  Uuid = ℕ;
  belief_id_eq = nat_eq;
  json_eq = nat_eq;
  uuid_eq = nat_eq;
  null_id = 0;
  zero = 0;
  negative_zero = 0;
  add = λ a b. a + b;
  mul = λ a b. a * b;
  div = λ a b. a / b;
  sqrt = λ a. a;
  le = leb;
  lt = ltb;
  is_zero = λ a. nat_beq a 0;
  clamp_unit = λ a. min a 1;
  moved = λ a b. not (nat_beq a b);
  moved_refl = unmoved;
  not_nan = λ a. a;
  le_refl = le_own;
  le_trans = le_chain;
  le_total = le_either;
  clamp_idem = clamp_twice;
  one = 1;
  sub = λ a b. a - b;
  abs = λ a. a;
  max = max;
  min = lesser;
  of_nat = λ n. n;
  to_nat = λ n. n;
  le-of_nat = le_numbers;
  sub-of_nat = λ m n h k. refl;
  add-of_nat = λ m n h. refl;
  min-of_nat = λ m n h k. refl;
  F64 = ℕ;
  f64_of_nat = λ n. n;
  f64_neg = λ a. a;
  f64_mul = λ a b. a * b;
  f64_div = λ a b. a / b;
  f64_exp = λ a. 1;
  to_f32 = λ a. a;
  f64_infinity = 2 ^ 64;
  f64_lt = ltb;
  f64_le = leb;
  f64_sub = λ a b. a - b;
  f64_min = lesser;
  f64_max = max;
  f64_sqrt = λ a. a;
  tece_target = 0;
  normalize = λ s. s;
  default_reflection_threshold = 0;
  default_equivalence = 1;
  default_contradiction = 0;
}

instance abbrev pub toy_platform : Platform
toy_platform = numbers

pub none_yet : {N : Type 0} (k : ℕ) → arena_get {N = N} (0, []) k ≡ none
unfolding hash_get
none_yet k = let t : ltb k 0 ≡ false = ground arith in rw t refl

instance abbrev pub toy_slots : SlotMap ℕ
toy_slots = record {
  Map = λ N. ℕ × HashMap ℕ N;
  with_key = (0, []);
  insert_with_key = arena_insert;
  get = arena_get;
  update = arena_update;
  remove = arena_remove;
  iter = λ a. a.1;
  get-with_key = λ k. none_yet k;
  get-insert_fresh = insert_fresh;
  get-insert_same = insert_same;
  get-insert_other = insert_other;
  get-update_same = update_same;
  get-update_none = update_none;
  get-update_other = update_other;
  get-remove_same = remove_same;
  get-remove_other = remove_other;
}

module _ {E : Type 0} where
  abbrev edges_from : List (ℕ × ℕ × E) → ℕ → List (ℕ × E)
  edges_from [] i = []
  edges_from ((a, b, e) ∷ es) i =
      let rest = edges_from es i in if nat_beq a i then (b, e) ∷ rest else rest

  abbrev edges_to : List (ℕ × ℕ × E) → ℕ → List (ℕ × E)
  edges_to [] i = []
  edges_to ((a, b, e) ∷ es) i =
      let rest = edges_to es i in if nat_beq b i then (a, e) ∷ rest else rest

key-IsListed :
    (m : HashMap ℕ ℕ) (i : ℕ) {k : ℕ}
    → hash_get m i ≡ some k
    → IsListed {A = ℕ} i (map (λ x. x.0) m)
unfolding hash_get
key-IsListed [] i h = absurd cc
key-IsListed ((j, w) ∷ m) i {k} h = elim (Bool-cases (nat_beq j i)) [
  | inl t ↦ let e : j ≡ i = ground (arith, t) in (0, ap some e)
  | inr f ↦
      let later : hash_get m i ≡ some k = ground (arith, f, h) in
      let (n, at) = key-IsListed m i later in (suc n, at)
]

pub has_index :
    (a : ℕ × HashMap ℕ ℕ) (i : ℕ) {k : ℕ}
    → arena_get a i ≡ some k
    → IsListed {A = ℕ} i (map (λ x. x.0) a.1)
has_index (next, m) i {k} h = elim (Bool-cases (ltb i next)) [
  | inl t ↦ let found : hash_get m i ≡ some k = ground (arith, t, h) in key-IsListed m i found
  | inr f ↦ absurd (ground (arith, f, h))
]

instance abbrev pub toy_graphs : Petgraph ℕ
toy_graphs = record {
  NodeIndex = ℕ;
  index_eq = nat_eq;
  Graph = λ E. (ℕ × HashMap ℕ ℕ) × List (ℕ × ℕ × E);
  empty = ((0, []), []);
  add_node = λ g k. let (a, i) = arena_insert g.0 (λ x. k) in ((a, g.1), i);
  remove_node = λ g i. (arena_remove g.0 i, g.1);
  add_edge = λ g i j e. (g.0, (i, j, e) ∷ g.1);
  weight = λ g i. arena_get g.0 i;
  outgoing = λ g i. edges_from g.1 i;
  incoming = λ g i. edges_to g.1 i;
  dfs = λ g i. i ∷ map (λ x. x.0) (edges_from g.1 i);
  dfs_reversed = λ g i. i ∷ map (λ x. x.0) (edges_to g.1 i);
  node_indices = λ g. map (λ x. x.0) g.0.1;
  weight-node_indices = λ g i h. has_index g.0 i h;
  weight-add_node_same = λ g k. insert_same g.0 (λ x. k);
  weight-empty = λ i. none_yet i;
  weight-add_node_fresh = λ g k. insert_fresh g.0 (λ x. k);
  weight-add_node_other = λ g k i h. insert_other g.0 (λ x. k) i h;
  weight-remove_node_same = λ g i. remove_same g.0 i;
  weight-remove_node = λ g i j h. remove_other g.0 i j h;
  weight-add_edge = λ g i j n e. refl;
}
