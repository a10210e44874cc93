-- ===== src/Repair/Dependencies.antt =====
-- crates/parqonaut-repair/src/deps.rs: which operations of a repair plan wait for which, and an order in which they can
-- run. Of an operation (plan.rs) its evidence and preconditions, which only readers see, are left out.
pub mod Counts
pub mod Queue
pub mod Release
pub mod Order
pub mod Index
pub mod Cycles
pub mod Plans
use parqonaut.Prelude.{
  ℕ, zero, suc, ◌+◌, Bool, true, false, ◌&&◌, ◌||◌, Option, none, some, String, List, [], ◌∷◌, ◌++◌,
  map, Result, ok, err, ◌>>=◌, if◌then◌else◌, ltb, ◌==◌, length, Text, text_eq, listed, Dict, get,
  insert, text_eq_instance, find,
}

pub data RepairAction : Type 0 where
  recompress : String → List String → RepairAction
  rebuild_statistics : List String → RepairAction
  resize_row_groups : ℕ → List String → RepairAction
  merge_small_files : ℕ → List String → RepairAction
  split_large_file : ℕ → String → RepairAction
  align_schema : String → String → String → RepairAction
  cast_column : String → String → String → RepairAction
  rename_column : String → String → RepairAction
  repartition : String → RepairAction

pub data RepairSafety : Type 0 where
  safe review_required destructive blocked : RepairSafety

pub record RepairOperation : Type 0 where
  pub operation_id : Text
  pub finding_ids : List String
  pub safety : RepairSafety
  pub action : RepairAction
  pub rationale : String
  pub depends_on : List Text

-- The errors of this file, and the panics of `expect`, of an index and of a subtraction below 0.
pub data DependencyError : Type 0 where
  precondition_failed : Text → Text → DependencyError
  invalid_plan : DependencyError
  panicked : DependencyError

-- The closure `order` of `assign_dependencies`.
unfoldable pub order : RepairAction → ℕ
order (RepairAction.cast_column _ _ _) = 0
order (RepairAction.align_schema _ _ _) = 0
order (RepairAction.rename_column _ _) = 0
order (RepairAction.split_large_file _ _) = 1
order (RepairAction.resize_row_groups _ _) = 2
order (RepairAction.recompress _ _) = 3
order (RepairAction.rebuild_statistics _) = 4
order (RepairAction.merge_small_files _ _) = 5
order (RepairAction.repartition _) = 6

-- The order of strings, by code points as UTF-8 has it.
unfoldable pub text_lt : Text → Text → Bool
text_lt s [] = false
text_lt [] (b ∷ t) = true
text_lt (a ∷ s) (b ∷ t) = ltb a b || (a == b && text_lt s t)

-- The comparison of `sort_by`: by order and then by id.
abbrev pub before : RepairOperation → RepairOperation → Bool
unfolding order text_lt
before a b =
    ltb (order a.action) (order b.action)
    || (order a.action == order b.action && text_lt a.operation_id b.operation_id)

-- A stable sort, as `sort_by` and `sort` are.
abbrev pub insert_sorted : {A : Type 0} → (A → A → Bool) → A → List A → List A
insert_sorted less x [] = x ∷ []
insert_sorted less x (y ∷ ys) =
    let rest = insert_sorted less x ys in if less y x then y ∷ rest else x ∷ y ∷ ys

abbrev pub sort_by : {A : Type 0} → (A → A → Bool) → List A → List A
sort_by less [] = []
sort_by less (x ∷ xs) = insert_sorted less x (sort_by less xs)

-- The ids of the operations before with a lower order.
abbrev pub lower_ids : RepairAction → List RepairOperation → List Text
unfolding order
lower_ids action [] = []
lower_ids action (prev ∷ rest) =
    let ids = lower_ids action rest in
    if ltb (order prev.action) (order action) then prev.operation_id ∷ ids else ids

-- The loop of `assign_dependencies`, after the operations that are done.
unfoldable pub link : List RepairOperation → List RepairOperation → List RepairOperation
link done [] = []
link done (op ∷ ops) =
    let linked = record op { depends_on = lower_ids op.action done } in
    linked ∷ link (done ++ (linked ∷ [])) ops

unfoldable pub assign_dependencies : List RepairOperation → List RepairOperation
unfolding link order text_lt
assign_dependencies ops = link [] (sort_by before ops)

abbrev pub ids_of : List RepairOperation → List Text
ids_of ops = map (λ op. op.operation_id) ops

abbrev pub or_empty : Option (List Text) → List Text
or_empty none = []
or_empty (some xs) = xs

abbrev pub children_of : Text → Dict Text (List Text) → List Text
children_of id dependents = or_empty (get id dependents)

-- The inner loop over an operation's dependencies.
unfoldable pub index_deps :
    List Text
    → Text
    → List Text
    → Dict Text (List Text)
    → Result DependencyError (Dict Text (List Text))
unfolding get insert
index_deps ids id [] dependents = ok dependents
index_deps ids id (dep ∷ deps) dependents =
    if listed dep ids
    then index_deps ids id deps (insert dep (children_of dep dependents ++ (id ∷ [])) dependents)
    else err (DependencyError.precondition_failed id dep)

-- The first loop of `sort_by_dependencies`: the number of dependencies of each operation, and who waits for
-- it.
unfoldable pub index_ops :
    List Text
    → List RepairOperation
    → Dict Text ℕ
    → Dict Text (List Text)
    → Result DependencyError (Dict Text ℕ × Dict Text (List Text))
unfolding index_deps insert
index_ops ids [] indegree dependents = ok (indegree, dependents)
index_ops ids (op ∷ ops) indegree dependents = do
  linked ← index_deps ids op.operation_id op.depends_on dependents
  index_ops ids ops (insert op.operation_id (length op.depends_on) indegree) linked

-- The keys at which the map has 0.
abbrev pub zero_keys : Dict Text ℕ → List Text
zero_keys [] = []
zero_keys ((id, zero) ∷ m) = id ∷ zero_keys m
zero_keys ((id, suc _) ∷ m) = zero_keys m

-- One child: `*entry -= 1`, and the push.
unfoldable pub release_child :
    Text → Option ℕ → List Text → Dict Text ℕ → Result DependencyError (List Text × Dict Text ℕ)
unfolding insert
release_child child none ready indegree = err DependencyError.panicked
release_child child (some zero) ready indegree = err DependencyError.panicked
release_child child (some (suc n)) ready indegree =
    ok ((if n == 0 then ready ++ (child ∷ []) else ready), insert child n indegree)

unfoldable pub release_children :
    List Text → List Text → Dict Text ℕ → Result DependencyError (List Text × Dict Text ℕ)
unfolding release_child get
release_children [] ready indegree = ok (ready, indegree)
release_children (child ∷ children) ready indegree = do
  (now_ready, now_indegree) ← release_child child (get child indegree) ready indegree
  release_children children now_ready now_indegree

-- `op_map[id]`, the last operation with the id.
abbrev pub op_at : Text → List RepairOperation → Option RepairOperation
op_at id [] = none
op_at id (op ∷ ops) =
    let later = op_at id ops in
    elim later [ some o ↦ some o | none ↦ if text_eq op.operation_id id then some op else none ]

abbrev pub found_op : Option RepairOperation → Result DependencyError RepairOperation
found_op none = err DependencyError.panicked
found_op (some op) = ok op

module _ (ops : List RepairOperation) (dependents : Dict Text (List Text)) where
  -- The loop, `fuel` rounds at most.
  unfoldable pub drain :
      ℕ
      → List Text
      → Dict Text ℕ
      → List RepairOperation
      → Result DependencyError (List RepairOperation)
  unfolding release_children text_lt get
  drain zero ready indegree sorted = err DependencyError.panicked
  drain (suc fuel) [] indegree sorted = ok sorted
  drain (suc fuel) (id ∷ ready) indegree sorted = do
    op ← found_op (op_at id ops)
    (now_ready, now_indegree) ← release_children (children_of id dependents) ready indegree
    drain fuel (sort_by text_lt now_ready) now_indegree (sorted ++ (op ∷ []))

-- The result after the loop.
unfoldable pub complete :
    List RepairOperation → List RepairOperation → Result DependencyError (List RepairOperation)
complete ops sorted =
    if length sorted == length ops then ok sorted else err DependencyError.invalid_plan

-- Every round takes one of these away.
abbrev pub total : Dict Text ℕ → ℕ
total [] = 0
total ((id, n) ∷ m) = n + total m

abbrev pub sort_indexed :
    List RepairOperation
    → Dict Text ℕ × Dict Text (List Text)
    → Result DependencyError (List RepairOperation)
unfolding drain complete text_lt
sort_indexed ops (indegree, dependents) = do
  sorted ←
      drain ops dependents (suc (length (zero_keys indegree) + total indegree))
        (sort_by text_lt (zero_keys indegree)) indegree []
  complete ops sorted

unfoldable pub sort_by_dependencies :
    List RepairOperation → Result DependencyError (List RepairOperation)
unfolding index_ops drain complete text_lt
sort_by_dependencies ops = do maps ← index_ops (ids_of ops) ops [] []; sort_indexed ops maps
