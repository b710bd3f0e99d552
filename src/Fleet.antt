-- ===== src/Fleet.antt =====
-- smallpond/execution/scheduler.py: the lists of executors by state, which the scheduler keeps as
-- cached properties, and the methods that add executors or change their states. A list refers to
-- its executors by id. The queue of a new executor is an argument.
pub mod Coherent
pub mod Turns
pub mod Clear
pub mod Steps
mod Tests
use smallpond.Prelude.{
  ℕ, ◌+◌, ◌≡◌, Bool, true, false, not, ◌||◌, List, [], ◌∷◌, ◌++◌, Option, none, some, ◌==◌,
  if◌then◌else◌,
}
use smallpond.Queue.{WorkQueue}
use smallpond.Remote.{
  ExecutorState, good, fail, resource_low, stopping, stopped, same_state, RemoteExecutor, alive,
  working, init, reset_state, update_state,
}

pub data ListName : Type 0 where
  remote_executors local_executors working_executors alive_executors good_executors : ListName
  failed_executors stopped_executors stopping_executors low_resource_executors : ListName

abbrev pub index_of : ListName → ℕ
index_of remote_executors = 0
index_of local_executors = 1
index_of working_executors = 2
index_of alive_executors = 3
index_of good_executors = 4
index_of failed_executors = 5
index_of stopped_executors = 6
index_of stopping_executors = 7
index_of low_resource_executors = 8

abbrev pub same_list : ListName → ListName → Bool
same_list m n = index_of m == index_of n

-- `executor.working`, `executor.alive` and so on, of the state of an executor.
abbrev pub selects : ListName → ExecutorState → Bool
selects remote_executors s = true
selects local_executors s = false
selects working_executors s = same_state s good || same_state s resource_low
selects alive_executors s =
    same_state s good || (same_state s resource_low || same_state s stopping)
selects good_executors s = same_state s good
selects failed_executors s = same_state s fail
selects stopped_executors s = same_state s stopped
selects stopping_executors s = same_state s stopping
selects low_resource_executors s = same_state s resource_low

-- A value of `available_executors`.
pub record Member (Q : Type 0) : Type 0 where
  pub executor : RemoteExecutor Q
  pub local : Bool

pub record Fleet (Q : Type 0) : Type 0 where
  pub available : List (Member Q)
  pub cached : ListName → Option (List ℕ)
  pub probe_epoch : ℕ

abbrev pub keep_ids : (ℕ → Bool) → List ℕ → List ℕ
keep_ids test [] = []
keep_ids test (id ∷ ids) = if test id then id ∷ keep_ids test ids else keep_ids test ids

abbrev pub later_lists : List ListName
later_lists =
    local_executors ∷ working_executors ∷ alive_executors ∷ good_executors ∷ failed_executors
    ∷ stopped_executors ∷ stopping_executors ∷ low_resource_executors ∷ []

module _ {Q : Type 0} where
  abbrev pub ids_where : (Member Q → Bool) → List (Member Q) → List ℕ
  ids_where test [] = []
  ids_where test (m ∷ ms) = if test m then m.executor.id ∷ ids_where test ms else ids_where test ms

  abbrev pub remote_ids : List (Member Q) → List ℕ
  remote_ids ms = ids_where (λ m. not m.local) ms

  abbrev pub local_ids : List (Member Q) → List ℕ
  local_ids ms = ids_where (λ m. m.local) ms

  -- Whether the list of that name has the executor of that id.
  abbrev pub is_selected : ListName → List (Member Q) → ℕ → Bool
  is_selected name [] id = false
  is_selected name (m ∷ ms) id =
      if m.executor.id == id then selects name m.executor.state else is_selected name ms id

  abbrev pub store : ListName → List ℕ → Fleet Q → List ℕ × Fleet Q
  store name ids f =
      (ids, record f { cached = λ n. if same_list n name then some ids else f.cached n })

  -- A property that is computed from `available_executors`.
  abbrev pub read_own : ListName → (List (Member Q) → List ℕ) → Fleet Q → List ℕ × Fleet Q
  read_own name ids f = elim (f.cached name) [
    | none ↦ store name (ids f.available) f
    | some l ↦ (l, f)
  ]

  -- A property that is computed from `remote_executors`.
  abbrev pub read_state : ListName → Fleet Q → List ℕ × Fleet Q
  read_state name f = elim (f.cached name) [
    | none ↦
        let (ids, f') = read_own remote_executors remote_ids f in
        store name (keep_ids (is_selected name f.available) ids) f'
    | some l ↦ (l, f)
  ]

  unfoldable pub read : ListName → Fleet Q → List ℕ × Fleet Q
  read remote_executors f = read_own remote_executors remote_ids f
  read local_executors f = read_own local_executors local_ids f
  read working_executors f = read_state working_executors f
  read alive_executors f = read_state alive_executors f
  read good_executors f = read_state good_executors f
  read failed_executors f = read_state failed_executors f
  read stopped_executors f = read_state stopped_executors f
  read stopping_executors f = read_state stopping_executors f
  read low_resource_executors f = read_state low_resource_executors f

  -- `if hasattr(self, name): del self.name`: the test computes a list that is not there, and with it
  -- `remote_executors`.
  unfoldable pub drop_list : ListName → Fleet Q → Fleet Q
  unfolding read
  drop_list name f =
      let f' = (read name f).1 in
      record f' { cached = λ n. if same_list n name then none else f'.cached n }

  unfoldable pub drop_lists : List ListName → Fleet Q → Fleet Q
  unfolding drop_list
  drop_lists [] f = f
  drop_lists (name ∷ names) f = drop_lists names (drop_list name f)

  unfoldable pub clear_cached_executor_lists : Fleet Q → Fleet Q
  unfolding drop_list drop_lists
  clear_cached_executor_lists f = drop_lists later_lists (drop_list remote_executors f)

  abbrev pub has_member : ℕ → List (Member Q) → Bool
  has_member id [] = false
  has_member id (m ∷ ms) = (m.executor.id == id) || has_member id ms

  abbrev pub new_member : ℕ → ℕ → WorkQueue Q → Member Q
  new_member epoch id wq = record { executor = init id wq epoch; local = false }

  -- The loop of `probe_executors` over the directories of executors.
  unfoldable pub discover : List (ℕ × WorkQueue Q) → Fleet Q → Fleet Q
  unfolding clear_cached_executor_lists
  discover [] f = f
  discover ((id, wq) ∷ dirs) f = discover dirs (
      if has_member id f.available
      then f
      else clear_cached_executor_lists
          (record f { available = f.available ++ new_member f.probe_epoch id wq ∷ [] }))

  -- An executor is changed in place.
  abbrev pub change_member :
      ℕ → (RemoteExecutor Q → RemoteExecutor Q) → List (Member Q) → List (Member Q)
  change_member id g [] = []
  change_member id g (m ∷ ms) =
      if m.executor.id == id
      then record m { executor = g m.executor } ∷ ms
      else m ∷ change_member id g ms

  abbrev pub change_all :
      List ℕ → (RemoteExecutor Q → RemoteExecutor Q) → List (Member Q) → List (Member Q)
  change_all [] g ms = ms
  change_all (id ∷ ids) g ms = change_all ids g (change_member id g ms)

  unfoldable pub suspend_good_executors : Fleet Q → Fleet Q
  unfolding read reset_state clear_cached_executor_lists
  suspend_good_executors f =
      let (ids, f') = read good_executors f in
      clear_cached_executor_lists
        (record f' { available = change_all ids (reset_state f.probe_epoch) f'.available })

  -- `executor.update_state(self.probe_epoch)`, and whether it returns true.
  unfoldable pub update_member : ℕ → ℕ → ℕ → List (Member Q) → List (Member Q) × Bool
  unfolding update_state
  update_member max_missed epoch id [] = ([], false)
  update_member max_missed epoch id (m ∷ ms) =
      let (rest, changed) = update_member max_missed epoch id ms in
      if m.executor.id == id
      then (
        record m { executor = (update_state max_missed epoch m.executor).0 } ∷ ms,
        (update_state max_missed epoch m.executor).1,
      )
      else (m ∷ rest, changed)

  unfoldable pub update_each : ℕ → ℕ → List ℕ → List (Member Q) → List (Member Q) × Bool
  unfolding update_member
  update_each max_missed epoch [] ms = (ms, false)
  update_each max_missed epoch (id ∷ ids) ms =
      let (ms', changed) = update_member max_missed epoch id ms in
      let (last, later) = update_each max_missed epoch ids ms' in (last, changed || later)

  -- `update_executor_states`, without what it does for the works of an executor that fails.
  unfoldable pub update_lists : ℕ → Fleet Q → Fleet Q
  unfolding read clear_cached_executor_lists update_each
  update_lists max_missed f =
      let (ids, f') = read alive_executors f in
      let (ms, changed) = update_each max_missed f.probe_epoch ids f'.available in
      if changed
      then clear_cached_executor_lists (record f' { available = ms })
      else record f' { available = ms }
