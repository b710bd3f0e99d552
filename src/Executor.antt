-- ===== src/Executor.antt =====
-- smallpond/execution/executor.py, `Executor.acquire_gpu` and `release_gpu`. The source has quotas
-- as floats. Here all quotas are multiples of one binary fraction of a GPU, as 1/2 or 1/16, of which a
-- whole GPU has `unit`: a float
-- holds them, their sums and their differences exactly, so they are natural numbers. Floats has both
-- methods over floats. The dictionary `local_gpus` is the list of its GPUs in order of insertion.
pub mod Gpus
pub mod Floats
pub mod Pool
pub mod Collect
pub mod Loop
pub mod Accounts
pub mod Balance
pub mod Finished
pub mod Starts
pub mod Rounds
pub mod Slots
mod Tests
mod LoopTests
mod FloatTests
use smallpond.Prelude.{
  ℕ, ◌+◌, ◌-◌, min, Bool, true, false, List, [], ◌∷◌, map, sum, ltb, leb, ◌==◌, if◌then◌else◌,
  Result, ok, raise, ◌>>=◌, ◌>>◌, guard, key_error, assertion_error,
}

-- A GPU with a quota of it: what is available, or what is granted.
pub record GpuQuota : Type 0 where
  pub gpu : ℕ
  pub quota : ℕ

abbrev pub quota_of : GpuQuota → ℕ
quota_of g = g.quota

abbrev pub available_gpu_quota : List GpuQuota → ℕ
available_gpu_quota gpus = sum (map quota_of gpus)

-- What the loop grants of a quota that is not yet met, and what it leaves.
unfoldable pub grant : ℕ → List GpuQuota → List GpuQuota × List GpuQuota
grant quota [] = ([], [])
grant quota (g ∷ gpus) =
    let granted_quota = min g.quota quota in
    let rest = grant quota gpus in
    let next = grant (quota - granted_quota) gpus in
    let granted = record g { quota = granted_quota } in
    let left = record g { quota = g.quota - granted_quota } in
    if g.quota == 0
    then (rest.0, g ∷ rest.1)
    else if quota - granted_quota == 0
    then (granted ∷ [], left ∷ gpus)
    else (granted ∷ next.0, left ∷ next.1)

-- The granted GPUs, and what is available then.
unfoldable pub acquire_gpu : ℕ → List GpuQuota → List GpuQuota × List GpuQuota
unfolding grant
acquire_gpu quota gpus =
    if ltb (available_gpu_quota gpus) quota then ([], gpus) else grant quota gpus

-- `self.local_gpus[gpu] += quota`, with the assertion behind it.
abbrev pub give_back : ℕ → GpuQuota → List GpuQuota → Result (List GpuQuota)
give_back unit g [] = raise key_error
give_back unit g (h ∷ gpus) =
    let rest = give_back unit g gpus in
    if h.gpu == g.gpu
    then (do
      guard (leb (h.quota + g.quota) unit) assertion_error
      ok (record h { quota = h.quota + g.quota } ∷ gpus))
    else (do gpus' ← rest; ok (h ∷ gpus'))

unfoldable pub release_gpu : ℕ → List GpuQuota → List GpuQuota → Result (List GpuQuota)
release_gpu unit [] gpus = ok gpus
release_gpu unit (g ∷ granted) gpus = do
  gpus' ← give_back unit g gpus
  release_gpu unit granted gpus'
