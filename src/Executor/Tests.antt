-- ===== src/Executor/Tests.antt =====
-- Three GPUs of ten units, of which the first is taken in part.
use smallpond.Prelude.{ℕ, ◌≡◌, refl, List, [], ◌∷◌, raise, assertion_error}
use smallpond.Executor.{GpuQuota, grant, acquire_gpu, release_gpu}

abbrev gpu_with : ℕ → ℕ → GpuQuota
gpu_with gpu quota = record { gpu = gpu; quota = quota }

abbrev gpus : List GpuQuota
gpus = gpu_with 0 4 ∷ gpu_with 1 0 ∷ gpu_with 2 10 ∷ []

acquired :
    acquire_gpu 7 gpus
    ≡ (gpu_with 0 4 ∷ gpu_with 2 3 ∷ [], gpu_with 0 0 ∷ gpu_with 1 0 ∷ gpu_with 2 7 ∷ [])
unfolding acquire_gpu grant
acquired = refl

released_twice :
    release_gpu 10 (gpu_with 2 3 ∷ gpu_with 2 3 ∷ []) (gpu_with 2 7 ∷ []) ≡ raise assertion_error
unfolding release_gpu
released_twice = refl
