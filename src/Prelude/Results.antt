-- ===== src/Prelude/Results.antt =====
-- The outcome of code that may raise: a value, or the class of the exception. `out_of_fuel` is no
-- exception of the program: a loop of a model returns it when its fuel runs out.
use mathlib.Core.Path.{◌≡◌, refl, ap}
use mathlib.Core.Bool.{Bool, true, false}
use mathlib.Core.List.{List, [], ◌∷◌}
use mathlib.Core.Option.{Option, none, some}

pub data Error : Type 0 where
  value_error index_error key_error type_error assertion_error attribute_error : Error
  zero_division_error not_implemented_error runtime_error out_of_fuel : Error

pub data Result {ℓ} (A : Type ℓ) : Type ℓ where
  ok : A → Result A
  raise : Error → Result A

-- The rest of a block is skipped when a statement raises.
infixl 5 ◌>>=◌ ◌>>◌
abbrev pub ◌>>=◌ {ℓ κ} : {X : Type ℓ} {Y : Type κ} → Result X → (X → Result Y) → Result Y
◌>>=◌ r next = elim r [ ok x ↦ next x | raise error ↦ raise error ]

abbrev pub ◌>>◌ {κ} : {Y : Type κ} → Result (Unit {0}) → Result Y → Result Y
◌>>◌ r rest = r >>= λ done. rest

-- `assert b`, or another test that raises.
abbrev pub guard : Bool → Error → Result (Unit {0})
guard true e = ok tt
guard false e = raise e

abbrev pub of_option {ℓ} : {A : Type ℓ} → Error → Option A → Result A
of_option e none = raise e
of_option e (some a) = ok a

-- `[f(x) for x in xs]`, for an `f` that may raise.
abbrev pub map_result {ℓ κ} : {A : Type ℓ} {B : Type κ} → (A → Result B) → List A → Result (List B)
map_result f [] = ok []
map_result f (x ∷ xs) = do y ← f x; ys ← map_result f xs; ok (y ∷ ys)

-- A block that succeeds has a first statement that succeeds.
pub bind-ok {ℓ κ} :
    {X : Type ℓ} {Y : Type κ} (r : Result X) (next : X → Result Y) (y : Y)
    → (r >>= next) ≡ ok y
    → (x : X) × (r ≡ ok x) × (next x ≡ ok y)
bind-ok (raise error) next y e = cc
bind-ok (ok x) next y e = (x, refl, e)

-- The step of a block whose first statement gives a value.
pub bind_step {ℓ κ} :
    {X : Type ℓ} {Y : Type κ} {r : Result X} {x : X} (next : X → Result Y)
    → r ≡ ok x
    → (r >>= next) ≡ next x
bind_step next e = rw e refl

pub ok-injective {ℓ} : {A : Type ℓ} {x y : A} → ok x ≡ ok y → x ≡ y
ok-injective {x = x} h = ap (λ r. elim r [ ok z ↦ z | raise e ↦ x ]) h

pub of_option-some {ℓ} :
    {A : Type ℓ} (error : Error) (o : Option A) (x : A) → of_option error o ≡ ok x → o ≡ some x
of_option-some error none x e = absurd (cc)
of_option-some error (some y) x e = cc

-- A result with a property, or an error that is allowed.
abbrev pub Ensures {ℓ} : {A : Type ℓ} → (Error → Type 0) → Result A → (A → Type 0) → Type 0
Ensures Allowed (ok x) P = P x
Ensures Allowed (raise e) P = Allowed e

pub Ensures-bind {ℓ κ} :
    {A : Type ℓ} {B : Type κ} (Allowed : Error → Type 0) (r : Result A) (next : A → Result B)
    (P : A → Type 0) (R : B → Type 0)
    → Ensures Allowed r P
    → ((x : A) → P x → Ensures Allowed (next x) R)
    → Ensures Allowed (r >>= next) R
Ensures-bind Allowed (ok x) next P R h k = k x h
Ensures-bind Allowed (raise e) next P R h k = h

pub Ensures-map {ℓ} :
    {A : Type ℓ} (Allowed : Error → Type 0) (r : Result A) (P R : A → Type 0)
    → Ensures Allowed r P
    → ((x : A) → P x → R x)
    → Ensures Allowed r R
Ensures-map Allowed (ok x) P R h f = f x h
Ensures-map Allowed (raise e) P R h f = h
