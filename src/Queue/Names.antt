-- ===== src/Queue/Names.antt =====
-- Names in ascending order.
use smallpond.Prelude.{
  ℕ, ◌+◌, ◌≤◌, ◌≡◌, refl, subst, inl, inr, List, [], ◌∷◌, ◌++◌, All, All-weaken, length, ltb, arith,
  Bool-cases, ◌==◌,
}
use smallpond.Sorts.{insert_with, sort_with}
use smallpond.Queue.Once.{times}

-- Each name is no higher than those behind it.
abbrev pub Ascending : List ℕ → Type 0
Ascending [] = Unit
Ascending (n ∷ ns) = All (λ m. n ≤ m) ns × Ascending ns

insert_with-All :
    (P : ℕ → Type 0) (x : ℕ) (ns : List ℕ) → P x → All P ns → All P (insert_with ltb x ns)
insert_with-All P x [] p h = (p, tt)
insert_with-All P x (n ∷ ns) p (q, h) = elim (Bool-cases (ltb n x)) [
  | inl e ↦ rw e (q, insert_with-All P x ns p h)
  | inr e ↦ rw e (p, (q, h))
]

insert_with-Ascending : (x : ℕ) (ns : List ℕ) → Ascending ns → Ascending (insert_with ltb x ns)
insert_with-Ascending x [] h = (tt, tt)
insert_with-Ascending x (n ∷ ns) (low, h) = elim (Bool-cases (ltb n x)) [
  | inl e ↦
      rw e (insert_with-All (λ m. n ≤ m) x ns (ground arith) low, insert_with-Ascending x ns h)
  | inr e ↦
      let x_low : x ≤ n = ground arith in
      rw e (
        (x_low, All-weaken (λ m. n ≤ m) (λ m. x ≤ m) ns (λ m le. omega (arith, le, x_low)) low),
        (low, h),
      )
]

pub sort_with-Ascending : (ns : List ℕ) → Ascending (sort_with ltb ns)
unfolding sort_with
sort_with-Ascending [] = tt
sort_with-Ascending (n ∷ ns) = insert_with-Ascending n (sort_with ltb ns) (sort_with-Ascending ns)

length-insert_with : (x : ℕ) (ns : List ℕ) → length (insert_with ltb x ns) ≡ 1 + length ns
length-insert_with x [] = refl
length-insert_with x (n ∷ ns) = elim (Bool-cases (ltb n x)) [
  | inl e ↦ rw e (omega (arith, length-insert_with x ns))
  | inr e ↦ rw e (omega arith)
]

pub length-sort_with : (ns : List ℕ) → length (sort_with ltb ns) ≡ length ns
unfolding sort_with
length-sort_with [] = refl
length-sort_with (n ∷ ns) =
    omega (arith, length-insert_with n (sort_with ltb ns), length-sort_with ns)

All-times : (P : ℕ → Type 0) (k : ℕ) (ns : List ℕ) → All P ns → 1 ≤ times k ns → P k
All-times P k [] h there = absurd (omega (arith, there))
All-times P k (n ∷ ns) (p, h) there = elim (Bool-cases (n == k)) [
  | inl e ↦ let same : n ≡ k = ground arith in subst P same p
  | inr e ↦ All-times P k ns h (omega (arith, rw e at there))
]

All-right : (P : ℕ → Type 0) (ns ms : List ℕ) → All P (ns ++ ms) → All P ms
All-right P [] ms h = h
All-right P (n ∷ ns) ms (p, h) = All-right P ns ms h

All-left : (P : ℕ → Type 0) (ns ms : List ℕ) → All P (ns ++ ms) → All P ns
All-left P [] ms h = tt
All-left P (n ∷ ns) ms (p, h) = (p, All-left P ns ms h)

pub Ascending-left : (ns ms : List ℕ) → Ascending (ns ++ ms) → Ascending ns
Ascending-left [] ms h = tt
Ascending-left (n ∷ ns) ms (low, h) = (All-left (λ m. n ≤ m) ns ms low, Ascending-left ns ms h)

pub Ascending-apart :
    (k : ℕ) (ns ms : List ℕ) → Ascending (ns ++ ms) → 1 ≤ times k ms → All (λ n. n ≤ k) ns
Ascending-apart k [] ms h there = tt
Ascending-apart k (n ∷ ns) ms (low, h) there = (
  All-times (λ m. n ≤ m) k ms (All-right (λ m. n ≤ m) ns ms low) there,
  Ascending-apart k ns ms h there,
)
