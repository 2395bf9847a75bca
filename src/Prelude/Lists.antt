-- ===== src/Prelude/Lists.antt =====
-- C arrays as lists that are measured and indexed by native numbers.
use Prim.Native.Nat.{ℕ, zero, suc, ◌+◌, ◌-◌, ◌≤◌, ◌<◌, min}
use mathlib.Core.List.{List, [], ◌∷◌, ◌++◌}
use mathlib.Core.Logic.{◌≢◌}
use mathlib.Core.Path.{◌≡◌, refl, ap}
use native.Mathlib.Omega.{arith}

module _ {ℓ} {A : Type ℓ} where
  abbrev pub length : List A → ℕ
  length [] = 0
  length (x ∷ xs) = suc (length xs)

  abbrev pub get_or : List A → ℕ → A → A
  get_or [] i d = d
  get_or (x ∷ xs) zero d = x
  get_or (x ∷ xs) (suc i) d = get_or xs i d

  -- A write out of bounds changes nothing.
  abbrev pub set : List A → ℕ → A → List A
  set [] i v = []
  set (x ∷ xs) zero v = v ∷ xs
  set (x ∷ xs) (suc i) v = x ∷ set xs i v

  abbrev pub take : ℕ → List A → List A
  take zero xs = []
  take (suc n) [] = []
  take (suc n) (x ∷ xs) = x ∷ take n xs

  abbrev pub drop : ℕ → List A → List A
  drop zero xs = xs
  drop (suc n) [] = []
  drop (suc n) (x ∷ xs) = drop n xs

  abbrev pub replicate : ℕ → A → List A
  replicate zero a = []
  replicate (suc n) a = a ∷ replicate n a

  abbrev pub All {κ} : (A → Type κ) → List A → Type κ
  All P [] = Unit
  All P (x ∷ xs) = P x × All P xs

-- `memcpy(target + at, source, length source)`: the copy stops at the end of the target.
abbrev pub copy_at {ℓ} : {A : Type ℓ} → List A → ℕ → List A → List A
copy_at target at source = take at target ++ source ++ drop (at + length source) target

module _ {ℓ} {A : Type ℓ} where
  pub length-append : (xs ys : List A) → length (xs ++ ys) ≡ length xs + length ys
  length-append [] ys = omega arith
  length-append (x ∷ xs) ys = omega (arith, length-append xs ys)

  pub length-set : (xs : List A) (i : ℕ) (v : A) → length (set xs i v) ≡ length xs
  length-set [] i v = refl
  length-set (x ∷ xs) zero v = refl
  length-set (x ∷ xs) (suc i) v = ap suc (length-set xs i v)

  pub length-take : (n : ℕ) (xs : List A) → length (take n xs) ≡ min n (length xs)
  length-take zero xs = omega arith
  length-take (suc n) [] = omega arith
  length-take (suc n) (x ∷ xs) = omega (arith, length-take n xs)

  pub length-drop : (n : ℕ) (xs : List A) → length (drop n xs) ≡ length xs - n
  length-drop zero xs = omega arith
  length-drop (suc n) [] = omega arith
  length-drop (suc n) (x ∷ xs) = omega (arith, length-drop n xs)

  pub length-replicate : (n : ℕ) (a : A) → length (replicate n a) ≡ n
  length-replicate zero a = refl
  length-replicate (suc n) a = ap suc (length-replicate n a)

  pub take-append-drop : (n : ℕ) (xs : List A) → take n xs ++ drop n xs ≡ xs
  take-append-drop zero xs = refl
  take-append-drop (suc n) [] = refl
  take-append-drop (suc n) (x ∷ xs) = ap (◌∷◌ x) (take-append-drop n xs)

  pub take-append : (xs ys : List A) → take (length xs) (xs ++ ys) ≡ xs
  take-append [] ys = refl
  take-append (x ∷ xs) ys = ap (◌∷◌ x) (take-append xs ys)

  pub drop_all : (n : ℕ) (xs : List A) → length xs ≤ n → drop n xs ≡ []
  drop_all zero [] h = refl
  drop_all zero (x ∷ xs) h = absurd (omega arith)
  drop_all (suc n) [] h = refl
  drop_all (suc n) (x ∷ xs) h = drop_all n xs (omega arith)

  pub drop-append : (xs ys : List A) → drop (length xs) (xs ++ ys) ≡ ys
  drop-append [] ys = refl
  drop-append (x ∷ xs) ys = drop-append xs ys

  pub take-suc-set :
      (n : ℕ) (xs : List A) (v : A)
      → n < length xs
      → take (suc n) (set xs n v) ≡ take n xs ++ (v ∷ [])
  take-suc-set n [] v h = absurd (omega arith)
  take-suc-set zero (x ∷ xs) v h = refl
  take-suc-set (suc n) (x ∷ xs) v h = ap (◌∷◌ x) (take-suc-set n xs v (omega arith))

  pub get_or-take : (n i : ℕ) (xs : List A) (d : A) → i < n → get_or (take n xs) i d ≡ get_or xs i d
  get_or-take zero i xs d h = absurd (omega arith)
  get_or-take (suc n) i [] d h = refl
  get_or-take (suc n) zero (x ∷ xs) d h = refl
  get_or-take (suc n) (suc i) (x ∷ xs) d h = get_or-take n i xs d (omega arith)

  pub All-append {κ} : (P : A → Type κ) (xs ys : List A) → All P xs → All P ys → All P (xs ++ ys)
  All-append P [] ys p q = q
  All-append P (x ∷ xs) ys p q = (p.0, All-append P xs ys p.1 q)

  pub All-take {κ} : (P : A → Type κ) (n : ℕ) (xs : List A) → All P xs → All P (take n xs)
  All-take P zero xs p = tt
  All-take P (suc n) [] p = tt
  All-take P (suc n) (x ∷ xs) p = (p.0, All-take P n xs p.1)

  pub take_at : (n : ℕ) (xs ys : List A) → n ≡ length xs → take n (xs ++ ys) ≡ xs
  take_at zero [] ys e = refl
  take_at zero (x ∷ xs) ys e = absurd (omega arith)
  take_at (suc n) [] ys e = absurd (omega arith)
  take_at (suc n) (x ∷ xs) ys e = ap (◌∷◌ x) (take_at n xs ys (omega arith))

  pub get_or_at :
      (i j : ℕ) (xs ys : List A) (d : A) → i ≡ length xs + j → get_or (xs ++ ys) i d ≡ get_or ys j d
  get_or_at i j [] ys d e = ap (λ t. get_or ys t d) (omega arith)
  get_or_at zero j (x ∷ xs) ys d e = absurd (omega arith)
  get_or_at (suc i) j (x ∷ xs) ys d e = get_or_at i j xs ys d (omega arith)

  pub take_all : (n : ℕ) (xs : List A) → length xs ≤ n → take n xs ≡ xs
  take_all zero [] h = refl
  take_all zero (x ∷ xs) h = absurd (omega arith)
  take_all (suc n) [] h = refl
  take_all (suc n) (x ∷ xs) h = ap (◌∷◌ x) (take_all n xs (omega arith))

  pub get_or-set_self :
      (xs : List A) (i : ℕ) (v d : A) → i < length xs → get_or (set xs i v) i d ≡ v
  get_or-set_self [] i v d h = absurd (omega arith)
  get_or-set_self (x ∷ xs) zero v d h = refl
  get_or-set_self (x ∷ xs) (suc i) v d h = get_or-set_self xs i v d (omega arith)

  pub get_or-set_ne :
      (xs : List A) (i j : ℕ) (v d : A) → i ≢ j → get_or (set xs i v) j d ≡ get_or xs j d
  get_or-set_ne [] i j v d ne = refl
  get_or-set_ne (x ∷ xs) zero zero v d ne = absurd (ne refl)
  get_or-set_ne (x ∷ xs) zero (suc j) v d ne = refl
  get_or-set_ne (x ∷ xs) (suc i) zero v d ne = refl
  get_or-set_ne (x ∷ xs) (suc i) (suc j) v d ne = get_or-set_ne xs i j v d (λ e. ne (ap suc e))

  -- A write behind what is taken.
  pub take-set_after : (n i : ℕ) (xs : List A) (v : A) → n ≤ i → take n (set xs i v) ≡ take n xs
  take-set_after zero i xs v h = refl
  take-set_after (suc n) i [] v h = refl
  take-set_after (suc n) zero (x ∷ xs) v h = absurd (omega arith)
  take-set_after (suc n) (suc i) (x ∷ xs) v h = ap (◌∷◌ x) (take-set_after n i xs v (omega arith))

  -- A list around one of its entries, and the same list with that entry replaced.
  pub split_at :
      (n i : ℕ) (xs : List A) (v d : A)
      → i < n
      → i < length xs
      → (before after : List A) × (take n xs ≡ before ++ (get_or xs i d ∷ after))
        × (take n (set xs i v) ≡ before ++ (v ∷ after))
  split_at zero i xs v d h k = absurd (omega arith)
  split_at (suc n) i [] v d h k = absurd (omega arith)
  split_at (suc n) zero (x ∷ xs) v d h k = ([], take n xs, refl, refl)
  split_at (suc n) (suc i) (x ∷ xs) v d h k =
      let (before, after, old, new) = split_at n i xs v d (omega arith) (omega arith) in
      (x ∷ before, after, ap (◌∷◌ x) old, ap (◌∷◌ x) new)

  pub All-append_inv {κ} :
      (P : A → Type κ) (xs ys : List A) → All P (xs ++ ys) → All P xs × All P ys
  All-append_inv P [] ys p = (tt, p)
  All-append_inv P (x ∷ xs) ys p =
      let (left, right) = All-append_inv P xs ys p.1 in ((p.0, left), right)

  pub All-get_or {κ} :
      (P : A → Type κ) (xs : List A) (i : ℕ) (d : A) → All P xs → P d → P (get_or xs i d)
  All-get_or P [] i d p q = q
  All-get_or P (x ∷ xs) zero d p q = p.0
  All-get_or P (x ∷ xs) (suc i) d p q = All-get_or P xs i d p.1 q
