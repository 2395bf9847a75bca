-- ===== src/WifiProfile/Pages.antt =====
-- firmware/src/wifi_profile.c: the page of a profile and the texts in its arrays.
use p2000t_teletekst_cartrid.WifiProfile.{ended}
use p2000t_teletekst_cartrid.Prelude.{
  ℕ, zero, suc, ◌+◌, ◌-◌, ◌≤◌, ◌<◌, List, [], ◌∷◌, ◌++◌, length, drop, set, replicate, copy_at, ◌≡◌,
  refl, ap, ◌∙◌, arith, take_at, append_assoc, length-append, length-drop, length-replicate,
}

-- A record of three parts at the start of an array, and what is left of the array.
pub copy_parts :
    (xs header c t : List ℕ)
    → copy_at xs 0 (header ++ (c ++ t))
      ≡ header ++ (c ++ (t ++ drop (0 + length (header ++ (c ++ t))) xs))
copy_parts xs header c t =
    let rest = drop (0 + length (header ++ (c ++ t))) xs in
    append_assoc header (c ++ t) rest ∙ ap (λ (x : List ℕ). header ++ x) (append_assoc c t rest)

pub length-copy_at :
    (n b : ℕ) (xs : List ℕ) → length xs ≤ n → length (copy_at (replicate n b) 0 xs) ≡ n
length-copy_at n b xs h = omega (
  arith,
  length-append xs (drop (0 + length xs) (replicate n b)),
  length-drop {A = ℕ} (0 + length xs) (replicate n b),
  length-replicate {A = ℕ} n b,
)

padding :
    (n : ℕ) (xs : List ℕ)
    → length xs < n
    → set (xs ++ drop (length xs) (replicate n 0)) (length xs) 0 ≡ xs ++ replicate (n - length xs) 0
padding zero xs h = absurd (omega arith)
padding (suc n) [] h =
    let same : suc n ≡ suc n - 0 = omega arith in ap (λ (k : ℕ). replicate k 0) same
padding (suc n) (x ∷ xs) h =
    let same : n - length xs ≡ suc n - suc (length xs) = omega arith in
    ap (λ (t : List ℕ). x ∷ t)
      (padding n xs (omega arith) ∙ ap (λ (k : ℕ). xs ++ replicate k 0) same)

-- A text in an array of zeros, as the profile keeps it, and what is taken out of it.
pub ended-copy :
    (m n : ℕ) (xs : List ℕ)
    → length xs < n
    → ended (replicate n 0) (length xs) (copy_at (replicate m 0) 0 xs)
      ≡ xs ++ replicate (n - length xs) 0
ended-copy m n xs h =
    let start : 0 + length xs ≡ length xs = omega arith in
    ap (λ (t : List ℕ). set (copy_at (replicate n 0) 0 t) (length xs) 0)
      (take_at (length xs) xs (drop (0 + length xs) (replicate m 0)) refl)
    ∙ ap (λ (k : ℕ). set (xs ++ drop k (replicate n 0)) (length xs) 0) start
    ∙ padding n xs h

-- An array that starts with three parts, and what stands behind the array.
pub copied_parts :
    (xs header c t more memory : List ℕ)
    → memory ≡ copy_at xs 0 (header ++ (c ++ t)) ++ more
    → (rest : List ℕ) × (memory ≡ header ++ (c ++ (t ++ rest)))
copied_parts xs header c t more memory e =
    let rest = drop (0 + length (header ++ (c ++ t))) xs in
    (
      rest ++ more,
      e
          ∙ ap (λ (x : List ℕ). x ++ more) (copy_parts xs header c t)
          ∙ append_assoc header (c ++ (t ++ rest)) more
          ∙ ap (λ (x : List ℕ). header ++ x) (append_assoc c (t ++ rest) more)
          ∙ ap (λ (x : List ℕ). header ++ (c ++ x)) (append_assoc t rest more),
    )
