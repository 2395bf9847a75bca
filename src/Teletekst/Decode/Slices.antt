-- ===== src/Teletekst/Decode/Slices.antt =====
-- firmware/src/teletekst.c: the rows of a screen that is written row by row.
use p2000t_teletekst_cartrid.Prelude.{
  ℕ, zero, suc, ◌+◌, ◌*◌, ◌≤◌, ◌<◌, List, [], ◌∷◌, ◌++◌, take, drop, length, copy_at, All, All-take,
  take_at, append_assoc, length-append, length-take, length-drop, drop-append, ◌≡◌, refl, sym, ap,
  ◌∙◌, arith,
}
use p2000t_teletekst_cartrid.Teletekst.Content.{columns}
use p2000t_teletekst_cartrid.Teletekst.Decode.{row_of}

module _ {ℓ} {A : Type ℓ} where
  take_before :
      (k m : ℕ) (xs ys : List A) → k ≤ m → m ≤ length xs → take k (take m xs ++ ys) ≡ take k xs
  take_before zero m xs ys h fits = refl
  take_before (suc k) zero xs ys h fits = absurd (omega arith)
  take_before (suc k) (suc m) [] ys h fits = absurd (omega arith)
  take_before (suc k) (suc m) (x ∷ xs) ys h fits =
      ap (◌∷◌ x) (take_before k m xs ys (omega arith) (omega arith))

  -- A part in front of what is replaced.
  slice_before :
      (n k m : ℕ) (xs ys : List A)
      → n + k ≤ m
      → m ≤ length xs
      → take k (drop n (take m xs ++ ys)) ≡ take k (drop n xs)
  slice_before zero k m xs ys h fits = take_before k m xs ys (omega arith) fits
  slice_before (suc n) k zero xs ys h fits = absurd (omega arith)
  slice_before (suc n) k (suc m) [] ys h fits = absurd (omega arith)
  slice_before (suc n) k (suc m) (x ∷ xs) ys h fits =
      slice_before n k m xs ys (omega arith) (omega arith)

  copy_at_lem :
      (at : ℕ) (xs ys : List A) → copy_at xs at ys ≡ take at xs ++ (ys ++ drop (at + length ys) xs)
  copy_at_lem at xs ys = append_assoc (take at xs) ys (drop (at + length ys) xs)

  length-copy_at :
      (at : ℕ) (xs ys : List A) → at + length ys ≤ length xs → length (copy_at xs at ys) ≡ length xs
  length-copy_at at xs ys h =
      ap length (copy_at_lem at xs ys)
      ∙ omega (
        arith,
        length-append (take at xs) (ys ++ drop (at + length ys) xs),
        length-append ys (drop (at + length ys) xs),
        length-take at xs,
        length-drop (at + length ys) xs,
      )

  drop_at : (n : ℕ) (xs ys : List A) → n ≡ length xs → drop n (xs ++ ys) ≡ ys
  drop_at n xs ys e = ap (λ t. drop t (xs ++ ys)) e ∙ drop-append xs ys

  module _ (row : ℕ) (screen bytes : List A) (full : length bytes ≡ columns)
      (room : row * columns + columns ≤ length screen) where
    -- The row that is written.
    pub row_of-copy_at : row_of row (copy_at screen (row * columns) bytes) ≡ bytes
    row_of-copy_at =
        ap (row_of row) (copy_at_lem (row * columns) screen bytes)
        ∙ ap (take columns) (
            drop_at (row * columns) (take (row * columns) screen) _
              (omega (arith, length-take (row * columns) screen)))
        ∙ take_at columns bytes _ (sym full)

    -- The rows above it.
    pub row_of-copy_at_above :
        (i : ℕ) → i < row → row_of i (copy_at screen (row * columns) bytes) ≡ row_of i screen
    row_of-copy_at_above i h =
        ap (row_of i) (copy_at_lem (row * columns) screen bytes)
        ∙ slice_before (i * columns) columns (row * columns) screen _ (omega arith) (omega arith)

    pub length-row_written : length (copy_at screen (row * columns) bytes) ≡ length screen
    length-row_written = length-copy_at (row * columns) screen bytes (omega arith)

  pub length-row_of :
      (row : ℕ) (xs : List A)
      → row * columns + columns ≤ length xs
      → length (row_of row xs) ≡ columns
  length-row_of row xs h =
      omega (arith, length-take columns (drop (row * columns) xs), length-drop (row * columns) xs)

  pub All-row_of {κ} : (P : A → Type κ) (row : ℕ) (xs : List A) → All P xs → All P (row_of row xs)
  All-row_of P row xs v =
      All-take P columns (drop (row * columns) xs) (All-drop (row * columns) xs v)
    where
      All-drop : (n : ℕ) (ys : List A) → All P ys → All P (drop n ys)
      All-drop zero ys w = w
      All-drop (suc n) [] w = tt
      All-drop (suc n) (y ∷ ys) w = All-drop n ys w.1
