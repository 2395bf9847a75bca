-- ===== src/CustomUrlStore/Record.antt =====
-- firmware/src/custom_url_store.c: a record in memory.
use p2000t_teletekst_cartrid.CustomEndpoint.{url_max}
use p2000t_teletekst_cartrid.CustomUrlStore.{UrlRecord, same_bytes, to_bytes, from_bytes, page_of}
use p2000t_teletekst_cartrid.Flash.{page_size}
use p2000t_teletekst_cartrid.P2wp.Frame.{IsByte, u8}
use p2000t_teletekst_cartrid.P2wp.Parser.{byte_at}
use p2000t_teletekst_cartrid.Prelude.{
  ℕ, zero, suc, ◌+◌, ◌*◌, ◌/◌, ◌^◌, ◌≤◌, ◌<◌, true, List, [], ◌∷◌, ◌++◌, ◌≡◌, refl, sym, ap, ap₂,
  ◌∙◌, arith, length, take, drop, All, length-append, length-take, length-drop, length-replicate,
  append_assoc, take_at, get_or_at, take-append-drop, All-get_or, replicate, copy_at, All-append,
  All-take,
}

-- A record as the C type lays it out.
pub record IsRecord (r : UrlRecord) : Type 0 where
  pub magic_size : length r.magic ≡ 8
  pub url_size : length r.url ≡ url_max
  pub checksum_fits : r.checksum < 2 ^ 32
  pub magic_bytes : All IsByte r.magic
  pub fields :
      (r.version < 256) × (r.url_length < 256) × (r.auto_start_source < 256) × (r.reserved < 256)
  pub url_bytes : All IsByte r.url

All-drop : (n : ℕ) (xs : List ℕ) → All IsByte xs → All IsByte (drop n xs)
All-drop zero xs p = p
All-drop (suc n) [] p = tt
All-drop (suc n) (x ∷ xs) p = All-drop n xs p.1

All-replicate : (n b : ℕ) → IsByte b → All IsByte (replicate n b)
All-replicate zero b h = tt
All-replicate (suc n) b h = (h, All-replicate n b h)

-- An array of bytes that bytes are copied to the start of.
pub copy_at-bytes :
    (n b : ℕ) (bytes : List ℕ)
    → IsByte b
    → All IsByte bytes
    → All IsByte (copy_at (replicate n b) 0 bytes)
copy_at-bytes n b bytes h p =
    All-append IsByte bytes (drop (0 + length bytes) (replicate n b)) p
      (All-drop (0 + length bytes) (replicate n b) (All-replicate n b h))

pub same_bytes-eq : (xs ys : List ℕ) → same_bytes xs ys ≡ true → xs ≡ ys
unfolding same_bytes
same_bytes-eq [] [] e = refl
same_bytes-eq [] (y ∷ ys) e = cc
same_bytes-eq (x ∷ xs) [] e = cc
same_bytes-eq (x ∷ xs) (y ∷ ys) e = ap₂ ◌∷◌ (ground arith) (same_bytes-eq xs ys (ground arith))

pub same_bytes_refl : (xs : List ℕ) → same_bytes xs xs ≡ true
unfolding same_bytes
same_bytes_refl [] = refl
same_bytes_refl (x ∷ xs) = ground (arith, same_bytes_refl xs)

drop_at : (i k : ℕ) (xs ys : List ℕ) → i ≡ length xs + k → drop i (xs ++ ys) ≡ drop k ys
drop_at i k [] ys e = ap (λ n. drop n ys) (omega arith)
drop_at zero k (x ∷ xs) ys e = absurd (omega arith)
drop_at (suc i) k (x ∷ xs) ys e = drop_at i k xs ys (omega arith)

-- The four bytes of a number of 32 bits.
le32 :
    (c : ℕ)
    → c < 2 ^ 32
    → u8 c + u8 (c / 2 ^ 8) * 2 ^ 8 + u8 (c / 2 ^ 16) * 2 ^ 16 + u8 (c / 2 ^ 24) * 2 ^ 24 ≡ c
le32 c h = omega arith

from_bytes-behind :
    (magic suffix : List ℕ)
    → length magic ≡ 8
    → from_bytes (magic ++ suffix) ≡ record {
      magic = magic;
      version = byte_at suffix 0;
      url_length = byte_at suffix 1;
      auto_start_source = byte_at suffix 2;
      reserved = byte_at suffix 3;
      checksum =
          byte_at suffix 4
          + byte_at suffix 5 * 2 ^ 8
          + byte_at suffix 6 * 2 ^ 16
          + byte_at suffix 7 * 2 ^ 24;
      url = take url_max (drop 8 suffix);
    }
unfolding from_bytes
from_bytes-behind magic suffix h =
    rw
      (
        take_at 8 magic suffix (sym h),
        get_or_at 8 0 magic suffix 0 (omega arith),
        get_or_at 9 1 magic suffix 0 (omega arith),
        get_or_at 10 2 magic suffix 0 (omega arith),
        get_or_at 11 3 magic suffix 0 (omega arith),
        get_or_at 12 4 magic suffix 0 (omega arith),
        get_or_at 13 5 magic suffix 0 (omega arith),
        get_or_at 14 6 magic suffix 0 (omega arith),
        get_or_at 15 7 magic suffix 0 (omega arith),
        drop_at 16 8 magic suffix (omega arith),
      )
      refl

-- A record in memory is read as itself.
pub from_bytes-to_bytes :
    (r : UrlRecord) (rest : List ℕ) → IsRecord r → from_bytes (to_bytes r ++ rest) ≡ r
unfolding to_bytes
from_bytes-to_bytes r rest v =
    let suffix =
      r.version
      ∷ r.url_length
      ∷ r.auto_start_source
      ∷ r.reserved
      ∷ u8 r.checksum
      ∷ u8 (r.checksum / 2 ^ 8)
      ∷ u8 (r.checksum / 2 ^ 16)
      ∷ u8 (r.checksum / 2 ^ 24)
      ∷ r.url in
    ap from_bytes (append_assoc r.magic suffix rest)
    ∙ from_bytes-behind r.magic (suffix ++ rest) v.magic_size
    ∙ ap₂ (λ c u. record r { checksum = c; url = u }) (le32 r.checksum v.checksum_fits)
        (take_at url_max r.url rest (sym v.url_size))

pub length-to_bytes : (r : UrlRecord) → IsRecord r → length (to_bytes r) ≡ 112
unfolding to_bytes
length-to_bytes r v = rw (length-append r.magic _, v.magic_size, v.url_size) refl

-- The rest of the page.
abbrev erased_rest : UrlRecord → List ℕ
erased_rest r = drop (0 + length (to_bytes r)) (replicate page_size 0xff)

to_bytes-bytes : (r : UrlRecord) → IsRecord r → All IsByte (to_bytes r)
unfolding to_bytes
to_bytes-bytes r v = All-append IsByte r.magic _ v.magic_bytes (
  v.fields.0,
  (
    v.fields.1,
    (
      v.fields.2,
      (v.fields.3, (omega arith, (omega arith, (omega arith, (omega arith, v.url_bytes))))),
    ),
  ),
)

pub page_of-bytes : (r : UrlRecord) → IsRecord r → All IsByte (page_of r)
page_of-bytes r v = copy_at-bytes page_size 0xff (to_bytes r) (omega arith) (to_bytes-bytes r v)

pub length-page_of : (r : UrlRecord) → IsRecord r → length (page_of r) ≡ page_size
length-page_of r v = omega (
  arith,
  length-append (to_bytes r) (erased_rest r),
  length-drop {A = ℕ} (0 + length (to_bytes r)) (replicate page_size 0xff),
  length-replicate {A = ℕ} page_size 0xff,
  length-to_bytes r v,
)

-- What is read where the page of a record stands.
pub from_bytes-page_of :
    (r : UrlRecord) (memory : List ℕ)
    → IsRecord r
    → take page_size memory ≡ page_of r
    → from_bytes memory ≡ r
from_bytes-page_of r memory v e =
    ap from_bytes (
      sym (take-append-drop page_size memory)
      ∙ ap (λ t. t ++ drop page_size memory) e
      ∙ append_assoc (to_bytes r) (erased_rest r) (drop page_size memory))
    ∙ from_bytes-to_bytes r (erased_rest r ++ drop page_size memory) v

-- What is read from bytes is laid out as a record.
pub from_bytes-IsRecord :
    (memory : List ℕ) → page_size ≤ length memory → All IsByte memory → IsRecord (from_bytes memory)
unfolding from_bytes
from_bytes-IsRecord memory sized bytes =
    let byte : (i : ℕ) → IsByte (byte_at memory i) =
      λ i. All-get_or IsByte memory i 0 bytes (omega arith) in
    record {
      magic_size = omega (arith, length-take 8 memory);
      url_size = omega (arith, length-take url_max (drop 16 memory), length-drop 16 memory);
      checksum_fits = omega (arith, byte 12, byte 13, byte 14, byte 15);
      magic_bytes = All-take IsByte 8 memory bytes;
      fields = (byte 8, byte 9, byte 10, byte 11);
      url_bytes = All-take IsByte url_max (drop 16 memory) (All-drop 16 memory bytes);
    }
