-- ===== src/CustomUrlStore/Sealed.antt =====
-- firmware/src/custom_url_store.c: the records that a save writes.
use p2000t_teletekst_cartrid.CustomEndpoint.{Endpoint, parse, url_max}
use p2000t_teletekst_cartrid.CustomUrlStore.Record.{
  IsRecord, same_bytes-eq, same_bytes_refl, copy_at-bytes,
}
use p2000t_teletekst_cartrid.CustomUrlStore.{
  StoreResult, ok, not_found, corrupt, failed, invalid_data, unchanged, UrlRecord, url_magic,
  format_version, disabled, max_source, mix, checksum_of, is_stored_url, check_record, is_ok,
  new_record, sealed, with_url, with_source,
}
use p2000t_teletekst_cartrid.P2wp.Frame.{u8, IsByte}
use p2000t_teletekst_cartrid.Prelude.{
  ℕ, ◌+◌, ◌*◌, ◌%◌, ◌^◌, ◌≤◌, ◌<◌, true, false, ◌||◌, List, [], ◌∷◌, none, some, ◌≡◌, ◌⊎◌, inl, inr,
  refl, sym, ap₂, ◌∙◌, arith, length, take, drop, replicate, copy_at, ◌==◌, if◌then◌else◌,
  length-append, length-take, length-drop, length-replicate, take_at, Bool-cases, bit_xor, All,
  All-take,
}

-- A record that both the store writes and its checks accept.
pub record IsStored (r : UrlRecord) : Type 0 where
  pub laid_out : IsRecord r
  pub checked : check_record r ≡ ok

mix-lt : (bytes : List ℕ) (c : ℕ) → c < 2 ^ 32 → mix c bytes < 2 ^ 32
unfolding mix
mix-lt [] c h = h
mix-lt (b ∷ bytes) c h = mix-lt bytes (bit_xor c b * 16777619 % 2 ^ 32) (omega arith)

checksum_of-lt : (r : UrlRecord) → checksum_of r < 2 ^ 32
unfolding checksum_of
checksum_of-lt r = mix-lt (take r.url_length r.url) _ (
    mix-lt (r.version ∷ r.url_length ∷ r.auto_start_source ∷ r.reserved ∷ []) 2166136261
      (omega arith))

-- What a record that is sealed has to pass.
pub record IsSealable (r : UrlRecord) : Type 0 where
  pub magic_ok : r.magic ≡ url_magic
  pub url_size : length r.url ≡ url_max
  pub current : r.version ≡ format_version
  pub url_fits : r.url_length ≤ url_max
  pub source_ok : (r.auto_start_source ≡ disabled) ⊎ (r.auto_start_source ≤ max_source)
  pub url_ok : is_stored_url r ≡ true
  pub unused : r.reserved ≡ 0
  pub url_bytes : All IsByte r.url

checksum_of-sealed : (r : UrlRecord) → checksum_of (sealed r) ≡ checksum_of r
unfolding checksum_of
checksum_of-sealed r = refl

is_stored_url-sealed : (r : UrlRecord) → is_stored_url (sealed r) ≡ is_stored_url r
unfolding is_stored_url
is_stored_url-sealed r = refl

url_magic-bytes : All IsByte url_magic
url_magic-bytes = (
  omega arith,
  (
    omega arith,
    (omega arith, (omega arith, (omega arith, (omega arith, (omega arith, (omega arith, tt)))))),
  ),
)

sealed-IsStored : (r : UrlRecord) → IsSealable r → IsStored (sealed r)
unfolding check_record
sealed-IsStored r v = record {
  laid_out = record {
    magic_size = rw v.magic_ok refl;
    url_size = v.url_size;
    checksum_fits = checksum_of-lt r;
    magic_bytes = rw v.magic_ok url_magic-bytes;
    fields =
        let current = v.current in
        let fits = v.url_fits in
        let source = v.source_ok in
        let unused = v.unused in (omega arith, omega arith, ground arith, omega arith);
    url_bytes = v.url_bytes;
  };
  checked = ground (
    arith,
    checksum_of-sealed r,
    is_stored_url-sealed r,
    same_bytes_refl url_magic,
    v.magic_ok,
    v.current,
    v.url_fits,
    v.source_ok,
    v.url_ok,
  );
}

-- What the checks tell of a record that was read.
pub record IsChecked (r : UrlRecord) : Type 0 where
  pub magic_ok : r.magic ≡ url_magic
  pub known : (r.version ≡ 1) ⊎ (r.version ≡ format_version)
  pub url_fits : r.url_length ≤ url_max
  pub source_ok :
      r.version ≡ format_version
      → (r.auto_start_source ≡ disabled) ⊎ (r.auto_start_source ≤ max_source)
  pub url_ok : is_stored_url r ≡ true

pub check_record-IsChecked : (r : UrlRecord) → check_record r ≡ ok → IsChecked r
unfolding check_record
check_record-IsChecked r e = record {
  magic_ok = same_bytes-eq r.magic url_magic (ground arith);
  known = ground arith;
  url_fits = ground arith;
  source_ok = λ h. ground arith;
  url_ok = ground arith;
}

-- The start of an array that a shorter list is copied into.
take-copied :
    (n : ℕ) (bytes target : List ℕ) → n ≡ length bytes → take n (copy_at target 0 bytes) ≡ bytes
take-copied n bytes target e = take_at n bytes (drop (0 + length bytes) target) e

length-copied :
    (bytes : List ℕ)
    → length bytes ≤ url_max
    → length (copy_at (replicate url_max 0) 0 bytes) ≡ url_max
length-copied bytes h =
    let rest : List ℕ = drop (0 + length bytes) (replicate url_max 0) in
    omega (
      arith,
      length-append bytes rest,
      length-drop {A = ℕ} (0 + length bytes) (replicate url_max 0),
      length-replicate {A = ℕ} url_max 0,
    )

is_stored_url_same :
    (r s : UrlRecord)
    → r.url_length ≡ s.url_length
    → take r.url_length r.url ≡ take s.url_length s.url
    → is_stored_url r ≡ is_stored_url s
unfolding is_stored_url
is_stored_url_same r s n e =
    ap₂ (λ k t. k == 0 || elim (parse t) [ none ↦ false | some endpoint ↦ true ]) n e

-- The fields that a new record takes over.
abbrev pub existing_source : UrlRecord → ℕ
existing_source r = if r.version == format_version then r.auto_start_source else disabled

abbrev pub existing_url : UrlRecord → List ℕ
existing_url r = take r.url_length r.url

module _ (existing : UrlRecord) (v : IsRecord existing) (c : IsChecked existing) where
  length-existing_url : length (existing_url existing) ≡ existing.url_length
  length-existing_url =
      let size = v.url_size in
      let fits = c.url_fits in omega (arith, length-take existing.url_length existing.url)

  pub existing_url-new_record : existing_url (new_record existing ok) ≡ existing_url existing
  unfolding new_record
  existing_url-new_record =
      take-copied existing.url_length (existing_url existing) (replicate url_max 0)
        (sym length-existing_url)

  new_record-IsSealable : IsSealable (new_record existing ok)
  unfolding new_record
  new_record-IsSealable = record {
    magic_ok = refl;
    url_size =
        length-copied (existing_url existing)
          (let fits = c.url_fits in omega (arith, length-existing_url));
    current = refl;
    url_fits = c.url_fits;
    source_ok = let source = c.source_ok in ground arith;
    url_ok =
        is_stored_url_same (new_record existing ok) existing refl existing_url-new_record
        ∙ c.url_ok;
    unused = refl;
    url_bytes =
        copy_at-bytes url_max 0 (existing_url existing) (omega arith)
          (All-take IsByte existing.url_length existing.url v.url_bytes);
  }

-- The start of a save: what is known of the record that a read gave.
abbrev pub IsRead : UrlRecord → StoreResult → Type 0
IsRead existing result = IsRecord existing × (is_ok result ≡ true → check_record existing ≡ ok)

pub ok-eq : (result : StoreResult) → is_ok result ≡ true → result ≡ ok
ok-eq ok h = refl
ok-eq not_found h = cc
ok-eq corrupt h = cc
ok-eq failed h = cc
ok-eq invalid_data h = cc
ok-eq unchanged h = cc

fresh-IsSealable :
    (existing : UrlRecord) (result : StoreResult)
    → is_ok result ≡ false
    → IsSealable (new_record existing result)
unfolding new_record is_stored_url
fresh-IsSealable existing result h = rw h (record {
  magic_ok = refl;
  url_size = refl;
  current = refl;
  url_fits = omega arith;
  source_ok = inl refl;
  url_ok = refl;
  unused = refl;
  url_bytes = copy_at-bytes url_max 0 [] (omega arith) tt;
})

pub start-IsSealable :
    (existing : UrlRecord) (result : StoreResult)
    → IsRead existing result
    → IsSealable (new_record existing result)
start-IsSealable existing result h = elim (Bool-cases (is_ok result)) [
  | inl good ↦
      rw (ok-eq result good)
        (new_record-IsSealable existing h.0 (check_record-IsChecked existing (h.1 good)))
  | inr bad ↦ fresh-IsSealable existing result bad
]

-- A URL that a save accepts.
abbrev pub IsUrl : List ℕ → Endpoint → Type 0
IsUrl url endpoint =
    (1 ≤ length url) × (length url ≤ url_max) × (parse url ≡ some endpoint) × All IsByte url

module _ (url : List ℕ) {endpoint : Endpoint} (u : IsUrl url endpoint) (r : UrlRecord)
    (v : IsSealable r) where
  abbrev pub url_record : UrlRecord
  url_record = record r { url_length = u8 (length url); url = copy_at (replicate url_max 0) 0 url }

  pub existing_url-url_record : existing_url url_record ≡ url
  existing_url-url_record = take-copied (u8 (length url)) url (replicate url_max 0) (omega arith)

  url_record-IsSealable : IsSealable url_record
  unfolding is_stored_url
  url_record-IsSealable = record {
    magic_ok = v.magic_ok;
    url_size = length-copied url u.1;
    current = v.current;
    url_fits = omega arith;
    source_ok = v.source_ok;
    url_ok = rw (existing_url-url_record, u.2) (ground arith);
    unused = v.unused;
    url_bytes = copy_at-bytes url_max 0 url (omega arith) u.3;
  }

  pub with_url-IsStored : IsStored (with_url url r)
  unfolding with_url
  with_url-IsStored = sealed-IsStored url_record url_record-IsSealable

module _ (source : ℕ) (s : (source ≡ disabled) ⊎ (source ≤ max_source)) (r : UrlRecord)
    (v : IsSealable r) where
  pub with_source-IsStored : IsStored (with_source source r)
  unfolding with_source is_stored_url
  with_source-IsStored =
      sealed-IsStored (record r { auto_start_source = source })
        (record {
          magic_ok = v.magic_ok;
          url_size = v.url_size;
          current = v.current;
          url_fits = v.url_fits;
          source_ok = s;
          url_ok = v.url_ok;
          unused = v.unused;
          url_bytes = v.url_bytes;
        })
