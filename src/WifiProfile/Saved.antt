-- ===== src/WifiProfile/Saved.antt =====
-- firmware/src/wifi_profile.c: a stored profile is loaded again.
use p2000t_teletekst_cartrid.Flash.{FlashDevice, IsFlashDevice}
use p2000t_teletekst_cartrid.P2wp.Frame.{IsByte, u8}
use p2000t_teletekst_cartrid.Prelude.{
  ℕ, ◌+◌, ◌*◌, ◌/◌, ◌^◌, ◌<◌, true, false, List, ◌∷◌, ◌++◌, none, some, length, take, drop, All,
  ◌>>=◌, >>=-eq-some, ◌≡◌, ◌⊎◌, refl, sym, ap, ap₂, ◌∙◌, arith, inl, inr, Bool-cases, take_at,
  take_all, append_assoc, length-append, drop-append,
}
use p2000t_teletekst_cartrid.WifiProfile.{
  max_ssid, max_password, profile_version, nonce_size, tag_size, plaintext_size, header_length, ok,
  storage_failed, invalid_data, Platform, Plaintext, profile_magic, plaintext_bytes, plaintext_from,
  lengths_are_bad, record_header, new_plaintext, device_cipher, aad, random_bytes, commit,
  profile_page, encrypt, decrypt, store,
}

-- What mbedTLS documents for AES-GCM: a tag of sixteen bytes, a ciphertext of the plaintext's
-- length, and under the same key, nonce and additional data the plaintext back.
pub record IsPlatform {Gcm Seed : Type 0} (platform : Platform Gcm Seed) : Type 0 where
  pub sizes :
      (gcm : Gcm) (nonce data_bytes plain : List ℕ) (out : List ℕ × List ℕ)
      → platform.crypt_and_tag gcm nonce data_bytes plain ≡ some out
      → (length out.0 ≡ length plain)
        × (length out.1 ≡ tag_size)
        × All IsByte out.0
        × All IsByte out.1
  pub opens :
      (gcm : Gcm) (nonce data_bytes plain : List ℕ) (out : List ℕ × List ℕ)
      → platform.crypt_and_tag gcm nonce data_bytes plain ≡ some out
      → platform.auth_decrypt gcm nonce data_bytes out.1 out.0 ≡ some plain

-- A packed plaintext reads back.
pub record IsPlaintext (p : Plaintext) : Type 0 where
  pub ssid_size : length p.ssid ≡ max_ssid
  pub password_size : length p.password ≡ max_password + 1
  pub auth_fits : p.auth < 2 ^ 32

four_bytes :
    (n : ℕ)
    → n < 2 ^ 32
    → u8 n + u8 (n / 2 ^ 8) * 2 ^ 8 + u8 (n / 2 ^ 16) * 2 ^ 16 + u8 (n / 2 ^ 24) * 2 ^ 24 ≡ n
four_bytes n h = omega arith

drop_at : (n : ℕ) (xs ys : List ℕ) → n ≡ length xs → drop n (xs ++ ys) ≡ ys
drop_at n xs ys e = ap (λ t. drop t (xs ++ ys)) e ∙ drop-append xs ys

take_exactly : (n : ℕ) (xs : List ℕ) → length xs ≡ n → take n xs ≡ xs
take_exactly n xs e = take_all n xs (omega arith)

pub plaintext_from-plaintext_bytes :
    (p : Plaintext) → IsPlaintext p → plaintext_from (plaintext_bytes p) ≡ p
unfolding plaintext_from plaintext_bytes
plaintext_from-plaintext_bytes p v =
    ap₂
      (λ (n : ℕ) (texts : List ℕ × List ℕ). record p {
        auth = n;
        ssid = texts.0;
        password = texts.1;
      })
      (four_bytes p.auth v.auth_fits)
      (ap₂ (λ s w. (s, w)) (take_at max_ssid p.ssid p.password (sym v.ssid_size))
        (ap (take (max_password + 1)) (drop_at max_ssid p.ssid p.password (sym v.ssid_size))
          ∙ take_exactly (max_password + 1) p.password v.password_size))

pub length-plaintext_bytes :
    (p : Plaintext) → IsPlaintext p → length (plaintext_bytes p) ≡ plaintext_size
unfolding plaintext_bytes
length-plaintext_bytes p v =
    omega (arith, v.ssid_size, v.password_size, length-append p.ssid p.password)

pub some_injective {ℓ} : {A : Type ℓ} {x y : A} → some x ≡ some y → x ≡ y
some_injective e = cc

module _ {Flash Gcm Seed : Type 0} (device : FlashDevice Flash) (platform : Platform Gcm Seed)
    (laws : IsFlashDevice device) (cipher : IsPlatform platform) where
  decrypt_steps :
      (gcm : Gcm) (bytes plain : List ℕ)
      → device_cipher device platform ≡ some gcm
      → platform.auth_decrypt gcm
          (take nonce_size (drop nonce_size bytes))
          (aad device platform bytes)
          (take tag_size (drop (header_length + plaintext_size) bytes))
          (take plaintext_size (drop header_length bytes))
        ≡ some plain
      → decrypt device platform bytes ≡ some (plaintext_from plain)
  unfolding decrypt
  decrypt_steps gcm bytes plain key opened = rw (key, opened) refl

  -- The record at the start of the flash, in its parts.
  pub decrypt_parts :
      (gcm : Gcm) (nonce : List ℕ) (out : List ℕ × List ℕ) (rest : List ℕ) (p : Plaintext)
      → length nonce ≡ nonce_size
      → IsPlaintext p
      → device_cipher device platform ≡ some gcm
      → platform.crypt_and_tag gcm nonce
          (aad device platform (record_header nonce))
          (plaintext_bytes p)
        ≡ some out
      → decrypt device platform (record_header nonce ++ (out.0 ++ (out.1 ++ rest))) ≡ some p
  unfolding aad
  decrypt_parts gcm nonce out rest p size v key sealed_out =
      let (c, t) = out in
      let bytes = record_header nonce ++ (c ++ (t ++ rest)) in
      let fits =
        cipher.sizes gcm nonce (aad device platform (record_header nonce)) (plaintext_bytes p) out
          sealed_out in
      let long : length c ≡ plaintext_size = fits.0 ∙ length-plaintext_bytes p v in
      let at_nonce : take nonce_size (drop nonce_size bytes) ≡ nonce =
        take_at nonce_size nonce (c ++ (t ++ rest)) (sym size) in
      let at_tag : take tag_size (drop (header_length + plaintext_size) bytes) ≡ t =
        ap (λ (x : List ℕ). take tag_size (drop 116 x)) (sym (append_assoc nonce c (t ++ rest)))
        ∙ ap (take tag_size)
            (drop_at 116 (nonce ++ c) (t ++ rest) (omega (arith, length-append nonce c)))
        ∙ take_at tag_size t rest (sym fits.1) in
      let at_text : take plaintext_size (drop header_length bytes) ≡ c =
        ap (take plaintext_size) (drop_at nonce_size nonce (c ++ (t ++ rest)) (sym size))
        ∙ take_at plaintext_size c (t ++ rest) (sym long) in
      let same_aad : aad device platform bytes ≡ aad device platform (record_header nonce) =
        ap
          (λ (x : List ℕ).
            (profile_magic ++ (profile_version ∷ 0 ∷ 0 ∷ 0 ∷ x)) ++ platform.board_id)
          (take_at nonce_size nonce (c ++ (t ++ rest)) (sym size)
            ∙ sym (take_exactly nonce_size nonce size)) in
      let n₁ = take nonce_size (drop nonce_size bytes) in
      let t₁ = take tag_size (drop (header_length + plaintext_size) bytes) in
      let c₁ = take plaintext_size (drop header_length bytes) in
      let a₂ = aad device platform (record_header nonce) in
      let opened : platform.auth_decrypt gcm n₁ (aad device platform bytes) t₁ c₁
          ≡ some (plaintext_bytes p) =
        ap (λ x. platform.auth_decrypt gcm x (aad device platform bytes) t₁ c₁) at_nonce
        ∙ ap (λ x. platform.auth_decrypt gcm nonce x t₁ c₁) same_aad
        ∙ ap (λ x. platform.auth_decrypt gcm nonce a₂ x c₁) at_tag
        ∙ ap (λ x. platform.auth_decrypt gcm nonce a₂ t x) at_text
        ∙ cipher.opens gcm nonce a₂ (plaintext_bytes p) out sealed_out in
      decrypt_steps gcm bytes (plaintext_bytes p) key opened
      ∙ ap some (plaintext_from-plaintext_bytes p v)

module _ {Flash Gcm Seed : Type 0} (device : FlashDevice Flash) (platform : Platform Gcm Seed) where
  pub encrypt_steps :
      (nonce : List ℕ) (p : Plaintext) (page : List ℕ)
      → encrypt device platform nonce p ≡ some page
      → (gcm : Gcm) × (device_cipher device platform ≡ some gcm)
        × ((out : List ℕ × List ℕ) × (platform.crypt_and_tag gcm nonce
                (aad device platform (record_header nonce))
                (plaintext_bytes p)
              ≡ some out)
            × (profile_page device platform nonce out ≡ page))
  unfolding encrypt
  encrypt_steps nonce p page h =
      let (gcm, key, more) =
        >>=-eq-some (device_cipher device platform)
          (λ gcm.
            platform.crypt_and_tag gcm nonce (aad device platform (record_header nonce))
              (plaintext_bytes p)
            >>= λ out. some (profile_page device platform nonce out))
          h in
      let (out, crypt, same) =
        >>=-eq-some
          (platform.crypt_and_tag gcm nonce (aad device platform (record_header nonce))
            (plaintext_bytes p))
          (λ out. some (profile_page device platform nonce out)) more in
      (gcm, key, (out, crypt, some_injective same))

  -- What the flash holds after a page is programmed.
  pub commit_ok :
      IsFlashDevice device
      → (page : List ℕ) (flash : Flash) → (commit device platform (some page) flash).0 ≡ ok
      → (device.region_available ≡ true)
        × ((commit device platform (some page) flash).1
            ≡ device.range_program (device.range_erase flash) page)
  unfolding commit
  commit_ok laws page flash h = elim (Bool-cases device.region_available) [
    | inl available ↦
        elim (laws.executed flash (λ f. device.range_program (device.range_erase f) page)) [
          | inl done ↦ (available, rw (available, done) refl)
          | inr (inl late) ↦ (let h' = rw (available, late) at h in absurd cc)
          | inr (inr refused) ↦ (let h' = rw (available, refused) at h in absurd cc)
        ]
    | inr shut ↦ (let h' = rw shut at h in absurd cc)
  ]

  -- What the flash holds after any attempt to program a page.
  pub commit_either :
      IsFlashDevice device
      → (page : List ℕ) (flash : Flash)
      → ((commit device platform (some page) flash).1 ≡ flash)
        ⊎ ((device.region_available ≡ true)
            × ((commit device platform (some page) flash).1
                ≡ device.range_program (device.range_erase flash) page))
  unfolding commit
  commit_either laws page flash = elim (Bool-cases device.region_available) [
    | inr shut ↦ inl (rw shut refl)
    | inl available ↦
        elim (laws.executed flash (λ f. device.range_program (device.range_erase f) page)) [
          | inl done ↦ inr (available, rw (available, done) refl)
          | inr (inl late) ↦ inr (available, rw (available, late) refl)
          | inr (inr refused) ↦ inl (rw (available, refused) refl)
        ]
  ]

  module _ (ssid password : List ℕ) (auth : ℕ) (flash : Flash) (seed : Seed) where
    pub store_page :
        (page : List ℕ)
        → lengths_are_bad (length ssid) (length password) auth ≡ false
        → encrypt device platform
            (random_bytes device platform nonce_size nonce_size seed).0
            (new_plaintext ssid password auth)
          ≡ some page
        → ((store device platform ssid password auth flash seed).0
            ≡ (commit device platform (some page) flash).0)
          × ((store device platform ssid password auth flash seed).1
              ≡ (commit device platform (some page) flash).1)
    unfolding store
    store_page page good encrypted = (rw (good, encrypted) refl, rw (good, encrypted) refl)

    pub store_unpaged :
        (lengths_are_bad (length ssid) (length password) auth ≡ true)
          ⊎ (encrypt device platform
                (random_bytes device platform nonce_size nonce_size seed).0
                (new_plaintext ssid password auth)
              ≡ none)
        → ((store device platform ssid password auth flash seed).0 ≡ invalid_data)
          ⊎ ((store device platform ssid password auth flash seed).0 ≡ storage_failed)
    unfolding store
    store_unpaged (inl bad) = inl (rw bad refl)
    store_unpaged (inr failed) =
        elim (Bool-cases (lengths_are_bad (length ssid) (length password) auth)) [
          | inl bad ↦ inl (rw bad refl)
          | inr good ↦ inr (rw (good, failed) refl)
        ]

    pub unpaged_kept :
        (lengths_are_bad (length ssid) (length password) auth ≡ true)
          ⊎ (encrypt device platform
                (random_bytes device platform nonce_size nonce_size seed).0
                (new_plaintext ssid password auth)
              ≡ none)
        → (store device platform ssid password auth flash seed).1 ≡ flash
    unfolding store
    unpaged_kept (inl bad) = rw bad refl
    unpaged_kept (inr failed) =
        elim (Bool-cases (lengths_are_bad (length ssid) (length password) auth)) [
          | inl bad ↦ rw bad refl
          | inr good ↦ rw (good, failed) refl
        ]
