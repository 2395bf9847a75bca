-- ===== src/WifiProfile/Loaded.antt =====
-- firmware/src/wifi_profile.c: what a store that succeeds leaves in the flash, and its load.
use p2000t_teletekst_cartrid.CustomUrlStore.Record.{copy_at-bytes, same_bytes_refl}
use p2000t_teletekst_cartrid.Flash.{FlashDevice, IsFlashDevice, page_size}
use p2000t_teletekst_cartrid.P2wp.Frame.{IsByte}
use p2000t_teletekst_cartrid.Prelude.{
  ℕ, ◌^◌, ◌≤◌, ◌<◌, true, false, List, ◌++◌, some, length, drop, replicate, All, All-append, ◌≡◌,
  ◌⊎◌, refl, sym, ap, ◌∙◌, arith, inl, inr, Bool-cases, Option-cases, take-append-drop,
  length-append,
}
use p2000t_teletekst_cartrid.WifiProfile.Accepted.{
  credentials_for, accept-new_plaintext, new_plaintext-IsPlaintext, record_header-bytes,
  low_bytes-bytes,
}
use p2000t_teletekst_cartrid.WifiProfile.Pages.{copied_parts, length-copy_at}
use p2000t_teletekst_cartrid.WifiProfile.Saved.{
  IsPlatform, decrypt_parts, commit_ok, length-plaintext_bytes, encrypt_steps, store_page,
  store_unpaged, unpaged_kept, commit_either,
}
use p2000t_teletekst_cartrid.WifiProfile.{
  nonce_size, tag_size, plaintext_size, ProfileResult, ok, storage_failed, invalid_data, Platform,
  Plaintext, profile_magic, plaintext_bytes, lengths_are_bad, record_header, new_plaintext, present,
  device_cipher, aad, random_bytes, low_bytes, commit, profile_page, encrypt, decrypt, accept,
  store, load,
}

not_ok : {r : ProfileResult} → (r ≡ invalid_data) ⊎ (r ≡ storage_failed) → ¬ (r ≡ ok)
not_ok (inl e) h = cc
not_ok (inr e) h = cc

module _ {Flash Gcm Seed : Type 0} (device : FlashDevice Flash) (platform : Platform Gcm Seed) where
  random_bytes-nonce :
      (seed : Seed)
      → (length (random_bytes device platform nonce_size nonce_size seed).0 ≡ nonce_size)
        × All IsByte (random_bytes device platform nonce_size nonce_size seed).0
  unfolding random_bytes low_bytes
  random_bytes-nonce seed =
      let (first, seed') = platform.random seed in
      (
        refl,
        All-append IsByte (low_bytes 8 first) (low_bytes 4 (platform.random seed').0)
            (low_bytes-bytes 8 first) (low_bytes-bytes 4 (platform.random seed').0),
      )

  present_steps :
      (flash : Flash) (nonce more : List ℕ)
      → device.region_available ≡ true
      → device.mapped flash ≡ record_header nonce ++ more
      → present device platform flash ≡ true
  unfolding present
  present_steps flash nonce more available e = rw (available, e) (same_bytes_refl profile_magic)

  load_steps :
      (flash : Flash) (nonce more : List ℕ) (p : Plaintext)
      → device.region_available ≡ true
      → device.mapped flash ≡ record_header nonce ++ more
      → decrypt device platform (record_header nonce ++ more) ≡ some p
      → load device platform flash ≡ accept p
  unfolding load
  load_steps flash nonce more p available e opened =
      rw (present_steps flash nonce more available e, e, opened) refl

  encrypt_total :
      (nonce : List ℕ) (text : Plaintext) (gcm : Gcm) (out : List ℕ × List ℕ)
      → device_cipher device platform ≡ some gcm
      → platform.crypt_and_tag gcm nonce
          (aad device platform (record_header nonce))
          (plaintext_bytes text)
        ≡ some out
      → encrypt device platform nonce text ≡ some (profile_page device platform nonce out)
  unfolding encrypt
  encrypt_total nonce text gcm out key crypt = rw (key, crypt) refl

  commit_total :
      (page : List ℕ) (flash : Flash)
      → device.region_available ≡ true
      → ((update : Flash → Flash) → (device.safe_execute flash update).0 ≡ true)
      → (commit device platform (some page) flash).0 ≡ ok
  unfolding commit
  commit_total page flash available executes =
      rw (available, executes (λ f. device.range_program (device.range_erase f) page)) refl

  module _ (laws : IsFlashDevice device) (cipher : IsPlatform platform) where
    -- What the flash holds behind a page of three parts.
    mapped_page :
        (flash : Flash) (nonce : List ℕ) (out : List ℕ × List ℕ)
        → length nonce ≡ nonce_size
        → All IsByte nonce
        → length out.0 ≡ plaintext_size
        → length out.1 ≡ tag_size
        → All IsByte out.0
        → All IsByte out.1
        → (rest : List ℕ) × (device.mapped (
              device.range_program
                (device.range_erase flash)
                (profile_page device platform nonce out))
            ≡ record_header nonce ++ (out.0 ++ (out.1 ++ rest)))
    mapped_page flash nonce out size p long short bytes tag_bytes =
        let content = record_header nonce ++ (out.0 ++ out.1) in
        let page = profile_page device platform nonce out in
        let memory = device.mapped (device.range_program (device.range_erase flash) page) in
        let fits : length content ≤ page_size =
          omega (arith, length-append nonce (out.0 ++ out.1), length-append out.0 out.1) in
        let good : All IsByte content =
          All-append IsByte (record_header nonce) (out.0 ++ out.1) (record_header-bytes nonce p)
            (All-append IsByte out.0 out.1 bytes tag_bytes) in
        let programmed =
          laws.programmed flash page (length-copy_at page_size 0xff content fits)
            (copy_at-bytes page_size 0xff content (omega arith) good) in
        copied_parts (replicate page_size 0xff) (record_header nonce) out.0 out.1
          (drop page_size memory) memory
          (sym (take-append-drop page_size memory)
            ∙ ap (λ (x : List ℕ). x ++ drop page_size memory) programmed)

    load_page :
        (ssid password : List ℕ) (auth : ℕ) (flash : Flash) (nonce : List ℕ) (gcm : Gcm)
        (out : List ℕ × List ℕ)
        → auth < 2 ^ 32
        → lengths_are_bad (length ssid) (length password) auth ≡ false
        → length nonce ≡ nonce_size
        → All IsByte nonce
        → device.region_available ≡ true
        → device_cipher device platform ≡ some gcm
        → platform.crypt_and_tag gcm nonce
            (aad device platform (record_header nonce))
            (plaintext_bytes (new_plaintext ssid password auth))
          ≡ some out
        → load device platform (
            device.range_program
              (device.range_erase flash)
              (profile_page device platform nonce out))
          ≡ (ok, credentials_for ssid password auth)
    load_page ssid password auth flash nonce gcm out fits good size p available key crypt =
        let text = new_plaintext ssid password auth in
        let v = new_plaintext-IsPlaintext ssid password auth good fits in
        let (long, short, bytes, tag_bytes) =
          cipher.sizes gcm nonce (aad device platform (record_header nonce)) (plaintext_bytes text)
            out crypt in
        let (rest, memory) =
          mapped_page flash nonce out size p (long ∙ length-plaintext_bytes text v) short bytes
            tag_bytes in
        load_steps
          (device.range_program (device.range_erase flash) (profile_page device platform nonce out))
          nonce (out.0 ++ (out.1 ++ rest)) text available memory
          (decrypt_parts device platform laws cipher gcm nonce out rest text size v key crypt)
        ∙ accept-new_plaintext ssid password auth good

    module _ (ssid password : List ℕ) (auth : ℕ) (flash : Flash) (seed : Seed) where
      load-store_page :
          (page : List ℕ)
          → auth < 2 ^ 32
          → lengths_are_bad (length ssid) (length password) auth ≡ false
          → encrypt device platform
              (random_bytes device platform nonce_size nonce_size seed).0
              (new_plaintext ssid password auth)
            ≡ some page
          → device.region_available ≡ true
          → (commit device platform (some page) flash).1
            ≡ device.range_program (device.range_erase flash) page
          → load device platform (store device platform ssid password auth flash seed).1
            ≡ (ok, credentials_for ssid password auth)
      load-store_page page fits good encrypted available programmed =
          let nonce = (random_bytes device platform nonce_size nonce_size seed).0 in
          let (size, p) = random_bytes-nonce seed in
          let (gcm, key, (out, crypt, same)) =
            encrypt_steps device platform nonce (new_plaintext ssid password auth) page encrypted in
          let stored =
            store_page device platform ssid password auth flash seed page good encrypted in
          ap (load device platform) (
            stored.1 ∙ programmed ∙ sym (ap (device.range_program (device.range_erase flash)) same))
          ∙ load_page ssid password auth flash nonce gcm out fits good size p available key crypt

      -- On a flash device and with a cipher that do what is documented: where the store of a profile,
      -- whose way of authentication is a 32-bit number, ends with `ok`, the load after it ends with
      -- `ok` and with the same texts, their lengths, zeros up to the end of their arrays and the same
      -- way of authentication.
      pub load-store :
          auth < 2 ^ 32
          → (store device platform ssid password auth flash seed).0 ≡ ok
          → load device platform (store device platform ssid password auth flash seed).1
            ≡ (ok, credentials_for ssid password auth)
      load-store fits h =
          let nonce = (random_bytes device platform nonce_size nonce_size seed).0 in
          let unpaged = store_unpaged device platform ssid password auth flash seed in
          elim (Bool-cases (lengths_are_bad (length ssid) (length password) auth)) [
            | inl bad ↦ absurd (not_ok (unpaged (inl bad)) h)
            | inr good ↦
                elim (Option-cases
                  (encrypt device platform nonce (new_plaintext ssid password auth))) [
                    | inl failed ↦ absurd (not_ok (unpaged (inr failed)) h)
                    | inr found ↦
                        let stored =
                          store_page device platform ssid password auth flash seed found.0 good
                            found.1 in
                        let (available, programmed) =
                          commit_ok device platform laws found.0 flash (sym stored.0 ∙ h) in
                        load-store_page found.0 fits good found.1 available programmed
                  ]
          ]

      -- On a flash device and with a cipher that do what is documented, where an update that fails may
      -- have been executed: a store of any texts, with a 32-bit way of authentication and whatever its
      -- result, leaves the flash as it was, or the profile is loaded from it.
      pub store_whole :
          auth < 2 ^ 32
          → ((store device platform ssid password auth flash seed).1 ≡ flash)
            ⊎ (load device platform (store device platform ssid password auth flash seed).1
                ≡ (ok, credentials_for ssid password auth))
      store_whole fits =
          let nonce = (random_bytes device platform nonce_size nonce_size seed).0 in
          let unpaged = unpaged_kept device platform ssid password auth flash seed in
          elim (Bool-cases (lengths_are_bad (length ssid) (length password) auth)) [
            | inl bad ↦ inl (unpaged (inl bad))
            | inr good ↦
                elim (Option-cases
                  (encrypt device platform nonce (new_plaintext ssid password auth))) [
                    | inl failed ↦ inl (unpaged (inr failed))
                    | inr found ↦
                        let stored =
                          store_page device platform ssid password auth flash seed found.0 good
                            found.1 in
                        elim (commit_either device platform laws found.0 flash) [
                          | inl kept ↦ inl (stored.1 ∙ kept)
                          | inr (available, programmed) ↦
                              inr (load-store_page found.0 fits good found.1 available programmed)
                        ]
                  ]
          ]

      -- On a flash device and with a cipher that do what is documented: where the lengths fit, the
      -- sector is available, the device executes each update and the cipher has an output for the record
      -- with the random numbers drawn, the store of a profile ends with `ok` and the profile is loaded
      -- from the flash, whatever it held before.
      pub store_total :
          (gcm : Gcm) (out : List ℕ × List ℕ)
          → auth < 2 ^ 32
          → lengths_are_bad (length ssid) (length password) auth ≡ false
          → device.region_available ≡ true
          → ((update : Flash → Flash) → (device.safe_execute flash update).0 ≡ true)
          → device_cipher device platform ≡ some gcm
          → platform.crypt_and_tag gcm
              (random_bytes device platform nonce_size nonce_size seed).0
              (aad device platform
                (record_header (random_bytes device platform nonce_size nonce_size seed).0))
              (plaintext_bytes (new_plaintext ssid password auth))
            ≡ some out
          → ((store device platform ssid password auth flash seed).0 ≡ ok)
            × (load device platform (store device platform ssid password auth flash seed).1
                ≡ (ok, credentials_for ssid password auth))
      store_total gcm out fits good available executes key crypt =
          let nonce = (random_bytes device platform nonce_size nonce_size seed).0 in
          let page = profile_page device platform nonce out in
          let done : (store device platform ssid password auth flash seed).0 ≡ ok =
            (store_page device platform ssid password auth flash seed page good
              (encrypt_total nonce (new_plaintext ssid password auth) gcm out key crypt)).0
            ∙ commit_total page flash available executes in
          (done, load-store fits done)
