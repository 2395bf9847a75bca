-- ===== src/WifiProfile/Kept.antt =====
-- firmware/src/wifi_profile.c: what a load hands out.
use p2000t_teletekst_cartrid.Flash.{FlashDevice}
use p2000t_teletekst_cartrid.P2wp.Parser.{byte_at}
use p2000t_teletekst_cartrid.Prelude.{
  ℕ, zero, suc, ◌≤◌, ◌<◌, false, not, ◌==◌, List, [], ◌∷◌, set, take, copy_at, ◌≡◌, ◌≢◌, ◌⊎◌, refl,
  arith, inl, inr, Bool-cases, Option-cases,
}
use p2000t_teletekst_cartrid.WifiProfile.{
  max_ssid, max_password, profile_version, ProfileResult, ok, not_found, corrupt, Platform,
  Plaintext, Credentials, lengths_are_bad, credentials_of, no_credentials, present, decrypt, accept,
  load,
}

-- The lengths of credentials fit, also to the way of authentication, and both texts have their end
-- mark.
pub IsCredentials : Credentials → Type 0
IsCredentials c =
    (0 < c.ssid_length)
    × (c.ssid_length ≤ max_ssid)
    × (c.password_length ≤ max_password)
    × (((c.auth ≡ 0) × (c.password_length ≡ 0)) ⊎ ((c.auth ≢ 0) × (8 ≤ c.password_length)))
    × (byte_at c.ssid c.ssid_length ≡ 0)
    × (byte_at c.password c.password_length ≡ 0)

byte_at-set : (xs : List ℕ) (n : ℕ) → byte_at (set xs n 0) n ≡ 0
byte_at-set [] zero = refl
byte_at-set [] (suc n) = refl
byte_at-set (x ∷ xs) zero = refl
byte_at-set (x ∷ xs) (suc n) = byte_at-set xs n

fitting :
    (s w auth : ℕ)
    → lengths_are_bad s w auth ≡ false
    → (0 < s)
      × (s ≤ max_ssid)
      × (w ≤ max_password)
      × (((auth ≡ 0) × (w ≡ 0)) ⊎ ((auth ≢ 0) × (8 ≤ w)))
unfolding lengths_are_bad
fitting s w auth h = (
  ground arith,
  ground arith,
  ground arith,
  elim (Bool-cases (auth == 0)) [
    | inl free ↦ inl (ground arith, ground arith)
    | inr secured ↦ inr (λ e. ground arith, ground arith)
  ],
)

credentials_of-IsCredentials :
    (p : Plaintext)
    → lengths_are_bad p.ssid_length p.password_length p.auth ≡ false
    → IsCredentials (credentials_of p)
unfolding IsCredentials
credentials_of-IsCredentials p good =
    let (some_ssid, ssid_fits, password_fits, way) =
      fitting p.ssid_length p.password_length p.auth good in
    (
      some_ssid,
      ssid_fits,
      password_fits,
      way,
      byte_at-set (copy_at no_credentials.ssid 0 (take p.ssid_length p.ssid)) p.ssid_length,
      byte_at-set (copy_at no_credentials.password 0 (take p.password_length p.password))
          p.password_length,
    )

-- What a load hands out: credentials that fit, or nothing.
data Handed : ProfileResult × Credentials → Type 0 where
  given : (c : Credentials) → IsCredentials c → Handed (ok, c)
  refused : (r : ProfileResult) → ¬ (r ≡ ok) → Handed (r, no_credentials)

accept-Handed : (p : Plaintext) → Handed (accept p)
unfolding accept
accept-Handed p = elim (Bool-cases (not (p.version == profile_version))) [
  | inl old ↦ rw old (refused corrupt cc)
  | inr new ↦ elim (Bool-cases (lengths_are_bad p.ssid_length p.password_length p.auth)) [
    | inl bad ↦ rw (new, bad) (refused corrupt cc)
    | inr good ↦ rw (new, good) (given (credentials_of p) (credentials_of-IsCredentials p good))
  ]
]

Handed-cases :
    (r : ProfileResult × Credentials)
    → Handed r
    → ((r.0 ≡ ok) × IsCredentials r.1) ⊎ (¬ (r.0 ≡ ok) × (r.1 ≡ no_credentials))
Handed-cases _ (given c fits) = inl (refl, fits)
Handed-cases _ (refused r bad) = inr (bad, refl)

module _ {Flash Gcm Seed : Type 0} (device : FlashDevice Flash) (platform : Platform Gcm Seed) where
  load-Handed : (flash : Flash) → Handed (load device platform flash)
  unfolding load
  load-Handed flash = elim (Bool-cases (present device platform flash)) [
    | inr missing ↦ rw missing (refused not_found cc)
    | inl found ↦ elim (Bool-cases (byte_at (device.mapped flash) 8 == profile_version)) [
      | inr old ↦ rw (found, old) (refused corrupt cc)
      | inl new ↦ elim (Option-cases (decrypt device platform (device.mapped flash))) [
        | inl changed ↦ rw (found, new, changed) (refused corrupt cc)
        | inr opened ↦ rw (found, new, opened.1) (accept-Handed opened.0)
      ]
    ]
  ]

  -- On every flash and with every cipher, a load either ends with `ok` and credentials that fit: an
  -- SSID of 1 to 32 bytes, a password of at most 63, none for an open network and at least 8 otherwise,
  -- each with a zero behind it; or it ends with another result and hands out nothing but zeros.
  pub load-IsCredentials :
      (flash : Flash)
      → (((load device platform flash).0 ≡ ok) × IsCredentials (load device platform flash).1)
        ⊎ (¬ ((load device platform flash).0 ≡ ok)
            × ((load device platform flash).1 ≡ no_credentials))
  load-IsCredentials flash = Handed-cases (load device platform flash) (load-Handed flash)
