-- ===== src/WifiProfile/Accepted.antt =====
-- firmware/src/wifi_profile.c: the plaintext of a new profile is accepted, and what is taken from it.
use p2000t_teletekst_cartrid.P2wp.Frame.{IsByte, u8}
use p2000t_teletekst_cartrid.Prelude.{
  ℕ, zero, suc, ◌+◌, ◌-◌, ◌/◌, ◌^◌, ◌≤◌, ◌<◌, false, List, ◌++◌, length, replicate, copy_at, All,
  ◌≡◌, ap, ap₂, ◌∙◌, arith,
}
use p2000t_teletekst_cartrid.WifiProfile.Pages.{length-copy_at, ended-copy}
use p2000t_teletekst_cartrid.WifiProfile.Saved.{IsPlaintext}
use p2000t_teletekst_cartrid.WifiProfile.{
  max_ssid, max_password, ok, Credentials, lengths_are_bad, record_header, new_plaintext,
  credentials_of, low_bytes, accept, ended,
}

-- The credentials as they come back: the texts, each in an array of zeros.
abbrev pub credentials_for : List ℕ → List ℕ → ℕ → Credentials
credentials_for ssid password auth = record {
  ssid_length = length ssid;
  ssid = ssid ++ replicate (max_ssid + 1 - length ssid) 0;
  password_length = length password;
  password = password ++ replicate (max_password + 1 - length password) 0;
  auth = auth;
}

good_lengths :
    (s w auth : ℕ) → lengths_are_bad s w auth ≡ false → (s ≤ max_ssid) × (w ≤ max_password)
unfolding lengths_are_bad
good_lengths s w auth h = (ground arith, ground arith)

pub new_plaintext-IsPlaintext :
    (ssid password : List ℕ) (auth : ℕ)
    → lengths_are_bad (length ssid) (length password) auth ≡ false
    → auth < 2 ^ 32
    → IsPlaintext (new_plaintext ssid password auth)
new_plaintext-IsPlaintext ssid password auth good fits =
    let bounds = good_lengths (length ssid) (length password) auth good in
    record {
      ssid_size = length-copy_at max_ssid 0 ssid bounds.0;
      password_size = length-copy_at (max_password + 1) 0 password (omega (arith, bounds.1));
      auth_fits = fits;
    }

credentials_of-new_plaintext :
    (ssid password : List ℕ) (auth : ℕ)
    → lengths_are_bad (length ssid) (length password) auth ≡ false
    → credentials_of (new_plaintext ssid password auth) ≡ credentials_for ssid password auth
credentials_of-new_plaintext ssid password auth good =
    let bounds = good_lengths (length ssid) (length password) auth good in
    let s : u8 (length ssid) ≡ length ssid = omega (arith, bounds.0) in
    let w : u8 (length password) ≡ length password = omega (arith, bounds.1) in
    let text = ended-copy max_ssid (max_ssid + 1) ssid (omega (arith, bounds.0)) in
    let word =
      ended-copy (max_password + 1) (max_password + 1) password (omega (arith, bounds.1)) in
    ap₂
      (λ (a b : ℕ × List ℕ). record {
        ssid_length = a.0;
        ssid = a.1;
        password_length = b.0;
        password = b.1;
        auth = auth;
      })
      (ap
          (λ (k : ℕ).
            (k, ended (replicate (max_ssid + 1) 0) k (copy_at (replicate max_ssid 0) 0 ssid)))
          s
        ∙ ap (λ (t : List ℕ). (length ssid, t)) text)
      (ap
          (λ (k : ℕ). (
            k,
            ended (replicate (max_password + 1) 0) k
                (copy_at (replicate (max_password + 1) 0) 0 password),
          ))
          w
        ∙ ap (λ (t : List ℕ). (length password, t)) word)

pub accept-new_plaintext :
    (ssid password : List ℕ) (auth : ℕ)
    → lengths_are_bad (length ssid) (length password) auth ≡ false
    → accept (new_plaintext ssid password auth) ≡ (ok, credentials_for ssid password auth)
unfolding accept
accept-new_plaintext ssid password auth good =
    let bounds = good_lengths (length ssid) (length password) auth good in
    let s : u8 (length ssid) ≡ length ssid = omega (arith, bounds.0) in
    let w : u8 (length password) ≡ length password = omega (arith, bounds.1) in
    let checked : lengths_are_bad (u8 (length ssid)) (u8 (length password)) auth ≡ false =
      ap₂ (λ x y. lengths_are_bad x y auth) s w ∙ good in
    let c = credentials_of (new_plaintext ssid password auth) in
    rw checked
      (ap (λ (x : Credentials). (ok, x)) (credentials_of-new_plaintext ssid password auth good))

pub low_bytes-bytes : (count n : ℕ) → All IsByte (low_bytes count n)
unfolding low_bytes
low_bytes-bytes zero n = tt
low_bytes-bytes (suc count) n = (omega arith, low_bytes-bytes count (n / 2 ^ 8))

pub record_header-bytes : (nonce : List ℕ) → All IsByte nonce → All IsByte (record_header nonce)
record_header-bytes nonce p = (
  omega arith,
  (
    omega arith,
    (
      omega arith,
      (
        omega arith,
        (
          omega arith,
          (
            omega arith,
            (
              omega arith,
              (omega arith, (omega arith, (omega arith, (omega arith, (omega arith, p))))),
            ),
          ),
        ),
      ),
    ),
  ),
)
