-- ===== src/Tests/Profile.antt =====
-- firmware/src/wifi_profile.c on a concrete flash, with a cipher that hides nothing.
use p2000t_teletekst_cartrid.CustomUrlStore.Record.{same_bytes-eq, same_bytes_refl}
use p2000t_teletekst_cartrid.CustomUrlStore.{same_bytes}
use p2000t_teletekst_cartrid.P2wp.Frame.{IsByte}
use p2000t_teletekst_cartrid.Prelude.{
  ℕ, suc, List, [], ◌∷◌, ◌++◌, none, some, length, All, if◌then◌else◌, Bool-cases, inl, inr, ◌≡◌,
  ◌⊎◌, refl, sym, arith,
}
use p2000t_teletekst_cartrid.Tests.Store.{
  slow_chip, slow_chip-IsFlashDevice, clip, length-clip, clip-bytes, chip, chip-IsFlashDevice,
}
use p2000t_teletekst_cartrid.WifiProfile.Accepted.{credentials_for}
use p2000t_teletekst_cartrid.WifiProfile.Kept.{IsCredentials, load-IsCredentials}
use p2000t_teletekst_cartrid.WifiProfile.Loaded.{load-store, store_total, store_whole}
use p2000t_teletekst_cartrid.WifiProfile.Saved.{IsPlatform, some_injective}
use p2000t_teletekst_cartrid.WifiProfile.{
  Platform, tag_size, low_bytes, plaintext_bytes, new_plaintext, record_header, ok, no_credentials,
  device_cipher, aad, random_bytes, commit, encrypt, lengths_are_bad, store, load,
}

abbrev tag_of : List ℕ → List ℕ → List ℕ → List ℕ → List ℕ
tag_of key nonce data_bytes text = clip tag_size (nonce ++ (data_bytes ++ (key ++ text)))

-- The text stays as it is; the tag is made of the rest.
abbrev bench : Platform (List ℕ) ℕ
bench = record {
  board_id = 1 ∷ 2 ∷ 3 ∷ 4 ∷ 5 ∷ 6 ∷ 7 ∷ 8 ∷ [];
  random = λ seed. (seed, suc seed);
  sha256 = λ parts. some (b'k' ∷ b'e' ∷ b'y' ∷ []);
  setkey = λ key. some key;
  crypt_and_tag = λ key nonce data_bytes text.
      if same_bytes (clip (length text) text) text
      then some (clip (length text) text, tag_of key nonce data_bytes text)
      else none;
  auth_decrypt = λ key nonce data_bytes tag text.
      if same_bytes tag (tag_of key nonce data_bytes text) then some text else none;
}

bench_crypt :
    (key nonce data_bytes text : List ℕ) (out : List ℕ × List ℕ)
    → bench.crypt_and_tag key nonce data_bytes text ≡ some out
    → (clip (length text) text ≡ text)
      × (out ≡ (clip (length text) text, tag_of key nonce data_bytes text))
bench_crypt key nonce data_bytes text out h =
    elim (Bool-cases (same_bytes (clip (length text) text) text)) [
      | inl same ↦ (
        same_bytes-eq (clip (length text) text) text same,
        (let h' = rw same at h in sym (some_injective h')),
      )
      | inr other ↦ (let h' = rw other at h in absurd cc)
    ]

bench_sizes :
    (key nonce data_bytes text : List ℕ) (out : List ℕ × List ℕ)
    → bench.crypt_and_tag key nonce data_bytes text ≡ some out
    → (length out.0 ≡ length text) × (length out.1 ≡ tag_size) × All IsByte out.0 × All IsByte out.1
bench_sizes key nonce data_bytes text out h =
    let (plain, e) = bench_crypt key nonce data_bytes text out h in
    rw e (
      length-clip (length text) text,
      length-clip tag_size (nonce ++ (data_bytes ++ (key ++ text))),
      clip-bytes (length text) text,
      clip-bytes tag_size (nonce ++ (data_bytes ++ (key ++ text))),
    )

bench_opens :
    (key nonce data_bytes text : List ℕ) (out : List ℕ × List ℕ)
    → bench.crypt_and_tag key nonce data_bytes text ≡ some out
    → bench.auth_decrypt key nonce data_bytes out.1 out.0 ≡ some text
bench_opens key nonce data_bytes text out h =
    let (plain, e) = bench_crypt key nonce data_bytes text out h in
    rw (e, plain) (rw (same_bytes_refl (tag_of key nonce data_bytes text)) refl)

bench-IsPlatform : IsPlatform bench
bench-IsPlatform = record {
  sizes = λ key nonce data_bytes text out h. bench_sizes key nonce data_bytes text out h;
  opens = λ key nonce data_bytes text out h. bench_opens key nonce data_bytes text out h;
}

abbrev ssid : List ℕ
ssid = b'h' ∷ b'o' ∷ b'm' ∷ b'e' ∷ []

abbrev password : List ℕ
password = b'b' ∷ b'e' ∷ b'e' ∷ b'l' ∷ b'd' ∷ b'b' ∷ b'u' ∷ b'i' ∷ b's' ∷ []

profile_stored : (store chip bench ssid password 4 [] 300).0 ≡ ok
unfolding store device_cipher aad random_bytes low_bytes commit encrypt lengths_are_bad
    plaintext_bytes clip same_bytes
profile_stored = refl

abbrev nonce : List ℕ
nonce = 44 ∷ 1 ∷ 0 ∷ 0 ∷ 0 ∷ 0 ∷ 0 ∷ 0 ∷ 45 ∷ 1 ∷ 0 ∷ 0 ∷ []

abbrev text : List ℕ
text = plaintext_bytes (new_plaintext ssid password 4)

store_total_example :
    ((store chip bench ssid password 4 [] 300).0 ≡ ok)
    × (load chip bench (store chip bench ssid password 4 [] 300).1
        ≡ (ok, credentials_for ssid password 4))
unfolding device_cipher aad random_bytes low_bytes lengths_are_bad plaintext_bytes clip same_bytes
store_total_example =
    store_total chip bench chip-IsFlashDevice bench-IsPlatform ssid password 4 [] 300
      (b'k' ∷ b'e' ∷ b'y' ∷ [])
      (text, tag_of (b'k' ∷ b'e' ∷ b'y' ∷ []) nonce (record_header nonce ++ bench.board_id) text)
      (omega arith) refl refl (λ update. refl) refl refl

load-store_example :
    load chip bench (store chip bench ssid password 4 [] 300).1
    ≡ (ok, credentials_for ssid password 4)
load-store_example =
    load-store chip bench chip-IsFlashDevice bench-IsPlatform ssid password 4 [] 300 (omega arith)
      profile_stored

load-IsCredentials_example :
    (((load chip bench (3 ∷ [])).0 ≡ ok) × IsCredentials (load chip bench (3 ∷ [])).1)
    ⊎ (¬ ((load chip bench (3 ∷ [])).0 ≡ ok) × ((load chip bench (3 ∷ [])).1 ≡ no_credentials))
load-IsCredentials_example = load-IsCredentials chip bench (3 ∷ [])

store_whole_example :
    ((store slow_chip bench ssid password 4 (9 ∷ []) 300).1 ≡ 9 ∷ [])
    ⊎ (load slow_chip bench (store slow_chip bench ssid password 4 (9 ∷ []) 300).1
        ≡ (ok, credentials_for ssid password 4))
store_whole_example =
    store_whole slow_chip bench slow_chip-IsFlashDevice bench-IsPlatform ssid password 4 (9 ∷ [])
      300 (omega arith)
