-- ===== src/Tests/Store.antt =====
-- firmware/src/custom_url_store.c on a concrete flash.
use p2000t_teletekst_cartrid.CustomEndpoint.{Endpoint, parse}
use p2000t_teletekst_cartrid.CustomUrlStore.Saved.{
  is_saved, save-load, settings_save-load, save_kept, save_total, settings_save_total,
}
use p2000t_teletekst_cartrid.CustomUrlStore.Sealed.{IsUrl}
use p2000t_teletekst_cartrid.CustomUrlStore.{
  is_ok, failed, ok, load, save, settings_load, settings_save,
}
use p2000t_teletekst_cartrid.CustomUrlStore.{same_bytes, from_bytes}
use p2000t_teletekst_cartrid.Flash.{FlashDevice, IsFlashDevice, page_size}
use p2000t_teletekst_cartrid.P2wp.Frame.{IsByte, u8}
use p2000t_teletekst_cartrid.Tests.Link.{all-All}
use p2000t_teletekst_cartrid.Prelude.{
  ℕ, zero, suc, true, false, List, [], ◌∷◌, inl, inr, ◌⊎◌, ◌≡◌, refl, ap, ap₂, ◌∙◌, arith, length,
  take, take_all, All,
}

-- The first `n` bytes of a memory that is erased behind the list.
unfoldable pub clip : ℕ → List ℕ → List ℕ
clip zero xs = []
clip (suc n) [] = 0xff ∷ clip n []
clip (suc n) (x ∷ xs) = u8 x ∷ clip n xs

pub length-clip : (n : ℕ) (xs : List ℕ) → length (clip n xs) ≡ n
unfolding clip
length-clip zero xs = refl
length-clip (suc n) [] = ap suc (length-clip n [])
length-clip (suc n) (x ∷ xs) = ap suc (length-clip n xs)

pub clip-bytes : (n : ℕ) (xs : List ℕ) → All IsByte (clip n xs)
unfolding clip
clip-bytes zero xs = tt
clip-bytes (suc n) [] = (omega arith, clip-bytes n [])
clip-bytes (suc n) (x ∷ xs) = (omega arith, clip-bytes n xs)

clip_lem : (n : ℕ) (xs : List ℕ) → length xs ≡ n → All IsByte xs → clip n xs ≡ xs
unfolding clip
clip_lem zero [] e p = refl
clip_lem zero (x ∷ xs) e p = absurd (omega arith)
clip_lem (suc n) [] e p = absurd (omega arith)
clip_lem (suc n) (x ∷ xs) e p =
    ap₂ ◌∷◌ (let byte = p.0 in omega arith) (clip_lem n xs (omega arith) p.1)

-- A flash that keeps the last page.
abbrev pub chip : FlashDevice (List ℕ)
chip = record {
  region_available = true;
  mapped = clip page_size;
  range_erase = λ flash. [];
  range_program = λ flash page. page;
  safe_execute = λ flash update. (true, update flash);
}

pub chip-IsFlashDevice : IsFlashDevice chip
chip-IsFlashDevice = record {
  sized = λ flash. omega (arith, length-clip page_size flash);
  bytes = λ flash. clip-bytes page_size flash;
  programmed = λ flash page size bytes.
      ap (take page_size) (clip_lem page_size page size bytes)
      ∙ take_all page_size page (omega arith);
  executed = λ flash update. inl refl;
}

-- "http://p2.nl"
abbrev home : List ℕ
home = b'h' ∷ b't' ∷ b't' ∷ b'p' ∷ b':' ∷ b'/' ∷ b'/' ∷ b'p' ∷ b'2' ∷ b'.' ∷ b'n' ∷ b'l' ∷ []

abbrev home_endpoint : Endpoint
home_endpoint = record {
  tls = false;
  host = b'p' ∷ b'2' ∷ b'.' ∷ b'n' ∷ b'l' ∷ [];
  port = 80;
  base_path = [];
}

home-IsUrl : IsUrl home home_endpoint
unfolding parse
home-IsUrl = (omega arith, omega arith, refl, all-All home refl)

save_total_example :
    (is_saved (save chip home []).0 ≡ true) × (load chip (save chip home []).1 ≡ (ok, home))
save_total_example = save_total chip chip-IsFlashDevice [] home home-IsUrl refl (λ update. refl)

home_saved : is_saved (save chip home []).0 ≡ true
home_saved = (save_total chip chip-IsFlashDevice [] home home-IsUrl refl (λ update. refl)).0

save-load_example :
    (load chip (save chip home []).1 ≡ (ok, home))
    × (settings_load chip (save chip home []).1 ≡ (ok, (settings_load chip []).1))
save-load_example = save-load chip chip-IsFlashDevice [] home home-IsUrl home_saved

settings_saved : is_saved (settings_save chip 2 []).0 ≡ true
settings_saved =
    settings_save_total chip chip-IsFlashDevice [] 2 (inr (omega arith)) refl (λ update. refl)

settings_save-load_example :
    (settings_load chip (settings_save chip 2 []).1 ≡ (ok, 2))
    × ((load chip (settings_save chip 2 []).1).1 ≡ (load chip []).1)
settings_save-load_example =
    settings_save-load chip chip-IsFlashDevice [] 2 (inr (omega arith)) settings_saved

-- A flash that programs the page, and reports a timeout.
abbrev pub slow_chip : FlashDevice (List ℕ)
slow_chip = record chip { safe_execute = λ flash update. (false, update flash) }

pub slow_chip-IsFlashDevice : IsFlashDevice slow_chip
slow_chip-IsFlashDevice = record {
  sized = chip-IsFlashDevice.sized;
  bytes = chip-IsFlashDevice.bytes;
  programmed = chip-IsFlashDevice.programmed;
  executed = λ flash update. inr (inl refl);
}

home_late : is_ok (save slow_chip home []).0 ≡ false
unfolding save parse same_bytes from_bytes clip
home_late = refl

save_kept_example :
    ((save slow_chip home []).1 ≡ [])
    ⊎ (((save slow_chip home []).0 ≡ failed)
        × (load slow_chip (save slow_chip home []).1 ≡ (ok, home))
        × (settings_load slow_chip (save slow_chip home []).1
            ≡ (ok, (settings_load slow_chip []).1)))
save_kept_example =
    save_kept slow_chip slow_chip-IsFlashDevice [] home (all-All home refl) home_late
