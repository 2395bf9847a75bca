-- ===== src/Flash.antt =====
-- The flash memory as firmware/src/custom_url_store.c uses it through the Pico SDK: `Flash` is its
-- contents, the operations are parameters of the model.
use p2000t_teletekst_cartrid.P2wp.Frame.{IsByte}
use p2000t_teletekst_cartrid.Prelude.{ℕ, ◌≤◌, ◌⊎◌, Bool, true, false, List, length, take, All, ◌≡◌}

-- `FLASH_PAGE_SIZE`
abbrev pub page_size : ℕ
page_size = 256

pub record FlashDevice (Flash : Type 0) : Type 0 where
  -- The sector lies behind the program, by the address that the linker gives.
  pub region_available : Bool
  -- The memory that is mapped from the start of the sector on.
  pub mapped : Flash → List ℕ
  -- `flash_range_erase` of the sector, and `flash_range_program` of its first page.
  pub range_erase : Flash → Flash
  pub range_program : Flash → List ℕ → Flash
  -- `flash_safe_execute`: whether it returns `PICO_OK`.
  pub safe_execute : Flash → (Flash → Flash) → Bool × Flash

-- What the SDK documents: a page that is programmed into an erased sector reads back, and a
-- function was executed where the result is `PICO_OK`. Otherwise it may have been executed, as on a
-- timeout, or not.
pub record IsFlashDevice {Flash : Type 0} (device : FlashDevice Flash) : Type 0 where
  pub sized : (flash : Flash) → page_size ≤ length (device.mapped flash)
  pub bytes : (flash : Flash) → All IsByte (device.mapped flash)
  pub programmed :
      (flash : Flash) (page : List ℕ)
      → length page ≡ page_size
      → All IsByte page
      → take page_size (device.mapped (device.range_program (device.range_erase flash) page)) ≡ page
  pub executed :
      (flash : Flash) (update : Flash → Flash)
      → (device.safe_execute flash update ≡ (true, update flash))
        ⊎ (device.safe_execute flash update ≡ (false, update flash))
        ⊎ (device.safe_execute flash update ≡ (false, flash))
