-- ===== src/CustomUrlStore/Saved.antt =====
-- firmware/src/custom_url_store.c: what a save leaves in the flash.
use p2000t_teletekst_cartrid.CustomEndpoint.{Endpoint, parse, url_max}
use p2000t_teletekst_cartrid.CustomUrlStore.Record.{
  IsRecord, same_bytes-eq, from_bytes-to_bytes, length-page_of, page_of-bytes, copy_at-bytes,
  from_bytes-page_of, from_bytes-IsRecord,
}
use p2000t_teletekst_cartrid.CustomUrlStore.Sealed.{
  IsStored, existing_source, existing_url, start-IsSealable, with_url-IsStored,
  with_source-IsStored, existing_url-new_record, existing_url-url_record, IsRead, ok-eq, IsUrl,
  check_record-IsChecked, IsSealable,
}
use p2000t_teletekst_cartrid.CustomUrlStore.{
  StoreResult, ok, not_found, corrupt, failed, invalid_data, unchanged, UrlRecord, disabled,
  max_source, same_bytes, to_bytes, from_bytes, zero_record, is_ok, new_record, page_of, with_url,
  with_source, read_record, load, flash_update, write_record, save, settings_load, settings_save,
}
use p2000t_teletekst_cartrid.Flash.{FlashDevice, IsFlashDevice}
use p2000t_teletekst_cartrid.P2wp.Frame.{IsByte}
use p2000t_teletekst_cartrid.Prelude.{
  ltb, ◌||◌, none, length, All, ℕ, ◌≤◌, Bool, true, false, ◌&&◌, ◌||◌, List, [], ◌++◌, ◌≡◌, ◌⊎◌,
  inl, inr, refl, sym, ap, ap₂, ◌∙◌, arith, take, ◌==◌, if◌then◌else◌, Bool-cases, Option-cases,
}

abbrev is_unchanged : StoreResult → Bool
is_unchanged unchanged = true
is_unchanged ok = false
is_unchanged not_found = false
is_unchanged corrupt = false
is_unchanged failed = false
is_unchanged invalid_data = false

-- A save leaves the record that it was to write.
abbrev pub is_saved : StoreResult → Bool
is_saved result = is_ok result || is_unchanged result

zero_record-IsRecord : IsRecord zero_record
zero_record-IsRecord = record {
  magic_size = refl;
  url_size = refl;
  checksum_fits = omega arith;
  magic_bytes = copy_at-bytes 8 0 [] (omega arith) tt;
  fields = (omega arith, omega arith, omega arith, omega arith);
  url_bytes = copy_at-bytes url_max 0 [] (omega arith) tt;
}

-- What a load makes of a record that was read.
abbrev loaded : UrlRecord → StoreResult × List ℕ
loaded r = if r.url_length == 0 then (not_found, []) else (ok, existing_url r)

url_or_empty : (r : UrlRecord) → (loaded r).1 ≡ existing_url r
url_or_empty r = elim (Bool-cases (r.url_length == 0)) [
  | inl absent ↦
      let empty : r.url_length ≡ 0 = ground arith in rw absent (sym (ap (λ n. take n r.url) empty))
  | inr present ↦ rw present refl
]

loaded_url :
    (url : List ℕ) {endpoint : Endpoint}
    → IsUrl url endpoint
    → (r : UrlRecord) → IsSealable r
    → loaded (with_url url r) ≡ (ok, url)
unfolding with_url
loaded_url url u r v = rw (existing_url-url_record url u r v) (ground arith)

existing_source-with_url :
    (url : List ℕ) (r : UrlRecord) → existing_source (with_url url r) ≡ existing_source r
unfolding with_url
existing_source-with_url url r = refl

existing_source-with_source :
    (source : ℕ) (r : UrlRecord) → IsSealable r → existing_source (with_source source r) ≡ source
unfolding with_source
existing_source-with_source source r v = let version = v.current in ground arith

existing_url-with_source :
    (source : ℕ) (r : UrlRecord) → existing_url (with_source source r) ≡ existing_url r
unfolding with_source
existing_url-with_source source r = refl

module _ {Flash : Type 0} (device : FlashDevice Flash) (laws : IsFlashDevice device)
    (flash : Flash) where
  read_record-IsRead : IsRead (read_record device flash).1 (read_record device flash).0
  unfolding read_record
  read_record-IsRead = elim (Bool-cases device.region_available) [
    | inl available ↦ rw available (
      from_bytes-IsRecord (device.mapped flash) (laws.sized flash) (laws.bytes flash),
      λ h. ok-eq _ h,
    )
    | inr missing ↦ rw missing (zero_record-IsRecord, λ h. absurd (cc))
  ]

  -- The ways that a write can end: nothing to do, done, failed, or done but reported as failed.
  data Written (r existing : UrlRecord) (result : StoreResult) (out : StoreResult × Flash)
      : Type 0 where
    same :
        out ≡ (unchanged, flash)
        → is_ok result ≡ true
        → to_bytes existing ≡ to_bytes r
        → Written r existing result out
    done :
        out ≡ (ok, flash_update device true (page_of r) flash)
        → device.region_available ≡ true
        → Written r existing result out
    fails : out ≡ (failed, flash) → Written r existing result out
    late :
        out ≡ (failed, flash_update device true (page_of r) flash)
        → device.region_available ≡ true
        → Written r existing result out

  write_record-Written :
      (r existing : UrlRecord) (result : StoreResult)
      → Written r existing result (write_record device r existing result flash)
  unfolding write_record
  write_record-Written r existing result =
      elim (Bool-cases (is_ok result && same_bytes (to_bytes existing) (to_bytes r))) [
        | inl same_record ↦
            same (rw same_record refl) (ground arith)
              (same_bytes-eq (to_bytes existing) (to_bytes r) (ground arith))
        | inr new ↦ elim (Bool-cases device.region_available) [
          | inr missing ↦ fails (rw (new, missing) refl)
          | inl available ↦ elim (laws.executed flash (flash_update device true (page_of r))) [
            | inl executed ↦ done (rw (new, available, executed) refl) available
            | inr (inl timed_out) ↦ late (rw (new, available, timed_out) refl) available
            | inr (inr refused) ↦ fails (rw (new, available, refused) refl)
          ]
        ]
      ]

  -- What is read where a record was programmed.
  read_record-programmed :
      (r : UrlRecord)
      → IsStored r
      → device.region_available ≡ true
      → read_record device (flash_update device true (page_of r) flash) ≡ (ok, r)
  unfolding read_record flash_update
  read_record-programmed r v available =
      let page =
        laws.programmed flash (page_of r) (length-page_of r v.laid_out)
          (page_of-bytes r v.laid_out) in
      let reads =
        from_bytes-page_of r
          (device.mapped (device.range_program (device.range_erase flash) (page_of r))) v.laid_out
          page in
      rw (available, reads, v.checked) refl

  read_record-same :
      (r : UrlRecord)
      → IsStored r
      → is_ok (read_record device flash).0 ≡ true
      → to_bytes (read_record device flash).1 ≡ to_bytes r
      → read_record device flash ≡ (ok, r)
  read_record-same r v good e =
      let existing = (read_record device flash).1 in
      let equal : existing ≡ r =
        sym (from_bytes-to_bytes existing [] (read_record-IsRead).0)
        ∙ ap (λ b. from_bytes (b ++ [])) e
        ∙ from_bytes-to_bytes r [] v.laid_out in
      ap₂ (λ x y. (x, y)) (ok-eq (read_record device flash).0 good) equal

  -- A save that succeeds leaves the record that it was to write.
  saved :
      (r : UrlRecord)
      → IsStored r
      → (let (result, existing) = read_record device flash in
          let out = write_record device r existing result flash in
          is_saved out.0 ≡ true → read_record device out.1 ≡ (ok, r))
  saved r v h =
      let (result, existing) = read_record device flash in
      let out = write_record device r existing result flash in
      elim (write_record-Written r existing result) [
        | same e good bytes ↦ ap (λ o. read_record device o.1) e ∙ read_record-same r v good bytes
        | done e available ↦
            ap (λ o. read_record device o.1) e ∙ read_record-programmed r v available
        | fails e ↦ absurd (ground arith)
        | late e available ↦ absurd (ground arith)
      ]

  -- What the loads make of a record.
  load_lem : (r : UrlRecord) (f : Flash) → read_record device f ≡ (ok, r) → load device f ≡ loaded r
  unfolding load
  load_lem r f e = rw e refl

  settings_load_lem :
      (r : UrlRecord) (f : Flash)
      → read_record device f ≡ (ok, r)
      → settings_load device f ≡ (ok, existing_source r)
  unfolding settings_load
  settings_load_lem r f e = rw e refl

  -- A new record takes over what the loads find.
  settings_load-new_record :
      (settings_load device flash).1
      ≡ existing_source (new_record (read_record device flash).1 (read_record device flash).0)
  unfolding settings_load new_record
  settings_load-new_record = ground arith

  abbrev start : UrlRecord
  start = new_record (read_record device flash).1 (read_record device flash).0

  started : IsSealable start
  started =
      start-IsSealable (read_record device flash).1 (read_record device flash).0 read_record-IsRead

  load_failed :
      is_ok (read_record device flash).0 ≡ false
      → ((load device flash).1 ≡ []) × (existing_url start ≡ [])
  unfolding load new_record
  load_failed bad = (rw bad refl, rw bad refl)

  load_found :
      is_ok (read_record device flash).0 ≡ true → (load device flash).1 ≡ existing_url start
  load_found good =
      let (result, existing) = read_record device flash in
      let checked = read_record-IsRead in
      let found : read_record device flash ≡ (ok, existing) =
        ap₂ (λ x y. (x, y)) (ok-eq result good) refl in
      let taken : existing_url start ≡ existing_url existing =
        ap (λ x. existing_url (new_record existing x)) (ok-eq result good)
        ∙ existing_url-new_record existing checked.0
            (check_record-IsChecked existing (checked.1 good)) in
      ap (λ l. l.1) (load_lem existing flash found) ∙ url_or_empty existing ∙ sym taken

  load-new_record : (load device flash).1 ≡ existing_url start
  load-new_record = elim (Bool-cases (is_ok (read_record device flash).0)) [
    | inl good ↦ load_found good
    | inr bad ↦ (load_failed bad).0 ∙ sym (load_failed bad).1
  ]

  save_lem :
      (url : List ℕ) {endpoint : Endpoint}
      → IsUrl url endpoint
      → save device url flash
        ≡ write_record device
            (with_url url start)
            (read_record device flash).1
            (read_record device flash).0
            flash
  unfolding save
  save_lem url u = rw u.2 (ground arith)

  settings_save_lem :
      (source : ℕ)
      → (source ≡ disabled) ⊎ (source ≤ max_source)
      → settings_save device source flash
        ≡ write_record device
            (with_source source start)
            (read_record device flash).1
            (read_record device flash).0
            flash
  unfolding settings_save
  settings_save_lem source s = ground arith

  -- What is loaded where the record of a URL is read.
  url_loaded :
      (url : List ℕ) {endpoint : Endpoint}
      → IsUrl url endpoint
      → (f : Flash) → read_record device f ≡ (ok, with_url url start)
      → (load device f ≡ (ok, url))
        × (settings_load device f ≡ (ok, (settings_load device flash).1))
  url_loaded url u f reads =
      let r = with_url url start in
      (
        load_lem r f reads ∙ loaded_url url u start started,
        settings_load_lem r f reads
            ∙ ap (λ s. (ok, s)) (existing_source-with_url url start ∙ sym settings_load-new_record),
      )

  -- On a flash device that does what the SDK documents: where the save of a URL of 1 to 96 bytes
  -- that is accepted ends with `ok` or `unchanged`, that URL is loaded again, and the source that
  -- starts by itself is loaded as before.
  pub save-load :
      (url : List ℕ) {endpoint : Endpoint}
      → IsUrl url endpoint
      → is_saved (save device url flash).0 ≡ true
      → (load device (save device url flash).1 ≡ (ok, url))
        × (settings_load device (save device url flash).1 ≡ (ok, (settings_load device flash).1))
  save-load url u h =
      let written = save_lem url u in
      let r = with_url url start in
      url_loaded url u (save device url flash).1 (
        ap (λ o. read_record device o.1) written
        ∙ saved r (with_url-IsStored url u start started)
            (ap (λ o. is_saved o.0) (sym written) ∙ h))

  -- On a flash device that does what the SDK documents: where the save of a source, disabled or
  -- from 0 to 3, ends with `ok` or `unchanged`, that source is loaded again, and the URL, or the
  -- empty one for none, is loaded as before.
  pub settings_save-load :
      (source : ℕ)
      → (source ≡ disabled) ⊎ (source ≤ max_source)
      → is_saved (settings_save device source flash).0 ≡ true
      → (settings_load device (settings_save device source flash).1 ≡ (ok, source))
        × ((load device (settings_save device source flash).1).1 ≡ (load device flash).1)
  settings_save-load source s h =
      let written = settings_save_lem source s in
      let r = with_source source start in
      let reads : read_record device (settings_save device source flash).1 ≡ (ok, r) =
        ap (λ o. read_record device o.1) written
        ∙ saved r (with_source-IsStored source s start started)
            (ap (λ o. is_saved o.0) (sym written) ∙ h) in
      (
        settings_load_lem r (settings_save device source flash).1 reads
            ∙ ap (λ s. (ok, s)) (existing_source-with_source source start started),
        ap (λ l. l.1) (load_lem r (settings_save device source flash).1 reads)
            ∙ url_or_empty r
            ∙ existing_url-with_source source start
            ∙ sym load-new_record,
      )

  save_refused :
      (url : List ℕ)
      → ((length url == 0 || ltb url_max (length url)) ≡ true) ⊎ (parse url ≡ none)
      → (save device url flash).1 ≡ flash
  unfolding save
  save_refused url (inl bad) = rw bad refl
  save_refused url (inr bad) = rw bad (ground arith)

  -- What a write that does not end with `ok` leaves.
  unwritten :
      (r existing : UrlRecord) (result : StoreResult)
      → IsStored r
      → (let out = write_record device r existing result flash in
          is_ok out.0 ≡ false
          → (out.1 ≡ flash) ⊎ ((out.0 ≡ failed) × (read_record device out.1 ≡ (ok, r))))
  unwritten r existing result v h = elim (write_record-Written r existing result) [
    | same e good bytes ↦ inl (ap (λ o. o.1) e)
    | done e available ↦ absurd (ground arith)
    | fails e ↦ inl (ap (λ o. o.1) e)
    | late e available ↦
        inr (
          ap (λ o. o.0) e,
          ap (λ o. read_record device o.1) e ∙ read_record-programmed r v available,
        )
  ]

  url_unwritten :
      (url : List ℕ) {endpoint : Endpoint}
      → IsUrl url endpoint
      → is_ok (save device url flash).0 ≡ false
      → ((save device url flash).1 ≡ flash)
        ⊎ (((save device url flash).0 ≡ failed)
            × (load device (save device url flash).1 ≡ (ok, url))
            × (settings_load device (save device url flash).1
                ≡ (ok, (settings_load device flash).1)))
  url_unwritten url u h =
      let written = save_lem url u in
      let (result, existing) = read_record device flash in
      let left =
        unwritten (with_url url start) existing result (with_url-IsStored url u start started)
          (ap (λ o. is_ok o.0) (sym written) ∙ h) in
      elim left [
        | inl kept ↦ inl (ap (λ o. o.1) written ∙ kept)
        | inr (bad, reads) ↦
            let loads =
              url_loaded url u (save device url flash).1
                (ap (λ o. read_record device o.1) written ∙ reads) in
            inr (ap (λ o. o.0) written ∙ bad, loads.0, loads.1)
      ]

  -- On a flash device that does what the SDK documents, where an update that fails may have been
  -- executed: a save of any bytes with another result than `ok` leaves the flash as it was, or else
  -- its result is `failed`, and the URL is loaded although, with the setting as it was before.
  pub save_kept :
      (url : List ℕ)
      → All IsByte url
      → is_ok (save device url flash).0 ≡ false
      → ((save device url flash).1 ≡ flash)
        ⊎ (((save device url flash).0 ≡ failed)
            × (load device (save device url flash).1 ≡ (ok, url))
            × (settings_load device (save device url flash).1
                ≡ (ok, (settings_load device flash).1)))
  save_kept url bytes h = elim (Bool-cases (length url == 0 || ltb url_max (length url))) [
    | inl bad ↦ inl (save_refused url (inl bad))
    | inr good ↦ elim (Option-cases (parse url)) [
      | inl bad ↦ inl (save_refused url (inr bad))
      | inr found ↦ url_unwritten url (ground arith, ground arith, found.1, bytes) h
    ]
  ]

  write_record_total :
      (r existing : UrlRecord) (result : StoreResult)
      → device.region_available ≡ true
      → ((update : Flash → Flash) → (device.safe_execute flash update).0 ≡ true)
      → is_saved (write_record device r existing result flash).0 ≡ true
  unfolding write_record
  write_record_total r existing result available executes =
      ground (arith, executes (flash_update device true (page_of r)))

  -- On a flash device that does what the SDK documents: where the sector is available and the device
  -- executes each update, the save of a URL of 1 to 96 bytes that is accepted ends with `ok` or
  -- `unchanged`, and the URL is loaded again, whatever the flash held before.
  pub save_total :
      (url : List ℕ) {endpoint : Endpoint}
      → IsUrl url endpoint
      → device.region_available ≡ true
      → ((update : Flash → Flash) → (device.safe_execute flash update).0 ≡ true)
      → (is_saved (save device url flash).0 ≡ true)
        × (load device (save device url flash).1 ≡ (ok, url))
  save_total url u available executes =
      let done : is_saved (save device url flash).0 ≡ true =
        ap (λ o. is_saved o.0) (save_lem url u)
        ∙ write_record_total (with_url url start) (read_record device flash).1
            (read_record device flash).0 available executes in
      (done, (save-load url u done).0)

  -- On a flash device that does what the SDK documents: where the sector is available and the device
  -- executes each update, the save of a source, disabled or from 0 to 3, ends with `ok` or
  -- `unchanged`, whatever the flash held before.
  pub settings_save_total :
      (source : ℕ)
      → (source ≡ disabled) ⊎ (source ≤ max_source)
      → device.region_available ≡ true
      → ((update : Flash → Flash) → (device.safe_execute flash update).0 ≡ true)
      → is_saved (settings_save device source flash).0 ≡ true
  settings_save_total source s available executes =
      ap (λ o. is_saved o.0) (settings_save_lem source s)
      ∙ write_record_total (with_source source start) (read_record device flash).1
          (read_record device flash).0 available executes
