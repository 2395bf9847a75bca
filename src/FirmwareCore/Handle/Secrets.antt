-- ===== src/FirmwareCore/Handle/Secrets.antt =====
-- firmware/src/firmware_core.c: the passwords of a request are erased.
use p2000t_teletekst_cartrid.FirmwareCore.Handle.Retry.{handle_lem}
use p2000t_teletekst_cartrid.FirmwareCore.Handle.{
  wipe, secret, wiped_request, clear_sensitive_request, handle,
}
use p2000t_teletekst_cartrid.FirmwareCore.State.{Core}
use p2000t_teletekst_cartrid.P2wp.Frame.{Frame}
use p2000t_teletekst_cartrid.P2wp.Parser.{byte_at}
use p2000t_teletekst_cartrid.P2wp.Protocol.{type_wifi_connect, type_wifi_profile_save}
use p2000t_teletekst_cartrid.Prelude.{
  ℕ, zero, suc, ◌+◌, Bool, ◌&&◌, ◌||◌, List, [], ◌∷◌, ◌-◌, ◌≡◌, refl, ap, ◌∙◌, arith, set, ltb, leb,
  ◌==◌, if◌then◌else◌,
}

-- Byte `j` of the request's payload belongs to its password: it is one of the stated number of
-- bytes behind the length byte, and the payload holds it.
abbrev pub in_password : Frame → ℕ → Bool
in_password request j =
    (request.type == type_wifi_connect
      && leb 2 request.payload_length
      && leb 2 j
      && ltb j request.payload_length
      && ltb j (2 + byte_at request.payload 1))
    || (request.type == type_wifi_profile_save
        && leb 1 request.payload_length
        && leb 1 j
        && ltb j request.payload_length
        && ltb j (1 + byte_at request.payload 0))

set_zero :
    (bytes : List ℕ) (i j : ℕ) → byte_at (set bytes i 0) j ≡ (if i == j then 0 else byte_at bytes j)
set_zero [] i j = ground arith
set_zero (x ∷ bytes) zero zero = ground arith
set_zero (x ∷ bytes) zero (suc j) = ground arith
set_zero (x ∷ bytes) (suc i) zero = ground arith
set_zero (x ∷ bytes) (suc i) (suc j) = ground (arith, set_zero bytes i j)

wipe_lem :
    (left at : ℕ) (bytes : List ℕ) (j : ℕ)
    → byte_at (wipe left at bytes) j
      ≡ (if leb at j && ltb j (at + left) then 0 else byte_at bytes j)
unfolding wipe
wipe_lem zero at bytes j = ground arith
wipe_lem (suc left) at bytes j =
    ground (arith, wipe_lem left (at + 1) (set bytes at 0) j, set_zero bytes at j)

-- The wiped bytes, with the length cut to what the payload holds.
window :
    (offset stated size j : ℕ)
    → (let available = if ltb offset size then size - offset else 0 in
        (leb offset j && ltb j (offset + (if ltb available stated then available else stated)))
        ≡ (leb offset j && ltb j size && ltb j (offset + stated)))
window offset stated size j = ground arith

secret_window :
    (request : Frame) (j : ℕ)
    → (leb (secret request).0 j
        && ltb j request.payload_length
        && ltb j ((secret request).0 + (secret request).1))
      ≡ in_password request j
unfolding secret
secret_window request j = ground arith

wiped_request_lem :
    (request : Frame) (j : ℕ)
    → byte_at (wiped_request request).payload j
      ≡ (if in_password request j then 0 else byte_at request.payload j)
unfolding wiped_request
wiped_request_lem request j =
    wipe_lem _ (secret request).0 request.payload j
    ∙ ap (λ b. if b then 0 else byte_at request.payload j)
        (window (secret request).0 (secret request).1 request.payload_length j
          ∙ secret_window request j)

clear_sensitive_request_lem :
    {Context : Type 0} (core : Core Context) (request : Frame)
    → (clear_sensitive_request core request).1 ≡ wiped_request request
unfolding clear_sensitive_request
clear_sensitive_request_lem core request = refl

-- When a call returns, whatever its response, each byte of a password in the request is zero, and
-- every other byte of the payload is as it was.
pub handle-password :
    {Context : Type 0} (core : Core Context) (request : Frame) (j : ℕ)
    → byte_at (handle core request).1.payload j
      ≡ (if in_password request j then 0 else byte_at request.payload j)
handle-password core request j =
    ap (λ t. byte_at t.1.payload j) (handle_lem core request)
    ∙ ap (λ t. byte_at t.payload j) (clear_sensitive_request_lem core request)
    ∙ wiped_request_lem request j
