-- ===== src/Host/Framing.antt =====
-- src/p2wp.c: one frame to the link, and one from it.
use p2000t_teletekst_cartrid.Host.Link.{Link, send_byte, receive_byte, and_then}
use p2000t_teletekst_cartrid.P2wp.Crc.{crc16}
use p2000t_teletekst_cartrid.P2wp.Frame.{header_size, crc_size, delimiter, escape, escape_xor, u8}
use p2000t_teletekst_cartrid.P2wp.Parser.{le16}
use p2000t_teletekst_cartrid.Prelude.{
  ℕ, zero, suc, ◌+◌, ◌-◌, ◌/◌, ◌^◌, Bool, true, false, not, ◌&&◌, ◌||◌, List, [], ◌∷◌, Option, none,
  some, bit_xor, set, ltb, ◌==◌, if◌then◌else◌, ◌>>=◌,
}

-- `P2WP_HOST_LIMIT`, `P2WP_MAX_BODY_SIZE`
abbrev pub host_limit : ℕ
host_limit = 240

abbrev pub host_max_body : ℕ
host_max_body = header_size + host_limit + crc_size

-- The local variables of `receive_frame` and the response workspace.
pub record Receiver : Type 0 where
  pub count : ℕ
  pub active : Bool
  pub escaped : Bool
  pub response : List ℕ

-- What a byte does to the loop: on to the next byte, a return of 0, a return of 1.
pub data Received : Type 0 where
  again failed complete : Receiver → Received

-- The checks of a closing delimiter.
unfoldable pub response_is_valid : ℕ → List ℕ → Bool
response_is_valid count response =
    not (ltb count (header_size + crc_size))
    && not (ltb host_limit (le16 response 4))
    && le16 response 4 + header_size + crc_size == count
    && crc16 response (count - 2) == le16 response (count - 2)

unfoldable pub take_delimiter : Receiver → Received
take_delimiter r =
    if not r.active
    then again (record r { active = true })
    else if r.count == 0
    then again r
    else if r.escaped || not (response_is_valid r.count r.response)
    then failed r
    else complete r

unfoldable pub store_value : Receiver → ℕ → Received
store_value r value =
    if r.count == host_max_body
    then failed r
    else again (record r { response = set r.response r.count value; count = r.count + 1 })

unfoldable pub take_value : Receiver → ℕ → Received
unfolding take_delimiter store_value response_is_valid crc16
take_value r value =
    if value == delimiter
    then take_delimiter r
    else if not r.active
    then again r
    else if r.escaped
    then store_value (record r { escaped = false }) (bit_xor value escape_xor)
    else if value == escape
    then again (record r { escaped = true })
    else store_value r value

abbrev pub start_receiver : List ℕ → Receiver
start_receiver response = record { count = 0; active = false; escaped = false; response = response }

module _ {World : Type 0} (link : Link World) (polls deadline : ℕ) where
  unfoldable pub send_escaped : ℕ → World → Option (Bool × World)
  unfolding send_byte
  send_escaped value w =
      if value == delimiter || value == escape
      then and_then link (send_byte link polls escape deadline w)
          (send_byte link polls (bit_xor value escape_xor) deadline)
      else send_byte link polls value deadline w

  -- The loop over the body.
  unfoldable pub send_body : List ℕ → World → Option (Bool × World)
  unfolding send_escaped
  send_body [] w = some (true, w)
  send_body (value ∷ values) w = and_then link (send_escaped value w) (send_body values)

  unfoldable pub send_frame : List ℕ → ℕ → World → Option (Bool × World)
  unfolding send_body crc16
  send_frame body count w =
      let crc = crc16 body count in
      and_then link (send_byte link polls delimiter deadline w) λ w.
        and_then link (send_body body w) λ w. and_then link (send_escaped (u8 crc) w) λ w.
          and_then link (send_escaped (u8 (crc / 2 ^ 8)) w)
            (send_byte link polls delimiter deadline)

  -- `while (receive_byte(&value, deadline))`, with fuel for the bytes: whether a valid frame came.
  unfoldable pub receive_frame : ℕ → Receiver → World → Option (Bool × Receiver × World)
  unfolding receive_byte take_value
  receive_frame zero r w = none
  receive_frame (suc fuel) r w = receive_byte link polls deadline w >>= λ got. elim got.0 [
    | none ↦ some (false, r, got.1)
    | some value ↦ elim (take_value r value) [
      | again r' ↦ receive_frame fuel r' got.1
      | failed r' ↦ some (false, r', got.1)
      | complete r' ↦ some (true, r', got.1)
    ]
  ]
