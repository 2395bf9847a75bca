-- ===== src/P2wp/Encode.antt =====
-- firmware/src/p2wp.c: `append_escaped` and `p2wp_encode`. The output buffer is the list of the
-- bytes written so far, so `*length` is its length. `none` is the result 0 of a failed encoding.
pub mod Wire
use p2000t_teletekst_cartrid.Prelude.{
  ℕ, ◌+◌, ◌/◌, ◌^◌, ◌||◌, List, [], ◌∷◌, ◌++◌, Option, none, some, bit_xor, length, take, ltb, ◌==◌,
  if◌then◌else◌, ◌>>=◌,
}
use p2000t_teletekst_cartrid.P2wp.Crc.{crc16}
use p2000t_teletekst_cartrid.P2wp.Frame.{
  Frame, header, header_size, max_payload, delimiter, escape, escape_xor, u8,
}

pub append_escaped : ℕ → ℕ → List ℕ → Option (List ℕ)
append_escaped byte capacity output =
    if byte == delimiter || byte == escape
    then if ltb capacity (length output + 2)
      then none
      else some (output ++ (escape ∷ bit_xor byte escape_xor ∷ []))
    else if length output == capacity
    then none
    else some (output ++ (byte ∷ []))

-- The loop over the body.
pub append_all : List ℕ → ℕ → List ℕ → Option (List ℕ)
append_all [] capacity output = some output
append_all (byte ∷ bytes) capacity output = do
  output' ← append_escaped byte capacity output
  append_all bytes capacity output'

-- The closing delimiter.
pub close : ℕ → List ℕ → Option (List ℕ)
close capacity output =
    if length output == capacity then none else some (output ++ (delimiter ∷ []))

-- `body` up to `crc_offset`.
unfoldable pub frame_body : Frame → List ℕ
frame_body f = header f ++ take f.payload_length f.payload

unfoldable pub encode : Frame → ℕ → Option (List ℕ)
unfolding append_escaped append_all close crc16
encode f capacity =
    if ltb max_payload f.payload_length || ltb capacity 2
    then none
    else let body = frame_body f in
      let crc = crc16 body (header_size + f.payload_length) in
      do
        output ← append_all body capacity (delimiter ∷ [])
        output' ← append_escaped (u8 crc) capacity output
        output'' ← append_escaped (u8 (crc / 2 ^ 8)) capacity output'
        close capacity output''
