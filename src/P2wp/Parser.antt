-- ===== src/P2wp/Parser.antt =====
-- firmware/src/p2wp.c: the streaming parser. A call returns the parser, the result and the frame
-- that the caller handed over, which is written only when a frame is reported.
pub mod Decode
pub mod Detect
pub mod Bounds
pub mod Stream
use p2000t_teletekst_cartrid.Prelude.{
  ℕ, ◌+◌, ◌*◌, ◌^◌, ◌||◌, Bool, true, false, not, ◌&&◌, List, bit_or, bit_xor, get_or, set, take,
  drop, replicate, ltb, ◌==◌, if◌then◌else◌, copy_at,
}
use p2000t_teletekst_cartrid.P2wp.Crc.{crc16}
use p2000t_teletekst_cartrid.P2wp.Frame.{
  Frame, header_size, crc_size, max_payload, max_body, delimiter, escape, escape_xor,
}

pub data ParseResult : Type 0 where
  none frame error : ParseResult

pub record Parser : Type 0 where
  pub active : Bool
  pub escaped : Bool
  pub overflow : Bool
  pub count : ℕ
  pub body : List ℕ

unfoldable pub parser_init : Parser
parser_init = record {
  active = false;
  escaped = false;
  overflow = false;
  count = 0;
  body = replicate max_body 0;
}

-- `body[index]`
abbrev pub byte_at : List ℕ → ℕ → ℕ
byte_at body index = get_or body index 0

-- A little-endian number of two bytes.
abbrev pub le16 : List ℕ → ℕ → ℕ
le16 body index = bit_or (byte_at body index) (byte_at body (index + 1) * 2 ^ 8)

unfoldable pub decode_body : List ℕ → ℕ → Frame → ParseResult × Frame
decode_body body body_length out =
    let payload_length = le16 body 4 in
    let crc_offset = header_size + payload_length in
    let received_crc = le16 body crc_offset in
    if ltb body_length (header_size + crc_size)
    then (error, out)
    else if ltb max_payload payload_length
        || not (body_length == header_size + payload_length + crc_size)
    then (error, out)
    else if not (crc16 body crc_offset == received_crc)
    then (error, out)
    else (
      frame,
      record {
        version = byte_at body 0;
        flags = byte_at body 1;
        type = byte_at body 2;
        sequence = byte_at body 3;
        payload_length = payload_length;
        payload = copy_at out.payload 0 (take payload_length (drop header_size body));
      },
    )

-- What a delimiter reports.
pub parser_close : Parser → Frame → ParseResult × Frame
parser_close p out =
    if p.active && (not (p.count == 0) || p.overflow)
    then if p.escaped || p.overflow then (error, out) else decode_body p.body p.count out
    else (none, out)

-- The parser behind a delimiter.
abbrev pub reopened : Parser → Parser
reopened p = record p { active = true; escaped = false; overflow = false; count = 0 }

-- A byte that is unescaped by now.
pub parser_store : Parser → ℕ → Parser
parser_store p byte =
    if p.count == max_body
    then record p { overflow = true }
    else record p { body = set p.body p.count byte; count = p.count + 1 }

-- What a byte other than the delimiter makes of the parser.
pub parser_take : Parser → ℕ → Parser
parser_take p byte =
    if not p.active || p.overflow
    then p
    else if p.escaped
    then parser_store (record p { escaped = false }) (bit_xor byte escape_xor)
    else if byte == escape
    then record p { escaped = true }
    else parser_store p byte

unfoldable pub parser_feed : Parser → ℕ → Frame → Parser × ParseResult × Frame
unfolding parser_close parser_take parser_store decode_body crc16
parser_feed p byte out =
    if byte == delimiter
    then (let (result, out') = parser_close p out in (reopened p, result, out'))
    else (parser_take p byte, none, out)
