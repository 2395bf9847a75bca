-- ===== src/Tests/Link.antt =====
-- firmware/src/p2wp.c on concrete frames.
use p2000t_teletekst_cartrid.CustomEndpoint.{all}
use p2000t_teletekst_cartrid.P2wp.Crc.{crc16}
use p2000t_teletekst_cartrid.P2wp.Encode.Wire.{
  stuffed, sealed_body, escaped_byte, encode-wire, wire,
}
use p2000t_teletekst_cartrid.P2wp.Encode.{encode, frame_body}
use p2000t_teletekst_cartrid.P2wp.Frame.{Frame, IsFrame, IsByte, message, max_payload}
use p2000t_teletekst_cartrid.P2wp.Parser.Bounds.{
  IsParser, parser_feed-IsParser, parser_init-IsParser,
}
use p2000t_teletekst_cartrid.P2wp.Parser.Detect.{decode_body_detects}
use p2000t_teletekst_cartrid.P2wp.Parser.Stream.{
  Report, delivered, receive, IsIdle, parser_init-IsIdle,
}
use p2000t_teletekst_cartrid.P2wp.Parser.{frame, error, parser_init, parser_feed, decode_body}
use p2000t_teletekst_cartrid.P2wp.RoundTrip.{encode_all, receive-encode_all, receive-encode}
use p2000t_teletekst_cartrid.P2wp.Version.{select_version, select_version-greatest, IsShared}
use p2000t_teletekst_cartrid.Prelude.{
  ℕ, ◌≤◌, ltb, true, List, [], ◌∷◌, ◌++◌, ◌≡◌, refl, arith, All, length, set, copy_at, replicate,
  some, none,
}

-- "123456789"
crc16_check : crc16 (b'1' ∷ b'2' ∷ b'3' ∷ b'4' ∷ b'5' ∷ b'6' ∷ b'7' ∷ b'8' ∷ b'9' ∷ []) 9 ≡ 0x29b1
unfolding crc16
crc16_check = refl

pub all-All : (xs : List ℕ) → all (λ x. ltb x 256) xs ≡ true → All IsByte xs
all-All [] h = tt
all-All (x ∷ xs) h = (ground arith, all-All xs (ground arith))

-- An echo of a delimiter, an escape and a plain byte.
abbrev sample : Frame
sample = record {
  version = 7;
  flags = 0;
  type = 2;
  sequence = 9;
  payload_length = 3;
  payload = copy_at (replicate max_payload 0) 0 (0x7e ∷ 0x7d ∷ 1 ∷ []);
}

sample-IsFrame : IsFrame sample
sample-IsFrame = record {
  version_byte = omega arith;
  flags_byte = omega arith;
  type_byte = omega arith;
  sequence_byte = omega arith;
  length_fits = omega arith;
  array_size = refl;
  payload_bytes = all-All sample.payload refl;
}

-- The bytes of the sample on the wire.
abbrev sample_wire : List ℕ
sample_wire = 126 ∷ 7 ∷ 0 ∷ 2 ∷ 9 ∷ 3 ∷ 0 ∷ 125 ∷ 94 ∷ 125 ∷ 93 ∷ 1 ∷ 39 ∷ 194 ∷ 126 ∷ []

encode-sample : encode sample 20 ≡ some sample_wire
unfolding encode frame_body
encode-sample = refl

encode_all-sample : encode_all (sample ∷ sample ∷ []) 20 ≡ some (sample_wire ++ sample_wire)
unfolding encode_all encode frame_body
encode_all-sample = refl

receive-encode_all_example :
    (receive parser_init sample (sample_wire ++ sample_wire)).2
    ≡ delivered (message sample) ∷ delivered (message sample) ∷ []
receive-encode_all_example =
    receive-encode_all (sample ∷ sample ∷ []) 20 (sample_wire ++ sample_wire) parser_init sample
      (sample-IsFrame, (sample-IsFrame, tt)) encode_all-sample parser_init-IsIdle

-- A parser that a stray delimiter and two bytes have reached.
receive-encode_example :
    (pending : List Report) × (length pending ≤ 1)
    × ((receive (parser_feed parser_init 126 sample).0 sample sample_wire).2
        ≡ pending ++ (delivered (message sample) ∷ []))
    × IsIdle (receive (parser_feed parser_init 126 sample).0 sample sample_wire).0
receive-encode_example =
    receive-encode sample 20 sample_wire (parser_feed parser_init 126 sample).0 sample
      sample-IsFrame encode-sample
      (parser_feed-IsParser parser_init 126 sample parser_init-IsParser).array

encode-wire_example : encode sample 14 ≡ none
unfolding wire stuffed sealed_body frame_body escaped_byte crc16
encode-wire_example = encode-wire sample 14

-- The sample's body as the parser stores it.
abbrev sample_body : List ℕ
sample_body = 7 ∷ 0 ∷ 2 ∷ 9 ∷ 3 ∷ 0 ∷ 126 ∷ 125 ∷ 1 ∷ 39 ∷ 194 ∷ []

decode_body-sample : decode_body sample_body 11 sample ≡ (frame, sample)
unfolding decode_body crc16
decode_body-sample = refl

decode_body_detects_example : decode_body (set sample_body 4 5) 11 sample ≡ (error, sample)
decode_body_detects_example =
    decode_body_detects sample_body 11 4 5 sample sample sample (all-All sample_body refl)
      (omega arith) decode_body-sample (omega arith) (omega arith) (ground arith)

parser_feed-IsParser_example : IsParser (parser_feed parser_init 126 sample).0
parser_feed-IsParser_example = parser_feed-IsParser parser_init 126 sample parser_init-IsParser

select_version-greatest_example :
    IsShared 1 7 4 9 (select_version 1 7 4 9) × (5 ≤ select_version 1 7 4 9)
select_version-greatest_example =
    select_version-greatest 1 7 4 9 5 (omega arith, omega arith, omega arith, omega arith)
