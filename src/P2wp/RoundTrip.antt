-- ===== src/P2wp/RoundTrip.antt =====
-- firmware/src/p2wp.c: what `p2wp_encode` writes, `p2wp_parser_feed` reads back.
use p2000t_teletekst_cartrid.P2wp.Crc.Detect.{crc_loop-lt}
use p2000t_teletekst_cartrid.P2wp.Crc.{crc_loop, crc16}
use p2000t_teletekst_cartrid.P2wp.Encode.Wire.{
  sealed_body, wire, checksum, encode-wire, length-sealed_body, stuffed,
}
use p2000t_teletekst_cartrid.P2wp.Encode.{encode, frame_body}
use p2000t_teletekst_cartrid.P2wp.Frame.{
  Frame, message, IsFrame, header_size, max_body, max_payload, delimiter, IsByte, u8,
}
use p2000t_teletekst_cartrid.P2wp.Parser.Decode.{Body, covered, flat, accepts, decoded, decode_flat}
use p2000t_teletekst_cartrid.P2wp.Parser.Stream.{
  Report, delivered, report, receive, after, receive-framed, receive-delimiter, receive-nil, IsIdle,
  parser_close-IsIdle,
}
use p2000t_teletekst_cartrid.P2wp.Parser.{
  ParseResult, none, frame, Parser, decode_body, parser_close, reopened,
}
use p2000t_teletekst_cartrid.Prelude.{
  ℕ, ◌+◌, ◌/◌, ◌^◌, ◌≤◌, true, List, [], ◌∷◌, ◌++◌, map, ◌≡◌, ◌≢◌, refl, sym, ap, ◌∙◌, arith,
  length, take, drop, All, length-append, length-take, append_assoc, append-nil, take_at, take_all,
  take-append-drop, All-take, some, Option, ◌>>=◌, >>=-eq-some, ap₂,
}

-- A frame that the encoder accepts.
pub record IsSendable (f : Frame) : Type 0 where
  pub typed : IsFrame f
  pub small : f.payload_length ≤ max_payload

-- The sealed body of a frame by its parts.
abbrev pub parts : Frame → Body
parts f = record {
  version = f.version;
  flags = f.flags;
  type = f.type;
  sequence = f.sequence;
  length_low = u8 f.payload_length;
  length_high = u8 (f.payload_length / 2 ^ 8);
  content = take f.payload_length f.payload;
  crc_low = u8 (checksum f);
  crc_high = u8 (checksum f / 2 ^ 8);
}

pub sealed_body-parts : (f : Frame) → sealed_body f ≡ flat (parts f)
unfolding sealed_body frame_body
sealed_body-parts f = refl

module _ (f : Frame) (v : IsSendable f) where
  pub length-parts : length (parts f).content ≡ f.payload_length
  length-parts =
      let size = v.typed.array_size in
      let small = v.small in omega (arith, length-take f.payload_length f.payload)

  pub length-sealed : length (sealed_body f) ≡ 8 + length (parts f).content
  length-sealed = rw (sealed_body-parts f) (
      omega
        (arith, length-append (covered (parts f)) ((parts f).crc_low ∷ (parts f).crc_high ∷ [])))

  covered-bytes : All IsByte (covered (parts f))
  covered-bytes =
      let t = v.typed in
      let content = All-take IsByte f.payload_length f.payload t.payload_bytes in
      (
        t.version_byte,
        (t.flags_byte, (t.type_byte, (t.sequence_byte, (omega arith, (omega arith, content))))),
      )

  checksum-covered : checksum f ≡ crc_loop 0xffff (covered (parts f))
  unfolding crc16 frame_body
  checksum-covered =
      ap (crc_loop 0xffff) (
        take_all (header_size + f.payload_length) (covered (parts f)) (omega (arith, length-parts)))

  sealed-accepts : accepts (parts f) ≡ true
  sealed-accepts =
      let size = v.small in
      ground (
        arith,
        length-parts,
        checksum-covered,
        crc_loop-lt (covered (parts f)) 0xffff covered-bytes (omega arith),
      )

  -- The body decoder takes a sealed body for the frame it was made from.
  pub decode_sealed :
      (array : List ℕ) (out : Frame)
      → take (length (sealed_body f)) array ≡ sealed_body f
      → decode_body array (length (sealed_body f)) out ≡ (frame, decoded (parts f) out)
  decode_sealed array out e =
      let rest = drop (length (sealed_body f)) array in
      let split : array ≡ flat (parts f) ++ rest =
        sym (take-append-drop (length (sealed_body f)) array)
        ∙ ap (λ t. t ++ rest) (e ∙ sealed_body-parts f) in
      rw length-sealed (
        ap (λ t. decode_body t (8 + length (parts f).content) out) split
        ∙ decode_flat (parts f) rest out (omega arith)
        ∙ rw sealed-accepts)

  -- The delivered frame says what the sent one says.
  pub message-decoded : (out : Frame) → message (decoded (parts f) out) ≡ message f
  message-decoded out =
      ap
        (λ c. record {
          version = f.version;
          flags = f.flags;
          type = f.type;
          sequence = f.sequence;
          content = c;
        })
        (take_at _ (parts f).content _ refl)

pub sealed-ne-nil : (f : Frame) → IsSendable f → sealed_body f ≢ []
sealed-ne-nil f v e = absurd (omega (arith, ap (length {A = ℕ}) e, length-sealed f v))

-- Reports in front of those of a later run.
abbrev onto : ParseResult × Frame → Parser × Frame × List Report → Parser × Frame × List Report
onto decision r = (r.0, r.1, report decision.0 decision.1 r.2)

-- One frame on the wire, behind any parser state: the opening delimiter reports what was pending,
-- and the frame is delivered at its closing delimiter.
receive-wire :
    (f : Frame) (p : Parser) (rest : List ℕ) (out : Frame)
    → IsSendable f
    → length p.body ≡ max_body
    → (q : Parser) × (g : Frame) × IsIdle q
      × (message g ≡ message f)
      × (receive p out (wire f ++ rest)
          ≡ onto (parser_close p out) (onto (frame, g) (receive q g rest)))
unfolding wire
receive-wire f p rest out v array =
    let pending = parser_close p out in
    let size = v.small in
    let (q, held, reads) =
      receive-framed (sealed_body f) p rest pending.1 array (omega (arith, length-sealed_body f))
        (sealed-ne-nil f v) in
    let g = decoded (parts f) pending.1 in
    let accepted = decode_sealed f v q.body pending.1 held.stored in
    (
      reopened q,
      g,
      record { empty = refl; no_overflow = refl; array = held.array },
      message-decoded f v pending.1,
      ap (λ t. receive p out (delimiter ∷ t)) (append_assoc (stuffed (sealed_body f)) _ rest)
          ∙ receive-delimiter p _ out
          ∙ ap (onto pending) (reads ∙ ap (after q rest) accepted),
    )

abbrev wires : List Frame → List ℕ
wires [] = []
wires (f ∷ fs) = wire f ++ wires fs

receive-wires :
    (fs : List Frame) (p : Parser) (out : Frame)
    → All IsSendable fs
    → IsIdle p
    → (receive p out (wires fs)).2 ≡ map (λ f. delivered (message f)) fs
receive-wires [] p out v h = rw (receive-nil p out)
receive-wires (f ∷ fs) p out v h =
    let (q, g, idle, said, reads) = receive-wire f p (wires fs) out v.0 h.array in
    rw (reads, parser_close-IsIdle p out h)
      (ap₂ (λ m r. delivered m ∷ r) said (receive-wires fs q g v.1 idle))

-- The frames of a list, encoded one behind the other into buffers of one size.
unfoldable pub encode_all : List Frame → ℕ → Option (List ℕ)
encode_all [] capacity = some []
encode_all (f ∷ fs) capacity =
    encode f capacity >>= λ first. encode_all fs capacity >>= λ rest. some (first ++ rest)

encode-eq-some :
    (f : Frame) (capacity : ℕ) (w : List ℕ)
    → encode f capacity ≡ some w
    → (f.payload_length ≤ max_payload) × (w ≡ wire f)
encode-eq-some f capacity w e = ground (arith, encode-wire f capacity)

encode_all-wires :
    (fs : List Frame) (capacity : ℕ) (bytes : List ℕ)
    → All IsFrame fs
    → encode_all fs capacity ≡ some bytes
    → All IsSendable fs × (bytes ≡ wires fs)
unfolding encode_all
encode_all-wires [] capacity bytes v e = (tt, cc)
encode_all-wires (f ∷ fs) capacity bytes v e =
    let (first, e1, more) = >>=-eq-some (encode f capacity) _ e in
    let (rest, e2, last) = >>=-eq-some (encode_all fs capacity) _ more in
    let (small, is_wire) = encode-eq-some f capacity first e1 in
    let (sendable, are_wires) = encode_all-wires fs capacity rest v.1 e2 in
    ((record { typed = v.0; small = small }, sendable), cc)

-- Whatever list of frames, with fields in the ranges of their C types, is encoded into buffers of
-- some capacity: a parser between frames that reads the bytes of all of them delivers exactly these
-- frames, in order, with no error between them.
pub receive-encode_all :
    (fs : List Frame) (capacity : ℕ) (bytes : List ℕ) (p : Parser) (out : Frame)
    → All IsFrame fs
    → encode_all fs capacity ≡ some bytes
    → IsIdle p
    → (receive p out bytes).2 ≡ map (λ f. delivered (message f)) fs
receive-encode_all fs capacity bytes p out v e h =
    let (sendable, are_wires) = encode_all-wires fs capacity bytes v e in
    rw are_wires (receive-wires fs p out sendable h)

length-report : (r : ParseResult) (out : Frame) → length (report r out []) ≤ 1
length-report none out = omega arith
length-report _ out = omega arith

report-append :
    (r : ParseResult) (out : Frame) (rest : List Report)
    → report r out rest ≡ report r out [] ++ rest
report-append none out rest = refl
report-append _ out rest = refl

-- A parser in any state, also in the middle of another frame, delivers the next encoded frame at
-- its last byte, with one report for what was pending at most; it is between frames then.
pub receive-encode :
    (f : Frame) (capacity : ℕ) (bytes : List ℕ) (p : Parser) (out : Frame)
    → IsFrame f
    → encode f capacity ≡ some bytes
    → length p.body ≡ max_body
    → (pending : List Report) × (length pending ≤ 1)
      × ((receive p out bytes).2 ≡ pending ++ (delivered (message f) ∷ []))
      × IsIdle (receive p out bytes).0
receive-encode f capacity bytes p out v e array =
    let (small, is_wire) = encode-eq-some f capacity bytes e in
    let (q, g, idle, said, reads) =
      receive-wire f p [] out (record { typed = v; small = small }) array in
    let pending = parser_close p out in
    let whole : receive p out bytes
        ≡ (q, g, report pending.0 pending.1 (delivered (message f) ∷ [])) =
      ap (receive p out) (is_wire ∙ sym (append-nil (wire f)))
      ∙ reads
      ∙ ap (λ r. onto pending (onto (frame, g) r)) (receive-nil q g)
      ∙ ap (λ m. (q, g, report pending.0 pending.1 (delivered m ∷ []))) said in
    (
      report pending.0 pending.1 [],
      length-report pending.0 pending.1,
      ap (λ t. t.2) whole ∙ report-append pending.0 pending.1 (delivered (message f) ∷ []),
      rw whole idle,
    )
