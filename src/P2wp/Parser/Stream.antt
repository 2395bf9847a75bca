-- ===== src/P2wp/Parser/Stream.antt =====
-- firmware/src/p2wp.c: the parser over a stream of bytes that were encoded.
use p2000t_teletekst_cartrid.P2wp.Encode.Wire.{escaped_byte, stuffed}
use p2000t_teletekst_cartrid.P2wp.Frame.{Frame, Message, message, max_body, delimiter, escape_xor}
use p2000t_teletekst_cartrid.P2wp.Parser.{
  ParseResult, none, frame, error, Parser, parser_init, decode_body, parser_close, reopened,
  parser_store, parser_take, parser_feed,
}
use p2000t_teletekst_cartrid.Prelude.Bits.{bit_xor_twice}
use p2000t_teletekst_cartrid.Prelude.{
  ℕ, suc, ◌+◌, ◌≤◌, ◌<◌, true, false, List, [], ◌∷◌, ◌++◌, ◌≡◌, ◌≢◌, refl, sym, ap, ◌∙◌, arith,
  length, take, set, length-append, length-set, append_assoc, append-nil, take-suc-set,
  length-replicate,
}

-- What a receiver sees of the parser: the reports other than `P2WP_PARSE_NONE`.
pub data Report : Type 0 where
  delivered : Message → Report
  rejected : Report

abbrev pub report : ParseResult → Frame → List Report → List Report
report none out rest = rest
report frame out rest = delivered (message out) ∷ rest
report error out rest = rejected ∷ rest

-- The parser, the frame buffer and the reports after a stream of bytes.
unfoldable pub receive : Parser → Frame → List ℕ → Parser × Frame × List Report
receive p out [] = (p, out, [])
receive p out (b ∷ bs) =
    let (p', result, out') = parser_feed p b out in
    let (p'', out'', reports) = receive p' out' bs in (p'', out'', report result out' reports)

-- The parser is inside a frame and has stored these bytes.
pub record Holds (p : Parser) (bytes : List ℕ) : Type 0 where
  pub is_active : p.active ≡ true
  pub plain : p.escaped ≡ false
  pub in_bounds : p.overflow ≡ false
  pub counted : p.count ≡ length bytes
  pub stored : take (length bytes) p.body ≡ bytes
  pub array : length p.body ≡ max_body

module _ (p : Parser) (bytes : List ℕ) where
  parser_store-Holds :
      (b : ℕ)
      → Holds p bytes
      → length bytes < max_body
      → Holds (parser_store p b) (bytes ++ (b ∷ []))
  unfolding parser_store
  parser_store-Holds b h room =
      let stores : parser_store p b
          ≡ record p { body = set p.body p.count b; count = p.count + 1 } =
        ground arith in
      let one_more : length (bytes ++ (b ∷ [])) ≡ suc (length bytes) =
        omega (arith, length-append bytes (b ∷ [])) in
      rw stores (record {
        is_active = h.is_active;
        plain = h.plain;
        in_bounds = h.in_bounds;
        counted = omega arith;
        stored =
            rw (one_more, h.counted, take-suc-set (length bytes) p.body b (omega arith), h.stored);
        array = length-set p.body p.count b ∙ h.array;
      })

  -- A body byte on the wire is stored as itself.
  receive-escaped_byte :
      (b : ℕ) (rest : List ℕ) (out : Frame)
      → Holds p bytes
      → length bytes < max_body
      → receive p out (escaped_byte b ++ rest) ≡ receive (parser_store p b) out rest
  unfolding receive parser_feed escaped_byte parser_take
  receive-escaped_byte b rest out h room = ground (arith, bit_xor_twice b escape_xor)

-- Stuffed bytes are stored, in order and without a report.
pub receive-stuffed :
    (more : List ℕ) (p : Parser) (bytes rest : List ℕ) (out : Frame)
    → Holds p bytes
    → length bytes + length more ≤ max_body
    → (q : Parser) × Holds q (bytes ++ more)
      × (receive p out (stuffed more ++ rest) ≡ receive q out rest)
unfolding stuffed
receive-stuffed [] p bytes rest out h room = (p, rw append-nil h, refl)
receive-stuffed (b ∷ more) p bytes rest out h room =
    let step = parser_store-Holds p bytes b h (omega arith) in
    let (q, held, reads) =
      receive-stuffed more (parser_store p b) (bytes ++ (b ∷ [])) rest out step
        (omega (arith, length-append bytes (b ∷ []))) in
    (
      q,
      rw (sym (append_assoc bytes (b ∷ []) more)) held,
      rw (append_assoc (escaped_byte b) (stuffed more) rest)
          (receive-escaped_byte p bytes b (stuffed more ++ rest) out h (omega arith) ∙ reads),
    )

-- A delimiter opens a frame in any state.
pub reopened-Holds : (p : Parser) → length p.body ≡ max_body → Holds (reopened p) []
reopened-Holds p h = record {
  is_active = refl;
  plain = refl;
  in_bounds = refl;
  counted = refl;
  stored = refl;
  array = h;
}

-- What follows the report of a closing delimiter.
abbrev pub after : Parser → List ℕ → ParseResult × Frame → Parser × Frame × List Report
after q rest decision =
    let (q', out, reports) = receive (reopened q) decision.1 rest in
    (q', out, report decision.0 decision.1 reports)

pub closes :
    (more : List ℕ) (q : Parser) (out : Frame)
    → more ≢ []
    → Holds q more
    → parser_close q out ≡ decode_body q.body (length more) out
unfolding parser_close
closes [] q out filled held = absurd (filled refl)
closes (b ∷ more) q out filled held = ground arith

-- The bytes between two delimiters come back unescaped, and `decode_body` decides over them.
pub receive-framed :
    (more : List ℕ) (p : Parser) (rest : List ℕ) (out : Frame)
    → length p.body ≡ max_body
    → length more ≤ max_body
    → more ≢ []
    → (q : Parser) × Holds q more
      × (receive (reopened p) out (stuffed more ++ (delimiter ∷ rest))
          ≡ after q rest (decode_body q.body (length more) out))
unfolding receive parser_feed
receive-framed more p rest out array room filled =
    let (q, held, reads) =
      receive-stuffed more (reopened p) [] (delimiter ∷ rest) out (reopened-Holds p array)
        (omega arith) in
    (q, held, reads ∙ ap (after q rest) (closes more q out filled held))

pub receive-delimiter :
    (p : Parser) (rest : List ℕ) (out : Frame)
    → receive p out (delimiter ∷ rest) ≡ after p rest (parser_close p out)
unfolding receive parser_feed
receive-delimiter p rest out = refl

pub receive-nil : (p : Parser) (out : Frame) → receive p out [] ≡ (p, out, [])
unfolding receive
receive-nil p out = refl

-- Between frames: a delimiter reports nothing.
pub record IsIdle (p : Parser) : Type 0 where
  pub empty : p.count ≡ 0
  pub no_overflow : p.overflow ≡ false
  pub array : length p.body ≡ max_body

pub parser_close-IsIdle : (p : Parser) (out : Frame) → IsIdle p → parser_close p out ≡ (none, out)
unfolding parser_close
parser_close-IsIdle p out h = ground arith

pub parser_init-IsIdle : IsIdle parser_init
unfolding parser_init
parser_init-IsIdle = record {
  empty = refl;
  no_overflow = refl;
  array = length-replicate {A = ℕ} max_body 0;
}
