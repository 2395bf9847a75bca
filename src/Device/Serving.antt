-- ===== src/Device/Serving.antt =====
-- emulator/src/p2wp_device.c: what the device makes of the bytes of one frame.
use p2000t_teletekst_cartrid.Device.Ports.{Device, tx_port, serve, device_out}
use p2000t_teletekst_cartrid.P2wp.Encode.Wire.{stuffed, sealed_body, wire, length-sealed_body}
use p2000t_teletekst_cartrid.P2wp.Frame.{Frame, delimiter}
use p2000t_teletekst_cartrid.P2wp.Parser.Decode.{decoded}
use p2000t_teletekst_cartrid.P2wp.Parser.Stream.{
  Report, report, receive, receive-stuffed, closes, receive-delimiter, receive-nil, IsIdle,
  parser_close-IsIdle, reopened-Holds,
}
use p2000t_teletekst_cartrid.P2wp.Parser.{
  ParseResult, none, frame, error, Parser, parser_close, decode_body, reopened, parser_feed,
}
use p2000t_teletekst_cartrid.P2wp.RoundTrip.{IsSendable, parts, decode_sealed, sealed-ne-nil}
use p2000t_teletekst_cartrid.Prelude.{
  ℕ, List, [], ◌∷◌, ◌++◌, ◌≡◌, refl, sym, ap, ◌∙◌, arith, append-nil,
}

-- A byte that makes the parser report nothing leaves the frame alone.
parser_feed-none :
    (p : Parser) (byte : ℕ) (out : Frame)
    → (parser_feed p byte out).1 ≡ none
    → (parser_feed p byte out).2 ≡ out
unfolding parser_feed decode_body
parser_feed-none p byte out e = ground arith

parser_feed-delimiter :
    (p : Parser) (out : Frame)
    → parser_feed p delimiter out ≡ (reopened p, (parser_close p out).0, (parser_close p out).1)
unfolding parser_feed
parser_feed-delimiter p out = refl

report-nil :
    (result : ParseResult) (out : Frame) (rest : List Report)
    → report result out rest ≡ []
    → (result ≡ none) × (rest ≡ [])
report-nil none out rest e = (refl, e)
report-nil frame out rest e = cc
report-nil error out rest e = cc

module _ {Context : Type 0} where
  unfoldable pub outs : List ℕ → Device Context → Device Context
  outs [] d = d
  outs (b ∷ bs) d = outs bs (device_out tx_port b d)

  pub outs-append : (xs ys : List ℕ) (d : Device Context) → outs (xs ++ ys) d ≡ outs ys (outs xs d)
  unfolding outs
  outs-append [] ys d = refl
  outs-append (x ∷ xs) ys d = outs-append xs ys (device_out tx_port x d)

  device_out-none :
      (b : ℕ) (d : Device Context)
      → (parser_feed d.parser b d.stack).1 ≡ none
      → device_out tx_port b d ≡ record d { parser = (parser_feed d.parser b d.stack).0 }
  unfolding device_out
  device_out-none b d e = rw (e, parser_feed-none d.parser b d.stack e) refl

  -- Bytes without a report only move the parser.
  outs-quiet :
      (bs : List ℕ) (d : Device Context)
      → (receive d.parser d.stack bs).2 ≡ []
      → outs bs d ≡ record d { parser = (receive d.parser d.stack bs).0 }
  unfolding outs receive
  outs-quiet [] d e = refl
  outs-quiet (b ∷ bs) d e =
      let fed = parser_feed d.parser b d.stack in
      let quiet = report-nil fed.1 fed.2 (receive fed.0 fed.2 bs).2 e in
      let same = parser_feed-none d.parser b d.stack quiet.0 in
      let later : outs bs (record d { parser = fed.0 })
          ≡ record d { parser = (receive fed.0 d.stack bs).0 } =
        outs-quiet bs (record d { parser = fed.0 })
          (ap (λ t. (receive fed.0 t bs).2) (sym same) ∙ quiet.1) in
      ap (outs bs) (device_out-none b d quiet.0)
      ∙ later
      ∙ ap (λ t. record d { parser = (receive fed.0 t bs).0 }) (sym same)

  device_out-frame :
      (b : ℕ) (d : Device Context) (p : Parser) (g : Frame)
      → parser_feed d.parser b d.stack ≡ (p, frame, g)
      → device_out tx_port b d ≡ serve p g d
  unfolding device_out
  device_out-frame b d p g e =
      ap {A = Parser × ParseResult × Frame}
        (λ r. elim r.1 [
          | frame ↦ serve r.0 r.2 d
          | none ↦ record d { parser = r.0; stack = r.2 }
          | error ↦ record d { parser = r.0; stack = r.2 }
        ])
        e

  -- The bytes of a frame, between frames: the device serves the frame, written over its buffer.
  pub outs-wire :
      (f : Frame) (d : Device Context)
      → IsSendable f
      → IsIdle d.parser
      → (p : Parser) × IsIdle p × (outs (wire f) d ≡ serve p (decoded (parts f) d.stack) d)
  unfolding wire outs serve
  outs-wire f d v idle =
      let body = sealed_body f in
      let open_bytes = delimiter ∷ stuffed body in
      let small = v.small in
      let (q, held, reads) =
        receive-stuffed body (reopened d.parser) [] [] d.stack (reopened-Holds d.parser idle.array)
          (omega (arith, length-sealed_body f)) in
      let inside : receive d.parser d.stack open_bytes ≡ (q, d.stack, []) =
        receive-delimiter d.parser (stuffed body) d.stack
        ∙ rw (parser_close-IsIdle d.parser d.stack idle) (
            ap (receive (reopened d.parser) d.stack) (sym (append-nil (stuffed body)))
            ∙ reads
            ∙ receive-nil q d.stack) in
      let quiet : outs open_bytes d ≡ record d { parser = q } =
        outs-quiet open_bytes d (ap (λ t. t.2) inside)
        ∙ ap (λ t. record d { parser = t.0 }) inside in
      let g = decoded (parts f) d.stack in
      let closing : parser_feed q delimiter d.stack ≡ (reopened q, frame, g) =
        parser_feed-delimiter q d.stack
        ∙ ap (λ (t : ParseResult × Frame). (reopened q, t.0, t.1))
            (closes body q d.stack (sealed-ne-nil f v) held
              ∙ decode_sealed f v q.body d.stack held.stored) in
      (
        reopened q,
        record { empty = refl; no_overflow = refl; array = held.array },
        outs-append open_bytes (delimiter ∷ []) d
            ∙ ap (outs (delimiter ∷ [])) quiet
            ∙ device_out-frame delimiter (record d { parser = q }) (reopened q) g closing,
      )
