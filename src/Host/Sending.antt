-- ===== src/Host/Sending.antt =====
-- src/p2wp.c: what `send_frame` puts on a link that is always ready to take a byte.
use p2000t_teletekst_cartrid.Host.Framing.{send_escaped, send_body, send_frame}
use p2000t_teletekst_cartrid.Host.Link.{Link, tx_ready, wait, send_byte, and_then}
use p2000t_teletekst_cartrid.P2wp.Crc.{crc16}
use p2000t_teletekst_cartrid.P2wp.Encode.Wire.{escaped_byte, stuffed, stuffed-append}
use p2000t_teletekst_cartrid.P2wp.Frame.{delimiter, escape, escape_xor, u8}
use p2000t_teletekst_cartrid.Prelude.{
  ℕ, suc, ◌/◌, ◌^◌, Bool, true, false, ◌||◌, List, [], ◌∷◌, ◌++◌, Option, some, bit_and, bit_xor,
  ◌≡◌, refl, sym, ap, ◌∙◌, ◌==◌, Bool-cases, inl, inr,
}

-- A body between delimiters, with the checksum of its first `count` bytes.
abbrev pub framed : List ℕ → ℕ → List ℕ
framed body count =
    let crc = crc16 body count in
    delimiter ∷ (stuffed (body ++ (u8 crc ∷ u8 (crc / 2 ^ 8) ∷ [])) ++ (delimiter ∷ []))

module _ {World : Type 0} (link : Link World) where
  -- The port takes a byte at any time, and asking for it changes nothing.
  pub record IsOpen : Type 0 where
    pub ready : (w : World) → (bit_and (link.status w).0 tx_ready == 0) ≡ false
    pub silent : (w : World) → (link.status w).1 ≡ w

  unfoldable pub sends : List ℕ → World → World
  sends [] w = w
  sends (b ∷ bs) w = sends bs (link.send w b)

  pub sends-append : (xs ys : List ℕ) (w : World) → sends (xs ++ ys) w ≡ sends ys (sends xs w)
  unfolding sends
  sends-append [] ys w = refl
  sends-append (x ∷ xs) ys w = sends-append xs ys (link.send w x)

  framed_parts :
      (body : List ℕ) (low high : ℕ) (w : World)
      → sends (stuffed (body ++ (low ∷ high ∷ [])) ++ (delimiter ∷ [])) w
        ≡ link.send
            (sends (escaped_byte high) (sends (escaped_byte low) (sends (stuffed body) w)))
            delimiter
  unfolding sends stuffed
  framed_parts body low high w =
      sends-append (stuffed (body ++ (low ∷ high ∷ []))) (delimiter ∷ []) w
      ∙ ap (λ t. link.send t delimiter)
          (ap (λ t. sends t w) (stuffed-append body (low ∷ high ∷ []))
            ∙ sends-append (stuffed body) (escaped_byte low ++ (escaped_byte high ++ [])) w
            ∙ sends-append (escaped_byte low) (escaped_byte high ++ []) (sends (stuffed body) w)
            ∙ sends-append (escaped_byte high) []
                (sends (escaped_byte low) (sends (stuffed body) w)))

  module _ (v : IsOpen) (polls deadline : ℕ) where
    send_byte_lem :
        (b : ℕ) (w : World) → send_byte link (suc polls) b deadline w ≡ some (true, link.send w b)
    unfolding send_byte wait
    send_byte_lem b w = rw (v.ready w, v.silent w) refl

    send_escaped_lem :
        (b : ℕ) (w : World)
        → send_escaped link (suc polls) deadline b w ≡ some (true, sends (escaped_byte b) w)
    unfolding send_escaped escaped_byte sends
    send_escaped_lem b w = elim (Bool-cases (b == delimiter || b == escape)) [
      | inl special ↦
          rw (special, send_byte_lem escape w)
            (send_byte_lem (bit_xor b escape_xor) (link.send w escape))
      | inr plain ↦ rw plain (send_byte_lem b w)
    ]

    send_body_lem :
        (bs : List ℕ) (w : World)
        → send_body link (suc polls) deadline bs w ≡ some (true, sends (stuffed bs) w)
    unfolding send_body stuffed sends
    send_body_lem [] w = refl
    send_body_lem (b ∷ bs) w =
        rw (send_escaped_lem b w, sends-append (escaped_byte b) (stuffed bs) w)
          (send_body_lem bs (sends (escaped_byte b) w))

    -- The calls of `send_frame`.
    send_frame_lem :
        (body : List ℕ) (count : ℕ) (w : World)
        → send_frame link (suc polls) deadline body count w
          ≡ and_then link (send_byte link (suc polls) delimiter deadline w) λ w.
            and_then link (send_body link (suc polls) deadline body w) λ w.
              and_then link (send_escaped link (suc polls) deadline (u8 (crc16 body count)) w) λ w.
                and_then link
                  (send_escaped link (suc polls) deadline (u8 (crc16 body count / 2 ^ 8)) w)
                  (send_byte link (suc polls) delimiter deadline)
    unfolding send_frame
    send_frame_lem body count w = refl

    succeeds :
        (first : Option (Bool × World)) (w : World) (second : World → Option (Bool × World))
        → first ≡ some (true, w)
        → and_then link first second ≡ second w
    succeeds first w second e = ap (λ r. and_then link r second) e

    -- On a link that is always ready, exactly the framed body is sent.
    pub send_frame-framed :
        (body : List ℕ) (count : ℕ) (w : World)
        → send_frame link (suc polls) deadline body count w
          ≡ some (true, sends (framed body count) w)
    unfolding sends
    send_frame-framed body count w =
        let low = u8 (crc16 body count) in
        let high = u8 (crc16 body count / 2 ^ 8) in
        let w₁ = link.send w delimiter in
        let w₂ = sends (stuffed body) w₁ in
        let w₃ = sends (escaped_byte low) w₂ in
        let w₄ = sends (escaped_byte high) w₃ in
        send_frame_lem body count w
        ∙ succeeds _ w₁ _ (send_byte_lem delimiter w)
        ∙ succeeds _ w₂ _ (send_body_lem body w₁)
        ∙ succeeds _ w₃ _ (send_escaped_lem low w₂)
        ∙ succeeds _ w₄ _ (send_escaped_lem high w₃)
        ∙ send_byte_lem delimiter w₄
        ∙ ap (λ t. some (true, t)) (sym (framed_parts body low high w₁))
