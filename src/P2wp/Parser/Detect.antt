-- ===== src/P2wp/Parser/Detect.antt =====
-- firmware/src/p2wp.c: `decode_body` refuses every body in which one byte was changed.
use p2000t_teletekst_cartrid.P2wp.Crc.Detect.{crc_loop_detects}
use p2000t_teletekst_cartrid.P2wp.Crc.{crc_loop, crc16}
use p2000t_teletekst_cartrid.P2wp.Frame.{Frame, IsByte, max_payload}
use p2000t_teletekst_cartrid.P2wp.Parser.{ParseResult, frame, error, byte_at, le16, decode_body}
use p2000t_teletekst_cartrid.Prelude.Bits.{bit_or_fields}
use p2000t_teletekst_cartrid.Prelude.{
  ℕ, ◌+◌, ◌-◌, ◌*◌, ◌^◌, ◌≤◌, ◌<◌, List, ◌∷◌, ◌++◌, ◌≡◌, ◌≢◌, sym, ap, ◌∙◌, ◌⊎◌, inl, inr, arith,
  length, take, set, All, get_or-set_self, get_or-set_ne, take-set_after, split_at, All-append_inv,
  All-get_or, All-take, ==_iff, ltb, ◌==◌, refl, Bool, true, false, if◌then◌else◌, Bool-cases, ap₂,
  bit_or, ◌||◌, not, copy_at, drop, ltb→lt,
}

-- A body that is taken has the length that it states, and its checksum.
pub record IsTaken (body : List ℕ) (n : ℕ) : Type 0 where
  pub at_least : 8 ≤ n
  pub stated : le16 body 4 + 8 ≡ n
  pub summed : crc_loop 0xffff (take (n - 2) body) ≡ le16 body (n - 2)

pub decode_body-IsTaken :
    (body : List ℕ) (n : ℕ) (out g : Frame) → decode_body body n out ≡ (frame, g) → IsTaken body n
unfolding decode_body crc16
decode_body-IsTaken body n out g e = ground (arith, index)
  where
    index : le16 body 4 + 8 ≡ n → 6 + le16 body 4 ≡ n - 2
    index h = omega arith

guards :
    (a b c : Bool) (out g : Frame)
    → (let r : ParseResult × Frame =
          if a
          then (error, out)
          else if b
          then (error, out)
          else if c
          then (error, out)
          else (frame, g) in
        ((h : Frame) × (r ≡ (frame, h))) ⊎ (r ≡ (error, out)))
guards true b c out g = inr refl
guards false true c out g = inr refl
guards false false true out g = inr refl
guards false false false out g = inl (g, refl)

-- Otherwise the result is an error, and the frame buffer is as it was.
pub decode_body-cases :
    (body : List ℕ) (n : ℕ) (out : Frame)
    → ((g : Frame) × (decode_body body n out ≡ (frame, g)))
      ⊎ (decode_body body n out ≡ (error, out))
unfolding decode_body
decode_body-cases body n out =
    let payload_length = le16 body 4 in
    guards (ltb n 8) (ltb max_payload payload_length || not (n == 6 + payload_length + 2))
      (not (crc16 body (6 + payload_length) == le16 body (6 + payload_length))) out
      (record {
        version = byte_at body 0;
        flags = byte_at body 1;
        type = byte_at body 2;
        sequence = byte_at body 3;
        payload_length = payload_length;
        payload = copy_at out.payload 0 (take payload_length (drop 6 body));
      })

module _ (body : List ℕ) (n i v : ℕ) (bytes : All IsByte body) (fits : n ≤ length body)
    (old : IsTaken body n) (new : IsTaken (set body i v) n) (inside : i < n)
    (v_byte : v < 256) where
  byte : (j : ℕ) → byte_at body j < 256
  byte j = All-get_or IsByte body j 0 bytes (omega arith)

  set_byte : (j : ℕ) → byte_at (set body i v) j < 256
  set_byte j = elim (Bool-cases (i == j)) [
    | inl e ↦ rw (sym ((==_iff i j).0 e)) (rw (get_or-set_self body i v 0 (omega arith)) v_byte)
    | inr e ↦ rw (get_or-set_ne body i j v 0 (ground arith)) (byte j)
  ]

  -- A change in front of the checksum.
  covered_same : i < n - 2 → byte_at body i ≡ v
  covered_same h =
      let far = get_or-set_ne body i (n - 2) v 0 (omega arith) in
      let far' = get_or-set_ne body i (n - 2 + 1) v 0 (omega arith) in
      let (before, after, e, e') = split_at (n - 2) i body v 0 h (omega arith) in
      let all = All-append_inv IsByte before _ (rw e at (All-take IsByte (n - 2) body bytes)) in
      let sums : crc_loop 0xffff (before ++ (byte_at body i ∷ after))
          ≡ crc_loop 0xffff (before ++ (v ∷ after)) =
        sym (ap (crc_loop 0xffff) e)
        ∙ old.summed
        ∙ sym (ap₂ (λ (x y : ℕ). bit_or x (y * 2 ^ 8)) far far')
        ∙ sym new.summed
        ∙ ap (crc_loop 0xffff) e' in
      crc_loop_detects before after 0xffff (byte_at body i) v (omega arith) all.0 all.1.1 (byte i)
        v_byte sums

  abbrev Joined : List ℕ → Type 0
  Joined xs = le16 xs (n - 2) ≡ byte_at xs (n - 2) + byte_at xs (n - 2 + 1) * 2 ^ 8

  abbrev SameSum : Type 0
  SameSum = le16 body (n - 2) ≡ le16 (set body i v) (n - 2)

  at_low : i ≡ n - 2 → Joined body → Joined (set body i v) → SameSum → byte_at body i ≡ v
  at_low e plain changed sums =
      ground (arith, get_or-set_self body i v 0, get_or-set_ne body i (n - 2 + 1) v 0, old.at_least)

  at_high : i ≡ n - 2 + 1 → Joined body → Joined (set body i v) → SameSum → byte_at body i ≡ v
  at_high e plain changed sums =
      ground (arith, get_or-set_self body i v 0, get_or-set_ne body i (n - 2) v 0, old.at_least)

  -- A change of the checksum.
  checksum_same : n - 2 ≤ i → byte_at body i ≡ v
  checksum_same h =
      let sums : le16 body (n - 2) ≡ le16 (set body i v) (n - 2) =
        sym old.summed
        ∙ sym (ap (crc_loop 0xffff) (take-set_after (n - 2) i body v h))
        ∙ new.summed in
      let two = old.at_least in
      let plain =
        bit_or_fields 8 (byte_at body (n - 2)) (byte_at body (n - 2 + 1)) (byte (n - 2)) in
      let changed =
        bit_or_fields 8 (byte_at (set body i v) (n - 2)) (byte_at (set body i v) (n - 2 + 1))
          (set_byte (n - 2)) in
      elim (Bool-cases (i == n - 2)) [
        | inl e ↦ at_low ((==_iff i (n - 2)).0 e) plain changed sums
        | inr e ↦ at_high (omega (arith, last e)) plain changed sums
      ]
    where
      last : (i == n - 2) ≡ false → i ≢ n - 2
      last e = ground arith

-- If a body of bytes is taken for a frame, it is refused, and the frame buffer left alone, when
-- any one byte of it is replaced by another.
pub decode_body_detects :
    (body : List ℕ) (n i v : ℕ) (out out' g : Frame)
    → All IsByte body
    → n ≤ length body
    → decode_body body n out ≡ (frame, g)
    → i < n
    → v < 256
    → v ≢ byte_at body i
    → decode_body (set body i v) n out' ≡ (error, out')
decode_body_detects body n i v out out' g bytes fits e inside byte ne =
    elim (decode_body-cases (set body i v) n out') [
      | inl (g', e') ↦
          let old = decode_body-IsTaken body n out g e in
          let new = decode_body-IsTaken (set body i v) n out' g' e' in
          elim (Bool-cases (ltb i (n - 2))) [
            | inl front ↦ absurd (
                ne
                  (sym (covered_same body n i v bytes fits old new inside byte (ltb→lt _ _ front))))
            | inr back ↦
                absurd (
                  ne (sym (checksum_same body n i v bytes fits old new inside byte (ground arith))))
          ]
      | inr e' ↦ e'
    ]
