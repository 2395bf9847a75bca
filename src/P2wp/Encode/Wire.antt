-- ===== src/P2wp/Encode/Wire.antt =====
-- firmware/src/p2wp.c: `p2wp_encode` against a description of the bytes on the wire.
use p2000t_teletekst_cartrid.P2wp.Crc.{crc16}
use p2000t_teletekst_cartrid.P2wp.Encode.{append_escaped, append_all, close, frame_body, encode}
use p2000t_teletekst_cartrid.P2wp.Frame.{
  Frame, header_size, max_payload, max_encoded, delimiter, escape, escape_xor, u8,
}
use p2000t_teletekst_cartrid.Prelude.{
  ℕ, ◌+◌, ◌*◌, ◌/◌, ◌^◌, ◌≤◌, Bool, true, false, ◌||◌, List, [], ◌∷◌, ◌++◌, Option, none, some,
  bit_xor, ◌≡◌, refl, sym, ap, ◌∙◌, inl, inr, arith, length, take, ltb, ◌==◌, if◌then◌else◌, ◌>>=◌,
  length-append, length-take, append_assoc, append-nil, Bool-cases,
}

-- One body byte on the wire.
unfoldable pub escaped_byte : ℕ → List ℕ
escaped_byte b =
    if b == delimiter || b == escape then escape ∷ bit_xor b escape_xor ∷ [] else b ∷ []

unfoldable pub stuffed : List ℕ → List ℕ
stuffed [] = []
stuffed (b ∷ bs) = escaped_byte b ++ stuffed bs

-- The body with its checksum, low byte first.
abbrev pub checksum : Frame → ℕ
checksum f = crc16 (frame_body f) (header_size + f.payload_length)

unfoldable pub sealed_body : Frame → List ℕ
sealed_body f = frame_body f ++ (u8 (checksum f) ∷ u8 (checksum f / 2 ^ 8) ∷ [])

unfoldable pub wire : Frame → List ℕ
wire f = delimiter ∷ (stuffed (sealed_body f) ++ (delimiter ∷ []))

pub length-escaped_byte : (b : ℕ) → (1 ≤ length (escaped_byte b)) × (length (escaped_byte b) ≤ 2)
unfolding escaped_byte
length-escaped_byte b = ground arith

pub length-stuffed : (bs : List ℕ) → length (stuffed bs) ≤ 2 * length bs
unfolding stuffed
length-stuffed [] = omega arith
length-stuffed (b ∷ bs) =
    omega
      (arith, length-stuffed bs, length-append (escaped_byte b) (stuffed bs), length-escaped_byte b)

pub stuffed-append : (xs ys : List ℕ) → stuffed (xs ++ ys) ≡ stuffed xs ++ stuffed ys
unfolding stuffed
stuffed-append [] ys = refl
stuffed-append (x ∷ xs) ys =
    ap (λ t. escaped_byte x ++ t) (stuffed-append xs ys)
    ∙ sym (append_assoc (escaped_byte x) (stuffed xs) (stuffed ys))

-- What fits, and what is then written.
abbrev fits : ℕ → List ℕ → List ℕ → Option (List ℕ)
fits capacity output more =
    if ltb capacity (length output + length more) then none else some (output ++ more)

append_escaped-fits :
    (b capacity : ℕ) (output : List ℕ)
    → length output ≤ capacity
    → append_escaped b capacity output ≡ fits capacity output (escaped_byte b)
unfolding append_escaped escaped_byte
append_escaped-fits b capacity output h = ground arith

fits-bind :
    (capacity : ℕ) (output xs ys : List ℕ)
    → (f : List ℕ → Option (List ℕ))
    → ((o : List ℕ) → length o ≤ capacity → f o ≡ fits capacity o ys)
    → (fits capacity output xs >>= f) ≡ fits capacity output (xs ++ ys)
fits-bind capacity output xs ys f h = ground (
  arith,
  h (output ++ xs),
  length-append output xs,
  length-append xs ys,
  append_assoc output xs ys,
)

append_all-fits :
    (bs : List ℕ) (capacity : ℕ) (output : List ℕ)
    → length output ≤ capacity
    → append_all bs capacity output ≡ fits capacity output (stuffed bs)
unfolding append_all stuffed
append_all-fits [] capacity output h = ground (arith, append-nil output)
append_all-fits (b ∷ bs) capacity output h = rw (append_escaped-fits b capacity output h) (
    fits-bind capacity output (escaped_byte b) (stuffed bs) (append_all bs capacity)
      (λ o. append_all-fits bs capacity o))

close-fits :
    (capacity : ℕ) (output : List ℕ)
    → length output ≤ capacity
    → close capacity output ≡ fits capacity output (delimiter ∷ [])
unfolding close
close-fits capacity output h = ground arith

-- The steps behind the opening delimiter.
steps-fits :
    (body : List ℕ) (low high capacity : ℕ)
    → 1 ≤ capacity
    → (append_all body capacity (delimiter ∷ []) >>= λ o.
        append_escaped low capacity o >>= λ p. append_escaped high capacity p >>= close capacity)
      ≡ fits capacity
          (delimiter ∷ [])
          (stuffed body ++ (escaped_byte low ++ (escaped_byte high ++ (delimiter ∷ []))))
steps-fits body low high capacity h = rw (append_all-fits body capacity (delimiter ∷ []) h) (
    fits-bind capacity (delimiter ∷ []) (stuffed body) _ _ λ o p.
      rw (append_escaped-fits low capacity o p) (
        fits-bind capacity o (escaped_byte low) _ _ λ o' p'.
          rw (append_escaped-fits high capacity o' p')
            (fits-bind capacity o' (escaped_byte high) _ _ (close-fits capacity))))

wire-body :
    (body : List ℕ) (low high : ℕ)
    → stuffed (body ++ (low ∷ high ∷ [])) ++ (delimiter ∷ [])
      ≡ stuffed body ++ (escaped_byte low ++ (escaped_byte high ++ (delimiter ∷ [])))
unfolding stuffed
wire-body body low high =
    rw (stuffed-append body (low ∷ high ∷ [])) (simp (append_assoc, append-nil))

-- The guards in front of the steps, over any body and checksum.
guarded-fits :
    (over : Bool) (body : List ℕ) (low high capacity : ℕ)
    → (if over || ltb capacity 2
        then none
        else (append_all body capacity (delimiter ∷ []) >>= λ o.
            append_escaped low capacity o >>= λ p.
            append_escaped high capacity p >>= close capacity))
      ≡ (let w = delimiter ∷ (stuffed (body ++ (low ∷ high ∷ [])) ++ (delimiter ∷ [])) in
          if over || ltb capacity (length w) then none else some w)
guarded-fits true body low high capacity = refl
guarded-fits false body low high capacity = elim (Bool-cases (ltb capacity 2)) [
  | inl small ↦ ground (arith, length-append (stuffed (body ++ (low ∷ high ∷ []))) (delimiter ∷ []))
  | inr large ↦ rw large (
      rw (steps-fits body low high capacity (ground arith), ← wire-body body low high)
        (ground arith))
]

-- The encoder writes exactly the described bytes where the payload is at most 512 bytes and the
-- buffer holds them all, and fails in every other case.
pub encode-wire :
    (f : Frame) (capacity : ℕ)
    → encode f capacity ≡ (
        if ltb max_payload f.payload_length || ltb capacity (length (wire f))
        then none
        else some (wire f))
unfolding encode wire sealed_body
encode-wire f capacity = guarded-fits (ltb max_payload f.payload_length) (frame_body f) _ _ capacity

-- A payload taken from its array.
length-content : (f : Frame) → length (take f.payload_length f.payload) ≤ f.payload_length
length-content f = omega (arith, length-take f.payload_length f.payload)

pub length-sealed_body : (f : Frame) → length (sealed_body f) ≤ 8 + f.payload_length
unfolding sealed_body frame_body
length-sealed_body f = omega (
  arith,
  length-content f,
  length-append (frame_body f) (u8 (checksum f) ∷ u8 (checksum f / 2 ^ 8) ∷ []),
)

pub length-wire : (f : Frame) → f.payload_length ≤ max_payload → length (wire f) ≤ max_encoded
unfolding wire
length-wire f h = omega (
  arith,
  length-sealed_body f,
  length-stuffed (sealed_body f),
  length-append (stuffed (sealed_body f)) (delimiter ∷ []),
)

-- The wire of a frame with at most 512 payload bytes never exceeds `P2WP_MAX_ENCODED`: encoding
-- it into a buffer of that size or more succeeds.
pub encode_total :
    (f : Frame) (capacity : ℕ)
    → f.payload_length ≤ max_payload
    → max_encoded ≤ capacity
    → encode f capacity ≡ some (wire f)
encode_total f capacity h k = encode-wire f capacity ∙ ground (arith, length-wire f h)
