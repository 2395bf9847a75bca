-- ===== src/Host/Receiving.antt =====
-- src/p2wp.c: what `receive_frame` makes of a frame that the link offers.
use mathlib.Core.Path.{subst}
use p2000t_teletekst_cartrid.Host.Framing.{
  Receiver, again, complete, start_receiver, host_limit, host_max_body, response_is_valid,
  take_delimiter, store_value, take_value, receive_frame,
}
use p2000t_teletekst_cartrid.Host.Link.{Link, rx_ready, wait, receive_byte}
use p2000t_teletekst_cartrid.Host.Rounds.{round_again, round_complete}
use p2000t_teletekst_cartrid.P2wp.Crc.{crc16}
use p2000t_teletekst_cartrid.P2wp.Encode.Wire.{escaped_byte, stuffed}
use p2000t_teletekst_cartrid.P2wp.Frame.{Frame, delimiter, escape, escape_xor}
use p2000t_teletekst_cartrid.P2wp.Parser.Detect.{decode_body-IsTaken}
use p2000t_teletekst_cartrid.P2wp.Parser.{frame, le16, decode_body}
use p2000t_teletekst_cartrid.Prelude.Bits.{bit_xor_twice}
use p2000t_teletekst_cartrid.Prelude.{
  ℕ, zero, suc, ◌+◌, ◌≤◌, ◌<◌, true, false, ◌||◌, List, [], ◌∷◌, ◌++◌, some, bit_and, bit_xor, set,
  take, length, ◌≡◌, ◌≢◌, refl, sym, ap, ◌∙◌, arith, ◌==◌, Bool-cases, inl, inr, append_assoc,
  length-append, length-set, take-suc-set, append-nil,
}

module _ {World : Type 0} (link : Link World) where
  -- The link has these bytes to read, one behind the other, and is then in the state `w'`.
  abbrev pub Offers : List ℕ → World → World → Type 0
  Offers [] w w' = w ≡ w'
  Offers (b ∷ bs) w w' =
      ((bit_and (link.status w).0 rx_ready == 0) ≡ false)
      × ((link.status w).1 ≡ w)
      × ((link.receive w).0 ≡ b)
      × Offers bs (link.receive w).1 w'

  module _ (polls deadline : ℕ) where
    receive_byte_lem :
        (b : ℕ) (bs : List ℕ) (w w' : World)
        → Offers (b ∷ bs) w w'
        → receive_byte link (suc polls) deadline w ≡ some (some b, (link.receive w).1)
    unfolding receive_byte wait
    receive_byte_lem b bs w w' (ready, silent, read, later) = rw (ready, silent, read) refl

    -- A byte that is read goes through the loop body.
    receive_again :
        (fuel : ℕ) (r r' : Receiver) (b : ℕ) (bs : List ℕ) (w w' : World)
        → Offers (b ∷ bs) w w'
        → take_value r b ≡ again r'
        → receive_frame link (suc polls) deadline (suc fuel) r w
          ≡ receive_frame link (suc polls) deadline fuel r' (link.receive w).1
    receive_again fuel r r' b bs w w' offers e =
        round_again link (suc polls) deadline fuel r r' w (link.receive w).1 b
          (receive_byte_lem b bs w w' offers) e

    receive_complete :
        (fuel : ℕ) (r r' : Receiver) (b : ℕ) (w w' : World)
        → Offers (b ∷ []) w w'
        → take_value r b ≡ complete r'
        → receive_frame link (suc polls) deadline (suc fuel) r w ≡ some (true, r', w')
    receive_complete fuel r r' b w w' offers e =
        round_complete link (suc polls) deadline fuel r r' w (link.receive w).1 b
          (receive_byte_lem b [] w w' offers) e
        ∙ ap (λ t. some (true, r', t)) offers.3

-- The receiver is inside a frame and has stored these bytes.
record Holds (r : Receiver) (bytes : List ℕ) : Type 0 where
  is_active : r.active ≡ true
  plain : r.escaped ≡ false
  counted : r.count ≡ length bytes
  stored : take (length bytes) r.response ≡ bytes
  array : length r.response ≡ host_max_body

abbrev stores : Receiver → ℕ → Receiver
stores r b = record r { response = set r.response r.count b; count = r.count + 1; escaped = false }

stores-Holds :
    (r : Receiver) (bytes : List ℕ) (b : ℕ)
    → Holds r bytes
    → length bytes < host_max_body
    → Holds (stores r b) (bytes ++ (b ∷ []))
stores-Holds r bytes b h room =
    let one_more : length (bytes ++ (b ∷ [])) ≡ suc (length bytes) =
      omega (arith, length-append bytes (b ∷ [])) in
    let size = h.array in
    let count = h.counted in
    record {
      is_active = h.is_active;
      plain = refl;
      counted = omega arith;
      stored =
          rw
            (one_more, h.counted, take-suc-set (length bytes) r.response b (omega arith), h.stored);
      array = length-set r.response r.count b ∙ h.array;
    }

take_plain :
    (r : Receiver) (bytes : List ℕ) (b : ℕ)
    → Holds r bytes
    → length bytes < host_max_body
    → (b == delimiter || b == escape) ≡ false
    → take_value r b ≡ again (stores r b)
unfolding take_value store_value
take_plain r bytes b h room plain = ground (arith, h.is_active, h.plain, h.counted)

take_escape :
    (r : Receiver) (bytes : List ℕ)
    → Holds r bytes
    → take_value r escape ≡ again (record r { escaped = true })
unfolding take_value
take_escape r bytes h = ground (arith, h.is_active, h.plain)

take_escaped :
    (r : Receiver) (bytes : List ℕ) (b : ℕ)
    → Holds r bytes
    → length bytes < host_max_body
    → (b == delimiter || b == escape) ≡ true
    → take_value (record r { escaped = true }) (bit_xor b escape_xor) ≡ again (stores r b)
unfolding take_value store_value
take_escaped r bytes b h room special =
    ground (arith, h.is_active, h.counted, bit_xor_twice b escape_xor)

module _ {World : Type 0} (link : Link World) (polls deadline : ℕ) where
  -- What is left to read behind a part of a frame.
  record Progress (fuel : ℕ) (r : Receiver) (w : World) (bytes rest : List ℕ) (w' : World)
      : Type 0 where
    fuel_left : ℕ
    receiver : Receiver
    world : World
    enough : length rest ≤ fuel_left
    holds : Holds receiver bytes
    offers : Offers link rest world w'
    reads :
        receive_frame link (suc polls) deadline fuel r w
        ≡ receive_frame link (suc polls) deadline fuel_left receiver world

  read_plain :
      (b : ℕ) (bytes rest : List ℕ) (fuel : ℕ) (r : Receiver) (w w' : World)
      → Holds r bytes
      → length bytes < host_max_body
      → (b == delimiter || b == escape) ≡ false
      → Offers link (b ∷ rest) w w'
      → length (b ∷ rest) ≤ fuel
      → Progress fuel r w (bytes ++ (b ∷ [])) rest w'
  read_plain b bytes rest zero r w w' h room plain offers enough = absurd (omega arith)
  read_plain b bytes rest (suc fuel) r w w' h room plain offers enough = record {
    fuel_left = fuel;
    receiver = stores r b;
    world = (link.receive w).1;
    enough = omega arith;
    holds = stores-Holds r bytes b h room;
    offers = offers.3;
    reads =
        receive_again link polls deadline fuel r (stores r b) b rest w w' offers
          (take_plain r bytes b h room plain);
  }

  read_special :
      (b : ℕ) (bytes rest : List ℕ) (fuel : ℕ) (r : Receiver) (w w' : World)
      → Holds r bytes
      → length bytes < host_max_body
      → (b == delimiter || b == escape) ≡ true
      → Offers link (escape ∷ bit_xor b escape_xor ∷ rest) w w'
      → length (escape ∷ bit_xor b escape_xor ∷ rest) ≤ fuel
      → Progress fuel r w (bytes ++ (b ∷ [])) rest w'
  read_special b bytes rest zero r w w' h room special offers enough = absurd (omega arith)
  read_special b bytes rest (suc zero) r w w' h room special offers enough = absurd (omega arith)
  read_special b bytes rest (suc (suc fuel)) r w w' h room special offers enough = record {
    fuel_left = fuel;
    receiver = stores r b;
    world = (link.receive (link.receive w).1).1;
    enough = omega arith;
    holds = stores-Holds r bytes b h room;
    offers = offers.3.3;
    reads =
        receive_again link polls deadline (suc fuel) r (record r { escaped = true }) escape
          (bit_xor b escape_xor ∷ rest) w w' offers (take_escape r bytes h)
        ∙ receive_again link polls deadline fuel (record r { escaped = true }) (stores r b)
            (bit_xor b escape_xor) rest (link.receive w).1 w' offers.3
            (take_escaped r bytes b h room special);
  }

  read_byte :
      (b : ℕ) (bytes rest : List ℕ) (fuel : ℕ) (r : Receiver) (w w' : World)
      → Holds r bytes
      → length bytes < host_max_body
      → Offers link (escaped_byte b ++ rest) w w'
      → length (escaped_byte b ++ rest) ≤ fuel
      → Progress fuel r w (bytes ++ (b ∷ [])) rest w'
  unfolding escaped_byte
  read_byte b bytes rest fuel r w w' h room offers enough =
      elim (Bool-cases (b == delimiter || b == escape)) [
        | inl special ↦
            let same : escaped_byte b ≡ escape ∷ bit_xor b escape_xor ∷ [] = rw special refl in
            read_special b bytes rest fuel r w w' h room special
              (subst (λ t. Offers link (t ++ rest) w w') same offers)
              (subst (λ t. length (t ++ rest) ≤ fuel) same enough)
        | inr plain ↦
            let same : escaped_byte b ≡ b ∷ [] = rw plain refl in
            read_plain b bytes rest fuel r w w' h room plain
              (subst (λ t. Offers link (t ++ rest) w w') same offers)
              (subst (λ t. length (t ++ rest) ≤ fuel) same enough)
      ]

  -- Stuffed bytes are stored, in order.
  read_stuffed :
      (more bytes rest : List ℕ) (fuel : ℕ) (r : Receiver) (w w' : World)
      → Holds r bytes
      → length bytes + length more ≤ host_max_body
      → Offers link (stuffed more ++ rest) w w'
      → length (stuffed more ++ rest) ≤ fuel
      → Progress fuel r w (bytes ++ more) rest w'
  unfolding stuffed
  read_stuffed [] bytes rest fuel r w w' h room offers enough = record {
    fuel_left = fuel;
    receiver = r;
    world = w;
    enough = enough;
    holds = rw (append-nil bytes) h;
    offers = offers;
    reads = refl;
  }
  read_stuffed (b ∷ more) bytes rest fuel r w w' h room offers enough =
      let flat = append_assoc (escaped_byte b) (stuffed more) rest in
      let first =
        read_byte b bytes (stuffed more ++ rest) fuel r w w' h (omega arith)
          (subst (λ t. Offers link t w w') flat offers)
          (subst (λ t. length t ≤ fuel) flat enough) in
      let later =
        read_stuffed more (bytes ++ (b ∷ [])) rest first.fuel_left first.receiver first.world w'
          first.holds (omega (arith, length-append bytes (b ∷ []))) first.offers first.enough in
      record {
        fuel_left = later.fuel_left;
        receiver = later.receiver;
        world = later.world;
        enough = later.enough;
        holds = rw (sym (append_assoc bytes (b ∷ []) more)) later.holds;
        offers = later.offers;
        reads = first.reads ∙ later.reads;
      }

decode_body-length :
    (body : List ℕ) (n : ℕ) (out g : Frame)
    → decode_body body n out ≡ (frame, g)
    → g.payload_length ≡ le16 body 4
unfolding decode_body
decode_body-length body n out g e = ground arith

-- What the body decoder of the firmware accepts, and is no longer than the host's limit, is valid.
response_is_valid-decode_body :
    (response : List ℕ) (count : ℕ) (out g : Frame)
    → decode_body response count out ≡ (frame, g)
    → g.payload_length ≤ host_limit
    → response_is_valid count response ≡ true
unfolding response_is_valid crc16
response_is_valid-decode_body response count out g e small =
    let taken = decode_body-IsTaken response count out g e in
    let low = taken.at_least in
    let stated = taken.stated in
    let limit : le16 response 4 ≤ host_limit =
      omega (arith, decode_body-length response count out g e) in
    rw taken.summed (ground arith)

take_opening :
    (response : List ℕ)
    → take_value (start_receiver response) delimiter
      ≡ again (record (start_receiver response) { active = true })
unfolding take_value take_delimiter
take_opening response = refl

take_closing :
    (r : Receiver) (body : List ℕ)
    → Holds r body
    → body ≢ []
    → response_is_valid r.count r.response ≡ true
    → take_value r delimiter ≡ complete r
unfolding take_value take_delimiter
take_closing r [] h filled valid = absurd (filled refl)
take_closing r (b ∷ body) h filled valid = ground (arith, h.is_active, h.plain, h.counted, valid)

module _ {World : Type 0} (link : Link World) (polls deadline : ℕ) where
  read_last :
      (fuel : ℕ) (r : Receiver) (w w' : World)
      → Offers link (delimiter ∷ []) w w'
      → 1 ≤ fuel
      → take_value r delimiter ≡ complete r
      → receive_frame link (suc polls) deadline fuel r w ≡ some (true, r, w')
  read_last zero r w w' offers enough closing = absurd (omega arith)
  read_last (suc fuel) r w w' offers enough closing =
      receive_complete link polls deadline fuel r r delimiter w w' offers closing

  -- Where the link offers a delimiter, a stuffed body and a delimiter, and the body decoder of the
  -- firmware takes the body for a frame within the limit of the host, that body is received.
  pub receive_frame-stuffed :
      (body response : List ℕ) (fuel : ℕ) (w w' : World) (out g : Frame)
      → length response ≡ host_max_body
      → body ≢ []
      → length body ≤ host_max_body
      → ((array : List ℕ)
          → take (length body) array ≡ body
          → decode_body array (length body) out ≡ (frame, g))
      → g.payload_length ≤ host_limit
      → Offers link (delimiter ∷ (stuffed body ++ (delimiter ∷ []))) w w'
      → length (delimiter ∷ (stuffed body ++ (delimiter ∷ []))) ≤ fuel
      → (r : Receiver) × (receive_frame link (suc polls) deadline fuel (start_receiver response) w
          ≡ some (true, r, w'))
        × (take (length body) r.response ≡ body)
        × (length r.response ≡ host_max_body)
  receive_frame-stuffed body response zero w w' out g size filled room decodes small offers enough =
      absurd (omega arith)
  receive_frame-stuffed body response (suc fuel) w w' out g size filled room decodes small offers
        enough =
      let opened = record (start_receiver response) { active = true } in
      let all =
        read_stuffed link polls deadline body [] (delimiter ∷ []) fuel opened (link.receive w).1 w'
          (record { is_active = refl; plain = refl; counted = refl; stored = refl; array = size })
          (omega arith) offers.3 (omega arith) in
      let closing : take_value all.receiver delimiter ≡ complete all.receiver =
        take_closing all.receiver body all.holds filled (
          rw all.holds.counted (
            response_is_valid-decode_body all.receiver.response (length body) out g
              (decodes all.receiver.response all.holds.stored) small)) in
      (
        all.receiver,
        receive_again link polls deadline fuel (start_receiver response) opened delimiter
              (stuffed body ++ (delimiter ∷ [])) w w' offers (take_opening response)
            ∙ all.reads
            ∙ read_last all.fuel_left all.receiver all.world w' all.offers all.enough closing,
        all.holds.stored,
        all.holds.array,
      )
