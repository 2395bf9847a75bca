-- ===== src/Host/Transaction.antt =====
-- src/p2wp.c: requests, the check of their responses, and the session. `response_length` is left out:
-- nothing reads it.
use p2000t_teletekst_cartrid.Host.Framing.{start_receiver, host_limit, send_frame, receive_frame}
use p2000t_teletekst_cartrid.Host.Link.{Link, deadline_reached}
use p2000t_teletekst_cartrid.P2wp.Frame.{header_size, u8, u16}
use p2000t_teletekst_cartrid.P2wp.Parser.{byte_at, le16}
use p2000t_teletekst_cartrid.P2wp.Protocol.{
  bootstrap_version, min_version, max_version, type_hello, error_unsupported_version,
}
use p2000t_teletekst_cartrid.Prelude.{
  ℕ, zero, suc, ◌+◌, ◌/◌, ◌^◌, Bool, true, false, not, ◌&&◌, ◌||◌, List, [], ◌∷◌, Option, some,
  bit_and, length, drop, ltb, ◌==◌, if◌then◌else◌, ◌>>=◌,
}

-- `enum p2wp_result`
pub data Result : Type 0 where
  ok timeout invalid incompatible remote_failure : Result

-- `p2wp_session_t`
pub record Session : Type 0 where
  pub version : ℕ
  pub capabilities : ℕ
  pub receive_limit : ℕ
  pub next_sequence : ℕ

-- `p2wp_response_t`. The payload is the view into the workspace, from its start to the end of the
-- workspace.
pub record Reply : Type 0 where
  pub flags : ℕ
  pub type : ℕ
  pub sequence : ℕ
  pub payload_length : ℕ
  pub payload : List ℕ
  pub remote_error : ℕ

-- The request workspace, as far as it is sent.
unfoldable pub build_request : ℕ → ℕ → ℕ → List ℕ → List ℕ
build_request version type sequence payload =
    version ∷ 0 ∷ type ∷ sequence ∷ u8 (length payload) ∷ u8 (length payload / 2 ^ 8) ∷ payload

-- `response_flags`: the two flags that the protocol knows.
abbrev pub known_flags : ℕ → ℕ
known_flags flags = bit_and flags 3

-- The reply that is filled in, with its error.
abbrev pub reply_of : ℕ → ℕ → List ℕ → ℕ → Reply
reply_of type sequence response remote_error = record {
  flags = byte_at response 1;
  type = type;
  sequence = sequence;
  payload_length = le16 response 4;
  payload = drop header_size response;
  remote_error = remote_error;
}

-- The result, and the caller's reply.
unfoldable pub validate_response : ℕ → ℕ → ℕ → List ℕ → Reply → Result × Reply
validate_response version type sequence response reply =
    let flags = known_flags (byte_at response 1) in
    if not (byte_at response 0 == version)
      || not (byte_at response 2 == type)
      || not (byte_at response 3 == sequence)
    then (invalid, reply)
    else if not (flags == 1) && not (flags == 3)
    then (invalid, reply)
    else if flags == 3
    then if le16 response 4 == 0
      then (invalid, reply_of type sequence response 0)
      else (remote_failure, reply_of type sequence response (byte_at response header_size))
    else (ok, reply_of type sequence response 0)

-- A result that ends the attempts.
abbrev pub is_final : Result → Bool
is_final invalid = false
is_final ok = true
is_final timeout = true
is_final incompatible = true
is_final remote_failure = true

-- What a transaction leaves: its result, the reply, the response workspace and the world.
pub record Done (World : Type 0) : Type 0 where
  pub result : Result
  pub reply : Reply
  pub response : List ℕ
  pub world : World

abbrev pub attempt_count : ℕ
attempt_count = 3

abbrev pub link_timeout : ℕ
link_timeout = 100

-- The result, and the session that a usable HELLO response opens.
unfoldable pub validate_hello : Session → Reply → Result × Session
validate_hello session reply =
    let p = reply.payload in
    if not (reply.payload_length == 8)
      || not (byte_at p 0 == b'P')
      || not (byte_at p 1 == b'2')
      || not (byte_at p 2 == b'W')
      || not (byte_at p 3 == b'P')
    then (invalid, session)
    else if ltb (byte_at p 4) min_version
        || ltb max_version (byte_at p 4)
        || not (bit_and (byte_at p 5) 0x0e == 0x0e)
        || ltb (le16 p 6) host_limit
    then (invalid, session)
    else (
      ok,
      record {
        version = byte_at p 4;
        capabilities = byte_at p 5;
        receive_limit = le16 p 6;
        next_sequence = 1;
      },
    )

abbrev pub hello_payload : List ℕ
hello_payload = b'P' ∷ b'2' ∷ b'W' ∷ b'P' ∷ min_version ∷ max_version ∷ host_limit ∷ 0 ∷ []

abbrev pub is_success : Result → Bool
is_success ok = true
is_success timeout = false
is_success invalid = false
is_success incompatible = false
is_success remote_failure = false

abbrev pub is_remote_failure : Result → Bool
is_remote_failure remote_failure = true
is_remote_failure ok = false
is_remote_failure timeout = false
is_remote_failure invalid = false
is_remote_failure incompatible = false

-- What HELLO makes of its transaction.
pub conclude_hello : {World : Type 0} → Session → Done World → Result × Session
conclude_hello session done =
    if is_remote_failure done.result && done.reply.remote_error == error_unsupported_version
    then (incompatible, session)
    else if is_success done.result
    then validate_hello session done.reply
    else (done.result, session)

module _ {World : Type 0} (link : Link World) (polls bytes : ℕ) where
  module _ (version type sequence : ℕ) (payload : List ℕ) (deadline : ℕ) where
    -- `!send_frame(...) || !receive_frame(...)`: whether both are a success.
    unfoldable pub exchange : List ℕ → World → Option (Bool × List ℕ × World)
    unfolding send_frame receive_frame build_request
    exchange response w =
        let request = build_request version type sequence payload in
        send_frame link polls deadline request (header_size + length payload) w >>= λ sent.
        if sent.0
        then (receive_frame link polls deadline bytes (start_receiver response) sent.1 >>= λ got.
            some (got.0, got.1.response, got.2))
        else some (false, response, sent.1)

    -- The loop over the attempts that are left.
    unfoldable pub attempts : ℕ → Reply → List ℕ → World → Option (Done World)
    unfolding exchange validate_response deadline_reached
    attempts zero reply response w =
        let (reached, w') = deadline_reached link deadline w in
        some (record {
          result = if reached then timeout else invalid;
          reply = reply;
          response = response;
          world = w';
        })
    attempts (suc left) reply response w = exchange response w >>= λ out.
        let (result, reply') = validate_response version type sequence out.1 reply in
        let valid = out.0 && is_final result in
        let done : Done World = record {
          result = result;
          reply = reply';
          response = out.1;
          world = out.2;
        } in
        let next = attempts left (if out.0 then reply' else reply) out.1 out.2 in
        if valid then some done else next

  unfoldable pub transact : ℕ → ℕ → ℕ → List ℕ → Reply → List ℕ → World → Option (Done World)
  unfolding attempts
  transact version type sequence payload reply response w =
      let (now, w') = link.clock w in
      attempts version type sequence payload (u16 (now + link_timeout)) attempt_count reply response
        w'

  -- `p2wp_hello`, with a local reply: the result, the session, and what the transaction left.
  unfoldable pub hello : Session → Reply → List ℕ → World → Option (Result × Session × Done World)
  unfolding transact conclude_hello validate_hello
  hello session reply response w =
      transact bootstrap_version type_hello 0 hello_payload reply response w >>= λ done.
      let (result, session') = conclude_hello session done in some (result, session', done)

  -- `p2wp_request`: what the transaction left, with its result, and the session.
  unfoldable pub request :
      Session → ℕ → List ℕ → Reply → List ℕ → World → Option (Session × Done World)
  unfolding transact
  request session type payload reply response w =
      let run =
        transact session.version type session.next_sequence payload reply response w >>= λ done.
        some (
          if is_success done.result || is_remote_failure done.result
              then record session { next_sequence = u8 (session.next_sequence + 1) }
              else session,
          done,
        ) in
      if ltb host_limit (length payload)
      then some
          (session, record { result = invalid; reply = reply; response = response; world = w })
      else run
