-- ===== src/Host/Rounds.antt =====
-- src/p2wp.c: the rounds of the loops of `receive_frame` and `transact`.
use p2000t_teletekst_cartrid.Host.Framing.{
  Receiver, again, failed, complete, take_value, receive_frame,
}
use p2000t_teletekst_cartrid.Host.Link.{Link, receive_byte}
use p2000t_teletekst_cartrid.Host.Transaction.{
  Reply, is_final, validate_response, exchange, attempts,
}
use p2000t_teletekst_cartrid.Prelude.{
  ℕ, List, ◌&&◌, if◌then◌else◌, suc, Bool, true, false, some, none, ◌≡◌, refl, arith,
}

module _ {World : Type 0} (link : Link World) (polls deadline bytes : ℕ) (r r' : Receiver)
    (w w' : World) where
  pub round_silent :
      receive_byte link polls deadline w ≡ some (none, w')
      → receive_frame link polls deadline (suc bytes) r w ≡ some (false, r, w')
  unfolding receive_frame
  round_silent e = rw e refl

  module _ (b : ℕ) (e : receive_byte link polls deadline w ≡ some (some b, w')) where
    pub round_again :
        take_value r b ≡ again r'
        → receive_frame link polls deadline (suc bytes) r w
          ≡ receive_frame link polls deadline bytes r' w'
    unfolding receive_frame
    round_again taken = ground arith

    pub round_failed :
        take_value r b ≡ failed r'
        → receive_frame link polls deadline (suc bytes) r w ≡ some (false, r', w')
    unfolding receive_frame
    round_failed taken = ground arith

    pub round_complete :
        take_value r b ≡ complete r'
        → receive_frame link polls deadline (suc bytes) r w ≡ some (true, r', w')
    unfolding receive_frame
    round_complete taken = ground arith

module _ {World : Type 0} (link : Link World) (polls bytes version type sequence : ℕ)
    (payload : List ℕ) (deadline left : ℕ) (reply : Reply) (response response' : List ℕ)
    (valid : Bool) (w w' : World)
    (e : exchange link polls bytes version type sequence payload deadline response w
      ≡ some (valid, response', w')) where
  pub attempt_final :
      (valid && is_final (validate_response version type sequence response' reply).0) ≡ true
      → attempts link polls bytes version type sequence payload deadline (suc left) reply response w
        ≡ some (record {
          result = (validate_response version type sequence response' reply).0;
          reply = (validate_response version type sequence response' reply).1;
          response = response';
          world = w';
        })
  unfolding attempts
  attempt_final ended = rw (e, ended) refl

  pub attempt_again :
      (valid && is_final (validate_response version type sequence response' reply).0) ≡ false
      → attempts link polls bytes version type sequence payload deadline (suc left) reply response w
        ≡ attempts link polls bytes version type sequence payload deadline left
            (if valid then (validate_response version type sequence response' reply).1 else reply)
            response'
            w'
  unfolding attempts
  attempt_again ended = rw (e, ended) refl
