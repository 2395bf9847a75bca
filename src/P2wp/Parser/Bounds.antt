-- ===== src/P2wp/Parser/Bounds.antt =====
-- firmware/src/p2wp.c: the parser stays within its array whatever bytes arrive.
use p2000t_teletekst_cartrid.P2wp.Frame.{Frame, max_body, escape_xor}
use p2000t_teletekst_cartrid.P2wp.Parser.{
  Parser, parser_init, parser_store, parser_take, parser_feed,
}
use p2000t_teletekst_cartrid.Prelude.{
  ℕ, ◌≤◌, false, bit_xor, ◌≡◌, arith, length, length-set, length-replicate,
}

-- The count never passes the array, and the array keeps its size.
pub record IsParser (p : Parser) : Type 0 where
  pub within : p.count ≤ max_body
  pub array : length p.body ≡ max_body

pub parser_init-IsParser : IsParser parser_init
unfolding parser_init
parser_init-IsParser = record { within = omega arith; array = length-replicate {A = ℕ} max_body 0 }

parser_store-IsParser : (p : Parser) (byte : ℕ) → IsParser p → IsParser (parser_store p byte)
unfolding parser_store
parser_store-IsParser p byte v = ground (arith, length-set p.body p.count byte)

parser_take-IsParser : (p : Parser) (byte : ℕ) → IsParser p → IsParser (parser_take p byte)
unfolding parser_take
parser_take-IsParser p byte v = ground (
  arith,
  parser_store-IsParser p byte v,
  parser_store-IsParser (record p { escaped = false }) (bit_xor byte escape_xor),
)

-- No byte makes the parser store behind the end of its array: the count of stored bytes stays
-- within the size of the array, which stays as it is.
pub parser_feed-IsParser :
    (p : Parser) (byte : ℕ) (out : Frame) → IsParser p → IsParser (parser_feed p byte out).0
unfolding parser_feed
parser_feed-IsParser p byte out v = ground (arith, parser_take-IsParser p byte v)
