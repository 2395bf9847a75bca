-- ===== src/Device/Ports.antt =====
-- emulator/src/p2wp_device.c: the ports of the link. The operations are those of the command
-- processor that the device holds.
use p2000t_teletekst_cartrid.FirmwareCore.Handle.{handle}
use p2000t_teletekst_cartrid.FirmwareCore.State.{Core}
use p2000t_teletekst_cartrid.P2wp.Encode.{encode}
use p2000t_teletekst_cartrid.P2wp.Frame.{Frame, max_encoded}
use p2000t_teletekst_cartrid.P2wp.Parser.{none, frame, error, Parser, byte_at, parser_feed}
use p2000t_teletekst_cartrid.Prelude.{
  ℕ, ◌+◌, not, ◌&&◌, List, [], Option, some, bit_or, length, ltb, ◌==◌, if◌then◌else◌,
}

abbrev pub tx_port : ℕ
tx_port = 0x40

abbrev pub rx_port : ℕ
rx_port = 0x41

abbrev pub status_port : ℕ
status_port = 0x42

-- The static variables of the link. `encoded` is the array up to `encoded_length`; `stack` is what
-- the local `request` holds before the parser fills it.
pub record Device (Context : Type 0) : Type 0 where
  pub parser : Parser
  pub firmware_core : Core Context
  pub encoded : List ℕ
  pub encoded_position : ℕ
  pub stack : Frame

-- The bytes of an encoded response; `p2wp_encode` returns 0 where it fails.
abbrev pub bytes_of : Option (List ℕ) → List ℕ
bytes_of Option.none = []
bytes_of (some bytes) = bytes

module _ {Context : Type 0} where
  -- What is done with a request that the parser delivers.
  unfoldable pub serve : Parser → Frame → Device Context → Device Context
  serve parser request d =
      let (core, request', response) = handle d.firmware_core request in
      record {
        parser = parser;
        firmware_core = core;
        encoded = bytes_of (encode response max_encoded);
        encoded_position = 0;
        stack = request';
      }

  unfoldable pub device_out : ℕ → ℕ → Device Context → Device Context
  unfolding serve
  device_out port value d =
      let (parser, result, request) = parser_feed d.parser value d.stack in
      if not (port == tx_port) then d else elim result [
        | frame ↦ serve parser request d
        | none ↦ record d { parser = parser; stack = request }
        | error ↦ record d { parser = parser; stack = request }
      ]

  -- The byte, and the device behind the read.
  unfoldable pub device_in : ℕ → Device Context → ℕ × Device Context
  device_in port d =
      let waiting = ltb d.encoded_position (length d.encoded) in
      if port == status_port
      then (bit_or 2 (if waiting then 1 else 0), d)
      else if port == rx_port && waiting
      then (
        byte_at d.encoded d.encoded_position,
        record d { encoded_position = d.encoded_position + 1 },
      )
      else (0xff, d)
