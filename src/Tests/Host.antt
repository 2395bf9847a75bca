-- ===== src/Tests/Host.antt =====
-- src/p2wp.c with the device of emulator/src/p2wp_device.c, on concrete requests.
use p2000t_teletekst_cartrid.Device.Machine.{Machine, cartridge_link}
use p2000t_teletekst_cartrid.FirmwareCore.Handle.{
  zero_frame, init, handle, refusal, make_error, capability_byte,
}
use p2000t_teletekst_cartrid.FirmwareCore.State.{Operations}
use p2000t_teletekst_cartrid.Host.EndToEnd.{
  IsServed, request_frame, exchange-handle, All-zeros, served,
}
use p2000t_teletekst_cartrid.Host.Framing.{host_max_body, start_receiver, receive_frame}
use p2000t_teletekst_cartrid.Host.Hello.{IsReady, IsOpened, hello-IsOpened}
use p2000t_teletekst_cartrid.Host.Link.{Link}
use p2000t_teletekst_cartrid.Host.Starvation.{Babbles, receive_frame-Babbles}
use p2000t_teletekst_cartrid.Host.Termination.{Passes, transact_ends}
use p2000t_teletekst_cartrid.Host.Transaction.{ok, Session, Reply, Done, exchange, transact, hello}
use p2000t_teletekst_cartrid.P2wp.Frame.{Frame, IsFrame}
use p2000t_teletekst_cartrid.P2wp.Parser.Stream.{parser_init-IsIdle}
use p2000t_teletekst_cartrid.P2wp.Parser.{parser_init}
use p2000t_teletekst_cartrid.P2wp.Protocol.{type_device_info}
use p2000t_teletekst_cartrid.P2wp.Version.{select_version}
use p2000t_teletekst_cartrid.Prelude.{
  ℕ, suc, ◌+◌, ◌-◌, ◌%◌, ◌^◌, ◌≤◌, true, List, [], Option, none, some, replicate, ◌≡◌, refl, arith,
}

-- The monitor clock, read once a tick.
abbrev ticks : ℕ → ℕ
ticks n = n % 2 ^ 16

ticks-Passes : (deadline : ℕ) → Passes ticks (suc 65535) deadline
ticks-Passes deadline n =
    ((deadline % 2 ^ 16 + 2 ^ 16 - n % 2 ^ 16) % 2 ^ 16, omega arith, ground arith)

-- A platform that offers all that the cartridge needs, and no operation.
abbrev platform : Option (Operations ℕ)
platform = some (record {
  capabilities = some (λ n. (0x0f, n));
  version_check_start = none;
  version_check_status = none;
  wifi_scan_start = none;
  wifi_scan_status = none;
  wifi_scan_result = none;
  wifi_connect = none;
  wifi_status = none;
  wifi_profile_status = none;
  wifi_profile_connect = none;
  wifi_profile_save = none;
  wifi_profile_delete = none;
  teletekst_fetch_start = none;
  teletekst_fetch_status = none;
  teletekst_fetch_rows = none;
  teletekst_custom_url_load = none;
  teletekst_custom_url_save = none;
  teletekst_settings_load = none;
  teletekst_settings_save = none;
  clear_sensitive = none;
})

abbrev machine : Machine ℕ
machine = record {
  device = record {
    parser = parser_init;
    firmware_core = init platform 0 2;
    encoded = [];
    encoded_position = 0;
    stack = zero_frame;
  };
  reads = 0;
}

abbrev workspace : List ℕ
workspace = replicate host_max_body 0

abbrev no_session : Session
no_session = record { version = 0; capabilities = 0; receive_limit = 0; next_sequence = 0 }

abbrev no_reply : Reply
no_reply = record {
  flags = 0;
  type = 0;
  sequence = 0;
  payload_length = 0;
  payload = [];
  remote_error = 0;
}

machine-IsReady : IsReady machine
unfolding init select_version capability_byte
machine-IsReady = record {
  idle = parser_init-IsIdle;
  new = refl;
  shared = λ h. absurd (omega (arith, h));
  able = refl;
  one_byte = omega arith;
}

hello-IsOpened_example :
    (session : Session) × (done : Done (Machine ℕ)) × IsOpened machine session done.world
    × (hello (cartridge_link ticks) (suc 9) 2000 no_session no_reply workspace machine
        ≡ some (ok, session, done))
hello-IsOpened_example =
    hello-IsOpened ticks 9 2000 no_session no_reply workspace machine machine-IsReady refl
      (omega arith)

-- A request without a session is answered by an error.
abbrev info : Frame
info = request_frame 2 type_device_info 1 []

info-IsFrame : IsFrame (served info machine).1
unfolding init handle refusal make_error
info-IsFrame = record {
  version_byte = omega arith;
  flags_byte = omega arith;
  type_byte = omega arith;
  sequence_byte = omega arith;
  length_fits = omega arith;
  array_size = refl;
  payload_bytes = (omega arith, All-zeros 511);
}

info_small : (served info machine).1.payload_length ≤ 240
unfolding init handle refusal make_error
info_small = omega arith

exchange-handle_example :
    (r : List ℕ) × (m' : Machine ℕ) × IsServed info machine r m'
    × (exchange (cartridge_link ticks) (suc 9) 2000 2 type_device_info 1 [] 100 workspace machine
        ≡ some (true, r, m'))
exchange-handle_example =
    exchange-handle ticks 9 2000 100 2 type_device_info 1 [] workspace machine
      (record {
        version_byte = omega arith;
        type_byte = omega arith;
        sequence_byte = omega arith;
        payload_bytes = tt;
        small = omega arith;
      })
      parser_init-IsIdle refl info-IsFrame info_small (omega arith)

transact_ends_example :
    (done : Done (Machine ℕ)) × (transact
        (cartridge_link ticks)
        (suc 65535)
        2000
        2
        type_device_info
        1
        []
        no_reply
        workspace
        machine
      ≡ some done)
transact_ends_example =
    transact_ends ticks 65535 2000 2 type_device_info 1 [] no_reply workspace machine ticks-Passes
      (omega arith) (omega arith)

-- A peripheral that always has a delimiter.
abbrev noise : Link ℕ
noise = record {
  clock = λ n. (n, n + 1);
  status = λ n. (3, n);
  receive = λ n. (0x7e, n);
  send = λ n value. n;
}

noise-Babbles : Babbles noise (λ n. n ≡ n)
noise-Babbles = record { ready = λ w n. refl; reads = λ w n. refl; goes_on = λ w n. refl }

receive_frame-Babbles_example :
    receive_frame noise (suc 9) 100 5000 (start_receiver workspace) 0 ≡ Option.none
receive_frame-Babbles_example =
    receive_frame-Babbles noise (λ n. n ≡ n) noise-Babbles 9 100 5000 (start_receiver workspace) 0
      refl refl
