-- ===== src/Lib.antt =====
-- Verification of the P2000T teletekst cartridge: the firmware of the Pico in the cartridge, the
-- link protocol between it and the P2000T, and the two ends of that link put together.
--
-- The P2000T sends requests as frames over a byte stream; the firmware decodes each frame, the
-- command processor checks it, hands it to a platform operation or answers it itself, and the
-- response goes back as a frame. Custom page servers are reached by a URL that the user stores.
--
--   * P2wp (firmware/src/p2wp.{h,c}): `Frame` holds the constants and `p2wp_frame_t`, `Protocol` the
--     message types, `Crc` the checksum and `p2wp_frame_identity`, `Version` the choice of a
--     revision, `Encode` the encoder `p2wp_encode` with the bytes it writes in `Encode/Wire`,
--     `Parser` the streaming parser `p2wp_parser_feed` with its decoding, bounds and stream
--     lemmas below it, `RoundTrip` the two ends together.
--   * FirmwareCore (firmware/src/firmware_core.{h,c}): `State` holds `p2wp_firmware_core_t` and the
--     table of operations, `Commands` the command table and the validation of payloads, `Handle`
--     the handler `p2wp_firmware_core_handle`, which passes its state explicitly. The state behind
--     the platform's `void *` is the parameter `Context`; a platform operation is a function of it.
--   * CustomEndpoint (firmware/src/custom_endpoint.{h,c}): the parser of the URL of a custom server,
--     and the path of a page request.
--   * Release (firmware/src/version.{h,c}): the version in the latest release's JSON.
--   * CustomUrlStore (firmware/src/custom_url_store.{h,c}): the URL and the start setting in the
--     flash. `Flash` is the interface of the flash device: its operations, and the laws that the SDK
--     documents for them.
--   * Teletekst (firmware/src/teletekst.c): `Json` finds strings and reads their code points,
--     `Binary` decodes a screen in base64, `Links` the next subpage and the neighbouring pages, `Row`
--     is the compiler of a row of cells to the bytes of the SAA5050, which `Row/Tables` describes by
--     what each byte shows and loses. `Row/Steps` and `Row/Sound` say that the bytes draw the row,
--     `Row/Lower`, `Row/Best` and `Row/Optimal` that no others do so at a smaller loss.
--     `Style` reads the tags of a content, `Characters` its entities and the glyphs of the P2000T,
--     `Content` makes the cells of the page, and `Decode` holds the entry points, with what they accept and show below it. The static array of
--     cells is an argument, since a page is written over the one before it.
--   * Host (src/p2wp.{h,c}): the cartridge's end of the link. `Link` holds the calls of src/platform.h,
--     which are machine code and parameters, and the waits for a byte, `Framing` one frame out and one
--     in, `Transaction` requests with their retries and the HELLO. `Sending` and `Receiving` say what
--     crosses a link, `Rounds` are the rounds of the loops. `EndToEnd`, `Hello` and `Termination` put
--     the cartridge and the device together, `Starvation` is about a peripheral that babbles.
--   * Device (emulator/src/p2wp_device.c): `Ports` is the device behind the ports, which feeds the
--     parser and calls the command processor, `Serving` what it makes of a frame, and `Machine` the
--     ports as the cartridge calls them (src/platform.asm), with any clock.
--   * WifiProfile (firmware/src/wifi_profile.{h,c}): the Wi-Fi profile in the last sector of the flash,
--     encrypted; mbedTLS, the board and the flash device are parameters. `Saved` opens a record again,
--     `Pages` is about the page that is programmed, `Accepted` about its plaintext, `Loaded` a load
--     behind a store, `Kept` what a load hands out.
--   * Tests: runs on concrete inputs.
--
-- Numbers are natural numbers; where C computes in 8, 16 or 32 bits, the wrap-around is written out.
-- An array of C is a list of its whole length, a pointer into a text the list of the bytes from there
-- on. The loops are structural recursions on lists, on the count of rounds that are left, or on fuel.
-- The fuel of `decimal` is the digits of a `uint16_t`, where five are enough; that of `codepoints` is
-- the length of the text, since each call of `json_string_next` takes a byte; so is that of
-- `read_content`, and that of `apply_names`, where each name takes a byte. The waits of the
-- cartridge have fuel for polls of the port, and the loop of `receive_frame` for bytes; the fuel that
-- is enough against the device is stated in `Host/Termination`, and no fuel is enough against every
-- peripheral, as `Host/Starvation` says.
--
-- The SAA5050 is described by what compile_row takes it to do: the highest bit of a glyph swaps its
-- colours. The display of the vendored emulator complements both colours instead.
--
-- Not modelled: null pointers as arguments, the erasure of keys and plaintexts from the stack and of
-- the static page in firmware/src/wifi_profile.c, the Pico SDK glue of firmware/src/main.c,
-- certificates, the operations of the emulated device and the rest of the emulator, the Python server,
-- and the screens and keys of the Z80 application in src/.
pub mod Prelude
pub mod P2wp
pub mod FirmwareCore
pub mod CustomEndpoint
pub mod Device
pub mod Host
pub mod Release
pub mod Teletekst
pub mod Flash
pub mod CustomUrlStore
pub mod WifiProfile
mod Tests
