-- ===== src/Lib.antt =====
-- The Python package src/flipperzero_mcp: an MCP server that drives a Flipper Zero over one link (USB
-- or WiFi) that carries both the device's text CLI and its protobuf RPC.
--
-- Parts and files
--   Link          src/flipperzero_mcp/transport/base.py (FlipperTransport: receive, receive_exact, send,
--                 clear_receive_buffer). The record Link holds the transport's receive buffer, the
--                 fields of ProtobufRPC (command_id, _rpc_session_started, _last_negotiation_failure),
--                 a log of what was sent, the clock, and what the environment will do.
--   Link/Monad    coroutines over a link: exceptions, cancellation, asyncio.sleep and wait_for.
--   Proto         the messages of proto/*.proto, as far as the client reads or writes them.
--   Rpc           src/flipperzero_mcp/rpc/protobuf_rpc.py, class ProtobufRPC: Varint (_encode_varint,
--                 _read_varint), Frame (_receive_main_message and the framing), Session
--                 (_ensure_rpc_session_started, send_stop_session), Call (_send_rpc_message), System
--                 and Storage (the requests), Listing (storage_list), Write (storage_write).
--   Cli           src/flipperzero_mcp/rpc/cli_risk.py (Risk), and cli_exec of
--                 src/flipperzero_mcp/rpc/client.py (Exec).
--   Client        src/flipperzero_mcp/rpc/client.py, class FlipperClient, with Health
--                 (get_connection_health), Info (get_device_info), Reach (sequences of operations), and
--                 Machine, the abstract machine that the client follows.
--   Action        actions over any explicit state: the shape of every coroutine above the link.
--   Auto          src/flipperzero_mcp/transport/auto.py: the choice between USB and WiFi.
--   Transport     src/flipperzero_mcp/transport/__init__.py (get_transport), usb.py and wifi.py.
--   Config        src/flipperzero_mcp/config.py: FlipperConfig.
--   Firmware      src/flipperzero_mcp/firmware/: Flavor (flavor.py), Codes (codes.py), Archive, Select
--                 and Bundles (bundles.py), Device (_RPCLike of installer.py, over any state of the
--                 device) and Installer (install_bundle and its helpers).
--   Tools         src/flipperzero_mcp/tools/: Common (_common.py, and the error mapping of errors.py),
--                 Read and Change (the tools of one RPC request), Transfer (fs_push and fs_pull, over
--                 the client and the host's files), Cli (cli.py and cli_typed), Typed (cli_typed.py),
--                 Connection (connection.py), SystemInfo (systeminfo.py), Flash (firmware.py), Call (a
--                 sequence of tool calls) and Permitted (what a configuration lets be sent).
--   Examples      runs on concrete links, and the theorems applied to them.
-- The client calls the RPC layer, which calls the link; each operation runs under the client's I/O
-- lock, so none is interleaved with another, and an operation is a function of the link.
--
-- Time and the environment
-- The clock counts milliseconds (a pause of len(framed) / 80000 seconds is rounded down to them). The
-- environment is two scripts: what each call of transport.receive finds (a timeout, bytes after some
-- time, an exception) and how each call of transport.send ends. Past the end of a script nothing
-- arrives and sends succeed. Loops recur on the script or on the rounds that the code allows (five
-- bytes of a varint, three negotiation attempts, 100 continuation frames), so they need no fuel but
-- for the slices of a file, where its length is enough, since each slice takes a byte.
-- `asyncio.wait_for` sets a deadline; an await that would pass it is cancelled there, and the
-- cancellation is caught by no `except Exception`.
--
-- Parameters
-- The protobuf library is the record Codec; a theorem that needs a message to be decoded to itself
-- says so by RoundTrips. `str.lower`, which reads Unicode's tables, is the record Case. The device
-- that the installer drives is the record Device. hashlib's MD5 is Hash, the decoding of UTF-8 with
-- replacements is Decoder, the digits of Unicode are Digits, and what bundles.py takes from httpx,
-- tarfile, json, hashlib and re is Upstream. What a transport does when it is asked for its state,
-- closed and opened is the record Attempt; for the firmware tool it is a list of Turns, past whose end
-- the device stays down. A path of the host is what Python can pass to the system where file names are
-- UTF-8; any other one is a ValueError of read_bytes and write_bytes. The 600 seconds of
-- _reconnect_and_classify are 120 rounds of 5.
--
-- Not modelled: the drivers of the serial port and the socket, whose outcomes are arguments; the
-- registration of the tools, prompts and resources, and start-up; the generated protobuf modules; the
-- texts of errors and log lines (a ToolError keeps which text it is); receive_exact without a timeout,
-- which nothing calls.
pub mod Base
pub mod Proto
pub mod Link
pub mod Rpc
pub mod Cli
pub mod Client
pub mod Action
pub mod Auto
pub mod Firmware
pub mod Config
pub mod Transport
pub mod Tools
pub mod Examples
