-- ===== src/Examples/Typed.antt =====
-- The theorems on the parsers of CLI output and on the transports, on concrete texts and ports.
use flipperzero_mcp.Base.{◌∷◌, [], List, some, none, false, true, ◌⊎◌, refl, ◌≡◌, codes, Text, All}
use flipperzero_mcp.Tools.Typed.Scan.{parse_i2c-IsAddress, IsAddress}
use flipperzero_mcp.Tools.Typed.Apps.{parse_loader_list-join}
use flipperzero_mcp.Tools.Typed.{i2c_lines, parse_i2c, parse_loader_list, strip_ansi}
use flipperzero_mcp.Cli.Lines.{join_lines}
use flipperzero_mcp.Examples.Toy.{ascii}
use flipperzero_mcp.Link.{ok, raised, Exn}
use flipperzero_mcp.Transport.Wifi.{
  Wifi, is_connected, Reach, start, next, connects, Reach-usable, send, receive, connect,
}
use flipperzero_mcp.Transport.Usb.{
  Port, Host, IsFirst, auto_detect_port-IsFirst, auto_detect_port, preferred, fallback, is_flipper,
}

-- Two rows of a scan: the device at 0x3c.
abbrev scan : Text
scan = join_lines (codes "3 | - - - - - - - - - - - - # - - -" ∷ codes "4 | - -" ∷ [])

scan_found : parse_i2c scan ≡ codes "0x3c" ∷ []
unfolding parse_i2c strip_ansi i2c_lines
scan_found = refl

parse_i2c-IsAddress_example : All IsAddress (parse_i2c scan)
parse_i2c-IsAddress_example = parse_i2c-IsAddress scan

abbrev apps : List Text
apps = codes "Sub-GHz" ∷ codes "125 kHz RFID" ∷ []

parse_loader_list-join_example : parse_loader_list (join_lines (codes "Apps:" ∷ apps)) ≡ apps
parse_loader_list-join_example =
    parse_loader_list-join (codes "Apps:") apps
      (record {
        full = ((refl, (refl, (refl, (refl, (refl, tt))))), refl);
        plain = (refl, (refl, (refl, (refl, (refl, tt)))));
        colon = refl;
      })
      (
        record {
          full = ((refl, (refl, (refl, (refl, (refl, (refl, (refl, tt))))))), refl);
          plain = (refl, (refl, (refl, (refl, (refl, (refl, (refl, tt)))))));
          stripped = refl;
          no_colon = refl;
        },
        (
          record {
            full = (
              (
                refl,
                (
                  refl,
                  (
                    refl,
                    (refl, (refl, (refl, (refl, (refl, (refl, (refl, (refl, (refl, tt))))))))),
                  ),
                ),
              ),
              refl,
            );
            plain = (
              refl,
              (
                refl,
                (refl, (refl, (refl, (refl, (refl, (refl, (refl, (refl, (refl, (refl, tt)))))))))),
              ),
            );
            stripped = refl;
            no_colon = refl;
          },
          tt,
        ),
      )

abbrev new_wifi : Wifi
new_wifi = record {
  connected = false;
  has_reader = false;
  has_writer = false;
  is_closing = false;
  rx_buffer = [];
}

abbrev up_wifi : Wifi
up_wifi = record new_wifi { connected = true; has_reader = true; has_writer = true }

up_wifi-Reach : Reach up_wifi
unfolding connect
up_wifi-Reach =
    next (start (record { not_connected = refl; no_reader = refl; no_writer = refl }))
      (connects (ok tt) (ok tt) new_wifi)

Reach-usable_example :
    (send (ok tt) up_wifi ≡ (ok tt, up_wifi))
    × (receive (some 50) (ok (1 ∷ [])) up_wifi ≡ (ok (1 ∷ []), up_wifi))
    × (receive (some 50) (raised Exn.timeout_error) up_wifi ≡ (ok [], up_wifi))
    × (receive (some 50) (raised Exn.connection_lost) up_wifi
        ≡ (ok [], record up_wifi { connected = false }))
    × (is_connected (receive (some 50) (raised Exn.connection_lost) up_wifi).1 ≡ false)
Reach-usable_example = Reach-usable (ok tt) (some 50) (1 ∷ []) up_wifi-Reach refl λ e. cc e

abbrev linux : Host
linux = record { is_darwin = false; exists = λ path. true }

abbrev ports : List Port
ports =
    record { device = codes "/dev/ttyS0"; vid = none; pid = none; description = codes "n/a" }
    ∷ record {
      device = codes "/dev/ttyACM1";
      vid = some 0x0483;
      pid = some 0x5740;
      description = codes "Flipper Abc";
    }
    ∷ []

auto_detect_port-IsFirst_example :
    ((port : Port) × IsFirst linux ports port
      × (auto_detect_port linux ports ≡ preferred linux port.device))
    ⊎ (All (λ p. is_flipper linux p ≡ false) ports
        × (auto_detect_port linux ports ≡ fallback false))
auto_detect_port-IsFirst_example = auto_detect_port-IsFirst linux ports
