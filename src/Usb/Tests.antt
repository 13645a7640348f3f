-- ===== src/Usb/Tests.antt =====
-- Examples for the theorems on script/usb/main.c.
use config_env.Prelude.{[], ◌<◌, List, ◌∷◌, ◌≡◌, ◌↔◌, true, false, some, none, ◌≢◌, arith}
use config_env.Usb.{Text, Device, append_ports}
use config_env.Usb.Ports.{port_str-overrun_iff}
use config_env.Usb.Found.{Reports, find_device_by_product-Reports}

abbrev modem : Text
modem = b'm' ∷ b'o' ∷ b'd' ∷ b'e' ∷ b'm' ∷ []

-- The second device is another product, and the third cannot be opened.
abbrev devices : List Device
devices =
    record {
      has_descriptor = true;
      opens = true;
      i_product = 2;
      string = some modem;
      bus = 1;
      ports = 1 ∷ 4 ∷ [];
    }
    ∷ record {
      has_descriptor = true;
      opens = true;
      i_product = 2;
      string = some [];
      bus = 1;
      ports = 2 ∷ [];
    }
    ∷ record {
      has_descriptor = true;
      opens = false;
      i_product = 2;
      string = none;
      bus = 1;
      ports = 3 ∷ [];
    }
    ∷ record {
      has_descriptor = true;
      opens = true;
      i_product = 2;
      string = some modem;
      bus = 12;
      ports = 1 ∷ [];
    }
    ∷ []

named : modem ≢ []
named e = cc

find_device_by_product-Reports_example : Reports modem devices 2
find_device_by_product-Reports_example =
    find_device_by_product-Reports modem devices 2 named (omega arith) (omega arith)

port_str-overrun_iff_example :
    (append_ports (101 ∷ 102 ∷ 103 ∷ 104 ∷ 105 ∷ 106 ∷ []) 0 [] ≡ none) ↔ (16 < 20)
port_str-overrun_iff_example = port_str-overrun_iff 101 (102 ∷ 103 ∷ 104 ∷ 105 ∷ 106 ∷ [])
