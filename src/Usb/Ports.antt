-- ===== src/Usb/Ports.antt =====
-- The path of ports in script/usb/main.c, and the array of 16 bytes that it is written to.
use config_env.Prelude.{
  [], ℕ, ◌+◌, ◌-◌, ◌<◌, List, ◌∷◌, ◌++◌, append_assoc, append-nil, ◌≡◌, sym, ap, ◌↔◌, ltb,
  if◌then◌else◌, none, some, take, length, length-append, take_whole, arith,
}
use config_env.Usb.{Text, port_text, port_str_size, append_ports}

-- The whole path, and its part before the last port.
abbrev pub path_text : List ℕ → Text
path_text [] = []
path_text (p ∷ ps) = port_text p ps ++ path_text ps

abbrev pub before_last : List ℕ → ℕ
before_last [] = 0
before_last (p ∷ []) = 0
before_last (p ∷ q ∷ ps) = length (port_text p (q ∷ ps)) + before_last (q ∷ ps)

append_ports-none_iff :
    (p : ℕ) (ps : List ℕ) (offset : ℕ) (t : Text)
    → (append_ports (p ∷ ps) offset t ≡ none) ↔ (port_str_size < offset + before_last (p ∷ ps))
unfolding append_ports
append_ports-none_iff p [] offset t = ground arith
append_ports-none_iff p (q ∷ ps) offset t = ground (
  arith,
  append_ports-none_iff q ps (offset + length (port_text p (q ∷ ps))) (
      if ltb offset port_str_size
      then t ++ take (port_str_size - 1 - offset) (port_text p (q ∷ ps))
      else t),
)

-- `snprintf` is called past the end of the array of 16 bytes, with a size that has wrapped around,
-- exactly for the paths whose ports before the last one, with their dots, take more than 16 characters.
pub port_str-overrun_iff :
    (p : ℕ) (ps : List ℕ)
    → (append_ports (p ∷ ps) 0 [] ≡ none) ↔ (port_str_size < before_last (p ∷ ps))
port_str-overrun_iff p ps = ground (arith, append_ports-none_iff p ps 0 [])

append_ports-fits :
    (ps : List ℕ) (offset : ℕ) (t : Text)
    → offset + length (path_text ps) < port_str_size
    → append_ports ps offset t ≡ some (t ++ path_text ps)
unfolding append_ports
append_ports-fits [] offset t h = ap some (sym (append-nil t))
append_ports-fits (p ∷ ps) offset t h = ground (
  arith,
  length-append (port_text p ps) (path_text ps),
  take_whole (port_str_size - 1 - offset) (port_text p ps),
  append_ports-fits ps (offset + length (port_text p ps)) (t ++ port_text p ps),
  append_assoc t (port_text p ps) (path_text ps),
)

-- A path of less than 16 characters is written as it is.
pub port_str-whole :
    (ports : List ℕ)
    → length (path_text ports) < port_str_size
    → append_ports ports 0 [] ≡ some (path_text ports)
port_str-whole ports h = append_ports-fits ports 0 [] (omega arith)
