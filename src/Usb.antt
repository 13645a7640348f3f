-- ===== src/Usb.antt =====
-- script/usb/main.c: `find_device_by_product`. libusb is a parameter: the devices with what its calls
-- give for each.
pub mod Ports
pub mod Found
mod Tests
use config_env.Prelude.{
  [], ℕ, ◌+◌, ◌-◌, ◌/◌, ◌%◌, List, ◌∷◌, ◌++◌, Bool, true, false, not, ◌&&◌, ◌==◌, ltb,
  if◌then◌else◌, Option, none, some, take, length,
}

-- Characters by their codes.
abbrev pub Text : Type 0
Text = List ℕ

-- Whether the descriptor can be read and the device opened; `iProduct`, the number of the string with
-- the product's name, and that string, `none` for an error; the bus, and the ports on the way to the
-- device, at most 8 of them and none for an error.
pub record Device : Type 0 where
  pub has_descriptor : Bool
  pub opens : Bool
  pub i_product : ℕ
  pub string : Option Text
  pub bus : ℕ
  pub ports : List ℕ

-- `%d` of a byte.
abbrev pub decimal : ℕ → Text
decimal n =
    if ltb n 10
    then (b'0' + n) ∷ []
    else if ltb n 100
    then (b'0' + n / 10) ∷ (b'0' + n % 10) ∷ []
    else (b'0' + n / 100) ∷ (b'0' + n / 10 % 10) ∷ (b'0' + n % 10) ∷ []

-- `"%d%s"`
abbrev pub port_text : ℕ → (others : List ℕ) → Text
port_text port [] = decimal port
port_text port (p ∷ ps) = decimal port ++ b'.' ∷ []

abbrev pub port_str_size : ℕ
port_str_size = 16

-- The loop over the ports: `port_str` is the text in the array so far, `offset` what the calls of
-- `snprintf` have returned in all, which is also more than was written. Past the array's end the size
-- that is passed wraps around, and `snprintf` writes outside of the array: `none`.
unfoldable pub append_ports : List ℕ → (offset : ℕ) → (port_str : Text) → Option Text
append_ports [] offset port_str = some port_str
append_ports (p ∷ ps) offset port_str =
    let text = port_text p ps in
    let rest = append_ports ps (offset + length text) (
      if ltb offset port_str_size
      then port_str ++ take (port_str_size - 1 - offset) text
      else port_str) in
    if ltb port_str_size offset then none else rest

-- The array `product` after the calls for a device; `none` where the loop goes on to the next one. A
-- device that cannot be opened keeps the empty text.
unfoldable pub product_of : Device → Option Text
product_of d =
    if not d.has_descriptor
    then none
    else if not d.opens
    then some []
    else if d.i_product == 0
    then some []
    else d.string

abbrev pub same_text : Text → Text → Bool
same_text [] [] = true
same_text [] (y ∷ ys) = false
same_text (x ∷ xs) [] = false
same_text (x ∷ xs) (y ∷ ys) = x == y && same_text xs ys

abbrev pub is_product : Text → Option Text → Bool
is_product target none = false
is_product target (some product) = same_text product target

unfoldable pub matches : Text → Device → Bool
unfolding product_of
matches target d = is_product target (product_of d)

-- `snprintf(obuf[find], 32, "%d-%s", …)`
abbrev pub obuf_entry : ℕ → Text → Text
obuf_entry bus path = take 31 (decimal bus ++ b'-' ∷ path)

abbrev pub then_entry : ℕ → Option Text → Option (List Text) → Option (List Text)
then_entry bus none rest = none
then_entry bus (some path) none = none
then_entry bus (some path) (some entries) = some (obuf_entry bus path ∷ entries)

-- The loop over the devices, with `room` entries of `obuf` left, at least one.
unfoldable pub search_devices : Text → (room : ℕ) → List Device → Option (List Text)
unfolding append_ports matches
search_devices target room [] = some []
search_devices target room (d ∷ ds) =
    let others = search_devices target room ds in
    let rest = if room == 1 then some [] else search_devices target (room - 1) ds in
    if matches target d then then_entry d.bus (append_ports d.ports 0 []) rest else others

-- What is returned: -1, or the entries that were filled.
pub data Result : Type 0 where
  crashed : Result
  minus_one : Result
  filled : List Text → Result

abbrev pub result_of : Option (List Text) → Result
result_of none = crashed
result_of (some entries) = filled entries

-- `init` and `list` are what `libusb_init` and `libusb_get_device_list` come to. (`nmemb` is 0 for a
-- negative number, and the two pointers are not NULL.)
unfoldable pub find_device_by_product :
    (init : Bool) → (list : Option (List Device)) → Text → (nmemb : ℕ) → Result
unfolding search_devices
find_device_by_product init list target nmemb =
    if nmemb == 0
    then minus_one
    else if not init
    then minus_one
    else elim list [ none ↦ minus_one | some devs ↦ result_of (search_devices target nmemb devs) ]
