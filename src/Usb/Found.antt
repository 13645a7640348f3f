-- ===== src/Usb/Found.antt =====
-- What `find_device_by_product` of script/usb/main.c finds.
use config_env.Prelude.{
  Bool-cases, false, none, Option, ap, ◌==◌, ◌⊎◌, inl, inr, ◌↔◌, ◌≢◌, [], ℕ, zero, suc, ◌≤◌, ◌<◌,
  List, ◌∷◌, ◌++◌, ◌≡◌, refl, true, if◌then◌else◌, some, take, take_whole, length, length-append,
  arith,
}
use config_env.Usb.{
  Text, Device, same_text, product_of, decimal, port_str_size, matches, is_product, obuf_entry,
  search_devices, filled, find_device_by_product,
}
use config_env.Usb.Ports.{path_text, port_str-whole}

-- The device can be opened, and its descriptor names a string, which is the given text.
pub record HasProduct (target : Text) (d : Device) : Type 0 where
  pub descriptor : d.has_descriptor ≡ true
  pub opened : d.opens ≡ true
  pub numbered : 0 < d.i_product
  pub text : d.string ≡ some target

-- The specification: the texts are the bus and the path of the devices with the product's name, of each
-- of them and of no other, in their order.
abbrev pub Lists : Text → List Device → List Text → Type 0
Lists target [] texts = texts ≡ []
Lists target (d ∷ ds) texts =
    (HasProduct target d
      × (others : List Text) × (texts ≡ (decimal d.bus ++ b'-' ∷ path_text d.ports) ∷ others)
      × Lists target ds others)
    ⊎ ((HasProduct target d → ⊥) × Lists target ds texts)

same_text_iff : (xs ys : Text) → (same_text xs ys ≡ true) ↔ (xs ≡ ys)
same_text_iff [] [] = (λ e. refl, λ e. refl)
same_text_iff [] (y ∷ ys) = (λ e. cc, λ e. cc)
same_text_iff (x ∷ xs) [] = (λ e. cc, λ e. cc)
same_text_iff (x ∷ xs) (y ∷ ys) = ground (arith, same_text_iff xs ys)

not_unnamed : (target : Text) → target ≢ [] → is_product target (some []) ≡ false
not_unnamed [] named = absurd (named refl)
not_unnamed (x ∷ xs) named = refl

product_text : (target : Text) (o : Option Text) → is_product target o ≡ true → o ≡ some target
product_text target none h = cc
product_text target (some text) h = ap some ((same_text_iff text target).0 h)

matches-HasProduct :
    (target : Text) (d : Device) → target ≢ [] → matches target d ≡ true → HasProduct target d
unfolding matches product_of
matches-HasProduct target d named h =
    let unnamed = not_unnamed target named in
    record {
      descriptor = ground arith;
      opened = ground (arith, unnamed);
      numbered = ground (arith, unnamed);
      text = product_text target d.string (ground (arith, unnamed));
    }

HasProduct-matches : (target : Text) (d : Device) → HasProduct target d → matches target d ≡ true
unfolding matches product_of
HasProduct-matches target d p =
    let same = (same_text_iff target target).1 refl in
    let some_number : (d.i_product == 0) ≡ false = ground (arith, p.numbered) in
    rw (p.descriptor, p.opened, some_number, p.text) same

-- The same texts by the comparison of the code.
abbrev all_found : Text → List Device → List Text
all_found target [] = []
all_found target (d ∷ ds) =
    let others = all_found target ds in
    if matches target d then (decimal d.bus ++ b'-' ∷ path_text d.ports) ∷ others else others

all_found-Lists :
    (target : Text) (ds : List Device) → target ≢ [] → Lists target ds (all_found target ds)
all_found-Lists target [] named = refl
all_found-Lists target (d ∷ ds) named =
    let later = all_found-Lists target ds named in
    elim (Bool-cases (matches target d)) [
      | inl y ↦ rw y (inl (matches-HasProduct target d named y, all_found target ds, refl, later))
      | inr n ↦ rw n (inr (other n, later))
    ]
  where
    other : matches target d ≡ false → HasProduct target d → ⊥
    other n p = cc (n, HasProduct-matches target d p)

-- The paths fit.
abbrev pub AllFit : List Device → Type 0
AllFit [] = Unit {0}
AllFit (d ∷ ds) = (length (path_text d.ports) < port_str_size) × AllFit ds

length-decimal : (n : ℕ) → length (decimal n) ≤ 3
length-decimal n = ground arith

obuf_entry_whole :
    (bus : ℕ) (path : Text)
    → length path < port_str_size
    → obuf_entry bus path ≡ decimal bus ++ b'-' ∷ path
obuf_entry_whole bus path h =
    take_whole 31 (decimal bus ++ b'-' ∷ path)
      (omega (arith, length-append (decimal bus) (b'-' ∷ path), length-decimal bus))

search_devices-all_found :
    (target : Text) (ds : List Device) (room : ℕ)
    → AllFit ds
    → search_devices target (suc room) ds ≡ some (take (suc room) (all_found target ds))
unfolding search_devices
search_devices-all_found target [] room fit = refl
search_devices-all_found target (d ∷ ds) zero fit = ground (
  arith,
  port_str-whole d.ports fit.0,
  obuf_entry_whole d.bus (path_text d.ports) fit.0,
  search_devices-all_found target ds zero fit.1,
)
search_devices-all_found target (d ∷ ds) (suc room) fit = ground (
  arith,
  port_str-whole d.ports fit.0,
  obuf_entry_whole d.bus (path_text d.ports) fit.0,
  search_devices-all_found target ds (suc room) fit.1,
  search_devices-all_found target ds room fit.1,
)

-- The specified texts, of which the first ones fill the array.
pub record Reports (target : Text) (devs : List Device) (nmemb : ℕ) : Type 0 where
  pub texts : List Text
  pub lists : Lists target devs texts
  pub fills : find_device_by_product true (some devs) target nmemb ≡ filled (take nmemb texts)

-- A search for a name that is not empty reports the first `nmemb` of the devices that can be opened and
-- whose product has this name, in the order of the list, each by its bus and its path of ports, and no
-- other device. (Where the list can be had, and the paths have less than 16 characters.)
pub find_device_by_product-Reports :
    (target : Text) (devs : List Device) (nmemb : ℕ)
    → target ≢ []
    → 0 < nmemb
    → AllFit devs
    → Reports target devs nmemb
unfolding find_device_by_product
find_device_by_product-Reports target devs zero named some_room fit = absurd (omega arith)
find_device_by_product-Reports target devs (suc room) named some_room fit = record {
  texts = all_found target devs;
  lists = all_found-Lists target devs named;
  fills = ground (arith, search_devices-all_found target devs room fit);
}
