-- ===== src/Drivers/Chardev/Reading.antt =====
-- Reading and writing the devices of driver/chardev/simple_chardev/chardev.c.
use config_env.Prelude.{
  [], ℕ, zero, suc, ◌≤◌, ◌<◌, List, ◌∷◌, ◌≡◌, refl, ap, true, false, ltb, if◌then◌else◌, take, drop,
  length, length-append, arith,
}
use config_env.Drivers.Chardev.{
  greeting, ReadReply, bytes, mychardev_read, keep_reading, read_all, mychardev_write,
}

-- A program that reads to the end gets `rounds` bytes at least, and does not come to the end.
record Endless (rounds count : ℕ) : Type 0 where
  pub much : rounds ≤ length (read_all rounds count).0
  pub goes_on : (read_all rounds count).1 ≡ false

some_bytes :
    (count : ℕ) → 0 < count → (n : ℕ) × (mychardev_read true count ≡ bytes (take (suc n) greeting))
unfolding mychardev_read
some_bytes zero h = absurd (omega arith)
some_bytes (suc n) h =
    (if ltb 29 (suc n) then 28 else n, ap (λ k. bytes (take k greeting)) (at_least_one n))
  where
    at_least_one :
        (n : ℕ) → (if ltb 29 (suc n) then 29 else suc n) ≡ suc (if ltb 29 (suc n) then 28 else n)
    at_least_one n = ground arith

read_more :
    (r : ReadReply) (n rounds count : ℕ)
    → r ≡ bytes (take (suc n) greeting)
    → rounds ≤ length (read_all rounds count).0
    → (read_all rounds count).1 ≡ false
    → (suc rounds ≤ length (keep_reading r (read_all rounds count)).0)
      × ((keep_reading r (read_all rounds count)).1 ≡ false)
read_more r n rounds count e much goes_on =
    rw e
      (omega (arith, length-append (take n (drop 1 greeting)) (read_all rounds count).0), goes_on)

-- Whatever size a program asks for, as long as it is not 0, and however often it reads, each read gives
-- it the start of the text once more, and none tells it that the text has ended.
read_all-Endless : (rounds count : ℕ) → 0 < count → Endless rounds count
unfolding read_all
read_all-Endless zero count h = record { much = omega arith; goes_on = refl }
read_all-Endless (suc rounds) count h =
    let (n, e) = some_bytes count h in
    let v = read_all-Endless rounds count h in
    let more = read_more (mychardev_read true count) n rounds count e v.much v.goes_on in
    record { much = more.0; goes_on = more.1 }

-- When all bytes are copied from the caller, nothing of them is printed, and the call returns their number.
full_write_shows_nothing :
    (count first : ℕ) (others : List ℕ)
    → mychardev_write 0 count (first ∷ others) ≡ record { printed = []; ret = count }
unfolding mychardev_write
full_write_shows_nothing count first others = refl
