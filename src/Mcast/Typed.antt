-- ===== src/Mcast/Typed.antt =====
-- What is typed into mcast/mcastclient.c and what mcast/mcastserver.c prints.
use config_env.Prelude.{
  c_string, [], ℕ, zero, suc, ◌-◌, ◌≤◌, ◌<◌, List, ◌∷◌, ◌++◌, ◌≡◌, refl, ◌∙◌, ap, ◌≢◌, ◌↔◌, Bool,
  true, not, ◌&&◌, ◌==◌, Option, none, some, take, take_whole, length, length-append, length-take,
  Bool-cases, inl, inr, arith, all_of, leb,
}
use config_env.Mcast.{
  Text, client_buflen, server_buflen, fgets, send_line, send_lines, print_datagrams, buff_size,
  receive_text,
}

abbrev pub has_no_nul : Text → Bool
has_no_nul [] = true
has_no_nul (b ∷ bs) = not (b == 0) && has_no_nul bs

c_string_whole : (xs : Text) → has_no_nul xs ≡ true → c_string xs ≡ xs
c_string_whole [] h = refl
c_string_whole (x ∷ xs) h = ground (arith, c_string_whole xs)

-- What `fgets` takes and leaves.
record Line (room : ℕ) (input line rest : Text) : Type 0 where
  whole : line ++ rest ≡ input
  fits : length line ≤ room
  clean : has_no_nul input ≡ true → (has_no_nul line ≡ true) × (has_no_nul rest ≡ true)

fgets-Line : (room : ℕ) (input : Text) → Line room input (fgets room input).0 (fgets room input).1
unfolding fgets
fgets-Line zero input = record { whole = refl; fits = omega arith; clean = λ h. (refl, h) }
fgets-Line (suc room) [] = record { whole = refl; fits = omega arith; clean = λ h. (refl, refl) }
fgets-Line (suc room) (b ∷ input) =
    let rest = fgets-Line room input in
    elim (Bool-cases (b == 10)) [
      | inl newline ↦
          rw newline (record { whole = refl; fits = omega arith; clean = λ h. ground arith })
      | inr other ↦ rw other (record {
        whole = ap (λ xs. b ∷ xs) rest.whole;
        fits = omega (arith, rest.fits);
        clean = λ h. ground (arith, rest.clean);
      })
    ]

-- What a line and those after it print.
pub record Prints (o : Option (List Text)) (input : Text) : Type 0 where
  pub sent : List Text
  pub sends : o ≡ some sent
  pub short : all_of (λ (d : Text). leb (length d) 254) sent ≡ true
  pub prints : print_datagrams sent ≡ input

step :
    (line rest input : Text) (o : Option (List Text))
    → Line (client_buflen - 1) input line rest
    → line ≢ []
    → has_no_nul input ≡ true
    → Prints o rest
    → Prints (send_line line o) input
unfolding print_datagrams
step [] rest input o l some_line clean v = absurd (some_line refl)
step (b ∷ line) rest input o l some_line clean v =
    let whole = c_string_whole (b ∷ line) (l.clean clean).0 in
    record {
      sent = c_string (b ∷ line) ∷ v.sent;
      sends = rw v.sends;
      short = ground (arith, whole, l.fits, v.short);
      prints =
          ap (λ t. c_string (take server_buflen t) ++ print_datagrams v.sent) whole
          ∙ ap (λ t. c_string t ++ print_datagrams v.sent)
              (take_whole server_buflen (b ∷ line) (omega (arith, l.fits)))
          ∙ ap (λ t. t ++ print_datagrams v.sent) whole
          ∙ ap (λ t. (b ∷ line) ++ t) v.prints
          ∙ l.whole;
    }

fgets-ne-nil : (room b : ℕ) (input : Text) → (fgets (suc room) (b ∷ input)).0 ≢ []
unfolding fgets
fgets-ne-nil room b input e = ground arith

rest_shorter :
    (room : ℕ) (input line rest : Text)
    → Line room input line rest
    → line ≢ []
    → length rest < length input
rest_shorter room input [] rest l some_line = absurd (some_line refl)
rest_shorter room input (b ∷ line) rest l some_line =
    omega (arith, length-append line rest, ap length l.whole)

-- Whatever is typed, in lines of any length but without NULs, mcastclient.c sends in datagrams of up to 254 bytes, and
-- mcastserver.c prints it again byte for byte, if all of them arrive in their order; the loop comes to
-- the end of the input.
pub send_lines-Prints :
    (fuel : ℕ) (input : Text)
    → length input < fuel
    → has_no_nul input ≡ true
    → Prints (send_lines fuel input) input
unfolding send_lines print_datagrams
send_lines-Prints zero input enough clean = absurd (omega arith)
send_lines-Prints (suc fuel) [] enough clean = record {
  sent = [];
  sends = no_more;
  short = refl;
  prints = refl;
}
  where
    no_more : send_lines (suc fuel) [] ≡ some []
    no_more = unfold fgets in refl
send_lines-Prints (suc fuel) (b ∷ input) enough clean =
    let l = fgets-Line (client_buflen - 1) (b ∷ input) in
    let some_line = fgets-ne-nil (client_buflen - 2) b input in
    let shorter = rest_shorter (client_buflen - 1) (b ∷ input) _ _ l some_line in
    step (fgets (client_buflen - 1) (b ∷ input)).0 (fgets (client_buflen - 1) (b ∷ input)).1
      (b ∷ input) _ l some_line clean
      (send_lines-Prints fuel (fgets (client_buflen - 1) (b ∷ input)).1 (omega arith)
        (l.clean clean).1)

-- simple_udpserver.c writes its NUL outside of the array exactly for the datagrams that fill it.
receive_text-none_iff :
    (datagram : Text) → (receive_text buff_size datagram ≡ none) ↔ (buff_size ≤ length datagram)
unfolding receive_text
receive_text-none_iff datagram = ground (arith, length-take buff_size datagram)
