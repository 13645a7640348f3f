-- ===== src/Tunnel/IoUring/Polls.antt =====
-- Which packets the polls of script/tun-vpn/ustun.c with `USE_IO_URING` handle.
use config_env.Prelude.{
  [], ℕ, zero, suc, ◌+◌, List, ◌∷◌, ◌++◌, ◌≡◌, refl, ◌∙◌, ap, ℤ, pos, negsuc, Bool, true, false,
  ◌&&◌, drop, length, arith,
}
use config_env.Tunnel.IoUring.{Completion, Polled, with_packet, poll_entry, io_uring_poll, polls}

-- All the reads gave bytes.
abbrev pub is_read : ℤ → Bool
is_read (pos zero) = false
is_read (pos (suc n)) = true
is_read (negsuc n) = false

abbrev pub all_read : List Completion → Bool
all_read [] = true
all_read (c ∷ cs) = is_read c.res && all_read cs

abbrev pub all_rounds_read : List (List Completion) → Bool
all_rounds_read [] = true
all_rounds_read (new ∷ rounds) = all_read new && all_rounds_read rounds

abbrev pub length_of : ℤ → ℕ
length_of (pos n) = n
length_of (negsuc n) = 0

-- The specification: each completion's packet, in order.
abbrev pub packets : List Completion → List (ℕ × ℕ)
packets [] = []
packets (c ∷ cs) = (c.user_data, length_of c.res) ∷ packets cs

abbrev pub all_packets : List (List Completion) → List (ℕ × ℕ)
all_packets [] = []
all_packets (new ∷ rounds) = packets new ++ all_packets rounds

abbrev indices : List Completion → List ℕ
indices [] = []
indices (c ∷ cs) = c.user_data ∷ indices cs

poll_entry-read :
    (idx : ℕ) (r : ℤ) (p : Polled)
    → is_read r ≡ true
    → poll_entry idx r p ≡ with_packet idx (length_of r) p
poll_entry-read idx (pos zero) p h = ground arith
poll_entry-read idx (pos (suc n)) p h = refl
poll_entry-read idx (negsuc n) p h = ground arith

and_left : (a b : Bool) → (a && b) ≡ true → a ≡ true
and_left a b h = ground arith

and_right : (a b : Bool) → (a && b) ≡ true → b ≡ true
and_right a b h = ground arith

add_one : (n : ℕ) → n + 1 ≡ suc n
add_one n = omega arith

poll_read :
    (cs : List Completion)
    → all_read cs ≡ true
    → io_uring_poll cs ≡ record { handled = packets cs; armed = indices cs; count = length cs }
unfolding io_uring_poll
poll_read [] h = refl
poll_read (c ∷ cs) h =
    poll_entry-read c.user_data c.res (io_uring_poll cs) (and_left (is_read c.res) (all_read cs) h)
    ∙ ap (with_packet c.user_data (length_of c.res))
        (poll_read cs (and_right (is_read c.res) (all_read cs) h))
    ∙ ap (λ n. record { handled = packets (c ∷ cs); armed = indices (c ∷ cs); count = n })
        (add_one (length cs))

drop_all : (cs : List Completion) → drop (length cs) cs ≡ []
drop_all [] = refl
drop_all (c ∷ cs) = drop_all cs

-- As long as every read gives bytes, each packet is handled once and in order, however the completions
-- are spread over the polls, and the completion queue is empty after each of them.
pub polls-all_packets :
    (rounds : List (List Completion))
    → all_rounds_read rounds ≡ true
    → polls rounds [] ≡ (all_packets rounds, [])
unfolding polls
polls-all_packets [] h = refl
polls-all_packets (new ∷ rounds) h =
    let p = poll_read new (and_left (all_read new) (all_rounds_read rounds) h) in
    let rest = polls-all_packets rounds (and_right (all_read new) (all_rounds_read rounds) h) in
    ap
      (λ r. (r.handled ++ (polls rounds (drop r.count new)).0, (polls rounds (drop r.count new)).1))
      p
    ∙ ap (λ q. (packets new ++ (polls rounds q).0, (polls rounds q).1)) (drop_all new)
    ∙ ap (λ r. (packets new ++ r.0, r.1)) rest
