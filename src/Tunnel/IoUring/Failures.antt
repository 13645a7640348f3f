-- ===== src/Tunnel/IoUring/Failures.antt =====
-- The polls of script/tun-vpn/ustun.c with `USE_IO_URING` after a read that fails.
use config_env.Prelude.{
  [], ℕ, zero, suc, ◌+◌, ◌≤◌, ◌<◌, List, ◌∷◌, ◌++◌, append_assoc, append-nil, ◌≡◌, refl, ◌∙◌, ap, ℤ,
  pos, negsuc, if◌then◌else◌, drop, length, arith,
}
use config_env.Tunnel.IoUring.{Completion, Polled, poll_entry, io_uring_poll, polls}
use config_env.Tunnel.IoUring.Polls.{is_read}

handled-append :
    (cs ds : List Completion)
    → (io_uring_poll (cs ++ ds)).handled ≡ (io_uring_poll cs).handled ++ (io_uring_poll ds).handled
unfolding io_uring_poll
handled-append [] ds = refl
handled-append (c ∷ cs) ds =
    entry (io_uring_poll (cs ++ ds)) (io_uring_poll cs) (io_uring_poll ds) c.user_data c.res
      (handled-append cs ds)
  where
    entry :
        (p q r : Polled) (idx : ℕ) (res : ℤ)
        → p.handled ≡ q.handled ++ r.handled
        → (poll_entry idx res p).handled ≡ (poll_entry idx res q).handled ++ r.handled
    entry p q r idx (pos zero) e = e
    entry p q r idx (pos (suc n)) e = ap (λ l. (idx, suc n) ∷ l) e
    entry p q r idx (negsuc n) e = e

count-append :
    (cs ds : List Completion)
    → (io_uring_poll (cs ++ ds)).count ≡ (io_uring_poll cs).count + (io_uring_poll ds).count
unfolding io_uring_poll
count-append [] ds = omega arith
count-append (c ∷ cs) ds =
    entry (io_uring_poll (cs ++ ds)) (io_uring_poll cs) (io_uring_poll ds) c.user_data c.res
      (count-append cs ds)
  where
    entry :
        (p q r : Polled) (idx : ℕ) (res : ℤ)
        → p.count ≡ q.count + r.count
        → (poll_entry idx res p).count ≡ (poll_entry idx res q).count + r.count
    entry p q r idx (pos zero) e = e
    entry p q r idx (pos (suc n)) e = omega arith
    entry p q r idx (negsuc n) e = e

-- The number of entries that are passed over.
abbrev pub failures : List Completion → ℕ
failures [] = 0
failures (c ∷ cs) = if is_read c.res then failures cs else failures cs + 1

count_of_reads : (cs : List Completion) → (io_uring_poll cs).count + failures cs ≡ length cs
unfolding io_uring_poll
count_of_reads [] = omega arith
count_of_reads (c ∷ cs) =
    entry (io_uring_poll cs) (failures cs) (length cs) c.user_data c.res (count_of_reads cs)
  where
    entry :
        (p : Polled) (f l : ℕ) (idx : ℕ) (res : ℤ)
        → p.count + f ≡ l
        → (poll_entry idx res p).count + (if is_read res then f else f + 1) ≡ suc l
    entry p f l idx (pos zero) e = omega arith
    entry p f l idx (pos (suc n)) e = omega arith
    entry p f l idx (negsuc n) e = omega arith

drop-keeps_last :
    (n : ℕ) (cs : List Completion) (c : Completion)
    → n ≤ length cs
    → drop n (cs ++ c ∷ []) ≡ drop n cs ++ c ∷ []
drop-keeps_last zero cs c h = refl
drop-keeps_last (suc n) [] c h = absurd (omega arith)
drop-keeps_last (suc n) (x ∷ cs) c h = drop-keeps_last n cs c (omega arith)

regroup :
    (before between behind : List (ℕ × ℕ)) (x : ℕ × ℕ)
    → (before ++ x ∷ []) ++ (((between ++ x ∷ []) ++ behind) ++ [])
      ≡ before ++ x ∷ (between ++ x ∷ behind)
regroup before between behind x = simp (append_assoc, append-nil)

-- A packet that is handled in two polls.
pub record Twice (idx len : ℕ) (handled : List (ℕ × ℕ)) : Type 0 where
  pub before : List (ℕ × ℕ)
  pub between : List (ℕ × ℕ)
  pub behind : List (ℕ × ℕ)
  pub parts : handled ≡ before ++ (idx, len) ∷ (between ++ (idx, len) ∷ behind)

-- But where a read has failed, also with `-EAGAIN` only, too few entries are given free: the packet of
-- the last completion of a poll is handled a second time by the next poll, whatever else completes.
pub failure-Twice :
    (cs new : List Completion) (idx n : ℕ)
    → 0 < failures cs
    → Twice idx
        (suc n)
        (polls ((cs ++ record { user_data = idx; res = pos (suc n) } ∷ []) ∷ new ∷ []) []).0
unfolding polls
failure-Twice cs new idx n failed =
    let last : Completion = record { user_data = idx; res = pos (suc n) } in
    let queue = cs ++ last ∷ [] in
    let count = (io_uring_poll queue).count in
    let kept = drop count cs in
    let few : count ≤ length cs = omega (arith, count-append cs (last ∷ []), count_of_reads cs) in
    record {
      before = (io_uring_poll cs).handled;
      between = (io_uring_poll kept).handled;
      behind = (io_uring_poll new).handled;
      parts =
          ap (λ h. h ++ ((io_uring_poll (drop count queue ++ new)).handled ++ []))
            (handled-append cs (last ∷ []))
          ∙ ap
              (λ q.
                ((io_uring_poll cs).handled ++ (idx, suc n) ∷ [])
                ++ ((io_uring_poll (q ++ new)).handled ++ []))
              (drop-keeps_last count cs last few)
          ∙ ap (λ h. ((io_uring_poll cs).handled ++ (idx, suc n) ∷ []) ++ (h ++ []))
              (handled-append (kept ++ last ∷ []) new)
          ∙ ap
              (λ h.
                ((io_uring_poll cs).handled ++ (idx, suc n) ∷ [])
                ++ ((h ++ (io_uring_poll new).handled) ++ []))
              (handled-append kept (last ∷ []))
          ∙ regroup (io_uring_poll cs).handled (io_uring_poll kept).handled
              (io_uring_poll new).handled (idx, suc n);
    }
