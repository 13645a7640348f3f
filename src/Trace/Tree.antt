-- ===== src/Trace/Tree.antt =====
-- What libevent/ftrace/trace_hooks.c writes for nested calls.
use config_env.Prelude.{
  [], ℕ, zero, suc, ◌+◌, ◌-◌, ◌*◌, ◌≤◌, ◌<◌, List, ◌∷◌, ◌++◌, append_assoc, append-nil, ◌≡◌, refl,
  ◌∙◌, ap, sym, true, false, ltb, lt→ltb, if◌then◌else◌, length, length-append, replicate, arith,
}
use config_env.Trace.{
  Text, Symbols, extract_name, Tracer, enter_arrow, exit_arrow, newline, line, write_line, enter,
  leave, Event, entered, left, trace,
}
use config_env.Trace.Names.{extract_name-fits}

-- The calls of a run: none, or a call with the calls that it makes, and those after it.
pub data Calls : Type 0 where
  done : Calls
  call : (func : ℕ) (inner after : Calls) → Calls

-- The order in which the hooks are called.
abbrev pub events : Calls → List Event
events done = []
events (call func inner after) = entered func ∷ (events inner ++ left func ∷ events after)

-- How deep the calls are nested.
abbrev pub height : Calls → ℕ
height done = 0
height (call func inner after) =
    if ltb (height inner + 1) (height after) then height after else height inner + 1

length-replicate : (n c : ℕ) → length (replicate n c) ≡ n
length-replicate zero c = refl
length-replicate (suc n) c = ap suc (length-replicate n c)

back : (n : ℕ) → n + 1 - 1 ≡ n
back n = omega arith

regroup :
    (before inner after : List Text) (start end : Text)
    → (((before ++ start ∷ []) ++ inner) ++ end ∷ []) ++ after
      ≡ before ++ start ∷ (inner ++ end ∷ after)
regroup before inner after start end = simp append_assoc

module _ (symbols : Symbols) where
  -- The specification: each call shows its start, its inner calls two columns further in, and its end.
  abbrev pub report : (depth : ℕ) → Calls → List Text
  report depth done = []
  report depth (call func inner after) =
      line depth enter_arrow (extract_name symbols func 256)
      ∷ (report (depth + 1) inner
          ++ line depth exit_arrow (extract_name symbols func 256) ∷ report depth after)

  -- A hook that the helper calls while a hook runs does nothing.
  busy :
      (nested helper func : ℕ) (s : Tracer)
      → s.in_trace ≡ true
      → (enter symbols nested helper func s ≡ s) × (leave symbols nested helper func s ≡ s)
  unfolding enter
  busy zero helper func s e = (refl, refl)
  busy (suc nested) helper func s e = ground arith

  length-line :
      (depth func : ℕ) (a b c : ℕ)
      → depth ≤ 125
      → length (line depth (a ∷ b ∷ c ∷ []) (extract_name symbols func 256)) < 512
  unfolding line
  length-line depth func a b c h = omega (
    arith,
    length-append (replicate (depth * 2) b' ')
        (a ∷ b ∷ c ∷ (extract_name symbols func 256 ++ newline ∷ [])),
    length-append (extract_name symbols func 256) (newline ∷ []),
    length-replicate (depth * 2) b' ',
    extract_name-fits symbols func 256 (omega arith),
  )

  enter_lem :
      (nested helper func : ℕ) (s : Tracer)
      → s.in_trace ≡ false
      → s.depth ≤ 125
      → enter symbols (suc nested) helper func s ≡ record {
        in_trace = false;
        depth = s.depth + 1;
        written = s.written ++ line s.depth enter_arrow (extract_name symbols func 256) ∷ [];
      }
  unfolding enter write_line
  enter_lem nested helper func s idle h =
      let within : Tracer = record s { in_trace = true } in
      simp (
        idle,
        (busy nested helper helper within refl).0,
        (busy nested helper helper within refl).1,
        lt→ltb (length (line s.depth enter_arrow (extract_name symbols func 256))) 512
            (length-line s.depth func b'-' b'>' b' ' h),
      )

  leave_lem :
      (nested helper func : ℕ) (s : Tracer)
      → s.in_trace ≡ false
      → s.depth - 1 ≤ 125
      → leave symbols (suc nested) helper func s ≡ record {
        in_trace = false;
        depth = s.depth - 1;
        written = s.written ++ line (s.depth - 1) exit_arrow (extract_name symbols func 256) ∷ [];
      }
  unfolding leave write_line
  leave_lem nested helper func s idle h =
      let within : Tracer = record s { in_trace = true; depth = s.depth - 1 } in
      simp (
        idle,
        (busy nested helper helper within refl).0,
        (busy nested helper helper within refl).1,
        lt→ltb (length (line (s.depth - 1) exit_arrow (extract_name symbols func 256))) 512
            (length-line (s.depth - 1) func b'<' b'-' b' ' h),
      )

  trace-append :
      (nested helper : ℕ) (es fs : List Event) (s : Tracer)
      → trace symbols nested helper (es ++ fs) s
        ≡ trace symbols nested helper fs (trace symbols nested helper es s)
  unfolding trace
  trace-append nested helper [] fs s = refl
  trace-append nested helper (entered func ∷ es) fs s =
      trace-append nested helper es fs (enter symbols nested helper func s)
  trace-append nested helper (left func ∷ es) fs s =
      trace-append nested helper es fs (leave symbols nested helper func s)

  -- However the calls of a thread are nested, up to 126 deep, the hooks write the start and the end of
  -- each call, in the order in which they happen, both at the same indentation and with the calls that
  -- it makes two columns further in between them; at the end the depth is as before. Whether the helper
  -- that the hooks call is instrumented itself makes no difference.
  pub trace-report :
      (nested helper : ℕ) (calls : Calls) (s : Tracer)
      → s.in_trace ≡ false
      → s.depth + height calls ≤ 126
      → trace symbols (suc nested) helper (events calls) s
        ≡ record { in_trace = false; depth = s.depth; written = s.written ++ report s.depth calls }
  unfolding trace
  trace-report nested helper done s idle h =
      λ i. record { in_trace = idle i; depth = s.depth; written = sym (append-nil s.written) i }
  trace-report nested helper (call func inner after) s idle h =
      let name = extract_name symbols func 256 in
      let run = trace symbols (suc nested) helper in
      let s1 : Tracer = record {
        in_trace = false;
        depth = s.depth + 1;
        written = s.written ++ line s.depth enter_arrow name ∷ [];
      } in
      let s2 : Tracer = record s1 { written = s1.written ++ report (s.depth + 1) inner } in
      let s3 : Tracer = record {
        in_trace = false;
        depth = s.depth + 1 - 1;
        written = s2.written ++ line (s.depth + 1 - 1) exit_arrow name ∷ [];
      } in
      ap (λ t. run (events inner ++ left func ∷ events after) t)
        (enter_lem nested helper func s idle (ground arith))
      ∙ trace-append (suc nested) helper (events inner) (left func ∷ events after) s1
      ∙ ap (λ t. run (left func ∷ events after) t)
          (trace-report nested helper inner s1 refl (ground arith))
      ∙ ap (λ t. run (events after) t) (leave_lem nested helper func s2 refl (ground arith))
      ∙ trace-report nested helper after s3 refl (ground arith)
      ∙ ap
          (λ d. record {
            in_trace = false;
            depth = d;
            written = (s2.written ++ line d exit_arrow name ∷ []) ++ report d after;
          })
          (back s.depth)
      ∙ ap (λ w. record { in_trace = false; depth = s.depth; written = w })
          (regroup s.written (report (s.depth + 1) inner) (report s.depth after)
            (line s.depth enter_arrow name) (line s.depth exit_arrow name))
