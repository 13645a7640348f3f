-- ===== src/Trace/Tests.antt =====
-- Examples for the theorems on libevent/ftrace/trace_hooks.c.
use config_env.Prelude.{[], ◌∷◌, ◌++◌, ◌≡◌, refl, false, ltb, if◌then◌else◌, none, some, arith}
use config_env.Trace.{Text, Symbols, Tracer, trace}
use config_env.Trace.Tree.{Calls, done, call, events, report, trace-report}

-- `./a(main+0x1) [0x9]`
abbrev file : Text
file = b'.' ∷ b'/' ∷ b'a' ∷ []

abbrev main_name : Text
main_name = b'm' ∷ b'a' ∷ b'i' ∷ b'n' ∷ []

abbrev offset : Text
offset = b'0' ∷ b'x' ∷ b'1' ∷ b')' ∷ []

abbrev symbols : Symbols
symbols addr = if ltb addr 100 then some (file ++ b'(' ∷ (main_name ++ b'+' ∷ offset)) else none

-- Function 9 calls function 8 twice.
abbrev calls : Calls
calls = call 9 (call 8 done (call 8 done done)) done

abbrev start : Tracer
start = record { in_trace = false; depth = 0; written = [] }

trace-report_example :
    trace symbols 3 70 (events calls) start
    ≡ record { in_trace = false; depth = 0; written = report symbols 0 calls }
trace-report_example = trace-report symbols 2 70 calls start refl (omega arith)
