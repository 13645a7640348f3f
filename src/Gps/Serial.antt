-- ===== src/Gps/Serial.antt =====
-- script/gps/ih_serial.c: the serial line to the receiver.
pub mod Settings
use config_env.Prelude.{
  [], ℕ, Bool, true, false, ◌||◌, not, ◌==◌, if◌then◌else◌, ltb, List, ◌∷◌, Option, none, some,
}

-- The `B…` constants of termios.h.
pub data Speed : Type 0 where
  b110 b300 b600 b1200 b2400 b4800 b9600 b19200 b38400 b57600 b115200 b230400 b460800 : Speed

-- The `switch`, in its order; any other rate is 19200.
unfoldable pub serial_get_baudrate : ℕ → Speed
serial_get_baudrate rate =
    if rate == 460800
    then b460800
    else if rate == 230400
    then b230400
    else if rate == 115200
    then b115200
    else if rate == 57600
    then b57600
    else if rate == 38400
    then b38400
    else if rate == 19200
    then b19200
    else if rate == 9600
    then b9600
    else if rate == 4800
    then b4800
    else if rate == 2400
    then b2400
    else if rate == 1200
    then b1200
    else if rate == 600
    then b600
    else if rate == 300
    then b300
    else if rate == 110
    then b110
    else b19200

-- `CSIZE`: the four values of the two bits.
pub data CharSize : Type 0 where
  cs5 cs6 cs7 cs8 : CharSize

-- `struct termios`: the flags that the code sets or clears, `c_oflag` with `OPOST` apart, and the two
-- control characters. `others` is what the code leaves alone.
pub record Termios : Type 0 where
  pub ispeed : Speed
  pub ospeed : Speed
  pub ignbrk : Bool
  pub brkint : Bool
  pub parmrk : Bool
  pub istrip : Bool
  pub inlcr : Bool
  pub igncr : Bool
  pub icrnl : Bool
  pub ixon : Bool
  pub inpck : Bool
  pub opost : Bool
  pub other_oflags : ℕ
  pub echo : Bool
  pub echonl : Bool
  pub icanon : Bool
  pub isig : Bool
  pub iexten : Bool
  pub csize : CharSize
  pub parenb : Bool
  pub parodd : Bool
  pub cstopb : Bool
  pub crtscts : Bool
  pub clocal : Bool
  pub vtime : ℕ
  pub vmin : ℕ
  pub others : ℕ

-- The results of the calls on one line: whether `tcgetattr` and each `tcsetattr` succeed.
pub record Calls : Type 0 where
  pub got : Bool
  pub set_speed : Bool
  pub set_parity : Bool

-- A return value: 0 or the descriptor, -1, or -9.
pub data Result : Type 0 where
  done : Result
  failed : Result
  unsupported : Result

abbrev pub is_done : Result → Bool
is_done done = true
is_done failed = false
is_done unsupported = false

-- `serial_set_speed`. Where `tcgetattr` fails, `Opt` is unset; the model covers a call that succeeds.
unfoldable pub serial_set_speed : Bool → ℕ → Termios → Result × Termios
unfolding serial_get_baudrate
serial_set_speed set speed t =
    let b = serial_get_baudrate speed in
    if set then (done, record t { ispeed = b; ospeed = b }) else (failed, t)

-- The first part of `serial_set_parity`: raw input and output, and no parity.
abbrev pub make_raw : Bool → Termios → Termios
make_raw xonoff t = record t {
  ignbrk = false;
  brkint = false;
  parmrk = false;
  istrip = false;
  inlcr = false;
  igncr = false;
  icrnl = false;
  ixon = xonoff;
  opost = true;
  other_oflags = 0;
  echo = false;
  echonl = false;
  icanon = false;
  isig = false;
  iexten = false;
  csize = cs5;
  parenb = false;
}

-- The three `switch` statements on the options: what they leave, and whether they go on.
unfoldable pub set_databits : ℕ → Termios → Bool × Termios
set_databits databits t =
    if databits == 5
    then (true, record t { csize = cs5 })
    else if databits == 6
    then (true, record t { csize = cs6 })
    else if databits == 7
    then (true, record t { csize = cs7 })
    else if databits == 8
    then (true, record t { csize = cs8 })
    else (false, record t { csize = cs8 })

-- `parity` is a character: n 110, N 78, o 111, O 79, e 101, E 69, s 115, S 83.
unfoldable pub set_parity : ℕ → Termios → Bool × Termios
set_parity parity t =
    if parity == 110 || parity == 78
    then (true, record t { parenb = false; inpck = false })
    else if parity == 111 || parity == 79
    then (true, record t { parenb = true; parodd = true; inpck = true })
    else if parity == 101 || parity == 69
    then (true, record t { parenb = true; parodd = false; inpck = true })
    else if parity == 83 || parity == 115
    then (true, record t { parenb = false; cstopb = false; inpck = false })
    else (false, record t { parenb = false; inpck = false })

unfoldable pub set_stopbits : ℕ → Termios → Bool × Termios
set_stopbits stopbits t =
    if stopbits == 1
    then (true, record t { cstopb = false })
    else if stopbits == 2
    then (true, record t { cstopb = true })
    else (false, record t { cstopb = false })

-- `options.c_cc[VTIME] = -1` is 255 in an `unsigned char`.
abbrev pub set_control : Bool → Termios → Termios
set_control crtscts t = record t { vtime = 255; vmin = 1; crtscts = crtscts; clocal = true }

-- The line is only changed by the `tcsetattr` at the end.
unfoldable pub serial_set_parity :
    Calls → (databits stopbits parity : ℕ) (crtscts xonoff : Bool) → Termios → Result × Termios
unfolding set_databits set_parity set_stopbits
serial_set_parity calls databits stopbits parity crtscts xonoff t =
    let (data_ok, t1) = set_databits databits (make_raw xonoff t) in
    let (parity_ok, t2) = set_parity parity t1 in
    let (stop_ok, t3) = set_stopbits stopbits t2 in
    if not calls.got
    then (failed, t)
    else if not data_ok
    then (unsupported, t)
    else if not parity_ok
    then (unsupported, t)
    else if not stop_ok
    then (unsupported, t)
    else if calls.set_parity
    then (done, set_control crtscts t3)
    else (failed, t)

-- The line as the program sees it: its settings, the descriptors that are open, and `gl_oldtio`.
pub record Line : Type 0 where
  pub settings : Termios
  pub open_fds : List ℕ
  pub gl_oldtio : Termios

-- What the function returns: a descriptor or an error.
pub data Init : Type 0 where
  fd : ℕ → Init
  error : Result → Init

-- `opened` is what `open` returns, `none` for a negative number.
unfoldable pub ih_serial_init :
    (opened : Option ℕ)
    → Calls
    → (baudrate databit stopbit parity : ℕ) (rtscts xonoff : Bool) → Line
    → Init × Line
ih_serial_init none calls baudrate databit stopbit parity rtscts xonoff l = (error failed, l)
ih_serial_init (some n) calls baudrate databit stopbit parity rtscts xonoff l =
    let l1 = record l { open_fds = n ∷ l.open_fds; gl_oldtio = l.settings } in
    let (speed, t1) = serial_set_speed calls.set_speed baudrate l.settings in
    let (parity, t2) = serial_set_parity calls databit stopbit parity rtscts xonoff t1 in
    if not (is_done speed)
    then (error speed, record l1 { settings = t1 })
    else if not (is_done parity)
    then (error parity, record l1 { settings = t2 })
    else (fd n, record l1 { settings = t2 })

abbrev pub close : ℕ → List ℕ → List ℕ
close n [] = []
close n (m ∷ ms) = if m == n then ms else m ∷ close n ms

-- `*sfd`, `none` for -1. The result of `tcsetattr` is not looked at: `set` is whether it succeeds.
unfoldable pub ih_serial_deinit : (set : Bool) → Option ℕ → Line → Option ℕ × Line
ih_serial_deinit set none l = (none, l)
ih_serial_deinit set (some n) l =
    if ltb 0 n
    then (
      none,
      record l {
        settings = if set then l.gl_oldtio else l.settings;
        open_fds = close n l.open_fds;
      },
    )
    else (some n, l)
