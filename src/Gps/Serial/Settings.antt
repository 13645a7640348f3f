-- ===== src/Gps/Serial/Settings.antt =====
-- What the functions of script/gps/ih_serial.c do to the line.
use config_env.Prelude.{
  [], ℕ, ◌<◌, ◌≡◌, ◌⊎◌, ◌↔◌, Bool, true, false, ◌&&◌, ◌||◌, ◌==◌, if◌then◌else◌, List, ◌∷◌, none,
  some, arith,
}
use config_env.Gps.Serial.{
  Speed, b110, b300, b600, b1200, b2400, b4800, b9600, b19200, b38400, b57600, b115200, b230400,
  b460800, Termios, Calls, Result, done, failed, unsupported, is_done, Line, fd, error,
  serial_get_baudrate, serial_set_speed, set_databits, set_parity, set_stopbits, serial_set_parity,
  make_raw, ih_serial_init, ih_serial_deinit,
}

-- The rate that a constant stands for.
abbrev pub rate_of : Speed → ℕ
rate_of b110 = 110
rate_of b300 = 300
rate_of b600 = 600
rate_of b1200 = 1200
rate_of b2400 = 2400
rate_of b4800 = 4800
rate_of b9600 = 9600
rate_of b19200 = 19200
rate_of b38400 = 38400
rate_of b57600 = 57600
rate_of b115200 = 115200
rate_of b230400 = 230400
rate_of b460800 = 460800

abbrev pub has : List ℕ → ℕ → Bool
has [] n = false
has (m ∷ ms) n = n == m || has ms n

abbrev pub rates : List ℕ
rates =
    110 ∷ 300 ∷ 600 ∷ 1200 ∷ 2400 ∷ 4800 ∷ 9600 ∷ 19200 ∷ 38400 ∷ 57600 ∷ 115200 ∷ 230400 ∷ 460800
    ∷ []

-- The line runs at the rate that was asked for, if it is one of the thirteen, and at 19200 baud
-- otherwise.
pub baudrate_or_default :
    (rate : ℕ) → rate_of (serial_get_baudrate rate) ≡ (if has rates rate then rate else 19200)
unfolding serial_get_baudrate
baudrate_or_default rate = ground arith

-- The options that the three `switch` statements know: 5 to 8 bits, one or two stop bits, and the
-- characters n, N, o, O, e, E, s and S.
abbrev pub supported : (databits stopbits parity : ℕ) → Bool
supported databits stopbits parity =
    has (5 ∷ 6 ∷ 7 ∷ 8 ∷ []) databits
    && has (1 ∷ 2 ∷ []) stopbits
    && has (110 ∷ 78 ∷ 111 ∷ 79 ∷ 101 ∷ 69 ∷ 115 ∷ 83 ∷ []) parity

set_databits-known : (n : ℕ) (t : Termios) → (set_databits n t).0 ≡ has (5 ∷ 6 ∷ 7 ∷ 8 ∷ []) n
unfolding set_databits
set_databits-known n t = ground arith

set_parity-known :
    (n : ℕ) (t : Termios)
    → (set_parity n t).0 ≡ has (110 ∷ 78 ∷ 111 ∷ 79 ∷ 101 ∷ 69 ∷ 115 ∷ 83 ∷ []) n
unfolding set_parity
set_parity-known n t = ground arith

set_stopbits-known : (n : ℕ) (t : Termios) → (set_stopbits n t).0 ≡ has (1 ∷ 2 ∷ []) n
unfolding set_stopbits
set_stopbits-known n t = ground arith

-- The result of the three `switch` statements and of the call at the end.
abbrev pub outcome : Calls → Bool → Result
outcome calls known = if known then (if calls.set_parity then done else failed) else unsupported

serial_set_parity-outcome :
    (calls : Calls) (databits stopbits parity : ℕ) (crtscts xonoff : Bool) (t : Termios)
    → calls.got ≡ true
    → (serial_set_parity calls databits stopbits parity crtscts xonoff t).0
      ≡ outcome calls (supported databits stopbits parity)
unfolding serial_set_parity
serial_set_parity-outcome calls databits stopbits parity crtscts xonoff t got =
    let (data_ok, t1) = set_databits databits (make_raw xonoff t) in
    let (parity_ok, t2) = set_parity parity t1 in
    ground (
      arith,
      set_databits-known databits (make_raw xonoff t),
      set_parity-known parity t1,
      set_stopbits-known stopbits t2,
    )

-- The line keeps the settings that it had unless the call succeeds.
pub serial_set_parity-kept :
    (calls : Calls) (databits stopbits parity : ℕ) (crtscts xonoff : Bool) (t : Termios)
    → is_done (serial_set_parity calls databits stopbits parity crtscts xonoff t).0 ≡ false
    → (serial_set_parity calls databits stopbits parity crtscts xonoff t).1 ≡ t
unfolding serial_set_parity
serial_set_parity-kept calls databits stopbits parity crtscts xonoff t h = ground arith

-- The settings are refused as unsupported exactly when one of the options is unknown.
unsupported_iff :
    (calls : Calls) (databits stopbits parity : ℕ) (crtscts xonoff : Bool) (t : Termios)
    → calls.got ≡ true
    → ((serial_set_parity calls databits stopbits parity crtscts xonoff t).0 ≡ unsupported)
      ↔ (supported databits stopbits parity ≡ false)
unsupported_iff calls databits stopbits parity crtscts xonoff t got =
    let e = serial_set_parity-outcome calls databits stopbits parity crtscts xonoff t got in
    (λ h. ground arith, λ h. ground arith)

-- A line that `ih_serial_init` opened and `ih_serial_deinit` closes again has the settings and the open
-- descriptors that it had before, whatever was set in between. (The descriptor is not 0, and the last
-- call succeeds.)
deinit-init :
    (n : ℕ) (calls : Calls) (baudrate databit stopbit parity : ℕ) (rtscts xonoff : Bool) (l : Line)
    {m : ℕ} {l' : Line}
    → 0 < n
    → ih_serial_init (some n) calls baudrate databit stopbit parity rtscts xonoff l ≡ (fd m, l')
    → ((ih_serial_deinit true (some m) l').0 ≡ none)
      × ((ih_serial_deinit true (some m) l').1.settings ≡ l.settings)
      × ((ih_serial_deinit true (some m) l').1.open_fds ≡ l.open_fds)
unfolding ih_serial_init ih_serial_deinit
deinit-init n calls baudrate databit stopbit parity rtscts xonoff l pos e = ground arith

-- Where the line is opened and then refuses the speed or the options, its descriptor stays open although
-- the caller only gets an error; and the line has its old settings, or runs at the new speed already.
failed_init_leaks :
    (n : ℕ) (calls : Calls) (baudrate databit stopbit parity : ℕ) (rtscts xonoff : Bool) (l : Line)
    {r : Result} {l' : Line}
    → ih_serial_init (some n) calls baudrate databit stopbit parity rtscts xonoff l ≡ (error r, l')
    → (l'.open_fds ≡ n ∷ l.open_fds)
      × ((l'.settings ≡ l.settings) ⊎ (l'.settings.ispeed ≡ serial_get_baudrate baudrate))
unfolding ih_serial_init serial_set_speed
failed_init_leaks n calls baudrate databit stopbit parity rtscts xonoff l e = ground (
  arith,
  serial_set_parity-kept calls databit stopbit parity rtscts xonoff
      (serial_set_speed calls.set_speed baudrate l.settings).1,
)
