-- ===== src/Gps/Tests/Files.antt =====
-- Examples for the theorems on the serial line and the files of script/gps.
use config_env.Prelude.{[], ℕ, List, ◌∷◌, ◌++◌, ◌≡◌, refl, true, false, some, arith}
use config_env.Gps.Serial.{b9600, cs8, Termios, Line}
use config_env.Gps.Logs.{Turn, Recorder, gnss_log_record}
use config_env.Gps.Logs.Recorded.{
  written, bytes_in, IsLimited, all_bytes_written, gnss_log_record-IsLimited,
}
use config_env.Gps.Antenna.{Second}

abbrev terminal : Termios
terminal = record {
  ispeed = b9600;
  ospeed = b9600;
  ignbrk = false;
  brkint = false;
  parmrk = false;
  istrip = false;
  inlcr = false;
  igncr = false;
  icrnl = true;
  ixon = true;
  inpck = false;
  opost = true;
  other_oflags = 0;
  echo = true;
  echonl = false;
  icanon = true;
  isig = true;
  iexten = true;
  csize = cs8;
  parenb = false;
  parodd = false;
  cstopb = false;
  crtscts = false;
  clocal = false;
  vtime = 0;
  vmin = 1;
  others = 0;
}

abbrev line : Line
line = record { settings = terminal; open_fds = 0 ∷ 1 ∷ 2 ∷ []; gl_oldtio = terminal }

abbrev turn : List ℕ → Turn
turn bytes = record {
  bytes = bytes;
  now = 100;
  dir = some [];
  stamp = 49 ∷ [];
  found = 0;
  reopened = true;
  gl_exit = false;
}

abbrev recorder : Recorder
recorder = record {
  file = record { name = 48 ∷ []; old_size = 1; added = 7 ∷ [] };
  fsize = 2;
  closed = [];
  rotations = [];
}

-- The limit of three bytes is passed by the second read.
all_bytes_written_example :
    written (
      gnss_log_record 3 (47 ∷ []) recorder (turn (1 ∷ []) ∷ turn (2 ∷ 3 ∷ []) ∷ turn (4 ∷ []) ∷ []))
    ≡ written recorder ++ bytes_in (turn (1 ∷ []) ∷ turn (2 ∷ 3 ∷ []) ∷ turn (4 ∷ []) ∷ [])
all_bytes_written_example =
    all_bytes_written 3 (47 ∷ []) recorder (turn (1 ∷ []) ∷ turn (2 ∷ 3 ∷ []) ∷ turn (4 ∷ []) ∷ [])
      refl

recorder-IsLimited : IsLimited 3 recorder
recorder-IsLimited = record { current = omega arith; counted = refl; before = refl }

gnss_log_record-IsLimited_example :
    IsLimited 3 (gnss_log_record 3 (47 ∷ []) recorder (turn (1 ∷ []) ∷ turn (2 ∷ 3 ∷ []) ∷ []))
gnss_log_record-IsLimited_example =
    gnss_log_record-IsLimited 3 (47 ∷ []) recorder (turn (1 ∷ []) ∷ turn (2 ∷ 3 ∷ []) ∷ [])
      (omega arith) refl recorder-IsLimited

abbrev second : ℕ → ℕ → Second
second detect short = record {
  ant_detct = some detect;
  ant_short = some short;
  printed = 40;
  gl_exit = false;
}
