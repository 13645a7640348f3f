-- ===== src/Drivers/Iio/Registers.antt =====
-- driver/iio/icm20608/icm20608.h: the addresses of the registers that the driver uses.
use config_env.Prelude.{ℕ}

abbrev pub xg_offs_usrh : ℕ
xg_offs_usrh = 0x13

abbrev pub yg_offs_usrh : ℕ
yg_offs_usrh = 0x15

abbrev pub zg_offs_usrh : ℕ
zg_offs_usrh = 0x17

abbrev pub smplrt_div : ℕ
smplrt_div = 0x19

abbrev pub config : ℕ
config = 0x1A

abbrev pub gyro_config : ℕ
gyro_config = 0x1B

abbrev pub accel_config : ℕ
accel_config = 0x1C

abbrev pub accel_config2 : ℕ
accel_config2 = 0x1D

abbrev pub lp_mode_cfg : ℕ
lp_mode_cfg = 0x1E

abbrev pub int_enable : ℕ
int_enable = 0x38

abbrev pub int_status : ℕ
int_status = 0x3A

abbrev pub accel_xout_h : ℕ
accel_xout_h = 0x3B

abbrev pub temp_out_h : ℕ
temp_out_h = 0x41

abbrev pub gyro_xout_h : ℕ
gyro_xout_h = 0x43

abbrev pub pwr_mgmt_1 : ℕ
pwr_mgmt_1 = 0x6B

abbrev pub pwr_mgmt_2 : ℕ
pwr_mgmt_2 = 0x6C

abbrev pub who_am_i : ℕ
who_am_i = 0x75

abbrev pub xa_offset_h : ℕ
xa_offset_h = 0x77

abbrev pub ya_offset_h : ℕ
ya_offset_h = 0x7A

abbrev pub ya_offset_l : ℕ
ya_offset_l = 0x7B

abbrev pub za_offset_l : ℕ
za_offset_l = 0x7E

abbrev pub za_offset_h : ℕ
za_offset_h = 0x7D
