-- ===== src/Gps/Tables/M8Head.antt =====
-- script/gps/main.c: the first half of `gl_ubx_m8_cfg_poll`, row by row.
use config_env.Prelude.{[], List, ◌∷◌}
use config_env.Gps.Types.{CfgPoll, cfg_poll}

unfoldable pub ubx_m8_head : List CfgPoll
ubx_m8_head =
    cfg_poll "MON-VER" (0xB5 ∷ 0x62 ∷ 0x0A ∷ 0x04 ∷ 0x00 ∷ 0x00 ∷ 0x0E ∷ 0x34 ∷ [])
    ∷ cfg_poll "CFG-ANT" (0xB5 ∷ 0x62 ∷ 0x06 ∷ 0x13 ∷ 0x00 ∷ 0x00 ∷ 0x19 ∷ 0x51 ∷ [])
    ∷ cfg_poll "CFG-DAT" (0xB5 ∷ 0x62 ∷ 0x06 ∷ 0x06 ∷ 0x00 ∷ 0x00 ∷ 0x0C ∷ 0x2A ∷ [])
    ∷ cfg_poll "CFG-DGNSS" (0xB5 ∷ 0x62 ∷ 0x06 ∷ 0x70 ∷ 0x00 ∷ 0x00 ∷ 0x76 ∷ 0x68 ∷ [])
    ∷ cfg_poll "CFG-DOSC" (0xB5 ∷ 0x62 ∷ 0x06 ∷ 0x61 ∷ 0x00 ∷ 0x00 ∷ 0x67 ∷ 0x3B ∷ [])
    ∷ cfg_poll "CFG-EKF" (0xB5 ∷ 0x62 ∷ 0x06 ∷ 0x12 ∷ 0x00 ∷ 0x00 ∷ 0x18 ∷ 0x4E ∷ [])
    ∷ cfg_poll "CFG-ESFALG" (0xB5 ∷ 0x62 ∷ 0x06 ∷ 0x56 ∷ 0x00 ∷ 0x00 ∷ 0x5C ∷ 0x1A ∷ [])
    ∷ cfg_poll "CFG-ESFGWT" (0xB5 ∷ 0x62 ∷ 0x06 ∷ 0x29 ∷ 0x00 ∷ 0x00 ∷ 0x2F ∷ 0x93 ∷ [])
    ∷ cfg_poll "CFG-ESRC" (0xB5 ∷ 0x62 ∷ 0x06 ∷ 0x60 ∷ 0x00 ∷ 0x00 ∷ 0x66 ∷ 0x38 ∷ [])
    ∷ cfg_poll "CFG-FXN" (0xB5 ∷ 0x62 ∷ 0x06 ∷ 0x0E ∷ 0x00 ∷ 0x00 ∷ 0x14 ∷ 0x42 ∷ [])
    ∷ cfg_poll "CFG-GNSS" (0xB5 ∷ 0x62 ∷ 0x06 ∷ 0x3E ∷ 0x00 ∷ 0x00 ∷ 0x44 ∷ 0xD2 ∷ [])
    ∷ cfg_poll "CFG-HNR" (0xB5 ∷ 0x62 ∷ 0x06 ∷ 0x5C ∷ 0x00 ∷ 0x00 ∷ 0x62 ∷ 0x2C ∷ [])
    ∷ cfg_poll "CFG-INF" (0xB5 ∷ 0x62 ∷ 0x06 ∷ 0x02 ∷ 0x01 ∷ 0x00 ∷ 0x00 ∷ 0x09 ∷ 0x29 ∷ [])
    ∷ cfg_poll "CFG-INF" (0xB5 ∷ 0x62 ∷ 0x06 ∷ 0x02 ∷ 0x01 ∷ 0x00 ∷ 0x01 ∷ 0x0A ∷ 0x2A ∷ [])
    ∷ cfg_poll "CFG-INF" (0xB5 ∷ 0x62 ∷ 0x06 ∷ 0x02 ∷ 0x01 ∷ 0x00 ∷ 0x03 ∷ 0x0C ∷ 0x2C ∷ [])
    ∷ cfg_poll "CFG-INF" (0xB5 ∷ 0x62 ∷ 0x06 ∷ 0x02 ∷ 0x01 ∷ 0x00 ∷ 0x0C ∷ 0x15 ∷ 0x35 ∷ [])
    ∷ cfg_poll "CFG-INF" (0xB5 ∷ 0x62 ∷ 0x06 ∷ 0x02 ∷ 0x01 ∷ 0x00 ∷ 0x0D ∷ 0x16 ∷ 0x36 ∷ [])
    ∷ cfg_poll "CFG-INF" (0xB5 ∷ 0x62 ∷ 0x06 ∷ 0x02 ∷ 0x01 ∷ 0x00 ∷ 0x0E ∷ 0x17 ∷ 0x37 ∷ [])
    ∷ cfg_poll "CFG-INF" (0xB5 ∷ 0x62 ∷ 0x06 ∷ 0x02 ∷ 0x01 ∷ 0x00 ∷ 0x0F ∷ 0x18 ∷ 0x38 ∷ [])
    ∷ cfg_poll "CFG-ITFM" (0xB5 ∷ 0x62 ∷ 0x06 ∷ 0x39 ∷ 0x00 ∷ 0x00 ∷ 0x3F ∷ 0xC3 ∷ [])
    ∷ cfg_poll "CFG-LOGFILTER" (0xB5 ∷ 0x62 ∷ 0x06 ∷ 0x47 ∷ 0x00 ∷ 0x00 ∷ 0x4D ∷ 0xED ∷ [])
    ∷ cfg_poll "CFG-MSG" (0xB5 ∷ 0x62 ∷ 0x06 ∷ 0x01 ∷ 0x02 ∷ 0x00 ∷ 0x05 ∷ 0x01 ∷ 0x0F ∷ 0x3C ∷ [])
    ∷ cfg_poll "CFG-MSG" (0xB5 ∷ 0x62 ∷ 0x06 ∷ 0x01 ∷ 0x02 ∷ 0x00 ∷ 0x05 ∷ 0x00 ∷ 0x0E ∷ 0x3B ∷ [])
    ∷ cfg_poll "CFG-MSG" (0xB5 ∷ 0x62 ∷ 0x06 ∷ 0x01 ∷ 0x02 ∷ 0x00 ∷ 0x0B ∷ 0x30 ∷ 0x44 ∷ 0x77 ∷ [])
    ∷ cfg_poll "CFG-MSG" (0xB5 ∷ 0x62 ∷ 0x06 ∷ 0x01 ∷ 0x02 ∷ 0x00 ∷ 0x0B ∷ 0x32 ∷ 0x46 ∷ 0x79 ∷ [])
    ∷ cfg_poll "CFG-MSG" (0xB5 ∷ 0x62 ∷ 0x06 ∷ 0x01 ∷ 0x02 ∷ 0x00 ∷ 0x0B ∷ 0x50 ∷ 0x64 ∷ 0x97 ∷ [])
    ∷ cfg_poll "CFG-MSG" (0xB5 ∷ 0x62 ∷ 0x06 ∷ 0x01 ∷ 0x02 ∷ 0x00 ∷ 0x0B ∷ 0x33 ∷ 0x47 ∷ 0x7A ∷ [])
    ∷ cfg_poll "CFG-MSG" (0xB5 ∷ 0x62 ∷ 0x06 ∷ 0x01 ∷ 0x02 ∷ 0x00 ∷ 0x0B ∷ 0x31 ∷ 0x45 ∷ 0x78 ∷ [])
    ∷ cfg_poll "CFG-MSG" (0xB5 ∷ 0x62 ∷ 0x06 ∷ 0x01 ∷ 0x02 ∷ 0x00 ∷ 0x0B ∷ 0x02 ∷ 0x16 ∷ 0x49 ∷ [])
    ∷ cfg_poll "CFG-MSG" (0xB5 ∷ 0x62 ∷ 0x06 ∷ 0x01 ∷ 0x02 ∷ 0x00 ∷ 0x0B ∷ 0x01 ∷ 0x15 ∷ 0x48 ∷ [])
    ∷ cfg_poll "CFG-MSG" (0xB5 ∷ 0x62 ∷ 0x06 ∷ 0x01 ∷ 0x02 ∷ 0x00 ∷ 0x0B ∷ 0x00 ∷ 0x14 ∷ 0x47 ∷ [])
    ∷ cfg_poll "CFG-MSG" (0xB5 ∷ 0x62 ∷ 0x06 ∷ 0x01 ∷ 0x02 ∷ 0x00 ∷ 0x10 ∷ 0x14 ∷ 0x2D ∷ 0x65 ∷ [])
    ∷ cfg_poll "CFG-MSG" (0xB5 ∷ 0x62 ∷ 0x06 ∷ 0x01 ∷ 0x02 ∷ 0x00 ∷ 0x10 ∷ 0x04 ∷ 0x1D ∷ 0x55 ∷ [])
    ∷ cfg_poll "CFG-MSG" (0xB5 ∷ 0x62 ∷ 0x06 ∷ 0x01 ∷ 0x02 ∷ 0x00 ∷ 0x10 ∷ 0x15 ∷ 0x2E ∷ 0x66 ∷ [])
    ∷ cfg_poll "CFG-MSG" (0xB5 ∷ 0x62 ∷ 0x06 ∷ 0x01 ∷ 0x02 ∷ 0x00 ∷ 0x10 ∷ 0x02 ∷ 0x1B ∷ 0x53 ∷ [])
    ∷ cfg_poll "CFG-MSG" (0xB5 ∷ 0x62 ∷ 0x06 ∷ 0x01 ∷ 0x02 ∷ 0x00 ∷ 0x10 ∷ 0x03 ∷ 0x1C ∷ 0x54 ∷ [])
    ∷ cfg_poll "CFG-MSG" (0xB5 ∷ 0x62 ∷ 0x06 ∷ 0x01 ∷ 0x02 ∷ 0x00 ∷ 0x10 ∷ 0x10 ∷ 0x29 ∷ 0x61 ∷ [])
    ∷ cfg_poll "CFG-MSG" (0xB5 ∷ 0x62 ∷ 0x06 ∷ 0x01 ∷ 0x02 ∷ 0x00 ∷ 0x28 ∷ 0x01 ∷ 0x32 ∷ 0x82 ∷ [])
    ∷ cfg_poll "CFG-MSG" (0xB5 ∷ 0x62 ∷ 0x06 ∷ 0x01 ∷ 0x02 ∷ 0x00 ∷ 0x28 ∷ 0x02 ∷ 0x33 ∷ 0x83 ∷ [])
    ∷ cfg_poll "CFG-MSG" (0xB5 ∷ 0x62 ∷ 0x06 ∷ 0x01 ∷ 0x02 ∷ 0x00 ∷ 0x28 ∷ 0x00 ∷ 0x31 ∷ 0x81 ∷ [])
    ∷ cfg_poll "CFG-MSG" (0xB5 ∷ 0x62 ∷ 0x06 ∷ 0x01 ∷ 0x02 ∷ 0x00 ∷ 0x04 ∷ 0x04 ∷ 0x11 ∷ 0x3D ∷ [])
    ∷ cfg_poll "CFG-MSG" (0xB5 ∷ 0x62 ∷ 0x06 ∷ 0x01 ∷ 0x02 ∷ 0x00 ∷ 0x04 ∷ 0x00 ∷ 0x0D ∷ 0x39 ∷ [])
    ∷ cfg_poll "CFG-MSG" (0xB5 ∷ 0x62 ∷ 0x06 ∷ 0x01 ∷ 0x02 ∷ 0x00 ∷ 0x04 ∷ 0x02 ∷ 0x0F ∷ 0x3B ∷ [])
    ∷ cfg_poll "CFG-MSG" (0xB5 ∷ 0x62 ∷ 0x06 ∷ 0x01 ∷ 0x02 ∷ 0x00 ∷ 0x04 ∷ 0x03 ∷ 0x10 ∷ 0x3C ∷ [])
    ∷ cfg_poll "CFG-MSG" (0xB5 ∷ 0x62 ∷ 0x06 ∷ 0x01 ∷ 0x02 ∷ 0x00 ∷ 0x04 ∷ 0x01 ∷ 0x0E ∷ 0x3A ∷ [])
    ∷ cfg_poll "CFG-MSG" (0xB5 ∷ 0x62 ∷ 0x06 ∷ 0x01 ∷ 0x02 ∷ 0x00 ∷ 0x21 ∷ 0x0E ∷ 0x38 ∷ 0x81 ∷ [])
    ∷ cfg_poll "CFG-MSG" (0xB5 ∷ 0x62 ∷ 0x06 ∷ 0x01 ∷ 0x02 ∷ 0x00 ∷ 0x21 ∷ 0x08 ∷ 0x32 ∷ 0x7B ∷ [])
    ∷ cfg_poll "CFG-MSG" (0xB5 ∷ 0x62 ∷ 0x06 ∷ 0x01 ∷ 0x02 ∷ 0x00 ∷ 0x21 ∷ 0x0F ∷ 0x39 ∷ 0x82 ∷ [])
    ∷ cfg_poll "CFG-MSG" (0xB5 ∷ 0x62 ∷ 0x06 ∷ 0x01 ∷ 0x02 ∷ 0x00 ∷ 0x21 ∷ 0x0B ∷ 0x35 ∷ 0x7E ∷ [])
    ∷ cfg_poll "CFG-MSG" (0xB5 ∷ 0x62 ∷ 0x06 ∷ 0x01 ∷ 0x02 ∷ 0x00 ∷ 0x21 ∷ 0x0D ∷ 0x37 ∷ 0x80 ∷ [])
    ∷ cfg_poll "CFG-MSG" (0xB5 ∷ 0x62 ∷ 0x06 ∷ 0x01 ∷ 0x02 ∷ 0x00 ∷ 0x13 ∷ 0x60 ∷ 0x7C ∷ 0xB7 ∷ [])
    ∷ cfg_poll "CFG-MSG" (0xB5 ∷ 0x62 ∷ 0x06 ∷ 0x01 ∷ 0x02 ∷ 0x00 ∷ 0x13 ∷ 0x80 ∷ 0x9C ∷ 0xD7 ∷ [])
    ∷ cfg_poll "CFG-MSG" (0xB5 ∷ 0x62 ∷ 0x06 ∷ 0x01 ∷ 0x02 ∷ 0x00 ∷ 0x13 ∷ 0x21 ∷ 0x3D ∷ 0x78 ∷ [])
    ∷ cfg_poll "CFG-MSG" (0xB5 ∷ 0x62 ∷ 0x06 ∷ 0x01 ∷ 0x02 ∷ 0x00 ∷ 0x13 ∷ 0x10 ∷ 0x2C ∷ 0x67 ∷ [])
    ∷ cfg_poll "CFG-MSG" (0xB5 ∷ 0x62 ∷ 0x06 ∷ 0x01 ∷ 0x02 ∷ 0x00 ∷ 0x0A ∷ 0x36 ∷ 0x49 ∷ 0x7B ∷ [])
    ∷ cfg_poll "CFG-MSG" (0xB5 ∷ 0x62 ∷ 0x06 ∷ 0x01 ∷ 0x02 ∷ 0x00 ∷ 0x0A ∷ 0x0B ∷ 0x1E ∷ 0x50 ∷ [])
    ∷ cfg_poll "CFG-MSG" (0xB5 ∷ 0x62 ∷ 0x06 ∷ 0x01 ∷ 0x02 ∷ 0x00 ∷ 0x0A ∷ 0x37 ∷ 0x4A ∷ 0x7C ∷ [])
    ∷ cfg_poll "CFG-MSG" (0xB5 ∷ 0x62 ∷ 0x06 ∷ 0x01 ∷ 0x02 ∷ 0x00 ∷ 0x0A ∷ 0x09 ∷ 0x1C ∷ 0x4E ∷ [])
    ∷ cfg_poll "CFG-MSG" (0xB5 ∷ 0x62 ∷ 0x06 ∷ 0x01 ∷ 0x02 ∷ 0x00 ∷ 0x0A ∷ 0x02 ∷ 0x15 ∷ 0x47 ∷ [])
    ∷ cfg_poll "CFG-MSG" (0xB5 ∷ 0x62 ∷ 0x06 ∷ 0x01 ∷ 0x02 ∷ 0x00 ∷ 0x0A ∷ 0x06 ∷ 0x19 ∷ 0x4B ∷ [])
    ∷ cfg_poll "CFG-MSG" (0xB5 ∷ 0x62 ∷ 0x06 ∷ 0x01 ∷ 0x02 ∷ 0x00 ∷ 0x0A ∷ 0x35 ∷ 0x48 ∷ 0x7A ∷ [])
    ∷ cfg_poll "CFG-MSG" (0xB5 ∷ 0x62 ∷ 0x06 ∷ 0x01 ∷ 0x02 ∷ 0x00 ∷ 0x0A ∷ 0x38 ∷ 0x4B ∷ 0x7D ∷ [])
    ∷ cfg_poll "CFG-MSG" (0xB5 ∷ 0x62 ∷ 0x06 ∷ 0x01 ∷ 0x02 ∷ 0x00 ∷ 0x0A ∷ 0x07 ∷ 0x1A ∷ 0x4C ∷ [])
    ∷ cfg_poll "CFG-MSG" (0xB5 ∷ 0x62 ∷ 0x06 ∷ 0x01 ∷ 0x02 ∷ 0x00 ∷ 0x0A ∷ 0x21 ∷ 0x34 ∷ 0x66 ∷ [])
    ∷ cfg_poll "CFG-MSG" (0xB5 ∷ 0x62 ∷ 0x06 ∷ 0x01 ∷ 0x02 ∷ 0x00 ∷ 0x0A ∷ 0x2E ∷ 0x41 ∷ 0x73 ∷ [])
    ∷ cfg_poll "CFG-MSG" (0xB5 ∷ 0x62 ∷ 0x06 ∷ 0x01 ∷ 0x02 ∷ 0x00 ∷ 0x0A ∷ 0x31 ∷ 0x44 ∷ 0x76 ∷ [])
    ∷ cfg_poll "CFG-MSG" (0xB5 ∷ 0x62 ∷ 0x06 ∷ 0x01 ∷ 0x02 ∷ 0x00 ∷ 0x0A ∷ 0x39 ∷ 0x4C ∷ 0x7E ∷ [])
    ∷ cfg_poll "CFG-MSG" (0xB5 ∷ 0x62 ∷ 0x06 ∷ 0x01 ∷ 0x02 ∷ 0x00 ∷ 0x0A ∷ 0x08 ∷ 0x1B ∷ 0x4D ∷ [])
    ∷ cfg_poll "CFG-MSG" (0xB5 ∷ 0x62 ∷ 0x06 ∷ 0x01 ∷ 0x02 ∷ 0x00 ∷ 0x01 ∷ 0x60 ∷ 0x6A ∷ 0x93 ∷ [])
    ∷ cfg_poll "CFG-MSG" (0xB5 ∷ 0x62 ∷ 0x06 ∷ 0x01 ∷ 0x02 ∷ 0x00 ∷ 0x01 ∷ 0x05 ∷ 0x0F ∷ 0x38 ∷ [])
    ∷ cfg_poll "CFG-MSG" (0xB5 ∷ 0x62 ∷ 0x06 ∷ 0x01 ∷ 0x02 ∷ 0x00 ∷ 0x01 ∷ 0x22 ∷ 0x2C ∷ 0x55 ∷ [])
    ∷ cfg_poll "CFG-MSG" (0xB5 ∷ 0x62 ∷ 0x06 ∷ 0x01 ∷ 0x02 ∷ 0x00 ∷ 0x01 ∷ 0x36 ∷ 0x40 ∷ 0x69 ∷ [])
    ∷ cfg_poll "CFG-MSG" (0xB5 ∷ 0x62 ∷ 0x06 ∷ 0x01 ∷ 0x02 ∷ 0x00 ∷ 0x01 ∷ 0x31 ∷ 0x3B ∷ 0x64 ∷ [])
    ∷ cfg_poll "CFG-MSG" (0xB5 ∷ 0x62 ∷ 0x06 ∷ 0x01 ∷ 0x02 ∷ 0x00 ∷ 0x01 ∷ 0x04 ∷ 0x0E ∷ 0x37 ∷ [])
    ∷ cfg_poll "CFG-MSG" (0xB5 ∷ 0x62 ∷ 0x06 ∷ 0x01 ∷ 0x02 ∷ 0x00 ∷ 0x01 ∷ 0x3D ∷ 0x47 ∷ 0x70 ∷ [])
    ∷ cfg_poll "CFG-MSG" (0xB5 ∷ 0x62 ∷ 0x06 ∷ 0x01 ∷ 0x02 ∷ 0x00 ∷ 0x01 ∷ 0x40 ∷ 0x4A ∷ 0x73 ∷ [])
    ∷ cfg_poll "CFG-MSG" (0xB5 ∷ 0x62 ∷ 0x06 ∷ 0x01 ∷ 0x02 ∷ 0x00 ∷ 0x01 ∷ 0x61 ∷ 0x6B ∷ 0x94 ∷ [])
    ∷ cfg_poll "CFG-MSG" (0xB5 ∷ 0x62 ∷ 0x06 ∷ 0x01 ∷ 0x02 ∷ 0x00 ∷ 0x01 ∷ 0x39 ∷ 0x43 ∷ 0x6C ∷ [])
    ∷ cfg_poll "CFG-MSG" (0xB5 ∷ 0x62 ∷ 0x06 ∷ 0x01 ∷ 0x02 ∷ 0x00 ∷ 0x01 ∷ 0x13 ∷ 0x1D ∷ 0x46 ∷ [])
    ∷ cfg_poll "CFG-MSG" (0xB5 ∷ 0x62 ∷ 0x06 ∷ 0x01 ∷ 0x02 ∷ 0x00 ∷ 0x01 ∷ 0x14 ∷ 0x1E ∷ 0x47 ∷ [])
    ∷ cfg_poll "CFG-MSG" (0xB5 ∷ 0x62 ∷ 0x06 ∷ 0x01 ∷ 0x02 ∷ 0x00 ∷ 0x01 ∷ 0x28 ∷ 0x32 ∷ 0x5B ∷ [])
    ∷ cfg_poll "CFG-MSG" (0xB5 ∷ 0x62 ∷ 0x06 ∷ 0x01 ∷ 0x02 ∷ 0x00 ∷ 0x01 ∷ 0x09 ∷ 0x13 ∷ 0x3C ∷ [])
    ∷ cfg_poll "CFG-MSG" (0xB5 ∷ 0x62 ∷ 0x06 ∷ 0x01 ∷ 0x02 ∷ 0x00 ∷ 0x01 ∷ 0x34 ∷ 0x3E ∷ 0x67 ∷ [])
    ∷ cfg_poll "CFG-MSG" (0xB5 ∷ 0x62 ∷ 0x06 ∷ 0x01 ∷ 0x02 ∷ 0x00 ∷ 0x01 ∷ 0x62 ∷ 0x6C ∷ 0x95 ∷ [])
    ∷ cfg_poll "CFG-MSG" (0xB5 ∷ 0x62 ∷ 0x06 ∷ 0x01 ∷ 0x02 ∷ 0x00 ∷ 0x01 ∷ 0x01 ∷ 0x0B ∷ 0x34 ∷ [])
    ∷ cfg_poll "CFG-MSG" (0xB5 ∷ 0x62 ∷ 0x06 ∷ 0x01 ∷ 0x02 ∷ 0x00 ∷ 0x01 ∷ 0x02 ∷ 0x0C ∷ 0x35 ∷ [])
    ∷ cfg_poll "CFG-MSG" (0xB5 ∷ 0x62 ∷ 0x06 ∷ 0x01 ∷ 0x02 ∷ 0x00 ∷ 0x01 ∷ 0x17 ∷ 0x21 ∷ 0x4A ∷ [])
    ∷ cfg_poll "CFG-MSG" (0xB5 ∷ 0x62 ∷ 0x06 ∷ 0x01 ∷ 0x02 ∷ 0x00 ∷ 0x01 ∷ 0x07 ∷ 0x11 ∷ 0x3A ∷ [])
    ∷ cfg_poll "CFG-MSG" (0xB5 ∷ 0x62 ∷ 0x06 ∷ 0x01 ∷ 0x02 ∷ 0x00 ∷ 0x01 ∷ 0x3C ∷ 0x46 ∷ 0x6F ∷ [])
    ∷ cfg_poll "CFG-MSG" (0xB5 ∷ 0x62 ∷ 0x06 ∷ 0x01 ∷ 0x02 ∷ 0x00 ∷ 0x01 ∷ 0x35 ∷ 0x3F ∷ 0x68 ∷ [])
    ∷ cfg_poll "CFG-MSG" (0xB5 ∷ 0x62 ∷ 0x06 ∷ 0x01 ∷ 0x02 ∷ 0x00 ∷ 0x01 ∷ 0x32 ∷ 0x3C ∷ 0x65 ∷ [])
    ∷ cfg_poll "CFG-MSG" (0xB5 ∷ 0x62 ∷ 0x06 ∷ 0x01 ∷ 0x02 ∷ 0x00 ∷ 0x01 ∷ 0x43 ∷ 0x4D ∷ 0x76 ∷ [])
    ∷ cfg_poll "CFG-MSG" (0xB5 ∷ 0x62 ∷ 0x06 ∷ 0x01 ∷ 0x02 ∷ 0x00 ∷ 0x01 ∷ 0x42 ∷ 0x4C ∷ 0x75 ∷ [])
    ∷ cfg_poll "CFG-MSG" (0xB5 ∷ 0x62 ∷ 0x06 ∷ 0x01 ∷ 0x02 ∷ 0x00 ∷ 0x01 ∷ 0x06 ∷ 0x10 ∷ 0x39 ∷ [])
    ∷ cfg_poll "CFG-MSG" (0xB5 ∷ 0x62 ∷ 0x06 ∷ 0x01 ∷ 0x02 ∷ 0x00 ∷ 0x01 ∷ 0x03 ∷ 0x0D ∷ 0x36 ∷ [])
    ∷ cfg_poll "CFG-MSG" (0xB5 ∷ 0x62 ∷ 0x06 ∷ 0x01 ∷ 0x02 ∷ 0x00 ∷ 0x01 ∷ 0x30 ∷ 0x3A ∷ 0x63 ∷ [])
    ∷ cfg_poll "CFG-MSG" (0xB5 ∷ 0x62 ∷ 0x06 ∷ 0x01 ∷ 0x02 ∷ 0x00 ∷ 0x01 ∷ 0x3B ∷ 0x45 ∷ 0x6E ∷ [])
    ∷ cfg_poll "CFG-MSG" (0xB5 ∷ 0x62 ∷ 0x06 ∷ 0x01 ∷ 0x02 ∷ 0x00 ∷ 0x01 ∷ 0x24 ∷ 0x2E ∷ 0x57 ∷ [])
    ∷ cfg_poll "CFG-MSG" (0xB5 ∷ 0x62 ∷ 0x06 ∷ 0x01 ∷ 0x02 ∷ 0x00 ∷ 0x01 ∷ 0x25 ∷ 0x2F ∷ 0x58 ∷ [])
    ∷ cfg_poll "CFG-MSG" (0xB5 ∷ 0x62 ∷ 0x06 ∷ 0x01 ∷ 0x02 ∷ 0x00 ∷ 0x01 ∷ 0x23 ∷ 0x2D ∷ 0x56 ∷ [])
    ∷ cfg_poll "CFG-MSG" (0xB5 ∷ 0x62 ∷ 0x06 ∷ 0x01 ∷ 0x02 ∷ 0x00 ∷ 0x01 ∷ 0x20 ∷ 0x2A ∷ 0x53 ∷ [])
    ∷ cfg_poll "CFG-MSG" (0xB5 ∷ 0x62 ∷ 0x06 ∷ 0x01 ∷ 0x02 ∷ 0x00 ∷ 0x01 ∷ 0x26 ∷ 0x30 ∷ 0x59 ∷ [])
    ∷ cfg_poll "CFG-MSG" (0xB5 ∷ 0x62 ∷ 0x06 ∷ 0x01 ∷ 0x02 ∷ 0x00 ∷ 0x01 ∷ 0x63 ∷ 0x6D ∷ 0x96 ∷ [])
    ∷ cfg_poll "CFG-MSG" (0xB5 ∷ 0x62 ∷ 0x06 ∷ 0x01 ∷ 0x02 ∷ 0x00 ∷ 0x01 ∷ 0x27 ∷ 0x31 ∷ 0x5A ∷ [])
    ∷ cfg_poll "CFG-MSG" (0xB5 ∷ 0x62 ∷ 0x06 ∷ 0x01 ∷ 0x02 ∷ 0x00 ∷ 0x01 ∷ 0x64 ∷ 0x6E ∷ 0x97 ∷ [])
    ∷ cfg_poll "CFG-MSG" (0xB5 ∷ 0x62 ∷ 0x06 ∷ 0x01 ∷ 0x02 ∷ 0x00 ∷ 0x01 ∷ 0x21 ∷ 0x2B ∷ 0x54 ∷ [])
    ∷ cfg_poll "CFG-MSG" (0xB5 ∷ 0x62 ∷ 0x06 ∷ 0x01 ∷ 0x02 ∷ 0x00 ∷ 0x01 ∷ 0x11 ∷ 0x1B ∷ 0x44 ∷ [])
    ∷ cfg_poll "CFG-MSG" (0xB5 ∷ 0x62 ∷ 0x06 ∷ 0x01 ∷ 0x02 ∷ 0x00 ∷ 0x01 ∷ 0x12 ∷ 0x1C ∷ 0x45 ∷ [])
    ∷ cfg_poll "CFG-MSG" (0xB5 ∷ 0x62 ∷ 0x06 ∷ 0x01 ∷ 0x02 ∷ 0x00 ∷ 0x29 ∷ 0x22 ∷ 0x54 ∷ 0xA5 ∷ [])
    ∷ cfg_poll "CFG-MSG" (0xB5 ∷ 0x62 ∷ 0x06 ∷ 0x01 ∷ 0x02 ∷ 0x00 ∷ 0x29 ∷ 0x36 ∷ 0x68 ∷ 0xB9 ∷ [])
    ∷ cfg_poll "CFG-MSG" (0xB5 ∷ 0x62 ∷ 0x06 ∷ 0x01 ∷ 0x02 ∷ 0x00 ∷ 0x29 ∷ 0x04 ∷ 0x36 ∷ 0x87 ∷ [])
    ∷ cfg_poll "CFG-MSG" (0xB5 ∷ 0x62 ∷ 0x06 ∷ 0x01 ∷ 0x02 ∷ 0x00 ∷ 0x29 ∷ 0x3D ∷ 0x6F ∷ 0xC0 ∷ [])
    ∷ cfg_poll "CFG-MSG" (0xB5 ∷ 0x62 ∷ 0x06 ∷ 0x01 ∷ 0x02 ∷ 0x00 ∷ 0x29 ∷ 0x09 ∷ 0x3B ∷ 0x8C ∷ [])
    ∷ []
