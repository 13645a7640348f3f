-- ===== src/Gps/Tables/M8Tail.antt =====
-- script/gps/main.c: the second half of `gl_ubx_m8_cfg_poll`, row by row.
use config_env.Prelude.{[], List, ◌∷◌}
use config_env.Gps.Types.{CfgPoll, cfg_poll}

unfoldable pub ubx_m8_tail : List CfgPoll
ubx_m8_tail =
    cfg_poll "CFG-MSG" (0xB5 ∷ 0x62 ∷ 0x06 ∷ 0x01 ∷ 0x02 ∷ 0x00 ∷ 0x29 ∷ 0x01 ∷ 0x33 ∷ 0x84 ∷ [])
    ∷ cfg_poll "CFG-MSG" (0xB5 ∷ 0x62 ∷ 0x06 ∷ 0x01 ∷ 0x02 ∷ 0x00 ∷ 0x29 ∷ 0x02 ∷ 0x34 ∷ 0x85 ∷ [])
    ∷ cfg_poll "CFG-MSG" (0xB5 ∷ 0x62 ∷ 0x06 ∷ 0x01 ∷ 0x02 ∷ 0x00 ∷ 0x29 ∷ 0x17 ∷ 0x49 ∷ 0x9A ∷ [])
    ∷ cfg_poll "CFG-MSG" (0xB5 ∷ 0x62 ∷ 0x06 ∷ 0x01 ∷ 0x02 ∷ 0x00 ∷ 0x29 ∷ 0x07 ∷ 0x39 ∷ 0x8A ∷ [])
    ∷ cfg_poll "CFG-MSG" (0xB5 ∷ 0x62 ∷ 0x06 ∷ 0x01 ∷ 0x02 ∷ 0x00 ∷ 0x29 ∷ 0x35 ∷ 0x67 ∷ 0xB8 ∷ [])
    ∷ cfg_poll "CFG-MSG" (0xB5 ∷ 0x62 ∷ 0x06 ∷ 0x01 ∷ 0x02 ∷ 0x00 ∷ 0x29 ∷ 0x32 ∷ 0x64 ∷ 0xB5 ∷ [])
    ∷ cfg_poll "CFG-MSG" (0xB5 ∷ 0x62 ∷ 0x06 ∷ 0x01 ∷ 0x02 ∷ 0x00 ∷ 0x29 ∷ 0x43 ∷ 0x75 ∷ 0xC6 ∷ [])
    ∷ cfg_poll "CFG-MSG" (0xB5 ∷ 0x62 ∷ 0x06 ∷ 0x01 ∷ 0x02 ∷ 0x00 ∷ 0x29 ∷ 0x42 ∷ 0x74 ∷ 0xC5 ∷ [])
    ∷ cfg_poll "CFG-MSG" (0xB5 ∷ 0x62 ∷ 0x06 ∷ 0x01 ∷ 0x02 ∷ 0x00 ∷ 0x29 ∷ 0x03 ∷ 0x35 ∷ 0x86 ∷ [])
    ∷ cfg_poll "CFG-MSG" (0xB5 ∷ 0x62 ∷ 0x06 ∷ 0x01 ∷ 0x02 ∷ 0x00 ∷ 0x29 ∷ 0x3B ∷ 0x6D ∷ 0xBE ∷ [])
    ∷ cfg_poll "CFG-MSG" (0xB5 ∷ 0x62 ∷ 0x06 ∷ 0x01 ∷ 0x02 ∷ 0x00 ∷ 0x29 ∷ 0x24 ∷ 0x56 ∷ 0xA7 ∷ [])
    ∷ cfg_poll "CFG-MSG" (0xB5 ∷ 0x62 ∷ 0x06 ∷ 0x01 ∷ 0x02 ∷ 0x00 ∷ 0x29 ∷ 0x25 ∷ 0x57 ∷ 0xA8 ∷ [])
    ∷ cfg_poll "CFG-MSG" (0xB5 ∷ 0x62 ∷ 0x06 ∷ 0x01 ∷ 0x02 ∷ 0x00 ∷ 0x29 ∷ 0x23 ∷ 0x55 ∷ 0xA6 ∷ [])
    ∷ cfg_poll "CFG-MSG" (0xB5 ∷ 0x62 ∷ 0x06 ∷ 0x01 ∷ 0x02 ∷ 0x00 ∷ 0x29 ∷ 0x20 ∷ 0x52 ∷ 0xA3 ∷ [])
    ∷ cfg_poll "CFG-MSG" (0xB5 ∷ 0x62 ∷ 0x06 ∷ 0x01 ∷ 0x02 ∷ 0x00 ∷ 0x29 ∷ 0x26 ∷ 0x58 ∷ 0xA9 ∷ [])
    ∷ cfg_poll "CFG-MSG" (0xB5 ∷ 0x62 ∷ 0x06 ∷ 0x01 ∷ 0x02 ∷ 0x00 ∷ 0x29 ∷ 0x63 ∷ 0x95 ∷ 0xE6 ∷ [])
    ∷ cfg_poll "CFG-MSG" (0xB5 ∷ 0x62 ∷ 0x06 ∷ 0x01 ∷ 0x02 ∷ 0x00 ∷ 0x29 ∷ 0x27 ∷ 0x59 ∷ 0xAA ∷ [])
    ∷ cfg_poll "CFG-MSG" (0xB5 ∷ 0x62 ∷ 0x06 ∷ 0x01 ∷ 0x02 ∷ 0x00 ∷ 0x29 ∷ 0x21 ∷ 0x53 ∷ 0xA4 ∷ [])
    ∷ cfg_poll "CFG-MSG" (0xB5 ∷ 0x62 ∷ 0x06 ∷ 0x01 ∷ 0x02 ∷ 0x00 ∷ 0x29 ∷ 0x11 ∷ 0x43 ∷ 0x94 ∷ [])
    ∷ cfg_poll "CFG-MSG" (0xB5 ∷ 0x62 ∷ 0x06 ∷ 0x01 ∷ 0x02 ∷ 0x00 ∷ 0x29 ∷ 0x12 ∷ 0x44 ∷ 0x95 ∷ [])
    ∷ cfg_poll "CFG-MSG" (0xB5 ∷ 0x62 ∷ 0x06 ∷ 0x01 ∷ 0x02 ∷ 0x00 ∷ 0x02 ∷ 0x30 ∷ 0x3B ∷ 0x65 ∷ [])
    ∷ cfg_poll "CFG-MSG" (0xB5 ∷ 0x62 ∷ 0x06 ∷ 0x01 ∷ 0x02 ∷ 0x00 ∷ 0x02 ∷ 0x34 ∷ 0x3F ∷ 0x69 ∷ [])
    ∷ cfg_poll "CFG-MSG" (0xB5 ∷ 0x62 ∷ 0x06 ∷ 0x01 ∷ 0x02 ∷ 0x00 ∷ 0x02 ∷ 0x31 ∷ 0x3C ∷ 0x66 ∷ [])
    ∷ cfg_poll "CFG-MSG" (0xB5 ∷ 0x62 ∷ 0x06 ∷ 0x01 ∷ 0x02 ∷ 0x00 ∷ 0x02 ∷ 0x61 ∷ 0x6C ∷ 0x96 ∷ [])
    ∷ cfg_poll "CFG-MSG" (0xB5 ∷ 0x62 ∷ 0x06 ∷ 0x01 ∷ 0x02 ∷ 0x00 ∷ 0x02 ∷ 0x14 ∷ 0x1F ∷ 0x49 ∷ [])
    ∷ cfg_poll "CFG-MSG" (0xB5 ∷ 0x62 ∷ 0x06 ∷ 0x01 ∷ 0x02 ∷ 0x00 ∷ 0x02 ∷ 0x72 ∷ 0x7D ∷ 0xA7 ∷ [])
    ∷ cfg_poll "CFG-MSG" (0xB5 ∷ 0x62 ∷ 0x06 ∷ 0x01 ∷ 0x02 ∷ 0x00 ∷ 0x02 ∷ 0x73 ∷ 0x7E ∷ 0xA8 ∷ [])
    ∷ cfg_poll "CFG-MSG" (0xB5 ∷ 0x62 ∷ 0x06 ∷ 0x01 ∷ 0x02 ∷ 0x00 ∷ 0x02 ∷ 0x15 ∷ 0x20 ∷ 0x4A ∷ [])
    ∷ cfg_poll "CFG-MSG" (0xB5 ∷ 0x62 ∷ 0x06 ∷ 0x01 ∷ 0x02 ∷ 0x00 ∷ 0x02 ∷ 0x10 ∷ 0x1B ∷ 0x45 ∷ [])
    ∷ cfg_poll "CFG-MSG" (0xB5 ∷ 0x62 ∷ 0x06 ∷ 0x01 ∷ 0x02 ∷ 0x00 ∷ 0x02 ∷ 0x59 ∷ 0x64 ∷ 0x8E ∷ [])
    ∷ cfg_poll "CFG-MSG" (0xB5 ∷ 0x62 ∷ 0x06 ∷ 0x01 ∷ 0x02 ∷ 0x00 ∷ 0x02 ∷ 0x32 ∷ 0x3D ∷ 0x67 ∷ [])
    ∷ cfg_poll "CFG-MSG" (0xB5 ∷ 0x62 ∷ 0x06 ∷ 0x01 ∷ 0x02 ∷ 0x00 ∷ 0x02 ∷ 0x13 ∷ 0x1E ∷ 0x48 ∷ [])
    ∷ cfg_poll "CFG-MSG" (0xB5 ∷ 0x62 ∷ 0x06 ∷ 0x01 ∷ 0x02 ∷ 0x00 ∷ 0x02 ∷ 0x11 ∷ 0x1C ∷ 0x46 ∷ [])
    ∷ cfg_poll "CFG-MSG" (0xB5 ∷ 0x62 ∷ 0x06 ∷ 0x01 ∷ 0x02 ∷ 0x00 ∷ 0x02 ∷ 0x36 ∷ 0x41 ∷ 0x6B ∷ [])
    ∷ cfg_poll "CFG-MSG" (0xB5 ∷ 0x62 ∷ 0x06 ∷ 0x01 ∷ 0x02 ∷ 0x00 ∷ 0x02 ∷ 0x33 ∷ 0x3E ∷ 0x68 ∷ [])
    ∷ cfg_poll "CFG-MSG" (0xB5 ∷ 0x62 ∷ 0x06 ∷ 0x01 ∷ 0x02 ∷ 0x00 ∷ 0x02 ∷ 0x20 ∷ 0x2B ∷ 0x55 ∷ [])
    ∷ cfg_poll "CFG-MSG" (0xB5 ∷ 0x62 ∷ 0x06 ∷ 0x01 ∷ 0x02 ∷ 0x00 ∷ 0x02 ∷ 0x74 ∷ 0x7F ∷ 0xA9 ∷ [])
    ∷ cfg_poll "CFG-MSG" (0xB5 ∷ 0x62 ∷ 0x06 ∷ 0x01 ∷ 0x02 ∷ 0x00 ∷ 0x27 ∷ 0x0A ∷ 0x3A ∷ 0x89 ∷ [])
    ∷ cfg_poll "CFG-MSG" (0xB5 ∷ 0x62 ∷ 0x06 ∷ 0x01 ∷ 0x02 ∷ 0x00 ∷ 0x27 ∷ 0x10 ∷ 0x40 ∷ 0x8F ∷ [])
    ∷ cfg_poll "CFG-MSG" (0xB5 ∷ 0x62 ∷ 0x06 ∷ 0x01 ∷ 0x02 ∷ 0x00 ∷ 0x27 ∷ 0x09 ∷ 0x39 ∷ 0x88 ∷ [])
    ∷ cfg_poll "CFG-MSG" (0xB5 ∷ 0x62 ∷ 0x06 ∷ 0x01 ∷ 0x02 ∷ 0x00 ∷ 0x27 ∷ 0x03 ∷ 0x33 ∷ 0x82 ∷ [])
    ∷ cfg_poll "CFG-MSG" (0xB5 ∷ 0x62 ∷ 0x06 ∷ 0x01 ∷ 0x02 ∷ 0x00 ∷ 0x0D ∷ 0x11 ∷ 0x27 ∷ 0x5C ∷ [])
    ∷ cfg_poll "CFG-MSG" (0xB5 ∷ 0x62 ∷ 0x06 ∷ 0x01 ∷ 0x02 ∷ 0x00 ∷ 0x0D ∷ 0x16 ∷ 0x2C ∷ 0x61 ∷ [])
    ∷ cfg_poll "CFG-MSG" (0xB5 ∷ 0x62 ∷ 0x06 ∷ 0x01 ∷ 0x02 ∷ 0x00 ∷ 0x0D ∷ 0x13 ∷ 0x29 ∷ 0x5E ∷ [])
    ∷ cfg_poll "CFG-MSG" (0xB5 ∷ 0x62 ∷ 0x06 ∷ 0x01 ∷ 0x02 ∷ 0x00 ∷ 0x0D ∷ 0x04 ∷ 0x1A ∷ 0x4F ∷ [])
    ∷ cfg_poll "CFG-MSG" (0xB5 ∷ 0x62 ∷ 0x06 ∷ 0x01 ∷ 0x02 ∷ 0x00 ∷ 0x0D ∷ 0x03 ∷ 0x19 ∷ 0x4E ∷ [])
    ∷ cfg_poll "CFG-MSG" (0xB5 ∷ 0x62 ∷ 0x06 ∷ 0x01 ∷ 0x02 ∷ 0x00 ∷ 0x0D ∷ 0x12 ∷ 0x28 ∷ 0x5D ∷ [])
    ∷ cfg_poll "CFG-MSG" (0xB5 ∷ 0x62 ∷ 0x06 ∷ 0x01 ∷ 0x02 ∷ 0x00 ∷ 0x0D ∷ 0x01 ∷ 0x17 ∷ 0x4C ∷ [])
    ∷ cfg_poll "CFG-MSG" (0xB5 ∷ 0x62 ∷ 0x06 ∷ 0x01 ∷ 0x02 ∷ 0x00 ∷ 0x0D ∷ 0x15 ∷ 0x2B ∷ 0x60 ∷ [])
    ∷ cfg_poll "CFG-MSG" (0xB5 ∷ 0x62 ∷ 0x06 ∷ 0x01 ∷ 0x02 ∷ 0x00 ∷ 0x0D ∷ 0x06 ∷ 0x1C ∷ 0x51 ∷ [])
    ∷ cfg_poll "CFG-MSG" (0xB5 ∷ 0x62 ∷ 0x06 ∷ 0x01 ∷ 0x02 ∷ 0x00 ∷ 0x09 ∷ 0x14 ∷ 0x26 ∷ 0x57 ∷ [])
    ∷ cfg_poll "CFG-MSG" (0xB5 ∷ 0x62 ∷ 0x06 ∷ 0x01 ∷ 0x02 ∷ 0x00 ∷ 0xF0 ∷ 0x00 ∷ 0xF9 ∷ 0x11 ∷ [])
    ∷ cfg_poll "CFG-MSG" (0xB5 ∷ 0x62 ∷ 0x06 ∷ 0x01 ∷ 0x02 ∷ 0x00 ∷ 0xF0 ∷ 0x01 ∷ 0xFA ∷ 0x12 ∷ [])
    ∷ cfg_poll "CFG-MSG" (0xB5 ∷ 0x62 ∷ 0x06 ∷ 0x01 ∷ 0x02 ∷ 0x00 ∷ 0xF0 ∷ 0x02 ∷ 0xFB ∷ 0x13 ∷ [])
    ∷ cfg_poll "CFG-MSG" (0xB5 ∷ 0x62 ∷ 0x06 ∷ 0x01 ∷ 0x02 ∷ 0x00 ∷ 0xF0 ∷ 0x03 ∷ 0xFC ∷ 0x14 ∷ [])
    ∷ cfg_poll "CFG-MSG" (0xB5 ∷ 0x62 ∷ 0x06 ∷ 0x01 ∷ 0x02 ∷ 0x00 ∷ 0xF0 ∷ 0x04 ∷ 0xFD ∷ 0x15 ∷ [])
    ∷ cfg_poll "CFG-MSG" (0xB5 ∷ 0x62 ∷ 0x06 ∷ 0x01 ∷ 0x02 ∷ 0x00 ∷ 0xF0 ∷ 0x05 ∷ 0xFE ∷ 0x16 ∷ [])
    ∷ cfg_poll "CFG-MSG" (0xB5 ∷ 0x62 ∷ 0x06 ∷ 0x01 ∷ 0x02 ∷ 0x00 ∷ 0xF0 ∷ 0x06 ∷ 0xFF ∷ 0x17 ∷ [])
    ∷ cfg_poll "CFG-MSG" (0xB5 ∷ 0x62 ∷ 0x06 ∷ 0x01 ∷ 0x02 ∷ 0x00 ∷ 0xF0 ∷ 0x07 ∷ 0x00 ∷ 0x18 ∷ [])
    ∷ cfg_poll "CFG-MSG" (0xB5 ∷ 0x62 ∷ 0x06 ∷ 0x01 ∷ 0x02 ∷ 0x00 ∷ 0xF0 ∷ 0x08 ∷ 0x01 ∷ 0x19 ∷ [])
    ∷ cfg_poll "CFG-MSG" (0xB5 ∷ 0x62 ∷ 0x06 ∷ 0x01 ∷ 0x02 ∷ 0x00 ∷ 0xF0 ∷ 0x09 ∷ 0x02 ∷ 0x1A ∷ [])
    ∷ cfg_poll "CFG-MSG" (0xB5 ∷ 0x62 ∷ 0x06 ∷ 0x01 ∷ 0x02 ∷ 0x00 ∷ 0xF0 ∷ 0x0A ∷ 0x03 ∷ 0x1B ∷ [])
    ∷ cfg_poll "CFG-MSG" (0xB5 ∷ 0x62 ∷ 0x06 ∷ 0x01 ∷ 0x02 ∷ 0x00 ∷ 0xF0 ∷ 0x0D ∷ 0x06 ∷ 0x1E ∷ [])
    ∷ cfg_poll "CFG-MSG" (0xB5 ∷ 0x62 ∷ 0x06 ∷ 0x01 ∷ 0x02 ∷ 0x00 ∷ 0xF0 ∷ 0x0E ∷ 0x07 ∷ 0x1F ∷ [])
    ∷ cfg_poll "CFG-MSG" (0xB5 ∷ 0x62 ∷ 0x06 ∷ 0x01 ∷ 0x02 ∷ 0x00 ∷ 0xF0 ∷ 0x0F ∷ 0x08 ∷ 0x20 ∷ [])
    ∷ cfg_poll "CFG-MSG" (0xB5 ∷ 0x62 ∷ 0x06 ∷ 0x01 ∷ 0x02 ∷ 0x00 ∷ 0xF7 ∷ 0x00 ∷ 0x00 ∷ 0x1F ∷ [])
    ∷ cfg_poll "CFG-MSG" (0xB5 ∷ 0x62 ∷ 0x06 ∷ 0x01 ∷ 0x02 ∷ 0x00 ∷ 0xF7 ∷ 0x01 ∷ 0x01 ∷ 0x20 ∷ [])
    ∷ cfg_poll "CFG-MSG" (0xB5 ∷ 0x62 ∷ 0x06 ∷ 0x01 ∷ 0x02 ∷ 0x00 ∷ 0xF7 ∷ 0x02 ∷ 0x02 ∷ 0x21 ∷ [])
    ∷ cfg_poll "CFG-MSG" (0xB5 ∷ 0x62 ∷ 0x06 ∷ 0x01 ∷ 0x02 ∷ 0x00 ∷ 0xF7 ∷ 0x04 ∷ 0x04 ∷ 0x23 ∷ [])
    ∷ cfg_poll "CFG-MSG" (0xB5 ∷ 0x62 ∷ 0x06 ∷ 0x01 ∷ 0x02 ∷ 0x00 ∷ 0xF7 ∷ 0x05 ∷ 0x05 ∷ 0x24 ∷ [])
    ∷ cfg_poll "CFG-MSG" (0xB5 ∷ 0x62 ∷ 0x06 ∷ 0x01 ∷ 0x02 ∷ 0x00 ∷ 0xF7 ∷ 0x08 ∷ 0x08 ∷ 0x27 ∷ [])
    ∷ cfg_poll "CFG-MSG" (0xB5 ∷ 0x62 ∷ 0x06 ∷ 0x01 ∷ 0x02 ∷ 0x00 ∷ 0xF7 ∷ 0x0D ∷ 0x0D ∷ 0x2C ∷ [])
    ∷ cfg_poll "CFG-MSG" (0xB5 ∷ 0x62 ∷ 0x06 ∷ 0x01 ∷ 0x02 ∷ 0x00 ∷ 0xF1 ∷ 0x00 ∷ 0xFA ∷ 0x13 ∷ [])
    ∷ cfg_poll "CFG-MSG" (0xB5 ∷ 0x62 ∷ 0x06 ∷ 0x01 ∷ 0x02 ∷ 0x00 ∷ 0xF1 ∷ 0x01 ∷ 0xFB ∷ 0x14 ∷ [])
    ∷ cfg_poll "CFG-MSG" (0xB5 ∷ 0x62 ∷ 0x06 ∷ 0x01 ∷ 0x02 ∷ 0x00 ∷ 0xF1 ∷ 0x03 ∷ 0xFD ∷ 0x16 ∷ [])
    ∷ cfg_poll "CFG-MSG" (0xB5 ∷ 0x62 ∷ 0x06 ∷ 0x01 ∷ 0x02 ∷ 0x00 ∷ 0xF1 ∷ 0x04 ∷ 0xFE ∷ 0x17 ∷ [])
    ∷ cfg_poll "CFG-MSG" (0xB5 ∷ 0x62 ∷ 0x06 ∷ 0x01 ∷ 0x02 ∷ 0x00 ∷ 0xF5 ∷ 0x05 ∷ 0x03 ∷ 0x20 ∷ [])
    ∷ cfg_poll "CFG-MSG" (0xB5 ∷ 0x62 ∷ 0x06 ∷ 0x01 ∷ 0x02 ∷ 0x00 ∷ 0xF5 ∷ 0x4A ∷ 0x48 ∷ 0x65 ∷ [])
    ∷ cfg_poll "CFG-MSG" (0xB5 ∷ 0x62 ∷ 0x06 ∷ 0x01 ∷ 0x02 ∷ 0x00 ∷ 0xF5 ∷ 0x4D ∷ 0x4B ∷ 0x68 ∷ [])
    ∷ cfg_poll "CFG-MSG" (0xB5 ∷ 0x62 ∷ 0x06 ∷ 0x01 ∷ 0x02 ∷ 0x00 ∷ 0xF5 ∷ 0x54 ∷ 0x52 ∷ 0x6F ∷ [])
    ∷ cfg_poll "CFG-MSG" (0xB5 ∷ 0x62 ∷ 0x06 ∷ 0x01 ∷ 0x02 ∷ 0x00 ∷ 0xF5 ∷ 0x57 ∷ 0x55 ∷ 0x72 ∷ [])
    ∷ cfg_poll "CFG-MSG" (0xB5 ∷ 0x62 ∷ 0x06 ∷ 0x01 ∷ 0x02 ∷ 0x00 ∷ 0xF5 ∷ 0x5E ∷ 0x5C ∷ 0x79 ∷ [])
    ∷ cfg_poll "CFG-MSG" (0xB5 ∷ 0x62 ∷ 0x06 ∷ 0x01 ∷ 0x02 ∷ 0x00 ∷ 0xF5 ∷ 0x61 ∷ 0x5F ∷ 0x7C ∷ [])
    ∷ cfg_poll "CFG-MSG" (0xB5 ∷ 0x62 ∷ 0x06 ∷ 0x01 ∷ 0x02 ∷ 0x00 ∷ 0xF5 ∷ 0x7C ∷ 0x7A ∷ 0x97 ∷ [])
    ∷ cfg_poll "CFG-MSG" (0xB5 ∷ 0x62 ∷ 0x06 ∷ 0x01 ∷ 0x02 ∷ 0x00 ∷ 0xF5 ∷ 0x7F ∷ 0x7D ∷ 0x9A ∷ [])
    ∷ cfg_poll "CFG-MSG" (0xB5 ∷ 0x62 ∷ 0x06 ∷ 0x01 ∷ 0x02 ∷ 0x00 ∷ 0xF5 ∷ 0xE6 ∷ 0xE4 ∷ 0x01 ∷ [])
    ∷ cfg_poll "CFG-MSG" (0xB5 ∷ 0x62 ∷ 0x06 ∷ 0x01 ∷ 0x02 ∷ 0x00 ∷ 0xF5 ∷ 0xFE ∷ 0xFC ∷ 0x19 ∷ [])
    ∷ cfg_poll "CFG-MSG" (0xB5 ∷ 0x62 ∷ 0x06 ∷ 0x01 ∷ 0x02 ∷ 0x00 ∷ 0xF5 ∷ 0xFD ∷ 0xFB ∷ 0x18 ∷ [])
    ∷ cfg_poll "CFG-NAV5" (0xB5 ∷ 0x62 ∷ 0x06 ∷ 0x24 ∷ 0x00 ∷ 0x00 ∷ 0x2A ∷ 0x84 ∷ [])
    ∷ cfg_poll "CFG-NAVX5" (0xB5 ∷ 0x62 ∷ 0x06 ∷ 0x23 ∷ 0x00 ∷ 0x00 ∷ 0x29 ∷ 0x81 ∷ [])
    ∷ cfg_poll "CFG-NMEA" (0xB5 ∷ 0x62 ∷ 0x06 ∷ 0x17 ∷ 0x00 ∷ 0x00 ∷ 0x1D ∷ 0x5D ∷ [])
    ∷ cfg_poll "CFG-ODO" (0xB5 ∷ 0x62 ∷ 0x06 ∷ 0x1E ∷ 0x00 ∷ 0x00 ∷ 0x24 ∷ 0x72 ∷ [])
    ∷ cfg_poll "CFG-PM" (0xB5 ∷ 0x62 ∷ 0x06 ∷ 0x32 ∷ 0x00 ∷ 0x00 ∷ 0x38 ∷ 0xAE ∷ [])
    ∷ cfg_poll "CFG-PM2" (0xB5 ∷ 0x62 ∷ 0x06 ∷ 0x3B ∷ 0x00 ∷ 0x00 ∷ 0x41 ∷ 0xC9 ∷ [])
    ∷ cfg_poll "CFG-PRT" (0xB5 ∷ 0x62 ∷ 0x06 ∷ 0x00 ∷ 0x01 ∷ 0x00 ∷ 0x00 ∷ 0x07 ∷ 0x21 ∷ [])
    ∷ cfg_poll "CFG-PRT" (0xB5 ∷ 0x62 ∷ 0x06 ∷ 0x00 ∷ 0x01 ∷ 0x00 ∷ 0x01 ∷ 0x08 ∷ 0x22 ∷ [])
    ∷ cfg_poll "CFG-PRT" (0xB5 ∷ 0x62 ∷ 0x06 ∷ 0x00 ∷ 0x01 ∷ 0x00 ∷ 0x02 ∷ 0x09 ∷ 0x23 ∷ [])
    ∷ cfg_poll "CFG-PRT" (0xB5 ∷ 0x62 ∷ 0x06 ∷ 0x00 ∷ 0x01 ∷ 0x00 ∷ 0x03 ∷ 0x0A ∷ 0x24 ∷ [])
    ∷ cfg_poll "CFG-PRT" (0xB5 ∷ 0x62 ∷ 0x06 ∷ 0x00 ∷ 0x01 ∷ 0x00 ∷ 0x04 ∷ 0x0B ∷ 0x25 ∷ [])
    ∷ cfg_poll "CFG-RATE" (0xB5 ∷ 0x62 ∷ 0x06 ∷ 0x08 ∷ 0x00 ∷ 0x00 ∷ 0x0E ∷ 0x30 ∷ [])
    ∷ cfg_poll "CFG-RINV" (0xB5 ∷ 0x62 ∷ 0x06 ∷ 0x34 ∷ 0x00 ∷ 0x00 ∷ 0x3A ∷ 0xB4 ∷ [])
    ∷ cfg_poll "CFG-RXM" (0xB5 ∷ 0x62 ∷ 0x06 ∷ 0x11 ∷ 0x00 ∷ 0x00 ∷ 0x17 ∷ 0x4B ∷ [])
    ∷ cfg_poll "CFG-SBAS" (0xB5 ∷ 0x62 ∷ 0x06 ∷ 0x16 ∷ 0x00 ∷ 0x00 ∷ 0x1C ∷ 0x5A ∷ [])
    ∷ cfg_poll "CFG-SMGR" (0xB5 ∷ 0x62 ∷ 0x06 ∷ 0x62 ∷ 0x00 ∷ 0x00 ∷ 0x68 ∷ 0x3E ∷ [])
    ∷ cfg_poll "CFG-TMODE" (0xB5 ∷ 0x62 ∷ 0x06 ∷ 0x1D ∷ 0x00 ∷ 0x00 ∷ 0x23 ∷ 0x6F ∷ [])
    ∷ cfg_poll "CFG-TMODE2" (0xB5 ∷ 0x62 ∷ 0x06 ∷ 0x3D ∷ 0x00 ∷ 0x00 ∷ 0x43 ∷ 0xCF ∷ [])
    ∷ cfg_poll "CFG-TMODE3" (0xB5 ∷ 0x62 ∷ 0x06 ∷ 0x71 ∷ 0x00 ∷ 0x00 ∷ 0x77 ∷ 0x6B ∷ [])
    ∷ cfg_poll "CFG-TP" (0xB5 ∷ 0x62 ∷ 0x06 ∷ 0x07 ∷ 0x00 ∷ 0x00 ∷ 0x0D ∷ 0x2D ∷ [])
    ∷ cfg_poll "CFG-TP5" (0xB5 ∷ 0x62 ∷ 0x06 ∷ 0x31 ∷ 0x01 ∷ 0x00 ∷ 0x00 ∷ 0x38 ∷ 0xE5 ∷ [])
    ∷ cfg_poll "CFG-TP5" (0xB5 ∷ 0x62 ∷ 0x06 ∷ 0x31 ∷ 0x01 ∷ 0x00 ∷ 0x01 ∷ 0x39 ∷ 0xE6 ∷ [])
    ∷ cfg_poll "CFG-TXSLOT" (0xB5 ∷ 0x62 ∷ 0x06 ∷ 0x53 ∷ 0x00 ∷ 0x00 ∷ 0x59 ∷ 0x11 ∷ [])
    ∷ cfg_poll "CFG-USB" (0xB5 ∷ 0x62 ∷ 0x06 ∷ 0x1B ∷ 0x00 ∷ 0x00 ∷ 0x21 ∷ 0x69 ∷ [])
    ∷ []
