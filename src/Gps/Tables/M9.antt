-- ===== src/Gps/Tables/M9.antt =====
-- script/gps/main.c: `gl_ubx_m9_cfg_poll`, row by row.
use config_env.Prelude.{[], List, ◌∷◌}
use config_env.Gps.Types.{CfgPoll, cfg_poll}

unfoldable pub ubx_m9_cfg_poll : List CfgPoll
ubx_m9_cfg_poll =
    cfg_poll "MON-VER" (0xB5 ∷ 0x62 ∷ 0x0A ∷ 0x04 ∷ 0x00 ∷ 0x00 ∷ 0x0E ∷ 0x34 ∷ [])
    ∷ cfg_poll "CFG-VALGET" (
        0xB5 ∷ 0x62 ∷ 0x06 ∷ 0x8B ∷ 0x08 ∷ 0x00 ∷ 0x00 ∷ 0x00 ∷ 0x00 ∷ 0x00 ∷ 0x00 ∷ 0x00 ∷ 0xFF
        ∷ 0x0F ∷ 0xA7 ∷ 0x9E ∷ [])
    ∷ cfg_poll "CFG-VALGET" (
        0xB5 ∷ 0x62 ∷ 0x06 ∷ 0x8B ∷ 0x08 ∷ 0x00 ∷ 0x00 ∷ 0x00 ∷ 0x40 ∷ 0x00 ∷ 0x00 ∷ 0x00 ∷ 0xFF
        ∷ 0x0F ∷ 0xE7 ∷ 0x1E ∷ [])
    ∷ cfg_poll "CFG-VALGET" (
        0xB5 ∷ 0x62 ∷ 0x06 ∷ 0x8B ∷ 0x08 ∷ 0x00 ∷ 0x00 ∷ 0x00 ∷ 0x80 ∷ 0x00 ∷ 0x00 ∷ 0x00 ∷ 0xFF
        ∷ 0x0F ∷ 0x27 ∷ 0x9E ∷ [])
    ∷ cfg_poll "CFG-VALGET" (
        0xB5 ∷ 0x62 ∷ 0x06 ∷ 0x8B ∷ 0x08 ∷ 0x00 ∷ 0x00 ∷ 0x00 ∷ 0xC0 ∷ 0x00 ∷ 0x00 ∷ 0x00 ∷ 0xFF
        ∷ 0x0F ∷ 0x67 ∷ 0x1E ∷ [])
    ∷ cfg_poll "CFG-VALGET" (
        0xB5 ∷ 0x62 ∷ 0x06 ∷ 0x8B ∷ 0x08 ∷ 0x00 ∷ 0x00 ∷ 0x00 ∷ 0x00 ∷ 0x01 ∷ 0x00 ∷ 0x00 ∷ 0xFF
        ∷ 0x0F ∷ 0xA8 ∷ 0xA3 ∷ [])
    ∷ cfg_poll "CFG-VALGET" (
        0xB5 ∷ 0x62 ∷ 0x06 ∷ 0x8B ∷ 0x08 ∷ 0x00 ∷ 0x00 ∷ 0x00 ∷ 0x40 ∷ 0x01 ∷ 0x00 ∷ 0x00 ∷ 0xFF
        ∷ 0x0F ∷ 0xE8 ∷ 0x23 ∷ [])
    ∷ cfg_poll "CFG-VALGET" (
        0xB5 ∷ 0x62 ∷ 0x06 ∷ 0x8B ∷ 0x08 ∷ 0x00 ∷ 0x00 ∷ 0x00 ∷ 0x80 ∷ 0x01 ∷ 0x00 ∷ 0x00 ∷ 0xFF
        ∷ 0x0F ∷ 0x28 ∷ 0xA3 ∷ [])
    ∷ cfg_poll "CFG-VALGET" (
        0xB5 ∷ 0x62 ∷ 0x06 ∷ 0x8B ∷ 0x08 ∷ 0x00 ∷ 0x00 ∷ 0x00 ∷ 0xC0 ∷ 0x01 ∷ 0x00 ∷ 0x00 ∷ 0xFF
        ∷ 0x0F ∷ 0x68 ∷ 0x23 ∷ [])
    ∷ cfg_poll "CFG-VALGET" (
        0xB5 ∷ 0x62 ∷ 0x06 ∷ 0x8B ∷ 0x08 ∷ 0x00 ∷ 0x00 ∷ 0x00 ∷ 0x00 ∷ 0x02 ∷ 0x00 ∷ 0x00 ∷ 0xFF
        ∷ 0x0F ∷ 0xA9 ∷ 0xA8 ∷ [])
    ∷ cfg_poll "CFG-VALGET" (
        0xB5 ∷ 0x62 ∷ 0x06 ∷ 0x8B ∷ 0x08 ∷ 0x00 ∷ 0x00 ∷ 0x00 ∷ 0x40 ∷ 0x02 ∷ 0x00 ∷ 0x00 ∷ 0xFF
        ∷ 0x0F ∷ 0xE9 ∷ 0x28 ∷ [])
    ∷ cfg_poll "CFG-VALGET" (
        0xB5 ∷ 0x62 ∷ 0x06 ∷ 0x8B ∷ 0x08 ∷ 0x00 ∷ 0x00 ∷ 0x00 ∷ 0x80 ∷ 0x02 ∷ 0x00 ∷ 0x00 ∷ 0xFF
        ∷ 0x0F ∷ 0x29 ∷ 0xA8 ∷ [])
    ∷ cfg_poll "CFG-VALGET" (
        0xB5 ∷ 0x62 ∷ 0x06 ∷ 0x8B ∷ 0x08 ∷ 0x00 ∷ 0x00 ∷ 0x00 ∷ 0xC0 ∷ 0x02 ∷ 0x00 ∷ 0x00 ∷ 0xFF
        ∷ 0x0F ∷ 0x69 ∷ 0x28 ∷ [])
    ∷ cfg_poll "CFG-VALGET" (
        0xB5 ∷ 0x62 ∷ 0x06 ∷ 0x8B ∷ 0x08 ∷ 0x00 ∷ 0x00 ∷ 0x00 ∷ 0x00 ∷ 0x03 ∷ 0x00 ∷ 0x00 ∷ 0xFF
        ∷ 0x0F ∷ 0xAA ∷ 0xAD ∷ [])
    ∷ cfg_poll "CFG-VALGET" (
        0xB5 ∷ 0x62 ∷ 0x06 ∷ 0x8B ∷ 0x08 ∷ 0x00 ∷ 0x00 ∷ 0x00 ∷ 0x40 ∷ 0x03 ∷ 0x00 ∷ 0x00 ∷ 0xFF
        ∷ 0x0F ∷ 0xEA ∷ 0x2D ∷ [])
    ∷ cfg_poll "CFG-VALGET" (
        0xB5 ∷ 0x62 ∷ 0x06 ∷ 0x8B ∷ 0x08 ∷ 0x00 ∷ 0x00 ∷ 0x00 ∷ 0x80 ∷ 0x03 ∷ 0x00 ∷ 0x00 ∷ 0xFF
        ∷ 0x0F ∷ 0x2A ∷ 0xAD ∷ [])
    ∷ cfg_poll "CFG-VALGET" (
        0xB5 ∷ 0x62 ∷ 0x06 ∷ 0x8B ∷ 0x08 ∷ 0x00 ∷ 0x00 ∷ 0x00 ∷ 0xC0 ∷ 0x03 ∷ 0x00 ∷ 0x00 ∷ 0xFF
        ∷ 0x0F ∷ 0x6A ∷ 0x2D ∷ [])
    ∷ cfg_poll "CFG-VALGET" (
        0xB5 ∷ 0x62 ∷ 0x06 ∷ 0x8B ∷ 0x08 ∷ 0x00 ∷ 0x00 ∷ 0x00 ∷ 0x00 ∷ 0x04 ∷ 0x00 ∷ 0x00 ∷ 0xFF
        ∷ 0x0F ∷ 0xAB ∷ 0xB2 ∷ [])
    ∷ cfg_poll "CFG-VALGET" (
        0xB5 ∷ 0x62 ∷ 0x06 ∷ 0x8B ∷ 0x08 ∷ 0x00 ∷ 0x00 ∷ 0x00 ∷ 0x40 ∷ 0x04 ∷ 0x00 ∷ 0x00 ∷ 0xFF
        ∷ 0x0F ∷ 0xEB ∷ 0x32 ∷ [])
    ∷ cfg_poll "CFG-VALGET" (
        0xB5 ∷ 0x62 ∷ 0x06 ∷ 0x8B ∷ 0x08 ∷ 0x00 ∷ 0x00 ∷ 0x00 ∷ 0x80 ∷ 0x04 ∷ 0x00 ∷ 0x00 ∷ 0xFF
        ∷ 0x0F ∷ 0x2B ∷ 0xB2 ∷ [])
    ∷ cfg_poll "CFG-VALGET" (
        0xB5 ∷ 0x62 ∷ 0x06 ∷ 0x8B ∷ 0x08 ∷ 0x00 ∷ 0x00 ∷ 0x00 ∷ 0xC0 ∷ 0x04 ∷ 0x00 ∷ 0x00 ∷ 0xFF
        ∷ 0x0F ∷ 0x6B ∷ 0x32 ∷ [])
    ∷ cfg_poll "CFG-VALGET" (
        0xB5 ∷ 0x62 ∷ 0x06 ∷ 0x8B ∷ 0x08 ∷ 0x00 ∷ 0x00 ∷ 0x00 ∷ 0x00 ∷ 0x05 ∷ 0x00 ∷ 0x00 ∷ 0xFF
        ∷ 0x0F ∷ 0xAC ∷ 0xB7 ∷ [])
    ∷ cfg_poll "CFG-VALGET" (
        0xB5 ∷ 0x62 ∷ 0x06 ∷ 0x8B ∷ 0x08 ∷ 0x00 ∷ 0x00 ∷ 0x00 ∷ 0x40 ∷ 0x05 ∷ 0x00 ∷ 0x00 ∷ 0xFF
        ∷ 0x0F ∷ 0xEC ∷ 0x37 ∷ [])
    ∷ []
