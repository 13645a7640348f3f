-- ===== src/Gps/Tables/Debug.antt =====
-- script/gps/main.c: `gl_ubx_debug_message`, row by row.
use config_env.Prelude.{[], ℕ, List, ◌∷◌}

unfoldable pub ubx_debug_message : List (List ℕ)
ubx_debug_message =
    (0xB5 ∷ 0x62 ∷ 0x06 ∷ 0x02 ∷ 0x08 ∷ 0x00 ∷ 0x00 ∷ 0x00 ∷ 0x00 ∷ 0x00 ∷ 0xFF ∷ 0xFF ∷ 0xFF ∷ 0xFF
      ∷ 0x0C ∷ 0xA4 ∷ [])
    ∷ (0xB5 ∷ 0x62 ∷ 0x06 ∷ 0x01 ∷ 0x03 ∷ 0x00 ∷ 0x0C ∷ 0x49 ∷ 0x01 ∷ 0x60 ∷ 0xF6 ∷ [])
    ∷ (0xB5 ∷ 0x62 ∷ 0x06 ∷ 0x01 ∷ 0x03 ∷ 0x00 ∷ 0x0C ∷ 0x41 ∷ 0x01 ∷ 0x58 ∷ 0xE6 ∷ [])
    ∷ (0xB5 ∷ 0x62 ∷ 0x06 ∷ 0x01 ∷ 0x03 ∷ 0x00 ∷ 0x0C ∷ 0x1A ∷ 0x01 ∷ 0x31 ∷ 0x98 ∷ [])
    ∷ (0xB5 ∷ 0x62 ∷ 0x06 ∷ 0x01 ∷ 0x03 ∷ 0x00 ∷ 0x0C ∷ 0x4F ∷ 0x01 ∷ 0x66 ∷ 0x02 ∷ [])
    ∷ (0xB5 ∷ 0x62 ∷ 0x06 ∷ 0x01 ∷ 0x03 ∷ 0x00 ∷ 0x0C ∷ 0x4B ∷ 0x01 ∷ 0x62 ∷ 0xFA ∷ [])
    ∷ (0xB5 ∷ 0x62 ∷ 0x06 ∷ 0x01 ∷ 0x03 ∷ 0x00 ∷ 0x0C ∷ 0x43 ∷ 0x01 ∷ 0x5A ∷ 0xEA ∷ [])
    ∷ (0xB5 ∷ 0x62 ∷ 0x06 ∷ 0x01 ∷ 0x03 ∷ 0x00 ∷ 0x0C ∷ 0x31 ∷ 0x01 ∷ 0x48 ∷ 0xC6 ∷ [])
    ∷ (0xB5 ∷ 0x62 ∷ 0x06 ∷ 0x01 ∷ 0x03 ∷ 0x00 ∷ 0x0C ∷ 0x56 ∷ 0x01 ∷ 0x6D ∷ 0x10 ∷ [])
    ∷ (0xB5 ∷ 0x62 ∷ 0x06 ∷ 0x01 ∷ 0x03 ∷ 0x00 ∷ 0x0C ∷ 0x21 ∷ 0x01 ∷ 0x38 ∷ 0xA6 ∷ [])
    ∷ (0xB5 ∷ 0x62 ∷ 0x06 ∷ 0x01 ∷ 0x03 ∷ 0x00 ∷ 0x0C ∷ 0x10 ∷ 0x01 ∷ 0x27 ∷ 0x84 ∷ [])
    ∷ (0xB5 ∷ 0x62 ∷ 0x06 ∷ 0x01 ∷ 0x03 ∷ 0x00 ∷ 0x0C ∷ 0x16 ∷ 0x01 ∷ 0x2D ∷ 0x90 ∷ [])
    ∷ (0xB5 ∷ 0x62 ∷ 0x06 ∷ 0x01 ∷ 0x03 ∷ 0x00 ∷ 0x0C ∷ 0x62 ∷ 0x01 ∷ 0x79 ∷ 0x28 ∷ [])
    ∷ (0xB5 ∷ 0x62 ∷ 0x06 ∷ 0x01 ∷ 0x03 ∷ 0x00 ∷ 0x0C ∷ 0x34 ∷ 0x01 ∷ 0x4B ∷ 0xCC ∷ [])
    ∷ (0xB5 ∷ 0x62 ∷ 0x0C ∷ 0x35 ∷ 0x00 ∷ 0x00 ∷ 0x41 ∷ 0xCF ∷ [])
    ∷ (0xB5 ∷ 0x62 ∷ 0x06 ∷ 0x01 ∷ 0x03 ∷ 0x00 ∷ 0x10 ∷ 0x02 ∷ 0x01 ∷ 0x1D ∷ 0x74 ∷ [])
    ∷ (0xB5 ∷ 0x62 ∷ 0x06 ∷ 0x01 ∷ 0x03 ∷ 0x00 ∷ 0x10 ∷ 0x11 ∷ 0x01 ∷ 0x2C ∷ 0x92 ∷ [])
    ∷ (0xB5 ∷ 0x62 ∷ 0x06 ∷ 0x01 ∷ 0x03 ∷ 0x00 ∷ 0x10 ∷ 0x10 ∷ 0x01 ∷ 0x2B ∷ 0x90 ∷ [])
    ∷ (0xB5 ∷ 0x62 ∷ 0x06 ∷ 0x01 ∷ 0x03 ∷ 0x00 ∷ 0x10 ∷ 0x12 ∷ 0x01 ∷ 0x2D ∷ 0x94 ∷ [])
    ∷ (0xB5 ∷ 0x62 ∷ 0x06 ∷ 0x01 ∷ 0x03 ∷ 0x00 ∷ 0x0A ∷ 0x36 ∷ 0x05 ∷ 0x4F ∷ 0xCE ∷ [])
    ∷ (0xB5 ∷ 0x62 ∷ 0x06 ∷ 0x01 ∷ 0x03 ∷ 0x00 ∷ 0x0A ∷ 0x06 ∷ 0x01 ∷ 0x1B ∷ 0x6A ∷ [])
    ∷ (0xB5 ∷ 0x62 ∷ 0x06 ∷ 0x01 ∷ 0x03 ∷ 0x00 ∷ 0x0A ∷ 0x1C ∷ 0x01 ∷ 0x31 ∷ 0x96 ∷ [])
    ∷ (0xB5 ∷ 0x62 ∷ 0x06 ∷ 0x01 ∷ 0x03 ∷ 0x00 ∷ 0x0A ∷ 0x26 ∷ 0x01 ∷ 0x3B ∷ 0xAA ∷ [])
    ∷ (0xB5 ∷ 0x62 ∷ 0x06 ∷ 0x01 ∷ 0x03 ∷ 0x00 ∷ 0x0A ∷ 0x11 ∷ 0x01 ∷ 0x26 ∷ 0x80 ∷ [])
    ∷ (0xB5 ∷ 0x62 ∷ 0x06 ∷ 0x01 ∷ 0x03 ∷ 0x00 ∷ 0x0A ∷ 0x02 ∷ 0x01 ∷ 0x17 ∷ 0x62 ∷ [])
    ∷ (0xB5 ∷ 0x62 ∷ 0x0A ∷ 0x09 ∷ 0x00 ∷ 0x00 ∷ 0x13 ∷ 0x43 ∷ [])
    ∷ (0xB5 ∷ 0x62 ∷ 0x0A ∷ 0x05 ∷ 0x00 ∷ 0x00 ∷ 0x0F ∷ 0x37 ∷ [])
    ∷ (0xB5 ∷ 0x62 ∷ 0x0A ∷ 0x04 ∷ 0x00 ∷ 0x00 ∷ 0x0E ∷ 0x34 ∷ [])
    ∷ (0xB5 ∷ 0x62 ∷ 0x06 ∷ 0x01 ∷ 0x03 ∷ 0x00 ∷ 0x01 ∷ 0x22 ∷ 0x01 ∷ 0x2E ∷ 0x87 ∷ [])
    ∷ (0xB5 ∷ 0x62 ∷ 0x06 ∷ 0x01 ∷ 0x03 ∷ 0x00 ∷ 0x01 ∷ 0x34 ∷ 0x01 ∷ 0x40 ∷ 0xAB ∷ [])
    ∷ (0xB5 ∷ 0x62 ∷ 0x06 ∷ 0x01 ∷ 0x03 ∷ 0x00 ∷ 0x01 ∷ 0x07 ∷ 0x01 ∷ 0x13 ∷ 0x51 ∷ [])
    ∷ (0xB5 ∷ 0x62 ∷ 0x06 ∷ 0x01 ∷ 0x03 ∷ 0x00 ∷ 0x01 ∷ 0x3C ∷ 0x01 ∷ 0x48 ∷ 0xBB ∷ [])
    ∷ (0xB5 ∷ 0x62 ∷ 0x06 ∷ 0x01 ∷ 0x03 ∷ 0x00 ∷ 0x01 ∷ 0x35 ∷ 0x01 ∷ 0x41 ∷ 0xAD ∷ [])
    ∷ (0xB5 ∷ 0x62 ∷ 0x06 ∷ 0x01 ∷ 0x03 ∷ 0x00 ∷ 0x01 ∷ 0x3B ∷ 0x01 ∷ 0x47 ∷ 0xB9 ∷ [])
    ∷ (0xB5 ∷ 0x62 ∷ 0x06 ∷ 0x01 ∷ 0x03 ∷ 0x00 ∷ 0x01 ∷ 0x60 ∷ 0x01 ∷ 0x6C ∷ 0x03 ∷ [])
    ∷ (0xB5 ∷ 0x62 ∷ 0x06 ∷ 0x01 ∷ 0x03 ∷ 0x00 ∷ 0x01 ∷ 0x30 ∷ 0x01 ∷ 0x3C ∷ 0xA3 ∷ [])
    ∷ (0xB5 ∷ 0x62 ∷ 0x06 ∷ 0x01 ∷ 0x03 ∷ 0x00 ∷ 0x01 ∷ 0x06 ∷ 0x01 ∷ 0x12 ∷ 0x4F ∷ [])
    ∷ (0xB5 ∷ 0x62 ∷ 0x06 ∷ 0x01 ∷ 0x03 ∷ 0x00 ∷ 0x01 ∷ 0x43 ∷ 0x01 ∷ 0x4F ∷ 0xC9 ∷ [])
    ∷ (0xB5 ∷ 0x62 ∷ 0x06 ∷ 0x01 ∷ 0x03 ∷ 0x00 ∷ 0x02 ∷ 0x34 ∷ 0x01 ∷ 0x41 ∷ 0xAE ∷ [])
    ∷ (0xB5 ∷ 0x62 ∷ 0x06 ∷ 0x01 ∷ 0x03 ∷ 0x00 ∷ 0x02 ∷ 0x20 ∷ 0x1E ∷ 0x4A ∷ 0xA3 ∷ [])
    ∷ (0xB5 ∷ 0x62 ∷ 0x06 ∷ 0x01 ∷ 0x03 ∷ 0x00 ∷ 0x02 ∷ 0x35 ∷ 0x01 ∷ 0x42 ∷ 0xB0 ∷ [])
    ∷ (0xB5 ∷ 0x62 ∷ 0x06 ∷ 0x01 ∷ 0x03 ∷ 0x00 ∷ 0x03 ∷ 0x10 ∷ 0x01 ∷ 0x1E ∷ 0x69 ∷ [])
    ∷ (0xB5 ∷ 0x62 ∷ 0x06 ∷ 0x01 ∷ 0x03 ∷ 0x00 ∷ 0x03 ∷ 0x02 ∷ 0x01 ∷ 0x10 ∷ 0x4D ∷ [])
    ∷ (0xB5 ∷ 0x62 ∷ 0x06 ∷ 0x01 ∷ 0x03 ∷ 0x00 ∷ 0x03 ∷ 0x0F ∷ 0x01 ∷ 0x1D ∷ 0x67 ∷ [])
    ∷ (0xB5 ∷ 0x62 ∷ 0x06 ∷ 0x01 ∷ 0x03 ∷ 0x00 ∷ 0x03 ∷ 0x0A ∷ 0x01 ∷ 0x18 ∷ 0x5D ∷ [])
    ∷ (0xB5 ∷ 0x62 ∷ 0x06 ∷ 0x01 ∷ 0x03 ∷ 0x00 ∷ 0x03 ∷ 0x09 ∷ 0x01 ∷ 0x17 ∷ 0x5B ∷ [])
    ∷ (0xB5 ∷ 0x62 ∷ 0x06 ∷ 0x01 ∷ 0x03 ∷ 0x00 ∷ 0x08 ∷ 0x10 ∷ 0x01 ∷ 0x23 ∷ 0x78 ∷ [])
    ∷ []
