-- ===== src/Gps/Tables.antt =====
-- script/gps/main.c: the tables of messages that are sent to the receiver.
mod M8Head
mod M8Tail
mod M9
mod Debug
pub mod Valid
unfoldable pub use M8Head.{ubx_m8_head}
unfoldable pub use M8Tail.{ubx_m8_tail}
unfoldable pub use M9.{ubx_m9_cfg_poll}
unfoldable pub use Debug.{ubx_debug_message}
use config_env.Prelude.{List, ◌++◌}
use config_env.Gps.Types.{CfgPoll}

-- `gl_ubx_m8_cfg_poll`
unfoldable pub ubx_m8_cfg_poll : List CfgPoll
unfolding ubx_m8_head ubx_m8_tail
ubx_m8_cfg_poll = ubx_m8_head ++ ubx_m8_tail
