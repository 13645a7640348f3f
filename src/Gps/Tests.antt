-- ===== src/Gps/Tests.antt =====
-- Examples for the theorems on script/gps/main.c: a poll of UBX-MON-GNSS and the bytes around its answer.
mod Files
use config_env.Prelude.{
  [], ℕ, zero, suc, ◌<◌, List, ◌∷◌, ◌++◌, ◌≡◌, refl, ◌≢◌, true, false, some, none, length, arith,
  get_elem?,
}
use config_env.Gps.Types.{CfgPoll, cfg_poll}
use config_env.Gps.Checksum.{fletcher, do_checksum}
use config_env.Gps.Checksum.Detect.{corrupted_byte}
use config_env.Gps.Tables.{ubx_m8_cfg_poll, ubx_m8_head}
use config_env.Gps.Tables.Valid.{IsFrame, m8, IsSent-IsFrame}
use config_env.Gps.Poll.{frame_max, pending, ok, nak, feed, start}
use config_env.Gps.Poll.Bounds.{IsBounded, write_index, feed_in_bounds}
use config_env.Gps.Poll.Answer.{covered, encode_frame}
use config_env.Gps.Poll.Sound.{Written}
use config_env.Gps.Poll.Loop.{Turn, received, bytes_in, poll_ubx_data}
use config_env.Gps.Poll.Loop.Result.{poll_writes, poll_returns, poll_answered}
use config_env.Gps.Dump.{Outcome, dump_ubx_cfg, cfg_polls, dump, retry}
use config_env.Gps.Dump.Retries.{OneLine}

abbrev sample : CfgPoll
sample = cfg_poll "UBX-MON-GNSS" (0xB5 ∷ 0x62 ∷ 0x0A ∷ 0x28 ∷ 0 ∷ 0 ∷ 0x32 ∷ 0xA0 ∷ [])

abbrev answer : List ℕ
answer = encode_frame 0x0A 0x28 (1 ∷ 2 ∷ [])

IsSent-IsFrame_example : IsFrame (0xB5 ∷ 0x62 ∷ 0x0A ∷ 0x04 ∷ 0x00 ∷ 0x00 ∷ 0x0E ∷ 0x34 ∷ [])
unfolding ubx_m8_cfg_poll ubx_m8_head
IsSent-IsFrame_example = IsSent-IsFrame (m8 0 refl)

sum_is_right : do_checksum ((1 ∷ []) ++ 2 ∷ 3 ∷ [] ++ (6 ∷ 10 ∷ [])) 5 ≡ true
unfolding do_checksum fletcher
sum_is_right = refl

corrupted_byte_example : do_checksum (((1 ∷ []) ++ 7 ∷ 3 ∷ []) ++ (6 ∷ 10 ∷ [])) 5 ≡ false
corrupted_byte_example =
    corrupted_byte (1 ∷ []) (3 ∷ []) 2 7 6 10 (omega arith) (omega arith) (omega arith) sum_is_right

feed_in_bounds_example :
    let p = feed sample start (0xB5 ∷ 0x62 ∷ 0x0A ∷ 0x28 ∷ 0xFF ∷ 0xFF ∷ []) in
    IsBounded p × (write_index p.state (length p.frame) < frame_max)
feed_in_bounds_example = feed_in_bounds sample (0xB5 ∷ 0x62 ∷ 0x0A ∷ 0x28 ∷ 0xFF ∷ 0xFF ∷ [])

-- The answer in two reads, at 10 and at 20 milliseconds.
abbrev reads : List Turn
reads =
    record { event = received (9 ∷ 0xB5 ∷ []); clock = 10 }
    ∷ record { event = received (0x62 ∷ covered 0x0A 0x28 [] ++ 0x32 ∷ 0xA0 ∷ []); clock = 20 }
    ∷ []

reads_sum : bytes_in reads ≡ (9 ∷ []) ++ (encode_frame 0x0A 0x28 [] ++ [])
unfolding fletcher
reads_sum = refl

poll_answered_example :
    poll_ubx_data sample 8 0 1000 reads ≡ some (ok, ("UBX-MON-GNSS", covered 0x0A 0x28 []) ∷ [])
poll_answered_example =
    poll_answered sample 8 0 1000 reads 0x0A 0x28 (9 ∷ []) [] [] refl refl reads_sum
      (refl, refl, refl) refl (omega arith)

poll_writes_example :
    Written sample (bytes_in reads) ok (("UBX-MON-GNSS", covered 0x0A 0x28 []) ∷ [])
poll_writes_example = poll_writes sample 8 0 1000 reads poll_answered_example

poll_returns_example : poll_ubx_data sample 8 0 15 reads ≢ none
poll_returns_example = poll_returns sample 8 0 15 reads 1 refl (omega arith)

-- A receiver that rejects every message at its second try.
abbrev shy : ℕ → CfgPoll → ℕ → ℕ → Outcome
shy timeout m i zero = (pending, [])
shy timeout m i (suc n) = (nak, [])

shy-OneLine : (timeout : ℕ) (m : CfgPoll) (i n : ℕ) → OneLine (shy timeout m i n)
shy-OneLine timeout m i zero = refl
shy-OneLine timeout m i (suc n) = refl

-- It exits after the first message.
first_entry : get_elem? (dump_ubx_cfg true true 8 shy (λ i. true)) 0 ≡ some ([], 2)
unfolding dump_ubx_cfg dump retry cfg_polls ubx_m8_cfg_poll ubx_m8_head
first_entry = refl
