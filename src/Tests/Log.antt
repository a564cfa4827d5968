-- ===== src/Tests/Log.antt =====
-- Log output as debug frames.
use cc1352_firmware.Prelude.{ℕ, ◌≡◌, refl, List, [], ◌∷◌, ◌++◌, arith, Bytes, lo}
use cc1352_firmware.Hdlc.{HdlcDriver, hdlc_process_buffer}
use cc1352_firmware.Hdlc.Checksum.{crc16, crc16-laws}
use cc1352_firmware.Hdlc.RoundTrip.{IsIdle}
use cc1352_firmware.System.World.{done}
use cc1352_firmware.LogBackend.{LogOutput, ApiCall}
use cc1352_firmware.LogBackend.Received.{IsBuffered, api_calls, api_calls-received}
use cc1352_firmware.Tests.Samples.{toy, booted, driver}

-- A message is a number: it fills the buffer, and what the buffer held goes out before. Lost
-- messages are counted after a delimiter, which the line has to escape.
abbrev numbers : LogOutput
numbers = record {
  State = ℕ;
  LogMsg = ℕ;
  log_backend_std_get_flags = 1;
  log_output_msg_process = λ s msg flags. ((lo s ∷ []) ∷ (lo flags ∷ []) ∷ [], msg);
  log_backend_std_dropped = λ s cnt. ((0x7e ∷ lo cnt ∷ []) ∷ [], s);
  log_backend_std_panic = λ s. ((lo s ∷ []) ∷ [], 0);
}

numbers-IsBuffered : IsBuffered numbers
numbers-IsBuffered = record {
  processed = λ s msg flags. ground arith;
  dropped = λ s cnt. ground arith;
  panic = λ s. ground arith;
}

driver-IsIdle : IsIdle driver
driver-IsIdle = record { size = refl; empty = refl; fresh_crc = refl; not_escaped = refl }

abbrev collect : Bytes → ℕ → List (Bytes × ℕ) → List (Bytes × ℕ)
collect payload address frames = (payload, address) ∷ frames

abbrev calls : List (ApiCall numbers)
calls = ApiCall.process 65 ∷ ApiCall.dropped 3 ∷ ApiCall.init ∷ ApiCall.panic ∷ []

api_calls-received_example :
    (sent : Bytes) × (d : HdlcDriver) × (api_calls numbers calls 7 booted
      ≡ done 0 (record booted { uart = [] ++ sent }))
    × (hdlc_process_buffer collect crc16 driver sent []
        ≡ (d, (65 ∷ [], 2) ∷ (0x7e ∷ 3 ∷ [], 2) ∷ (1 ∷ [], 2) ∷ (7 ∷ [], 2) ∷ []))
    × IsIdle d
api_calls-received_example =
    api_calls-received {k = toy} numbers numbers-IsBuffered crc16-laws collect driver []
      driver-IsIdle calls 7 booted
