-- ===== src/Driver/KeepsUp/Tests.antt =====
-- A file that is read before it falls behind.
use lkm_char_dev.Base.{◌≡◌, refl, arith}
use lkm_char_dev.Uapi.Layout.{encode_all}
use lkm_char_dev.Driver.Run.{run}
use lkm_char_dev.Driver.KeepsUp.{between, timely_file_gets_all}

timely_file_gets_all_example : run.0.sent 0 ≡ encode_all (between run.0.log 0 1)
unfolding run
timely_file_gets_all_example =
    timely_file_gets_all 0 run.1 (omega arith) ((λ ne. tt), λ e. (omega arith, λ fault. cc)) 1 refl
