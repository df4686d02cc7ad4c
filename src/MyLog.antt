-- ===== src/MyLog.antt =====
-- The server's part of smer/Log/inc/Log.h: the lines that any thread puts into a queue, and the loop that
-- writes them to the file of the day. The time, as boost gives it, is an argument of the calls that read
-- it.
pub mod Ztime
pub mod Files
pub mod Daily
mod Tests
use ifellsofuckinggood.Prelude.{
  ◌≡◌, Bytes, codes, Bool, Option, none, some, List, [], ◌∷◌, ◌++◌, Outcome, returned, thrown,
  undefined,
}
use ifellsofuckinggood.ConcQueue.{push, try_and_pop}
use ifellsofuckinggood.MyLog.Ztime.{get_cur_time_with_hms, get_cur_time_with_ymd}
use ifellsofuckinggood.MyLog.Files.{FileIo, write_to_file}

-- The four calls that put a line.
pub data Level : Type 0 where
  error debug info warning : Level

abbrev pub level_text : Level → Bytes
level_text error = codes " -ERROR- : "
level_text debug = codes " -DEBUG- : "
level_text info = codes " -INFO- : "
level_text warning = codes " -WARNING- : "

abbrev pub log_path : Bytes
log_path = codes "../log/"

unfoldable pub put_log : Bytes → List Bytes → List Bytes
put_log str logs = push str logs

stamped : Level → Bytes → List Bytes → Outcome Bytes → Outcome (List Bytes)
unfolding put_log
stamped level str logs (returned time) = returned (
    put_log (codes "[ " ++ (time ++ (level_text level ++ (codes "] " ++ (str ++ codes "\n")))))
      logs)
stamped level str logs thrown = thrown
stamped level str logs undefined = undefined

unfoldable pub put_level_log : Level → Bytes → Bytes → List Bytes → Outcome (List Bytes)
unfolding stamped
put_level_log level iso str logs = stamped level str logs (get_cur_time_with_hms iso)

pub record MyLog : Type 0 where
  pub logs : List Bytes
  pub files : FileIo

logged : Bool → Bytes → MyLog → Option Bytes × List Bytes → Option MyLog
logged opens iso s (none, rest) = none
logged opens iso s (some log, rest) =
    let file = log_path ++ (get_cur_time_with_ymd iso ++ codes ".log") in
    some (record { logs = rest; files = write_to_file opens file log s.files })

-- One round of MyLog::run; `none` is a round that goes on waiting. The pop follows a wait for a line that
-- no other thread takes.
unfoldable pub run_round : Bool → Bytes → MyLog → Option MyLog
unfolding logged
run_round opens iso s = logged opens iso s (try_and_pop s.logs)
