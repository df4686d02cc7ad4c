-- ===== src/MyLog/Tests.antt =====
-- A log of one day.
use ifellsofuckinggood.Prelude.{
  ◌≡◌, refl, Bytes, codes, bytes_eq, Bool, true, false, none, List, [], ◌∷◌, returned, arith,
}
use ifellsofuckinggood.MyLog.{error, info}
use ifellsofuckinggood.MyLog.Ztime.{Clock, IsClock}
use ifellsofuckinggood.MyLog.Files.{FileIo, NoneFailed, write_to_file, written, written-lost}
use ifellsofuckinggood.MyLog.Daily.{Entry, put_all, rounds, logged_in_order}

abbrev noon : Clock
noon = record {
  day = codes "20240131";
  hour = codes "12";
  minute = codes "00";
  second = codes "59";
}

noon-IsClock : IsClock noon
noon-IsClock = record { day = ground arith; hour = refl; minute = refl }

abbrev files : FileIo
files = record { path2file = λ p. none; files = λ p. codes "old " }

none_failed : NoneFailed files
none_failed p e = cc

abbrev writes : List (Bool × Bytes × Bytes)
writes =
    (true, codes "a", codes "one ")
    ∷ (true, codes "b", codes "no ")
    ∷ (true, codes "a", codes "two")
    ∷ []

abbrev unopened : FileIo
unopened = write_to_file false (codes "a") (codes "zero ") files

written-lost_example : (written writes unopened).files (codes "a") ≡ unopened.files (codes "a")
unfolding write_to_file bytes_eq
written-lost_example = written-lost writes unopened (codes "a") refl

abbrev entries : List Entry
entries = (noon, info, codes "start") ∷ (noon, error, codes "stop") ∷ []

logged_in_order_example :
    (logs : List Bytes) × (put_all entries [] ≡ returned logs)
    × (let s = rounds (noon ∷ noon ∷ []) (record { logs = logs; files = files }) in
        (s.logs ≡ [])
        × (s.files.files (codes "../log/20240131.log")
            ≡ codes "old [ 12:00:59 -INFO- : ] start\n[ 12:00:59 -ERROR- : ] stop\n"))
logged_in_order_example =
    logged_in_order (codes "20240131") entries (noon ∷ noon ∷ []) files
      (noon-IsClock, (noon-IsClock, tt)) ((noon-IsClock, refl), ((noon-IsClock, refl), tt)) refl
      none_failed
