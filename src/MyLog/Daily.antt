-- ===== src/MyLog/Daily.antt =====
-- What the log of a day holds.
use ifellsofuckinggood.Prelude.{
  ◌≡◌, refl, sym, ap, ◌∙◌, Bytes, codes, bytes_eq_refl, Bool, true, none, some, List, [], ◌∷◌, ◌++◌,
  All, append_assoc, append-nil, length, Outcome, returned, thrown, undefined, arith,
}
use ifellsofuckinggood.ConcQueue.{push, try_and_pop}
use ifellsofuckinggood.MyLog.{Level, level_text, log_path, put_log, put_level_log, MyLog, run_round}
use ifellsofuckinggood.MyLog.Ztime.{
  Clock, IsClock, iso_of, hms_of, get_cur_time_with_ymd, cur_times,
}
use ifellsofuckinggood.MyLog.Files.{
  FileIo, NoneFailed, write_to_file, written, texts, written-texts,
}

-- An entry: when it is put, its level and its text.
abbrev pub Entry : Type 0
Entry = Clock × Level × Bytes

abbrev pub line_of : Entry → Bytes
line_of (c, level, str) =
    codes "[ " ++ (hms_of c ++ (level_text level ++ (codes "] " ++ (str ++ codes "\n"))))

abbrev pub lines_of : List Entry → Bytes
lines_of [] = []
lines_of (e ∷ es) = line_of e ++ lines_of es

abbrev pub file_of : Bytes → Bytes
file_of day = log_path ++ (day ++ codes ".log")

next : Outcome (List Bytes) → (List Bytes → Outcome (List Bytes)) → Outcome (List Bytes)
next (returned logs) k = k logs
next thrown k = thrown
next undefined k = undefined

unfoldable pub put_all : List Entry → List Bytes → Outcome (List Bytes)
unfolding next
put_all [] logs = returned logs
put_all ((c, level, str) ∷ es) logs = next (put_level_log level (iso_of c) str logs) (put_all es)

-- The lines of a list of entries, one by one.
abbrev pub line_list : List Entry → List Bytes
line_list [] = []
line_list (e ∷ es) = line_of e ∷ line_list es

-- A round for each time, while there are lines.
unfoldable pub rounds : List Clock → MyLog → MyLog
rounds [] s = s
rounds (c ∷ cs) s = elim (run_round true (iso_of c) s) [ none ↦ s | some s' ↦ rounds cs s' ]

put_all-lines :
    (es : List Entry) (logs : List Bytes)
    → All (λ e. IsClock e.0) es
    → put_all es logs ≡ returned (logs ++ line_list es)
unfolding put_all put_level_log put_log push
put_all-lines [] logs h = ap returned (sym (append-nil logs))
put_all-lines ((c, level, str) ∷ es) logs h =
    rw ((cur_times c h.0).0, put_all-lines es (logs ++ line_of (c, level, str) ∷ []) h.1)
      (ap returned (append_assoc logs (line_of (c, level, str) ∷ []) (line_list es)))

writes_of : Bytes → List Entry → List (Bool × Bytes × Bytes)
writes_of day [] = []
writes_of day (e ∷ es) = (true, file_of day, line_of e) ∷ writes_of day es

rounds-written :
    (day : Bytes) (cs : List Clock) (es : List Entry) (files : FileIo)
    → All (λ (c : Clock). IsClock c × (c.day ≡ day)) cs
    → length cs ≡ length es
    → rounds cs (record { logs = line_list es; files = files })
      ≡ record { logs = []; files = written (writes_of day es) files }
unfolding rounds run_round try_and_pop writes_of written
rounds-written day [] [] files h n = refl
rounds-written day [] (e ∷ es) files h n = absurd (ground arith)
rounds-written day (c ∷ cs) [] files h n = absurd (ground arith)
rounds-written day (c ∷ cs) (e ∷ es) files h n =
    let d : get_cur_time_with_ymd (iso_of c) ≡ day = (cur_times c h.0.0).1 ∙ h.0.1 in
    rw d (
      rounds-written day cs es (write_to_file true (file_of day) (line_of e) files) h.1
        (ground arith))

texts-lines : (day : Bytes) (es : List Entry) → texts (file_of day) (writes_of day es) ≡ lines_of es
unfolding texts writes_of
texts-lines day [] = refl
texts-lines day (e ∷ es) = rw (bytes_eq_refl (file_of day), texts-lines day es) refl

writes_of-All :
    (day : Bytes) (es : List Entry)
    → All (λ (w : Bool × Bytes × Bytes). w.0 ≡ true) (writes_of day es)
unfolding writes_of
writes_of-All day [] = tt
writes_of-All day (e ∷ es) = (refl, writes_of-All day es)

-- Entries of any levels that threads put into an empty queue, in whatever time, and a loop that takes them
-- on one day and can open its file: the queue is empty then, and behind what the file of the day held stand
-- the entries' lines, each with its time, its level and its text, all and in the order in which they were
-- put.
pub logged_in_order :
    (day : Bytes) (es : List Entry) (cs : List Clock) (files : FileIo)
    → All (λ (e : Entry). IsClock e.0) es
    → All (λ (c : Clock). IsClock c × (c.day ≡ day)) cs
    → length cs ≡ length es
    → NoneFailed files
    → (logs : List Bytes) × (put_all es [] ≡ returned logs)
      × (let s = rounds cs (record { logs = logs; files = files }) in
          (s.logs ≡ []) × (s.files.files (file_of day) ≡ files.files (file_of day) ++ lines_of es))
logged_in_order day es cs files ok h n opened =
    let r = rounds-written day cs es files h n in
    (
      line_list es,
      put_all-lines es [] ok,
      (
        rw r refl,
        rw r (
            written-texts (writes_of day es) files (file_of day) opened (writes_of-All day es)
            ∙ ap (λ t. files.files (file_of day) ++ t) (texts-lines day es)),
      ),
    )
