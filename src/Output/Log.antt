-- ===== src/Output/Log.antt =====
-- The lines of the log of a run, and the one report of its time.
use virus_detector.Base.{
  ℕ, ◌+◌, ◌-◌, ◌/◌, ◌≡◌, ◌≢◌, refl, sym, ap, ◌∙◌, true, false, Option, none, some, List, [], ◌∷◌,
  ◌++◌, append_assoc, append-nil, Bytes, codes, lines, map, map-append, All, All-append, arith,
}
use virus_detector.Resume.Checkpoint.{IsLine, lines-append}
use virus_detector.Output.{
  israel_offset_seconds, LogLevel, info, warning, error, level_to_string, Logger, current_time_text,
  israel_local_time, log_line, write, PerformanceMonitor, print_message, format_duration, stop,
}
use virus_detector.Output.Decimal.{decimal, decimal-IsLine}
use virus_detector.Output.Lines.{stream-IsLine, unlines, lines-unlines, unlines-end}

-- A call of info, warning or error: the level, when, and the message.
abbrev pub Message : Type 0
Message = LogLevel × ℕ × Bytes

module _ (put_time : Bytes → ℕ → Bytes) where
  -- A date and time has no newline in it.
  abbrev pub PrintsLines : Type 0
  PrintsLines = (time : ℕ) → IsLine (put_time (codes "%Y-%m-%d %H:%M:%S") time)

  abbrev pub line_of : Message → Bytes
  line_of (level, now, message) = log_line put_time level now message

  -- The writes of a run, in the order in which the mutex lets them pass.
  unfoldable pub write_all : List Message → Logger → Logger
  write_all [] l = l
  write_all ((level, now, message) ∷ ms) l = write_all ms (write put_time level now message l)

  abbrev pub map_lines : Option Bytes → Option (List Bytes)
  map_lines none = none
  map_lines (some text) = some (lines text)

  module _ (print_seconds : ℕ → Bytes) where
    -- More calls of stop, at these times; the destructor makes one.
    unfoldable pub stop_all :
        List (ℕ × ℕ) → PerformanceMonitor put_time → PerformanceMonitor put_time
    stop_all [] m = m
    stop_all ((time, now) ∷ ts) m = stop_all ts (stop put_time print_seconds time now m)

    -- Once stopped, a monitor does nothing.
    stop_all-stopped :
        (ts : List (ℕ × ℕ)) (m : PerformanceMonitor put_time) → m.stopped ≡ true → stop_all ts m ≡ m
    unfolding stop_all
    stop_all-stopped [] m h = refl
    stop_all-stopped ((time, now) ∷ ts) m h =
        let same : stop put_time print_seconds time now m ≡ m = unfold stop in rw h refl in
        rw same (stop_all-stopped ts m h)

    -- What a monitor reports.
    abbrev pub report : Bytes → ℕ → Bytes
    report label elapsed = label ++ (codes ": " ++ format_duration put_time print_seconds elapsed)

  write-file :
      (level : LogLevel) (now : ℕ) (message : Bytes) (l : Logger) (ls : List Bytes)
      → l.file ≡ some (unlines ls)
      → (write put_time level now message l).file
        ≡ some (unlines (ls ++ line_of (level, now, message) ∷ []))
  unfolding write
  write-file level now message l ls h =
      rw h (ap some (unlines-end ls (line_of (level, now, message))))

  write_all-file :
      (ms : List Message) (l : Logger) (ls : List Bytes)
      → l.file ≡ some (unlines ls)
      → (write_all ms l).file ≡ some (unlines (ls ++ map line_of ms))
  unfolding write_all
  write_all-file [] l ls h = rw append-nil h
  write_all-file ((level, now, message) ∷ ms) l ls h =
      write_all-file ms (write put_time level now message l)
        (ls ++ line_of (level, now, message) ∷ []) (write-file level now message l ls h)
      ∙ ap (λ x. some (unlines x)) (append_assoc ls _ (map line_of ms))

  line_of-IsLine : PrintsLines → (m : Message) → IsLine (m.2) → IsLine (line_of m)
  unfolding log_line current_time_text israel_local_time
  line_of-IsLine h (level, now, message) k =
      stream-IsLine
        (codes "["
          ∷ current_time_text put_time now
          ∷ codes "] "
          ∷ codes "["
          ∷ level_to_string level
          ∷ codes "] "
          ∷ message
          ∷ [])
        (
          omega arith,
          (
            h (now / 1000 + israel_offset_seconds),
            (omega arith, (omega arith, (level_line level, (omega arith, (k, tt))))),
          ),
        )
    where
      level_line : (level : LogLevel) → IsLine (level_to_string level)
      level_line info = unfold level_to_string in omega arith
      level_line warning = unfold level_to_string in omega arith
      level_line error = unfold level_to_string in omega arith

  lines_of-IsLine :
      PrintsLines → (ms : List Message) → All (λ m. IsLine (m.2)) ms → All IsLine (map line_of ms)
  lines_of-IsLine h [] k = tt
  lines_of-IsLine h (m ∷ ms) k = (line_of-IsLine h m k.0, lines_of-IsLine h ms k.1)

  module _ (print_seconds : ℕ → Bytes) where
    report-IsLine :
        (label : Bytes) (elapsed : ℕ)
        → IsLine label
        → ((n : ℕ) → IsLine (print_seconds n))
        → IsLine (report print_seconds label elapsed)
    unfolding format_duration
    report-IsLine label elapsed h k =
        All-append (λ c. c ≢ 10) label _ h
          (
            omega arith,
            (
              omega arith,
              stream-IsLine
                  (print_seconds elapsed
                    ∷ codes " s ("
                    ∷ decimal (elapsed / 1000000)
                    ∷ codes " ms)"
                    ∷ [])
                  (
                    k elapsed,
                    (omega arith, (decimal-IsLine (elapsed / 1000000), (omega arith, tt))),
                  ),
            ),
          )

    -- A monitor that is stopped for the first time, and perhaps again.
    abbrev stopped_once : ℕ → ℕ → PerformanceMonitor put_time → PerformanceMonitor put_time
    stopped_once time now m =
        let text = report print_seconds m.label (time - m.started) in
        record m {
          stopped = true;
          logger = write put_time info now text m.logger;
          console = m.console ++ print_message text;
        }

    stop_all-first :
        (again : List (ℕ × ℕ)) (time now : ℕ) (m : PerformanceMonitor put_time)
        → m.stopped ≡ false
        → stop_all print_seconds again (stop put_time print_seconds time now m)
          ≡ stopped_once time now m
    stop_all-first again time now m running =
        let first : stop put_time print_seconds time now m ≡ stopped_once time now m =
          unfold stop in rw running refl in
        ap (stop_all print_seconds again) first
        ∙ stop_all-stopped print_seconds again (stopped_once time now m) refl

    -- A run whose log is open writes messages and stops its monitor, which may be told to stop again,
    -- and is by its destructor. The log then reads as one line for each message, in order, with its
    -- time and level, and one last line with the time of the whole run, which the console shows once.
    -- The messages, the label and what the library prints for times have no newline in them.
    pub stop_all-lines :
        (ms : List Message) (again : List (ℕ × ℕ)) (time now : ℕ) (l : Logger)
        (m : PerformanceMonitor put_time)
        → PrintsLines
        → ((n : ℕ) → IsLine (print_seconds n))
        → All (λ k. IsLine (k.2)) ms
        → IsLine m.label
        → l.file ≡ some []
        → m.logger ≡ write_all ms l
        → m.console ≡ []
        → m.stopped ≡ false
        → let text = report print_seconds m.label (time - m.started) in
          let after = stop_all print_seconds again (stop put_time print_seconds time now m) in
          (map_lines after.logger.file ≡ some (map line_of (ms ++ (info, now, text) ∷ [])))
          × (lines after.console ≡ text ∷ [])
    stop_all-lines ms again time now l m h k ms_lines label open_file logged silent running =
        let text = report print_seconds m.label (time - m.started) in
        let all = ms ++ (info, now, text) ∷ [] in
        let text_line = report-IsLine m.label (time - m.started) label k in
        let written : (stopped_once time now m).logger.file ≡ some (unlines (map line_of all)) =
          write-file info now text m.logger (map line_of ms)
            (ap (λ z. z.file) logged ∙ write_all-file ms l [] open_file)
          ∙ ap (λ x. some (unlines x)) (sym (map-append line_of ms ((info, now, text) ∷ []))) in
        rw (stop_all-first again time now m running) (
          rw written (
              ap some (
                lines-unlines (map line_of all) (
                  lines_of-IsLine h all
                    (All-append (λ k. IsLine (k.2)) ms _ ms_lines (text_line, tt))))),
          rw silent
              (unfold print_message in (lines-append text [] text_line ∙ unfold lines in refl)),
        )
