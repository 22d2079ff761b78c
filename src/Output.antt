-- ===== src/Output.antt =====
-- What the program writes for its user. Logger/Logger.cpp: the log file, with gmtime_r and std::put_time
-- as one parameter. Performance/PerformanceMonitor.cpp: one line of the log at the end of a run, with
-- the print of a double as a parameter. Console/ConsolePrinter.cpp and ScanSummary.h: the texts.
pub mod Decimal
pub mod Lines
pub mod Log
pub mod Console
pub mod Tests
use virus_detector.Base.{
  ℕ, ◌+◌, ◌-◌, ◌*◌, ◌/◌, ◌%◌, Bool, true, false, Option, none, some, List, [], ◌∷◌, ◌++◌, ◌||◌,
  ◌==◌, Bytes, codes, append_name, ltb, if◌then◌else◌,
}
use virus_detector.Metadata.{QuarantineEntry}
use virus_detector.Pipeline.{ScanSummary}
use virus_detector.Output.Decimal.{decimal}

-- `stream << a << b`.
abbrev pub stream : List Bytes → Bytes
stream [] = []
stream (x ∷ xs) = x ++ stream xs

-- ConsolePrinter::printMessage.
unfoldable pub print_message : Bytes → Bytes
print_message message = stream (message ∷ codes "\n" ∷ [])

pub data LogLevel : Type 0 where
  info warning error : LogLevel

unfoldable pub level_to_string : LogLevel → Bytes
level_to_string info = codes "INFO"
level_to_string warning = codes "WARNING"
level_to_string error = codes "ERROR"

-- `file` is the content of the open file; `none` where it is not open.
pub record Logger : Type 0 where
  pub file_path : Bytes
  pub file : Option Bytes

abbrev israel_offset_seconds : ℕ
israel_offset_seconds = 3 * 60 * 60

-- std::setw(3) with the fill '0', for a number below 1000.
unfoldable pub three_digits : ℕ → Bytes
three_digits n = (48 + n / 100) ∷ (48 + n / 10 % 10) ∷ (48 + n % 10) ∷ []

-- `put_time` prints the UTC calendar of seconds in a format. Times are milliseconds of the system clock.
module _ (put_time : Bytes → ℕ → Bytes) where
  unfoldable pub israel_local_time : Bytes → ℕ → Bytes
  israel_local_time format utc = put_time format (utc + israel_offset_seconds)

  unfoldable pub current_time_text : ℕ → Bytes
  unfolding israel_local_time
  current_time_text now = israel_local_time (codes "%Y-%m-%d %H:%M:%S") (now / 1000)

  unfoldable pub make_file_name : ℕ → Bytes
  unfolding israel_local_time three_digits
  make_file_name now = stream (
      israel_local_time (codes "%Y-%m-%d_%H-%M-%S") (now / 1000)
      ∷ codes "_"
      ∷ three_digits (now % 1000)
      ∷ codes ".log"
      ∷ [])

  -- The constructor; `opens` says whether the file can be opened, and then it is truncated.
  unfoldable pub new_logger : Bytes → Bool → ℕ → Logger
  unfolding make_file_name
  new_logger logs_directory opens now = record {
    file_path = append_name logs_directory (make_file_name now);
    file = if opens then some [] else none;
  }

  unfoldable pub log_line : LogLevel → ℕ → Bytes → Bytes
  unfolding current_time_text level_to_string
  log_line level now message = stream (
      codes "["
      ∷ current_time_text now
      ∷ codes "] "
      ∷ codes "["
      ∷ level_to_string level
      ∷ codes "] "
      ∷ message
      ∷ [])

  unfoldable pub write : LogLevel → ℕ → Bytes → Logger → Logger
  unfolding log_line
  write level now message l = elim l.file [
    | none ↦ l
    | some text ↦ record l { file = some (text ++ (log_line level now message ++ codes "\n")) }
  ]

  -- A monitor with the logger that it does not own, and what the process has printed.
  pub record PerformanceMonitor : Type 0 where
    pub logger : Logger
    pub console : Bytes
    pub label : Bytes
    pub started : ℕ
    pub stopped : Bool

  -- `print_seconds` is the print of nanoseconds as a double of seconds, with three decimals.
  module _ (print_seconds : ℕ → Bytes) where
    unfoldable pub format_duration : ℕ → Bytes
    format_duration elapsed =
        stream
          (print_seconds elapsed ∷ codes " s (" ∷ decimal (elapsed / 1000000) ∷ codes " ms)" ∷ [])

    -- `time` and `now` are those of the steady clock, in nanoseconds, and of the system clock.
    unfoldable pub stop : ℕ → ℕ → PerformanceMonitor → PerformanceMonitor
    unfolding format_duration write print_message
    stop time now m =
        let text = m.label ++ (codes ": " ++ format_duration (time - m.started)) in
        if m.stopped then m else record m {
          stopped = true;
          logger = write info now text m.logger;
          console = m.console ++ print_message text;
        }

-- ScanSummary::toLogLine.
unfoldable pub to_log_line : ScanSummary → Bytes
to_log_line s = stream (
    codes "Scan summary: discovered="
    ∷ decimal s.discovered
    ∷ codes ", scanned="
    ∷ decimal s.scanned
    ∷ codes ", cached="
    ∷ decimal s.cached
    ∷ codes ", excluded="
    ∷ decimal s.excluded
    ∷ codes ", malicious="
    ∷ decimal s.malicious
    ∷ codes ", quarantined="
    ∷ decimal s.quarantined
    ∷ codes ", failed="
    ∷ decimal s.failed
    ∷ [])

-- ConsolePrinter: what each function prints.
unfoldable pub print_scan_summary : ScanSummary → Bytes
print_scan_summary s = stream (
    codes "Scan summary:\n"
    ∷ codes "  Scanned:     "
    ∷ decimal s.scanned
    ∷ codes "\n"
    ∷ codes "  Cached:      "
    ∷ decimal s.cached
    ∷ codes "\n"
    ∷ codes "  Malicious:   "
    ∷ decimal s.malicious
    ∷ codes "\n"
    ∷ codes "  Quarantined: "
    ∷ decimal s.quarantined
    ∷ codes "\n"
    ∷ codes "  Failed:      "
    ∷ decimal s.failed
    ∷ codes "\n"
    ∷ [])

unfoldable pub print_signatures : List Bytes → Bytes
print_signatures [] = []
print_signatures (g ∷ gs) = stream (codes "    - " ∷ g ∷ codes "\n" ∷ print_signatures gs ∷ [])

unfoldable pub signature_list : List Bytes → Bytes
unfolding print_signatures
signature_list [] = codes " (none)\n"
signature_list (g ∷ gs) = codes "\n" ++ print_signatures (g ∷ gs)

-- The bytes of a quoted text: '"' and '\' have a '\' before them.
pub escaped : Bytes → Bytes
escaped [] = []
escaped (c ∷ cs) =
    let rest = escaped cs in if (c == b'"') || (c == b'\\') then b'\\' ∷ c ∷ rest else c ∷ rest

-- `<<` of a std::filesystem::path, which is std::quoted of its string.
unfoldable pub quoted : Bytes → Bytes
unfolding escaped
quoted path = b'"' ∷ (escaped path ++ b'"' ∷ [])

unfoldable pub print_entries : List QuarantineEntry → Bytes
unfolding signature_list quoted
print_entries [] = []
print_entries (e ∷ es) = stream (
    codes "  ID:       "
    ∷ e.id
    ∷ codes "\n"
    ∷ codes "  Original: "
    ∷ quoted e.original_path
    ∷ codes "\n"
    ∷ codes "  Signatures:"
    ∷ signature_list e.signatures
    ∷ codes "  Size:     "
    ∷ decimal e.file_size
    ∷ codes "\n"
    ∷ codes "  Date:     "
    ∷ e.quarantined_at
    ∷ codes "\n"
    ∷ codes "\n"
    ∷ print_entries es
    ∷ [])

unfoldable pub print_quarantine_list : List QuarantineEntry → Bytes
unfolding print_entries
print_quarantine_list [] = codes "Quarantine is empty.\n"
print_quarantine_list (e ∷ es) = codes "Quarantined files:\n" ++ print_entries (e ∷ es)

unfoldable pub print_scan_started : Bytes → Bytes
print_scan_started path = stream (codes "Scanning: " ∷ path ∷ codes "\n" ∷ [])

-- To the stream of errors.
unfoldable pub print_error : Bytes → Bytes
print_error message = stream (codes "Error: " ∷ message ∷ codes "\n" ∷ [])
