-- ===== src/Output/Tests.antt =====
-- A log of one message, a summary and a list of one entry.
use virus_detector.Base.{
  ℕ, ◌≡◌, refl, true, false, none, some, List, [], ◌∷◌, ◌++◌, Bytes, codes, append_name, lines, map,
  arith,
}
use virus_detector.Metadata.{QuarantineEntry}
use virus_detector.Pipeline.{ScanSummary}
use virus_detector.Output.{
  info, Logger, write, PerformanceMonitor, stop, to_log_line, print_scan_summary,
  print_quarantine_list, new_logger, make_file_name, three_digits, israel_local_time,
}
use virus_detector.Output.Decimal.{decimal, numbers}
use virus_detector.Output.Log.{
  Message, line_of, write_all, stop_all, report, map_lines, stop_all-lines,
}
use virus_detector.Output.Console.{listed_ids, summary-numbers, ids-print_quarantine_list}

abbrev clock : Bytes → ℕ → Bytes
clock format time = codes "12:00"

abbrev seconds : ℕ → Bytes
seconds n = codes "0.001"

abbrev logger : Logger
logger = record { file_path = codes "logs/a.log"; file = some [] }

abbrev started : List Message
started = (info, 5000, codes "Scan started: /r") ∷ []

abbrev monitor : PerformanceMonitor clock
monitor = record {
  logger = write_all clock started logger;
  console = [];
  label = codes "Total run time";
  started = 0;
  stopped = false;
}

stop_all-lines_example :
    let text = report clock seconds (codes "Total run time") 1000000 in
    let after = stop_all clock seconds ((7, 7) ∷ []) (stop clock seconds 1000000 6000 monitor) in
    (map_lines clock after.logger.file
      ≡ some (map (line_of clock) (started ++ (info, 6000, text) ∷ [])))
    × (lines after.console ≡ text ∷ [])
stop_all-lines_example =
    stop_all-lines clock seconds started ((7, 7) ∷ []) 1000000 6000 logger monitor
      (λ time. omega arith) (λ n. omega arith) (omega arith, tt) (omega arith) refl refl refl refl

-- The name of the file of a run, with milliseconds on three digits.
file_name : (new_logger clock (codes "logs") true 5042).file_path ≡ codes "logs/12:00_042.log"
unfolding new_logger make_file_name israel_local_time three_digits append_name
    virus_detector.Base.ends_with_slash
file_name = refl

abbrev summary : ScanSummary
summary = record {
  discovered = 120;
  scanned = 100;
  cached = 19;
  excluded = 0;
  malicious = 2;
  quarantined = 1;
  failed = 1;
}

printed_numbers : decimal 120 ≡ codes "120"
unfolding decimal virus_detector.Output.Decimal.decimal_before
printed_numbers = refl

summary-numbers_example :
    (numbers (to_log_line summary) ≡ 120 ∷ 100 ∷ 19 ∷ 0 ∷ 2 ∷ 1 ∷ 1 ∷ [])
    × (numbers (print_scan_summary summary) ≡ 100 ∷ 19 ∷ 2 ∷ 1 ∷ 1 ∷ [])
summary-numbers_example = summary-numbers summary

abbrev entry : QuarantineEntry
entry = record {
  id = codes "0f";
  original_path = codes "/r/a";
  quarantine_path = codes "q/0f";
  signatures = codes "E" ∷ [];
  file_size = 12;
  quarantined_at = codes "now";
  original_permissions = none;
}

ids-print_quarantine_list_example :
    listed_ids (lines (print_quarantine_list (entry ∷ []))) ≡ codes "0f" ∷ []
ids-print_quarantine_list_example =
    ids-print_quarantine_list (entry ∷ [])
      ((omega arith, omega arith, (omega arith, tt), omega arith), tt)
