-- ===== src/Lib.antt =====
-- A virus scanner: it walks a directory tree, looks for byte signatures in each file with an
-- Aho-Corasick automaton, on a pool of worker threads, and keeps a checkpoint to resume from, a cache
-- of verdicts and a quarantine.
--
-- The parts, and the code that each file models (paths from the repository's root):
--   Base           Boolean tests, lists, byte strings, text lines and paths that the parts share;
--                  std::string and std::getline, `trim` of Signature/SignatureLoader.cpp.
--   Automaton      Scan/Automaton: AutomatonBuilder::build, addSignature and buildFailureLinks, and
--                  AutomatonScanner::scanChunk. Store, Words, Trie, Goto, Links, Advance, Steps and
--                  Loop prove what the builder makes; Insert, Match and Correct what a scan finds,
--                  Bounds which indexes it uses.
--   FileProcessor  Scan/FileProcessor.cpp: `process` over the chunks of a file.
--   Signature      Signature/SignatureLoader.cpp: `load`, the source of the signatures.
--   Exclude        Exclude: ExcludeSet::load and normalize, PathFilter::isExcluded,
--                  ScanRootValidator::isRootInsideExcludedPath; Prefix is about the strings, Ancestors
--                  about the directories.
--   Cli            CLI/CommandParser.cpp: `parse`, and `usage` after printHelp.
--   Resume         Resume/ResumeManager.cpp (Manager) and ResumePathFilter.cpp (PathFilter);
--                  Safe, Surviving and Restarted are about the checkpoint of a killed process.
--   Traversal      Scan/Traversal: FileTreeWalker::walk, walkDirectory and readSortedChildren and
--                  FileInfoBuilder::build; Listing is the specification, Resumed the equivalence,
--                  InOrder, Sorted, Tidy, Ordered and Named about trees that are listed in the order of
--                  strings.
--   ThreadPool     ThreadPool/ThreadPool.cpp: each critical section as a function, the interleavings
--                  of the threads as the step relation `Step`.
--   Cache          Cache: CacheManager::load, cachedVerdict, update and commitGeneration over SQLite as an
--                  interface; Writer is the thread of CacheWriter.cpp, Rows and NextRun a run and the one after,
--                  InRun the lookups of a run, Failing a commit
--                  that fails.
--   Metadata       Quarantine/QuarantineEntryJson.h and QuarantineRepository.cpp: the entries, their
--                  JSON and the list; Laws reads back what is written.
--   Files          Quarantine/QuarantineFileOperations.cpp over a map of files; Move is about one move.
--   Quarantine     Quarantine/QuarantineManager.cpp: quarantine, restore, restoreAll and remove;
--                  Restored is about there and back, and failures; All about restoreAll; Forgets about a load
--                  that failed; Frame about the files that a quarantine
--                  leaves alone.
--   Pipeline       Scan/Pipeline: handleDiscoveredFile, handleCacheHit, handleCacheMiss and
--                  handleScanResult over the cache, the checkpoint and the quarantine; Schedule has the
--                  interleavings of the walk and the tasks, Accounts is about ScanSummary.
--                  Discovered, Judged, Judging, Ran and Verdicts are about the verdicts of a whole
--                  scan, Followed and Finish about its checkpoint, Whole about scan() around the walk, Again
--                  about the scan after it, Unfinished, Undamaged, Prepared and Killed about a
--                  process that is killed and the one after it, Rescanned about any number of them, Tree
--                  about a whole scan of a tree, Cut about a read error.
--   Application    Application/Application.cpp and main.cpp: a command line and its exit code;
--                  Commands is about those of the quarantine.
--   Output         Logger/Logger.cpp, Performance/PerformanceMonitor.cpp, Console/ConsolePrinter.cpp and
--                  toLogLine of ScanSummary.h: the texts; Log is about the log of a run, Console about
--                  what can be read back from the others.
-- The walk asks Exclude about each path and Resume.PathFilter about each entry; its handler is a
-- state transformer, a parameter. FileProcessor runs the automaton that Signature's strings give.
--
-- Fuel: `link_loop` has the number of nodes, each of which is queued once at most, and `read_loop` one
-- round more than the file has bytes, each round but the last taking one at least. Both are enough.
--
-- Not modelled: the handler of a segmentation fault, the vendored libraries under external, what
-- std::filesystem does to resolve a path (a parameter, PathRules) and changes of the tree in a walk.
-- A thread pool's tasks are numbers. The memory order of atomics is left aside, and so are the
-- notifications of condition variables: a waiting thread may go on whenever its condition holds.
-- SQLite and the JSON library are interfaces with the laws that their manuals state; which system
-- calls succeed is an argument.
pub mod Base
pub mod Automaton
pub mod FileProcessor
pub mod Signature
pub mod Exclude
pub mod Cli
pub mod Resume
pub mod Traversal
pub mod ThreadPool
pub mod Cache
pub mod Metadata
pub mod Files
pub mod Quarantine
pub mod Pipeline
pub mod Application
pub mod Output
