-- ===== src/Lib.antt =====
-- machokeeper keeps the Mach-O files of a Nix store valid: it finds code signatures whose page hashes
-- do not match the file, repairs the ad-hoc ones in place, and can undo a repair from a journal.
--
-- The parts, and the files that model them:
--   engine/engine.go, the core, on the bytes of one file:
--     Engine/Defs       the constants, Kind, ErrCMSRepair, Change
--     Engine/Read       rdLE32, rdBE32, rdBE64, indexing and slicing, HasMachOMagic
--     Engine/Signature  findSignature, hasNonEmptyCMS, detectSlice, sliceCarriesCMS
--     Engine/Container  validSliceBounds, walkContainer
--     Engine/Fixup      fixupSlice, one definition for each of its loops and stages, bytesEqual
--     Engine/Walk       Detect, walk, Check, Repair
--   internal/doctor/doctor.go, the work on files:
--     Doctor/Undo       what undoFile does to the bytes it has read, bytesEq
--     Doctor/Plan       planFileRepair, and the trial repair of scanFile
--     Doctor/Scan       scanFile, readForScan, oversizedFinding
--     Doctor/Pool       the goroutines of walkParallel, its channels and wait group; workers
--     Doctor/Traverse   the traversal of walkParallel, and what it returns
--     Doctor/Flags      parseScanFlags, sizeBoundFromEnv
--     Doctor/Disk       replaceFile on a file system of names and inodes
--     Doctor/Files      repairFileHardlinkSafe, writeRepair, undoFile, Undo
--     Doctor/Run        the repair phase of Run: grouping, consent, repair, reconciliation, exit code;
--                       Run/Rule reduces what a run keeps to the repair of one file
--     Doctor/Lock       withGCLock and gcLockShared, of gclock.go and gclock_unix.go
--     Doctor/JournalFile journalFile, and the writing of the journal's file
--     Doctor/Command    Run and Check: flags, paths, report mode, lock, journal, exit codes
--   internal/hook/hook.go, the entry points for builds and activations:
--     Hook              PostBuild, ScanGeneration, Sweep, closureDelta
--   internal/nixstore, what nix-store is told and prints:
--     Nixstore/Base32       nixBase32, NarHash
--     Nixstore/Lines        Roots, Referrers, PathInfo; storePathBlockers of internal/doctor
--     Nixstore/PathInfo     parsePathInfoCA, IsContentAddressed
--     Nixstore/Registration registrationLines
--     Nixstore/StorePath    StorePathOf
--     Nixstore/Reconcile    reconcileHash of internal/doctor, on the parts above
--   internal/wrap/wrap.go, a nix command with repaired substitutes:
--     Wrap              Run, repairSubstitutes, realise
--     Wrap/Log          willSubstitute, parseSubstitutePaths, cleanPath, dedupe
--   cmd/machokeeper/main.go, the dispatch on the first argument:
--     Cmd               main
--   internal/machofixture/machofixture.go, the files of the Go tests:
--     Fixture           Repairable, CMS, Unsigned, build
-- Detect, Check and Repair drive one traversal, walkContainer, each with its own visitor; walk also
-- scans for CMS signatures with a third one before a repair. The visitor's state holds the bytes, so
-- that a repair of one slice is seen by the visits after it. scanFile asks Detect and Check, and makes
-- a trial repair; planFileRepair repairs and checks again; replaceFile puts the bytes in place;
-- undoFile consumes the journal that Repair writes.
--
-- How the code is read. A byte slice is a list of numbers below 2^8; where bytes are combined the
-- result is cut to its width. An index or a slice expression out of range is a panic, the value
-- `none` of Option, so a theorem that a definition returns shows that the Go code does not panic.
-- Engine/Read has slices panic beyond the length, where Go allows them up to the capacity: the model
-- panics more often. A Go `int` is a natural number: every sum of the code is
-- one of a position in the file and of 32-bit fields, which for a file of less than 2^62 bytes stays
-- below 2^63. Sums and products of uint64 have their wrap-around written out. SHA-1 and SHA-256 are
-- parameters, the record Hashes, with the length of a digest as their law. The files of Tests
-- instantiate them.
--
-- The disk maps names to entries and inode numbers to bytes and modes. Which system calls fail, and
-- what a failed write leaves, is a record Calls, over which the theorems quantify. How the system
-- follows a name that is no regular file's is a parameter, the record System.
--
-- The store's answers are a parameter too, the record Store, after the interface storeBackend; so are
-- the doctor's entry points for Hook, the record DoctorCalls, and for Wrap the functions that the
-- source itself makes injectable, the record Seams. For the commands of Doctor/Command, what
-- walkParallel delivers for a path, and the order in which Run sorts the findings, are functions over
-- which the theorems quantify; Doctor/Traverse relates the first to the worker pool, and Command/Clean
-- and Command/Checked join the commands with the pool, the traversal and scanFile. The calls, the
-- clock and the JSON of a whole run are a record Surroundings. What a database says of a store path is
-- a predicate over which Run/Tracked states what the program relies on, IsTracking.
--
-- The pool is a state with one move for each goroutine: to its next operation on a channel or on the
-- wait group, blocked where Go blocks. Reach lists the interleavings. From 2^61 workers on, a call of
-- make panics, and there is no interleaving.
--
-- A text is a String where the code only compares it, and a list of bytes where it walks it: Base/Bytes
-- and Base/Decimal have what the code uses of Go's strings, strconv and fmt. White space is that of
-- ASCII. Nixstore/StorePath has what path/filepath does to absolute paths on Unix. JSON is read by
-- parameters, and so is the output of each command.
--
-- There is no fuel: the loops count down a number that the code reads (load commands, entries, slots,
-- fat_arch entries) or follow a list. Base/Decimal prints a number with as much fuel as its value, and
-- one more, which its digits never use up.
--
-- Engine/Verify/Spec and Engine/Container/Slices say what a valid signature and a slice of a container
-- are without the walk; the modules beside them relate the code to that. Engine/Fixup/Frame reduces a
-- property that a whole repair keeps to one rewrite of a slot.
--
-- Not modelled: the texts that the commands print, the priorities of internal/doctor, its memory mapping
-- and page cache, the encoding of JSON, the start of processes, and the program that writes the test
-- fixtures to files. These are input and output, or constants of a system call.
pub mod Base
pub mod Engine
pub mod Doctor
pub mod Hook
pub mod Wrap
pub mod Nixstore
pub mod Cmd
mod Tests
pub mod Fixture
