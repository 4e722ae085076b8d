-- ===== src/Lib.antt =====
-- FuseStream mounts the files of a remote media service as a read-only FUSE file system. A file that
-- the user stages appears under Staged/<id>/<name>; its bytes come from a backing store, which fetches
-- them over HTTP when they are read.
--
-- The parts, how they interact, and the files that model them:
-- * internal/fs/fs_fuse.go, the file system: Fs (fuseFS, stagedFileFuse, HasActiveUploads, the
--   evictions, Open, Release), Fs.Paths (the form of a path), Fs.Stage (StageFile), Fs.Tree (Getattr,
--   Readdir, Opendir, Access, Statfs, Read, the callbacks that only answer), Fs.Sleep (sleep
--   prevention, whose goroutines are tasks that run at any time). It holds one backing store per
--   staged file, closes it when neither a tile nor a handle refers to the file, and counts the handles
--   in openRef.
--   Fs.Owners says which staged file owns which store; Fs.Mount is Start, Stop and ForceUnmount, with
--   App Nap prevention (Fs.Mount.Starting, .Stopping, .Leftovers: how they end and what they leave).
-- * internal/fetcher/store_rangelru.go, the backing store that fetches chunks by HTTP Range requests
--   into a bounded cache: Fetcher.RangeLru, Fetcher.RangeLru.New for its constructor and
--   Fetcher.RangeLru.Flights for the calls that share a fetch.
-- * internal/fetcher/store_tempfile.go, the backing store that downloads the whole file to a temp file:
--   Fetcher.TempStore (the downloader, ReadAt with its wait), Fetcher.TempStore.New (the constructor,
--   which asks TempFileManager for space and registers with it), Fetcher.TempStore.Gate (how ReadAt
--   and CloseWithContext wait for one another, as a step relation).
-- * internal/fetcher/fetcher.go, the first fetcher, which nothing uses any more: Fetcher.Legacy (its
--   cache).
-- * internal/logging/fuse_logger.go, the queue and the writer of the messages of the FUSE callbacks:
--   Logging.FuseLogger.
-- * internal/logging/logger.go, the queue, the file and the rotation of all other messages:
--   Logging.FileLogger.
-- * internal/fs/watchdog.go, which counts the FUSE callbacks in flight, and its two channels:
--   Fs.Watchdog (Fs.Watchdog.Restarts: the calls of start and stop).
-- * internal/fetcher/store.go, the choice between the kinds of backing store: Fetcher.Stores.
-- * internal/fetcher/tempfile_manager.go, which the file system asks for disk space before it stages a
--   file, and which evicts the temp files of other backing stores: Fetcher.TempFiles, and
--   Fetcher.TempFiles.Stale for the files of earlier runs.
-- * internal/fs/fs_stub.go, the file system of a build without FUSE: Fs.Stub.
-- * internal/daemon/daemon.go, the life of the one file system of the process: Daemon.
-- * internal/api/oauth.go, the token for the calls of the media service: Api.TokenCache;
--   internal/api/jobs.go, the list of jobs: Api.Jobs over the JSON values of Api.Json;
--   internal/api/downloads.go, the temporary URL that StageFile asks for: Api.Downloads.
-- * ui/app_common.go, what the window asks for: Ui.Jobs (the pages of jobs) and Ui.Uploads (the calls
--   of the file system).
-- * internal/sleep/sleep_darwin.go and internal/appnap/appnap_darwin.go, the assertions that the file
--   system asks macOS for: Platform.Sleep and Platform.AppNap; pkg/config/config.go, the settings:
--   Platform.Config.
-- Base has the helpers: tests on numbers, lists, Go's maps as association lists, machine integers.
--
-- A function of the code is the definition with its name in snake case (getChunk is get_chunk). State
-- is passed on explicitly. What is outside the code is an argument: a record `Env` per part has the
-- answers of the HTTP server and of the disk, the moments at which a context is done, the clock, and
-- what other goroutines do to the shared state while no lock is held. A lock region is one step.
--
-- Where goroutines share state without a common lock, the model is a relation or a list of moves, each
-- of which is one atomic operation: the gate of the temp file store, the calls of getChunk that share
-- a fetch, the writer of the FUSE logger, the critical sections of the first fetcher.
--
-- Bounds: openRef is an int32, written out with its wrap-around; the theorems on handles ask for fewer
-- than 2^31 calls, so that no count wraps. The sums of TempFileManager are taken modulo 2^64. The loop of ReadAt runs on fuel; where every chunk is
-- the file's, more fuel than the buffer is long is enough, since each round copies a byte.
-- Offsets and sizes of ReadAt are natural numbers: FUSE passes no negative offset, and no sum of an
-- offset and a chunk size comes near 2^63. Texts are lists of bytes. The float product of
-- CheckSpaceAvailable is the argument percent_70.
--
-- The wait of the temp file store's ReadAt has one round for each wake-up, given as a list, and the
-- download one round for each read of the body; both lists may end before the loop does. The loggers'
-- buffers have 10000 and 1000 places; the counters of the FUSE logger are taken modulo 2^64.
--
-- Start checks its deadline of 5 seconds at most 51 times, since each round sleeps for 100
-- milliseconds; a ReadDir of the mountpoint may hang, and Start with it. An `int` of the user interface
-- is an integer with the wrap-around of 64 bits. A float64 of JSON is its bit pattern, and its
-- conversion to int64 is an argument.
--
-- Not modelled: log lines, their format and their directories; the loop of ReadAt in the first fetcher,
-- which store_rangelru.go has in a later form; the text of the requests to the media service, of which
-- the model has the parameters; the commands, the dialogs and the other platform services, which have no
-- logic of their own; the ticker of the watchdog. The calls of the file system run one at a time; the
-- order in which Go visits a map is that of the association list.
pub mod Api
pub mod Base
pub mod Daemon
pub mod Fetcher
pub mod Fs
pub mod Logging
pub mod Platform
pub mod Tests
pub mod Ui
