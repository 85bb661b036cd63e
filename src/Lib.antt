-- ===== src/Lib.antt =====
-- The core of Accelerated Downloader Pro: what a download is, how its bytes are fetched, and how
-- the panel queues, limits, saves and restores downloads.
--
-- Prelude: the shared names, Boolean tests, lists, keys and dictionaries.
--
-- Core: src/adp/core. Models is models.py (Status, the categories), Session the record that
-- session.py stores, Scheduler is scheduler.py, Stats is stats_aggregator.py. A schedule is a
-- dictionary from ids to seconds.
--
-- Downloader: src/adp/core/downloader. State, Sidecar, Finish, Spawn and Lifecycle are the methods
-- of DownloadManager (manager.py), one function each, from a manager to a manager. The manager
-- holds its fields, the size of its file on disk (none: there is no file), its .progress sidecar,
-- the tasks that it gave to the thread pool and the signals that it emitted, newest first. What
-- the clock and the operating system answer in one call is its Env. A speed is a fraction, times are
-- milliseconds. Events has the two ways to reach a manager: calls of its owner and reports of
-- the thread pool, in any order. The other files of this part are theorems.
--
-- Panel: src/adp/gui/main_window/download_panel.py. State has the panel, its slots, its queue and
-- its session; Actions the methods that the window and the API call; Restore the load of a
-- session; Steps all of them as one step function. The panel owns the managers in a dictionary
-- by id and calls them by the functions of Downloader; what it asks of the outside (ids, paths, the
-- files at a path) is the record Outside. The queue holds ids.
--
-- Worker is DownloadWorker (workers.py), over one connection: the file is its bytes by position,
-- the server's answer is given with its body in chunks, and with each chunk what the test for a
-- stale worker says around it. Assembly has the workers of one run together: one file, one
-- chunk_progress and the sum that the manager keeps, in steps of one round of one worker. Rounds
-- relates the loop of Worker to those steps. Metadata is MetadataFetcher (metadata.py) with the
-- descriptions of http.py.
--
-- Torrent: src/adp/torrent and src/adp/gui/torrent_panel.py. States is models.py with the statuses
-- of engine.py, Engine the handles of engine.py and the calls of libtorrent that its operations
-- make, in order. Panel, Moves and Session are TorrentPanel: adding and libtorrent's reports;
-- stopping and moving on completion; resuming, properties, removal, load and save. Alerts is the
-- poll of engine.py, whose signals the panel takes. Actions has all of them as one step function.
-- What libtorrent reads in a source, and what the operating system says of paths and space, is
-- given by the records Source and World.
--
-- Api: src/adp/api/controller.py. Downloads has the calls about downloads, each a step of the
-- download panel; Updates the validation of a torrent's update; Torrents the calls about torrents,
-- each a step of the torrent panel.
--
-- Search: src/adp/search. Models is models.py, Service is service.py: the choice of providers,
-- what becomes of their answers, duplicates and the ranking. A provider's answer is given, and so
-- are the comparisons of the ranker.
--
-- Files: Names is the sanitize_filename of src/adp/utils/url_utils.py, over code points, Storage
-- is src/adp/core/storage.py over what the operating system tells of its volumes. Space relates it
-- to the moves of the torrent panel.
--
-- Settings: Store is src/adp/core/app_settings.py, over JSON values.
--
-- Packager: project_packager.py. Paths, Rules, Excluded and Profiles are the rules of a run, Scan
-- is scan_project over a tree of folders, Signatures and Secrets the secret scan, Digest and
-- Archive the manifest and create_zip, Verify is verify_archive, Config is validate_check_config,
-- Reads what run_config_checks reads, and Command is cmd_package over a file system that is given.
-- Ships says for one path what Scan does in a walk; Shipped, Strict, Gate, Vouched, Verified,
-- Roundtrip, Typed, Reads and Released prove what these promise together.
--
-- No definition needs fuel: the loops run over lists, over a number of ranges that is known before,
-- or over the 64 rounds that the walk to a folder that exists has in the source. Numbers are
-- natural; a subtraction that could go below zero in the source is written out where the difference
-- matters.
--
-- Not modelled: Qt (signals are delivered by the steps, widgets show nothing), the requests
-- library, libtorrent, JSON (nor the texts that it makes of keys that are numbers), log messages and the text of exceptions; the providers of the
-- search and the servers. The file src/adp/core/downloader.py is shadowed by the package of that
-- name and never imported.
pub mod Prelude
pub mod Core
pub mod Downloader
pub mod Panel
pub mod Torrent
pub mod Api
pub mod Search
pub mod Files
pub mod Settings
pub mod Packager
