-- ===== src/Lib.antt =====
-- oci-tool copies container images, for all architectures, between registries and directory trees.
-- This library models parts of its C++ code and proves what makes them correct.
--
-- Prelude: shared names, lists over the native numbers, std::string (Strings: positions are size_t
-- with npos), std::map (Dict), methods that change a state and may throw (Effects, Options).
-- Filesystem: what the code uses of std::filesystem and of file streams, over one disk that maps
-- paths to directories and files. A write fails where its directory is missing or the disk is
-- full; on a full disk a copy_file that throws, and a file that is written anew, leave an empty
-- file, and an append adds nothing. `..` and symbolic links are not resolved, and a
-- directory_entry is looked at where it is made; only the constructor of Dir asks entries that it
-- made before it changed the disk. Its children have the texts of paths (Paths) and what a call
-- leaves alone (Laws).
-- Json: nlohmann::json, a vendored library, as a record of its calls with their laws; Json/Tree is
-- an instance. Json/Stream is what is written to and read from files, with Json/Codec as its
-- instance.
-- Schema2: include/OCI/Schema2.hpp and src/lib/OCI/Schema2.cpp, with their from_json and to_json
-- in Schema2/Json.
-- Dir: the client of a directory tree, src/lib/OCI/Extensions/Dir.cpp. Dir/Blobs has hasBlob,
-- putBlob and fetchBlob; its children have the addressing of blobs by content (Sound, Integrity;
-- Roots: its root), an upload in parts (Parts, Upload), a download in pieces (Fetch), and the two
-- together (Transfer). Dir/Manifests has the manifest file of an image (Image; Absolute: a digest
-- that is a path), Dir/Lists the list of a tag with its version file (Complete, RoundTrip; Files:
-- what it leaves alone). Dir/Lifecycle has the constructors, copies and the destructor,
-- Dir/AsClient has the tree as an instance of the interface that Copy takes, as a source (Source;
-- Missing: one that lacks a layer) and as a store (Tree, Store; Synced: of all that Sync brings);
-- Dir/Listing has the map of a directory that is made once for all clients; the iterator visits
-- what is in a directory in the order in which it was made. SHA-256 is a parameter. The loop of
-- fetchBlob has one round of fuel more than the blob has bytes; the search for a free temporary
-- name runs over the random draws that the disk's record holds, and diverges where they end.
-- Registry: src/lib/OCI/Registry/Client.cpp. Registry/Location has the texts that it takes apart;
-- Net is what it uses of cpp-httplib, std::chrono, the environment and number formats, as
-- parameters (Net/Script is an instance for runs); Challenge and Auth have the token, Lifecycle
-- the constructors and copies (Made), Queries ping and hasBlob, Fetch fetchBlob (Told: what it
-- does to the state of its callback), Manifests fetchManifest and putManifest (Lists: those of
-- lists and of schema 1), Uploads uploadStatus, Parts initiateUpload, Blobs putBlob (Bounds),
-- Listing the tags (lib/OCI/Tags.cpp) and tagList; AsClient is the registry as an instance of the
-- interface that Copy takes. Loops that ask again after a failed authorization, and auth on a
-- service that is unavailable, are given fuel and diverge where it ends; fetchManifest is given
-- two rounds, and fetchBlob tries three times.
-- Threads: include/gobha/SimpleThreadManager.hpp as steps of callers and workers in any order,
-- with the destructor (Conservation, Shutdown). The lock is given away between the two tests of
-- wait. A task is run in one step; an exception of a task is not modelled. Threads/Waiting has the
-- workers again (a task may hand in any other at any time, which is more than the program does),
-- under tasks that hand in tasks and wait for them, as lib/OCI/Sync.cpp and lib/OCI/Copy.cpp do
-- (Invariant, Progress), and for the blobs that others download (Stuck, Deadlock); a worker is a
-- number, and Family and Counts have the sums over workers.
-- YamlFile and YamlClient: src/lib/OCI/Extensions/Yaml.cpp; its constructor over a parsed file,
-- and the client. The parser and the registry client are parameters. YamlClient/AsClient is such a
-- file as an instance of the interface that Copy takes, over any client for its registries; a call
-- of std::terminate is one that diverges.
-- BaseClient: the interface of include/OCI/Base/Client.hpp, which Copy and Sync take twice as a
-- parameter.
-- Copy: src/lib/OCI/Copy.cpp. Copy/Layers has the loop over layers as steps of the loops and of
-- the downloads, in any order (Loops, Single, with the counts of Counts); the lock of the working
-- digests is taken for each layer of a search. Any download that was started may run: the queue
-- that it may stand in is left to Threads/Waiting. A blob that the destination has stays there.
-- Copy/Images and Copy/Lists have all of execute for an image, a list and a tag, where no worker
-- is idle, so that SimpleThreadManager::execute runs each task where it is started. The loop over
-- layers is given a number of rounds and diverges where they end; Copy/Images/Rounds has the
-- number that is enough. Copy/Images/Kept, Copy/Images/Stored, Copy/Lists/Kept and Sync/Kept take
-- what a destination keeps through all calls of a copy from its operations. A local copy of a
-- client is destroyed at the end of its function.
-- Sync: src/lib/OCI/Sync.cpp with its background tasks one behind the other.
-- Schema1: the struct of include/OCI/Schema1.hpp, with from_json and to_json of
-- src/lib/OCI/Schema1.cpp in Schema1/Json (Lost: reading what was written).
-- CommandLine: bin/oci-sync.cpp behind its parser of arguments, with the table of
-- include/OCI/Factory.hpp, over the constructors of the clients and Sync::execute as an interface
-- (Endings); that a task ends the program by std::terminate in a worker is one of the results of
-- Sync::execute.
-- Tests: runs on small inputs.
--
-- The programs oci-tool and oci-inspect, and from_json of a registry's error are not modelled.
-- Logging and progress bars have no effect on the state and are left out. Calls on one directory
-- client run one at a time, so its mutexes are no part of the model.
pub mod Prelude
pub mod Filesystem
pub mod Json
pub mod Schema2
pub mod Dir
pub mod Registry
pub mod YamlFile
pub mod YamlClient
pub mod Copy
pub mod Sync
pub mod BaseClient
pub mod Schema1
pub mod Threads
pub mod CommandLine
mod Tests
