-- ===== src/Lib.antt =====
-- go-drive: a verification library for the core of a file manager that mounts many storage drives.
--
-- A request carries a session. The session's chroot (drive/chroot.go) turns the path of the request
-- into a path below the user's root. The session's permissions on that path are resolved by a
-- PermMap (common/utils/permission_resolver.go), which keeps a path tree
-- (common/utils/path_tree.go) of permissions for each subject. All of these rest on the path
-- functions of common/utils/utils.go. GetDrive (drive/access.go) puts a drive with these checks around
-- the drive at the root (drive/dispatcher.go), which follows the mounts to the drive that a path belongs
-- to, and makes missing directories there. Apart from these, cached downloads of remote files are guarded
-- by range locks (common/drive_util/cache_file_pool.go), and log-ins by a count of failures
-- (server/fail_ban.go) in an expiring cache (common/utils/kv_cache.go).
--
-- Common         tests, lists, Go strings (lists of code points) and the bits of flag words
-- Errors         common/errors/errors.go, the kinds of error only
-- Paths          common/utils/utils.go: CleanPath, PathBase, PathParent, PathDepth and the like, over
--                what they use of Go's packages path and strings (Paths/GoPath)
-- Chroot         drive/chroot.go: WrapPath, UnwrapPath, FilterEntries
-- Permission     common/types/db.go and permission_resolver.go: the order of the permissions and
--                resolveAcceptedPermissions
-- PathTree       common/utils/path_tree.go: the tree as a data type, each method the tree after it
-- Session        common/types/server.go: the user and the groups of a session
-- PermMap        permission_resolver.go: NewPermMap, Filter, ResolvePath, ResolveDescendant
-- RangeLock      common/drive_util/cache_file_pool.go: rangeLock, and sequences of calls on it
-- Drive          common/types/drive.go: the interface of a drive, over the state of its storage, and
--                the entries with their wrappers; Drive/Change: a request for a change
-- PermissionDrive  drive/permission_wrapper.go: the operations of a drive behind permissions
-- ChrootDrive    drive/chroot.go: the operations of a drive behind a chroot
-- ListenerDrive  drive/listener_wrapper.go: the events that are published
-- PathMeta       storage/path_meta.go, drive/path_meta_wrapper.go: settings and passwords of paths, with
--                the cache of settings as a map
-- Access         drive/access.go: the drive of a session, composed of the wrappers
-- MountRules     storage/path_mount_rule.go, server/mount_permission/service.go: permissions of mounts
-- Dispatcher     drive/dispatcher.go: the drive at the root, which finds the drive of a path through
--                the mounts; Names: FindNonExistsEntryName; Directories: ensureDir; Operations: Get,
--                Save, MakeDir, Upload; Listing: List; Moving: Move and Delete; about resolving paths,
--                Nearest and Mounts
-- EntryTree      common/drive_util/utils.go: EntryTreeNode, FlattenEntriesTree, VisitEntriesTree, copyAll
-- MemCache       common/drive_util/mem_cache.go, cache.go: the cache of remote entries, on the path tree
-- Uploads        server/chunk_uploader.go: uploads in chunks: ids, sizes, sending, completing, deleting
-- Tokens         server/file_token.go: the sessions of tokens, in files
-- Retries        server/job/executor.go: scheduleRetry, over the rows of the database; Retries/Overlap: its
--                calls for one job, which may overlap
-- Tasks          common/task: tasks, what may happen to one (Tasks/Life: the effects of its methods one by
--                one, in any order), and the store of a TunnyRunner
-- IdPool         common/utils/id_pool.go: Next and Release over ranges of free ids, with a binary search
-- KvCache        common/utils/kv_cache.go: a cache with expiring items, over the interface ConcurrentMap
--                of a package of others; KvCache/ListMap is an instance that can be run
-- FailBan        server/fail_ban.go: the handler that turns a key away after too many failures
--
-- Strings are valid UTF-8 and given by their code points; where the code cuts one in a character, a
-- byte that is left over stands as its number + 0x110000 (Common/Text/Bytes). Maps are lists of pairs
-- without repeated keys; Go visits a map in any order. The sort of permission items is an insertion
-- sort; Go's sort.Slice is another, unstable one. An int8 depth is kept with 128 added. A mutex that a
-- method holds from its start to its end makes it one step. The float64 numbers of the count of chunks
-- are natural numbers, rounded to 53 bits (Common/Float). Times are numbers, a clock's or a count of
-- units, and a ttl that is not positive is 0.
-- The loop of PathParentTree has the length of its path and one more as fuel, which is enough
-- (Paths/Ancestors); the search for a free number has the number of siblings and one more, which is
-- enough (Dispatcher/Free, Dispatcher/Numbered); the search of IdPool has as many rounds as there are
-- bounds, and one more, which is enough (IdPool/Search).
--
-- Not modelled: Copy of the dispatcher and BuildEntriesTree, the drives themselves and all other
-- I/O, the database, the HTTP handlers, the scripts, search, thumbnails, the copy of golang.org/x/net/webdav, and the web front end.
pub mod Common
pub mod Errors
pub mod Paths
pub mod Chroot
pub mod Permission
pub mod PathTree
pub mod Session
pub mod PermMap
pub mod RangeLock
pub mod Drive
pub mod PermissionDrive
pub mod ChrootDrive
pub mod ListenerDrive
pub mod PathMeta
pub mod Access
pub mod MountRules
pub mod Dispatcher
pub mod EntryTree
pub mod MemCache
pub mod Tasks
pub mod Uploads
pub mod Tokens
pub mod Retries
pub mod IdPool
pub mod KvCache
pub mod FailBan
