-- ===== src/Lib.antt =====
-- dockerfuse mounts the file system of a running Docker container. The client
-- (cmd/dockerfuse/client) is a FUSE file system on the host; it uploads a small server, the satellite
-- (cmd/satellite), into the container and talks to it over net/rpc on the pipes of `docker exec`. The
-- two may run on different systems, so that numbers of open flags and errors are translated on both
-- sides (pkg/rpccommon).
--
-- The parts, from the bottom up:
-- - Os: the numbers of open flags and errors on Linux and Darwin, which Go's package syscall has.
-- - RpcCommon: pkg/rpccommon. Flags is SystemToSAFlags and SAFlagsToSystem, Sym is ErrnoToSym and
--   SymToErrno, Error is ErrnoToRPCErrorString and RPCErrorStringTOErrno, Types and SetAttr are the
--   messages of rpc_types.go.
-- - Satellite: cmd/satellite/server. FileSystem is the interfaces of filesystem.go as a record of
--   operations on a world: the operating system is a parameter. A handler of server.go is a function
--   from the state of DockerFuseFSOps (the table of descriptors and the world) to an answer and a new
--   state: Paths has Stat, ReadDir, Unlink, Mkdir, Rmdir, Rename, Readlink, Link and Symlink,
--   Descriptors has Open, Close, Read, Seek, Write and Fsync, Attributes has SetAttr. Dispatch is the
--   choice of the method. OpenFiles states what a system promises about open files; Invariant and
--   Shutdown use it. Spec is the file server as a map from numbers to files. Concurrent has the same
--   handlers as sequences of accesses (Courses) and the goroutines of net/rpc that interleave them
--   (Threads, Orderly); Refinement relates the two views, and Races has interleavings that go wrong.
--   Main is cmd/satellite/main.go: RWCloser, main with its deferred calls, and shutdown.
-- - Client: the operations of DockerFuseClient in client.go over an abstract connection; Session is
--   uploadSatellite, connectSatellite, disconnect and NewDockerFuseClient over the Docker API as a
--   parameter; Options is how NewDockerFuseClient chooses the Docker daemon.
-- - Node: the operations of Node in dockerfuse_fs.go, and filepath.Join and Clean.
-- - Program: main of cmd/dockerfuse/main.go from its parsed flags to the mount, as a chain of steps
--   that may exit; CommandLine is its flags, with what package flag does with them. Steps has the
--   laws of the chain, Ends and Mounts follow it to its exits and to the mount.
-- - System: the client and the nodes over a connection to the satellite. Link is net/rpc: one call is
--   one handler, an error is its text, and a panic of a handler ends the satellite.
-- - Tests: a file system in memory, and concrete runs.
--
-- Strings are lists of bytes. Unsigned numbers are natural numbers with their wrap-around written
-- out, signed ones are integers. Nothing runs on fuel: every loop of the program is a recursion on
-- its list. In System a request is one step, and requests come one by one; in Satellite.Concurrent
-- each access of the table or of the operating system is atomic, and what comes between two accesses
-- is open. How net/rpc runs its goroutines is taken from its documentation. The loop of CloseAllFDs is
-- one step, although the goroutines go on beside it; and the Go runtime may stop a program whose
-- goroutines access a map at the same time, which is not modelled.
--
-- Not modelled: gob, go-fuse, net/rpc, the Docker API and package os, of which the program's use is a
-- parameter or a hypothesis; log lines and contexts; the format of tar archives; the wiring of
-- signals and channels, of which only the handlers are modelled.
pub mod Base
pub mod Os
pub mod RpcCommon
pub mod Satellite
pub mod Client
pub mod Node
pub mod Program
pub mod System
pub mod Tests
