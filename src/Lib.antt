-- ===== src/Lib.antt =====
-- Hanami: the parts of the framework that decide how a process starts, serves and stops.
--
-- The development models the Go code of the repository file by file. A Go function that changes
-- state is a function from the state to the state and its results; a Go `error` is an `Option` or a
-- `Result`, and what `errors.Join` joins is the list of its leaves, nil being the empty
-- list. Code that is not in the repository (Fx, gocron, goose, the kernel, TLS) is an argument.
-- Goroutines that report over a channel are a list of what they report, in the order of
-- arrival.
--
-- Base: lists, texts, sorting and the loop that refuses a bad or a repeated entry.
-- Process: process/process.go, the stop controller (RequestStop, RequestExternalRestart).
-- Bootstrap: bootstrap/admission.go and bootstrap/condition.go (Admission, newCoordinator, Initialize).
-- Runner: hanami.go. Runner/Settings has Spec, the run options and resolveSettings;
--   Runner/Phases has Run with prepareIntegrations, buildModules, the cleanups and exitCode. A
--   run returns its effects as a list beside its result: prepareIntegrations records what it
--   acquires and runCleanups what it calls. Runner/Phases/Cleaning, Trace, Holding, Outcomes and
--   Reporting are about their order, the results and the errors of the cleanups.
-- Security: security/linux. Security/Policy has Policy, Validate and normalized; Security/Compare
--   has CompareEffectivePolicy; Security/Seccomp has the filter program and the tables of
--   platform_linux.go, with the kernel's BPF machine as an interface. The rest of
--   platform_linux.go is over the interface Kernel: Security/Handoff has EncodeHandoff, DecodeHandoff and
--   VerifyHandoff, Security/Landlock buildLandlock and its rights, Security/Reexec
--   ReexecForPolicy, SealDescriptors and MaybeReexec, and Security/Apply applyPlatform. An exec that
--   succeeds is the result `replaced` with the state that the new image starts in; the thread
--   that is restricted is the one that goes on, and the runtime's other threads are not
--   modelled. Rights are numbers with the bitwise operations. Security/Paths is path/filepath's Clean;
--   whether a file lies beneath another is the kernel's answer.
-- Health: health/health.go. Health has New, Check and Handler; Health/Arrivals and Health/Worst
--   are about the order of arrival, Health/Verdict about the report and the status code.
-- Http: http/server.go (ServerConfig, Validate) and http/manager.go. Http/Config has the configuration
--   and normalized, Http/Gate the gate of a generation and the check of a probe's response,
--   Http/Manager Replace and what it calls, Http/Manager/Lifecycle NewManager, RotateCertificate,
--   Shutdown, the drain and Current; Http/Manager/Steps puts their critical sections in any
--   order. Http/Fixed has the server with one listener.
-- Scheduler: scheduler/scheduler.go. The native gocron scheduler is a state type with the calls that
--   the code makes of it; the monitor that gocron calls back is a state of its own.
-- Migration: migration/migration.go over an interface for goose's provider.
-- Config: config/config.go. A configuration type is an entry of a table of shapes, so that a type can
--   refer to itself; struct_keys and deref take fuel. Viper is an interface.
-- Database: database/database.go, the runtime over an interface for GORM and database/sql.
-- Observability: observability/observability.go, New, Start and Stop over an interface for the SDK; what
--   New opens and shuts is a list of effects.
-- Ownership: ownership/ownership.go, Prepare over an interface for the file system and the lock;
--   Ownership/Running puts WithRequirement's integration in front of those of a run.
--
-- A text is the list of its bytes, each a character. The `uint64` number of a generation is a natural
-- number, since no process makes 2^64 generations.
--
-- Not modelled: the Fx modules (wiring); log and cli output; the adapters of gin, huma and the database
-- dialects, the starters and the test kit, which mostly call other libraries.
--
-- Only the reflection of config.go takes fuel, two units more than the depth of the type being enough
-- for a type that does not contain itself; every other loop of the source is over a list.
mod Base
pub mod Process
pub mod Bootstrap
pub mod Runner
pub mod Security
pub mod Config
pub mod Health
pub mod Database
pub mod Observability
pub mod Ownership
pub mod Http
pub mod Scheduler
pub mod Migration
