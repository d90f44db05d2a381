-- ===== src/Lib.antt =====
-- Picobot: the core of the agent, its permissions, tools, notifications, jobs and channels.
--
-- Parts and files (paths of the repository from its root, which is written src/.. for the crate):
--
-- Base: the shared names. A text is the list of its code points; numbers are the native ones.
-- FilePath: std's paths on Unix, and `normalize_path` of src/tools/path_utils.rs.
-- Kernel.Permission, Kernel.Capability, Kernel.Syntax: src/kernel/permissions.rs. A permission
--   covers another, a `CapabilitySet` allows what a member covers, and permissions are read from
--   texts and printed. Capability.Config makes a set from the sections of src/config.rs.
-- Channels: src/channels. Profiles is permissions.rs, the profile of a channel, with which the kernel
--   decides what it may ask the user; RateLimiter and Api are api.rs, the limit on the requests of a
--   key, the reading of keys, users and sessions, the handlers of schedules and of prompts; Whatsapp
--   is whatsapp.rs, who may write, where files lie and how old ones are removed.
-- Kernel.Tool: src/tools/traits.rs, and the registry of src/tools/registry.rs.
-- Kernel.Timeout, Kernel.Invoke: src/kernel/core.rs. `execute_with_timeout` runs a tool within a
--   soft and a hard timeout; `invoke_tool_with_grants` decides whether it may run;
--   `invoke_tool_with_prompt` asks the user where it may not. The state is the session's grants and
--   the world that tools act on. Kernel.Builder has the builder methods that scope a kernel to a
--   user, a session and a set of jobs.
-- Providers: src/providers. Retry is error.rs, the errors of a provider and the loop that asks again;
--   Router the choice of a model from the configuration in factory.rs.
-- Notifications: src/notifications/queue.rs and service.rs. Queue has the operations, Worker one
--   round of `worker_loop` and the steps in which requests, rounds and retries interleave.
-- Scheduler: src/scheduler. Store is the table of jobs with one function for each SQL statement,
--   Executor what `execute` books for each outcome of a run, Executions the table of executions
--   and what a run writes to both tables, Service `tick` with its permits and leases, and
--   `create_job` with its quotas; Expression reads the expressions of schedules. `tick` claims
--   jobs from the store, starts them or releases them, and `complete` writes what the executor
--   books.
-- Session: Manager is the tables of sessions and messages of src/session/manager.rs; Memory is
--   src/session/memory.rs, the context of a prompt and its budget; Memories the tool of
--   src/tools/memory.rs and the table that it acts on.
-- Tools: src/tools. Network is net_utils.rs, which addresses may be reached and how much is read;
--   Http the tool of http.rs on top of it; Files is path_utils.rs and filesystem.rs, the jail of paths
--   and the tool below it; ShellPolicy and Shell the classification of commands and the tool that
--   runs them; Schedule and Notify the tools of schedule.rs and notify.rs, whose checks of users,
--   sessions and channels are in Identity. Input is what they read of their JSON inputs.
-- Examples: concrete data, and each theorem applied to it.
--
-- The parts meet as the code does: the scheduler runs a job with the capabilities that the request
-- brought, in the mode `scheduled_job`, which the kernel's rules on prompts and timeouts read. The
-- tool `schedule` makes such requests of its caller's capabilities and hands them to the service;
-- the tool `notify` adds to the queue; the tool `shell` resolves its directory as the file tool
-- does, and gives the kernel the decision of its policy. A request over the HTTP API passes the
-- keys, then the limit; a handler of schedules scopes the kernel to the user and the session that
-- it read and hands the request to the service, and a prompt opens its session, writes the message
-- before the model is asked and the answer after it.
--
-- Parameters, for what is not in the repository: `Host` (patterns of the crate glob, the home
-- directory), `Floats` (tests on floating-point numbers), the compiler of JSON schemas, `Clock`
-- (parsing of numbers, adding seconds to an instant, cron schedules), `Calendar` (dates, time
-- zones and cron expressions), `Net` (the parser of URLs, the resolver), `Client` (requests, and
-- HTML as text), `FileSystem` (std::fs on a state), the runner of commands, the order of the rows
-- of a query, for the kernel the tools' own code as a `Run` with its time, result and effect, the
-- answers of the user, of a channel and of a model, what else a chat has around it (its profile
-- and its clock), the removal of media from a file system, the enforcement of foreign keys, lower
-- case and the environment.
--
-- Two definitions have fuel. The loop that asks a model again has one round for each attempt, the
-- number of retries and one, and a theorem says that it ends in them; the loop that trims prefixes
-- has the length of the text, which every round but the last shortens. Every other loop of the code
-- that is modelled runs over a list, and an unbounded loop, as that of the notification worker, is a
-- relation of its rounds. Bounded integers keep their saturation and casts where the code has them;
-- instants and durations are unbounded.
--
-- A function that may panic gives an option, whose `none` is the panic.
--
-- Not modelled: logging, errors of the database but a missing row, the agent's run in a job, the
-- events of usage, the handler of prompts that stores no messages (`prompt_handler`), the handling
-- of a message over WhatsApp and the download of its files, the search and multimodal tools, the
-- runners of processes and containers, the extraction of text from HTML, the defaults and the
-- validation of the configuration, and the parts that mostly call libraries (the terminal, the
-- clients of language models, the entry point).

pub mod Base
pub mod Channels
pub mod Examples
pub mod FilePath
pub mod Kernel
pub mod Notifications
pub mod Providers
pub mod Scheduler
pub mod Session
pub mod Tools
