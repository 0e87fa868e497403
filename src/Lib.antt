-- ===== src/Lib.antt =====
-- A model of the core of droidcli, a local agent host, and theorems on it.
--
-- The program keeps a registry of connectors (other HTTP peers, and processes that it launches), a
-- queue of tasks that run now, later or at intervals, and a conversation with a language model.
-- Clients reach them by HTTP requests with small JSON bodies, which hand-rolled scanners read. A chat
-- message starts a turn of the agent: the model names a tool or replies, a gated tool waits for the
-- user, and the result is put into words. The host's loop calls `tick_tasks`, which claims one due
-- task, runs it through a connector or the shell, and records how it ended. Each file here opens with
-- the source that it models:
--
--   Common       byte strings, lists on native numbers, integers of 64 bits
--   Json         src/net/json.cpp: the writer and the field scanners; Json/Object, Json/RoundTrip and
--                Json/Number relate the two, Json/Brackets measures how a text nests
--   Tasks        src/app/tasks.cpp: the queue; Tasks/Wire its requests and listings, the other files
--                their theorems
--   Connectors   src/net/connector.cpp: the registry, its listing and its requests
--   Ai           src/ai: Ai/OpenAi builds a request and Ai/Response parses a response
--                (openai_compat_client.cpp), Ai/Reply is the shape of a reply, and Ai/Runtime is the
--                conversation (language_runtime.cpp)
--   Http         src/notify/parse.cpp, src/net/handlers.cpp (Http, Http/Chat, Http/Routes) and
--                src/net/router.cpp (Http/Routes)
--   Host         cli/host.cpp: register, launch, stop and call of a connector, enqueue, status and
--                cancel of a task, and `tick_tasks`
--   Guards       src/reliability: destructive commands, placeholder paths, bare file names, the
--                desktop token, invented desktop paths and the content of images
--   Wire         tools: Wire/Server reads a request, checks its token, answers it and writes the
--                response (mini_http_server.cpp), Wire/Client sends a request and reads the response
--                (sync_http_client.cpp); the other files follow a message through both
--   Agent        cli/host.cpp: `agent_turn` and `agent_tool_decision` (Agent/Turn), with the approval
--                gate (Agent/Gate, Agent/Arguments), the model's calls (Agent/Provider, also
--                src/ai/model_provider.cpp), the templates (Agent/Templates,
--                src/classify/response_templates.cpp), the replies, and the rows of cli/memory_store.cpp
--                (Agent); Agent/Graded and Agent/Steps carry a relation through a whole turn
--   Mount        cli/http_mount.cpp: which operation of the host a request is for (Mount/Routes), and
--                what the token guards (Mount/Tokens)
--   Processes    cli/process_manager.cpp, its POSIX branch; Processes/Groups follows the process groups
--   Settings     cli/settings_store.cpp: the settings file, Settings/Hex its encrypted token as text
--
-- A function keeps its C++ name. A member function takes the object's fields as a record or a list and
-- returns what it leaves of them with its result; an output parameter is part of the result. A text is
-- the list of its bytes, and a cursor into a text is the text that is left to read. `int64_t` is an
-- integer whose sums wrap to 64 bits (`add64`); C++ leaves an overflowing sum undefined, and wrapping
-- is what common hardware does. `std::stoll` throws beyond 64 bits, and a result `none` or `thrown`
-- stands for that exception. The wall clock, and the counter of task ids, are arguments.
--
-- Two loops run on fuel: `trim` on the length of the queue, of which each round takes one task, and
-- `objects` on the length of the array's text, of which each object takes one byte or more (Ai/Fuel).
-- The loops over `recv` are recursions on the chunks that arrive, with the source's limits of 65536
-- and 1048576 bytes, and the model's attempts are three. What is not under this repository, or not
-- modelled, comes in as a function: the transport of a chat turn, and in `Outside` the HTTP client,
-- the process manager and the shell command, and in `World` the tools, the transport and the file
-- system, and in `Dpapi` the encryption of the system. An action of the agent gives `none` where an
-- exception leaves it. An operation runs from its beginning to its end; of the host's threads only the
-- order of whole operations is modelled, and a tick is one operation, though `Tasks.Cancel` has a
-- cancel between the claim and the end of a run.
--
-- Left out: the host's tools, the terminal interface, the opening and closing of sockets and the
-- Windows branches of the HTTP client and of the process manager, the other tables of the memory
-- store, the media and system probes, and the log.
mod Common
pub mod Json
pub mod Tasks
pub mod Connectors
pub mod Ai
pub mod Http
pub mod Host
pub mod Guards
pub mod Wire
pub mod Agent
pub mod Settings
pub mod Mount
pub mod Processes
