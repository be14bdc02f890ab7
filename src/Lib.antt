-- ===== src/Lib.antt =====
-- A verification library for resolute-agent-core-go, a Go library that runs a language model agent:
-- it keeps a transcript of messages in a session, offers tools to the model, compacts long
-- transcripts into summaries, and ships tools that read, edit and run. The modules follow the code:
--
-- - Json: encoding/json as the code uses it, over an abstract JSON value. A raw message is nil, a
--   JSON document, or bytes that are none; Json/Size is the length of a document as json.Marshal
--   writes it.
-- - Message: message.go, with Usage of session.go and ToolResult of tool.go. Message/RoundTrip:
--   what the accessors read back from the messages that the constructors build.
-- - ModelRef: parseModelRef of agent.go.
-- - Convert: DefaultConvertToLLM of agent.go.
-- - Compaction: compact.go, from CompactionSettings to prepareCompaction. Compaction/CutPoint is
--   about findCutPoint and prepareCompaction, Compaction/Context about BuildLLMContext.
-- - Compact: Agent.Compact of compact.go. Compact/Prompts has its prompts, Compact/Request is
--   summarizeOnce, Compact/Summarize summarize with the split turn, Compact/Store what a session
--   promises, Compact/Recorded about what is recorded, Compact/Effect about the context behind it.
-- - Retry: summarize_retry.go and summarizeWithLLM of compact.go. Retry/Backoff is about the
--   delays, Retry/Protocol about the loop and its events, Retry/Kept about what it leaves alone.
-- - Session: the SessionRepo backends. Session/Memory is session/memory.go, Session/Internal is
--   internalMemorySession of agent.go, Session/Jsonl is session/jsonl.go, with the cleaning of
--   filepath.Join in Session/FilePath; Session/Log is the log that describes what a backend holds.
-- - ActiveTools: active_tools.go. ActiveTools/Validation is about validateToolConfig,
--   ActiveTools/Sets about sameStringSet, ActiveTools/Selection about what a turn is offered and
--   what a scan restores.
-- - Config: setters.go, snapshot.go, NewAgent and the recording and restoring of active tools in
--   agent.go, flushPendingActiveTools of prompt.go. Config/Repo is the part of the SessionRepo
--   interface of session.go that these use, with its law; Config/Invariant is about the
--   configurations that the setters and resumed sessions reach, Config/Restore about what a resume restores.
-- - Skills: skill.go, from the escaping of a value to the index in the messages of a turn;
--   Skills/Placement is about where it stands.
-- - Loop: prompt.go. Loop/Machine has the events of event.go, the promptRun and the world around
--   it, and the steps that the loop is made of, which may fail; Loop/Stream is the stream of the
--   provider, Loop/Tools is executeTools with prepareToolCall and awaitToolBatch, Loop/Turn is
--   runOneTurn and Loop/Prompt is loop. Loop/Keeps and Loop/KeepsTurn say what each step keeps,
--   Loop/Turns how the loop ends, Loop/AtTurn and Loop/Termination how many turns it takes,
--   Loop/InSync and Loop/Conclusion what the session and the result hold; Loop/Triples is about
--   steps that return, Loop/Slots, Loop/Batch and Loop/Judged about the results of a batch,
--   Loop/Answers, Loop/Recorded and Loop/CutOff about what is recorded of calls.
-- - Truncate: tools/truncate.go. Truncate/Bounds is about TruncateHead and Truncate/Tail about
--   TruncateTail, over Truncate/Lines, Truncate/Reversed and Truncate/Loop; Truncate/Suffix is
--   about truncateStringToBytesFromEnd.
-- - Edit: tools/editdiff.go up to ApplyEditsToNormalizedContent. Edit/Text is the line endings and
--   the functions on strings, Edit/Fuzzy the matching, Edit/Apply the replacements;
--   Edit/LineEndings is about files that keep their line endings, Edit/Slices, Edit/Woven and
--   Edit/Replaced about what exact edits do. Edit/Tool is runEdit of tools/edit.go, and
--   Edit/Writing about the file that it writes.
-- - Shell: tools/shell_output.go. Shell/Utf8 is strings.Map with UTF-8, Shell/Text the text of a
--   chunk, Shell/Clean and Shell/Spacing are about that text, Shell/LastLine about its newlines,
--   Shell/Counters and Shell/Observed about the state behind a chunk, Shell/Snapshot about what is
--   reported of it, Shell/Spilled about the file of the full output, Shell/Execution about
--   ExecuteShellWithCapture. Truncate/Extended and Truncate/Ending say why a buffer with the end of
--   the output is enough.
-- - Bash: tools/bash.go. Bash/Throttle is bashThrottle with the timers of the runtime, Bash/Emitted
--   about its last emit, Bash/Paced about its intervals, Bash/Notices, Bash/Statuses and Bash/Report
--   about what a result says of the output and of the command's end, Bash/Run about the whole call.
-- - Prelude: tests, lists, maps, integers and fallible results. Examples: concrete runs.
--
-- How they interact: the agent's configuration validates its tools by ActiveTools and writes its
-- changes as messages to a session; Compaction reads a session's messages and summaries, and sends
-- what Retry gets from the provider back to it; Convert takes what Compaction leaves of a
-- transcript to the provider. Each turn of the Loop reads the agent's snapshot (Config), builds its
-- context (Compaction), adds the skills (Skills), and writes to the session what the provider and
-- the tools answer. Compact asks for the plan (Compaction), the summary (Retry) and records it in
-- the session. The bash tool (Bash) runs its command through the capture (Shell), whose buffer is
-- cut by Truncate, and its throttle emits what the capture's snapshots say.
--
-- Numbers. A Go int that may be negative is an integer without bounds, a length or an index a
-- natural number; the backoff keeps the wrap-around of an int64, since its doubling can reach it.
-- Byte strings are lists of numbers. A slice that can be nil where the code tells nil from empty is
-- an Option.
--
-- Loops. Loops over a slice recur on the list. The loop over retries takes fuel and answers `none`
-- without it: one unit for each retry that the policy allows is enough. The loops of findCutPoint
-- recur on the index that they walk back. The loop of a prompt takes a unit of fuel for each turn
-- and answers `none` without it: it need not end by itself, and fuel for n turns is enough where a
-- hook stops the n-th.
--
-- Times of the throttle are numbers of nanoseconds; each method and each callback of a timer is one
-- step, and the steps come in any order.
--
-- Parameters. The provider call, the timer and errors.Is (Retry); json.Marshal and json.Unmarshal
-- of a whole record for a file (Session/Jsonl); the text of a raw body (Convert); the backend of a
-- session (Config); the thinking levels of the LLM library (Config); NFKC, the trimming of Unicode
-- spaces and the number of code points (Edit/Fuzzy); the file system, the cancellation and
-- errors.Is (Edit/Tool); the files and what Exec hands over (Shell); the session, the stream, the
-- clock and the hooks (Compact); a timeout in seconds, a floating point number, and what Prepare
-- does (Bash). For a prompt, the Environment of Loop/Machine: the Agent as its setters leave it,
-- the session, the context's cancellation, the queues, the hooks, the providers and the errors.
-- What the goroutines of a batch do is a list of steps in any order, with how the wait for them
-- ends; the theorems say which lists they allow.
--
-- Not modelled: the start of a prompt in agent.go and the calls that fill its queues, the buffer
-- of its events, the two hooks on the headers of a request, typed tools in tool.go, the tools
-- under tools/ other than truncate.go, shell_output.go, bash.go, the replacements of editdiff.go
-- and runEdit without its diffs, skills on disk in piskills/, and FormatSize, which formats
-- floating point numbers. Operating system errors of the file backend are left out, and so are the
-- absolute names of its files: they are relative to the directory, whose name is not empty. Every
-- method that takes a mutex is one step; what runs between two steps is not.
pub mod Prelude
pub mod Json
pub mod Message
pub mod ModelRef
pub mod Convert
pub mod Compaction
pub mod Compact
pub mod Retry
pub mod Session
pub mod ActiveTools
pub mod Config
pub mod Skills
pub mod Loop
pub mod Truncate
pub mod Shell
pub mod Bash
pub mod Edit
pub mod Examples
