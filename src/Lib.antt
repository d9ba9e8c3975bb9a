-- ===== src/Lib.antt =====
-- Rhine, a proxy that intercepts game traffic, dispatches it to modules and mirrors the game
-- state.
-- The program is modelled by pure functions over records; a method that writes its receiver
-- returns the new record.
--
-- Scanner models the scanner of proxy/gamestate/scanner.go: `State` names the functions that the
-- field `step` holds, `step_at` calls them, and `state_...` is one function each. The slice of
-- parse states is a list with the last entry first; an index out of range is the outcome `panic`;
-- an int64 count is its bit pattern, below 2^64. A message is kept as the byte and the context
-- that it is put together from. Scanner/Grammar is the JSON grammar of RFC 8259 on its own, and
-- Scanner/Carry the steps of the scanner through each of its phrases. Scanner/Text has the texts of
-- the errors, with strconv as a parameter.
-- Walk models `WalkAndNotify`: Notify its inner loop over the hooks of a path, Loop its outer loop
-- over the bytes. Tell is the recursion over a derivation of the grammar that Paths compares with
-- them, KeyText the bytes of a key, Fresh the pooled path. The state's lookup is a parameter. A
-- channel is the room that it has while the walk runs and what was sent; receivers that drain a
-- channel during the walk are not modelled. A path from the pool has 64 slices, and an index behind
-- them is the outcome `fault`.
-- Packet models the hooks on packets of proxy/packetHook.go and proxy/dispatch.go: Hook has the
-- map of slices with `insertHook`, `removeHook`, `sortHooks` and `Unhook`, Dispatch the run of a
-- packet through them. A pointer to a hook is a number; `sort.Sort` is a parameter that permutes
-- and orders. Handlers change the state of the modules and may panic; Shared and Range have
-- handlers that unhook hooks of their target while the dispatch ranges over the slice, whose array
-- they share; handlers that insert hooks meanwhile are not modelled.
-- State models proxy/gamestate/gamestate.go and gamestate_hook.go: Store has the fields of
-- `GameState` with the lock, the goroutines that `handle` starts and the hook queue, and one
-- function per method; Steps has their interleavings. A method that waits gives `none`, and a
-- goroutine that would panic or unlock a free lock gives `crashed`. The walk is that of Walk; the
-- decoders, the merge and the lookup are the record Codec. In Steps packets are handled one at a
-- time, while the goroutines run, with whatever the pools give them, and the modules call `Hook`
-- and `Unhook` and receive from their channels; Race lets the calls of `handle` race. Calls has
-- `Get`, `StateSync` and `Unhook`, whose effect Unhook and Reference state, and Mirror replays the
-- packets.
-- Gamedata models utils/gamedata: Pool the goroutines and channels of `updateGameData` in load.go,
-- with what HTTP and the file system give as the outcome of a job, Version its file of etags, Save
-- the jobs that it sends and the file that it writes at its end, and Tables the package's tables
-- in gamedata.go, whose decoded files are parameters. A text is a list of bytes, a Go map a
-- function or a list of entries.
-- Proxy models proxy/proxy.go, proxy/handler.go, proxy/module.go and proxy/requestContext.go: Host
-- the pattern of the game's hosts and the regions, Modules the calls of a module and `initMods`,
-- Users the map of users, Handler a request and its response, Connect the filter of the options
-- and the answer to a CONNECT, Setup `NewProxy` as a whole. A function of a module is the list of
-- calls that it makes; the host filter and gjson are parameters, and so is what the hooks of a
-- packet leave in `ctx.Resp`; a dispatch stands for its pointer.
-- Drops models mods/droplogger: Logger the handlers of the starts and ends of battles, with a nil
-- pointer in a goroutine as the outcome `crashed`, since nothing recovers there, Select the choice
-- of the rewards, Runs the packets of a user one after the other. The file of the entries is closed
-- when `initFunc` returns, and what is written then is lost. A count is an integer; a scale
-- is the bit pattern of its float64.
-- Packetlog models mods/packetlogger: Logger the handler, its goroutines and the shutdown over a
-- record of what bufio.Writer does, Lines the file. A flush while a goroutine prints is a data
-- race, with which a run ends.
-- Log models log/log.go: Output the methods, where a failed write panics, Appended and Written what
-- they write.
-- Filters models proxy/filters/filters.go: Pattern the pattern that `GenerateFilter` compiles.
-- Slices has the loop that takes an entry out of a slice, and lemmas on cut slices.
-- Certs models proxy/certstore.go: Store has `Fetch` over a record of the cache's operations.
-- Authority models utils/cagen.go, utils/cert.go and the part of `NewProxy` in proxy/proxy.go that
-- calls them: Generate has `GenerateCA`, Load `LoadCA` with the globals of goproxy, Start the
-- start. The crypto packages, the random source and the clock are parameters. Disk is the
-- interface of the files that Authority and Gamedata/Save share, with the laws on which they rely.
pub mod Authority
pub mod Certs
pub mod Disk
pub mod Drops
pub mod Filters
pub mod Gamedata
pub mod Log
pub mod Packet
pub mod Packetlog
pub mod Prelude
pub mod Proxy
pub mod Scanner
pub mod Slices
pub mod State
pub mod Walk
