-- ===== src/Lib.antt =====
-- The verification library of MassNet-miner, the miner of the MASS blockchain.
--
-- The miner plots files ("spaces", or work spaces) that hold the inverse of a hash-like function P,
-- keeps them in a space keeper that the API acts upon, and looks up proofs of capacity in them when a
-- block is mined.
--
-- Parts and files
--   Common        the names that all parts share: numbers, lists, Boolean tests, bytes.
--   MassDb        poc/engine/massdb/massdb.v1, the file of a space.
--     Base        the library's functions P and flip as a record PocUtil of parameters, of which
--                 Documented states what their documentation says; errors; files.
--     Files       what a write leaves of a file.
--     HashMap     hashmap.go: HashMap, HashMapA, HashMapB with create_map_file (createMapFile),
--                 load (LoadHashMap), get_a, set_a, get_b, set_b (Get, Set). Its children are on the
--                 slots of the records, on Get and Set, and on the header.
--     Cache       cache.go: MemCache with its copy to a file, write_to_writer (WriteToWriter).
--     PrePlot     plot.go: pre_plot_work (prePlotWork), the first half of a plot, with its windows,
--                 checkpoints, stop signals and memory. Its children prove what it leaves behind,
--                 that it ends, and where it does not.
--     Plot        plot.go: plot_work (plotWork), the second half of a plot, with the buffered reading of
--                 map A (Reads, and where it fails, Displaced), its scan (Scan), its rounds (Round,
--                 Work), its end (Total), and what Get of map B then returns (Lookup, Proven, Fresh).
--   Engine        poc/engine/engine.go: the states of a space, their flags, the actions.
--     Flags       States, IsNone and Contains of the flags of a choice of states.
--   Keeper        poc/engine/spacekeeper/capacity, the space keeper.
--     Index       workspace.go: WorkSpaceMap.
--     State       the record SpaceKeeper, the queue and the channel; changeState (move).
--     Actions     capacity.go: plot_ws, mine_ws, stop_ws, remove_ws, delete_ws (PlotWS and so on)
--                 and act_on_work_space (ActOnWorkSpace).
--     Plotting    space_plotter.go: the critical sections of the plotter, begin_plot and end_plot
--                 (Step 1 and Step 3 of plotSpace), pop_item, add_space (addSpaces), quit_plotter.
--     Steps       the interleavings of actions and plotter, as a step relation.
--     The other files prove the invariant (Invariant, Replies, Disuse, Safe, Served, Plotted,
--     Initial), what it gives (Reached, Turns), and what sequences of actions do (Behaviour, Pending).
--   Configure     capacity.go: the lists of spaces that fill a configured size (fillSpaceListBySize,
--                 fillSpaceListByPathSize, generateFillSpaceListBySize) in Fill, with proofs in
--                 Bounds, Outcome and Generate; applyConfiguredWorkSpaces in Apply, with proofs
--                 in Applied, InUse and Configured.
--   Fractal       fractal, the network of collectors under a superior.
--     Base        decoding that returns, fails or dereferences nil; the types of other repositories.
--     Hex, BigInt, Json   encoding/hex, math/big, and the values of encoding/json.
--     Qualities, Proofs, Signatures   protocol/protocol.go: the messages with Msg (x_msg), SetMsg
--                 (new_x, set_x), Bytes (x_json) and SetBytes (read_x).
--     Message     protocol/message.go: encode_message, decode_message (EncodeMessage, DecodeMessage).
--     Collector   collector.go: on_request_qualities (onRequestQualities) with its slots; Slots proves
--                 what it reports.
--     RoundTrip, Rejects, Returns   proofs on the messages.
--   A file Tests holds the concrete examples of a part.
--
-- State and effects. A file is a function from positions to bytes, with a size; an operation takes it
-- and returns it. A record's field stands for a struct's field of the same name. An error is a value
-- of DbError or SkError. What the world does to a loop (the stop signal, free memory, a failing disk)
-- is a stream that the loop is given, so that a theorem that quantifies over it holds whenever the
-- signal comes. A method of the keeper runs under the keeper's lock and is one step; the store of
-- spaces and requests is a function from references, since several indexes point to one space. What
-- MassDB's Delete and StopPlot come to is an argument of the action that calls them (DbReplies), the
-- panic of StopPlot included.
--
-- Bounds and fuel. The logging of a plot divides by a fiftieth of the records, or a hundredth of the
-- volume; the panic on a smaller map is modelled, and a theorem that promises an end without an error
-- asks for larger ones. A bit length is bounded as createMapFile's callers bound it, where a theorem
-- says so. The loop of prePlotWork runs on fuel: the theorem on its end gives the fuel that is
-- enough, and the theorem on its not ending holds for all fuel. The loop of plotWork has enough
-- fuel with a round for each pair and one more. The loop that generates spaces has enough fuel with
-- one more than the target size, since no plot is empty. Sizes are below 2 ^ 63, where a Go int
-- does not wrap.
--
-- Not modelled: MassDBV1, the data race between addSpaces, which takes no lock, and the queue's
-- Delete, the Configure methods around the filling of a size, the keeper's actions by flags, the
-- chia keeper and its miner, the miners, the fractal network's superior and connections, the
-- wallet, the API, the command line, and generated code. P and flip of mass-core's pocutil, plot
-- sizes, hashes, keys, and the priority queue are not in the repository: they are parameters, or,
-- for the queue, the bag of its requests.
pub mod Common
pub mod MassDb
pub mod Engine
pub mod Keeper
pub mod Configure
pub mod Fractal
