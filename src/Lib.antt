-- ===== src/Lib.antt =====
-- A verification library of touchgocore, a game-server framework in Go.
--
-- The program. The framework gives a game server its services: timers on wheels (localtimer), lists
-- for them (list), ranking lists (ranking), databases (db), scripts (golua), clients over RPC and
-- websockets (rpc, websocket), logs (vars) and helpers (util, random, syncmap, ini). run.go starts
-- and stops them. The library covers list, localtimer, ranking, random, syncmap, the MySQL part of db,
-- the Sprintf of util that makes its statements, and the callbacks and packets of util.
--
-- Prelude: the names that the modules share. Prelude/Int: the signed integers; Prelude/Ptr: heaps,
-- with nil as the address 0, and sequences of addresses; Prelude/Lists, Prelude/Tests: lists by
-- number, Boolean tests, texts as bytes.
--
-- LinkedList: list/list.go and list/node.go. The state is a store, with the nodes and the list
-- headers by address; one function for each method (add, remove, insert_after, insert_before, range,
-- get, clear, new_node), and for each part of one that a lemma speaks of. A callback of Range is a
-- function of the node, the variables of its closure and the store. LinkedList/Chain says which
-- sequence of nodes each list holds (Refines), and the other files, one for each operation, that the
-- operation does to the sequences what its name says. Range, Get and Clear run on fuel; one more than
-- the nodes of the list is enough for a callback that leaves the links alone.
--
-- LocalTimer: localtimer/time.go, on the store of LinkedList. The state is one manager with its
-- timers by address, its five wheels, each with a list and a channel, the statistics and the channel
-- of due timers. The handlers of a wheel's goroutine are functions of the state, run_wheel_step is
-- one turn of its loop, so that an interleaving of the goroutines is a sequence of such steps.
-- Close closes the channels, and the close of a closed one, a panic, is none; the sends are those to
-- open channels, so that a send to a channel that Close has closed meanwhile, a panic too, is left out.
-- Tick, the code of the user, and each reading of the clock are arguments. Counting is about HasNext,
-- Wheels about AddTimer and Close, Counts about the numbers of timers, Ticks about processWheelTick
-- as an instance of LinkedList/Removal.
--
-- Ranking: ranking/ranking.go, the skip list. The state is a heap of nodes, each with its levels, and
-- a heap of rank infos that the nodes and the map of the tree share; 32-bit ranks and spans are bit
-- patterns, keys, times and ids integers. A loop at one level runs on fuel, more than the nodes of the
-- list; a level out of range, where the code panics, is none. descend is the descent that insert,
-- remove, search and rank share. Ranking/Walk says what a linked list of nodes is and where a walk at
-- one level stops, Ranking/Descent where the descent stops at each level, Ranking/Lookup what search
-- and rank answer, Ranking/ByRank what the search by rank gives. Ranking/Levels, LevelLoop and Splice
-- are about one level at a time: a loop over the levels is a sequence of turns, each of which changes
-- the links of one level. Link, Raise, Grown and Insert are about insert, Unlink, Lower and Remove
-- about remove; Shape is the invariant that both keep. Ranking/Tree is the rank tree: Entries and
-- Canonical are the ordered lists of entries that it refines, View what the nodes list, Mapping the
-- map of the ids, Listing, Add, Refine, Drop and Query the calls, History their sequences, Saved the
-- rows of the database. Ranking/Trees has the trees by type, Trees/Load is about loading them. The
-- addresses that a call allocates and the level that it draws are arguments; its theorems want them
-- fresh, as an allocation is.
--
-- Random: random/interface.go; Random/Twister is random/random.go, Random/Lcg random/random2.go, on
-- 64-bit patterns (Word). The seed that the generators share is passed from one to the other. Prime
-- is about isPrime, Cycle, Period and Start about the period of the linear congruential generator,
-- Bits, Bounds and Range about the range of all numbers. The search for the parameters runs on fuel
-- for one power of 5, two trial divisions and five steps of gcd, which are all that it takes.
--
-- Format: Sprintf of util/string.go. A text of a float or a time stands for the value; a percent sign
-- in the format, which fmt would read as a verb, gives no text. Format/Fill: a text in parts.
--
-- Mysql: db/mysql.go, the conditions and the statements; Mysql/Rows the rows of a result,
-- Mysql/Connection the pools of connections. A statement is a text of bytes; a Go map is the sequence
-- of its entries in the order of the traversal, which is any order. Placeholders is about the filters
-- and their arguments, Statements about the texts, RowsOrder about Next.
--
-- SyncMap: syncmap/map.go, the counted map, in sequences of operations that run one after the other.
--
-- Packet: util/echoProtocol.go, the packets of a head and a body. A panic is none, a 32-bit number its
-- bit pattern, and a body's length is not negative. NewFSMessage and PasreFSMessage are left out.
--
-- CallFunction: util/callback.go, functions by key. The state that the functions change, the functions
-- and the answers of the reflection are parameters; a panic ends Do, as its recovery has it.
--
-- Bounds. The counts, intervals and times of timers, which come from the caller, are 64-bit integers
-- whose sums and differences wrap (wrap_64 of Prelude/Int). Identifiers, lengths and statistics, which
-- the code counts up and down by one, are unbounded. The keys, times and ids of ranking are only
-- compared. The numbers of random are 64-bit patterns.
--
-- Not modelled: the mutexes and atomic fields (each function runs alone, as the locks have it), the
-- execution of statements by the database, the drivers, files, sockets, generated code, the
-- interpreter of the scripts, and the services named above that have no file here.
pub mod Packet
pub mod Prelude
pub mod LinkedList
pub mod LocalTimer
pub mod Format
pub mod Mysql
pub mod Ranking
pub mod SyncMap
pub mod Random
pub mod CallFunction
