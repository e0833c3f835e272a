-- ===== src/Lib.antt =====
-- A model of the message broker Delibird (C): the broker keeps the messages of six queues in a
-- memory that it partitions itself, and sends them over sockets to the game card, the teams and
-- the game boy, which acknowledge them.
--
-- The parts and the files that model them:
--   Common      numbers, lists and predicates that all parts share; `ℤ` is a C `int`.
--   Wire        operavirus-commons/operavirus-commons.{c,h}: the structs (Types), the serializers and
--               send_message (Encode), the deserializers and receive_message (Decode). A buffer is
--               its size and its bytes; recv(..., MSG_WAITALL) takes bytes off a stream.
--               Payload has the six messages as one type, Readers and Frame the lemmas on what is
--               read back, RoundTrip the round trips.
--   Client      one round of process_message of gameboy/src/gameboy.c and of handle_event of
--               gamecard/src/gamecard.c and team/src/team.c, with send_message_received_to_broker
--               (Events), and what it reads of a frame (Delivery). The command line of
--               gameboy/src/gameboy.c: its texts and serialize_buffer of operavirus-commons (Command),
--               main (GameBoy), and the broker that serves what was entered (Entered).
--   Broker      broker/src/broker.{c,h}: the structs and globals (State), memory_init, the searches
--               and perform_compaction (Partitions), consolidate (Consolidate), eviction and
--               get_free_partition_particiones / _bs (Evict), store_payload_* and store_message
--               (Store), acknowledgements, subscriptions and send_all_messages (Queues),
--               serve_client and process_request (Requests). The proofs: Search, Victims, Layout,
--               Contents, Compaction, Joins, Neighbours, Waiting, Stored and Buddies on the memory; Publish,
--               Subscriptors, Acknowledgements, Sending, Late, Known and Again on the queues.
--   GameCard    gamecard/src/gamecard.{c,h}, the Tall Grass file system: what is mounted and the
--               functions of the commons library on texts (State), the text of the positions
--               (Positions), the bitmap (Bitmap), pokemon_blocks (Blocks), the writing and reading
--               of a content (Files), the directory and the flag of a file (Access), the positions
--               with a pokemon more or less (Updates), and the three handlers (Handlers). The
--               proofs: Lines on the text of the positions, ArrayText on the text of the blocks,
--               Available and Released on the bitmap, Growth and Allotment on pokemon_blocks, Chunks,
--               Writing and Contents on a content, Places, Rewriting, Arrivals and Storing on the
--               positions of a file, NewPokemons, Catching and Requested on the handlers. Create has
--               main of create_tall_grass/src/create_tall_grass.c, the files that
--               it makes, and their mounting.
--   Team        team/src: the dictionaries of quantities of util.c (Dictionary), the structs and
--               globals of team.h, trainer.h, matcher.h and operavirus-commons.h (State), the moves
--               of trainer.c (Movement), matcher.c (Matcher), the handlers of messages of team.c
--               (Events), planner.c (Planner), handle_catch and the detection of deadlocks between
--               two trainers of trainer.c (Catch), exchange_pokemons of team.c and handle_deadlock
--               of resolver.c (Exchange), and the threads as a step relation, with wait_catch and
--               desalojar (Scheduling). The proofs: Counts and Pieces on the dictionaries, Arrival,
--               Nearest, Candidates and Matches on the matcher, Shares on the messages, Accounts on
--               handle_catch, Conservation and Trades on the exchanges, and Exclusion, Dispatch, Steps,
--               Answers, Rounds and Processor on the threads. Start has build_remaining_pokemons of
--               team.c, Remaining what it leaves.
--   Tests       examples at concrete inputs.
--
-- A client calls send_message; serve_client reads the code, process_request reads the header and
-- the message, gives it the next id, sends it to the subscriptors of its queue and stores it.
-- store_message waits for a free partition, which may compact the memory or evict messages,
-- writes the payload and puts the message on its queue with a receiver for each subscriptor. A
-- subscription sends the stored messages; an acknowledgement marks a receiver.
--
-- The game card keeps the places of each pokemon as lines of text in a file, in blocks that a bitmap
-- gives out. A handler opens the file of its pokemon, which other handlers then wait for, reads the
-- positions, writes them with a pokemon more or less, closes the file and answers the broker.
--
-- A team keeps what it still wants, what it looks for and what it has caught as dictionaries. A
-- message of a pokemon that it wants puts it among the received ones; the matcher gives it to the
-- closest free trainer; the planner hands the processor to one match after another; the trainer
-- walks there and asks the broker to catch it, and handle_catch counts the answer. A trainer that
-- holds as many pokemons as it may, but the wrong ones, exchanges them with others.
--
-- How the code is read:
--   A uint32_t is a natural number with its wrap-around written out, and is stored little-endian.
--   A t_list is a list. A pointer to a partition is the partition, and a write through it reaches
--   the element of the list with the same id (write_through). The functions of the commons library
--   on texts are the parameter `Commons`. What the source reads and never set (best_partition,
--   search_count, old_socket, already_subscribed, fields and blocks fresh from malloc) is the
--   parameter `Unset` or `UnsetLocals`; the readings of the clock are arguments.
--   An `Outcome` tells a result from a read of something that was never set (undefined) and from
--   a loop that has not ended (out_of_fuel). `none` of a search stands for the partition with the
--   id -1. Requests are processed one after another: the mutexes of the source serialize the
--   critical sections of the broker, and their interleavings are not modelled.
--   A t_dictionary is the list of its pairs in the order of dictionary_iterator. A pointer to a
--   trainer is its name, and a write through it reaches the trainers of that name. A `double` is
--   the parameter `Double`. A semaphore or mutex of a team is its count; `none` of
--   match_pokemon_with_trainer and planning_catch stands for a thread that waits. The threads of a
--   team interleave in the steps of Scheduling, each of which is atomic; a trainer frees the
--   processor in one step and writes its status in a later one. Distances fit an `int` if all
--   coordinates are below 2^30. remaining_pokemons has the pointers of global_objective for the
--   texts in `shared_quantities`; a catch then writes to both.
--   The mounted file system is a record: the keys of each Metadata.bin as the texts that stand
--   there, the bytes of each block, and the bits of the bitmap; a write to the disk succeeds. The
--   functions of the commons library that split texts are the parameter `Splits`, with what they are
--   documented to do in IsLibrary. check_if_file_is_open is one of its rounds, and a handler that waits
--   is `none`. positions_to_uint32 writes numbers into a block of the size that the source asks for:
--   a write behind it is undefined, and what the block held before is a parameter. The sizes of the
--   game card are `int`s, which the theorems keep below 2^31; atoi is only used on texts of an `int`.
--
-- Fuel: a loop by index over a list that it shortens takes the length of the list. The doubling
-- loops take 32 and 33 rounds, as a uint32_t has 32 bits; the loops that wait
-- for a partition take a fuel of their own. give_me_my_pokemons_dude takes one more than the texts
-- that remain, and Trades shows that to be enough.
--
-- Not modelled: sockets, the making of threads, signals and loggers; dump_memory; the request loop of
-- process_subscriptor; the start of the game card, and
-- the interleaving of its handlers; of the teams, the reading of the configuration, the rule of
-- trainer_must_go_on (a trainer may be preempted at any step) and the queue of planning_deadlock;
-- the directories that create_tall_grass makes.
pub mod Common
pub mod Wire
pub mod Client
pub mod Broker
pub mod GameCard
pub mod Team
pub mod Tests
