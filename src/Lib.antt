-- ===== src/Lib.antt =====
-- A model of C programs of the repository that keep state, with theorems about it. It covers the
-- web server of "Opereting Systems C++/Creation of Multi-thread WebServer using
-- Locks/webserver-files" (server.c, request.c, queue.c), the games of "C - level1 BuiltUp/X_O game with
-- different rules/hw3q1.c" and "C - level1 BuiltUp/Snake game - 2 Snakes compete for food/Snake Game.c",
-- the search of "C - level1 BuiltUp/Sorting Algoritems , BackTracking Recurstion/BackTracking -
-- Recursion.c", and the chess system of "Systems Programming c,c++ & python/Project C -chessSystem
-- and Map":
--
-- * the generic map of mtm_map/map.c, a sorted linked list with an internal iterator, over keys and
--   data that the client copies, compares and frees by function pointers;
-- * the data of the client with these functions, player.c, chessGame.c and tournament.c;
-- * the operations of chessSystem.c, on two such maps, the tournaments and the cards of the players.
--   Each tournament holds a third map, of its games.
--
-- Base holds what every module shares: the names of the libraries, Boolean tests on the native ℕ,
-- the integers with their tests, `length`, and the bind of Option. Tests and constants are `abbrev`.
--
-- Map (mtm_map/map.c). `Map` has the elements in the order of the chain of `next` pointers and the
-- key under the iterator; NULL is `none`, and a pointer to an element is the list that begins at it.
-- `create`, `get_size`, `contains`, `get`, `put`, `remove`, `get_first`, `get_next`, `clear` and
-- `copy` are mapCreate, mapGetSize and so on, and `get_element_by_key` is getElementByKey. mapDestroy
-- and the freeing of elements leave nothing behind that the model could show. What malloc finds is an
-- argument: a Bool per element, and a `copy_data` that may fail. The copies of the keys are taken to
-- find memory, since the code does not test them. Map.Order says what the comparison function must
-- be, an order, and when a list is sorted; Map.Lookup, Map.Put and Map.Remove have the laws of the
-- lookups; Map.Copy is about mapCopy. A client visits a map by mapGetFirst, mapGet and mapGetNext:
-- Map.Iterate is the `while` loop that ends at NULL, with a body that may write the data in place,
-- Map.Counted the `for` loop that counts the elements, Map.Tour the loop of the statistics that counts
-- the rounds, Map.Walk the rules for an invariant of such a loop, Map.All what holds of all the data.
-- The fuel of `iterate` is the number of the elements and one more, of which the theorem shows that it
-- is enough on a sorted list.
--
-- Chess. Types has the structs with their copy and comparison functions. Location is
-- tournamentLocationValid; Games is checkAlreadyExistGame and getPlayerNumberOfGames; Score is
-- updatePlayerScore; GameId is generateGameId, whose fuel is the greatest identifier in use and one
-- more; Valid is the well-formedness of a system, and Cards that of the list of the players.
-- AddTournament is chessCreate and chessAddTournament; AddGame is chessAddGame with addPlayer and
-- updateTournamentPlayers; RemoveTournament is chessRemoveTournament, RemovePlayer chessRemovePlayer, and
-- EndTournament chessEndTournament with its table of points, whose four rows are the fields of a
-- column, and checkWinner, whose index of the leading column is the column. PlayTime is
-- chessCalculateAveragePlayTime. Statistics is chessSaveTournamentStatistics and Levels
-- chessSavePlayersLevels, with their helpers; the file is the list of the lines in it, and an argument
-- says which lines can be written. A level is a value of a type with a linear order, as the finite
-- doubles have it; the fuel of its loop is the number of the entries and one more.
-- An operation takes the system and gives the result with the new system; where it can read through
-- NULL it gives an Option, and `none` is that fault. The modules below an operation have what its
-- loops compute and what the call leaves. Chess.Sample is a small system, and Map.Tests, Chess.Runs
-- and Chess.Tests run the definitions and apply the theorems to it.
--
-- Avoidance (hw3q1.c). `Game` has the variables of main, the board and the recorded moves as functions
-- of their indices. Each function of the file that keeps or reads state is a definition of its name;
-- input is the list of the numbers that scanf reads, `none` is its end (where the code loops), and the
-- output is left out. The sizes are those of a board that fits the arrays. `rounds` takes a number
-- of rounds as fuel; each round reads a number, so a number above the length of the input is enough.
-- Plays has the rounds without fuel, Turns is about undo, Lines about the checks for a line.
--
-- Queue (queue.c). `Queue` has the chain of nodes from head, and tail as the position of its node in
-- the chain; `enqueue`, `dequeue`, `dequeue_by_index`, `queue_find_by_value` and `queue_find_index` are
-- the functions of these names. Queue.Refine says when a queue is well formed and what enqueue and
-- the search do to the list of its nodes, Queue.Dequeue the same for the two that take a node out.
-- Every malloc of the file is taken to find memory, as the code does.
--
-- Server (server.c, beside queue.c). What a thread does between the lock and the unlock of the mutex is
-- one function on the two queues: `arrive` is the body of the loop of main, with `overload` for the
-- policies; `take` and `finish` are the two sections of thread_function. Outside of them a thread only
-- reads its own variables, or calls Accept, Close and requestHandle. Server.System is the state of all
-- the threads with a step for each section: a signal wakes one waiting thread if there is one, a wait
-- may end by itself, as pthread_cond_wait allows, and the numbers of rand are arbitrary. The lists of
-- accepted and closed descriptors are a history that no step reads. Contents, Sections, Random and
-- Arrive say what the sections do, Moves, MainMoves and Invariant what the steps keep; Safety, Progress
-- and Drain are about reachable states, Other about a policy that the code does not know.
--
-- Request (request.c), on Text, the bytes of C's texts with the functions of string.h and stdio.h
-- that it uses. `request_handle` is requestHandle: the lines that the client sends and `stat` go in,
-- and what is written, mapped or started comes out as a list of events, with the counters of the
-- threads. Calls of the wrappers of segel.c are taken to succeed. Uri is about the name of the file,
-- Served about what goes out, Counted about the counters.
--
-- Snake (Snake Game.c). `Game` has the board, a function of the number of a cell, the two snakes and
-- their arrays; the cells and the counter in front of the arrays, which the code writes, are part of it.
-- Snake has the operations on the board and the arrays, Snake.Turns the round `play` of startGame, the
-- loop `rounds` and the program `main`, with a number of rounds as fuel. History is about
-- the arrays, Draw and Shown about the board, Room about the length of the arrays, Both, Play, Carry and
-- Rounds about the two snakes together, Food about the food, Steps about the counters, Reached about the
-- states of a game, and End has the rounds without fuel. A round reads a number at least, so fuel above
-- the length of the input is not used up.
--
-- Coalitions (BackTracking - Recursion.c). `count_coalitions`, with the array `chosen` handed from call
-- to call, `check_colobration`, and the program `main` on the numbers of the input. Exhaustive has the
-- search without a cut, Pairs is about the test of agreement.
--
-- Choices. An identifier that has passed the guard `id <= 0` is a natural number, and the arguments of
-- a call are integers; the counters on a card and `number_of_players` are integers, since the code
-- lowers them. The overflow of an `int` is not modelled. A location is the list of its characters up
-- to the NUL. The headers map.h and chessSystem.h are not in the repository: the names of their
-- constants are those that the code uses, and FIRST_PLAYER and SECOND_PLAYER are taken to be 0 and 1,
-- as the casts between Winner and PlayerSide need. The field `game_id` of a game is never read or
-- written, and is left out. A loop that only reads moves the iterator of the map, which no later
-- call looks at; it is not kept in the state of the system. The branch for a system that is NULL,
-- which every operation has, returns CHESS_NULL_ARGUMENT and is not modelled. The theorems that say
-- what a call does when memory does not run out have that as a hypothesis; what it does when memory
-- runs out is in the definitions, and in the theorems that say so.
--
-- An average in floating point is the quotient that it is computed from; how a line is formatted is not
-- modelled.
--
-- Not modelled: chessDestroy and the functions that only free, segel.c, the wrappers of a textbook, and the
-- other programs of the repository: exercises on arrays and matrices, a debugger, the C++ programs
-- of data structures, a shell and an allocator, and the Linux headers, which are those of the kernel.
pub mod Base
pub mod Map
pub mod Chess
pub mod Avoidance
pub mod Queue
pub mod Text
pub mod Request
pub mod Server
pub mod Snake
pub mod Coalitions
