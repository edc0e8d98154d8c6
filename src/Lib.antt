-- ===== src/Lib.antt =====
-- Poste Italiane simulation: the logic of a post office that is simulated by processes which share
-- memory, semaphores and message queues. Paths are from the repository's root.
--
-- The parts of the program, and how they interact
--
-- - The director (src/direttore.c) starts the ticket dispenser, the operators and the users, keeps
--   the clock, starts each day, posts the semaphores on which the others wait, starts more users on
--   request, and ends the simulation after its days or when too many users were late.
-- - An operator (src/operatore.c) looks for a free seat of its service, answers the requests that
--   come to it until the post office closes or it goes home early, and releases the seat.
-- - A user (src/utente.c) decides whether to come and for which services, gets a ticket for each,
--   takes a seat where an operator of the service sits, sends the request, and waits for the answer.
-- - The ticket dispenser (src/erogatore_ticket.c) numbers the tickets; src/new_users.c asks the
--   director for more users. include/comunications.h has the types of their messages.
-- - All share the statistics and the table of seats of include/poste.h, each under its lock, and the
--   settings that src/systems/config.c reads.
--
-- The modules
--
-- - Prelude: names of the libraries, Boolean tests, lists over the native numbers (Lists), int and
--   long as bit patterns with their wrap-around (Words), and outcomes with faults (Faults). A fault
--   is what C leaves undefined: an index outside its array, or a division by zero.
-- - Config: include/config.h and src/systems/config.c. Defs has `struct poste_config` and the
--   defaults of `g_config`; Scan the C library's fgets, strchr, strtok and strcmp on lists of bytes;
--   Numbers atoi and atol as in glibc with a long of 64 bits; Load `load_config`, its loop and its
--   chain of keys. Valid, Lines, Entry, Effect, LongLine, Decimal, Settings and RoundTrip have the proofs.
-- - Stats: the statistics of include/poste.h. Updates has each critical section under `stats_lock`:
--   `update_requests_stats`, `update_pause_stats` and the count of active operators of
--   src/operatore.c, `update_fails_stats`, `update_success_stats` and `handle_late_users` of
--   src/utente.c, and the director's writes of the day and the minute. Summary is the abstract view,
--   a function of the history of events; Refines and Totals relate the two.
-- - Stations: the seats of include/poste.h. Defs has `find_seat`, `can_work_today`, `take_seat` and
--   `release_seat` of src/operatore.c, `find_valid_seats`, `attempt_take_seat` and the end of
--   `handle_service` of src/utente.c, and the loop of `start_new_day` of src/direttore.c. Search,
--   Below, Users and NewDay say what they find and do. Sharing and Operators are step relations: users,
--   operators and new days that interleave, one critical section at a time, and operators who wait
--   for a seat in `wait_for_station`.
-- - Queue: src/systems/msg_queue.c. SysV is the interface of System V's message queues, with the
--   laws of its documentation; Wrapper has `mq_open`, `mq_send`, `mq_receive` and `mq_close` over any
--   of them; Fifo and Lines are about the order of what is sent and received; Memory is an instance
--   that meets the laws; Reliable says what a queue with room does whose calls no signal interrupts.
-- - SharedMem: src/systems/shared_mem.c.
-- - Direttore: src/direttore.c. Start has the beginning of `main` up to the copy of the path of the
--   settings, and what the children read of it; Segments the shared memory that the processes open
--   and the director gives back. Defs has `check_new_users_queue`, `start_new_day` and the loop of
--   `main`, a round at a time: what other processes and the system do in a round is a `Round`.
--   Clock and Duration are about time, Report and Ending about the exit mode in `write_stats`, StatsFile about
--   the name of its file, Children about the table of processes. Format has the directives of
--   fprintf, Csv every line that `write_stats` writes, Table a reader of comma-separated values, Rows,
--   Cells and Written the table that it finds. Screen has `print_day_stats` and `print_final_stats`,
--   Shown a reader of their lines, Entries and OnScreen what it finds.
-- - Utente: src/utente.c. Choices has `will_go_to_poste`, `generate_service_list` and
--   `generate_walk_in_time`; Visit has `handle_service` and `day_loop`, from what a user reads of
--   the shared memory and receives to the list of its actions. Services, Accounts, Calls, Day,
--   Each and Told have the proofs. Life has `busy_wait_until_walk_in`, the whole of `day_loop` and the
--   days of `main`.
-- - Operatore: src/operatore.c. Service has `process_service`; Shift has `wait_for_station`,
--   `work_loop` and a day of `main`, as a list of deeds. Deeds, OnSeat, Search, Balance and Each
--   have the proofs. Life has the days of `main`, and the module Lives puts it next to the user's.
-- - Store: the statistics and the seats of include/poste.h as one store. Defs has what the actions of
--   Utente, the deeds of Operatore and the writes of the director do to it, Kept what each step
--   keeps, and Together the days of any number of users and operators interleaved with each other
--   and the director.
-- - Messages: include/comunications.h. Structs has its messages as bytes, Calls the functions of
--   src/utente.c and src/operatore.c that send and receive them, and a round of the loop of
--   src/erogatore_ticket.c. Returns says what a call that went well has done. Tickets is the step
--   relation of all who use the ticket queue, Order what it keeps, Progress that the dispenser
--   answers everyone, Service the exchange of a user with an operator, and Misdelivery a request that
--   comes to another user.
-- - ErogatoreTicket and NewUsers: src/erogatore_ticket.c over a list of received messages, and
--   src/new_users.c.
-- - Tests, and the modules of that name below others: runs on concrete inputs and examples.
--
-- State, bounds and fuel
--
-- A counter of type int is its bit pattern, so that it wraps at 2 ^ 32. double is a parameter: a
-- type with a zero and an addition, of which no law is assumed. Random numbers, the file system, the
-- results of system calls, and the values that a process reads while others may write, are inputs.
-- `load_lines` runs on fuel: each line has a byte or more, so any fuel above the length of the file
-- is enough, and `load_file` gives it that. `free_name` runs on fuel too: one more than the number
-- of a name that is free is enough. So does `dispenser_loop`, for which one more than the number of
-- the requests that wait is enough. All other loops are structural: over the configured
-- seats, over the list of services, or over the inputs of their rounds, where an end of the inputs
-- is an outcome of its own.
--
-- Not modelled
--
-- What is printed on the terminal but the statistics, fork and exec, and the semaphores where no
-- count of tokens is said to be modelled. The calls of the system behind src/systems/msg_queue.c
-- and src/systems/shared_mem.c are parameters and inputs. A call of msgsnd that waits for room is one that
-- is not made yet. tests/ and the build files are not part of the program.
pub mod Prelude
pub mod Config
pub mod Stats
pub mod Stations
pub mod Queue
pub mod SharedMem
pub mod Direttore
pub mod Utente
pub mod Messages
pub mod Operatore
pub mod ErogatoreTicket
pub mod NewUsers
pub mod Store
pub mod Lives
pub mod Tests
