-- ===== src/Lib.antt =====
-- A verification of C programs in this repository: the key and value database of c_code/apue/mydb,
-- the control program of virtual machines c_code/cvm/cvm.c, the client c_code/unp/web/web.c, which
-- gets files over connections that it opens without waiting, the reader of C declarations
-- c_code/expert_c/cdecl2.c, and reverse of c_code/1-19-reverse.c, which turns a line round in its
-- buffer.
--
-- The database is a library over two files. The index file begins with 138 pointers of seven
-- characters, the first to the free list and one to each of 137 hash chains, and a newline. An
-- index record is the pointer to the next record of its chain, the length of its text, and the
-- text `key:offset:length`, which says where the data is in the data file. db_store appends a
-- record, or uses one of the free list again, or writes over the data; db_delete puts spaces in
-- the place of key and data and moves the record to the free list; db_fetch follows a chain;
-- db_nextrec reads the records in the order of the file.
--
-- The model: Libc holds what the code uses of the C library (Libc/File: a file of bytes with the
-- offset of its descriptor; Libc/Text: strlen, strcmp and strchr on a buffer; Libc/Decimal:
-- atol, atoi and the formats of sprintf). Of c_code/apue/mydb/db.c, Db/State is the structure DB
-- with the two files and the effects, Db/Index the functions _db_readptr, _db_writeptr,
-- _db_readidx, _db_writeidx and db_rewind, Db/Data the functions _db_readdat and _db_writedat,
-- Db/Search the functions _db_hash, _db_find_and_lock and _db_findfree, Db/Query db_fetch and
-- db_nextrec, Db/Update db_delete, _db_dodelete and db_store, and Db/Open db_open and _db_alloc.
-- A function takes the state and returns a Run: a result with the state behind it, the message
-- with which err_dump or err_quit ends the process, the overflow of a buffer, or the end of the
-- fuel.
--
-- The contract is in Db/Table: a Table has the records of each chain, the slot of each record
-- (its length and the place of its data), the chain that owns a slot, and the data in it.
-- IsTable says that the bytes of two files hold a table: the pointers and the records stand
-- where the chains say, slots do not meet, and no key occurs twice on a chain. The function
-- lookup of a table is the dictionary that it stands for. The modules below Db/Table show what a
-- write into the files makes of the table, those below Db/Search, Db/Query and Db/Update apply
-- this to the functions, and Db/Session puts calls one behind the other: on one handle, and in
-- Db/Session/Reopened on a handle that db_open makes of the files that a call left, which open
-- has emptied where O_TRUNC is set. Db/Query/Pass calls db_nextrec until it returns NULL, and
-- Db/Search/Weights has the sum of _db_hash without its overflow.
--
-- Fuel: the loops of _db_find_and_lock, _db_findfree and db_nextrec run on fuel, one round for
-- each record read, so that a search takes one round more than its chain has records.
--
-- The control program reads a word and a number from its input, which choose a command, and the
-- command's arguments. It runs commands of the shell (qemu-img, rsync, ps, kill), reads their
-- output through a pipe, writes to the monitor of a machine over a socket and to an agent that
-- starts machines, keeps a log, and prints ok, error or a result. A command on several machines
-- reads their numbers up to a -1.
--
-- The model: Libc/Effect has the sequence of calls, with what ends a program badly (a write past
-- a buffer, a read of what is not there, a wait that has no end, the message that ends the
-- process) as results; Libc/Scan has scanf, printf, strstr, strrchr and fgets. Cvm/State has the
-- buffers file, name, cmd, result and result2, the input and the output; the machine that the
-- program runs on is a parameter, the record Host: what a command of the shell does and prints,
-- how much a pipe holds, which files there are, the clock, the agent, and the monitors, of which
-- join is the bind and the connect that monitor makes. Cvm/Host
-- has xmlog, getresult, monitor, exec, viewMode, getpid and killpid, Cvm/Rate the function rate,
-- Cvm/Machine the functions from vmadd to vmcontinue, Cvm/Template the functions oson and
-- os_same, Cvm/Power, Cvm/Images, Cvm/Transfer, Cvm/Backup, Cvm/Disk and Cvm/Bridge the
-- commands, and Cvm/Main the choice in main. A buffer that the code clears or fills is modelled
-- as the text in it; a conversion of scanf that fails leaves a variable as it was, and a
-- variable that was never set must not be read.
--
-- The theorems stand below the parts: Cvm/State/Keeps, Cvm/Host/Keeps and Cvm/Machine/Keeps on
-- what leaves the input as it is, Cvm/Host/Results on the output of a command, Cvm/Power/Batch
-- on the loops over numbers, Cvm/Template/Same, Cvm/Machine/Added and Cvm/Machine/Deleted,
-- Cvm/Images/Listing, Cvm/Rate/Percent, Cvm/Main/Words, and Cvm/Main/Runs and
-- Cvm/Main/Batches on whole runs.
--
-- Fuel: one round for each number read, the -1 included, for each line of a listing and its end,
-- for each hit of a search, of which a listing has no more than bytes, and for each process that
-- is killed. A loop of the program that does not end uses up any fuel.
--
-- The client keeps an array of files with flags (not started, connecting, reading, done), the
-- counters nconn, nlefttoconn and nlefttoread, and two sets of descriptors. main opens
-- connections up to its limit, waits with select, and goes through the files: a connection that
-- is there is given its command, and a file that can be read is read, until its end closes the
-- connection.
--
-- The model: Web/State has the variables of c_code/unp/web/web.h and the record Net, which is
-- the network as a parameter (Host_serv, Socket, connect, select, getsockopt, read, writen,
-- close and tcp_connect as functions of a state of their own); Web/Connect has write_get_cmd,
-- start_connect and the loop that opens connections, Web/Main home_page, the loop over the files
-- and main. Web/Sound says what the variables mean (IsSound), in sums over the files
-- (Web/Files), and what is asked of a network (Serves): that it has room for sockets and gives
-- descriptors that are not open, that a connection does not fail at once, that select wakes for
-- a descriptor that it was given, and that each file has an end. A connection that fails later,
-- and a read of any length, are allowed; a write always returns, so that the SIGPIPE which the
-- write to a failed connection may raise is not in the model. Web/Sound/Moves and
-- Web/Sound/Kinds show what a change of one file makes of the variables, Web/Sound/Visits,
-- Web/Sound/Scans and Web/Sound/Opens apply this to the loops, Web/Ready shows that a file is
-- ready behind select, and Web/Runs and Web/Gets put main together. Of the fuel each loop takes a
-- round for each step: a file has three, and each read that is not its end is one.
--
-- The reader of declarations takes tokens from its input, pushes those before the name, and
-- walks outwards through the states that the pointer nextstate names. The model: Cdecl/Token has
-- classify_string and gettoken, Cdecl/States the states and main, with one count of rounds for
-- the loop of main and one for the loops of the states. Cdecl/Phrases describes declarations by
-- their structure (Decl), with their text and their English; Cdecl/Reads, Cdecl/Numbers,
-- Cdecl/Pushes, Cdecl/Suffixes, Cdecl/Says and Cdecl/Marks show what the states make of the
-- parts of the text, as steps from state to state (Leads), and Cdecl/Runs and Cdecl/Unnamed are
-- on whole runs.
--
-- Text/Reverse is the function reverse of c_code/1-19-reverse.c on the bytes of its buffer, with
-- one round of fuel for each swap and one for the end; the byte before an empty line is not
-- there.
--
-- Not modelled: failures of lseek, read, write, fcntl and malloc other than a short read or a
-- negative offset; other processes (the calls of lock_reg are recorded in their order); offsets
-- beyond the range of off_t; db_close and _db_free. The key and the data that a caller passes
-- are the bytes before a null byte. In the writeidx of a deletion the key is the buffer that
-- sprintf writes to, which C leaves undefined; the model writes the text that the buffer had
-- before. Of cvm: the commands that the program runs, the buffering of its output, sums of
-- numbers beyond the range of int, the user that it runs as, an answer of a monitor that fills
-- the buffer, and the floating point of backup_query, which is a parameter. The lone percent sign at the end of the format in disk_create is taken as nothing, which the C
-- standard leaves open. Of the client: what a read puts into its buffer, the text of a system
-- error, and a wait of select that a signal ends. Of the reader of declarations: isalnum of a
-- character that is negative, which is taken as no. The other programs of the repository are not
-- modelled, nor the copies of other projects in it (c_code/apue/apue.3e, c_code/unp/unpv13e,
-- c_code/csapp/code).
pub mod Cdecl
pub mod Common
pub mod Cvm
pub mod Db
pub mod Libc
pub mod Text
pub mod Web
