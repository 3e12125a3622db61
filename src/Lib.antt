-- ===== src/Lib.antt =====
-- cfunge: an interpreter of Befunge-93, Befunge-98 and Funge-109.
--
-- The program reads a source file into Funge-Space, a plane of cells, and runs one or more
-- instruction pointers over it. Each has a stack of stacks of cells and, for each letter, a stack
-- of the fingerprint functions bound to it.
--
-- The files, and the code that each one models:
--   Prelude           shared names, Boolean tests, list lemmas, and arrays as functions of an index
--   Cell              funge_cell (src/global.h), the arithmetic of + - * in src/interpreter.c, and
--                     funge_division and funge_modulo (src/division.h)
--   Vector            src/vector.h and src/vector.c
--   Stack             one stack: src/stack.h and src/stack.c; Stack/Contents reads it as a list,
--                     Stack/Refine compares all sequences of calls with that list, Stack/Text has the
--                     0-terminated strings
--   StackStack        the copies between two stacks that { } and u make (src/stack.c)
--   Table             the hash tables of lib/libghthash, as an interface: an abstract table with its
--                     operations and the laws of a finite map. Table/Assoc and Table/Instance show
--                     that association lists meet the interface
--   Space             src/funge-space/funge-space.c: the static area with the hash table beyond it.
--                     Space/Count has the numbers of cells in use for each row and column, Space/Set
--                     the writes, Space/Bounds the bounding box, Space/Wrap the wrapping,
--                     Space/Load the loads of a file, Space/Save the saving to one
--   Ip                src/ip.h and src/ip.c; Ip/Blocks has stackstack_begin and stackstack_end of
--                     src/stack.c, which { and } call
--   IpList            the list of instruction pointers in src/ip.c
--   Input             src/input.c, and cf_getline of src/support.c: Input/Number has the numbers
--   Interpreter       src/interpreter.c: Stacks, Moves and Plane have the cases of the switch by what
--                     they change, Execute the strings, the fingerprints and the input and output,
--                     Run the switch as a whole, Iterate the instruction k
--                     (src/instructions/iterate.c), Loop a turn of the main loop, Program the
--                     interpreter with other modelled files as its host. Sound is about
--                     the order of the stacks and of the list of IPs; the other files are proofs
--   Sysinfo           src/instructions/sysinfo.c, the instruction y
--   FileIo            src/instructions/io.c and src/instructions/execute.c, the instructions i, o, =
--   Fingerprints      src/fingerprints: the functions of BASE, BOOL, CPLI, DATE, FING, FRTH, HRTI, INDV,
--                     JSTR, MODU, ORTH, REFC, ROMA, STRN, SUBR, TIME and TOYS, a file for each;
--                     Toys/Walk, Toys/Blocks and Strn/Plane have those that use Funge-Space
--   Opcodes, Manager  src/fingerprints/manager.c; Manager/Table is the table in
--                     src/fingerprints/fingerprints.h with the letters that each load function adds
--
-- The configuration is the default one of CMakeLists.txt: cells of 64 bits, concurrent Funge,
-- exact bounds, floating point and ncurses.
--
-- A cell is its bit pattern, a number below 2 ^ 64, and all arithmetic on it wraps round, which C
-- promises for unsigned numbers only: for a signed overflow, undefined in C, this is what the
-- usual machines compute. slt and sle are the signed comparisons. A size_t that counts memory in
-- use is a plain number: a stack of 2 ^ 61 cells does not fit in memory. An allocation whose
-- failure ends the process succeeds in the model; one whose failure is returned is decided by an
-- argument. Memory that realloc adds is whatever the function gives there. A write outside an
-- array, which C leaves undefined, is lost, so that a theorem about what was written needs the
-- room; a read there is an argument.
--
-- Loops: the scans of the bounding box run on the unsigned distance of their two ends, which each
-- round makes smaller by one. The loops over blanks and comments have no bound in the source, and
-- take fuel: more than the number of steps to the cell that ends them is enough. So do the search of k
-- for its operand, and a k whose operand is a k, which the source runs by recursion. The other loops
-- are structural recursion on a count or a list.
--
-- The interpreter calls what is not in src/interpreter.c through the interface Host of
-- Interpreter/Execute: writing and reading characters and numbers, random numbers, the functions of
-- fingerprints, and the instructions y i o =. Interpreter/Program builds a Host of Sysinfo, FileIo,
-- Input (the instruction ~) and the functions of BOOL, CPLI, FRTH, HRTI, INDV, MODU, ORTH, REFC, ROMA,
-- SUBR and TIME; the rest of it is another Host, and so are BASE, DATE, FING, JSTR, STRN and TOYS there.
-- What a fingerprint function prints is a list of bytes, and the functions of the
-- C library that it calls are arguments.
-- Not modelled: the other fingerprints, most of which call the operating system, a library or
-- floating point; the command line; the dump of Funge-Space as XML; and the libraries below lib.
pub mod Prelude
pub mod Cell
pub mod Vector
pub mod Stack
pub mod StackStack
pub mod Table
pub mod Space
pub mod Opcodes
pub mod Manager
pub mod Ip
pub mod IpList
pub mod Input
pub mod Interpreter
pub mod Sysinfo
pub mod FileIo
pub mod Fingerprints
