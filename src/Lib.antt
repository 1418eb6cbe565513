-- ===== src/Lib.antt =====
-- WAIT compiles WebAssembly to AVR machine code on the device itself. A module is parsed out of
-- the program memory (src/parse.c), each function's instructions are compiled one by one
-- (src/compile.c calls `emit_single_instruction` of src/instructions.c), the words of code go
-- through a buffer with a peephole optimiser (src/rtc_emit.c) to the page writer
-- (src/wkreprog_impl.c), which stores them in the program memory. When all functions are compiled,
-- a second pass puts addresses in the place of labels and function numbers. The compiled code
-- calls runtime functions for loads and stores (src/memory.c) and for multiplication and division
-- (src/asm.c), and imported functions (src/user_import.c).
--
-- The files and the code that they model:
-- - Common: shared names, lists measured by native numbers, results of code that may stop, and bit
--   operations as arithmetic. `panic` is the endless loop of `panicf` (include/debug.h); `trap` is
--   a processor stopped by a `break` instruction, or an access that C leaves undefined.
-- - Leb: src/utils.c. `read_leb_u32` is `ReadLEB_u32`, and so on; a reader takes the program
--   memory, the address and the end, and gives the value and the next address. Leb.Encoding says
--   what a LEB128 encoding is, Leb.Groups puts groups of bits together; Leb.Unsigned and
--   Leb.Signed have the theorems.
-- - Asm: the encoders of src/asm.c and include/asm.h, as functions to 16-bit words.
-- - Avr: a processor for the emitted words, written from the instruction set and not from the
--   encoders: decoding (Avr, Avr.Decode), running (Avr.Cpu), numbers in registers (Avr.Kept),
--   arithmetic and flags over four bytes (Avr.Long, Avr.Flags). The stack is the list of its
--   bytes. A call runs a parameter, since the callee is code outside the fragment.
-- - Wkreprog: src/wkreprog_impl.c. `Writer` holds its globals and the program memory, `write` is
--   `wkreprog_impl_write`. Wkreprog.Pages and Wkreprog.View compare the program memory under the
--   page buffer with the bytes written; Wkreprog.Region is about the end of the safe region.
-- - Emit: src/rtc_emit.c, with `ts` and `blct` of include/types.h in `State`. Emit.Optimise,
--   Emit.Labels and Emit.Position have the theorems.
-- - Ops: the emitting functions and macros of src/asm.c and include/asm.h. Ops.Words relates a
--   sequence of emissions to its list of words, Ops.Progress emits a list.
-- - Instructions: src/instructions.c, one function for each case of its switch, in Control, Calls,
--   Variables, Loads and Numeric; Dispatch is the switch. Instructions.Numeric and its children
--   have what the emitted code computes, Instructions.Calls.Select and Instructions.Loads.Extend
--   do so for select and for the widening of loaded numbers, and Instructions.Control.Unwind has
--   the offset of `br_if`.
-- - Parse: src/parse.c, the parsers of the sections in Types, Functions, Storage and Code, and
--   `wasm_load_module` in Load. A section's parser takes the address where its contents begin and
--   where they end; a loop over a count is `for_each`. `Fresh` is what malloc'd memory holds
--   before it is written: the module, each function, and the result type of each function type.
--   Parse.Reading says what a loop over readers gives where the encodings of a list stand one
--   behind the other; Types.RoundTrip, Functions.Added, Storage.Expressions and Code.Bodies use
--   it; Load.Invariant and Load.Kept say what each section keeps of a module, Load.Valid and
--   Load.Sections have the theorems about whole modules.
-- - Compile: src/compile.c, with `rtc_start_of_next_method` in `Compiler`. Globals is
--   `wasm_global_init`, Link the lookup of imported functions, Functions the compiling of a
--   function, with what a handler may do to the cursor in Functions.Ahead, Refill the second pass
--   `branch_pc_refill`, Modules `wasm_compile_module`, Placing the placing of the memory areas by
--   `wasm_call_entry_method`, and Entry what it copies to RAM. Where the code space begins, the
--   addresses of the firmware's functions and the end of the section .wait come from the linker:
--   they are parameters.
-- - Imports: src/user_import.c, `malloc`, `memset` and `memcpy` as a module imports them, on the
--   areas of Memory.
-- - Memory: src/memory.c, with theorems in Memory.Areas.
-- - Tests: concrete runs.
--
-- Numbers are native natural numbers, and each reduction to 8, 16, 32 or 64 bits is written out.
-- The code is taken as it is built by include/safety_check.h: memory bounds are checked, nothing
-- is counted, and the stack is not checked. Loops that the source runs over a buffer are on fuel:
-- `optimise_loop` on the number of words in the buffer, `write_loop` on the number of bytes, which
-- both are enough because each round takes a word or a byte at least; the LEB readers recurse on
-- the number of addresses below the end. `load_loop` is on 2 ^ 39 rounds, as many as there are
-- pairs of an address and a section number, which decide on how the loop goes on; `refill_loop` is
-- on more rounds than a 16-bit pc has values; `compile_loop` is on a round for each byte of the
-- function and one more, which is enough because an instruction takes a byte at least
-- (Compile.Functions.Ends). `run` is on fuel too, and each theorem about emitted code says with
-- how much the code ends.
--
-- Not modelled: a malloc that fails (the sizes that `sys_malloc` cuts to 16 bits stop the model);
-- the call of the entry method (src/compile.c); printing and tracing (src/user_import.c,
-- src/debug.c), `shift` and `test` of src/user_import.c, which nothing calls; src/main.c; the
-- reboot of src/wkreprog_impl.c, and `LeadingZeros_32` of src/asm.c. Loads and stores on the data
-- memory of the processor model are there for LDD and STD, but the stack does not lie in it, and
-- the ports of the stack pointer stop the model; so no theorem is about the code for locals and
-- globals. What C leaves undefined is `trap`: a division by zero or of -2 ^ 31 by -1, an imported
-- `memcpy` of areas that overlap, and an access outside a table. There are two exceptions. The
-- buffer of src/rtc_emit.c moves the words behind a removed stretch by a `memcpy` onto a range
-- that overlaps them; it is taken to copy upward. The segment table of src/parse.c is followed by
-- two bytes that the last segment's size runs over, which are the field `behind_segments`. The
-- functions of avr-libc are taken as they are documented: `pgm_read_byte_far` and `memcpy_PF` read
-- the program memory, `memcpy` copies areas that do not overlap, and erasing, filling and writing
-- a page store it.
pub mod Common
pub mod Leb
pub mod Asm
pub mod Avr
pub mod Wkreprog
pub mod Memory
pub mod Parse
pub mod Emit
pub mod Ops
pub mod Instructions
pub mod Compile
pub mod Imports
pub mod Tests
