-- ===== src/Lib.antt =====
-- bpf-ninja captures packets at BPF hook points. A filter, written in the kunai language, selects
-- the packets; a capture at a generated hook also records the hook's arguments in a block in front
-- of the packet's bytes, and shows them as a comment in the output; the records come to the process
-- through the kernel's ring buffer. This library models these parts:
--
--   Kunai.Lexer (pkg/kunai/lexer): `next` and `next_value` are `Next` and `NextValue`, on a scanner
--     state that has the source, the byte offset, the line and the column, with `read_ident`,
--     `read_int` and `read_wide`; Kunai.Lexer.Literals is `classifyValue` and its builders, and
--     Kunai.Lexer.Token the kinds, keywords and errors. Kunai.Ast has the positions, the literals and
--     the syntax tree of pkg/kunai/ast.
--   Kunai.Parser (pkg/kunai/parser): a rule of the grammar is a function from a parser's state to a
--     result with the next state, or an error. Kunai.Parser.State has the moves of parser.go,
--     Kunai.Parser.Paths and Kunai.Parser.Predicates predicate.go, Kunai.Parser.Where,
--     Kunai.Parser.Literal and Kunai.Parser.Expressions where.go, Kunai.Parser.Layers layer.go,
--     Kunai.Parser.Captures capture.go, and Kunai.Parser.Filters `Parse`. Kunai.Parser.WellFormed
--     says what a tree promises.
--   Capture.Ring (internal/capture/fastrb/reader.go): `read_batch` is `ReadBatch`.
--   Record (internal/record, internal/hookabi): Record.Types is the part of BTF that is looked at,
--     with `Opaque` and `Plain`; Record.Layout the layout of a block; Record.Comment the writer of a
--     comment; Record.Sink the walk that renders a key or a value, or counts what it would render;
--     Record.Decode `CheckBlock`, `AppendComment` and `MaxCommentLen`.
--   Record.Build (internal/recordbuild): `build` is `Build`, from the parameters of a target and the
--     filters on it to a layout.
--   Program (internal/program): `snap_off` is `fieldSnap.off` of record.go, which a gate asks for the
--     snapshot slot of a condition.
--   Filter (internal/filter): Filter.Types has the filters on a target and its parameters,
--     Filter.Values `ParseArgFilter` and the parsing of values, and Filter.Check the check of a parsed
--     filter against its argument in `ParseAndValidateFilters`. What the regular expression of
--     `ParseArgFilter` captures is given, and so is the resolved argument (internal/attach).
--   Output (internal/output): Output.Epb has the packet blocks of fastpcapng.go and record.go,
--     Output.Header its section header and interfaces, Output.Hooks the reading of hook blocks in
--     hookmerge.go, Output.Frames `validatePcapBlocks` of pcap_blocks.go, Output.Record the comment
--     and the block of one hook record, as in record.go, with `WriteBatch` of a hook capture (its
--     lock, `OnError` and the flush of `failBatch` aside) in Output.Record.Batch, and Output.Merge
--     `mergeHookFiles` with `initHooks`, over the heap of Go.Heap. A writer is the bytes that it
--     writes, on a destination that takes them all, a reader is the bytes ahead, and a file is its
--     bytes, or is missing; that an output is renamed into place at the end is not modelled.
--   CtxFlow (internal/ctxflow): `arg_reads` and `free_arg` are `ArgReads` and `FreeArg` of pass.go,
--     with the instructions in CtxFlow.Insns; what the methods of the assembler library say of an
--     instruction is a field of it. CtxFlow.Reads.Paths describes the paths of a function without
--     the algorithm.
--   Base and Go: shared helpers, and the parts of Go's strings, strconv, net and container/heap
--     packages that the program calls.
--
-- Text is a list of bytes. An error is a constructor for each wording; its text is not modelled. A
-- 64-bit number is a natural number with its wrap-around written out, and a signed one its pattern.
-- The host is little-endian. An index of -1 is `none`. The state of a scanner, of a comment buffer
-- and of the ring reader is passed along. `btf.Sizeof` is a parameter of the definitions that call
-- it, and nothing is assumed of it: a type has its sizes and numbers of elements in it, and a type
-- of another kind the number by which BTF has it, so that each may have its own size.
--
-- Bounds and fuel: the rules of the parser are on fuel, one more than the bytes of the source; a
-- rule or a round of a loop consumes a token before it calls itself, so that it is enough, and
-- `out_of_fuel` is an error of the model only. `read_loop` has as many rounds as there are bytes
-- between the consumer and the producer, and each round moves by eight bytes or more, so that
-- they are enough. An IPv6 address is read in at most eight rounds, one for each of its groups;
-- the check of a file's blocks and that of a block's options have a round for each byte, and a
-- round takes four bytes or more; a merge has a round for each byte of its shards, and a block
-- takes twelve bytes or more; `up` and `down` of the heap have a round for each element, and
-- halve or double the index; calls that `ArgReads` follows are no deeper than there are
-- instructions, and a function's loop has seven rounds for each instruction, which its set loses
-- a register for; and a number is written with at most twenty digits, which 64 bits do not
-- exceed. All other loops are by structural recursion.
--
-- The ring is what stands in it when it is read: a batch sees each length word as it was loaded,
-- and what the kernel writes meanwhile belongs to the next batch. Not modelled are the set-up of
-- the mapping and waiting for it, which are calls of the kernel; the loaders and program
-- generators (the rest of internal/program, internal/attach, the rest of internal/ctxflow, pkg/inject,
-- pkg/injectcheck, pkg/syscallhook) and the code generator of kunai, which work on third-party
-- instruction values and BTF; and the resolver of kunai, the merge of files that gopacket reads
-- and the command line, which stand before or behind the modelled parts.
pub mod Base
pub mod Go
pub mod Kunai
pub mod Capture
pub mod Output
pub mod Program
pub mod Record
pub mod CtxFlow
pub mod Filter
pub mod Tests
