-- ===== src/Lib.antt =====
-- RoboC++: the core of an IEC 61131-3 toolchain. A source text is cut into tokens, a project is
-- parsed from them and checked, its programs run in an interpreter that scans in cycles and calls
-- the standard functions, and a target layer connects the interpreter's variables with process
-- I/O.
--
-- Base holds what the parts share: Boolean tests, lists, integers with the wrap-around of `i64`
-- and `i128`, texts as lists of code points, texts as bytes of UTF-8 where offsets count (Utf8),
-- `BTreeMap`s as association lists with the equation of a lookup after an insertion, `Result`, and
-- decimal numbers as Rust prints and parses them.
--
-- Diagnostics is the record of a diagnostic of crates/iec_diagnostics/src/lib.rs, as the lexer and
-- the interpreter build it, with the line and column of a span (`Span::new`).
--
-- Ir is crates/iec_ir/src/lib.rs: Names (`canonical_identifier`, `Identifier`, `AccessDirection`),
-- Elementary (`ElementaryType` with `parse` and `as_iec`), Qualifier (`SfcActionQualifier`), Value
-- (`Value`, `Literal`, `as_bool`, `as_i64`, `as_f64`), Display (`Display` of values), Syntax
-- (expressions, statements, instructions and charts; a recursive type that holds a vector or an
-- option of itself has the list beside it). The type `f64` is a parameter, the record `Floats`,
-- with the conversions that the program applies to it; the one law asked of it is that `as i64`
-- gives an `i64`.
--
-- Runtime is a part of crates/iec_runtime/src: State has the fields of function block instances
-- (`get_field_bool` and the like of runtime.rs, `field_key` and `input_bool` and the like of
-- support.rs), Blocks the standard function blocks of `execute_fb_call` (SR, RS, R_TRIG, F_TRIG,
-- CTU, CTD, CTUD, TON, TOF, TP), one function from the instance's name, its inputs and the state
-- to the new state, and Sfc the control of an action by its qualifiers
-- (`sfc_action_should_execute`), with its keys in Sfc/Keys. A history of calls is a list with the
-- newest call first, so a property of `scans` is about every history. Eval has the arithmetic of
-- `eval_binary` with its overflow checks, and in Eval/Expr and Eval/Calls the evaluation of
-- expressions (`eval_expr`, `eval_user_function`, `eval_standard_function_inputs`,
-- `function_call_enabled`, `assign_function_eno`); Statement the loops, Statement/Il the
-- instruction lists (`execute_il_instruction`), Statement/Execute `execute_statement` and
-- `execute_block`, Statement/Lists `execute_statement_list` with its labels; Evolution a cycle of
-- a chart (`execute_sfc`, `sfc_transition_steps`, `sfc_action_inputs`) and
-- `execute_program_cycle`; Arrays the place of an array element (`array_offset`). What expressions
-- and statements need of the rest of the interpreter, the variables (`resolve`, `assign`), the
-- standard functions, the bodies of the project's functions and the calls of function blocks, are
-- the records `Operations` and `BlockCalls`, with laws in `Laws` and `CallLaws` where a theorem
-- asks for them; Eval/Invariant and Invariant follow those laws through the interpreter. Of the
-- state of the interpreter the project, the program, the types and the communication hooks, which
-- never change while it runs, are left out.
--
-- Syntax is the lexer, crates/iec_syntax/src/lexer.rs and token.rs. Token has the tokens, Source
-- the state of `Lexer`, Cursor the loops that move over the text, Skip
-- `skip_ws_comments_and_pragmas`, Strings `lex_string` with its escapes, and Lexer one function
-- for each kind of token and `lex`, the loop over them. The source keeps a byte offset `pos` into
-- the text; here a `Cursor` is `pos` and the rest of the text from there on, and the name, the
-- text and the implementation parameters, which never change, stand apart. The loops over comments
-- and tokens and over the characters of a string have as many rounds as there are characters left
-- and one more; each round takes a character, so that is enough.
--
-- Stdlib is the evaluation of the standard functions, crates/iec_stdlib/src/lib.rs: Args reads the
-- arguments, Numeric has ABS, ADD to MOD and the comparisons, Bits SHL to NOT, Bcd the binary
-- coded decimals, Strings LEFT to FIND, Dates the calendar and its functions, Texts how dates,
-- times of day and durations are parsed and printed, Conversions the `_TO_` functions
-- (`eval_conversion_function`, `eval_bcd_conversion_function`), and Functions the table of
-- `eval_standard_function`. The operations on `f64` are parameters, the record `FloatMath`. The
-- loop of `bcd_to_int` has 16 rounds, the digits of a `u64`, and the loop of `int_to_bcd` as many
-- as it allows digits; the sums of dates are exact, and the panic of DIV and MOD of the smallest
-- `i64` by -1 is left out.
--
-- Target is crates/rbcpp_target/src/lib.rs: Symbol has the I/O symbols, their keys and the trait
-- `TargetHal` as a record of operations that return the new HAL beside the result; Safety the
-- safety gate and `SafetyHal`; Access the `VAR_ACCESS` paths (`AccessRuntime`, `TargetState`);
-- Supervisor the cycles of `TargetSupervisor` with its watchdog, each reading of the clock an
-- argument, and the retained values loaded and saved by a parameter; Retain the store that fills
-- this parameter (`RetainStore`, `encode_typed_value`, `decode_typed_value`,
-- `TargetState::load_retained` and `save_retained`), over a disk that is a map from file names to
-- contents; Modbus the image (`ModbusImage`, `ModbusHal`), the trait `ModbusTransport` with its
-- implementation by the image, and `ModbusTransportHal`; Pdo the EtherCAT process data
-- (`EtherCatPdoImage`, `read_pdo_value`, `write_pdo_value`, `EtherCatHal`), the trait
-- `EtherCatTransport` with its implementation by the image, and `EtherCatTransportHal`; Ros2 the
-- bridge (`Ros2Bridge`), the trait `Ros2Transport` with its implementation by the bridge, and
-- `Ros2TransportHal`. The HAL inside a wrapper and what an `io::Error` says are parameters.
--
-- Numbers: an `i64` and an `i128` are integers, wrapped where the source casts, and where it adds
-- without a check the wrap-around of a release build is written out; a `u8` and a `u16` are
-- natural numbers, clamped where the source clamps. A `usize` is unbounded, and the differences
-- and products of `array_offset` are exact. A loop of the interpreted program, and a list of
-- statements with jumps, is bounded in the source itself by `max_loop_iterations`, and the
-- recursion is on the rounds that this leaves. The arithmetic of `i64` and `i128` that the source
-- checks is checked here, on exact integers.
--
-- Not modelled: of the interpreter the variables (`resolve`, `assign`, the constraints of types),
-- the bodies of functions and of the project's own function blocks, communication blocks,
-- configurations and tasks; files, clocks, sockets and the parsing of mapping files; the parser,
-- the tables of standard names and signatures, semantic analysis, the C and PLCopen back ends, the
-- language service and the command line. Of the target layer the file-backed HAL is left out as
-- well, and of the retain store the failures of the disk.
--
-- Tests holds the concrete states and histories on which the theorems are tried.
pub mod Base
pub mod Diagnostics
pub mod Ir
pub mod Runtime
pub mod Stdlib
pub mod Syntax
pub mod Target
pub mod Tests
