-- ===== src/Lib.antt =====
-- ffjson: a verification of the run-time library in fflib/v1, on which the generated Marshal and
-- Unmarshal code stands, and of the part of the generator in inception that writes Marshal code.
--
-- Tables.antt holds the character tables of lexer.go, reader.go and jsonstring.go, and the class of
-- bytes that each of their bits stands for. Reader.antt is `ffReader` of reader.go: the input, the
-- position and the limit as a record, each method a function of it; Reader/Strings.antt is
-- `SliceString` with `scanString` and `handleEscaped`, Reader/Strings/Decodes.antt the grammar of
-- string bodies, Reader/Strings/Escapes.antt its single escapes and Reader/Strings/Complete.antt
-- whole bodies. JsonString.antt is `WriteJson` of jsonstring.go; JsonString/Coerce.antt is the text
-- that a Go string stands for, JsonString/Body.antt the pieces that a round writes,
-- JsonString/Written.antt the body that they make and JsonString/RoundTrip.antt reading it back.
-- JsonString/Unquote.antt is `UnquoteBytes`, with its loop on each piece and its round trip beside
-- it. Fold.antt is fold.go, with the folding of runes in Fold/Letters.antt and the comparisons in
-- Fold/Agrees.antt. Number/Atoi.antt is internal/atoi.go, with its digits in Number/Atoi/Spec.antt
-- and the theorems on `ParseUint` and `ParseInt` in Number/Atoi/Uint.antt and Number/Atoi/Int.antt;
-- Number/ByteNum.antt is bytenum.go, and Number/Iota.antt is `FormatBits2` of iota.go with its
-- loops and its round trip beside it. Lexer.antt, Lexer/Number.antt, Lexer/Scan.antt and
-- Lexer/Field.antt are `FFLexer` of lexer.go: a method is a function of the lexer that leaves a
-- value, a token that it returned early, or a panic. Lexer/Moves.antt reads at a known position,
-- Lexer/Number/Grammar.antt and Lexer/Scan/Lexemes.antt are the grammars of numbers and tokens, and
-- Lexer/Scan/Comments.antt is about comments. Reader/Position.antt is about blanks.
--
-- Reader/Reads.antt, Reader/Strings/Bounds.antt and Reader/Strings/Total.antt follow the position
-- of the reader on any input; Lexer/Total.antt does so for the methods of the lexer, with the
-- numbers in Lexer/Number/Total.antt, the tokens in Lexer/Scan/Total.antt and
-- Lexer/Scan/Returns.antt, and `scanField` in Lexer/Field/Returns.antt.
--
-- Pool.antt is buffer_pool.go: the pools as lists of arrays, each with its name and its bytes, and
-- the choice of `sync.Pool.Get` as a parameter; Pool/Sizes.antt has their invariant. Buffer.antt is
-- the writing half of buffer.go, with the backing array, its length, the offset and the flag as a
-- record; Buffer/Reads.antt is the reading half, and Buffer/Transfers.antt `WriteTo` and
-- Buffer/ReadFrom.antt `ReadFrom`, whose reader is the list of its answers. Buffer/Queue.antt is a
-- queue of bytes and its calls, to which Buffer/Refine.antt relates the buffer by Buffer/Room.antt
-- (`grow`), Buffer/Appends.antt and Buffer/Takes.antt.
--
-- Decimal.antt is decimal.go, with its shifts in Decimal/Shift.antt; Decimal/Value.antt is the
-- number that digits spell, Decimal/Assign.antt `Assign` against `RoundedInteger`,
-- Decimal/Carry.antt the digits of `RoundUp` and Decimal/Round.antt `Round`; Decimal/Word.antt
-- keeps the int of `rightShift` in its bounds, Decimal/Right.antt is the digits that `rightShift`
-- puts down, Decimal/Divide.antt those that it picks up and Decimal/Exact.antt the number that it
-- leaves. Decimal/Left.antt is the product of `leftShift`, Decimal/Cutoff.antt the table of
-- leftcheats, Decimal/CarrySize.antt and Decimal/LeftExact.antt the count of the digits that it
-- adds, and Decimal/LeftShift.antt the number that it leaves. Float.antt is the layout of digits in
-- ftoa.go and Float/Append.antt the rest of it, `AppendFloat` on the bits of a number, which uses
-- the decimals and takes the fast paths of extfloat.go as a parameter; Float/Numbers.antt and
-- Float/Fixed.antt relate the layout to the grammar of numbers, Float/Lexed.antt to `lexNumber`
-- with the tokens of Lexer/Number/Token.antt, and Float/Append/Infinite.antt is about infinities
-- and NaN.
--
-- Inception.antt is what the generator knows of the types, with the options of shared/options.go,
-- and its state, the pending writes and the imports. A routine that returns text is a function of
-- the state, and `then` runs two in a row. Inception/Queue.antt is writerstack.go,
-- Inception/Encoder.antt encoder.go and encoder_tpl.go: Inception/Encoder/Kinds.antt is the kinds
-- of types, Inception/Encoder/Field.antt the code of a map and of a field, and
-- Inception/Encoder/Create.antt the recursion on types and `CreateMarshalJSON`.
-- Inception/Sizes.antt is the sizes and Inception/Reflect.antt the choices of reflect.go.
-- Inception/Brackets.antt reads Go code for its brackets; Inception/Balanced.antt and
-- Inception/Encoder/Balanced.antt with its children follow them through each routine.
-- Inception/Reflect/Folds.antt joins `foldFunc` to fold.go, and Inception/Reflect/Dominant.antt is
-- about `dominantField`.
--
-- Tags.antt is the tags of struct fields, of inception/tags.go and generator/tags.go.
--
-- Outcome.antt has results with Go's errors and panics, Prelude.antt what the files share, and
-- Tests.antt, LexerTests.antt, BufferTests.antt, FoldTests.antt,
-- DecimalTests.antt, FloatTests.antt and InceptionTests.antt small runs.
--
-- Bytes are natural numbers, a text is a list of them, and an output buffer is the bytes written so
-- far. uint64 and int64 are patterns below 2 ^ 64, with the wrap-around written out. Go's
-- unicode/utf8 and unicode/utf16 are the language's standard library: Go.antt has the parts that
-- are called. An error keeps its kind and not its text.
--
-- Loops over the input are recursions on a count of rounds: one more than the length of the input
-- for `SliceString` and the lexer, 63 for `FormatBits2`, whose number at least halves each round.
-- The theorems on `FormatBits2` give its results outright, and those on any input show that
-- `SliceString`, `Scan` and `scanField` never run out of rounds.
--
-- `rightShift` picks up at most 64 zeros, behind which its int is 0 and the loop has no end, and
-- puts down the rest in one round more than it shifts by.
-- `ReadFrom` makes a round for each answer of its reader. `Shift` makes a round for each place at
-- most, and a uint64 has 20 decimal digits at most. A Go type is a finite tree: for one that
-- contains itself with no struct between, the generator does not end.
--
-- Not modelled: `WrapErr` and the `String` methods of lexer.go, `Encode` of buffer.go,
-- buffer_nopool.go, `String` of decimal.go, extfloat.go and the files of internal that parse and
-- print floating-point numbers, which are copies of strconv, `isValidTag`, and the rest of the
-- generator in inception and generator, which works by reflection, templates, files and processes.
pub mod Prelude
pub mod Tables
pub mod Go
pub mod Fold
pub mod Decimal
pub mod Tags
pub mod Float
pub mod Inception
pub mod Number
pub mod Outcome
pub mod Pool
pub mod Buffer
pub mod Reader
pub mod JsonString
pub mod Lexer
mod Tests
mod LexerTests
mod FoldTests
mod DecimalTests
mod FloatTests
mod InceptionTests
mod BufferTests
