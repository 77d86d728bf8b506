-- ===== src/Lib.antt =====
-- casacure reads and writes the tables of CASA: a table is a directory whose files hold the rows,
-- and each column is kept by a storage manager. This library models the byte format that all of
-- those files share, the two storage managers that index rows by buckets, and the lock file by
-- which processes share a table.
--
-- Bytes are numbers, a byte string is a list of them, and a Rust string is its bytes. A 32-bit or
-- 64-bit cast writes its remainder out. Each file opens with the code that it is about.
--
-- Prelude, Result and Bytes hold what the others share: tests, lists and signed integers, `Result`
-- with `?`, and `to_be_bytes` and its kin.
--
-- Aipsio is crates/casacure/src/aipsio.rs. `Read` is an action of `Reader` on its cursor, `Write`
-- one of `Writer` on its buffer and stack of open objects, where `none` stands for a panic. `Reads`
-- and `Writes` say which bytes an action takes or appends, wherever the cursor stands; the codecs
-- of the other parts are proved by putting those together. Lengths of type names and blocks are
-- below 2 ^ 32 bytes.
--
-- Types is crates/casacure/src/types.rs: the value types of columns and their names. Records is
-- crates/casacure/src/record.rs: the data types with their codes, and the codec of table records.
-- Records.Values has the descriptions and values; a list that holds itself is a data type of its
-- own, a float is its bit pattern, and the casts between the two float types are a parameter.
-- Arrays and Bits are the array objects, Scalars the scalars with the conversions of
-- `write_scalar_value`, Read and Write the two sides of a record. An `Attempt` is a writer that may
-- return an error or panic. The readers and writers of nested records run on fuel, one for each
-- level: the depth of a record is enough to write it and to read it back, and the reader needs no
-- more than the bytes that are left (Progress). Memory, so also the room that `with_capacity`
-- reserves for a count of the stream and the depth of the stack, is not modelled. Set is `set` and
-- `remove`, where `none` is an index out of range.
--
-- Tabledesc is crates/casacure/src/tabledesc.rs, the table and column descriptions of `table.dat`,
-- on the same fuel for their keywords. Columnset is crates/casacure/src/columnset.rs, the data
-- managers and column bindings that follow them there, and the blob of the standard storage
-- manager. A `Fits` record says which values the words of the format hold, and `stored` and its kin
-- what of them the bytes tell.
--
-- Lockfile is crates/casacure/src/lockfile.rs: the options of `LockMode` and `LockOptions`, the
-- record of `TableSyncData` (Sync), `FileLocker` over the `fcntl` of the system (Fcntl), the bytes
-- of `table.lock` (Requests), and the calls of `LockFile` on the state that the handles of a
-- process share (File). The kernel is a parameter: its state is any type, and `Honest` says what
-- POSIX promises of its answers, which include failures, a refused request and ENOLCK. Loops run
-- over the number of attempts. The file is a list of bytes: a read past its end fails, and the
-- kernel may fail to write the sync record of a release; that the request list, whose errors the
-- code drops, is not written, the opening of the file and the registry of open lock files are not
-- modelled.
--
-- Flushgate is the registry of gates of crates/casacure/src/flushgate.rs, and Tableinfo the text of
-- table.info, of crates/casacure/src/tableinfo.rs; `canonicalize` of the file system and the
-- equality of paths, an equivalence, are parameters.
--
-- Search and Rows are the binary search and the row words of both indices. Ism is
-- crates/casacure/src/ism.rs: header, index, lookup of a row's bucket, and the name blob. Ssm is
-- crates/casacure/src/ssm.rs: header, index, lookup, the chain of index buckets, the layout of a
-- bucket, the place of a cell, and the content of string array cells, where `lossy` stands for
-- `String::from_utf8_lossy` of the standard library and keeps UTF-8. Sums of 32 and 64 bits wrap
-- there as they do in a release build. The chain runs over the number of index buckets that the
-- header gives. Ism.Bucket is a bucket of intervals, in which a run of equal cells is stored once,
-- and Ism.File the whole file of such buckets: `write_ism_file`, `parse`, and the visit of a range
-- of cells. The loop over the buckets runs on one round for each row, since a round takes one at
-- least, and gives `out_of_fuel` where that is too few; a slice out of range is `panicked` or
-- `none`, and the subtractions of the lookup wrap. Positions reads runs of items at a position. Not
-- modelled are the string buckets and the writer of a whole file of Ssm, and the values of cells.
--
-- Taql is the tokenizer of crates/casacure/src/taql.rs, which takes each byte for a character;
-- `parse::<f64>` is a parameter, and the loop runs on one round for each byte, since a round takes
-- one at least, and gives `out_of_fuel` where that is too few. The position in the error for a
-- character is its place in the input.
--
-- Tsm is the packing of Booleans in crates/casacure/src/tsm.rs, whose multiplication over eight of
-- them is checked for all 256 cases.
--
-- Not modelled are the JSON of records and descriptions, the paths of subtables, the tiles and
-- headers of the tiled storage manager, tables, the parser and evaluation of TaQL, quanta, measures
-- and images. Tests applies the theorems at concrete inputs.
pub mod Aipsio
pub mod Bytes
pub mod Columnset
pub mod Flushgate
pub mod Ism
pub mod Lockfile
pub mod Positions
pub mod Prelude
pub mod Records
pub mod Result
pub mod Rows
pub mod Search
pub mod Ssm
pub mod Tabledesc
pub mod Tableinfo
pub mod Taql
pub mod Tests
pub mod Tsm
pub mod Types
