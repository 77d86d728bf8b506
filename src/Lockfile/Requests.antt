-- ===== src/Lockfile/Requests.antt =====
-- The bytes of `table.lock` and what crates/casacure/src/lockfile.rs reads and writes of them: the
-- request list at the head, and the length-prefixed sync record behind it. Reading past the end
-- is the only failure of the file that is modelled.
pub mod Info
use casacure.Prelude.{
  ℕ, zero, suc, ◌+◌, ◌-◌, ◌*◌, ◌%◌, ◌^◌, ◌≡◌, refl, Bool, true, false, not, ◌&&◌, ◌||◌, List, [],
  ◌∷◌, ◌++◌, Option, none, some, ltb, leb, ◌==◌, if◌then◌else◌, length, take, drop, slice,
  replicate,
}
use casacure.Prelude.Int.{ℤ, pos, negsuc, as_u32, as_i32}
use casacure.Result.{Result, ok, err}
use casacure.Bytes.{to_bytes, from_bytes}
use casacure.Lockfile.Sync
use casacure.Lockfile.Sync.{SyncError, TableSyncData}

-- `LockFile::SIZEREQID`
abbrev pub size_req_id : ℕ
size_req_id = (1 + 2 * 32) * 4

-- `pread_exact`; `none` is UnexpectedEof.
unfoldable pub pread_exact : List ℕ → ℕ → ℕ → Option (List ℕ)
pread_exact file offset n =
    if ltb (length file) (offset + n) then none else some (slice file offset n)

-- `pwrite_all`; a write past the end fills the gap with zeros.
unfoldable pub pwrite_all : List ℕ → ℕ → List ℕ → List ℕ
pwrite_all file offset bytes =
    take offset (file ++ replicate (offset - length file) 0)
    ++ (bytes ++ drop (offset + length bytes) file)

abbrev pub be32 : ℕ → List ℕ
be32 v = to_bytes false 4 v

abbrev pub or_else : Option ℕ → ℕ → ℕ
or_else none d = d
or_else (some v) d = v

abbrev pub word_of : Option (List ℕ) → Option ℕ
word_of none = none
word_of (some bytes) = some (from_bytes false bytes)

unfoldable pub nr_req_id : List ℕ → Option ℕ
nr_req_id file = word_of (pread_exact file 0 4)

-- `lf.missing` and `lf.read_only_fd` are the caller's test.
unfoldable pub add_req_id : ℤ → List ℕ → List ℕ
add_req_id own file =
    let count = or_else (nr_req_id file) 0 in
    if leb 32 count
    then file
    else pwrite_all (pwrite_all file (4 + 8 * count) (be32 (as_u32 own) ++ be32 0)) 0
        (be32 (count + 1))

-- `kill(pid, 0)` failing with ESRCH is the parameter `gone`.
unfoldable pub process_dead : (ℤ → Bool) → ℤ → Bool
process_dead gone (pos zero) = true
process_dead gone (pos (suc n)) = gone (pos (suc n))
process_dead gone (negsuc n) = true

abbrev pub eq_ℤ : ℤ → ℤ → Bool
eq_ℤ (pos a) (pos b) = a == b
eq_ℤ (negsuc a) (negsuc b) = a == b
eq_ℤ _ _ = false

-- Whether the entry `e` stays: its process lives and is another.
unfoldable pub is_kept : (ℤ → Bool) → ℤ → List ℕ → Bool
is_kept gone own e =
    let pid = as_i32 (from_bytes false (take 4 e)) in
    not (process_dead gone pid) && not (eq_ℤ pid own)

-- The entries of a list of `n`, 8 bytes each.
unfoldable pub entries : ℕ → List ℕ → List (List ℕ)
entries zero bytes = []
entries (suc n) bytes = take 8 bytes ∷ entries n (drop 8 bytes)

unfoldable pub kept_entries : (ℤ → Bool) → ℤ → List (List ℕ) → List (List ℕ)
kept_entries gone own [] = []
kept_entries gone own (e ∷ es) =
    let rest = kept_entries gone own es in if is_kept gone own e then e ∷ rest else rest

unfoldable pub concat : List (List ℕ) → List ℕ
concat [] = []
concat (e ∷ es) = e ++ concat es

unfoldable pub request_list : List (List ℕ) → List ℕ
request_list es = be32 (length es) ++ concat es

abbrev pub rewrite_requests : (ℤ → Bool) → ℤ → List ℕ → ℕ → Option (List ℕ) → List ℕ
rewrite_requests gone own file count none = file
rewrite_requests gone own file count (some buf) =
    pwrite_all file 0 (request_list (kept_entries gone own (entries count (drop 4 buf))))

unfoldable pub remove_req_id : (ℤ → Bool) → ℤ → List ℕ → List ℕ
remove_req_id gone own file =
    let count = or_else (nr_req_id file) 0 in
    if ltb 0 count && leb count 32
    then rewrite_requests gone own file count (pread_exact file 0 (4 + 8 * count))
    else file

-- `map(Some)` of the parsed record.
abbrev pub found : Result SyncError TableSyncData → Result SyncError (Option TableSyncData)
found (ok d) = ok (some d)
found (err e) = err e

abbrev pub parse_info : Option (List ℕ) → Result SyncError (Option TableSyncData)
parse_info none = ok none
parse_info (some info) = found (Sync.parse info)

abbrev pub info_of_length : List ℕ → Option ℕ → Result SyncError (Option TableSyncData)
info_of_length file none = ok none
info_of_length file (some len) =
    if (len == 0) || ltb (64 * 1024 * 1024) len
    then ok none
    else parse_info (pread_exact file (size_req_id + 4) len)

unfoldable pub get_info : List ℕ → Result SyncError (Option TableSyncData)
get_info file = info_of_length file (word_of (pread_exact file size_req_id 4))

abbrev pub write_info : List ℕ → Option (List ℕ) → Option (List ℕ)
write_info file none = none
write_info file (some bytes) =
    some (pwrite_all file size_req_id (be32 (length bytes % 2 ^ 32) ++ bytes))

-- `none` is a panic of the serializer.
unfoldable pub put_info : TableSyncData → List ℕ → Option (List ℕ)
put_info d file = write_info file (Sync.to_bytes d)

unfoldable pub init_empty_file : List ℕ → List ℕ
init_empty_file file =
    if ltb (length file) size_req_id then pwrite_all file 0 (replicate size_req_id 0) else file
