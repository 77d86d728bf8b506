-- ===== src/Lockfile/Requests/Info.antt =====
-- The info area of `table.lock` (crates/casacure/src/lockfile.rs): what `put_info` stores
-- `get_info` returns, and the request list before it stays.
use casacure.Prelude.{
  ℕ, zero, suc, ◌+◌, ◌-◌, ◌%◌, ◌^◌, ◌≤◌, ◌<◌, ◌≡◌, refl, ap, sym, subst, ◌∙◌, false, List, [], ◌∷◌,
  ◌++◌, append_assoc, some, arith, length, take, drop, replicate, length-append, length-take,
  length-replicate, slice-append,
}
use casacure.Result.{ok}
use casacure.Bytes.{from_bytes, from_bytes-to_bytes, length-to_bytes}
use casacure.Aipsio.Reader.{reader, new}
use casacure.Lockfile.Sync
use casacure.Lockfile.Sync.{TableSyncData}
use casacure.Lockfile.Sync.RoundTrip.{IsValid, stored, parse-to_bytes}
use casacure.Lockfile.Requests.{
  size_req_id, pread_exact, pwrite_all, be32, nr_req_id, get_info, put_info,
}

-- The bytes that stand between `xs` and `zs` are read at the length of `xs`.
pread_exact-append :
    (xs ys zs : List ℕ) (off n : ℕ)
    → off ≡ length xs
    → n ≡ length ys
    → pread_exact (xs ++ (ys ++ zs)) off n ≡ some ys
unfolding pread_exact
pread_exact-append xs ys zs off n ho hn =
    rw (ho, hn)
      (ground (arith, length-append xs (ys ++ zs), length-append ys zs, slice-append xs ys zs))

-- What stands before the place of a write.
written_before : List ℕ → ℕ → List ℕ
written_before file offset = take offset (file ++ replicate (offset - length file) 0)

length-written_before : (file : List ℕ) (offset : ℕ) → length (written_before file offset) ≡ offset
unfolding written_before
length-written_before file offset = rw (length-take, length-append, length-replicate) (omega arith)

pwrite_all-parts :
    (file : List ℕ) (offset : ℕ) (bytes : List ℕ)
    → pwrite_all file offset bytes
      ≡ written_before file offset ++ (bytes ++ drop (offset + length bytes) file)
unfolding pwrite_all written_before
pwrite_all-parts file offset bytes = refl

-- A write leaves what is read before its place.
take-take :
    (n m : ℕ) (xs ys zs : List ℕ)
    → n ≤ m
    → m ≤ length xs
    → take n (take m (xs ++ ys) ++ zs) ≡ take n xs
take-take zero m xs ys zs h k = refl
take-take (suc n) zero xs ys zs h k = absurd (omega arith)
take-take (suc n) (suc m) [] ys zs h k = absurd (omega arith)
take-take (suc n) (suc m) (x ∷ xs) ys zs h k =
    ap (λ t. x ∷ t) (take-take n m xs ys zs (omega arith) (omega arith))

pread_exact-pwrite_all :
    (file : List ℕ) (n offset : ℕ) (bytes : List ℕ)
    → n ≤ offset
    → offset ≤ length file
    → pread_exact (pwrite_all file offset bytes) 0 n ≡ pread_exact file 0 n
unfolding pread_exact pwrite_all
pread_exact-pwrite_all file n offset bytes h k =
    let gap : List ℕ = replicate (offset - length file) 0 in
    let after : List ℕ = bytes ++ drop (offset + length bytes) file in
    ground (
      arith,
      take-take n offset file gap after h k,
      length-append (take offset (file ++ gap)) after,
      length-take offset (file ++ gap),
      length-append file gap,
    )

module _ (file bytes : List ℕ) where
  abbrev info_file : List ℕ
  info_file = pwrite_all file size_req_id (be32 (length bytes % 2 ^ 32) ++ bytes)

  -- The two reads of `get_info`.
  read_length : pread_exact info_file size_req_id 4 ≡ some (be32 (length bytes % 2 ^ 32))
  read_length =
      let word : List ℕ = be32 (length bytes % 2 ^ 32) in
      rw (pwrite_all-parts, append_assoc word)
        (pread_exact-append (written_before file size_req_id) word _ size_req_id 4
          (sym (length-written_before file size_req_id)) (sym (length-to_bytes false 4 _)))

  read_bytes : pread_exact info_file (size_req_id + 4) (length bytes) ≡ some bytes
  read_bytes =
      let word : List ℕ = be32 (length bytes % 2 ^ 32) in
      rw (pwrite_all-parts, append_assoc word, ← append_assoc (written_before file size_req_id))
        (pread_exact-append (written_before file size_req_id ++ word) bytes _ (size_req_id + 4) _
          (rw (length-append, length-written_before, length-to_bytes)) refl)

module _ (d : TableSyncData) (file bytes : List ℕ) where
  get_info-written :
      Sync.parse bytes ≡ ok (stored d)
      → 0 < length bytes
      → length bytes ≤ 2 ^ 26
      → get_info (info_file file bytes) ≡ ok (some (stored d))
  unfolding get_info
  get_info-written parsed nonempty short =
      let fits : length bytes % 2 ^ 32 ≡ length bytes = omega arith in
      let value : from_bytes false (be32 (length bytes % 2 ^ 32)) ≡ length bytes =
        from_bytes-to_bytes false 4 _ (omega arith) ∙ fits in
      rw (read_length file bytes, value) (ground (arith, read_bytes file bytes, parsed))

nonempty_of_parse :
    (bytes : List ℕ) (d : TableSyncData) → Sync.parse bytes ≡ ok d → 0 < length bytes
unfolding Sync.parse Sync.read_sync reader new
nonempty_of_parse [] d h = cc
nonempty_of_parse (b ∷ bs) d h = omega arith

-- A sync record in range whose stream takes at most 64 MiB is stored by `put_info` in any lock file, and
-- `get_info` then returns it as its stream keeps it: without the change counters where the column
-- count is negative.
pub get_info-put_info :
    (d : TableSyncData) (file bytes : List ℕ)
    → IsValid d
    → Sync.to_bytes d ≡ some bytes
    → length bytes ≤ 2 ^ 26
    → (file' : List ℕ) × (put_info d file ≡ some file') × (get_info file' ≡ ok (some (stored d)))
unfolding put_info
get_info-put_info d file bytes h written short = (
  info_file file bytes,
  rw written,
  get_info-written d file bytes parsed (nonempty_of_parse bytes (stored d) parsed) short,
)
  where
    parsed : Sync.parse bytes ≡ ok (stored d)
    parsed =
        let (other, e, p) = parse-to_bytes d h in
        let same : other ≡ bytes = cc in subst (λ b. Sync.parse b ≡ ok (stored d)) same p

-- `put_info` of a record that is serialized leaves the count of the request list as it was, in a file
-- that held the whole list.
pub nr_req_id-put_info :
    (d : TableSyncData) (file bytes : List ℕ)
    → Sync.to_bytes d ≡ some bytes
    → size_req_id ≤ length file
    → (file' : List ℕ) × (put_info d file ≡ some file') × (nr_req_id file' ≡ nr_req_id file)
unfolding put_info nr_req_id
nr_req_id-put_info d file bytes written long = (
  info_file file bytes,
  rw written,
  rw (pread_exact-pwrite_all file 4 size_req_id _ (omega arith) long),
)
