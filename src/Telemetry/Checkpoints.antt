-- ===== src/Telemetry/Checkpoints.antt =====
-- The checkpoint files of crates/agent-telemetry/src/logs.rs: what identifies a file, what a
-- checkpoint file is called, and the writes by which a new checkpoint takes the place of the old one.
use cross_xagent.Base.{
  ℕ, zero, suc, ◌+◌, ◌-◌, ◌*◌, ◌/◌, ◌%◌, ◌^◌, Option, none, some, List, [], ◌∷◌, ◌++◌, Bytes, take,
  ltb, if◌then◌else◌, le_bytes,
}
use Prim.Native.Nat.{bit_xor}
use cross_xagent.Relay.Auth.{ascii}
use cross_xagent.Relay.Enroll.{ℤ, pos}
use cross_xagent.Telemetry.Tailer.{Tailer}

-- `file_signature` on Unix, of a device and an inode number of 64 bits: the halves do not overlap, so
-- that the disjunction is a sum.
unfoldable pub file_signature : ℕ → ℕ → ℕ
file_signature dev ino = dev * 2 ^ 64 + ino

-- The loop of `checkpoint_path` over the bytes of the path; the multiplication wraps.
unfoldable pub path_hash : ℕ → Bytes → ℕ
path_hash hash [] = hash
path_hash hash (byte ∷ bytes) = path_hash ((bit_xor hash byte * 0x00000100000001b3) % 2 ^ 64) bytes

abbrev pub hex_digit : ℕ → ℕ
hex_digit n = if ltb n 10 then b'0' + n else b'a' + (n - 10)

-- The last `k` hexadecimal digits, with zeros in front.
unfoldable pub hex_digits : ℕ → ℕ → Bytes
hex_digits zero n = []
hex_digits (suc k) n = hex_digits k (n / 16) ++ (hex_digit (n % 16) ∷ [])

-- The name of the file that `checkpoint_path` joins to its directory.
unfoldable pub checkpoint_name : Bytes → Bytes
checkpoint_name path =
    ascii "file-" ++ (hex_digits 16 (path_hash 0xcbf29ce484222325 path) ++ ascii ".checkpoint")

-- `unix_millis_now`, of the milliseconds since the epoch, which a clock before it does not have.
unfoldable pub unix_millis_now : Option ℕ → Option ℤ
unix_millis_now none = none
unix_millis_now (some elapsed) = if ltb (2 ^ 63 - 1) elapsed then none else some (pos elapsed)

-- The checkpoint, and the temporary file beside it.
pub record CheckpointFiles : Type 0 where
  pub temp : Option Bytes
  pub checkpoint : Option Bytes

-- The file operations of `persist_checkpoint` and of `replace_checkpoint` on Unix.
pub data Write : Type 0 where
  create sync_all rename : Write
  write_all : Bytes → Write

abbrev append_to : Option Bytes → Bytes → Option Bytes
append_to none bytes = none
append_to (some old) bytes = some (old ++ bytes)

abbrev renamed : Option Bytes → CheckpointFiles → CheckpointFiles
renamed none files = files
renamed (some bytes) files = record { temp = none; checkpoint = some bytes }

unfoldable pub apply_write : Write → CheckpointFiles → CheckpointFiles
apply_write create files = record files { temp = some [] }
apply_write (write_all bytes) files = record files { temp = append_to files.temp bytes }
apply_write sync_all files = files
apply_write rename files = renamed files.temp files

-- What `persist_checkpoint` does, in its order.
abbrev pub persist_writes : Tailer → List Write
persist_writes tailer =
    create
    ∷ write_all (le_bytes 8 tailer.pending_offset)
    ∷ write_all (le_bytes 16 tailer.pending_signature)
    ∷ sync_all
    ∷ rename
    ∷ []

-- The files after so many writes and some bytes of the next one.
unfoldable pub stopped_after : ℕ → ℕ → List Write → CheckpointFiles → CheckpointFiles
unfolding apply_write
stopped_after done bytes [] files = files
stopped_after zero bytes (write_all b ∷ writes) files = apply_write (write_all (take bytes b)) files
stopped_after zero bytes (create ∷ writes) files = files
stopped_after zero bytes (sync_all ∷ writes) files = files
stopped_after zero bytes (rename ∷ writes) files = files
stopped_after (suc done) bytes (write ∷ writes) files =
    stopped_after done bytes writes (apply_write write files)
