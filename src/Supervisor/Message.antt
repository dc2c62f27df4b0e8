-- ===== src/Supervisor/Message.antt =====
-- `yaca_supervisor_result`, the record that the supervisor sends to its parent, as its bytes.
use yaca.Base.{ℕ, ◌/◌, ◌%◌, Bool, [], ◌∷◌, ◌++◌, Bytes, if◌then◌else◌}

-- `cancelled` is the `int` that is 0 or 1.
pub record SupervisorResult : Type 0 where
  pub magic : ℕ
  pub leader_status : ℕ
  pub cancelled : Bool

abbrev pub supervisor_magic : ℕ
supervisor_magic = 0x59414341

-- A `uint32_t` or `int` in memory, in the byte order of x86.
abbrev pub word_bytes : ℕ → Bytes
word_bytes w = (w % 256) ∷ (w / 256 % 256) ∷ (w / 65536 % 256) ∷ (w / 16777216 % 256) ∷ []

abbrev pub record_bytes : SupervisorResult → Bytes
record_bytes r =
    word_bytes r.magic ++ (word_bytes r.leader_status ++ word_bytes (if r.cancelled then 1 else 0))
