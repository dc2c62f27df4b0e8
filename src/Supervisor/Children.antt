-- ===== src/Supervisor/Children.antt =====
-- `yaca_supervisor_kill_children`: the reader of the kernel's list of children.
pub mod Listing
use yaca.Base.{
  ℕ, ◌+◌, ◌-◌, ◌*◌, ◌/◌, Bool, true, false, ◌&&◌, ◌||◌, Option, none, some, List, [], ◌∷◌, ◌++◌,
  Bytes, ltb, leb, ◌==◌, if◌then◌else◌,
}

-- The reader on its way, with the number so far and the children that were signalled, in their
-- order; or its return with 0.
pub data Scan : Type 0 where
  reading : ℕ → List ℕ → Scan
  given_up : List ℕ → Scan

abbrev pub int_max : ℕ
int_max = 0x7fffffff

abbrev pub is_digit : ℕ → Bool
is_digit byte = leb 48 byte && leb byte 57

abbrev pub is_separator : ℕ → Bool
is_separator byte = (byte == 32) || (byte == 10)

-- `kill child` tells whether the signal was sent or the child was gone (ESRCH).
module _ (kill : ℕ → Bool) where
  -- A separator: the number before it is signalled if it is positive.
  pub signal_child : ℕ → List ℕ → Scan
  signal_child child signalled =
      if ltb 0 child
      then (if kill child then reading 0 (signalled ++ (child ∷ [])) else given_up signalled)
      else reading 0 signalled

  pub scan_byte : ℕ → Scan → Scan
  unfolding signal_child
  scan_byte byte (given_up signalled) = given_up signalled
  scan_byte byte (reading child signalled) =
      if is_digit byte
      then (if ltb ((int_max - (byte - 48)) / 10) child
          then given_up signalled
          else reading (child * 10 + (byte - 48)) signalled)
      else if is_separator byte
      then signal_child child signalled
      else given_up signalled

  -- One buffer.
  pub scan_bytes : Bytes → Scan → Scan
  scan_bytes [] state = state
  scan_bytes (byte ∷ bytes) state = scan_bytes bytes (scan_byte byte state)

  -- The buffers up to the end of the file; `none` is an error of `read`.
  pub scan_buffers : List (Option Bytes) → Scan → Scan
  scan_buffers buffers (given_up signalled) = given_up signalled
  scan_buffers [] (reading child signalled) = reading child signalled
  scan_buffers (none ∷ buffers) (reading child signalled) = given_up signalled
  scan_buffers (some bytes ∷ buffers) (reading child signalled) =
      scan_buffers buffers (scan_bytes bytes (reading child signalled))

  -- The result, with the children that were signalled.
  pub scan_result : Scan → Bool × List ℕ
  scan_result (given_up signalled) = (false, signalled)
  scan_result (reading child signalled) =
      if child == 0
      then (true, signalled)
      else if kill child
      then (true, signalled ++ (child ∷ []))
      else (false, signalled)

  -- `seekable` tells whether `lseek` succeeds.
  unfoldable pub yaca_supervisor_kill_children : Bool → List (Option Bytes) → Bool × List ℕ
  unfolding scan_bytes scan_byte scan_buffers scan_result
  yaca_supervisor_kill_children seekable buffers =
      if seekable then scan_result (scan_buffers buffers (reading 0 [])) else (false, [])
