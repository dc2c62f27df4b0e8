-- ===== src/Supervisor/Children/Listing.antt =====
-- The kernel's list of children is read to the last number, however it is cut into buffers.
use yaca.Base.{
  ℕ, ◌+◌, ◌*◌, ◌<◌, ◌≤◌, Bool, true, Option, some, List, [], ◌∷◌, ◌++◌, append_assoc, append-nil,
  Bytes, ◌≡◌, refl, arith, ap, ◌∙◌, sym,
}
use yaca.Supervisor.Children.{
  Scan, reading, given_up, int_max, scan_byte, scan_bytes, scan_buffers, scan_result, signal_child,
  yaca_supervisor_kill_children,
}

-- A number by its digits, the leading one first, behind the digits that stand for `n`.
abbrev pub value_from : ℕ → List ℕ → ℕ
value_from n [] = n
value_from n (d ∷ ds) = value_from (n * 10 + d) ds

-- The digits are digits, and the number is positive and fits an `int`.
abbrev pub AreDigits : List ℕ → Type 0
AreDigits [] = Unit {0}
AreDigits (d ∷ ds) = (d < 10) × AreDigits ds

abbrev pub AreChildren : List (List ℕ) → Type 0
AreChildren [] = Unit {0}
AreChildren (ds ∷ rest) =
    AreDigits ds × (0 < value_from 0 ds) × (value_from 0 ds ≤ int_max) × AreChildren rest

-- The kernel's text: each number and a space behind it.
abbrev pub digit_bytes : List ℕ → Bytes
digit_bytes [] = []
digit_bytes (d ∷ ds) = (d + 48) ∷ digit_bytes ds

abbrev pub listing : List (List ℕ) → Bytes
listing [] = []
listing (ds ∷ rest) = digit_bytes ds ++ (32 ∷ listing rest)

abbrev pub children : List (List ℕ) → List ℕ
children [] = []
children (ds ∷ rest) = value_from 0 ds ∷ children rest

abbrev pub joined : List Bytes → Bytes
joined [] = []
joined (bytes ∷ buffers) = bytes ++ joined buffers

abbrev pub readings : List Bytes → List (Option Bytes)
readings [] = []
readings (bytes ∷ buffers) = some bytes ∷ readings buffers

value_from-le : (n : ℕ) (ds : List ℕ) → n ≤ value_from n ds
value_from-le n [] = omega arith
value_from-le n (d ∷ ds) = omega (arith, value_from-le (n * 10 + d) ds)

module _ (kill : ℕ → Bool) where
  scan_bytes-append :
      (xs ys : Bytes) (state : Scan)
      → scan_bytes kill (xs ++ ys) state ≡ scan_bytes kill ys (scan_bytes kill xs state)
  unfolding scan_bytes
  scan_bytes-append [] ys state = refl
  scan_bytes-append (x ∷ xs) ys state = scan_bytes-append xs ys (scan_byte kill x state)

  scan_bytes-given_up :
      (xs : Bytes) (signalled : List ℕ)
      → scan_bytes kill xs (given_up signalled) ≡ given_up signalled
  unfolding scan_bytes scan_byte
  scan_bytes-given_up [] signalled = refl
  scan_bytes-given_up (x ∷ xs) signalled = scan_bytes-given_up xs signalled

  -- Where the buffers are cut does not matter.
  scan_buffers-joined :
      (buffers : List Bytes) (state : Scan)
      → scan_buffers kill (readings buffers) state ≡ scan_bytes kill (joined buffers) state
  unfolding scan_buffers scan_bytes
  scan_buffers-joined [] (reading child signalled) = refl
  scan_buffers-joined buffers (given_up signalled) =
      sym (scan_bytes-given_up (joined buffers) signalled)
  scan_buffers-joined (bytes ∷ buffers) (reading child signalled) =
      scan_buffers-joined buffers (scan_bytes kill bytes (reading child signalled))
      ∙ sym (scan_bytes-append bytes (joined buffers) (reading child signalled))

  scan-digits :
      (ds : List ℕ) (n : ℕ) (signalled : List ℕ)
      → AreDigits ds
      → value_from n ds ≤ int_max
      → scan_bytes kill (digit_bytes ds) (reading n signalled) ≡ reading (value_from n ds) signalled
  unfolding scan_bytes scan_byte
  scan-digits [] n signalled a l = refl
  scan-digits (d ∷ ds) n signalled (a, digits) l =
      let step : scan_byte kill (d + 48) (reading n signalled) ≡ reading (n * 10 + d) signalled =
        ground (arith, value_from-le (n * 10 + d) ds) in
      ap (scan_bytes kill (digit_bytes ds)) step ∙ scan-digits ds (n * 10 + d) signalled digits l

  module _ (kills : (child : ℕ) → kill child ≡ true) where
    scan-space :
        (n : ℕ) (signalled : List ℕ)
        → 0 < n
        → scan_byte kill 32 (reading n signalled) ≡ reading 0 (signalled ++ (n ∷ []))
    unfolding scan_byte signal_child
    scan-space n signalled h = ground (arith, kills n)

    scan-listing :
        (list : List (List ℕ)) (signalled : List ℕ)
        → AreChildren list
        → scan_bytes kill (listing list) (reading 0 signalled)
          ≡ reading 0 (signalled ++ children list)
    unfolding scan_bytes
    scan-listing [] signalled a = ap (reading 0) (sym (append-nil signalled))
    scan-listing (ds ∷ rest) signalled (a, p, l, others) =
        scan_bytes-append (digit_bytes ds) _ (reading 0 signalled)
        ∙ ap (scan_bytes kill (32 ∷ listing rest)) (scan-digits ds 0 signalled a l)
        ∙ ap (scan_bytes kill (listing rest)) (scan-space (value_from 0 ds) signalled p)
        ∙ scan-listing rest _ others
        ∙ ap (reading 0) (append_assoc signalled (value_from 0 ds ∷ []) (children rest))

-- If every signal succeeds or finds its child gone, and the buffers together are the kernel's list
-- of children, then the result is 1 and all children are signalled, each once and in their order.
pub kill_children-listing :
    (kill : ℕ → Bool) (list : List (List ℕ)) (buffers : List Bytes)
    → ((child : ℕ) → kill child ≡ true)
    → AreChildren list
    → joined buffers ≡ listing list
    → yaca_supervisor_kill_children kill true (readings buffers) ≡ (true, children list)
unfolding yaca_supervisor_kill_children
kill_children-listing kill list buffers kills a e =
    let read =
      scan_buffers-joined kill buffers (reading 0 [])
      ∙ ap (λ (bytes : Bytes). scan_bytes kill bytes (reading 0 [])) e
      ∙ scan-listing kill kills list [] a in
    ap (scan_result kill) read
