-- ===== src/Files/Writing.antt =====
-- What a write hands to the system.
use yaca.Base.{
  ℕ, zero, suc, ◌≤◌, Option, none, some, List, [], ◌∷◌, ◌++◌, ◌≡◌, ◌⊎◌, inl, inr, refl, sym, ap,
  ◌∙◌, arith, Bytes, length, take, drop, take-append-drop, append_assoc, append-nil, length-drop,
}
use yaca.Base.Result.{Result, ok, err}
use yaca.Process.State.{Code, errno_code}
use yaca.Files.{
  Calls, State, Deed, wrote, Reply, failed, number, system, write_loop, write_answered, write_reply,
  l_fs_write, file_of,
}

-- All bytes that writes have handed over, in their order.
abbrev pub written : List Deed → Bytes
written [] = []
written (wrote d bytes ∷ trace) = written trace ++ bytes
written (deed ∷ trace) = written trace

-- The rest is what was not handed over, and there is a failure exactly if there is a rest.
pub record Handed (bytes : Bytes) (before : List Deed) (code : Option Code) (after : List Deed)
    : Type 0 where
  pub given : Bytes
  pub rest : Bytes
  pub together : given ++ rest ≡ bytes
  pub handed : written after ≡ written before ++ given
  pub verdict : ((code ≡ none) × (rest ≡ [])) ⊎ ((c : Code) × (code ≡ some c) × (1 ≤ length rest))

-- What a write has handed over and how it answered.
pub record Written (bytes : Bytes) (before : List Deed) (reply : Reply) (after : List Deed)
    : Type 0 where
  pub given : Bytes
  pub rest : Bytes
  pub together : given ++ rest ≡ bytes
  pub handed : written after ≡ written before ++ given
  pub answered :
      ((reply ≡ number (length bytes)) × (rest ≡ []))
      ⊎ ((c : Code) × (reply ≡ failed (system c)) × (1 ≤ length rest))

module _ {W : Type 0} (sys : Calls W) where
  Handed-more :
      (n : ℕ) (d : Option ℕ) (bytes : Bytes) (before after : List Deed) (code : Option Code)
      → Handed (drop n bytes) (wrote d (take n bytes) ∷ before) code after
      → Handed bytes before code after
  Handed-more n d bytes before after code h = record {
    given = take n bytes ++ h.given;
    rest = h.rest;
    together =
        append_assoc (take n bytes) h.given h.rest
        ∙ ap (λ t. take n bytes ++ t) h.together
        ∙ take-append-drop n bytes;
    handed = h.handed ∙ append_assoc (written before) (take n bytes) h.given;
    verdict = h.verdict;
  }

  nothing_given :
      (bytes : Bytes) (before : List Deed) (c : Code)
      → 1 ≤ length bytes
      → Handed bytes before (some c) before
  nothing_given bytes before c h = record {
    given = [];
    rest = bytes;
    together = refl;
    handed = sym (append-nil (written before));
    verdict = inr (c, refl, h);
  }

  write_answered-Handed :
      (next : Bytes → State W → Option Code × State W) (d : Option ℕ) (bytes : Bytes)
      (answer : Result ℕ ℕ) (s : State W)
      → 1 ≤ length bytes
      → ((n : ℕ) (t : State W)
          → 1 ≤ n
          → Handed (drop n bytes) t.trace (next (drop n bytes) t).0 (next (drop n bytes) t).1.trace)
      → let ended = write_answered sys next d bytes answer s in
        Handed bytes s.trace ended.0 ended.1.trace
  unfolding errno_code
  write_answered-Handed next d bytes (err error) s h k = nothing_given bytes s.trace _ h
  write_answered-Handed next d bytes (ok zero) s h k = nothing_given bytes s.trace _ h
  write_answered-Handed next d bytes (ok (suc n)) s h k =
      Handed-more (suc n) d bytes s.trace _ _ (k (suc n) _ (omega arith))

  write_loop-Handed :
      (fuel : ℕ) (d : Option ℕ) (bytes : Bytes) (s : State W)
      → length bytes ≤ fuel
      → let ended = write_loop sys fuel d bytes s in Handed bytes s.trace ended.0 ended.1.trace
  unfolding write_loop
  write_loop-Handed fuel d [] s h = record {
    given = [];
    rest = [];
    together = refl;
    handed = sym (append-nil (written s.trace));
    verdict = inl (refl, refl);
  }
  write_loop-Handed zero d (b ∷ rest) s h = absurd (omega (arith, h))
  write_loop-Handed (suc fuel) d (b ∷ rest) s h =
      let answer = sys.write d (b ∷ rest) s.world in
      write_answered-Handed (λ rest s. write_loop sys fuel d rest s) d (b ∷ rest) answer.0
        (record s { world = answer.1 }) (omega arith)
        λ n t k.
          write_loop-Handed fuel d (drop n (b ∷ rest)) t
            (omega (arith, h, k, length-drop n (b ∷ rest)))

  Handed→Written :
      (bytes : Bytes) (before after : List Deed) (code : Option Code)
      → Handed bytes before code after
      → Written bytes before (write_reply sys bytes code) after
  Handed→Written bytes before after code h = record {
    given = h.given;
    rest = h.rest;
    together = h.together;
    handed = h.handed;
    answered = elim h.verdict [
      | inl (e, f) ↦ inl (ap (λ t. write_reply sys bytes t) e, f)
      | inr (c, e, f) ↦ inr (c, ap (λ t. write_reply sys bytes t) e, f)
    ];
  }

  -- A write on an open file, however many bytes the system takes at a time: it ends with the length
  -- of the bytes, and then the calls have handed over exactly them, in their order; or it fails with
  -- a code of the system, and then they have handed over a beginning of them, and not all.
  pub l_fs_write-Written :
      (d : ℕ) (bytes : Bytes) (s : State W)
      → let ended = l_fs_write sys (file_of d) bytes s in
        Written bytes s.trace ended.0 ended.1.trace
  unfolding l_fs_write
  l_fs_write-Written d bytes s =
      Handed→Written bytes s.trace _ _
        (write_loop-Handed (length bytes) (some d) bytes s (omega arith))
