-- ===== src/Files/Life.antt =====
-- Any calls on an open file, and what they use of its descriptor.
use yaca.Base.{
  ℕ, zero, suc, true, Option, none, some, List, [], ◌∷◌, ◌++◌, ◌≡◌, refl, sym, ap, subst, ◌∙◌,
  Bytes, length, take, drop, append_assoc,
}
use yaca.Base.Int.{ℤ, pos, negsuc}
use yaca.Base.Result.{Result, ok, err}
use yaca.Process.State.{Code, errno_code}
use yaca.Files.{
  Calls, File, State, Deed, wrote, closed, looked, read_some, moved, flushed, Reply, write_loop,
  write_answered, l_fs_read, l_fs_seek, l_fs_write, l_fs_flush_file, l_fs_stat_identity, l_fs_close,
  l_file_gc, close_file, file_of, read_admitted, admitted_request, seek_admitted,
}

pub data Operation : Type 0 where
  read seek : ℤ → Operation
  write : Bytes → Operation
  flush_file stat_identity close : Operation

abbrev keep : {W : Type 0} → File → Reply × State W → Reply × (File × State W)
keep file (reply, s) = (reply, (file, s))

module _ {W : Type 0} (sys : Calls W) where
  unfoldable pub perform : Operation → File → State W → Reply × (File × State W)
  unfolding l_fs_read l_fs_seek l_fs_write l_fs_flush_file l_fs_stat_identity l_fs_close
  perform (read requested) file s = keep file (l_fs_read sys file requested s)
  perform (seek offset) file s = keep file (l_fs_seek sys file offset s)
  perform (write bytes) file s = keep file (l_fs_write sys file bytes s)
  perform flush_file file s = keep file (l_fs_flush_file sys file s)
  perform stat_identity file s = keep file (l_fs_stat_identity sys file s)
  perform close file s = l_fs_close sys file s

  -- The file and the state behind a sequence of calls.
  unfoldable pub perform_all : List Operation → File → State W → File × State W
  unfolding perform
  perform_all [] file s = (file, s)
  perform_all (operation ∷ operations) file s =
      let ended = (perform operation file s).1 in perform_all operations ended.0 ended.1

-- Deeds on the descriptor that do not close it.
pub data IsUse (d : ℕ) : Deed → Type 0 where
  looks : IsUse d (looked (some d))
  reads : IsUse d (read_some (some d))
  moves : IsUse d (moved (some d))
  flushes : IsUse d (flushed (some d))
  writes : (bytes : Bytes) → IsUse d (wrote (some d) bytes)

abbrev pub Uses : ℕ → List Deed → Type 0
Uses d [] = Unit {0}
Uses d (deed ∷ trace) = IsUse d deed × Uses d trace

Uses-append : (d : ℕ) (xs ys : List Deed) → Uses d xs → Uses d ys → Uses d (xs ++ ys)
Uses-append d [] ys h k = k
Uses-append d (x ∷ xs) ys (h, hs) k = (h, Uses-append d xs ys hs k)

-- The deeds since `before` are uses.
pub record Used (d : ℕ) (before after : List Deed) : Type 0 where
  pub deeds : List Deed
  pub uses : Uses d deeds
  pub grown : after ≡ deeds ++ before

unused : (d : ℕ) (before : List Deed) → Used d before before
unused d before = record { deeds = []; uses = tt; grown = refl }

Used-once :
    (d : ℕ) (deed : Deed) (before : List Deed) → IsUse d deed → Used d before (deed ∷ before)
Used-once d deed before h = record { deeds = deed ∷ []; uses = (h, tt); grown = refl }

Used-trans : (d : ℕ) (a b c : List Deed) → Used d a b → Used d b c → Used d a c
Used-trans d a b c h k = record {
  deeds = k.deeds ++ h.deeds;
  uses = Uses-append d k.deeds h.deeds k.uses h.uses;
  grown = k.grown ∙ ap (λ t. k.deeds ++ t) h.grown ∙ sym (append_assoc k.deeds h.deeds a);
}

abbrev shut : File
shut = record { descriptor = none; closed = true }

-- Behind calls on an open file: it is open, or it is closed, by the last deed.
pub data Lives (d : ℕ) (before : List Deed) : File → List Deed → Type 0 where
  still_open : (after : List Deed) → Used d before after → Lives d before (file_of d) after
  ended : (after : List Deed) → Used d before after → Lives d before shut (closed d ∷ after)

module _ {W : Type 0} (sys : Calls W) where
  write_answered-Used :
      (next : Bytes → State W → Option Code × State W) (d : ℕ) (rest : Bytes) (answer : Result ℕ ℕ)
      (s : State W)
      → ((bytes : Bytes) (t : State W) → Used d t.trace (next bytes t).1.trace)
      → Used d s.trace (write_answered sys next (some d) rest answer s).1.trace
  unfolding errno_code
  write_answered-Used next d rest (err error) s h = unused d s.trace
  write_answered-Used next d rest (ok zero) s h = unused d s.trace
  write_answered-Used next d rest (ok (suc n)) s h =
      Used-trans d s.trace (wrote (some d) (take (suc n) rest) ∷ s.trace) _
        (Used-once d (wrote (some d) (take (suc n) rest)) s.trace (writes (take (suc n) rest)))
        (h (drop (suc n) rest) _)

  write_loop-Used :
      (fuel d : ℕ) (bytes : Bytes) (s : State W)
      → Used d s.trace (write_loop sys fuel (some d) bytes s).1.trace
  unfolding write_loop
  write_loop-Used fuel d [] s = unused d s.trace
  write_loop-Used zero d (b ∷ rest) s = unused d s.trace
  write_loop-Used (suc fuel) d (b ∷ rest) s =
      let answer = sys.write (some d) (b ∷ rest) s.world in
      write_answered-Used (λ rest s. write_loop sys fuel (some d) rest s) d (b ∷ rest) answer.0
        (record s { world = answer.1 }) λ bytes t. write_loop-Used fuel d bytes t

  read_admitted-Used :
      (request : Option ℕ) (d : ℕ) (s : State W)
      → Used d s.trace (read_admitted sys request (file_of d) s).1.trace
  unfolding errno_code
  read_admitted-Used none d s = unused d s.trace
  read_admitted-Used (some n) d s = Used-once d (read_some (some d)) s.trace reads

  seek_admitted-Used :
      (offset : ℤ) (d : ℕ) (s : State W)
      → Used d s.trace (seek_admitted sys offset (file_of d) s).1.trace
  unfolding errno_code
  seek_admitted-Used (negsuc n) d s = unused d s.trace
  seek_admitted-Used (pos n) d s = Used-once d (moved (some d)) s.trace moves

  perform-Lives :
      (operation : Operation) (d : ℕ) (s : State W)
      → let ended = (perform sys operation (file_of d) s).1 in Lives d s.trace ended.0 ended.1.trace
  unfolding perform close_file
  perform-Lives (read n) d s = still_open _ (read_admitted-Used (admitted_request sys n) d s)
  perform-Lives (seek n) d s = still_open _ (seek_admitted-Used n d s)
  perform-Lives (write bytes) d s = still_open _ (write_loop-Used (length bytes) d bytes s)
  perform-Lives flush_file d s = still_open _ (Used-once d (flushed (some d)) s.trace flushes)
  perform-Lives stat_identity d s = still_open _ (Used-once d (looked (some d)) s.trace looks)
  perform-Lives close d s = ended s.trace (unused d s.trace)

  -- A closed file refuses every call, and nothing is done.
  perform-shut :
      (operation : Operation) (s : State W) → (perform sys operation shut s).1 ≡ (shut, s)
  unfolding perform
  perform-shut (read n) s = refl
  perform-shut (seek n) s = refl
  perform-shut (write bytes) s = refl
  perform-shut flush_file s = refl
  perform-shut stat_identity s = refl
  perform-shut close s = refl

  perform_all-shut :
      (operations : List Operation) (s : State W) → perform_all sys operations shut s ≡ (shut, s)
  unfolding perform_all
  perform_all-shut [] s = refl
  perform_all-shut (operation ∷ operations) s =
      ap (λ e. perform_all sys operations e.0 e.1) (perform-shut operation s)
      ∙ perform_all-shut operations s

  Lives-trans :
      (d : ℕ) (before middle : List Deed) (file : File) (after : List Deed)
      → Used d before middle
      → Lives d middle file after
      → Lives d before file after
  Lives-trans d before middle file after h (still_open t k) =
      still_open t (Used-trans d before middle t h k)
  Lives-trans d before middle file after h (ended t k) = ended t (Used-trans d before middle t h k)

  continue-Lives :
      (d : ℕ) (before : List Deed) (operations : List Operation) (file : File) (trace : List Deed)
      (s : State W)
      → s.trace ≡ trace
      → Lives d before file trace
      → ((t : State W)
          → let e = perform_all sys operations (file_of d) t in Lives d t.trace e.0 e.1.trace)
      → let e = perform_all sys operations file s in Lives d before e.0 e.1.trace
  continue-Lives d before operations file trace s e (still_open t h) next =
      Lives-trans d before s.trace _ _ (subst (λ t. Used d before t) (sym e) h) (next s)
  continue-Lives d before operations file trace s e (ended t h) next =
      subst (λ r. Lives d before r.0 r.1.trace) (sym (perform_all-shut operations s))
        (subst (λ t. Lives d before shut t) (sym e) (ended t h))

  perform_all-Lives :
      (operations : List Operation) (d : ℕ) (s : State W)
      → let e = perform_all sys operations (file_of d) s in Lives d s.trace e.0 e.1.trace
  unfolding perform_all
  perform_all-Lives [] d s = still_open s.trace (unused d s.trace)
  perform_all-Lives (operation ∷ operations) d s =
      let step = (perform sys operation (file_of d) s).1 in
      continue-Lives d s.trace operations step.0 step.1.trace step.1 refl
        (perform-Lives operation d s) λ t. perform_all-Lives operations d t

  -- Closed, by the last deed, behind uses only.
  pub record Over (d : ℕ) (before : List Deed) (file : File) (after : List Deed) : Type 0 where
    pub last : List Deed
    pub uses : Used d before last
    pub once : after ≡ closed d ∷ last
    pub shut : file.closed ≡ true

  gc-Over :
      (d : ℕ) (before : List Deed) (file : File) (trace : List Deed) (s : State W)
      → s.trace ≡ trace
      → Lives d before file trace
      → let e = l_file_gc sys file s in Over d before e.0 e.1.trace
  unfolding l_file_gc
  gc-Over d before file trace s e (still_open t h) = record {
    last = s.trace;
    uses = subst (λ t. Used d before t) (sym e) h;
    once = refl;
    shut = refl;
  }
  gc-Over d before file trace s e (ended t h) = record { last = t; uses = h; once = e; shut = refl }

  -- Whatever is called on an open file, closing included, and whatever the system answers: behind
  -- its finalizer the file is closed, its descriptor was closed exactly once, as the last thing that
  -- was done, and everything done before that was a use of this descriptor.
  pub l_file_gc-perform_all :
      (operations : List Operation) (d : ℕ) (s : State W)
      → let called = perform_all sys operations (file_of d) s in
        let e = l_file_gc sys called.0 called.1 in Over d s.trace e.0 e.1.trace
  l_file_gc-perform_all operations d s =
      let called = perform_all sys operations (file_of d) s in
      gc-Over d s.trace called.0 called.1.trace called.1 refl (perform_all-Lives operations d s)
