-- ===== src/Hash/Owner/Refinement.antt =====
-- The abstract hash object, and the refinement: the userdata answers every sequence of calls as
-- the abstract object does.
use yaca.Base.{
  ◌+◌, List, [], ◌∷◌, ◌++◌, ◌≡◌, refl, ap, ap₂, Bytes, length, ltb, if◌then◌else◌, ltb→lt, ltb→le,
  Bool-cases, inl, inr,
}
use yaca.Hash.Context.{Context}
use yaca.Hash.Context.Message.{HasAbsorbed, message_limit, initialize-HasAbsorbed}
use yaca.Hash.Context.Digest.{sha256}
use yaca.Hash.Owner.{
  Reply, acknowledged, nothing, digest, raised_closed, raised_limit, raised_memory, no_stack,
  no_string, enough, Call, update, finish, close, gc, perform, replies, wiped, l_sha256_start,
  l_sha256_update, l_sha256_finish, l_sha256_close, l_sha256_gc,
}
use yaca.Hash.Owner.Laws.{update-HasAbsorbed, update_overflow, finish-digest}

-- An object collects a message, or is gone.
pub data HashObject : Type 0 where
  hashing : Bytes → HashObject
  gone : HashObject

-- What the object promises. An update that would pass the limit and a refused result change nothing.
pub promise : HashObject → Call → HashObject × Reply
promise (hashing m) (update bytes) =
    if ltb message_limit (length m + length bytes)
    then (hashing m, raised_limit)
    else (hashing (m ++ bytes), acknowledged)
promise (hashing m) (finish no_stack) = (hashing m, raised_memory)
promise (hashing m) (finish no_string) = (hashing m, raised_memory)
promise (hashing m) (finish enough) = (gone, digest (sha256 m))
promise (hashing m) close = (gone, acknowledged)
promise (hashing m) gc = (gone, nothing)
promise gone (update bytes) = (gone, raised_closed)
promise gone (finish memory) = (gone, raised_closed)
promise gone close = (gone, acknowledged)
promise gone gc = (gone, nothing)

pub promises : HashObject → List Call → List Reply
promises o [] = []
promises o (call ∷ calls) = let (o', reply) = promise o call in reply ∷ promises o' calls

-- A gone object holds nothing but zeros.
abbrev pub Represents : HashObject → Context → Type 0
Represents (hashing m) c = HasAbsorbed m c
Represents gone c = c ≡ wiped

abbrev Agrees : HashObject × Reply → Context × Reply → Type 0
Agrees (o, reply) (c, reply') = Represents o c × (reply' ≡ reply)

update-Agrees :
    (m bytes : Bytes) (c : Context)
    → HasAbsorbed m c
    → Agrees (promise (hashing m) (update bytes)) (perform c (update bytes))
unfolding promise perform
update-Agrees m bytes c a = elim (Bool-cases (ltb message_limit (length m + length bytes))) [
  | inl over ↦ simp (over, update_overflow m bytes c a (ltb→lt _ _ over)) (a, refl)
  | inr fits ↦ let (e, a') = update-HasAbsorbed m bytes c a (ltb→le _ _ fits) in simp fits (a', e)
]

hashing-Agrees :
    (m : Bytes) (c : Context) (call : Call)
    → HasAbsorbed m c
    → Agrees (promise (hashing m) call) (perform c call)
unfolding promise perform l_sha256_finish l_sha256_close l_sha256_gc
hashing-Agrees m c (update bytes) a = update-Agrees m bytes c a
hashing-Agrees m c (finish no_stack) a = simp a.still_open (a, refl)
hashing-Agrees m c (finish no_string) a = simp a.still_open (a, refl)
hashing-Agrees m c (finish enough) a =
    let e = finish-digest m c a in (ap (λ p. p.0) e, ap (λ p. p.1) e)
hashing-Agrees m c close a = simp a.still_open (refl, refl)
hashing-Agrees m c gc a = (refl, refl)

gone-Agrees : (c : Context) (call : Call) → c ≡ wiped → Agrees (promise gone call) (perform c call)
unfolding promise perform l_sha256_update l_sha256_finish l_sha256_close l_sha256_gc
gone-Agrees c (update bytes) e = rw e (refl, refl)
gone-Agrees c (finish memory) e = rw e (refl, refl)
gone-Agrees c close e = rw e (refl, refl)
gone-Agrees c gc e = (refl, refl)

-- One call: the object answers as promised, and stands for what the promise says.
perform-Agrees :
    (o : HashObject) (c : Context) (call : Call)
    → Represents o c
    → Agrees (promise o call) (perform c call)
perform-Agrees (hashing m) c call a = hashing-Agrees m c call a
perform-Agrees gone c call e = gone-Agrees c call e

replies-promises_from :
    (calls : List Call) (o : HashObject) (c : Context)
    → Represents o c
    → replies c calls ≡ promises o calls
unfolding replies promises
replies-promises_from [] o c r = refl
replies-promises_from (call ∷ calls) o c r =
    let (r', e) = perform-Agrees o c call r in
    ap₂ ◌∷◌ e (replies-promises_from calls (promise o call).0 (perform c call).0 r')

-- A new object answers every sequence of calls as the abstract object does: each digest is the
-- SHA-256 of the updates acknowledged before it, a failed call changes nothing, and after a
-- digest, a close or a collection only closing again is acknowledged.
pub replies-promises :
    (calls : List Call) → replies l_sha256_start calls ≡ promises (hashing []) calls
unfolding l_sha256_start
replies-promises calls =
    replies-promises_from calls (hashing []) l_sha256_start initialize-HasAbsorbed
