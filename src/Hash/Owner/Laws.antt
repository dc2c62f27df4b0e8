-- ===== src/Hash/Owner/Laws.antt =====
-- A hash object from its start to its end.
use yaca.Base.{
  ◌+◌, ◌≤◌, ◌<◌, List, [], ◌∷◌, ◌++◌, append_assoc, append-nil, ◌≡◌, refl, arith, Bytes, length,
  length-append,
}
use yaca.Hash.Context.{Context}
use yaca.Hash.Context.Message.{
  HasAbsorbed, message_limit, initialize-HasAbsorbed, append-HasAbsorbed, append_overflow,
}
use yaca.Hash.Context.Digest.{sha256, finalize-sha256}
use yaca.Hash.Owner.{
  acknowledged, digest, raised_limit, enough, wiped, l_sha256_start, l_sha256_update,
  l_sha256_finish,
}

-- One update after the other; the replies are those of the calls.
pub update_all : Context → List Bytes → Context
update_all c [] = c
update_all c (chunk ∷ chunks) = update_all (l_sha256_update c chunk).0 chunks

abbrev pub joined : List Bytes → Bytes
joined [] = []
joined (chunk ∷ chunks) = chunk ++ joined chunks

module _ (m bytes : Bytes) (c : Context) (a : HasAbsorbed m c) where
  -- An update that fits is acknowledged, and one that does not raises and changes nothing.
  pub update-HasAbsorbed :
      length m + length bytes ≤ message_limit
      → ((l_sha256_update c bytes).1 ≡ acknowledged)
        × HasAbsorbed (m ++ bytes) (l_sha256_update c bytes).0
  unfolding l_sha256_update
  update-HasAbsorbed h =
      let (c', e, a') = append-HasAbsorbed m bytes c a h in simp (a.still_open, e) (refl, a')

  pub update_overflow :
      message_limit < length m + length bytes → l_sha256_update c bytes ≡ (c, raised_limit)
  unfolding l_sha256_update
  update_overflow h = simp (a.still_open, append_overflow m bytes c a h)

update_all-HasAbsorbed :
    (chunks : List Bytes) (m : Bytes) (c : Context)
    → HasAbsorbed m c
    → length m + length (joined chunks) ≤ message_limit
    → HasAbsorbed (m ++ joined chunks) (update_all c chunks)
unfolding update_all
update_all-HasAbsorbed [] m c a h = rw (append-nil m) a
update_all-HasAbsorbed (chunk ∷ chunks) m c a h =
    let n = length-append chunk (joined chunks) in
    let (_, a') = update-HasAbsorbed m chunk c a (omega (arith, n)) in
    rw (← append_assoc m chunk (joined chunks)) (
      update_all-HasAbsorbed chunks (m ++ chunk) (l_sha256_update c chunk).0 a'
        (omega (arith, n, length-append m chunk)))

pub finish-digest :
    (m : Bytes) (c : Context)
    → HasAbsorbed m c
    → l_sha256_finish enough c ≡ (wiped, digest (sha256 m))
unfolding l_sha256_finish
finish-digest m c a = simp (a.still_open, finalize-sha256 m c a)

-- However a message is cut into updates, the finished object has published its SHA-256 and is wiped.
pub finish-update_all :
    (chunks : List Bytes)
    → length (joined chunks) ≤ message_limit
    → l_sha256_finish enough (update_all l_sha256_start chunks)
      ≡ (wiped, digest (sha256 (joined chunks)))
unfolding l_sha256_start
finish-update_all chunks h =
    finish-digest (joined chunks) (update_all l_sha256_start chunks)
      (update_all-HasAbsorbed chunks [] l_sha256_start initialize-HasAbsorbed (omega arith))
