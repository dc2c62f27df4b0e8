-- ===== src/Hash/Owner/Examples.antt =====
-- The theorems about a hash object at concrete inputs.
use yaca.Base.{[], ◌∷◌, ◌≡◌, arith, codes}
use yaca.Hash.Context.Digest.{sha256}
use yaca.Hash.Owner.{
  digest, no_string, enough, update, finish, gc, replies, wiped, l_sha256_start, l_sha256_finish,
}
use yaca.Hash.Owner.Laws.{update_all, joined, finish-update_all}
use yaca.Hash.Owner.Refinement.{hashing, promises, replies-promises}

finish-update_all_example :
    l_sha256_finish enough (update_all l_sha256_start (codes "ab" ∷ codes "c" ∷ []))
    ≡ (wiped, digest (sha256 (joined (codes "ab" ∷ codes "c" ∷ []))))
finish-update_all_example = finish-update_all (codes "ab" ∷ codes "c" ∷ []) (omega arith)

replies-promises_example :
    replies l_sha256_start (update (codes "abc") ∷ finish no_string ∷ finish enough ∷ gc ∷ [])
    ≡ promises (hashing []) (update (codes "abc") ∷ finish no_string ∷ finish enough ∷ gc ∷ [])
replies-promises_example =
    replies-promises (update (codes "abc") ∷ finish no_string ∷ finish enough ∷ gc ∷ [])
