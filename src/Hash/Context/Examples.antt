-- ===== src/Hash/Context/Examples.antt =====
-- The test vector of FIPS 180-4, and the theorems at concrete inputs.
use mathlib.Core.Option
use yaca.Base.{some, [], ◌∷◌, ◌≡◌, refl, arith, take, codes}
use yaca.Hash.Compress.{compress}
use yaca.Hash.Context.{Context, sha256_initialize, sha256_append, sha256_finalize}
use yaca.Hash.Context.Digest.{sha256, finalize-sha256}
use yaca.Hash.Context.Message.{HasAbsorbed, initialize-HasAbsorbed, append-HasAbsorbed}

-- The test vector "abc" of FIPS 180-4.
abc_digest :
    Option.map (λ c. take 4 (sha256_finalize c).1) (sha256_append sha256_initialize (codes "abc"))
    ≡ some (0xba ∷ 0x78 ∷ 0x16 ∷ 0xbf ∷ [])
unfolding sha256_finalize sha256_append sha256_initialize compress
abc_digest = refl

finalize-sha256_example : (sha256_finalize sha256_initialize).1 ≡ sha256 []
finalize-sha256_example = finalize-sha256 [] sha256_initialize initialize-HasAbsorbed

append-HasAbsorbed_example :
    (c : Context) × (sha256_append sha256_initialize (codes "abc") ≡ some c)
    × HasAbsorbed (codes "abc") c
append-HasAbsorbed_example =
    append-HasAbsorbed [] (codes "abc") sha256_initialize initialize-HasAbsorbed (omega arith)
