-- ===== src/Harness/Repository/Tables.antt =====
-- Tables that differ in one row at most.
use multi_agent_based_intell.Prelude.{String, ◌≡◌, false, arith, ◌==◌, string_eq}
use multi_agent_based_intell.Prelude.Dict
use multi_agent_based_intell.Prelude.Dict.{Dict, get-put}

-- One table but for the row under one key.
abbrev pub SameBut : {V : Type 0} → String → Dict String V → Dict String V → Type 0
SameBut key before after = (i : String) → (key == i) ≡ false → Dict.get after i ≡ Dict.get before i

pub put-SameBut :
    {V : Type 0} (d : Dict String V) (k : String) (v : V) → SameBut k d (Dict.put d k v)
put-SameBut d k v i other = ground (arith, get-put d k i v)
