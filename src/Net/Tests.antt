-- ===== src/Net/Tests.antt =====
-- The checksum of a small packet.
use nos.Prelude.{◌≡◌, refl, [], ◌∷◌, ◌++◌, arith}
use nos.Net.{net_csum_add, net_csum_fin, fold, stored16}
use nos.Net.Checksum.{checksum_verifies}

checksum_verifies_example :
    fold 3 (
      net_csum_add 7 (
        (0x45 ∷ 0 ∷ [])
        ++ (stored16 (net_csum_fin (net_csum_add 7 (0x45 ∷ 0 ∷ 0 ∷ 0 ∷ 10 ∷ []))) ++ (10 ∷ []))))
    ≡ 65535
checksum_verifies_example =
    checksum_verifies 7 1 (0x45 ∷ 0 ∷ []) (10 ∷ []) refl (omega arith) (omega arith)
