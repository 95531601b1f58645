-- ===== src/Tests/Net.antt =====
-- The addresses that Go's net package reads.
use bpf_ninja.Base.{◌≡◌, refl, none, some, [], ◌∷◌, codes}
use bpf_ninja.Go.Net.{v4, v6, parse_ip, parse_cidr}

test_ip :
    (parse_ip (codes "10.0.255.1") ≡ some (v4 (10 ∷ 0 ∷ 255 ∷ 1 ∷ [])))
    × (parse_ip (codes "10.0.0.256") ≡ none)
    × (parse_ip (codes "10.00.0.2") ≡ none)
    × (parse_ip (codes "fe80::1:2")
        ≡ some (v6 (254 ∷ 128 ∷ 0 ∷ 0 ∷ 0 ∷ 0 ∷ 0 ∷ 0 ∷ 0 ∷ 0 ∷ 0 ∷ 0 ∷ 0 ∷ 1 ∷ 0 ∷ 2 ∷ [])))
    × (parse_ip (codes "::ffff:1.2.3.4")
        ≡ some (v6 (0 ∷ 0 ∷ 0 ∷ 0 ∷ 0 ∷ 0 ∷ 0 ∷ 0 ∷ 0 ∷ 0 ∷ 255 ∷ 255 ∷ 1 ∷ 2 ∷ 3 ∷ 4 ∷ [])))
    × (parse_ip (codes "1::2::3") ≡ none)
    × (parse_cidr (codes "10.0.0.0/33") ≡ none)
unfolding parse_ip parse_cidr
test_ip = (refl, refl, refl, refl, refl, refl, refl)
