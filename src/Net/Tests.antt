-- ===== src/Net/Tests.antt =====
-- Addresses and masks of which the texts are known.
use machinecfg.Prelude.{◌≡◌, refl, none, some, [], ◌∷◌}
use machinecfg.Net.{parse_ip, parse_cidr_mask, mask_text}

addresses :
    (parse_ip "192.168.3.8" ≡ some (192 ∷ 168 ∷ 3 ∷ 8 ∷ []))
    × (parse_ip "192.168.3" ≡ none)
    × (parse_ip "192.168.03.8" ≡ none)
    × (parse_ip "256.1.1.1" ≡ none)
    × (parse_ip "my-cluster.example.com" ≡ none)
    × (parse_ip "fe80::1%eth0" ≡ none)
    × (parse_ip "1::2::3" ≡ none)
    × (parse_ip "fd00::a:1"
        ≡ some (253 ∷ 0 ∷ 0 ∷ 0 ∷ 0 ∷ 0 ∷ 0 ∷ 0 ∷ 0 ∷ 0 ∷ 0 ∷ 0 ∷ 0 ∷ 10 ∷ 0 ∷ 1 ∷ []))
    × (parse_ip "::ffff:1.2.3.4"
        ≡ some (0 ∷ 0 ∷ 0 ∷ 0 ∷ 0 ∷ 0 ∷ 0 ∷ 0 ∷ 0 ∷ 0 ∷ 255 ∷ 255 ∷ 1 ∷ 2 ∷ 3 ∷ 4 ∷ []))
unfolding parse_ip
addresses = (refl, refl, refl, refl, refl, refl, refl, refl, refl)

masks :
    (parse_cidr_mask "10.0.0.7/20" ≡ some (255 ∷ 255 ∷ 240 ∷ 0 ∷ []))
    × (parse_cidr_mask "10.0.0.7/33" ≡ none)
    × (parse_cidr_mask "10.0.0.7" ≡ none)
    × (mask_text (255 ∷ 255 ∷ 240 ∷ 0 ∷ []) ≡ "255.255.240.0")
    × (mask_text
          (255 ∷ 255 ∷ 255 ∷ 255 ∷ 255 ∷ 255 ∷ 255 ∷ 255 ∷ 0 ∷ 0 ∷ 0 ∷ 0 ∷ 0 ∷ 0 ∷ 0 ∷ 0 ∷ [])
        ≡ "ffff:ffff:ffff:ffff::")
unfolding parse_cidr_mask mask_text
masks = (refl, refl, refl, refl, refl)
