-- ===== src/Protocol/Tests.antt =====
-- Runs of the protocol's checks, and the theorems about them at inputs that meet their hypotheses.
use tenodera.Prelude.{◌≡◌, ℕ, zero, suc, [], ◌∷◌, ◌++◌, arith, refl, Text, codes}
use tenodera.Protocol.Channel
use tenodera.Protocol.Channel.{is_id_byte, new_iff, err, ok, too_long, invalid_characters, empty_id}
use tenodera.Protocol.Challenge.{build_challenge_payload, build_challenge_payload_injective, u16_be}

abbrev bytes : ℕ → ℕ → Text
bytes b zero = []
bytes b (suc n) = b ∷ bytes b n

checks :
    (Channel.new (codes "ws-7_a") ≡ ok (codes "ws-7_a"))
    × (Channel.new [] ≡ err empty_id)
    × (Channel.new (bytes b'a' 129) ≡ err too_long)
    × (Channel.new (codes "a.b") ≡ err invalid_characters)
unfolding Channel.new is_id_byte
checks = (refl, refl, refl, refl)

payload_structure :
    build_challenge_payload (bytes 0xaa 32) (codes "srv01") (codes "gid")
    ≡ codes "tenodera-agent-auth-v1"
      ++ (0 ∷ bytes 0xaa 32)
      ++ (0 ∷ 5 ∷ codes "srv01")
      ++ (0 ∷ 3 ∷ codes "gid")
unfolding build_challenge_payload u16_be
payload_structure = refl

build_challenge_payload_injective_example :
    (bytes 0xaa 32 ≡ bytes 0xaa 32) × (codes "srv01" ≡ codes "srv01") × (codes "gid" ≡ codes "gid")
build_challenge_payload_injective_example =
    build_challenge_payload_injective (bytes 0xaa 32) (bytes 0xaa 32) (codes "srv01")
      (codes "srv01") (codes "gid") (codes "gid") (omega arith) (omega arith) (omega arith)
      (omega arith) (omega arith) (omega arith) refl
