-- ===== src/Protocol/Challenge.antt =====
-- protocol/src/auth.rs: the payload that an agent signs, as bytes.
use tenodera.Prelude.{
  ◌≡◌, ℕ, ◌/◌, ◌%◌, ◌<◌, ◌^◌, [], ◌∷◌, ◌++◌, arith, Text, codes, length, append_cancel,
  append_injective, append-nil, refl,
}

-- b"tenodera-agent-auth-v1\0"
abbrev pub domain : Text
domain = codes "tenodera-agent-auth-v1" ++ 0 ∷ []

-- `(n as u16).to_be_bytes()`
unfoldable pub u16_be : ℕ → Text
u16_be n = (n % 2 ^ 16 / 256) ∷ (n % 2 ^ 16 % 256) ∷ []

unfoldable pub build_challenge_payload : Text → Text → Text → Text
build_challenge_payload nonce_bytes hostname gateway_id =
    domain
    ++ (nonce_bytes
        ++ (u16_be (length hostname) ++ (hostname ++ (u16_be (length gateway_id) ++ gateway_id))))

u16_be_injective : {m n : ℕ} → m < 2 ^ 16 → n < 2 ^ 16 → u16_be m ≡ u16_be n → m ≡ n
unfolding u16_be
u16_be_injective {m} {n} hm hn h = ground arith

-- A text behind its length is read back, whatever follows.
framed_injective :
    (s t : Text) {us vs : Text}
    → length s < 2 ^ 16
    → length t < 2 ^ 16
    → u16_be (length s) ++ (s ++ us) ≡ u16_be (length t) ++ (t ++ vs)
    → (s ≡ t) × (us ≡ vs)
framed_injective s t hs ht h =
    let (e, r) =
      append_injective (u16_be (length s)) (u16_be (length t)) (unfold u16_be in refl) h in
    append_injective s t (u16_be_injective hs ht e) r

-- No two handshakes share a payload: with nonces of 32 bytes, and host names and gateway ids of
-- fewer than 65536 bytes, equal payloads have equal nonces, host names and gateway ids.
pub build_challenge_payload_injective :
    (n n' h h' g g' : Text)
    → length n ≡ 32
    → length n' ≡ 32
    → length h < 2 ^ 16
    → length h' < 2 ^ 16
    → length g < 2 ^ 16
    → length g' < 2 ^ 16
    → build_challenge_payload n h g ≡ build_challenge_payload n' h' g'
    → (n ≡ n') × (h ≡ h') × (g ≡ g')
unfolding build_challenge_payload
build_challenge_payload_injective n n' h h' g g' ln ln' lh lh' lg lg' e =
    let (en, r) = append_injective n n' (omega arith) (append_cancel domain e) in
    let (eh, r') = framed_injective h h' lh lh' r in
    let (eg, _) =
      framed_injective g g' {us = []} {vs = []} lg lg' (rw (append-nil g, append-nil g') r') in
    (en, eh, eg)
