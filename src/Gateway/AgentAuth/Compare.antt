-- ===== src/Gateway/AgentAuth/Compare.antt =====
-- `constant_time_eq` of panel/crates/gateway/src/agent_auth.rs, over lists of bytes.
use Prim.Native.Nat.{bit_or, bit_xor}
use tenodera.Prelude.{
  ◌≡◌, ◌↔◌, ℕ, zero, suc, ◌<◌, Bool, true, false, not, ◌&&◌, [], ◌∷◌, arith, Text, text_eq, nat_eq,
  ◌==◌, length, all, All, if◌then◌else◌, refl, ap, sym, ltb, text_beq, text_beq_iff, ◌∙◌,
}

-- `diff |= x ^ y` for each pair; `zip` stops at the end of the shorter list.
unfoldable pub diff : ℕ → Text → Text → ℕ
diff d (x ∷ a) (y ∷ b) = diff (bit_or d (bit_xor x y)) a b
diff d _ _ = d

unfoldable pub constant_time_eq : Text → Text → Bool
unfolding diff
constant_time_eq a b = if not (length a == length b) then false else diff 0 a b == 0

-- The numbers under a bound, the largest first.
numbers : ℕ → Text
numbers zero = []
numbers (suc n) = n ∷ numbers n

all-numbers :
    (test : ℕ → Bool) (bound k : ℕ) → all test (numbers bound) ≡ true → k < bound → test k ≡ true
unfolding numbers
all-numbers test zero k passes small = absurd (omega arith)
all-numbers test (suc bound) k passes small = ground (arith, all-numbers test bound k)

ltb→lt : (a b : ℕ) → ltb a b ≡ true → a < b
ltb→lt a b h = ground arith

and_left : (a b : Bool) → (a && b) ≡ true → a ≡ true
and_left true b h = refl
and_left false b h = h

and_right : (a b : Bool) → (a && b) ≡ true → b ≡ true
and_right true b h = h
and_right false b h = cc

and_assoc : (a b c : Bool) → (a && b && c) ≡ (a && (b && c))
and_assoc true b c = refl
and_assoc false b c = refl

bool_eq : Bool → Bool → Bool
bool_eq true b = b
bool_eq false b = not b

bool_eq_sound : (a b : Bool) → bool_eq a b ≡ true → a ≡ b
unfolding bool_eq
bool_eq_sound true b h = sym h
bool_eq_sound false true h = cc
bool_eq_sound false false h = refl

-- Two facts about bytes, by evaluation at every pair.
xor_row : ℕ → ℕ → Bool
xor_row x y = bool_eq (bit_xor x y == 0) (x == y) && ltb (bit_xor x y) 256

or_row : ℕ → ℕ → Bool
or_row x y = bool_eq (bit_or x y == 0) (x == 0 && y == 0) && ltb (bit_or x y) 256

xor_table : all (λ x. all (xor_row x) (numbers 256)) (numbers 256) ≡ true
unfolding numbers bool_eq xor_row
xor_table = refl

or_table : all (λ x. all (or_row x) (numbers 256)) (numbers 256) ≡ true
unfolding numbers bool_eq or_row
or_table = refl

xor_byte : (x y : ℕ) → x < 256 → y < 256 → ((bit_xor x y == 0) ≡ (x == y)) × (bit_xor x y < 256)
unfolding xor_row
xor_byte x y hx hy =
    let outer = all-numbers (λ z. all (xor_row z) (numbers 256)) 256 x xor_table hx in
    let row = all-numbers (xor_row x) 256 y outer hy in
    let same = bool_eq (bit_xor x y == 0) (x == y) in
    let small = ltb (bit_xor x y) 256 in
    (
      bool_eq_sound (bit_xor x y == 0) (x == y) (and_left same small row),
      ltb→lt (bit_xor x y) 256 (and_right same small row),
    )

or_byte :
    (x y : ℕ) → x < 256 → y < 256 → ((bit_or x y == 0) ≡ (x == 0 && y == 0)) × (bit_or x y < 256)
unfolding or_row
or_byte x y hx hy =
    let outer = all-numbers (λ z. all (or_row z) (numbers 256)) 256 x or_table hx in
    let row = all-numbers (or_row x) 256 y outer hy in
    let same = bool_eq (bit_or x y == 0) (x == 0 && y == 0) in
    let small = ltb (bit_or x y) 256 in
    (
      bool_eq_sound (bit_or x y == 0) (x == 0 && y == 0) (and_left same small row),
      ltb→lt (bit_or x y) 256 (and_right same small row),
    )

-- A text of bytes.
abbrev pub IsBytes : Text → Type 0
IsBytes = All (λ b. b < 256)

diff-zero :
    (d : ℕ) (a b : Text)
    → d < 256
    → IsBytes a
    → IsBytes b
    → length a ≡ length b
    → (diff d a b == 0) ≡ (d == 0 && text_beq a b)
unfolding diff text_beq
diff-zero d [] [] hd ha hb l = ground arith
diff-zero d [] (y ∷ b) hd ha hb l = absurd (omega arith)
diff-zero d (x ∷ a) [] hd ha hb l = absurd (omega arith)
diff-zero d (x ∷ a) (y ∷ b) hd (hx, ha) (hy, hb) l =
    let (xe, xb) = xor_byte x y hx hy in
    let (oe, ob) = or_byte d (bit_xor x y) hd xb in
    diff-zero (bit_or d (bit_xor x y)) a b ob ha hb (omega arith)
    ∙ rw (oe, xe) (and_assoc (d == 0) (x == y) (text_beq a b))

-- On bytes, constant_time_eq answers true exactly if the two sequences are equal.
pub constant_time_eq_iff :
    (a b : Text) → IsBytes a → IsBytes b → (constant_time_eq a b ≡ true) ↔ (a ≡ b)
unfolding constant_time_eq
constant_time_eq_iff a b ha hb = (
  λ h. (text_beq_iff a b).0 (ground (arith, diff-zero 0 a b (omega arith) ha hb)),
  λ e. ground (arith, diff-zero 0 a b (omega arith) ha hb, (text_beq_iff a b).1 e, ap length e),
)
