-- ===== src/Agent/Util/Output.antt =====
-- `read_capped` yields the start of the output, up to the cap.
use tenodera.Prelude.{
  ◌≡◌, refl, ap, ◌∙◌, ℕ, zero, suc, ◌+◌, ◌-◌, ◌≤◌, ◌<◌, true, not, List, [], ◌∷◌, ◌++◌, Text, arith,
  ltb, length, take, is_empty, all, length-append, append-nil, append_assoc, take_all, Bool-cases,
  inl, inr,
}
use tenodera.Agent.Util.{read_more, read_capped}

-- The whole output.
abbrev pub concat : List Text → Text
concat [] = []
concat (chunk ∷ chunks) = chunk ++ concat chunks

take-append : (n : ℕ) (a b : Text) → length a ≤ n → take n (a ++ b) ≡ a ++ take (n - length a) b
take-append n [] b h = ap (λ k. take k b) (omega arith)
take-append zero (x ∷ a) b h = absurd (omega arith)
take-append (suc n) (x ∷ a) b h =
    ap (λ s. x ∷ s) (take-append n a b (omega arith)) ∙ ap (λ k. x ∷ a ++ take k b) (omega arith)

take-append_short : (n : ℕ) (a b : Text) → n ≤ length a → take n (a ++ b) ≡ take n a
take-append_short zero a b h = refl
take-append_short (suc n) [] b h = absurd (omega arith)
take-append_short (suc n) (x ∷ a) b h = ap (λ s. x ∷ s) (take-append_short n a b (omega arith))

-- A chunk that does not fit.
take_cut :
    (cap : ℕ) (buf chunk rest : Text)
    → length buf ≤ cap
    → cap < length buf + length chunk
    → take cap (buf ++ (chunk ++ rest)) ≡ buf ++ take (cap - length buf) chunk
take_cut cap buf chunk rest h over =
    take-append cap buf (chunk ++ rest) h
    ∙ ap (λ s. buf ++ s) (take-append_short (cap - length buf) chunk rest (omega arith))

read_more_exact :
    (cap : ℕ) (buf : Text) (chunks : List Text)
    → length buf ≤ cap
    → all (λ c. not (is_empty c)) chunks ≡ true
    → read_more cap buf chunks
      ≡ (take cap (buf ++ concat chunks), ltb cap (length (buf ++ concat chunks)))
unfolding read_more
read_more_exact cap buf [] h full = ground (arith, append-nil buf, take_all cap buf h)
read_more_exact cap buf (chunk ∷ chunks) h full =
    let l = length-append buf (chunk ++ concat chunks) in
    let l' = length-append chunk (concat chunks) in
    elim (Bool-cases (ltb cap (length buf + length chunk))) [
      | inl over ↦
          let cut = take_cut cap buf chunk (concat chunks) h (ground (arith, over)) in
          ground (arith, full, over, cut, l, l')
      | inr fits ↦
          let small : length (buf ++ chunk) ≤ cap = ground (arith, length-append buf chunk, fits) in
          let next = read_more_exact cap (buf ++ chunk) chunks small (ground (arith, full)) in
          ground (arith, full, fits, next, append_assoc buf chunk (concat chunks))
    ]

-- For reads that each yield at least one byte, read_capped returns the first bytes of the whole
-- output, as many as the cap allows, and says whether the output has more.
pub read_capped_exact :
    (cap : ℕ) (chunks : List Text)
    → all (λ c. not (is_empty c)) chunks ≡ true
    → read_capped cap chunks ≡ (take cap (concat chunks), ltb cap (length (concat chunks)))
unfolding read_capped
read_capped_exact cap chunks full = read_more_exact cap [] chunks (omega arith) full
