-- ===== src/Result/Truncation.antt =====
-- internal/config/endpoint/result_push.go: what is left of a message that is too long.
use mathlib.Core.List.{append-nil}
use go_uptime.Result.{
  rune_start, maximum_result_message_length, cut_before, truncate_result_message,
}
use go_uptime.Common.{
  ℕ, zero, suc, ◌≤◌, ◌<◌, ◌≡◌, refl, ◌⊎◌, inl, inr, true, [], ◌∷◌, ◌++◌, Bytes, arith, leb, length,
  length-take, take, drop, get_or, take-append-drop, Bool-cases,
}

cut_before-le : (n : ℕ) (message : Bytes) → cut_before n message ≤ n
unfolding cut_before
cut_before-le zero message = omega arith
cut_before-le (suc n) message = ground (arith, cut_before-le n message)

cut_before-rune_start :
    (n : ℕ) (message : Bytes)
    → (cut_before n message ≡ 0) ⊎ (rune_start (get_or message (cut_before n message) 0) ≡ true)
unfolding cut_before
cut_before-rune_start zero message = inl refl
cut_before-rune_start (suc n) message = elim (Bool-cases (rune_start (get_or message (suc n) 0))) [
  | inl starts ↦ inr (rw (starts, cut_before) starts)
  | inr inside ↦ rw (inside, cut_before) (cut_before-rune_start n message)
]

drop-whole : (xs : Bytes) → drop (length xs) xs ≡ []
drop-whole [] = refl
drop-whole (x ∷ xs) = drop-whole xs

append-drop-whole : (xs : Bytes) → xs ++ drop (length xs) xs ≡ xs
append-drop-whole xs = rw drop-whole (append-nil xs)

-- What a message is cut to.
pub record Kept (maximum : ℕ) (message kept : Bytes) : Type 0 where
  pub short : length kept ≤ maximum
  pub prefix : kept ++ drop (length kept) message ≡ message
  pub boundary :
      (kept ≡ message) ⊎ ((length kept ≡ 0) ⊎ (rune_start (get_or message (length kept) 0) ≡ true))

take-Kept :
    (n cut : ℕ) (message : Bytes)
    → cut ≤ n
    → n < length message
    → (cut ≡ 0) ⊎ (rune_start (get_or message cut 0) ≡ true)
    → Kept n message (take cut message)
take-Kept n cut message le long start =
    let size : length (take cut message) ≡ cut = omega (arith, length-take cut message) in
    record {
      short = omega arith;
      prefix = rw size (take-append-drop cut message);
      boundary = rw size (inr start);
    }

-- The message that is kept has at most 1024 bytes, the text begins with it, and it is the whole
-- text, is empty, or is followed in the text by a byte that starts a character: no character is
-- split.
pub truncate_result_message-Kept :
    (message : Bytes) → Kept maximum_result_message_length message (truncate_result_message message)
unfolding truncate_result_message
truncate_result_message-Kept message =
    elim (Bool-cases (leb (length message) maximum_result_message_length)) [
      | inl short ↦
          rw short (record {
            short = ground arith;
            prefix = append-drop-whole message;
            boundary = inl refl;
          })
      | inr long ↦ rw long (
          take-Kept maximum_result_message_length (cut_before maximum_result_message_length message)
            message (cut_before-le maximum_result_message_length message) (ground arith)
            (cut_before-rune_start maximum_result_message_length message))
    ]
