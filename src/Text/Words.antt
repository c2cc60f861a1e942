-- ===== src/Text/Words.antt =====
-- strtok on words that are separated by single spaces.
use smart_door_lock_io_t.Common.{
  ℕ, Bytes, Bool-cases, inl, inr, false, List, [], ◌∷◌, ◌++◌, ◌≡◌, ◌≢◌, refl, ap, ◌∙◌, ◌==◌, All,
}
use smart_door_lock_io_t.Text.{flush, tokens_from, tokens}
use mathlib.Core.List.{append_assoc, append-nil}

abbrev pub IsInWord : ℕ → Type 0
IsInWord c = (c == b' ') ≡ false

-- The bytes of a token: no space, and not empty.
abbrev pub IsWord : Bytes → Type 0
IsWord w = (w ≢ []) × All IsInWord w

tokens_from-append :
    (token w s : Bytes) → All IsInWord w → tokens_from token (w ++ s) ≡ tokens_from (token ++ w) s
unfolding tokens_from
tokens_from-append token [] s h = rw append-nil
tokens_from-append token (c ∷ w) s h =
    rw h.0 (tokens_from-append (token ++ c ∷ []) w s h.1 ∙ rw append_assoc)

flush_word : (w : Bytes) (rest : List Bytes) → w ≢ [] → flush w rest ≡ w ∷ rest
flush_word [] rest h = absurd (h refl)
flush_word (c ∷ w) rest h = refl

-- The first token is the text before the first space.
pub tokens_word : (w s : Bytes) → IsWord w → tokens (w ++ b' ' ∷ s) ≡ w ∷ tokens s
unfolding tokens
tokens_word w s h =
    tokens_from-append [] w (b' ' ∷ s) h.1
    ∙ (unfold tokens_from in flush_word w (tokens_from [] s) h.0)

pub tokens_last : (w : Bytes) → IsWord w → tokens w ≡ w ∷ []
unfolding tokens
tokens_last w h =
    ap (tokens_from []) (whole w)
    ∙ tokens_from-append [] w [] h.1
    ∙ (unfold tokens_from in flush_word w [] h.0)
  where
    whole : (w : Bytes) → w ≡ w ++ []
    whole w = rw append-nil

flush-append : (w : Bytes) (rest more : List Bytes) → flush w (rest ++ more) ≡ flush w rest ++ more
flush-append [] rest more = refl
flush-append (c ∷ w) rest more = refl

tokens_from-apart :
    (token w s : Bytes)
    → tokens_from token (w ++ b' ' ∷ s) ≡ tokens_from token w ++ tokens_from [] s
unfolding tokens_from
tokens_from-apart token [] s = flush-append token [] (tokens_from [] s)
tokens_from-apart token (c ∷ w) s = elim (Bool-cases (c == b' ')) [
  | inl space ↦ rw space (
      ap (flush token) (tokens_from-apart [] w s)
      ∙ flush-append token (tokens_from [] w) (tokens_from [] s))
  | inr other ↦ rw other (tokens_from-apart (token ++ c ∷ []) w s)
]

-- A space parts the tokens of any text from those of the text behind it.
pub tokens-apart : (w s : Bytes) → tokens (w ++ b' ' ∷ s) ≡ tokens w ++ tokens s
unfolding tokens
tokens-apart w s = tokens_from-apart [] w s
