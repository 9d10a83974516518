-- ===== src/Xtring/Plain.antt =====
-- Texts as lists of bytes with a capacity: the assumptions on aroop's texts can be met.
use nginz.Prelude.{ℕ, refl, List, [], ◌∷◌, ◌++◌, get_or, set, take, drop}
use nginz.Xtring.{Xtring}

pub record PlainTxt : Type 0 where
  pub content : List ℕ
  pub room : ℕ

abbrev pub plain : List ℕ → ℕ → PlainTxt
plain l n = record { content = l; room = n }

abbrev pub plain_xtring : Xtring
plain_xtring = record {
  Txt = PlainTxt;
  bytes = λ t. t.content;
  capacity = λ t. t.room;
  char_at = λ t i. get_or t.content i 0;
  memory = λ t i. get_or t.content i 0;
  set_length = λ n t. record t { content = take n t.content };
  set_char_at = λ i c t. record t { content = set t.content i c };
  concat_char = λ c t. record t { content = t.content ++ c ∷ [] };
  concat = λ t x. record t { content = t.content ++ x.content };
  shift = λ n t. record t { content = drop n t.content };
  truncate = λ n t. record t { content = take n t.content };
  destroyed = plain [] 0;
  of_bytes = λ l. plain l 32;
  char_at_lem = λ t i h. refl;
  memory_lem = λ t i h. refl;
  bytes-set_length = λ n t h. refl;
  bytes-set_char_at = λ i c t h k. refl;
  bytes-concat_char = λ c t h k. refl;
  bytes-concat = λ t x h. refl;
  bytes-shift = λ n t h. refl;
  bytes-truncate = λ n t h. refl;
  bytes-destroyed = refl;
  bytes-of_bytes = λ l. refl;
  capacity-set_length = λ n t. refl;
  capacity-set_char_at = λ i c t. refl;
  capacity-concat_char = λ c t. refl;
  capacity-concat = λ t x. refl;
}
