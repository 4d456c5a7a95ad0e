-- ===== src/Market/Sample.antt =====
-- A concrete text library for the tests: plain texts, which every operation leaves as they are.
use rafuk.Base.{false, none, [], ◌∷◌}
use rafuk.Market.TextLib.{TextLib}

abbrev pub plain_texts : TextLib
plain_texts = record {
  casefold = λ s. s;
  lower = λ s. s;
  is_digit = λ s. false;
  int_of = λ s. none;
  int_text = λ n. "1";
  float_text = λ x. "1.5";
  from_iso = λ s. none;
  strip = λ s. s;
  rstrip = λ s. s;
  split = λ s. s ∷ [];
  translate_letters = λ s. s;
  search = λ p s. false;
  sub = λ p r s. s;
  sub_with = λ p f s. s;
  short_digest = λ s. "0123456789ab";
}
