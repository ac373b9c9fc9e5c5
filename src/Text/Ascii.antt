-- ===== src/Text/Ascii.antt =====
-- Tables that know ASCII alone, for tests.
use picomx.Prelude.{[], ◌∷◌}
use picomx.Text.Bytes.{bytes_eq}
use picomx.Text.Unicode.{Unicode}

abbrev pub ascii : Unicode
ascii = record {
  upper = λ s. s;
  lower = λ s. s;
  trim = λ s. s;
  words = λ s. s ∷ [];
  fold_eq = λ s t. bytes_eq s t;
}
