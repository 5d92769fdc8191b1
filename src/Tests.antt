-- ===== src/Tests.antt =====
-- The modelled functions at concrete inputs, and the theorems applied to such inputs.
mod Identities
mod Versions
mod Registry
mod Graph
mod Resolution
mod Policies
mod Walk
mod Sequences
mod Challenges
mod Fetching
mod Indexing
use dalec_homebrew.Prelude.{◌+◌, ◌&&◌, ◌||◌, leb, ◌==◌, if◌then◌else◌, refl}
use dalec_homebrew.GoString.Unicode.{Unicode}

-- The ASCII part of Go's tables.
abbrev pub ascii : Unicode
ascii = record {
  is_digit = λ c. leb b'0' c && leb c b'9';
  is_letter = λ c. leb b'a' c && leb c b'z' || leb b'A' c && leb c b'Z';
  is_space = λ c. c == b' ' || leb 9 c && leb c 13;
  to_lower = λ c. if leb b'A' c && leb c b'Z' then c + 32 else c;
  digit_ascii = λ c h. refl;
  letter_ascii = λ c h. refl;
  lower_ascii = λ c h. refl;
}
