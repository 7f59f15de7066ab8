-- ===== src/Release.antt =====
-- scripts/release-preflight.mjs: the checks of a release's tag, versions, signing key and updater
-- settings. `Buffer.from(…, 'base64')` is the argument `decode`; a file is its text, and what
-- `JSON.parse` makes of a JSON file is given as the fields that the script reads, each of them
-- none where the field is missing or no text.
pub mod Files
pub mod Lines
pub mod Preflight
pub mod Manifest
pub mod Assets
mod Tests
use plugin_pocket.Base.{
  ℕ, Bool, true, false, not, ◌&&◌, ◌||◌, Option, none, some, List, [], ◌∷◌, ◌++◌, Text, codes,
  eq_text, starts_with, if◌then◌else◌, leb, ◌==◌, any, all, drop, length, or_else, empty, trim,
  split, Result, ◌>>=◌, ◌>>◌, reject,
}

pub data Problem : Type 0 where
  unstable_tag version_mismatch no_key no_endpoints insecure_endpoint bad_pubkey not_passive :
      Problem

abbrev pub is_digit : ℕ → Bool
is_digit c = leb b'0' c && leb c b'9'

-- `0|[1-9]\d*`
unfoldable pub is_number : Text → Bool
is_number [] = false
is_number (c ∷ s) = (c == b'0' && empty s) || (leb b'1' c && leb c b'9' && all is_digit s)

abbrev pub are_three : List Text → Bool
are_three (a ∷ b ∷ c ∷ []) = is_number a && is_number b && is_number c
are_three _ = false

-- `/^v(0|[1-9]\d*)\.(0|[1-9]\d*)\.(0|[1-9]\d*)$/`: none of the three parts has a dot.
unfoldable pub is_stable : Text → Bool
is_stable [] = false
is_stable (c ∷ s) = c == b'v' && are_three (split b'.' s)

-- `version !== tag.slice(1)`
abbrev pub differs : Text → Option Text → Bool
differs version none = true
differs version (some found) = not (eq_text found version)

unfoldable pub validate_release :
    Text → List (Option Text) → Option Text → Result Problem (Unit {0})
validate_release tag versions signing_key = do
  reject (not (is_stable tag)) unstable_tag
  reject (any (differs (drop 1 tag)) versions) version_mismatch
  reject (empty (trim (or_else signing_key []))) no_key

-- `config.plugins.updater`; no endpoints where they are no array.
pub record Updater : Type 0 where
  pub endpoints : Option (List Text)
  pub pubkey : Option Text
  pub install_mode : Option Text

abbrev pub is_line_end : ℕ → Bool
is_line_end c = c == 10 || c == 13 || c == 0x2028 || c == 0x2029

-- The lines of a text, as `^` and `$` find them under the flag `m`.
unfoldable pub lines_from : Text → Text → List Text
lines_from cur [] = cur ∷ []
lines_from cur (c ∷ s) =
    let closed = lines_from [] s in
    let longer = lines_from (cur ++ c ∷ []) s in if is_line_end c then cur ∷ closed else longer

abbrev pub is_base64 : ℕ → Bool
is_base64 c =
    (leb b'A' c && leb c b'Z') || (leb b'a' c && leb c b'z') || is_digit c || c == b'+' || c == b'/'

-- `/^RW[A-Za-z0-9+/]{50,}$/m` on one line
unfoldable pub is_key_line : Text → Bool
is_key_line s = starts_with s (codes "RW") && leb 50 (length (drop 2 s)) && all is_base64 (drop 2 s)

unfoldable pub is_minisign : Text → Bool
is_minisign decoded =
    any (λ s. starts_with s (codes "untrusted comment: minisign public key:"))
      (lines_from [] decoded)
    && any is_key_line (lines_from [] decoded)

abbrev pub is_passive : Option Text → Bool
is_passive none = false
is_passive (some mode) = eq_text mode (codes "passive")

abbrev pub none_given : List Text → Bool
none_given [] = true
none_given (e ∷ es) = false

unfoldable pub validate_updater : (Text → Text) → Updater → Result Problem (Unit {0})
validate_updater decode updater = do
  reject (none_given (or_else updater.endpoints [])) no_endpoints
  reject (not (all (λ e. starts_with e (codes "https://")) (or_else updater.endpoints [])))
      insecure_endpoint
  reject (not (is_minisign (decode (or_else updater.pubkey [])))) bad_pubkey
  reject (not (is_passive updater.install_mode)) not_passive

-- The value of `[^"]+` and what stands behind it, from the first quote on.
unfoldable pub to_quote : Text → Text × Text
to_quote [] = ([], [])
to_quote (c ∷ s) = let rest = to_quote s in if c == b'"' then ([], c ∷ s) else (c ∷ rest.0, rest.1)

abbrev pub ends_line : Text → Bool
ends_line [] = true
ends_line (c ∷ s) = is_line_end c

-- `"$` behind the value
abbrev pub closes : Text → Bool
closes [] = false
closes (c ∷ s) = c == b'"' && ends_line s

abbrev pub value_of : Text × Text → Option Text
value_of (value, rest) = if not (empty value) && closes rest then some value else none

-- The match of `^prefix([^"]+)"$` at the start of a line
unfoldable pub match_here : Text → Text → Option Text
match_here prefix s =
    if starts_with s prefix then value_of (to_quote (drop (length prefix) s)) else none

abbrev pub first_some : Option Text → Option Text → Option Text
first_some none o = o
first_some (some v) o = some v

-- `text.match(/^prefix([^"]+)"$/m)?.[1]`; the flag says that a line starts here.
unfoldable pub first_match : Text → Bool → Text → Option Text
first_match prefix starts [] = none
first_match prefix starts (c ∷ s) =
    first_some (if starts then match_here prefix (c ∷ s) else none)
      (first_match prefix (is_line_end c) s)

abbrev pub cargo_version : Text → Option Text
cargo_version = first_match (codes "version = \"") true

abbrev pub go_version : Text → Option Text
go_version = first_match (codes "const Version = \"") true

-- The environment and the files that the script reads.
pub record Inputs : Type 0 where
  pub tag : Option Text
  pub signing_key : Option Text
  pub tauri_version : Option Text
  pub updater : Updater
  pub ui_version : Option Text
  pub desktop_cargo : Text
  pub cli_cargo : Text
  pub version_go : Text

-- `if (import.meta.main) …`; a tag that is not set is tested as the text "undefined".
unfoldable pub preflight : (Text → Text) → Inputs → Result Problem (Unit {0})
preflight decode i =
    validate_release (or_else i.tag (codes "undefined"))
      (i.tauri_version
        ∷ i.ui_version
        ∷ cargo_version i.desktop_cargo
        ∷ cargo_version i.cli_cargo
        ∷ go_version i.version_go
        ∷ [])
      i.signing_key
    >> validate_updater decode i.updater
